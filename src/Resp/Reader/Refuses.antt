-- ===== src/Resp/Reader/Refuses.antt =====
-- Wire input that the reader does not survive, and values that `Encode` writes in a form that the
-- reader does not take back.
use dragon_cluster_resp_prox.Base.{
  ℕ, ◌-◌, ◌*◌, ◌%◌, ◌^◌, ◌≡◌, ◌≤◌, ◌<◌, refl, ◌∙◌, true, ◌⊎◌, [], ◌∷◌, ◌++◌, Bytes, pos, negsuc,
  arith, length, err, ◌>>=◌,
}
use dragon_cluster_resp_prox.Resp.Decimal.{append_int}
use dragon_cluster_resp_prox.Resp.Prefix
use dragon_cluster_resp_prox.Resp.Value.{Value}
use dragon_cluster_resp_prox.Resp.Reader.{
  Read, Reader, crashed, read_aggregate, item_count, read_typed, read_message,
}
use dragon_cluster_resp_prox.Resp.Reader.RoundTrip.{
  line, IsLine-append_int, parse_int-append_int, read_value_line,
}

-- The doubled count of a map header from 2 ^ 62 on is a negative int.
item_count_wraps : (n : ℕ) → 2 ^ 62 ≤ n → n < 2 ^ 63 → (m : ℕ) × (item_count true n ≡ negsuc m)
item_count_wraps n lo hi = (2 ^ 64 - 2 * n % 2 ^ 64 - 1, ground arith)

read_aggregate-crashed :
    (read : Reader → Read (Value × Reader)) (t n : ℕ) (r : Reader)
    → 2 ^ 62 ≤ n
    → n < 2 ^ 63
    → read_aggregate read t (append_int (pos n)) r true ≡ err crashed
unfolding read_aggregate
read_aggregate-crashed read t n r lo hi =
    let (m, e) = item_count_wraps n lo hi in
    rw (parse_int-append_int (pos n) hi, ◌>>=◌) (rw (e, read_aggregate) refl)

read_typed-crashed :
    (read : Reader → Read (Value × Reader)) (t n : ℕ) (r : Reader)
    → (t ≡ Prefix.map) ⊎ (t ≡ Prefix.attribute)
    → 2 ^ 62 ≤ n
    → n < 2 ^ 63
    → read_typed read (t ∷ append_int (pos n)) r ≡ err crashed
unfolding read_typed
read_typed-crashed read t n r k lo hi = ground (arith, read_aggregate-crashed read t n r lo hi)

-- A map or attribute header with a count from 2 ^ 62 up to the largest int64 makes the reader panic,
-- whatever comes behind it.
pub read_message-crashed :
    (t n : ℕ) (rest : Bytes)
    → (t ≡ Prefix.map) ⊎ (t ≡ Prefix.attribute)
    → 2 ^ 62 ≤ n
    → n < 2 ^ 63
    → read_message (line t (append_int (pos n)) ++ rest) ≡ err crashed
unfolding read_message
read_message-crashed t n rest k lo hi =
    let first =
      read_value_line (length (line t (append_int (pos n)) ++ rest)) t (append_int (pos n)) rest []
        (omega arith, IsLine-append_int (pos n)) in
    rw (first ∙ read_typed-crashed _ t n _ k lo hi, ◌>>=◌) refl
