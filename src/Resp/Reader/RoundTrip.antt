-- ===== src/Resp/Reader/RoundTrip.antt =====
-- What `Encode` writes, `ReadValue` reads back.
use dragon_cluster_resp_prox.Base.{
  ℕ, zero, suc, ◌+◌, ◌-◌, ◌*◌, ◌/◌, ◌^◌, ◌≡◌, ◌≢◌, ◌≤◌, ◌<◌, refl, sym, ap, subst, ◌∙◌, Bool, true,
  false, [], ◌∷◌, ◌++◌, Bytes, nil, buf, fresh, ℤ, pos, negsuc, some, arith, length, take, drop,
  get_or, ok, ◌>>=◌, All, append_assoc, content-fresh, append-nil, length-append,
}
use dragon_cluster_resp_prox.Resp.Decimal.{
  parse_int64, append_int, decimal, IsInt64, IsDigit, decimal-All, parse_int64-append_int,
}
use dragon_cluster_resp_prox.Resp.Prefix
use dragon_cluster_resp_prox.Resp.Value.{
  Value, value, Values, end, item, count, bulk_string, null_bulk, null_array,
}
use dragon_cluster_resp_prox.Resp.Encode.{crlf, encode, encode_items, encode_items-append}
use dragon_cluster_resp_prox.Resp.Reader.{
  Read, Reader, check_bulk, item_count, take_line, chop, parse_int, read_line, read_bulk,
  read_aggregate, read_typed, read_items, read_value, read_message, with_raw, max_bulk, max_items,
}

-- A text that a line can hold.
abbrev pub IsLine : Bytes → Type 0
IsLine = All (λ c. c ≢ b'\n')

-- The values as they come off the wire, within the reader's limits: no blob error, no verbatim string,
-- no null set and no null map.
mutual
  pub data IsWire : Value → Type 0 where
    simple_string :
        (s : Bytes) → IsLine s → IsWire (value Prefix.simple_string (fresh s) (pos 0) end nil false)
    error : (s : Bytes) → IsLine s → IsWire (value Prefix.error (fresh s) (pos 0) end nil false)
    double : (s : Bytes) → IsLine s → IsWire (value Prefix.double (fresh s) (pos 0) end nil false)
    big_number :
        (s : Bytes) → IsLine s → IsWire (value Prefix.big_number (fresh s) (pos 0) end nil false)
    integer : (n : ℤ) → IsInt64 n → IsWire (value Prefix.integer nil n end nil false)
    null : IsWire (value Prefix.null nil (pos 0) end nil true)
    yes_value : IsWire (value Prefix.boolean nil (pos 1) end nil false)
    no_value : IsWire (value Prefix.boolean nil (pos 0) end nil false)
    bulk : (s : Bytes) → length s ≤ max_bulk → IsWire (bulk_string (buf s))
    null_bulk_string : IsWire null_bulk
    null_list : IsWire null_array
    null_push : IsWire (value Prefix.push nil (pos 0) end nil true)
    array :
        (vs : Values)
        → count vs ≤ max_items
        → AreWire vs
        → IsWire (value Prefix.array nil (pos 0) vs nil false)
    push :
        (vs : Values)
        → count vs ≤ max_items
        → AreWire vs
        → IsWire (value Prefix.push nil (pos 0) vs nil false)
    set :
        (vs : Values)
        → count vs ≤ max_items
        → AreWire vs
        → IsWire (value Prefix.set nil (pos 0) vs nil false)
    map :
        (vs : Values) (pairs : ℕ)
        → count vs ≡ 2 * pairs
        → count vs ≤ max_items
        → AreWire vs
        → IsWire (value Prefix.map nil (pos 0) vs nil false)

  pub data AreWire : Values → Type 0 where
    end_wire : AreWire end
    item_wire : {v : Value} {vs : Values} → IsWire v → AreWire vs → AreWire (item v vs)

take_line_body :
    (body rest : Bytes)
    → IsLine body
    → take_line ((body ++ crlf) ++ rest) ≡ some (body ++ crlf, rest)
unfolding take_line
take_line_body [] rest h = refl
take_line_body (c ∷ body) rest h = ground (arith, take_line_body body rest h.1)

get_or_body : (body tail : Bytes) (d c : ℕ) → get_or (body ++ (c ∷ tail)) (length body) d ≡ c
get_or_body [] tail d c = refl
get_or_body (x ∷ body) tail d c = get_or_body body tail d c

take_body : (body tail : Bytes) {n : ℕ} → n ≡ length body → take n (body ++ tail) ≡ body
take_body [] tail e = rw e refl
take_body (x ∷ body) tail e = rw e (cc (take_body body tail refl))

drop_body : (body tail : Bytes) {n : ℕ} → n ≡ length body → drop n (body ++ tail) ≡ tail
drop_body [] tail e = rw e refl
drop_body (x ∷ body) tail e = rw e (drop_body body tail refl)

chop_body : (body : Bytes) → chop (body ++ crlf) ≡ ok body
unfolding chop
chop_body body =
    let e : length (body ++ crlf) - 2 ≡ length body = omega (arith, length-append body crlf) in
    rw (e, get_or_body body (b'\n' ∷ []) 0 b'\r', take_body body crlf refl)
      (ground (arith, length-append body crlf))

-- A line is read whole, and captured with its end.
read_line_body :
    (body rest c : Bytes)
    → IsLine body
    → read_line (record { unread = (body ++ crlf) ++ rest; captured = c })
      ≡ ok (body, record { unread = rest; captured = c ++ (body ++ crlf) })
unfolding read_line
read_line_body body rest c h =
    rw (take_line_body body rest h, read_line) (rw (chop_body body, ◌>>=◌))

IsLine-digits : (s : Bytes) → All IsDigit s → IsLine s
IsLine-digits [] h = tt
IsLine-digits (c ∷ s) h = (omega arith, IsLine-digits s h.1)

pub IsLine-append_int : (z : ℤ) → IsLine (append_int z)
unfolding append_int
IsLine-append_int (pos n) = IsLine-digits (decimal n) (decimal-All n)
IsLine-append_int (negsuc n) = (omega arith, IsLine-digits (decimal (suc n)) (decimal-All (suc n)))

pub parse_int-append_int : (z : ℤ) → IsInt64 z → parse_int (append_int z) ≡ ok z
unfolding parse_int
parse_int-append_int z h = rw (parse_int64-append_int z h, parse_int)

null_field : parse_int (b'-' ∷ b'1' ∷ []) ≡ ok (negsuc 0)
unfolding parse_int parse_int64
null_field = refl

-- The value's first line is read, and the switch is made on it.
pub read_value_line :
    (f t : ℕ) (s rest c : Bytes)
    → IsLine (t ∷ s)
    → read_value (suc f) (record { unread = ((t ∷ s) ++ crlf) ++ rest; captured = c })
      ≡ read_typed
          (read_value f)
          (t ∷ s)
          (record { unread = rest; captured = c ++ ((t ∷ s) ++ crlf) })
unfolding read_value
read_value_line f t s rest c h = rw (read_line_body (t ∷ s) rest c h, ◌>>=◌) refl

get_or_next :
    (body tail : Bytes) (d b c : ℕ) → get_or (body ++ (b ∷ c ∷ tail)) (length body + 1) d ≡ c
get_or_next [] tail d b c = refl
get_or_next (x ∷ body) tail d b c =
    let e : suc (length body) + 1 ≡ suc (length body + 1) = omega arith in
    rw e (get_or_next body tail d b c)

check_bulk_body :
    (t : ℕ) (s : Bytes) (r : Reader)
    → check_bulk t (length s) (s ++ crlf) r ≡ ok (value t (buf s) (pos 0) end nil false, r)
unfolding check_bulk
check_bulk_body t s r =
    rw (get_or_body s (b'\n' ∷ []) 0 b'\r', get_or_next s [] 0 b'\r' b'\n', take_body s crlf refl)
      refl

read_bulk_body :
    (t : ℕ) (s rest c : Bytes)
    → length s ≤ max_bulk
    → read_bulk t
        (append_int (pos (length s)))
        (record { unread = (s ++ crlf) ++ rest; captured = c })
      ≡ ok (
        value t (buf s) (pos 0) end nil false,
        record { unread = rest; captured = c ++ (s ++ crlf) },
      )
unfolding read_bulk
read_bulk_body t s rest c h =
    let e : length s + 2 ≡ length (s ++ crlf) = omega (arith, length-append s crlf) in
    rw (parse_int-append_int (pos (length s)) (omega arith), ◌>>=◌)
      (rw (take_body (s ++ crlf) rest e, drop_body (s ++ crlf) rest e)
        (ground (
          arith,
          check_bulk_body t s (record { unread = rest; captured = c ++ (s ++ crlf) }),
          length-append (s ++ crlf) rest,
        )))

abbrev pub line : ℕ → Bytes → Bytes
line t s = (t ∷ s) ++ crlf

-- A value that its first line holds whole.
line_value :
    (f t : ℕ) (s rest c : Bytes) (v : Value)
    → IsLine (t ∷ s)
    → 1 ≤ f
    → ((g : ℕ) (r : Reader) → read_typed (read_value g) (t ∷ s) r ≡ ok (v, r))
    → read_value f (record { unread = line t s ++ rest; captured = c })
      ≡ ok (v, record { unread = rest; captured = c ++ line t s })
line_value zero t s rest c v h le k = elim le [ ]
line_value (suc f) t s rest c v h le k = read_value_line f t s rest c h ∙ k f _

-- A value that goes on behind its first line.
body_value :
    (f t : ℕ) (s body rest c : Bytes) (v : Value)
    → IsLine (t ∷ s)
    → 1 ≤ f
    → ((g : ℕ) (c' : Bytes)
        → suc g ≡ f
        → read_typed (read_value g) (t ∷ s) (record { unread = body ++ rest; captured = c' })
          ≡ ok (v, record { unread = rest; captured = c' ++ body }))
    → read_value f (record { unread = (line t s ++ body) ++ rest; captured = c })
      ≡ ok (v, record { unread = rest; captured = c ++ (line t s ++ body) })
body_value zero t s body rest c v h le k = elim le [ ]
body_value (suc f) t s body rest c v h le k =
    ap (λ u. read_value (suc f) (record { unread = u; captured = c }))
      (append_assoc (line t s) body rest)
    ∙ read_value_line f t s (body ++ rest) c h
    ∙ k f (c ++ line t s) refl
    ∙ ap (λ u. ok (v, record { unread = rest; captured = u })) (append_assoc c (line t s) body)

aggregate_value :
    (read : Reader → Read (Value × Reader)) (t n : ℕ) (vs : Values) (r q : Reader) (is_map : Bool)
    → n < 2 ^ 63
    → item_count is_map n ≡ pos (count vs)
    → count vs ≤ max_items
    → read_items read (count vs) r ≡ ok (vs, q)
    → read_aggregate read t (append_int (pos n)) r is_map ≡ ok (value t nil (pos 0) vs nil false, q)
unfolding read_aggregate
aggregate_value read t n vs r q is_map h e le k =
    rw (parse_int-append_int (pos n) h, ◌>>=◌) (rw (e, read_aggregate) (rw k (ground arith)))

length-encode_items :
    (h : Bytes) (vs : Values) → length (encode_items h vs) ≡ length h + length (encode_items [] vs)
length-encode_items h vs =
    ap length (encode_items-append h vs) ∙ length-append h (encode_items [] vs)

-- What the items of a value and the value itself come to.
mutual
  unfolding encode read_typed read_items

  wire_value :
      (v : Value) (f : ℕ) (rest c : Bytes)
      → IsWire v
      → length (encode [] v) ≤ f
      → read_value f (record { unread = encode [] v ++ rest; captured = c })
        ≡ ok (v, record { unread = rest; captured = c ++ encode [] v })
  wire_value _ f rest c (simple_string s h) le =
      rw (content-fresh s)
        (line_value f b'+' s rest c _ (omega arith, h) (omega arith) (λ g r. refl))
  wire_value _ f rest c (error s h) le =
      rw (content-fresh s)
        (line_value f b'-' s rest c _ (omega arith, h) (omega arith) (λ g r. refl))
  wire_value _ f rest c (double s h) le =
      rw (content-fresh s)
        (line_value f b',' s rest c _ (omega arith, h) (omega arith) (λ g r. refl))
  wire_value _ f rest c (big_number s h) le =
      rw (content-fresh s)
        (line_value f b'(' s rest c _ (omega arith, h) (omega arith) (λ g r. refl))
  wire_value _ f rest c (integer n h) le =
      line_value f b':' (append_int n) rest c _ (omega arith, IsLine-append_int n) (omega arith)
        (λ g r. rw (parse_int-append_int n h, read_typed) refl)
  wire_value _ f rest c null le =
      line_value f b'_' [] rest c _ (omega arith) (omega arith) (λ g r. refl)
  wire_value _ f rest c yes_value le =
      line_value f b'#' (b't' ∷ []) rest c _ (omega arith) (omega arith) (λ g r. refl)
  wire_value _ f rest c no_value le =
      line_value f b'#' (b'f' ∷ []) rest c _ (omega arith) (omega arith) (λ g r. refl)
  wire_value _ f rest c (bulk s h) le =
      let first : Bytes = append_int (pos (length s)) in
      subst
        (λ b.
          read_value f (record { unread = b ++ rest; captured = c })
          ≡ ok (bulk_string (buf s), record { unread = rest; captured = c ++ b }))
        (sym (append_assoc (line b'$' first) s crlf))
        (body_value f b'$' first (s ++ crlf) rest c _
          (omega arith, IsLine-append_int (pos (length s))) (omega arith)
          (λ g c' e. read_bulk_body b'$' s rest c' h))
  wire_value _ f rest c null_bulk_string le =
      line_value f b'$' (b'-' ∷ b'1' ∷ []) rest c _ (omega arith) (omega arith)
        (λ g r. rw (null_field, read_typed) refl)
  wire_value _ f rest c null_list le =
      line_value f b'*' (b'-' ∷ b'1' ∷ []) rest c _ (omega arith) (omega arith)
        (λ g r. rw (null_field, read_typed) refl)
  wire_value _ f rest c null_push le =
      line_value f b'>' (b'-' ∷ b'1' ∷ []) rest c _ (omega arith) (omega arith)
        (λ g r. rw (null_field, read_typed) refl)
  wire_value _ f rest c (array vs h k) le =
      let first : Bytes = append_int (pos (count vs)) in
      let size = length-encode_items (line b'*' first) vs in
      rw (encode_items-append (line b'*' first) vs) (
        body_value f b'*' first (encode_items [] vs) rest c _
          (omega arith, IsLine-append_int (pos (count vs))) (omega arith)
          λ g c' e.
            aggregate_value (read_value g) b'*' (count vs) vs _ _ false (omega arith) refl h
              (wire_values vs g rest c' k (omega arith)))
  wire_value _ f rest c (push vs h k) le =
      let first : Bytes = append_int (pos (count vs)) in
      let size = length-encode_items (line b'>' first) vs in
      rw (encode_items-append (line b'>' first) vs) (
        body_value f b'>' first (encode_items [] vs) rest c _
          (omega arith, IsLine-append_int (pos (count vs))) (omega arith)
          λ g c' e.
            aggregate_value (read_value g) b'>' (count vs) vs _ _ false (omega arith) refl h
              (wire_values vs g rest c' k (omega arith)))
  wire_value _ f rest c (set vs h k) le =
      let first : Bytes = append_int (pos (count vs)) in
      let size = length-encode_items (line b'~' first) vs in
      rw (encode_items-append (line b'~' first) vs) (
        body_value f b'~' first (encode_items [] vs) rest c _
          (omega arith, IsLine-append_int (pos (count vs))) (omega arith)
          λ g c' e.
            aggregate_value (read_value g) b'~' (count vs) vs _ _ false (omega arith) refl h
              (wire_values vs g rest c' k (omega arith)))
  wire_value _ f rest c (map vs pairs p h k) le =
      let first : Bytes = append_int (pos (count vs / 2)) in
      let size = length-encode_items (line b'%' first) vs in
      rw (encode_items-append (line b'%' first) vs) (
        body_value f b'%' first (encode_items [] vs) rest c _
          (omega arith, IsLine-append_int (pos (count vs / 2))) (omega arith)
          λ g c' e.
            aggregate_value (read_value g) b'%' (count vs / 2) vs _ _ true (omega arith)
              (ground arith) h (wire_values vs g rest c' k (omega arith)))

  wire_values :
      (vs : Values) (f : ℕ) (rest c : Bytes)
      → AreWire vs
      → length (encode_items [] vs) ≤ f
      → read_items
          (read_value f)
          (count vs)
          (record { unread = encode_items [] vs ++ rest; captured = c })
        ≡ ok (vs, record { unread = rest; captured = c ++ encode_items [] vs })
  wire_values _ f rest c end_wire le = rw (append-nil c) refl
  wire_values _ f rest c (item_wire {v} {vs} h k) le =
      let size = length-encode_items (encode [] v) vs in
      rw (encode_items-append (encode [] v) vs) (
        subst
          (λ u.
            read_items (read_value f) (suc (count vs)) (record { unread = u; captured = c })
            ≡ ok (
              item v vs,
              record { unread = rest; captured = c ++ (encode [] v ++ encode_items [] vs) },
            ))
          (sym (append_assoc (encode [] v) (encode_items [] vs) rest))
          (rw (wire_value v f (encode_items [] vs ++ rest) c h (omega arith), ◌>>=◌)
            (rw (wire_values vs f rest (c ++ encode [] v) k (omega arith), ◌>>=◌)
              (rw (append_assoc c (encode [] v) (encode_items [] vs)) refl))))

-- Every value within the reader's limits whose type is no blob error and no verbatim string, and which
-- is no null set or map, is read back from its encoding, with the raw bytes of exactly that value, and
-- what follows it on the connection is left unread.
pub read_message-encode :
    {v : Value} (rest : Bytes)
    → IsWire v
    → read_message (encode [] v ++ rest) ≡ ok (with_raw v (fresh (encode [] v)), rest)
unfolding read_message
read_message-encode {v} rest h =
    rw
      (
        wire_value v (suc (length (encode [] v ++ rest))) rest [] h
            (omega (arith, length-append (encode [] v) rest)),
        ◌>>=◌,
      )
      refl
