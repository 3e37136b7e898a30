-- ===== src/Resp/Encode.antt =====
-- internal/resp/value.go: `Encode`, which appends the wire form of a value to a buffer.
use dragon_cluster_resp_prox.Base.{
  ℕ, ◌/◌, ◌≡◌, arith, sym, ap, ◌∙◌, Bool, true, ◌||◌, [], ◌∷◌, ◌++◌, ◌==◌, ltb, if◌then◌else◌,
  Bytes, Slice, content, Argv, ℤ, pos, negsuc, append_assoc, append-nil, length,
}
use dragon_cluster_resp_prox.Resp.Decimal.{append_int}
use dragon_cluster_resp_prox.Resp.Prefix
use dragon_cluster_resp_prox.Resp.Value.{Value, value, Values, end, item, count, command_array}

abbrev pub crlf : Bytes
crlf = b'\r' ∷ b'\n' ∷ []

unfoldable pub append_crlf : Bytes → Bytes
append_crlf out = out ++ crlf

-- A type byte and a line behind it.
unfoldable pub line_of : Bytes → ℕ → Bytes → Bytes
unfolding append_crlf
line_of out t s = append_crlf ((out ++ (t ∷ [])) ++ s)

abbrev non_zero : ℤ → Bool
non_zero (pos n) = ltb 0 n
non_zero (negsuc n) = true

-- The cases of the switch. `inner` appends the items, and a count stands before them.
unfoldable pub encode_cases :
    (Bytes → Bytes) → Bytes → (t : ℕ) → (s : Slice) → (n : ℤ) → (items : ℕ) → (null : Bool) → Bytes
unfolding line_of append_int
encode_cases inner out t s n items null =
    if t == Prefix.simple_string
    then line_of out b'+' (content s)
    else if t == Prefix.error
    then line_of out b'-' (content s)
    else if t == Prefix.integer
    then line_of out b':' (append_int n)
    else if t == Prefix.bulk_string
    then (if null
        then out ++ (b'$' ∷ b'-' ∷ b'1' ∷ crlf)
        else append_crlf (line_of out b'$' (append_int (pos (length (content s)))) ++ content s))
    else if t == Prefix.array || t == Prefix.push
    then (if null
        then out ++ (t ∷ b'-' ∷ b'1' ∷ crlf)
        else inner (line_of out t (append_int (pos items))))
    else if t == Prefix.null
    then out ++ (b'_' ∷ crlf)
    else if t == Prefix.boolean
    then (if non_zero n then out ++ (b'#' ∷ b't' ∷ crlf) else out ++ (b'#' ∷ b'f' ∷ crlf))
    else if t == Prefix.map || t == Prefix.set
    then inner (line_of out t (append_int (pos (if t == Prefix.map then items / 2 else items))))
    else line_of out t (content s)

unfoldable mutual
  unfolding encode_cases

  pub encode : Bytes → Value → Bytes
  encode out (value t s n vs r null) =
      if ltb 0 (length (content r))
      then out ++ content r
      else encode_cases (λ o. encode_items o vs) out t s n (count vs) null

  pub encode_items : Bytes → Values → Bytes
  encode_items out end = out
  encode_items out (item v vs) = encode_items (encode out v) vs

unfoldable pub encode_command : Bytes → Argv → Bytes
unfolding encode
encode_command out argv = encode out (command_array argv)

line_of-append : (out : Bytes) (t : ℕ) (s : Bytes) → line_of out t s ≡ out ++ line_of [] t s
unfolding line_of
line_of-append out t s = simp append_assoc

inner_line :
    (inner : Bytes → Bytes)
    → ((o : Bytes) → inner o ≡ o ++ inner [])
    → (out : Bytes) (t : ℕ) (s : Bytes) → inner (line_of out t s) ≡ out ++ inner (line_of [] t s)
inner_line inner h out t s =
    h (line_of out t s)
    ∙ ap (λ b. b ++ inner []) (line_of-append out t s)
    ∙ append_assoc out (line_of [] t s) (inner [])
    ∙ ap (◌++◌ out) (sym (h (line_of [] t s)))

bulk_append :
    (out : Bytes) (t : ℕ) (s body : Bytes)
    → append_crlf (line_of out t s ++ body) ≡ out ++ append_crlf (line_of [] t s ++ body)
unfolding append_crlf
bulk_append out t s body = rw (line_of-append out t s) (simp append_assoc)

encode_cases-append :
    (inner : Bytes → Bytes)
    → ((o : Bytes) → inner o ≡ o ++ inner [])
    → (out : Bytes) (t : ℕ) (s : Slice) (n : ℤ) (items : ℕ) (null : Bool)
    → encode_cases inner out t s n items null ≡ out ++ encode_cases inner [] t s n items null
unfolding encode_cases
encode_cases-append inner h out t s n items null = ground (
  arith,
  line_of-append out t (content s),
  line_of-append out b'+' (content s),
  line_of-append out b'-' (content s),
  line_of-append out b':' (append_int n),
  bulk_append out b'$' (append_int (pos (length (content s)))) (content s),
  inner_line inner h out t (append_int (pos items)),
  inner_line inner h out t (append_int (pos (items / 2))),
)

mutual
  unfolding encode

  encode_append : (v : Value) (out : Bytes) → encode out v ≡ out ++ encode [] v
  encode_append (value t s n vs r null) out = ground (
    arith,
    encode_cases-append (λ (o : Bytes). encode_items o vs) (λ (o : Bytes). encode_items_append vs o)
        out t s n (count vs) null,
  )

  encode_items_append :
      (vs : Values) (out : Bytes) → encode_items out vs ≡ out ++ encode_items [] vs
  encode_items_append end out = sym (append-nil out)
  encode_items_append (item v vs) out =
      encode_items_append vs (encode out v)
      ∙ ap (λ b. b ++ encode_items [] vs) (encode_append v out)
      ∙ append_assoc out (encode [] v) (encode_items [] vs)
      ∙ ap (◌++◌ out) (sym (encode_items_append vs (encode [] v)))

-- Encoding appends to the buffer and leaves what is in it alone.
pub encode-append : (out : Bytes) (v : Value) → encode out v ≡ out ++ encode [] v
encode-append out v = encode_append v out

pub encode_items-append :
    (out : Bytes) (vs : Values) → encode_items out vs ≡ out ++ encode_items [] vs
encode_items-append out vs = encode_items_append vs out
