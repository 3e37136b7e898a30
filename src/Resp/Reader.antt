-- ===== src/Resp/Reader.antt =====
-- internal/resp/parse.go: `Reader`, over the bytes that the connection still delivers. The end of
-- `unread` is where a read fails: end of file, a deadline or another error of the connection.
pub mod Fuel
pub mod Refuses
pub mod RoundTrip
use dragon_cluster_resp_prox.Base.{
  ℕ, zero, suc, ◌+◌, ◌-◌, ◌*◌, ◌%◌, ◌^◌, Bool, true, false, not, ◌||◌, [], ◌∷◌, ◌++◌, ◌==◌, ltb,
  if◌then◌else◌, Bytes, Slice, nil, buf, fresh, ℤ, pos, negsuc, Option, none, some, length, take,
  drop, get_or, Result, ok, err, ◌>>=◌,
}
use dragon_cluster_resp_prox.Resp.Decimal.{parse_int64}
use dragon_cluster_resp_prox.Resp.Prefix
use dragon_cluster_resp_prox.Resp.Value.{Value, value, Values, end, item}

-- `crashed` is a panic of the runtime; `out_of_fuel` is the model's own.
pub data ReadError : Type 0 where
  protocol io crashed out_of_fuel : ReadError

-- What is left to read, and the raw bytes of the value that is being read.
pub record Reader : Type 0 where
  pub unread : Bytes
  pub captured : Bytes

abbrev pub Read : Type 0 → Type 0
Read A = Result ReadError A

abbrev pub max_bulk : ℕ
max_bulk = 512 * 1024 * 1024

abbrev pub max_items : ℕ
max_items = 1_000_000

-- `strconv.ParseInt`, any failure of which is a protocol error.
unfoldable pub parse_int : Bytes → Read ℤ
parse_int b = elim (parse_int64 b) [ none ↦ err protocol | some n ↦ ok n ]

-- The bytes up to the first newline, that included, and those behind it.
unfoldable pub take_line : Bytes → Option (Bytes × Bytes)
take_line [] = none
take_line (c ∷ s) =
    if c == b'\n'
    then some (c ∷ [], s)
    else elim (take_line s) [ none ↦ none | some (line, rest) ↦ some (c ∷ line, rest) ]

-- A line without its line end, which must be CR LF.
unfoldable pub chop : Bytes → Read Bytes
chop line =
    if ltb (length line) 2 || not (get_or line (length line - 2) 0 == b'\r')
    then err protocol
    else ok (take (length line - 2) line)

unfoldable pub read_line : Reader → Read (Bytes × Reader)
unfolding take_line chop
read_line r = elim (take_line r.unread) [
  | none ↦ err io
  | some (line, rest) ↦
      chop line >>= λ body. ok (body, record { unread = rest; captured = r.captured ++ line })
]

-- `buf` has the payload and two bytes more.
check_bulk : ℕ → ℕ → Bytes → Reader → Read (Value × Reader)
check_bulk t n body r =
    if not (get_or body n 0 == b'\r') || not (get_or body (n + 1) 0 == b'\n')
    then err protocol
    else ok (value t (buf (take n body)) (pos 0) end nil false, r)

-- A field of -1, or any other negative number, is a null value.
unfoldable pub read_bulk : ℕ → Bytes → Reader → Read (Value × Reader)
unfolding parse_int check_bulk
read_bulk t field r = parse_int field >>= elim [
  | negsuc _ ↦ ok (value t nil (pos 0) end nil true, r)
  | pos n ↦
      if ltb max_bulk n
      then err protocol
      else if ltb (length r.unread) (n + 2)
      then err io
      else check_bulk t n (take (n + 2) r.unread) (record {
        unread = drop (n + 2) r.unread;
        captured = r.captured ++ take (n + 2) r.unread;
      })
]

-- The int64 that a 64-bit pattern stands for.
abbrev pub signed64 : ℕ → ℤ
signed64 w = if ltb w (2 ^ 63) then pos w else negsuc (2 ^ 64 - w - 1)

-- `count *= 2` wraps around.
abbrev item_count : Bool → ℕ → ℤ
item_count is_map n = if is_map then signed64 (2 * n % 2 ^ 64) else pos n

-- The loop over the items.
unfoldable pub read_items : (Reader → Read (Value × Reader)) → ℕ → Reader → Read (Values × Reader)
read_items read zero r = ok (end, r)
read_items read (suc k) r = read r >>= λ p. read_items read k p.1 >>= λ q. ok (item p.0 q.0, q.1)

-- `make` panics at a negative length.
unfoldable pub read_aggregate :
    (Reader → Read (Value × Reader)) → ℕ → Bytes → Reader → Bool → Read (Value × Reader)
unfolding parse_int read_items
read_aggregate read t field r is_map = parse_int field >>= elim [
  | negsuc _ ↦ ok (value t nil (pos 0) end nil true, r)
  | pos n ↦ elim (item_count is_map n) [
    | negsuc _ ↦ err crashed
    | pos count ↦
        if ltb max_items count
        then err protocol
        else (read_items read count r >>= λ p. ok (value t nil (pos 0) p.0 nil false, p.1))
  ]
]

-- `len(line) > 1 && (line[1] == 't' || line[1] == 'T')`, on the line behind its first byte.
is_true : Bytes → Bool
is_true [] = false
is_true (c ∷ _) = c == b't' || c == b'T'

-- The switch on the first byte of the line; `read` is the recursive call.
unfoldable pub read_typed :
    (Reader → Read (Value × Reader)) → Bytes → Reader → Read (Value × Reader)
unfolding read_bulk read_aggregate is_true
read_typed read [] r = err protocol
read_typed read (t ∷ field) r =
    if t == Prefix.simple_string || t == Prefix.error
    then ok (value t (fresh field) (pos 0) end nil false, r)
    else if t == Prefix.integer
    then (parse_int field >>= λ n. ok (value t nil n end nil false, r))
    else if t == Prefix.bulk_string || t == Prefix.blob_error || t == Prefix.verbatim
    then read_bulk t field r
    else if t == Prefix.array || t == Prefix.push || t == Prefix.set
    then read_aggregate read t field r false
    else if t == Prefix.map
    then read_aggregate read t field r true
    else if t == Prefix.null
    then ok (value t nil (pos 0) end nil true, r)
    else if t == Prefix.boolean
    then ok (value t nil (if is_true field then pos 1 else pos 0) end nil false, r)
    else if t == Prefix.double || t == Prefix.big_number
    then ok (value t (fresh field) (pos 0) end nil false, r)
    else if t == Prefix.attribute
    then (read_aggregate read t field r true >>= λ p. read p.1)
    else err protocol

-- Each nested call has one unit of fuel less.
unfoldable pub read_value : ℕ → Reader → Read (Value × Reader)
unfolding read_line read_typed
read_value zero r = err out_of_fuel
read_value (suc fuel) r = read_line r >>= λ p. read_typed (read_value fuel) p.0 p.1

abbrev pub with_raw : Value → Slice → Value
with_raw (value t s n vs _ null) r = value t s n vs r null

-- `ReadValue`: one value with its raw bytes, and what is left to read. A nested value takes a line
-- of two bytes at least, so the fuel is enough (Reader/Fuel).
unfoldable pub read_message : Bytes → Read (Value × Bytes)
read_message input =
    read_value (suc (length input)) (record { unread = input; captured = [] }) >>= λ p.
    ok (with_raw p.0 (fresh p.1.captured), p.1.unread)
