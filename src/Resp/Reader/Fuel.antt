-- ===== src/Resp/Reader/Fuel.antt =====
-- `readValue` always comes to an end: a nested call has at least two bytes less to read.
use dragon_cluster_resp_prox.Base.{
  ℕ, zero, suc, ◌+◌, ◌≡◌, ◌≢◌, ◌≤◌, ◌<◌, refl, Bool, true, false, [], ◌∷◌, ◌⊎◌, inl, inr, ltb,
  if◌then◌else◌, Bytes, nil, fresh, ℤ, pos, negsuc, Option, none, some, Option-cases, arith, length,
  ok, err, ◌>>=◌, length-drop-le, if_both,
}
use dragon_cluster_resp_prox.Resp.Decimal.{parse_int64}
use dragon_cluster_resp_prox.Resp.Value.{Value, value}
use dragon_cluster_resp_prox.Resp.Reader.{
  Read, protocol, io, crashed, out_of_fuel, Reader, take_line, chop, parse_int, read_line,
  read_bulk, read_aggregate, item_count, check_bulk, read_typed, read_items, read_value,
  read_message, with_raw, max_items,
}

-- The call ends with an error of the program, or with less than `n` bytes left.
abbrev pub Ends : {A : Type 0} → ℕ → Read (A × Reader) → Type 0
Ends n (ok p) = length p.1.unread < n
Ends n (err out_of_fuel) = ⊥
Ends n (err _) = Unit

Ends-bind :
    {A B : Type 0} (m n : ℕ) (x : Read (A × Reader)) (f : A × Reader → Read (B × Reader))
    → Ends m x
    → ((p : A × Reader) → length p.1.unread < m → Ends n (f p))
    → Ends n (x >>= f)
Ends-bind m n (ok p) f h k = k p h
Ends-bind m n (err protocol) f h k = tt
Ends-bind m n (err io) f h k = tt
Ends-bind m n (err crashed) f h k = tt
Ends-bind m n (err out_of_fuel) f h k = h

Ends-mono : {A : Type 0} (m n : ℕ) (x : Read (A × Reader)) → Ends m x → m ≤ n → Ends n x
Ends-mono m n (ok p) h le = omega arith
Ends-mono m n (err protocol) h le = tt
Ends-mono m n (err io) h le = tt
Ends-mono m n (err crashed) h le = tt
Ends-mono m n (err out_of_fuel) h le = h

-- A line takes one byte at least.
abbrev Shorter : Bytes → Option (Bytes × Bytes) → Type 0
Shorter s none = Unit
Shorter s (some p) = length p.1 < length s

take_line-Shorter : (s : Bytes) → Shorter s (take_line s)
unfolding take_line
take_line-Shorter [] = tt
take_line-Shorter (c ∷ s) = ground (arith, take_line-Shorter s)

read_line-Ends : (r : Reader) → Ends (length r.unread) (read_line r)
unfolding read_line chop
read_line-Ends r = ground (arith, take_line-Shorter r.unread)

-- A field is a number or a protocol error, whatever it holds.
field_cases :
    (field : Bytes) → (parse_int field ≡ err protocol) ⊎ ((n : ℤ) × (parse_int field ≡ ok n))
unfolding parse_int
field_cases field = elim (Option-cases (parse_int64 field)) [
  | inl e ↦ inl (rw (e, parse_int) refl)
  | inr (n, e) ↦ inr (n, rw (e, parse_int) refl)
]

read_bulk-Ends :
    (t : ℕ) (field : Bytes) (r : Reader) → Ends (suc (length r.unread)) (read_bulk t field r)
unfolding read_bulk check_bulk
read_bulk-Ends t field r = elim (field_cases field) [
  | inl e ↦ rw (e, read_bulk) tt
  | inr (negsuc n, e) ↦ rw (e, read_bulk) (omega arith)
  | inr (pos n, e) ↦ rw (e, read_bulk) (ground (arith, length-drop-le (n + 2) r.unread))
]

-- `read` may be called where less than `f` bytes are left, and takes one at least.
module _ (f : ℕ) (read : Reader → Read (Value × Reader))
    (ends : (r : Reader) → length r.unread < f → Ends (length r.unread) (read r)) where
  read_items-Ends :
      (k : ℕ) (r : Reader)
      → length r.unread < f
      → Ends (suc (length r.unread)) (read_items read k r)
  unfolding read_items
  read_items-Ends zero r h = omega arith
  read_items-Ends (suc k) r h = Ends-bind (length r.unread) _ (read r) _ (ends r h) λ p lt.
      Ends-bind (suc (length p.1.unread)) _ (read_items read k p.1) _
        (read_items-Ends k p.1 (omega arith)) λ q le. omega arith

  read_aggregate-Ends :
      (t : ℕ) (field : Bytes) (r : Reader) (is_map : Bool)
      → length r.unread < f
      → Ends (suc (length r.unread)) (read_aggregate read t field r is_map)
  unfolding read_aggregate
  read_aggregate-Ends t field r is_map h = elim (field_cases field) [
    | inl e ↦ rw (e, read_aggregate) tt
    | inr (negsuc n, e) ↦ rw (e, read_aggregate) (omega arith)
    | inr (pos n, e) ↦ rw (e, read_aggregate) (go (item_count is_map n))
  ]
    where
      go :
          (z : ℤ)
          → Ends {A = Value} (suc (length r.unread)) (elim z [
            | negsuc _ ↦ err crashed
            | pos n ↦
                if ltb max_items n
                then err protocol
                else (read_items read n r >>= λ p. ok (value t nil (pos 0) p.0 nil false, p.1))
          ])
      go (negsuc m) = tt
      go (pos m) =
          if_both (Ends (suc (length r.unread))) (ltb max_items m) tt
            (Ends-bind _ _ (read_items read m r) _ (read_items-Ends m r h) (λ p lt. lt))

  read_typed-Ends :
      (line : Bytes) (r : Reader)
      → length r.unread < f
      → Ends (suc (length r.unread)) (read_typed read line r)
  unfolding read_typed
  read_typed-Ends [] r h = tt
  read_typed-Ends (t ∷ field) r h = ground (
    arith,
    field_cases field,
    read_bulk-Ends t field r,
    read_aggregate-Ends t field r false h,
    read_aggregate-Ends t field r true h,
    Ends-bind (suc (length r.unread)) (suc (length r.unread)) (read_aggregate read t field r true)
        (λ (p : Value × Reader). read p.1) (read_aggregate-Ends t field r true h)
        (λ (p : Value × Reader) (lt : length p.1.unread < suc (length r.unread)).
          Ends-mono _ _ (read p.1) (ends p.1 (omega arith)) (omega arith)),
  )

read_value-Ends :
    (f : ℕ) (r : Reader) → length r.unread < f → Ends (length r.unread) (read_value f r)
unfolding read_value
read_value-Ends zero r h = elim h [ ]
read_value-Ends (suc f) r h = Ends-bind _ _ (read_line r) _ (read_line-Ends r) λ p lt.
    Ends-mono _ _ (read_typed (read_value f) p.0 p.1)
      (read_typed-Ends f (read_value f) (read_value-Ends f) p.0 p.1 (omega arith)) lt

-- The fuel that `ReadValue` is given is enough: whatever the bytes are, it returns a value or an
-- error of the program, and a value takes at least one byte.
abbrev pub Returns : ℕ → Read (Value × Bytes) → Type 0
Returns n (ok p) = length p.1 < n
Returns n (err e) = e ≢ out_of_fuel

Ends-Returns :
    (n : ℕ) (x : Read (Value × Reader))
    → Ends n x
    → Returns n (x >>= λ p. ok (with_raw p.0 (fresh p.1.captured), p.1.unread))
Ends-Returns n (ok p) h = h
Ends-Returns n (err protocol) h = λ e. cc
Ends-Returns n (err io) h = λ e. cc
Ends-Returns n (err crashed) h = λ e. cc
Ends-Returns n (err out_of_fuel) h = absurd h

-- Reading a value never runs out of fuel, and a value that is read leaves fewer bytes.
pub read_message_total : (input : Bytes) → Returns (length input) (read_message input)
unfolding read_message
read_message_total input =
    Ends-Returns (length input) _ (
      read_value-Ends (suc (length input)) (record { unread = input; captured = [] }) (omega arith))
