-- ===== src/Resp/Decimal.antt =====
-- `strconv.AppendInt`, `strconv.ParseInt` at base 10 and 64 bits, and `strconv.Atoi`.
use dragon_cluster_resp_prox.Base.{
  ℕ, zero, suc, ◌+◌, ◌-◌, ◌*◌, ◌/◌, ◌%◌, ◌^◌, ◌<◌, ◌≤◌, ◌≡◌, ◌≢◌, refl, Bool, true, false, ◌∙◌, [],
  ◌∷◌, Option, none, some, ◌==◌, ltb, if◌then◌else◌, is_digit, Bytes, ℤ, pos, negsuc, arith, All,
}

-- The digits of `n` in front of `out`; `f` bounds the number of rounds.
digits : ℕ → ℕ → Bytes → Bytes
digits zero n out = out
digits (suc f) n out =
    let shorter = digits f (n / 10) ((b'0' + n % 10) ∷ out) in
    if ltb n 10 then (b'0' + n) ∷ out else shorter

unfoldable pub decimal : ℕ → Bytes
unfolding digits
decimal n = digits (suc n) n []

unfoldable pub append_int : ℤ → Bytes
unfolding decimal
append_int (pos n) = decimal n
append_int (negsuc n) = b'-' ∷ decimal (suc n)

-- The number that a text of digits spells behind `n`.
unfoldable pub scan : Bytes → ℕ → Option ℕ
scan [] n = some n
scan (c ∷ s) n = let rest = scan s (n * 10 + (c - b'0')) in if is_digit c then rest else none

parse_digits : Bytes → Option ℕ
unfolding scan
parse_digits [] = none
parse_digits (c ∷ s) = scan (c ∷ s) 0

in_range : Bool → Option ℕ → Option ℤ
in_range negative none = none
in_range negative (some zero) = some (pos zero)
in_range negative (some (suc n)) =
    if negative
    then if ltb n (2 ^ 63) then some (negsuc n) else none
    else if ltb (suc n) (2 ^ 63)
    then some (pos (suc n))
    else none

-- An optional sign, digits, and a value that fits an int64.
unfoldable pub parse_int64 : Bytes → Option ℤ
unfolding parse_digits in_range
parse_int64 [] = none
parse_int64 (c ∷ s) =
    if c == b'-'
    then in_range true (parse_digits s)
    else if c == b'+'
    then in_range false (parse_digits s)
    else in_range false (parse_digits (c ∷ s))

-- An integer that an int64 can hold.
abbrev pub IsInt64 : ℤ → Type 0
IsInt64 (pos n) = n < 2 ^ 63
IsInt64 (negsuc n) = n < 2 ^ 63

abbrev pub IsDigit : ℕ → Type 0
IsDigit c = (b'0' ≤ c) × (c ≤ b'9')

parse_digits-scan : (s : Bytes) → s ≢ [] → parse_digits s ≡ scan s 0
unfolding parse_digits
parse_digits-scan [] h = absurd (h refl)
parse_digits-scan (c ∷ s) h = refl

digits-All : (f n : ℕ) (out : Bytes) → n < f → All IsDigit out → All IsDigit (digits f n out)
unfolding digits
digits-All zero n out h k = elim h [ ]
digits-All (suc f) n out h k = ground (arith, digits-All f (n / 10) ((b'0' + n % 10) ∷ out))

pub decimal-All : (n : ℕ) → All IsDigit (decimal n)
unfolding decimal
decimal-All n = digits-All (suc n) n [] (omega arith) tt

scan-digits : (f n : ℕ) (out : Bytes) → n < f → scan (digits f n out) 0 ≡ scan out n
unfolding digits scan
scan-digits zero n out h = elim h [ ]
scan-digits (suc f) n out h = ground (arith, scan-digits f (n / 10) ((b'0' + n % 10) ∷ out))

digits-ne-nil : (f n : ℕ) (out : Bytes) → n < f → digits f n out ≢ []
unfolding digits
digits-ne-nil zero n out h = elim h [ ]
digits-ne-nil (suc f) n out h = ground (arith, digits-ne-nil f (n / 10) ((b'0' + n % 10) ∷ out))

pub decimal-ne-nil : (n : ℕ) → decimal n ≢ []
unfolding decimal
decimal-ne-nil n = digits-ne-nil (suc n) n [] (omega arith)

parse_digits-decimal : (n : ℕ) → parse_digits (decimal n) ≡ some n
unfolding decimal
parse_digits-decimal n =
    parse_digits-scan (digits (suc n) n []) (digits-ne-nil (suc n) n [] (omega arith))
    ∙ scan-digits (suc n) n [] (omega arith)
    ∙ unfold scan in refl

pub scan-decimal : (n : ℕ) → scan (decimal n) 0 ≡ some n
unfolding decimal
scan-decimal n = scan-digits (suc n) n [] (omega arith) ∙ unfold scan in refl

-- Without a sign the text is read as digits.
parse_int64-digits :
    (s : Bytes) → All IsDigit s → s ≢ [] → parse_int64 s ≡ in_range false (parse_digits s)
unfolding parse_int64
parse_int64-digits [] h k = absurd (k refl)
parse_int64-digits (c ∷ s) h k = ground arith

-- Every int64 is read back from its decimal print.
pub parse_int64-append_int : (z : ℤ) → IsInt64 z → parse_int64 (append_int z) ≡ some z
unfolding append_int in_range
parse_int64-append_int (pos zero) h =
    rw (parse_int64-digits (decimal 0) (decimal-All 0) (decimal-ne-nil 0), parse_digits-decimal 0)
      refl
parse_int64-append_int (pos (suc n)) h =
    rw
      (
        parse_int64-digits (decimal (suc n)) (decimal-All (suc n)) (decimal-ne-nil (suc n)),
        parse_digits-decimal (suc n),
      )
      (ground arith)
parse_int64-append_int (negsuc n) h =
    unfold parse_int64 in rw (parse_digits-decimal (suc n)) (ground arith)
