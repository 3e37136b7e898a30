-- ===== src/Command/Database/Prefixes.antt =====
-- Virtual databases are told apart by the prefixes of their keys.
use dragon_cluster_resp_prox.Base.{
  ℕ, zero, suc, ◌≡◌, ◌≢◌, ◌<◌, refl, sym, ap, ◌∙◌, true, false, [], ◌∷◌, ◌++◌, Bytes, Slice,
  content, length, drop, All, arith, is_prefix-append, append_assoc,
}
use dragon_cluster_resp_prox.Resp.Decimal.{
  decimal, decimal-All, IsDigit, decimal-ne-nil, scan, scan-decimal,
}
use dragon_cluster_resp_prox.Command.Database.{
  db_prefix, digits_then_colon, has_virtual_db_prefix, prefix_key, strip_key,
}

drop-append : (xs ys : Bytes) → drop (length xs) (xs ++ ys) ≡ ys
drop-append [] ys = refl
drop-append (x ∷ xs) ys = drop-append xs ys

-- A key comes back from its prefixed form, in every database.
pub strip_key-prefix_key :
    (db : ℕ) (key : Slice) → content (strip_key db (prefix_key db key)) ≡ content key
unfolding strip_key prefix_key
strip_key-prefix_key zero key = refl
strip_key-prefix_key (suc n) key =
    let p : Bytes = db_prefix (suc n) in
    ground (arith, is_prefix-append p (content key), drop-append p (content key))

-- Digits up to a colon are read off in one way only.
cut_digits :
    (s t k l : Bytes)
    → All IsDigit s
    → All IsDigit t
    → s ++ (b':' ∷ k) ≡ t ++ (b':' ∷ l)
    → (s ≡ t) × (k ≡ l)
cut_digits [] [] k l h h' e = ground arith
cut_digits [] (d ∷ t) k l h h' e = absurd (ground arith)
cut_digits (c ∷ s) [] k l h h' e = absurd (ground arith)
cut_digits (c ∷ s) (d ∷ t) k l h h' e = ground (arith, cut_digits s t k l)

decimal_injective : (m n : ℕ) → decimal m ≡ decimal n → m ≡ n
decimal_injective m n e = ground (arith, scan-decimal m, scan-decimal n, ap (λ s. scan s 0) e)

db_key :
    (n : ℕ) (key : Slice)
    → content (prefix_key (suc n) key) ≡ b'd' ∷ b'b' ∷ (decimal (suc n) ++ (b':' ∷ content key))
unfolding prefix_key
db_key n key = ground (arith, append_assoc (decimal (suc n)) (b':' ∷ []) (content key))

tail_eq : {x y x' y' : ℕ} {s t : Bytes} → x ∷ y ∷ s ≡ x' ∷ y' ∷ t → s ≡ t
tail_eq e = cc

-- Keys of two databases above 0 are the same key of the cluster only if the databases and the keys
-- are the same.
pub prefix_key_injective :
    (db db' : ℕ) (key key' : Slice)
    → 0 < db
    → 0 < db'
    → content (prefix_key db key) ≡ content (prefix_key db' key')
    → (db ≡ db') × (content key ≡ content key')
prefix_key_injective zero db' key key' h h' e = elim h [ ]
prefix_key_injective (suc n) zero key key' h h' e = elim h' [ ]
prefix_key_injective (suc n) (suc m) key key' h h' e =
    let (digits, keys) =
      cut_digits (decimal (suc n)) (decimal (suc m)) (content key) (content key')
        (decimal-All (suc n)) (decimal-All (suc m))
        (tail_eq (sym (db_key n key) ∙ e ∙ db_key m key')) in
    (decimal_injective (suc n) (suc m) digits, keys)

digits_then_colon-true :
    (s k : Bytes) → All IsDigit s → digits_then_colon true (s ++ (b':' ∷ k)) ≡ true
unfolding digits_then_colon
digits_then_colon-true [] k h = refl
digits_then_colon-true (c ∷ s) k h = ground (arith, digits_then_colon-true s k h.1)

digits_then_colon-false :
    (s k : Bytes) → All IsDigit s → s ≢ [] → digits_then_colon false (s ++ (b':' ∷ k)) ≡ true
unfolding digits_then_colon
digits_then_colon-false [] k h ne = absurd (ne refl)
digits_then_colon-false (c ∷ s) k h ne = ground (arith, digits_then_colon-true s k h.1)

-- Every key of a database above 0 is recognised as one, so that database 0 does not return it from
-- RANDOMKEY.
pub has_virtual_db_prefix-prefix_key :
    (db : ℕ) (key : Slice) → 0 < db → has_virtual_db_prefix (content (prefix_key db key)) ≡ true
has_virtual_db_prefix-prefix_key zero key h = elim h [ ]
has_virtual_db_prefix-prefix_key (suc n) key h = rw (db_key n key) (
    unfold has_virtual_db_prefix in
    digits_then_colon-false (decimal (suc n)) (content key) (decimal-All (suc n))
      (decimal-ne-nil (suc n)))
