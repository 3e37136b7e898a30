-- ===== src/Command/Keys/InRange.antt =====
-- Reading the keys of a command by their positions never leaves the arguments.
use dragon_cluster_resp_prox.Base.{
  ℕ, zero, suc, ◌+◌, ◌^◌, ◌<◌, ◌≤◌, ◌≡◌, refl, negsuc, List, [], ◌∷◌, Argv, Slice, Bytes, codes,
  Option, none, some, length, get_elem?, ok, err, panic, ◌>>=◌, All, All-append, arith, mem_name,
  equal, content, map, ◌⊎◌, ◌∙◌, ◌-◌, inl, inr,
}
use dragon_cluster_resp_prox.Command.Table.{Meta, lookup}
use dragon_cluster_resp_prox.Command.Positions.{natural, numkeys_idx, int_sum, store_option_idx}
use dragon_cluster_resp_prox.Command.Positions.Bounds.{
  InRange, AllGo, indexes_by_spec-InRange, eval_key_idx-InRange, xread_key_idx-InRange,
  migrate_key_idx-InRange, numkeys_idx-InRange, dest_numkeys_idx-InRange, scan_match_idx-InRange,
  sort_key_idx-InRange, store_option_idx-InRange,
}
use dragon_cluster_resp_prox.Command.Keys.{
  name_of, table_idx, named_idx, key_indexes, select, extract_keys,
}

table_idx-InRange : (argv : Argv) (m : Option Meta) → All (InRange (length argv)) (table_idx argv m)
unfolding table_idx
table_idx-InRange argv none = tt
table_idx-InRange argv (some m) = indexes_by_spec-InRange argv m.keys

named_idx-InRange : (name : Bytes) (argv : Argv) → AllGo (length argv) (named_idx name argv)
unfolding named_idx
named_idx-InRange name argv = ground (
  arith,
  eval_key_idx-InRange argv,
  xread_key_idx-InRange argv,
  migrate_key_idx-InRange argv,
  numkeys_idx-InRange argv 1,
  numkeys_idx-InRange argv 2,
  dest_numkeys_idx-InRange argv,
  scan_match_idx-InRange argv,
  sort_key_idx-InRange argv,
  table_idx-InRange argv (lookup name),
  All-append (InRange (length argv)) (table_idx argv (lookup name)) (store_option_idx argv)
      (table_idx-InRange argv (lookup name)) (store_option_idx-InRange argv),
)

pub key_indexes-InRange : (argv : Argv) → AllGo (length argv) (key_indexes argv)
unfolding key_indexes
key_indexes-InRange [] = tt
key_indexes-InRange (a ∷ argv) = named_idx-InRange (name_of (a ∷ argv)) (a ∷ argv)

-- The arguments at the positions, in the order of the positions.
abbrev pub picked : Argv → List ℕ → List (Option Slice)
picked argv = map (get_elem? argv)

get_elem?-lt : (argv : Argv) (i : ℕ) → i < length argv → (a : Slice) × (get_elem? argv i ≡ some a)
get_elem?-lt [] i h = elim h [ ]
get_elem?-lt (a ∷ argv) zero h = (a, refl)
get_elem?-lt (a ∷ argv) (suc i) h = get_elem?-lt argv i (omega arith)

select-InRange :
    (argv : Argv) (idx : List ℕ)
    → All (InRange (length argv)) idx
    → (keys : Argv) × (select argv idx ≡ ok keys) × (map some keys ≡ picked argv idx)
unfolding select
select-InRange argv [] h = ([], refl, refl)
select-InRange argv (i ∷ idx) h =
    let (a, e) = get_elem?-lt argv i h.0.1 in
    let (keys, e', same) = select-InRange argv idx h.1 in
    (a ∷ keys, rw (e, select) (rw (e', ◌>>=◌) refl), rw (e, same) refl)

-- The keys are the arguments at the positions that `KeyIndexes` gives, each of them behind the
-- command's name and inside the command, so that taking them never panics.
pub extract_keys-key_indexes :
    (argv : Argv) {idx : List ℕ}
    → key_indexes argv ≡ ok idx
    → All (InRange (length argv)) idx
      × ((keys : Argv) × (extract_keys argv ≡ ok keys) × (map some keys ≡ picked argv idx))
unfolding extract_keys
extract_keys-key_indexes argv {idx} h =
    let bounds : All (InRange (length argv)) idx = rw h at (key_indexes-InRange argv) in
    let (keys, e, same) = select-InRange argv idx bounds in (bounds, (keys, rw (h, ◌>>=◌) e, same))

-- The commands with the number of keys in their first argument.
abbrev pub CountsFirst : Bytes → Type 0
CountsFirst name =
    (name ≡ codes "LMPOP")
    ⊎ (name ≡ codes "ZMPOP")
    ⊎ (name ≡ codes "SINTERCARD")
    ⊎ (name ≡ codes "ZUNION")
    ⊎ (name ≡ codes "ZINTER")
    ⊎ (name ≡ codes "ZDIFF")

named_idx-CountsFirst :
    (name : Bytes) (argv : Argv) → CountsFirst name → named_idx name argv ≡ numkeys_idx argv 1
unfolding named_idx mem_name equal
named_idx-CountsFirst name argv (inl e) = rw e refl
named_idx-CountsFirst name argv (inr (inl e)) = rw e refl
named_idx-CountsFirst name argv (inr (inr (inl e))) = rw e refl
named_idx-CountsFirst name argv (inr (inr (inr (inl e)))) = rw e refl
named_idx-CountsFirst name argv (inr (inr (inr (inr (inl e))))) = rw e refl
named_idx-CountsFirst name argv (inr (inr (inr (inr (inr e))))) = rw e refl

int_sum_wraps :
    (a b : ℕ) → a < 2 ^ 62 → b < 2 ^ 63 → 2 ^ 63 ≤ a + b → (m : ℕ) × (int_sum a b ≡ negsuc m)
int_sum_wraps a b h k w = (2 ^ 64 - (a + b) - 1, ground arith)

-- For LMPOP, ZMPOP, SINTERCARD, ZUNION, ZINTER and ZDIFF with an argument behind the number of keys, a
-- number of keys so large that the end of the key range wraps around makes `KeyIndexes` panic.
pub key_indexes-panic :
    (a num key : Slice) (rest : Argv) (n : ℕ)
    → CountsFirst (name_of (a ∷ num ∷ key ∷ rest))
    → natural (content num) ≡ some n
    → n < 2 ^ 63
    → 2 ^ 63 ≤ n + 2
    → key_indexes (a ∷ num ∷ key ∷ rest) ≡ err panic
unfolding key_indexes numkeys_idx
key_indexes-panic a num key rest n name e h w =
    let (m, wrapped) = int_sum_wraps 2 n (omega arith) h (omega arith) in
    named_idx-CountsFirst _ (a ∷ num ∷ key ∷ rest) name ∙ rw (e, numkeys_idx) (ground arith)
