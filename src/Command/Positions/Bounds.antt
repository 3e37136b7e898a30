-- ===== src/Command/Positions/Bounds.antt =====
-- Every position is that of an argument behind the command's name.
use dragon_cluster_resp_prox.Base.{
  ℕ, zero, suc, ◌+◌, ◌-◌, ◌/◌, ◌<◌, ◌≤◌, ℤ, pos, negsuc, List, [], ◌∷◌, ◌==◌, leb, if◌then◌else◌,
  Argv, Option, none, some, length, drop, Go, ok, err, panic, All, All-append, arith, Option-cases,
  inl, inr,
}
use dragon_cluster_resp_prox.Command.Table.{KeySpec}
use dragon_cluster_resp_prox.Command.Positions.{
  span, stride, resolve_last, indexes_by_spec, natural, int_sum, at_most, eval_end, eval_key_idx,
  xread_from, xread_key_idx, migrate_from, migrate_key_idx, numkeys_end, numkeys_idx,
  dest_numkeys_idx, scan_match_from, scan_match_idx, sort_from, sort_key_idx, store_from,
  store_option_idx, arg,
}

abbrev pub InRange : ℕ → ℕ → Type 0
InRange len i = (0 < i) × (i < len)

span-InRange : (len start n : ℕ) → 0 < start → start + n ≤ len → All (InRange len) (span start n)
unfolding span
span-InRange len start zero h k = tt
span-InRange len start (suc n) h k =
    ((h, omega arith), span-InRange len (suc start) n (omega arith) (omega arith))

stride-InRange :
    (len fuel i last step : ℕ) → 0 < i → last < len → All (InRange len) (stride fuel i last step)
unfolding stride
stride-InRange len zero i last step h k = tt
stride-InRange len (suc fuel) i last step h k =
    ground (arith, stride-InRange len fuel (i + step) last step)

pub indexes_by_spec-InRange :
    (argv : Argv) (spec : KeySpec) → All (InRange (length argv)) (indexes_by_spec argv spec)
unfolding indexes_by_spec
indexes_by_spec-InRange argv spec =
    let last : ℕ = resolve_last spec.first spec.last (length argv) in
    let end : ℕ = if leb (length argv) last then length argv - 1 else last in
    let step : ℕ = if spec.step == 0 then 1 else spec.step in
    ground (arith, stride-InRange (length argv) (suc end - spec.first) spec.first end step)

eval_end-InRange : (len : ℕ) (e : ℤ) → All (InRange len) (eval_end len e)
unfolding eval_end
eval_end-InRange len (negsuc n) = tt
eval_end-InRange len (pos e) = ground (arith, span-InRange len 3 (at_most e len - 3))

pub eval_key_idx-InRange : (argv : Argv) → All (InRange (length argv)) (eval_key_idx argv)
unfolding eval_key_idx
eval_key_idx-InRange argv = elim (Option-cases (natural (arg argv 2))) [
  | inl e ↦ rw (e, eval_key_idx) (ground arith)
  | inr (n, e) ↦ rw (e, eval_key_idx) (ground (arith, eval_end-InRange (length argv) (int_sum 3 n)))
]

-- `args` are the arguments from position `i` on.
abbrev From : ℕ → ℕ → Argv → Type 0
From len i args = 0 < length args → i + length args ≤ len

From-drop : (k : ℕ) (argv : Argv) → From (length argv) k (drop k argv)
From-drop zero argv h = omega arith
From-drop (suc k) [] h = elim h [ ]
From-drop (suc k) (a ∷ argv) h = omega (arith, From-drop k argv h)

xread_from-InRange :
    (len i : ℕ) (args : Argv) → 0 < i → From len i args → All (InRange len) (xread_from i args)
unfolding xread_from
xread_from-InRange len i [] h k = tt
xread_from-InRange len i (a ∷ rest) h k =
    ground (arith, xread_from-InRange len (suc i) rest, span-InRange len (suc i) (length rest / 2))

pub xread_key_idx-InRange : (argv : Argv) → All (InRange (length argv)) (xread_key_idx argv)
unfolding xread_key_idx
xread_key_idx-InRange argv = xread_from-InRange _ 1 (drop 1 argv) (omega arith) (From-drop 1 argv)

abbrev AllOption : ℕ → Option (List ℕ) → Type 0
AllOption len none = Unit
AllOption len (some idx) = All (InRange len) idx

migrate_from-InRange :
    (len i : ℕ) (args : Argv) → 0 < i → From len i args → AllOption len (migrate_from i args)
unfolding migrate_from
migrate_from-InRange len i [] h k = tt
migrate_from-InRange len i (a ∷ rest) h k =
    ground (arith, migrate_from-InRange len (suc i) rest, span-InRange len (suc i) (length rest))

pub migrate_key_idx-InRange : (argv : Argv) → All (InRange (length argv)) (migrate_key_idx argv)
unfolding migrate_key_idx
migrate_key_idx-InRange argv =
    ground
      (arith, migrate_from-InRange (length argv) 6 (drop 6 argv) (omega arith) (From-drop 6 argv))

-- Positions that are returned, if there is no panic.
abbrev pub AllGo : ℕ → Go (List ℕ) → Type 0
AllGo len (ok idx) = All (InRange len) idx
AllGo len (err panic) = Unit

numkeys_end-InRange :
    (start len : ℕ) (e : ℤ) → 0 < start → start < len → AllGo len (numkeys_end start len e)
unfolding numkeys_end
numkeys_end-InRange start len (negsuc n) h k = tt
numkeys_end-InRange start len (pos e) h k =
    ground (arith, span-InRange len start (at_most e len - start))

pub numkeys_idx-InRange : (argv : Argv) (at : ℕ) → AllGo (length argv) (numkeys_idx argv at)
unfolding numkeys_idx
numkeys_idx-InRange argv at = elim (Option-cases (natural (arg argv at))) [
  | inl e ↦ rw (e, numkeys_idx) (ground arith)
  | inr (n, e) ↦
      rw (e, numkeys_idx)
        (ground (arith, numkeys_end-InRange (at + 1) (length argv) (int_sum (at + 1) n)))
]

pub dest_numkeys_idx-InRange : (argv : Argv) → AllGo (length argv) (dest_numkeys_idx argv)
unfolding dest_numkeys_idx
dest_numkeys_idx-InRange argv = ground (arith, numkeys_idx-InRange argv 2)

scan_match_from-InRange :
    (len i : ℕ) (args : Argv) → From len i args → All (InRange len) (scan_match_from i args)
unfolding scan_match_from
scan_match_from-InRange len i [] k = tt
scan_match_from-InRange len i (a ∷ []) k = tt
scan_match_from-InRange len i (a ∷ b ∷ rest) k =
    ground (arith, scan_match_from-InRange len (suc i) (b ∷ rest))

pub scan_match_idx-InRange : (argv : Argv) → All (InRange (length argv)) (scan_match_idx argv)
unfolding scan_match_idx
scan_match_idx-InRange argv = scan_match_from-InRange _ 2 (drop 2 argv) (From-drop 2 argv)

sort_from-InRange :
    (len i : ℕ) (args : Argv) → From len i args → All (InRange len) (sort_from i args)
unfolding sort_from
sort_from-InRange len i [] k = tt
sort_from-InRange len i (a ∷ []) k = tt
sort_from-InRange len i (a ∷ b ∷ rest) k =
    ground
      (arith, sort_from-InRange len (suc i) (b ∷ rest), sort_from-InRange len (suc (suc i)) rest)

pub sort_key_idx-InRange : (argv : Argv) → All (InRange (length argv)) (sort_key_idx argv)
unfolding sort_key_idx
sort_key_idx-InRange argv =
    All-append (InRange (length argv)) (if leb 2 (length argv) then 1 ∷ [] else [])
      (sort_from 2 (drop 2 argv)) (ground arith)
      (sort_from-InRange _ 2 (drop 2 argv) (From-drop 2 argv))

store_from-InRange :
    (len i : ℕ) (args : Argv) → From len i args → All (InRange len) (store_from i args)
unfolding store_from
store_from-InRange len i [] k = tt
store_from-InRange len i (a ∷ []) k = tt
store_from-InRange len i (a ∷ b ∷ rest) k =
    ground (arith, store_from-InRange len (suc i) (b ∷ rest))

pub store_option_idx-InRange : (argv : Argv) → All (InRange (length argv)) (store_option_idx argv)
unfolding store_option_idx
store_option_idx-InRange argv = store_from-InRange _ 1 (drop 1 argv) (From-drop 1 argv)
