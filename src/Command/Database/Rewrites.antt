-- ===== src/Command/Database/Rewrites.antt =====
-- internal/command/db.go: what rewriting by key positions does to the arguments of a command.
use dragon_cluster_resp_prox.Base.{
  ℕ, ◌==◌, ◌≡◌, ◌≤◌, ◌<◌, refl, ap, ◌∙◌, subst, Bool, true, false, ◌&&◌, ◌||◌, ltb, if◌then◌else◌,
  ℕ-cases, inl, inr, List, [], ◌∷◌, Bytes, codes, equal, Slice, nil, Argv, length, get_or, set, All,
  arith, ok, ◌>>=◌, count_of, length-set, get_or-set_self, get_or-set_ne,
}
use dragon_cluster_resp_prox.Command.Keys.{name_of, key_indexes}
use dragon_cluster_resp_prox.Command.Positions.Bounds.{InRange}
use dragon_cluster_resp_prox.Command.Keys.InRange.{key_indexes-InRange}
use dragon_cluster_resp_prox.Command.Database.{
  prefix_key, prefix_at, clone_argv, needs_db_rewrite, rewrite_argv,
}

-- The argument at `j`, with the prefix if its position is a key's.
abbrev pub prefixed_at : ℕ → List ℕ → Argv → ℕ → Slice
prefixed_at db idx out j =
    if count_of j idx == 0 then get_or out j nil else prefix_key db (get_or out j nil)

prefix_at-each :
    (db : ℕ) (idx : List ℕ) (out : Argv) (j : ℕ)
    → All (InRange (length out)) idx
    → count_of j idx ≤ 1
    → get_or (prefix_at db idx out) j nil ≡ prefixed_at db idx out j
unfolding prefix_at
prefix_at-each db [] out j h once = refl
prefix_at-each db (i ∷ idx) out j h once =
    let next : Argv = set out i (prefix_key db (get_or out i nil)) in
    let len = length-set out i (prefix_key db (get_or out i nil)) in
    let bounds : All (InRange (length next)) idx = rw len h.1 in
    let rest = prefix_at-each db idx next j bounds (omega arith) in
    let written : (if ltb 0 i && ltb i (length out) then next else out) ≡ next = ground arith in
    let step : prefixed_at db idx next j ≡ prefixed_at db (i ∷ idx) out j = elim (ℕ-cases i j) [
      | inl e ↦
          let here : get_or next j nil ≡ prefix_key db (get_or out j nil) =
            subst (λ k. get_or next k nil ≡ prefix_key db (get_or out k nil)) e
              (get_or-set_self out i (prefix_key db (get_or out i nil)) nil h.0.1) in
          ground arith
      | inr ne ↦
          let kept = get_or-set_ne out i j (prefix_key db (get_or out i nil)) nil ne in ground arith
    ] in
    ap (λ o. get_or (prefix_at db idx o) j nil) written ∙ rest ∙ step

-- The commands that are rewritten in a way of their own.
abbrev pub has_own_way : Bytes → Bool
has_own_way name =
    equal name (codes "COPY")
    || equal name (codes "SCAN")
    || equal name (codes "KEYS")
    || equal name (codes "SORT")
    || equal name (codes "MOVE")

rewritten :
    (argv : Argv) (db : ℕ) {idx : List ℕ}
    → 0 < db
    → needs_db_rewrite argv ≡ true
    → has_own_way (name_of argv) ≡ false
    → key_indexes (clone_argv argv) ≡ ok idx
    → rewrite_argv argv db ≡ ok (prefix_at db idx (clone_argv argv))
unfolding rewrite_argv
rewritten argv db {idx} pos_db needs own keys =
    let last : (key_indexes (clone_argv argv) >>= λ i. ok (prefix_at db i (clone_argv argv)))
        ≡ ok (prefix_at db idx (clone_argv argv)) =
      rw (keys, ◌>>=◌) refl in
    ground arith

-- A command that has keys and no rewriting of its own is rewritten, in a database above 0, argument
-- by argument: those at the positions of its keys get the prefix, and the others stay as they were
-- copied, if no position is listed twice.
pub rewrite_argv-each :
    (argv : Argv) (db : ℕ) {idx : List ℕ}
    → 0 < db
    → needs_db_rewrite argv ≡ true
    → has_own_way (name_of argv) ≡ false
    → key_indexes (clone_argv argv) ≡ ok idx
    → ((j : ℕ) → count_of j idx ≤ 1)
    → (out : Argv) × (rewrite_argv argv db ≡ ok out)
      × ((j : ℕ) → get_or out j nil ≡ prefixed_at db idx (clone_argv argv) j)
rewrite_argv-each argv db {idx} pos_db needs own keys once =
    let bounds : All (InRange (length (clone_argv argv))) idx =
      rw keys at (key_indexes-InRange (clone_argv argv)) in
    (
      prefix_at db idx (clone_argv argv),
      rewritten argv db pos_db needs own keys,
      λ j. prefix_at-each db idx (clone_argv argv) j bounds (once j),
    )
