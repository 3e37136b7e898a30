-- ===== src/Command/Fanout/Groups.antt =====
-- The groups are a partition of the keys by their slots.
use dragon_cluster_resp_prox.Base.{
  count_of, count_of-append, ℕ, suc, ◌+◌, ◌≡◌, ◌≢◌, refl, ap, ◌∙◌, List, [], ◌∷◌, ◌++◌, ◌==◌, ltb,
  if◌then◌else◌, Slice, Argv, nil, length, get_or, All, All-append, arith,
}
use dragon_cluster_resp_prox.Command.Fanout.{KeyGroup, add_key, group_from, group_by_slot}

-- The positions of all groups.
abbrev pub positions : List KeyGroup → List ℕ
positions [] = []
positions (g ∷ gs) = g.index ++ positions gs

-- The sum of what each position is worth.
abbrev pub total : (ℕ → ℕ) → List ℕ → ℕ
total c [] = 0
total c (i ∷ is) = c i + total c is

pub total-append : (c : ℕ → ℕ) (is js : List ℕ) → total c (is ++ js) ≡ total c is + total c js
total-append c [] js = omega arith
total-append c (i ∷ is) js = omega (arith, total-append c is js)

count_of-add_key :
    (j s i : ℕ) (gs : List KeyGroup)
    → count_of j (positions (add_key s i gs))
      ≡ (if i == j then 1 else 0) + count_of j (positions gs)
unfolding add_key
count_of-add_key j s i [] = refl
count_of-add_key j s i (g ∷ gs) = ground (
  arith,
  count_of-add_key j s i gs,
  count_of-append j (g.index ++ (i ∷ [])) (positions gs),
  count_of-append j g.index (i ∷ []),
  count_of-append j g.index (positions gs),
  count_of-append j g.index (positions (add_key s i gs)),
)

pub total-add_key :
    (c : ℕ → ℕ) (s i : ℕ) (gs : List KeyGroup)
    → total c (positions (add_key s i gs)) ≡ c i + total c (positions gs)
unfolding add_key
total-add_key c s i [] = omega arith
total-add_key c s i (g ∷ gs) = ground (
  arith,
  total-add_key c s i gs,
  total-append c (g.index ++ (i ∷ [])) (positions gs),
  total-append c g.index (i ∷ []),
  total-append c g.index (positions gs),
  total-append c g.index (positions (add_key s i gs)),
)

-- No two groups have one slot.
abbrev Fresh : ℕ → List KeyGroup → Type 0
Fresh s = All (λ g. g.slot ≢ s)

abbrev pub Distinct : List KeyGroup → Type 0
Distinct [] = Unit
Distinct (g ∷ gs) = Fresh g.slot gs × Distinct gs

Fresh-add_key : (t s i : ℕ) (gs : List KeyGroup) → t ≢ s → Fresh t gs → Fresh t (add_key s i gs)
unfolding add_key
Fresh-add_key t s i [] ne h = ground arith
Fresh-add_key t s i (g ∷ gs) ne h = ground (arith, Fresh-add_key t s i gs)

Distinct-add_key : (s i : ℕ) (gs : List KeyGroup) → Distinct gs → Distinct (add_key s i gs)
unfolding add_key
Distinct-add_key s i [] h = ground arith
Distinct-add_key s i (g ∷ gs) h =
    ground (arith, Distinct-add_key s i gs, Fresh-add_key g.slot s i gs)

-- Every key of a group has the group's slot.
abbrev pub HasSlot : (ℕ → ℕ) → KeyGroup → Type 0
HasSlot slot_at g = All (λ i. slot_at i ≡ g.slot) g.index

HasSlot-add_key :
    (slot_at : ℕ → ℕ) (s i : ℕ) (gs : List KeyGroup)
    → slot_at i ≡ s
    → All (HasSlot slot_at) gs
    → All (HasSlot slot_at) (add_key s i gs)
unfolding add_key
HasSlot-add_key slot_at s i [] e h = ground arith
HasSlot-add_key slot_at s i (g ∷ gs) e h = ground (
  arith,
  HasSlot-add_key slot_at s i gs,
  All-append (λ (j : ℕ). slot_at j ≡ g.slot) g.index (i ∷ []) h.0,
)

module _ (slot_fn : Slice → ℕ) where
  count_of-group_from :
      (j i : ℕ) (keys : Argv) (gs : List KeyGroup)
      → count_of j (positions (group_from slot_fn i keys gs))
        ≡ count_of j (positions gs)
          + (if ltb j i then 0 else if ltb j (i + length keys) then 1 else 0)
  unfolding group_from
  count_of-group_from j i [] gs = ground arith
  count_of-group_from j i (k ∷ keys) gs = ground (
    arith,
    count_of-group_from j (suc i) keys (add_key (slot_fn k) i gs),
    count_of-add_key j (slot_fn k) i gs,
  )

  Distinct-group_from :
      (i : ℕ) (keys : Argv) (gs : List KeyGroup)
      → Distinct gs
      → Distinct (group_from slot_fn i keys gs)
  unfolding group_from
  Distinct-group_from i [] gs h = h
  Distinct-group_from i (k ∷ keys) gs h =
      Distinct-group_from (suc i) keys _ (Distinct-add_key (slot_fn k) i gs h)

  HasSlot-group_from :
      (slot_at : ℕ → ℕ) (i : ℕ) (keys : Argv) (gs : List KeyGroup)
      → ((j : ℕ) → slot_at (i + j) ≡ slot_fn (get_or keys j nil))
      → All (HasSlot slot_at) gs
      → All (HasSlot slot_at) (group_from slot_fn i keys gs)
  unfolding group_from
  HasSlot-group_from slot_at i [] gs e h = h
  HasSlot-group_from slot_at i (k ∷ keys) gs e h =
      HasSlot-group_from slot_at (suc i) keys _ (λ j. ap slot_at (omega arith) ∙ e (suc j))
        (HasSlot-add_key slot_at (slot_fn k) i gs (ap slot_at (omega arith) ∙ e 0) h)

  -- Every position of a key stands in exactly one group, once, and no other number does.
  pub count_of-group_by_slot :
      (keys : Argv) (j : ℕ)
      → count_of j (positions (group_by_slot keys slot_fn)) ≡ (if ltb j (length keys) then 1 else 0)
  unfolding group_by_slot
  count_of-group_by_slot keys j = ground (arith, count_of-group_from j 0 keys [])

  -- The groups are a partition of the keys by slot: each position stands in one group once, each
  -- key of a group has its slot, and no two groups have one slot.
  pub group_by_slot_partition :
      (keys : Argv)
      → ((j : ℕ)
          → count_of j (positions (group_by_slot keys slot_fn))
            ≡ (if ltb j (length keys) then 1 else 0))
        × All (HasSlot (λ i. slot_fn (get_or keys i nil))) (group_by_slot keys slot_fn)
        × Distinct (group_by_slot keys slot_fn)
  unfolding group_by_slot
  group_by_slot_partition keys = (
    count_of-group_by_slot keys,
    HasSlot-group_from (λ i. slot_fn (get_or keys i nil)) 0 keys []
        (λ j. ap (λ i. slot_fn (get_or keys i nil)) (omega arith)) tt,
    Distinct-group_from 0 keys [] tt,
  )
