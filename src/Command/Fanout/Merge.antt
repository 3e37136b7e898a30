-- ===== src/Command/Fanout/Merge.antt =====
-- The merged replies are the reply of the whole command.
use dragon_cluster_resp_prox.Base.{
  count_of, count_of-append, ℕ, ◌+◌, ◌≡◌, ◌≤◌, ◌<◌, refl, sym, ap, ◌∙◌, List, [], ◌∷◌, map, ℕ-cases,
  ==_same, ◌⊎◌, inl, inr, subst, get_elem?-ext, get_elem?-map, Slice, Argv, nil, pos, length,
  length-map, length-set, length-replicate, get_or, get_elem?, get_elem?-set_self, get_elem?-set_ne,
  set, replicate, arith, some,
}
use dragon_cluster_resp_prox.Resp.Value.{
  Value, integer, array, to_list-of_list, count-of_list, null_bulk,
}
use dragon_cluster_resp_prox.Command.Fanout.{
  KeyGroup, group_by_slot, place, merge_groups, merge_mget,
}
use dragon_cluster_resp_prox.Command.Fanout.Groups.{positions, count_of-group_by_slot, total}

-- What each group answers, where position `i` is worth `c i`.
abbrev pub sums : (ℕ → ℕ) → List KeyGroup → List Value
sums c = map (λ g. integer (pos (total c g.index)))

-- The sum of what the keys are worth.
abbrev pub worth_all : (Slice → ℕ) → Argv → ℕ
worth_all worth [] = 0
worth_all worth (k ∷ keys) = worth k + worth_all worth keys

-- The reply of a group of an MGET, where position `i` has the value `f i`.
abbrev pub answers : (ℕ → Value) → List KeyGroup → List Value
answers f = map (λ g. array (map f g.index))

-- The reply list has the value of position `j`.
abbrev pub Filled : (ℕ → Value) → List Value → ℕ → Type 0
Filled f out j = get_elem? out j ≡ some (f j)

place_all : (ℕ → Value) → List KeyGroup → List Value → List Value
place_all f [] out = out
place_all f (g ∷ gs) out = place_all f gs (place g.index (map f g.index) out)

pub length-place :
    (f : ℕ → Value) (is : List ℕ) (out : List Value) → length (place is (map f is) out) ≡ length out
unfolding place
length-place f [] out = refl
length-place f (i ∷ is) out = length-place f is (set out i (f i)) ∙ length-set out i (f i)

Filled-set :
    (f : ℕ → Value) (out : List Value) (i j : ℕ)
    → j < length out
    → Filled f out j ⊎ (i ≡ j)
    → Filled f (set out i (f i)) j
Filled-set f out i j h c = elim (ℕ-cases i j) [
  | inl e ↦
      subst (λ k. get_elem? (set out i (f i)) k ≡ some (f k)) e
        (get_elem?-set_self out i (f i) (omega arith))
  | inr ne ↦ get_elem?-set_ne out i j (f i) ne ∙ elim c [ inl d ↦ d | inr e ↦ absurd (ne e) ]
]

pub Filled-place :
    (f : ℕ → Value) (is : List ℕ) (out : List Value) (j : ℕ)
    → j < length out
    → Filled f out j ⊎ (1 ≤ count_of j is)
    → Filled f (place is (map f is) out) j
unfolding place
Filled-place f [] out j h c = elim c [ inl d ↦ d | inr e ↦ absurd (omega arith) ]
Filled-place f (i ∷ is) out j h c =
    Filled-place f is (set out i (f i)) j (omega (arith, length-set out i (f i))) (elim c [
      | inl d ↦ inl (Filled-set f out i j h (inl d))
      | inr k ↦ elim (ℕ-cases i j) [
        | inl e ↦ inl (Filled-set f out i j h (inr e))
        | inr ne ↦ inr (ground arith)
      ]
    ])

length-place_all :
    (f : ℕ → Value) (gs : List KeyGroup) (out : List Value)
    → length (place_all f gs out) ≡ length out
unfolding place_all
length-place_all f [] out = refl
length-place_all f (g ∷ gs) out =
    length-place_all f gs (place g.index (map f g.index) out) ∙ length-place f g.index out

Filled-place_all :
    (f : ℕ → Value) (gs : List KeyGroup) (out : List Value) (j : ℕ)
    → j < length out
    → Filled f out j ⊎ (1 ≤ count_of j (positions gs))
    → Filled f (place_all f gs out) j
unfolding place_all
Filled-place_all f [] out j h c = elim c [ inl d ↦ d | inr e ↦ absurd (omega arith) ]
Filled-place_all f (g ∷ gs) out j h c =
    let both = count_of-append j g.index (positions gs) in
    let len = length-place f g.index out in
    Filled-place_all f gs (place g.index (map f g.index) out) j (omega arith) (elim c [
      | inl d ↦ inl (Filled-place f g.index out j h (inl d))
      | inr k ↦ elim (ℕ-cases (count_of j g.index) 0) [
        | inl e ↦ inr (omega arith)
        | inr ne ↦ inl (Filled-place f g.index out j h (inr (omega arith)))
      ]
    ])

merge_groups-answers :
    (f : ℕ → Value) (gs : List KeyGroup) (out : List Value)
    → merge_groups gs (answers f gs) out ≡ array (place_all f gs out)
unfolding merge_groups place_all
merge_groups-answers f [] out = refl
merge_groups-answers f (g ∷ gs) out =
    rw
      (
        count-of_list (map f g.index),
        length-map f g.index,
        ==_same (length g.index),
        to_list-of_list (map f g.index),
      )
      (merge_groups-answers f gs (place g.index (map f g.index) out))

-- Each group of an MGET answers the values of its keys in the group's order. The merged reply has
-- the values of all keys in the order of the command.
pub merge_mget-group_by_slot :
    (slot_fn : Slice → ℕ) (value_of : Slice → Value) (keys : Argv)
    → let groups : List KeyGroup = group_by_slot keys slot_fn in
      merge_mget (length keys) groups (answers (λ i. value_of (get_or keys i nil)) groups)
      ≡ array (map value_of keys)
unfolding merge_mget
merge_mget-group_by_slot slot_fn value_of keys =
    let f : ℕ → Value = λ i. value_of (get_or keys i nil) in
    let gs : List KeyGroup = group_by_slot keys slot_fn in
    let out : List Value = replicate (length keys) null_bulk in
    let filled : (j : ℕ)
        → j < length keys
        → get_elem? (place_all f gs out) j ≡ get_elem? (map value_of keys) j =
      λ j h.
        Filled-place_all f gs out j (omega (arith, length-replicate (length keys) null_bulk))
          (inr (ground (arith, count_of-group_by_slot slot_fn keys j)))
        ∙ sym (get_elem?-map value_of keys j nil h) in
    rw (length-map (λ (g : KeyGroup). array (map f g.index)) gs, ==_same (length gs))
      (merge_groups-answers f gs out
        ∙ ap array (
            get_elem?-ext (place_all f gs out) (map value_of keys)
              (length-place_all f gs out
                ∙ length-replicate (length keys) null_bulk
                ∙ sym (length-map value_of keys))
              (λ j h. filled j (
                omega
                  (arith, length-place_all f gs out, length-replicate (length keys) null_bulk)))))
