-- ===== src/Proxy/Pipeline/InOrder.antt =====
-- internal/proxy/pipeline.go: the replies of a batch stand in the order of its commands.
use dragon_cluster_resp_prox.Base.{
  ℕ, zero, suc, ◌+◌, ◌≡◌, ◌≤◌, ◌<◌, ◌⊎◌, inl, inr, refl, sym, ap, subst, ◌∙◌, arith, List, [], ◌∷◌,
  ◌++◌, map, Bytes, some, length, length-map, get_elem?, get_elem?-ext, get_or, get_elem?-lt,
  count_of, count_of-append, ◌==◌, if◌then◌else◌, Result, ok, ℕ-cases,
}
use dragon_cluster_resp_prox.Resp.Value.{Value, zero_value}
use dragon_cluster_resp_prox.Command.Fanout.{place}
use dragon_cluster_resp_prox.Command.Fanout.Merge.{Filled, length-place, Filled-place}
use dragon_cluster_resp_prox.Proxy.Pipeline.{
  Sent, PipeItem, slow, local, request, AddrGroup, add_request, group_items, local_replies,
  place_groups,
}

abbrev positions : List AddrGroup → List ℕ
positions [] = []
positions (g ∷ groups) = g.index ++ positions groups

-- The reply of an item, where a node answers a request `q` with `answer q`.
abbrev pub reply_of : (Sent → Value) → PipeItem → Value
reply_of answer (local v) = v
reply_of answer (request q) = answer q
reply_of answer slow = zero_value

abbrev pub reply_at : (Sent → Value) → List PipeItem → ℕ → Value
reply_at answer items i = get_or (map (reply_of answer) items) i zero_value

abbrev pub place_all : (ℕ → Value) → List AddrGroup → List Value → List Value
place_all f [] out = out
place_all f (g ∷ groups) out = place_all f groups (place g.index (map f g.index) out)

length-place_all :
    (f : ℕ → Value) (groups : List AddrGroup) (out : List Value)
    → length (place_all f groups out) ≡ length out
unfolding place_all
length-place_all f [] out = refl
length-place_all f (g ∷ groups) out =
    length-place_all f groups (place g.index (map f g.index) out) ∙ length-place f g.index out

Filled-place_all :
    (f : ℕ → Value) (groups : List AddrGroup) (out : List Value) (j : ℕ)
    → j < length out
    → Filled f out j ⊎ (1 ≤ count_of j (positions groups))
    → Filled f (place_all f groups out) j
unfolding place_all
Filled-place_all f [] out j h c = elim c [ inl d ↦ d | inr e ↦ absurd (omega arith) ]
Filled-place_all f (g ∷ groups) out j h c =
    let both = count_of-append j g.index (positions groups) in
    let len = length-place f g.index out in
    Filled-place_all f groups (place g.index (map f g.index) out) j (omega arith) (elim c [
      | inl d ↦ inl (Filled-place f g.index out j h (inl d))
      | inr k ↦ elim (ℕ-cases (count_of j g.index) 0) [
        | inl e ↦ inr (omega arith)
        | inr ne ↦ inl (Filled-place f g.index out j h (inr (omega arith)))
      ]
    ])

count_of-add_request :
    (j i : ℕ) (a : Bytes) (groups : List AddrGroup)
    → count_of j (positions (add_request a i groups))
      ≡ (if i == j then 1 else 0) + count_of j (positions groups)
unfolding add_request
count_of-add_request j i a [] = refl
count_of-add_request j i a (g ∷ groups) = ground (
  arith,
  count_of-add_request j i a groups,
  count_of-append j (g.index ++ (i ∷ [])) (positions groups),
  count_of-append j g.index (i ∷ []),
  count_of-append j g.index (positions groups),
  count_of-append j g.index (positions (add_request a i groups)),
)

-- What is grouped stays grouped.
count_of-group_items_le :
    (j i : ℕ) (items : List PipeItem) (groups : List AddrGroup)
    → count_of j (positions groups) ≤ count_of j (positions (group_items i items groups))
unfolding group_items
count_of-group_items_le j i [] groups = omega arith
count_of-group_items_le j i (request q ∷ items) groups = omega (
  arith,
  count_of-group_items_le j (suc i) items (add_request q.addr i groups),
  count_of-add_request j i q.addr groups,
)
count_of-group_items_le j i (local v ∷ items) groups =
    count_of-group_items_le j (suc i) items groups
count_of-group_items_le j i (slow ∷ items) groups = count_of-group_items_le j (suc i) items groups

-- A position has its reply from the start, or stands in a group.
abbrev Covered : (Sent → Value) → List PipeItem → List AddrGroup → ℕ → ℕ → Type 0
Covered answer items groups j n =
    (get_elem? (local_replies items) j ≡ some (reply_at answer items j))
    ⊎ (1 ≤ count_of n (positions groups))

items-Covered :
    (answer : Sent → Value) (i : ℕ) (items : List PipeItem) (groups : List AddrGroup) (j : ℕ)
    → j < length items
    → Covered answer items (group_items i items groups) j (i + j)
unfolding group_items local_replies
items-Covered answer i [] groups j h = absurd (omega arith)
items-Covered answer i (local v ∷ items) groups zero h = inl refl
items-Covered answer i (slow ∷ items) groups zero h = inl refl
items-Covered answer i (request q ∷ items) groups zero h =
    let more = count_of-group_items_le (i + 0) (suc i) items (add_request q.addr i groups) in
    let here = count_of-add_request (i + 0) i q.addr groups in inr (ground arith)
items-Covered answer i (local v ∷ items) groups (suc j) h =
    subst (Covered answer items (group_items (suc i) items groups) j) (omega arith)
      (items-Covered answer (suc i) items groups j (omega arith))
items-Covered answer i (slow ∷ items) groups (suc j) h =
    subst (Covered answer items (group_items (suc i) items groups) j) (omega arith)
      (items-Covered answer (suc i) items groups j (omega arith))
items-Covered answer i (request q ∷ items) groups (suc j) h =
    subst (Covered answer items (group_items (suc i) items (add_request q.addr i groups)) j)
      (omega arith)
      (items-Covered answer (suc i) items (add_request q.addr i groups) j (omega arith))

length-local_replies : (items : List PipeItem) → length (local_replies items) ≡ length items
unfolding local_replies
length-local_replies [] = refl
length-local_replies (local v ∷ items) = ap suc (length-local_replies items)
length-local_replies (request q ∷ items) = ap suc (length-local_replies items)
length-local_replies (slow ∷ items) = ap suc (length-local_replies items)

-- The results of the groups, where position `i` is answered with `f i`.
abbrev pub answers : (ℕ → Value) → List AddrGroup → List (Result Bytes (List Value))
answers f [] = []
answers f (g ∷ groups) = ok (map f g.index) ∷ answers f groups

pub place_groups-answers :
    (f : ℕ → Value) (groups : List AddrGroup) (out : List Value)
    → place_groups groups (answers f groups) out ≡ ok (place_all f groups out)
unfolding place_groups place_all
place_groups-answers f [] out = refl
place_groups-answers f (g ∷ groups) out =
    place_groups-answers f groups (place g.index (map f g.index) out)

pub place_all-items :
    (answer : Sent → Value) (items : List PipeItem)
    → place_all (reply_at answer items) (group_items 0 items []) (local_replies items)
      ≡ map (reply_of answer) items
place_all-items answer items =
    let f : ℕ → Value = reply_at answer items in
    let groups : List AddrGroup = group_items 0 items [] in
    let len = length-place_all f groups (local_replies items) ∙ length-local_replies items in
    get_elem?-ext (place_all f groups (local_replies items)) (map (reply_of answer) items)
      (len ∙ sym (length-map (reply_of answer) items))
      (λ j h.
        Filled-place_all f groups (local_replies items) j
          (omega (arith, len, length-local_replies items))
          (subst (Covered answer items groups j) (omega arith)
            (items-Covered answer 0 items [] j (omega (arith, len))))
        ∙ sym (
            get_elem?-lt (map (reply_of answer) items) j
              (omega (arith, len, length-map (reply_of answer) items)) zero_value))
