-- ===== src/Cluster/Topology/Parse/InBounds.antt =====
-- Both parsers build well-formed topologies.
use dragon_cluster_resp_prox.Base.{
  Holds, Holds-bind, ℕ, ◌≡◌, ◌≤◌, ◌<◌, inl, inr, if_both, arith, ℤ, Bool, true, false, not, ◌||◌,
  List, [], ◌∷◌, ◌==◌, if◌then◌else◌, Bytes, Option, none, some, Option-cases, length, Result, Go,
  ok, err, panic,
}
use dragon_cluster_resp_prox.Resp.Prefix
use dragon_cluster_resp_prox.Resp.Value.{Value, type_of, int, values, is_null, to_list}
use dragon_cluster_resp_prox.Cluster.Topology.{Node, Topology, new_empty_topology, upsert_node}
use dragon_cluster_resp_prox.Cluster.Topology.Parse.{
  assign, parse_slots_node, with_role, entry_nodes, slots_entry, slots_entries, parse_slots,
  shard_parts, upsert_nodes, assign_all, assign_found, add_shard, shards, parse_shards, Range,
  is_hidden,
}
use dragon_cluster_resp_prox.Cluster.Topology.Invariant.{
  WellFormed, Bounded, upsert_node-Upserted, new_empty_topology-WellFormed, assign-WellFormed,
}

Bounded-mono : {m n : ℕ} (found : Option ℕ) → m ≤ n → Bounded m found → Bounded n found
Bounded-mono none le h = tt
Bounded-mono (some i) le h = omega arith

Holds-first : {A : Type 0} (P Q : A → Type 0) (m : Go A) → Holds (λ a. P a × Q a) m → Holds P m
Holds-first P Q (ok a) h = h.0
Holds-first P Q (err panic) h = tt

assigned_or_same :
    (is_master : Bool) (start last : ℤ) (t : Topology) (n : Node)
    → WellFormed t
    → let (next, idx) = upsert_node t n in
      Holds WellFormed (if is_master then assign start last idx next else ok next)
assigned_or_same is_master start last t n h =
    let up = upsert_node-Upserted t n h in
    let next : Topology = (upsert_node t n).0 in
    let idx : ℕ = (upsert_node t n).1 in
    if_both (Holds WellFormed) is_master
      (Holds-first WellFormed (λ u. u.nodes ≡ next.nodes) (assign start last idx next)
        (assign-WellFormed start last idx next up.found up.well_formed))
      up.well_formed

entry_nodes-WellFormed :
    (start last : ℤ) (is_master : Bool) (vs : List Value) (t : Topology)
    → WellFormed t
    → Holds WellFormed (entry_nodes start last is_master vs t)
unfolding entry_nodes
entry_nodes-WellFormed start last is_master [] t h = h
entry_nodes-WellFormed start last is_master (v ∷ vs) t h =
    elim (Option-cases (parse_slots_node v)) [
      | inl e ↦ rw (e, entry_nodes) (entry_nodes-WellFormed start last false vs t h)
      | inr (n, e) ↦
          let next : Topology = (upsert_node t (with_role is_master n)).0 in
          let idx : ℕ = (upsert_node t (with_role is_master n)).1 in
          rw (e, entry_nodes)
            (Holds-bind WellFormed WellFormed
              (if is_master then assign start last idx next else ok next)
              (λ after. entry_nodes start last false vs after)
              (assigned_or_same is_master start last t (with_role is_master n) h)
              (λ after k. entry_nodes-WellFormed start last false vs after k))
    ]

slots_entry-WellFormed :
    (vs : List Value) (t : Topology) → WellFormed t → Holds WellFormed (slots_entry vs t)
unfolding slots_entry
slots_entry-WellFormed [] t h = h
slots_entry-WellFormed (a ∷ []) t h = h
slots_entry-WellFormed (a ∷ b ∷ []) t h = h
slots_entry-WellFormed (a ∷ b ∷ n ∷ ns) t h =
    entry_nodes-WellFormed (int a) (int b) true (n ∷ ns) t h

slots_entries-WellFormed :
    (vs : List Value) (t : Topology) → WellFormed t → Holds WellFormed (slots_entries vs t)
unfolding slots_entries
slots_entries-WellFormed [] t h = h
slots_entries-WellFormed (v ∷ vs) t h =
    Holds-bind WellFormed WellFormed
      (if type_of v == Prefix.array then slots_entry (to_list (values v)) t else ok t)
      (λ next. slots_entries vs next)
      (if_both (Holds WellFormed) (type_of v == Prefix.array)
        (slots_entry-WellFormed (to_list (values v)) t h) h)
      (λ next k. slots_entries-WellFormed vs next k)

assign_all-WellFormed :
    (ranges : List Range) (idx : ℕ) (t : Topology)
    → idx < length t.nodes
    → WellFormed t
    → Holds WellFormed (assign_all ranges idx t)
unfolding assign_all
assign_all-WellFormed [] idx t lt h = h
assign_all-WellFormed (r ∷ ranges) idx t lt h =
    Holds-bind (λ u. WellFormed u × (u.nodes ≡ t.nodes)) WellFormed (assign r.0 r.1 idx t)
      (λ next. assign_all ranges idx next) (assign-WellFormed r.0 r.1 idx t lt h)
      (λ next k. assign_all-WellFormed ranges idx next (rw k.1 lt) k.0)

abbrev InPair : Topology × Option ℕ → Type 0
InPair p = WellFormed p.0 × Bounded (length p.0.nodes) p.1

upsert_nodes-InPair :
    (nodes : List Node) (t : Topology) (found : Option ℕ)
    → WellFormed t
    → Bounded (length t.nodes) found
    → InPair (upsert_nodes nodes t found)
unfolding upsert_nodes
upsert_nodes-InPair [] t found h k = (h, k)
upsert_nodes-InPair (n ∷ nodes) t found h k =
    let up = upsert_node-Upserted t n h in
    let next : Topology = (upsert_node t n).0 in
    let idx : ℕ = (upsert_node t n).1 in
    if_both InPair (is_hidden n.health) (upsert_nodes-InPair nodes t found h k) (
      upsert_nodes-InPair nodes next (if n.master then some idx else found) up.well_formed
        (if_both (Bounded (length next.nodes)) n.master up.found (Bounded-mono found up.grown k)))

assign_found-WellFormed :
    (ranges : List Range) (p : Topology × Option ℕ)
    → InPair p
    → Holds WellFormed (assign_found ranges p)
unfolding assign_found
assign_found-WellFormed ranges (t, none) h = h.0
assign_found-WellFormed ranges (t, some idx) h = assign_all-WellFormed ranges idx t h.1 h.0

add_shard-WellFormed :
    (parts : List Range × List Node) (t : Topology)
    → WellFormed t
    → Holds WellFormed (add_shard parts t)
unfolding add_shard
add_shard-WellFormed (ranges, nodes) t h =
    assign_found-WellFormed ranges (upsert_nodes nodes t none)
      (upsert_nodes-InPair nodes t none h tt)

shards-WellFormed : (vs : List Value) (t : Topology) → WellFormed t → Holds WellFormed (shards vs t)
unfolding shards
shards-WellFormed [] t h = h
shards-WellFormed (v ∷ vs) t h =
    Holds-bind WellFormed WellFormed
      (if type_of v == Prefix.array
        then add_shard (shard_parts (to_list (values v)) [] []) t
        else ok t)
      (λ next. shards vs next)
      (if_both (Holds WellFormed) (type_of v == Prefix.array)
        (add_shard-WellFormed (shard_parts (to_list (values v)) [] []) t h) h)
      (λ next k. shards-WellFormed vs next k)

-- What a parser gives without an error is well-formed.
abbrev pub Sound : Result Bytes Topology → Type 0
Sound (ok t) = WellFormed t
Sound (err e) = Unit

-- Whatever a node answers to CLUSTER SLOTS or CLUSTER SHARDS: if the parser does not panic and gives
-- a topology, it has 16384 slots, each without a node or with the index of one, and every index of a
-- master is the index of a node.
pub parse_slots_and_shards-WellFormed :
    (v : Value) → Holds Sound (parse_slots v) × Holds Sound (parse_shards v)
unfolding parse_slots parse_shards
parse_slots_and_shards-WellFormed v = (
  if_both (Holds Sound) (not (type_of v == Prefix.array) || is_null v) tt (
      Holds-bind WellFormed Sound (slots_entries (to_list (values v)) new_empty_topology)
        (λ t. ok (ok t))
        (slots_entries-WellFormed (to_list (values v)) new_empty_topology
          new_empty_topology-WellFormed)
        (λ t h. h)),
  if_both (Holds Sound) (not (type_of v == Prefix.array) || is_null v) tt (
      Holds-bind WellFormed Sound (shards (to_list (values v)) new_empty_topology) (λ t. ok (ok t))
        (shards-WellFormed (to_list (values v)) new_empty_topology new_empty_topology-WellFormed)
        (λ t h. h)),
)
