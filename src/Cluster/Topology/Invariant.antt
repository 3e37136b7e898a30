-- ===== src/Cluster/Topology/Invariant.antt =====
-- internal/cluster/topology.go: every index of a topology is in bounds.
use dragon_cluster_resp_prox.Base.{
  ℕ, zero, suc, ◌-◌, ◌≡◌, ◌≤◌, ◌<◌, refl, ◌∙◌, if_both, arith, ℤ, pos, negsuc, ltb_ℤ, Bool, not,
  ◌&&◌, List, [], ◌∷◌, ◌++◌, ltb, Bytes, Option, none, some, length, length-append, length-set,
  length-replicate, set, replicate, get_or, All, All-append, All-map, Holds,
}
use dragon_cluster_resp_prox.Cluster.Crc16.{slot_count}
use dragon_cluster_resp_prox.Cluster.Topology.{
  Node, Topology, int32, append_node, new_empty_topology, node_index, upsert_node, refreshed,
}
use dragon_cluster_resp_prox.Cluster.Topology.Parse.{fill, assign}

-- A slot's entry is negative or the index of a node.
abbrev pub Within : ℕ → ℤ → Type 0
Within n (negsuc _) = Unit
Within n (pos i) = i < n

pub record WellFormed (t : Topology) : Type 0 where
  pub all_slots : length t.slots ≡ slot_count
  pub entries : All (Within (length t.nodes)) t.slots
  pub leaders : All (λ i. i < length t.nodes) t.masters

Within-mono : (m n : ℕ) → m ≤ n → (z : ℤ) → Within m z → Within n z
Within-mono m n h (pos i) k = omega arith
Within-mono m n h (negsuc i) k = tt

pub int32-Within : (n i : ℕ) → i < n → Within n (int32 i)
unfolding int32
int32-Within n i h = ground arith

pub All-set :
    {A : Type 0} (P : A → Type 0) (xs : List A) (i : ℕ) (v : A)
    → P v
    → All P xs
    → All P (set xs i v)
All-set P [] i v h k = tt
All-set P (x ∷ xs) zero v h k = (h, k.1)
All-set P (x ∷ xs) (suc i) v h k = (k.0, All-set P xs i v h k.1)

All-replicate : {A : Type 0} (P : A → Type 0) (n : ℕ) (a : A) → P a → All P (replicate n a)
All-replicate P zero a h = tt
All-replicate P (suc n) a h = (h, All-replicate P n a h)

pub new_empty_topology-WellFormed : WellFormed new_empty_topology
unfolding new_empty_topology
new_empty_topology-WellFormed = record {
  all_slots = length-replicate slot_count (negsuc 0);
  entries = All-replicate (Within 0) slot_count (negsuc 0) tt;
  leaders = tt;
}

abbrev pub Bounded : ℕ → Option ℕ → Type 0
Bounded n none = Unit
Bounded n (some i) = i < n

-- The index that is found is in bounds.
pub node_index-Bounded :
    (nodes : List Node) (addr id : Bytes) → Bounded (length nodes) (node_index nodes addr id)
unfolding node_index
node_index-Bounded [] addr id = tt
node_index-Bounded (n ∷ nodes) addr id = ground (arith, node_index-Bounded nodes addr id)

pub append_node-WellFormed :
    (n : Node) (b : Bool) (t : Topology) → WellFormed t → WellFormed (append_node n b t)
append_node-WellFormed n b t h =
    let more = length-append t.nodes (n ∷ []) in
    let bound : ℕ = length (t.nodes ++ (n ∷ [])) in
    let leaders : All (λ i. i < bound) t.masters =
      All-map (λ i k. omega arith) t.masters h.leaders in
    record {
      all_slots = h.all_slots;
      entries = All-map (Within-mono (length t.nodes) bound (omega arith)) t.slots h.entries;
      leaders =
          if_both (All (λ i. i < bound)) b
            (All-append (λ i. i < bound) t.masters (length t.nodes ∷ []) leaders (omega arith, tt))
            leaders;
    }

-- What an upsert gives: a well-formed topology, with no fewer nodes and the index of one.
pub record Upserted (before : Topology) (after : Topology) (idx : ℕ) : Type 0 where
  pub well_formed : WellFormed after
  pub grown : length before.nodes ≤ length after.nodes
  pub found : idx < length after.nodes

upserted :
    (t : Topology) (n : Node) (found : Option ℕ)
    → node_index t.nodes n.addr n.id ≡ found
    → Bounded (length t.nodes) found
    → WellFormed t
    → Upserted t (upsert_node t n).0 (upsert_node t n).1
unfolding upsert_node
upserted t n none e k h =
    let more = length-append t.nodes (n ∷ []) in
    rw (e, upsert_node)
      (record {
        well_formed = append_node-WellFormed n n.master t h;
        grown = omega arith;
        found = omega arith;
      })
upserted t n (some i) e k h =
    let same = length-set t.nodes i (refreshed (get_or t.nodes i n) n) in
    rw (e, upsert_node)
      (record {
        well_formed = record {
          all_slots = h.all_slots;
          entries = rw same h.entries;
          leaders = rw same h.leaders;
        };
        grown = omega arith;
        found = omega arith;
      })

pub upsert_node-Upserted :
    (t : Topology) (n : Node) → WellFormed t → Upserted t (upsert_node t n).0 (upsert_node t n).1
upsert_node-Upserted t n h = upserted t n _ refl (node_index-Bounded t.nodes n.addr n.id) h

fill-Within :
    (n rounds s : ℕ) (last : ℤ) (idx : ℕ) (slots : List ℤ)
    → idx < n
    → All (Within n) slots
    → All (Within n) (fill rounds s last idx slots)
      × (length (fill rounds s last idx slots) ≡ length slots)
unfolding fill
fill-Within n zero s last idx slots lt h = (h, refl)
fill-Within n (suc rounds) s last idx slots lt h =
    let next = All-set (Within n) slots s (int32 idx) (int32-Within n idx lt) h in
    let rest = fill-Within n rounds (suc s) last idx (set slots s (int32 idx)) lt next in
    if_both (λ out. All (Within n) out × (length out ≡ length slots))
      (not (ltb_ℤ last (pos s)) && ltb s slot_count)
      (rest.0, rest.1 ∙ length-set slots s (int32 idx)) (h, refl)

pub assign-WellFormed :
    (start last : ℤ) (idx : ℕ) (t : Topology)
    → idx < length t.nodes
    → WellFormed t
    → Holds (λ u. WellFormed u × (u.nodes ≡ t.nodes)) (assign start last idx t)
unfolding assign
assign-WellFormed (negsuc s) last idx t lt h =
    if_both (Holds (λ u. WellFormed u × (u.nodes ≡ t.nodes))) (ltb_ℤ last (negsuc s)) (h, refl) tt
assign-WellFormed (pos s) last idx t lt h =
    let filled = fill-Within (length t.nodes) (slot_count - s) s last idx t.slots lt h.entries in
    (record { all_slots = filled.1 ∙ h.all_slots; entries = filled.0; leaders = h.leaders }, refl)
