-- ===== src/Cluster/Topology/Owners.antt =====
-- internal/cluster/topology.go: whom a slot belongs to after `UpdateSlot`, and after a range of slots
-- is assigned.
use dragon_cluster_resp_prox.Base.{
  ℕ, zero, suc, ◌+◌, ◌%◌, ◌^◌, ◌≡◌, ◌≢◌, ◌<◌, inl, inr, refl, sym, ◌∙◌, arith, ℤ, pos, negsuc,
  ltb_ℤ, Bool, true, false, not, ◌&&◌, List, [], ◌∷◌, ltb, leb, if◌then◌else◌, ℕ-cases, Bool-cases,
  Option-cases, equal, equal_iff, codes, Bytes, Option, none, some, length, length-append,
  length-set, set, get_or, get_elem?, get_or-set_self, get_or-set_ne, get_elem?-append,
  get_elem?-append_last, get_or-replicate, All-get_or, Returns, ok,
}
use dragon_cluster_resp_prox.Cluster.Crc16.{slot_count}
use dragon_cluster_resp_prox.Cluster.Topology.{
  Node, Topology, Map, online, int32, node_at, node_for_slot, append_node, new_empty_topology,
  node_index, next_index, install, store, update_slot, clone_or_empty, slot_entry,
}
use dragon_cluster_resp_prox.Cluster.Topology.Parse.{fill}
use dragon_cluster_resp_prox.Cluster.Topology.Invariant.{
  WellFormed, Within, All-set, int32-Within, Bounded, node_index-Bounded, append_node-WellFormed,
  new_empty_topology-WellFormed,
}

int32_small : (i : ℕ) → i < 2 ^ 31 → int32 i ≡ pos i
unfolding int32
int32_small i h = ground arith

-- After the range from `s` to `last` is assigned in a table of all slots, with a round for each slot
-- from `s` on, exactly the slots of the range have the new index, and the others the one before.
pub get_or-fill :
    (rounds s : ℕ) (last : ℤ) (idx : ℕ) (slots : List ℤ) (j : ℕ)
    → length slots ≡ slot_count
    → s + rounds ≡ slot_count
    → get_or (fill rounds s last idx slots) j (negsuc 0) ≡ (
        if leb s j && ltb j slot_count && not (ltb_ℤ last (pos j))
        then int32 idx
        else get_or slots j (negsuc 0))
unfolding fill
get_or-fill zero s last idx slots j e k = ground arith
get_or-fill (suc rounds) s last idx slots j e k =
    let lt : s < slot_count = omega arith in
    let rest =
      get_or-fill rounds (suc s) last idx (set slots s (int32 idx)) j
        (length-set slots s (int32 idx) ∙ e) (omega arith) in
    elim (ℕ-cases s j) [
      | inl same ↦
          let here : get_or (set slots s (int32 idx)) j (negsuc 0) ≡ int32 idx =
            rw (sym same) (get_or-set_self slots s (int32 idx) (negsuc 0) (omega arith)) in
          ground arith
      | inr other ↦ let kept = get_or-set_ne slots s j (int32 idx) (negsuc 0) other in ground arith
    ]

-- The node with the address.
abbrev Hits : Bytes → List Node → Option ℕ → Type 0
Hits addr nodes none = Unit
Hits addr nodes (some i) = (n : Node) × (get_elem? nodes i ≡ some n) × (n.addr ≡ addr)

Hits-next :
    (n : Node) (nodes : List Node) (addr : Bytes) (found : Option ℕ)
    → Hits addr nodes found
    → Hits addr (n ∷ nodes) (next_index found)
Hits-next n nodes addr none h = tt
Hits-next n nodes addr (some i) h = h

and_right : (a b : Bool) → (a && b) ≡ true → b ≡ true
and_right a b h = ground arith

node_index-Hits : (nodes : List Node) (addr : Bytes) → Hits addr nodes (node_index nodes addr [])
unfolding node_index equal
node_index-Hits [] addr = tt
node_index-Hits (n ∷ nodes) addr = elim (Bool-cases (not (equal addr []) && equal n.addr addr)) [
  | inl hit ↦ rw (hit, node_index) (n, refl, (equal_iff n.addr addr).0 (and_right _ _ hit))
  | inr miss ↦
      rw (miss, node_index)
        (Hits-next n nodes addr (node_index nodes addr []) (node_index-Hits nodes addr))
]

abbrev pub Current : Option Topology → Type 0
Current none = Unit
Current (some t) = WellFormed t

node_for_slot_master :
    (t : Topology) (slot : ℕ)
    → node_for_slot (some t) slot false
      ≡ (if leb slot_count slot then none else node_at t (slot_entry t slot))
unfolding node_for_slot
node_for_slot_master t slot = elim (Option-cases (node_at t (slot_entry t slot))) [
  | inl e ↦ rw (e, node_for_slot) refl
  | inr (n, e) ↦ rw (e, node_for_slot) refl
]

-- There is a topology, and it and the map's counter have this generation.
abbrev pub Stamped : ℕ → Map → Type 0
Stamped n m = (t : Topology) × (m.ptr ≡ some t) × (t.generation ≡ n) × (m.gen ≡ n)

-- What installing a topology with slot `slot` on node `idx` does.
record Installed (slot : ℕ) (next : Topology) (idx : ℕ) (m after : Map) : Type 0 where
  here : node_for_slot after.ptr slot false ≡ get_elem? next.nodes idx
  elsewhere :
      (j : ℕ) → j ≢ slot → node_for_slot after.ptr j false ≡ node_for_slot (some next) j false
  current : Current after.ptr
  counted : Stamped ((m.gen + 1) % 2 ^ 64) after

install-Installed :
    (slot : ℕ) (next : Topology) (idx : ℕ) (m : Map)
    → WellFormed next
    → slot < slot_count
    → idx < length next.nodes
    → idx < 2 ^ 31
    → (after : Map) × (install slot next idx m ≡ ok after) × Installed slot next idx m after
unfolding install store node_at
install-Installed slot next idx m h lt in_nodes small =
    let after : Map = store (some (record next { slots = set next.slots slot (int32 idx) })) m in
    (
      after,
      ground arith,
      record {
        here =
            node_for_slot_master _ slot
            ∙ rw
                (
                  get_or-set_self next.slots slot (int32 idx) (negsuc 0) (rw h.all_slots lt),
                  int32_small idx small,
                )
                (ground arith);
        elsewhere = λ j ne.
            node_for_slot_master _ j
            ∙ rw (get_or-set_ne next.slots slot j (int32 idx) (negsuc 0) (λ e. ne (sym e)))
                (sym (node_for_slot_master next j));
        current = record {
          all_slots = length-set next.slots slot (int32 idx) ∙ h.all_slots;
          entries =
              All-set (Within (length next.nodes)) next.slots slot (int32 idx)
                (int32-Within (length next.nodes) idx in_nodes) h.entries;
          leaders = h.leaders;
        };
        counted = (
          record next {
            slots = set next.slots slot (int32 idx);
            generation = (m.gen + 1) % 2 ^ 64;
          },
          refl,
          refl,
          refl,
        );
      },
    )

pub clone_or_empty-WellFormed : (p : Option Topology) → Current p → WellFormed (clone_or_empty p)
clone_or_empty-WellFormed none h = new_empty_topology-WellFormed
clone_or_empty-WellFormed (some t) h = h

-- A topology that is empty answers like none.
node_for_slot-clone_or_empty :
    (p : Option Topology) (slot : ℕ)
    → node_for_slot (some (clone_or_empty p)) slot false ≡ node_for_slot p slot false
unfolding node_for_slot new_empty_topology node_at
node_for_slot-clone_or_empty none slot =
    rw (get_or-replicate slot_count slot (negsuc 0)) (ground arith)
node_for_slot-clone_or_empty (some t) slot = refl

node_at-append_node :
    (t : Topology) (n : Node) (b : Bool) (z : ℤ)
    → Within (length t.nodes) z
    → node_at (append_node n b t) z ≡ node_at t z
unfolding node_at
node_at-append_node t n b (pos i) h = get_elem?-append t.nodes (n ∷ []) i h
node_at-append_node t n b (negsuc i) h = refl

-- A node at the end of the list does not change whom a slot belongs to.
node_for_slot-append_node :
    (t : Topology) (n : Node) (b : Bool) (slot : ℕ)
    → WellFormed t
    → node_for_slot (some (append_node n b t)) slot false ≡ node_for_slot (some t) slot false
node_for_slot-append_node t n b slot h =
    node_for_slot_master (append_node n b t) slot
    ∙ rw
        (node_at-append_node t n b (slot_entry t slot)
          (All-get_or (Within (length t.nodes)) t.slots slot (negsuc 0) tt h.entries))
        (sym (node_for_slot_master t slot))

-- What `UpdateSlot` of a slot to an address does to the map.
pub record Moved (slot : ℕ) (addr : Bytes) (m after : Map) : Type 0 where
  pub owner : (n : Node) × (node_for_slot after.ptr slot false ≡ some n) × (n.addr ≡ addr)
  pub others : (j : ℕ) → j ≢ slot → node_for_slot after.ptr j false ≡ node_for_slot m.ptr j false
  pub well_formed : Current after.ptr
  pub counted : Stamped ((m.gen + 1) % 2 ^ 64) after

relocate-Moved :
    (slot : ℕ) (addr : Bytes) (m : Map) (found : Option ℕ)
    → node_index (clone_or_empty m.ptr).nodes addr [] ≡ found
    → Hits addr (clone_or_empty m.ptr).nodes found
    → Bounded (length (clone_or_empty m.ptr).nodes) found
    → WellFormed (clone_or_empty m.ptr)
    → slot < slot_count
    → length (clone_or_empty m.ptr).nodes < 2 ^ 31
    → (after : Map) × (update_slot slot addr [] m ≡ ok after) × Moved slot addr m after
unfolding update_slot
relocate-Moved slot addr m (some i) e (n, at_i, same) bound h lt few =
    let (after, run, done) =
      install-Installed slot (clone_or_empty m.ptr) i m h lt bound (omega arith) in
    (
      after,
      rw (e, update_slot) run,
      record {
        owner = (n, done.here ∙ at_i, same);
        others = λ j ne. done.elsewhere j ne ∙ node_for_slot-clone_or_empty m.ptr j;
        well_formed = done.current;
        counted = done.counted;
      },
    )
relocate-Moved slot addr m none e hit bound h lt few =
    let t : Topology = clone_or_empty m.ptr in
    let n : Node = record {
      id = [];
      addr = addr;
      role = codes "master";
      health = online;
      master = true;
    } in
    let more = length-append t.nodes (n ∷ []) in
    let (after, run, done) =
      install-Installed slot (append_node n true t) (length t.nodes) m
        (append_node-WellFormed n true t h) lt (omega arith) few in
    (
      after,
      rw (e, update_slot) run,
      record {
        owner = (n, done.here ∙ get_elem?-append_last t.nodes n, refl);
        others = λ j ne.
            done.elsewhere j ne
            ∙ node_for_slot-append_node t n true j h
            ∙ node_for_slot-clone_or_empty m.ptr j;
        well_formed = done.current;
        counted = done.counted;
      },
    )

-- A redirect that names a slot in range gives the slot to the node with that address, known or new,
-- changes the owner of no other slot, and keeps the topology well-formed, with the next generation
-- on it and on the map's counter; there are fewer than 2^31 nodes.
pub update_slot-Moved :
    (slot : ℕ) (addr : Bytes) (m : Map)
    → Current m.ptr
    → slot < slot_count
    → length (clone_or_empty m.ptr).nodes < 2 ^ 31
    → (after : Map) × (update_slot slot addr [] m ≡ ok after) × Moved slot addr m after
update_slot-Moved slot addr m h lt few =
    let t : Topology = clone_or_empty m.ptr in
    relocate-Moved slot addr m (node_index t.nodes addr []) refl (node_index-Hits t.nodes addr)
      (node_index-Bounded t.nodes addr []) (clone_or_empty-WellFormed m.ptr h) lt few

-- A slot in range is given away without a panic, and the topology stays well-formed, whatever the
-- number of nodes.
install-Current :
    (slot : ℕ) (next : Topology) (idx : ℕ) (m : Map)
    → WellFormed next
    → slot < slot_count
    → idx < length next.nodes
    → Returns (λ after. Current after.ptr) (install slot next idx m)
unfolding install store
install-Current slot next idx m h lt in_nodes = (
  store (some (record next { slots = set next.slots slot (int32 idx) })) m,
  ground arith,
  record {
    all_slots = length-set next.slots slot (int32 idx) ∙ h.all_slots;
    entries =
        All-set (Within (length next.nodes)) next.slots slot (int32 idx)
          (int32-Within (length next.nodes) idx in_nodes) h.entries;
    leaders = h.leaders;
  },
)

pub update_slot-Current :
    (slot : ℕ) (addr id : Bytes) (m : Map)
    → Current m.ptr
    → slot < slot_count
    → Returns (λ after. Current after.ptr) (update_slot slot addr id m)
unfolding update_slot
update_slot-Current slot addr id m h lt =
    let next : Topology = clone_or_empty m.ptr in
    let well = clone_or_empty-WellFormed m.ptr h in
    elim (node_index next.nodes addr id)
        as (λ x.
          Bounded (length next.nodes) x
          → Returns (λ after. Current after.ptr)
              (elim x [
                | some idx ↦ install slot next idx m
                | none ↦
                    install slot
                      (append_node
                        (record {
                          id = id;
                          addr = addr;
                          role = codes "master";
                          health = online;
                          master = true;
                        })
                        true next)
                      (length next.nodes) m
              ])) [
                | some idx ↦ λ b. install-Current slot next idx m well lt b
                | none ↦ λ b.
                    let n : Node = record {
                      id = id;
                      addr = addr;
                      role = codes "master";
                      health = online;
                      master = true;
                    } in
                    let more = length-append next.nodes (n ∷ []) in
                    install-Current slot (append_node n true next) (length next.nodes) m
                      (append_node-WellFormed n true next well) lt (omega arith)
              ]
      (node_index-Bounded next.nodes addr id)
