-- ===== src/Cluster/Topology.antt =====
-- internal/cluster/topology.go: the map from slots to nodes and its changes. A topology is never
-- changed after it is stored, so a copy of it is the topology itself, and a nil pointer is `none`.
pub mod Parse
pub mod Owners
pub mod Invariant
use dragon_cluster_resp_prox.Base.{
  ℕ, zero, suc, ◌+◌, ◌-◌, ◌/◌, ◌%◌, ◌^◌, ℤ, pos, negsuc, ltb_ℤ, Bool, true, false, not, ◌&&◌, ◌||◌,
  List, [], ◌∷◌, ◌++◌, ltb, leb, if◌then◌else◌, Bytes, codes, equal, mem_name, Option, none, some,
  length, get_or, get_elem?, set, replicate, drop, is_prefix, Go, ok, err, panic, ◌>>=◌,
}
use dragon_cluster_resp_prox.Resp.Ascii.{lower_byte}
use dragon_cluster_resp_prox.Cluster.Crc16.{slot_count}

pub data Health : Type 0 where
  unknown online loading fail hidden : Health

pub data Flavor : Type 0 where
  undetected dragonfly redis emulated : Flavor

-- `strings.ToLower`, on the ASCII letters.
unfoldable pub to_lower : Bytes → Bytes
to_lower [] = []
to_lower (c ∷ s) = lower_byte c ∷ to_lower s

unfoldable pub parse_health : Bytes → Health
unfolding to_lower equal
parse_health s =
    let low = to_lower s in
    if equal low (codes "online")
    then online
    else if equal low (codes "loading")
    then loading
    else if equal low (codes "fail")
    then fail
    else if equal low (codes "hidden")
    then hidden
    else online

health_string : Health → Bytes
health_string online = codes "online"
health_string loading = codes "loading"
health_string fail = codes "fail"
health_string hidden = codes "hidden"
health_string unknown = codes "unknown"

flavor_string : Flavor → Bytes
flavor_string dragonfly = codes "dragonfly"
flavor_string redis = codes "redis"
flavor_string emulated = codes "emulated"
flavor_string undetected = codes "unknown"

pub record Node : Type 0 where
  pub id : Bytes
  pub addr : Bytes
  pub role : Bytes
  pub health : Health
  pub master : Bool

-- `slots` has one index into `nodes` for each slot, -1 for none.
pub record Topology : Type 0 where
  pub generation : ℕ
  pub flavor : Flavor
  pub slots : List ℤ
  pub nodes : List Node
  pub masters : List ℕ

-- `int32(idx)`
unfoldable pub int32 : ℕ → ℤ
int32 n = let w = n % 2 ^ 32 in if ltb w (2 ^ 31) then pos w else negsuc (2 ^ 32 - w - 1)

abbrev negative : ℤ → Bool
negative (pos n) = false
negative (negsuc n) = true

abbrev pub slot_entry : Topology → ℕ → ℤ
slot_entry t slot = get_or t.slots slot (negsuc 0)

empty : Option Topology → Bool
empty none = true
empty (some t) =
    if not (ltb 0 (length t.nodes))
    then true
    else negative (slot_entry t 0)
      && negative (slot_entry t 1)
      && negative (slot_entry t (slot_count / 2))

-- `t.Nodes[idx]`, for an index in bounds.
unfoldable pub node_at : Topology → ℤ → Option Node
node_at t (negsuc _) = none
node_at t (pos i) = get_elem? t.nodes i

abbrev replica_of : Node → Node → Bool
replica_of n master_node = not n.master

abbrev is_online : Health → Bool
is_online online = true
is_online _ = false

find_replica : Node → List Node → Option Node
find_replica master_node [] = none
find_replica master_node (n ∷ nodes) =
    let rest = find_replica master_node nodes in
    if not n.master && is_online n.health && replica_of n master_node then some n else rest

unfoldable pub node_for_slot : Option Topology → ℕ → Bool → Option Node
unfolding node_at find_replica
node_for_slot none slot want_replica = none
node_for_slot (some t) slot want_replica =
    if leb slot_count slot then none else elim (node_at t (slot_entry t slot)) [
      | none ↦ none
      | some master_node ↦
          if not want_replica
          then some master_node
          else elim (find_replica master_node t.nodes) [ none ↦ some master_node | some n ↦ some n ]
    ]

-- The current topology, and the last generation.
pub record Map : Type 0 where
  pub ptr : Option Topology
  pub gen : ℕ

unfoldable pub store : Option Topology → Map → Map
store none m = m
store (some t) m =
    let next = (m.gen + 1) % 2 ^ 64 in
    record { ptr = some (record t { generation = next }); gen = next }

unfoldable pub new_empty_topology : Topology
new_empty_topology = record {
  generation = 0;
  flavor = undetected;
  slots = replicate slot_count (negsuc 0);
  nodes = [];
  masters = [];
}

abbrev pub next_index : Option ℕ → Option ℕ
next_index none = none
next_index (some i) = some (suc i)

-- The index of the first node with the address or the identifier, an empty one matching none.
unfoldable pub node_index : List Node → Bytes → Bytes → Option ℕ
node_index [] addr id = none
node_index (n ∷ nodes) addr id =
    let rest = next_index (node_index nodes addr id) in
    if not (equal addr []) && equal n.addr addr
    then some 0
    else if not (equal id []) && equal n.id id
    then some 0
    else rest

abbrev pub append_node : Node → Bool → Topology → Topology
append_node n is_master t = record t {
  nodes = t.nodes ++ (n ∷ []);
  masters = if is_master then t.masters ++ (length t.nodes ∷ []) else t.masters;
}

-- `next.Slots[slot] = int32(idx)`, and the new topology in the place of the old one.
unfoldable pub install : ℕ → Topology → ℕ → Map → Go Map
unfolding store
install slot next idx m =
    if ltb slot slot_count
    then ok (store (some (record next { slots = set next.slots slot (int32 idx) })) m)
    else err panic

abbrev pub clone_or_empty : Option Topology → Topology
clone_or_empty none = new_empty_topology
clone_or_empty (some t) = t

unfoldable pub update_slot : ℕ → Bytes → Bytes → Map → Go Map
unfolding install
update_slot slot addr id m =
    let next = clone_or_empty m.ptr in
    elim (node_index next.nodes addr id) [
      | some idx ↦ install slot next idx m
      | none ↦
          install slot
            (append_node
              (record {
                id = id;
                addr = addr;
                role = codes "master";
                health = online;
                master = true;
              })
              true next)
            (length next.nodes) m
    ]

-- What is known of a node, brought up to date; its address stays.
abbrev pub refreshed : Node → Node → Node
refreshed old n = record {
  id = if not (equal n.id []) then n.id else old.id;
  addr = old.addr;
  role = n.role;
  health = n.health;
  master = n.master;
}

unfoldable pub upsert_node : Topology → Node → Topology × ℕ
upsert_node t n = elim (node_index t.nodes n.addr n.id) [
  | some i ↦ (record t { nodes = set t.nodes i (refreshed (get_or t.nodes i n) n) }, i)
  | none ↦ (append_node n n.master t, length t.nodes)
]

-- Whether a text stands somewhere in another one.
contains : Bytes → Bytes → Bool
unfolding is_prefix
contains [] part = is_prefix [] part
contains (c ∷ s) part = is_prefix (c ∷ s) part || contains s part

unfoldable pub detect_flavor : Bytes → Flavor
unfolding contains to_lower
detect_flavor info =
    let low = to_lower info in
    if contains low (codes "dragonfly_version")
    then if contains low (codes "cluster_mode:emulated") || contains low (codes "cluster_enabled:0")
      then emulated
      else dragonfly
    else redis

first_in_bounds : List Node → List ℕ → Option Node
first_in_bounds nodes [] = none
first_in_bounds nodes (i ∷ masters) = elim (get_elem? nodes i) [
  | some n ↦ some n
  | none ↦ first_in_bounds nodes masters
]

first_by_role : List Node → Option Node
first_by_role [] = none
first_by_role (n ∷ nodes) =
    let rest = first_by_role nodes in
    if n.master || equal n.role (codes "master") then some n else rest

unfoldable pub first_master : Option Topology → Option Node
unfolding first_in_bounds first_by_role
first_master none = none
first_master (some t) = elim (first_in_bounds t.nodes t.masters) [
  | some n ↦ some n
  | none ↦ elim (first_by_role t.nodes) [ some n ↦ some n | none ↦ get_elem? t.nodes 0 ]
]
