-- ===== src/Cluster/Router.antt =====
-- internal/cluster/router.go: which node serves a request, the pools of the nodes, and a request that
-- follows MOVED and ASK. The pools with their connections and the context are parameters.
pub mod Refresh
pub mod Exec
pub mod Pools
use dragon_cluster_resp_prox.Base.{
  Go, ℕ, ℤ, pos, ltb_ℤ, Bool, true, false, not, ◌&&◌, ◌||◌, List, [], ◌∷◌, ◌++◌, if◌then◌else◌,
  Bytes, codes, equal, mem_name, Argv, Option, none, some, Result, ok, err,
}
use dragon_cluster_resp_prox.Resp.Value.{Value}
use dragon_cluster_resp_prox.Cluster.Topology.{
  Health, Flavor, Node, Topology, Map, node_for_slot, first_master, append_node, new_empty_topology,
  upsert_node, store,
}
use dragon_cluster_resp_prox.Config.{StringMap, Config}

-- What is sent: the arguments of a command, or a frame that is encoded already.
pub data Request : Type 0 where
  argv : Argv → Request
  frame : Bytes → Request

-- What the router asks of the pools, each one named by its address, and of the context: connections
-- `C`, and the state `W` of all else. `send` is `c.Do` with a read timeout; a reply can make the reader
-- panic (Resp/Reader/Refuses).
pub record Net (C W : Type 0) : Type 0 where
  pub cancelled : W → Option Bytes
  pub open_pool : Bytes → Bool → W → W
  pub close_pool : Bytes → W → W
  pub get : Bytes → W → Result Bytes C × W
  pub put_back : Bytes → C → W → W
  pub drop_back : Bytes → C → W → W
  pub send : C → Request → ℤ → W → Go (Result Bytes Value × W)

-- `pools` has the addresses of the pools.
pub record Router : Type 0 where
  pub slots : Map
  pub flavor : Flavor
  pub pools : List Bytes

abbrev pub seed_node : Bytes → Node
seed_node addr = record {
  id = [];
  addr = addr;
  role = codes "master";
  health = Health.online;
  master = true;
}

abbrev pub any_nodes : List Node → Bool
any_nodes [] = false
any_nodes (n ∷ nodes) = true

upsert_seeds : List Bytes → Topology → Topology
unfolding upsert_node
upsert_seeds [] t = t
upsert_seeds (seed ∷ seeds) t = upsert_seeds seeds (upsert_node t (seed_node seed)).0

all_to_first : List ℤ → List ℤ
all_to_first [] = []
all_to_first (z ∷ slots) = pos 0 ∷ all_to_first slots

unfoldable pub install_seeds : Config → Router → Router
unfolding upsert_seeds all_to_first store new_empty_topology
install_seeds cfg r =
    let t = upsert_seeds cfg.cluster_seeds (record new_empty_topology { flavor = r.flavor }) in
    let owned = if any_nodes t.nodes then record t { slots = all_to_first t.slots } else t in
    record r { slots = store (some owned) r.slots }

abbrev pub is_undetected : Flavor → Bool
is_undetected Flavor.undetected = true
is_undetected _ = false

abbrev pub is_redis : Flavor → Bool
is_redis Flavor.redis = true
is_redis _ = false

abbrev pub flavor_of : Router → Flavor
flavor_of r = elim r.slots.ptr [
  | none ↦ r.flavor
  | some t ↦ if is_undetected t.flavor then r.flavor else t.flavor
]

-- `add` in `candidateAddrs`, on the addresses so far.
unfoldable pub add_addr : Bytes → List Bytes → List Bytes
unfolding equal mem_name
add_addr a out = if equal a [] || mem_name a out then out else out ++ (a ∷ [])

unfoldable pub add_masters : List Node → List Bytes → List Bytes
unfolding add_addr
add_masters [] out = out
add_masters (n ∷ nodes) out = add_masters nodes (if n.master then add_addr n.addr out else out)

unfoldable pub add_addrs : List Bytes → List Bytes → List Bytes
unfolding add_addr
add_addrs [] out = out
add_addrs (a ∷ addrs) out = add_addrs addrs (add_addr a out)

unfoldable pub candidate_addrs : Config → Router → List Bytes
unfolding add_masters add_addrs
candidate_addrs cfg r =
    let masters : List Bytes = elim r.slots.ptr [ none ↦ [] | some t ↦ add_masters t.nodes [] ] in
    add_addrs cfg.cluster_seeds masters

find_mapping : StringMap → Bytes → Option Bytes
unfolding equal
find_mapping [] addr = none
find_mapping (p ∷ m) addr =
    let rest = find_mapping m addr in if equal p.0 addr then some p.1 else rest

unfoldable pub rewrite : Config → Bytes → Bytes
unfolding find_mapping
rewrite cfg addr = elim (find_mapping cfg.address_map addr) [
  | none ↦ addr
  | some [] ↦ addr
  | some (c ∷ mapped) ↦ c ∷ mapped
]

unfoldable pub serving_node : Config → Router → ℕ → Bool → Option Node
unfolding node_for_slot
serving_node cfg r slot read = node_for_slot r.slots.ptr slot (read && cfg.read_from_replicas)

abbrev pub first_seed : List Bytes → Option Node
first_seed [] = none
first_seed (seed ∷ seeds) = some (record (seed_node seed) { role = [] })

unfoldable pub any_master : Config → Router → Option Node
unfolding first_master
any_master cfg r = elim (first_master r.slots.ptr) [
  | some n ↦ some n
  | none ↦ first_seed cfg.cluster_seeds
]

-- `NodeForSlot`, or else `AnyMaster`.
unfoldable pub node_or_master : Config → Router → ℕ → Bool → Option Node
unfolding serving_node any_master
node_or_master cfg r slot read = elim (serving_node cfg r slot read) [
  | some n ↦ some n
  | none ↦ any_master cfg r
]

abbrev pub no_nodes : Bytes
no_nodes = codes "no backend nodes"

module _ {C W : Type 0} (net : Net C W) (cfg : Config) where
  -- `newPool`: a replica of a Redis cluster is read only.
  unfoldable pub new_pool : Bytes → Bool → Router → W → W
  new_pool addr replica r w = net.open_pool addr (replica && is_redis (flavor_of r)) w

  -- The pool that is found or made, by its address.
  unfoldable pub pool_for : Bytes → Bool → Router → W → Bytes × Router × W
  unfolding rewrite new_pool mem_name
  pool_for addr replica r w =
      let a = rewrite cfg addr in
      if mem_name a r.pools
      then (a, r, w)
      else (a, record r { pools = a ∷ r.pools }, new_pool a replica r w)

  unfoldable pub checkout_addr : Bytes → Router → W → Result Bytes (Bytes × C) × Router × W
  unfolding pool_for
  checkout_addr addr r w =
      let (a, next, opened) = pool_for addr false r w in
      let (got, after) = net.get a opened in
      elim got [ err e ↦ (err e, next, after) | ok c ↦ (ok (a, c), next, after) ]

  unfoldable pub checkout : ℕ → Router → W → Result Bytes (Bytes × C) × Router × W
  unfolding node_or_master checkout_addr
  checkout slot r w = elim (node_or_master cfg r slot false) [
    | none ↦ (err no_nodes, r, w)
    | some n ↦ checkout_addr n.addr r w
  ]

  close_pools : List Bytes → W → W
  close_pools [] w = w
  close_pools (a ∷ addrs) w = close_pools addrs (net.close_pool a w)

  unfoldable pub close : Router → W → Router × W
  unfolding close_pools
  close r w = (record r { pools = [] }, close_pools r.pools w)
