-- ===== src/Cluster/Topology/Parse.antt =====
-- internal/cluster/topology.go: the replies of CLUSTER SLOTS and CLUSTER SHARDS.
pub mod InBounds
use dragon_cluster_resp_prox.Base.{
  ℕ, zero, suc, ◌+◌, ◌-◌, ℤ, pos, negsuc, ltb_ℤ, Bool, true, false, not, ◌&&◌, ◌||◌, List, [], ◌∷◌,
  ◌++◌, ◌==◌, ltb, leb, if◌then◌else◌, Bytes, codes, equal, content, Option, none, some, set,
  Result, Go, ok, err, panic, ◌>>=◌,
}
use dragon_cluster_resp_prox.Resp.Prefix
use dragon_cluster_resp_prox.Resp.Decimal.{append_int, parse_int64}
use dragon_cluster_resp_prox.Resp.Value.{
  Value, type_of, str, int, values, is_null, to_list, index_byte,
}
use dragon_cluster_resp_prox.Cluster.Crc16.{slot_count}
use dragon_cluster_resp_prox.Cluster.Topology.{
  Health, online, hidden, Node, Topology, int32, to_lower, parse_health, new_empty_topology,
  upsert_node,
}

-- The loop over the slots from `s` on, at most `rounds` of them: no slot is left after that many.
unfoldable pub fill : ℕ → ℕ → ℤ → ℕ → List ℤ → List ℤ
fill zero s last idx slots = slots
fill (suc rounds) s last idx slots =
    let rest = fill rounds (suc s) last idx (set slots s (int32 idx)) in
    if not (ltb_ℤ last (pos s)) && ltb s slot_count then rest else slots

-- A write at a negative slot panics.
unfoldable pub assign : ℤ → ℤ → ℕ → Topology → Go Topology
unfolding fill
assign (negsuc s) last idx t = if ltb_ℤ last (negsuc s) then ok t else err panic
assign (pos s) last idx t = ok (record t { slots = fill (slot_count - s) s last idx t.slots })

abbrev parsed_or : ℤ → Option ℤ → ℤ
parsed_or d none = d
parsed_or d (some n) = n

abbrev id_of : List Value → Bytes
id_of [] = []
id_of (v ∷ vs) = content (str v)

address : Bytes → ℤ → Bytes
unfolding append_int
address host port = host ++ (b':' ∷ append_int port)

slots_node : List Value → Option Node
unfolding address parse_int64
slots_node (host ∷ p ∷ rest) =
    let ip = content (str host) in
    let port : ℤ =
      if type_of p == Prefix.bulk_string || type_of p == Prefix.simple_string
      then parsed_or (int p) (parse_int64 (content (str p)))
      else int p in
    if equal ip [] || not (ltb_ℤ (pos 0) port)
    then none
    else some (record {
      id = id_of rest;
      addr = address ip port;
      role = [];
      health = online;
      master = false;
    })
slots_node _ = none

parse_slots_node : Value → Option Node
unfolding slots_node
parse_slots_node v = if type_of v == Prefix.array then slots_node (to_list (values v)) else none

abbrev with_role : Bool → Node → Node
with_role is_master n = record n {
  master = is_master;
  role = if is_master then codes "master" else codes "replica";
}

-- The nodes of an entry; the first one is the master.
entry_nodes : ℤ → ℤ → Bool → List Value → Topology → Go Topology
unfolding assign parse_slots_node
entry_nodes start last is_master [] t = ok t
entry_nodes start last is_master (v ∷ vs) t = elim (parse_slots_node v) [
  | none ↦ entry_nodes start last false vs t
  | some n ↦
      let (next, idx) = upsert_node t (with_role is_master n) in
      (if is_master then assign start last idx next else ok next) >>= λ after.
      entry_nodes start last false vs after
]

slots_entry : List Value → Topology → Go Topology
unfolding entry_nodes
slots_entry (start ∷ last ∷ n ∷ ns) t = entry_nodes (int start) (int last) true (n ∷ ns) t
slots_entry _ t = ok t

slots_entries : List Value → Topology → Go Topology
unfolding slots_entry
slots_entries [] t = ok t
slots_entries (entry ∷ entries) t =
    (if type_of entry == Prefix.array then slots_entry (to_list (values entry)) t else ok t)
    >>= λ next. slots_entries entries next

unfoldable pub parse_slots : Value → Go (Result Bytes Topology)
unfolding slots_entries
parse_slots v =
    if not (type_of v == Prefix.array) || is_null v
    then ok (err (codes "cluster slots: not an array"))
    else (slots_entries (to_list (values v)) new_empty_topology >>= λ t. ok (ok t))

-- `strings.Contains(s, ":")`
abbrev pub has_colon : Bytes → Bool
has_colon s = elim (index_byte s b':') [ none ↦ false | some i ↦ true ]

shard_port : Value → ℤ
unfolding parse_int64
shard_port v =
    if type_of v == Prefix.bulk_string
    then parsed_or (int v) (parse_int64 (content (str v)))
    else int v

-- A port is added to a host that has none.
with_port : ℤ → Node → Node
unfolding address
with_port port n =
    if not (equal n.addr []) && not (has_colon n.addr)
    then record n { addr = address n.addr port }
    else n

-- One field of a node; the address is the host until the port is known.
shard_field : Bytes → Value → Node → Node
unfolding shard_port with_port
shard_field k v n =
    let s = content (str v) in
    if equal k (codes "id")
    then record n { id = s }
    else if equal k (codes "endpoint") || equal k (codes "ip")
    then if (equal n.addr [] || equal k (codes "endpoint")) && not (equal s [])
      then record n { addr = s }
      else n
    else if equal k (codes "port")
    then with_port (shard_port v) n
    else if equal k (codes "role")
    then record n { role = to_lower s; master = equal (to_lower s) (codes "master") }
    else if equal k (codes "health")
    then record n { health = parse_health s }
    else n

unfoldable pub shard_fields : List Value → Node → Node
unfolding shard_field
shard_fields (k ∷ v ∷ rest) n = shard_fields rest (shard_field (to_lower (content (str k))) v n)
shard_fields _ n = n

abbrev pub blank : Node
blank = record { id = []; addr = []; role = []; health = online; master = false }

unfoldable pub parse_shard_node : Value → Option Node
unfolding shard_fields
parse_shard_node v =
    let n = shard_fields (to_list (values v)) blank in
    if not (type_of v == Prefix.array)
    then none
    else if equal n.addr [] || not (has_colon n.addr)
    then none
    else some n

abbrev Range : Type 0
Range = ℤ × ℤ

ranges_of : List Value → List Range
ranges_of (a ∷ b ∷ rest) = (int a, int b) ∷ ranges_of rest
ranges_of _ = []

nodes_of : List Value → List Node
unfolding parse_shard_node
nodes_of [] = []
nodes_of (v ∷ vs) = elim (parse_shard_node v) [ none ↦ nodes_of vs | some n ↦ n ∷ nodes_of vs ]

-- The ranges and the nodes of a shard, in the order of its fields.
shard_parts : List Value → List Range → List Node → List Range × List Node
unfolding ranges_of nodes_of
shard_parts (k ∷ v ∷ rest) ranges nodes =
    let key = to_lower (content (str k)) in
    let items = to_list (values v) in
    let slots = shard_parts rest (ranges ++ ranges_of items) nodes in
    let members = shard_parts rest ranges (nodes ++ nodes_of items) in
    let other = shard_parts rest ranges nodes in
    if equal key (codes "slots")
    then slots
    else if equal key (codes "nodes")
    then members
    else other
shard_parts _ ranges nodes = (ranges, nodes)

abbrev is_hidden : Health → Bool
is_hidden hidden = true
is_hidden _ = false

-- The last master among the nodes that are not hidden.
upsert_nodes : List Node → Topology → Option ℕ → Topology × Option ℕ
upsert_nodes [] t found = (t, found)
upsert_nodes (n ∷ nodes) t found =
    let skipped = upsert_nodes nodes t found in
    let (next, idx) = upsert_node t n in
    let added = upsert_nodes nodes next (if n.master then some idx else found) in
    if is_hidden n.health then skipped else added

assign_all : List Range → ℕ → Topology → Go Topology
unfolding assign
assign_all [] idx t = ok t
assign_all (r ∷ ranges) idx t = assign r.0 r.1 idx t >>= λ next. assign_all ranges idx next

-- Without a master the ranges are dropped.
assign_found : List Range → Topology × Option ℕ → Go Topology
unfolding assign_all
assign_found ranges (t, none) = ok t
assign_found ranges (t, some idx) = assign_all ranges idx t

add_shard : List Range × List Node → Topology → Go Topology
unfolding upsert_nodes assign_found
add_shard (ranges, nodes) t = assign_found ranges (upsert_nodes nodes t none)

shards : List Value → Topology → Go Topology
unfolding add_shard shard_parts
shards [] t = ok t
shards (shard ∷ rest) t =
    (if type_of shard == Prefix.array
      then add_shard (shard_parts (to_list (values shard)) [] []) t
      else ok t)
    >>= λ next. shards rest next

unfoldable pub parse_shards : Value → Go (Result Bytes Topology)
unfolding shards
parse_shards v =
    if not (type_of v == Prefix.array) || is_null v
    then ok (err (codes "cluster shards: not an array"))
    else (shards (to_list (values v)) new_empty_topology >>= λ t. ok (ok t))
