-- ===== src/Examples/OnTopologies.antt =====
-- internal/cluster/topology.go at concrete inputs.
use dragon_cluster_resp_prox.Base.{◌≡◌, arith, pos, [], ◌∷◌, Bytes, buf, codes, none, ok, Holds}
use dragon_cluster_resp_prox.Resp.Value.{Value, array, bulk_string, integer}
use dragon_cluster_resp_prox.Cluster.Topology.{Map, update_slot, new_empty_topology}
use dragon_cluster_resp_prox.Cluster.Topology.Owners.{Moved, update_slot-Moved}
use dragon_cluster_resp_prox.Cluster.Topology.Parse.{parse_slots, parse_shards}
use dragon_cluster_resp_prox.Cluster.Topology.Parse.InBounds.{
  Sound, parse_slots_and_shards-WellFormed,
}

abbrev word : Bytes → Value
word s = bulk_string (buf s)

abbrev no_map : Map
no_map = record { ptr = none; gen = 0 }

update_slot-Moved_example :
    (after : Map) × (update_slot 7 (codes "127.0.0.1:7001") [] no_map ≡ ok after)
    × Moved 7 (codes "127.0.0.1:7001") no_map after
unfolding new_empty_topology
update_slot-Moved_example =
    update_slot-Moved 7 (codes "127.0.0.1:7001") no_map tt (omega arith) (omega arith)

abbrev one_entry : Value
one_entry = array (
    array (
      integer (pos 0)
      ∷ integer (pos 5)
      ∷ array (word (codes "127.0.0.1") ∷ integer (pos 7000) ∷ word (codes "id") ∷ [])
      ∷ [])
    ∷ [])

parse_slots_and_shards-WellFormed_example :
    Holds Sound (parse_slots one_entry) × Holds Sound (parse_shards one_entry)
parse_slots_and_shards-WellFormed_example = parse_slots_and_shards-WellFormed one_entry
