-- ===== src/Cluster/Routing.antt =====
-- internal/cluster/router.go: the slots of a command's keys, and the current generation.
use dragon_cluster_resp_prox.Base.{
  ℕ, Bool, true, false, not, [], ◌∷◌, ◌==◌, if◌then◌else◌, Slice, content, Argv, Option, none, some,
}
use dragon_cluster_resp_prox.Cluster.Slot.{key_slot}
use dragon_cluster_resp_prox.Cluster.Topology.{Map}

-- The delimiters of hash tags that the router is configured with.
pub record Delimiters : Type 0 where
  pub open_byte : ℕ
  pub close_byte : ℕ

abbrev pub slot_of : Delimiters → Slice → ℕ
slot_of d key = key_slot (content key) d.open_byte d.close_byte

unfoldable pub differs : Delimiters → ℕ → Argv → Bool
differs d s [] = false
differs d s (k ∷ keys) =
    let rest = differs d s keys in if not (slot_of d k == s) then true else rest

unfoldable pub cross_slot : Delimiters → Argv → Bool
unfolding differs
cross_slot d [] = false
cross_slot d (k ∷ keys) = differs d (slot_of d k) keys

unfoldable pub unique_slot : Delimiters → Argv → Option ℕ
unfolding differs
unique_slot d [] = none
unique_slot d (k ∷ keys) = if differs d (slot_of d k) keys then none else some (slot_of d k)

abbrev pub generation_of : Map → ℕ
generation_of m = elim m.ptr [ none ↦ 0 | some t ↦ t.generation ]
