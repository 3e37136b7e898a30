-- ===== src/Config/Valid.antt =====
-- internal/config: what is known of a configuration that `Load` gives.
use dragon_cluster_resp_prox.Base.{
  ◌≡◌, ◌≢◌, ◌≤ℤ◌, arith, pos, true, [], ◌∷◌, codes, equal_iff, mem_name, none, ok,
}
use dragon_cluster_resp_prox.Cluster.Topology.{to_lower}
use dragon_cluster_resp_prox.Config.{Config, unix_socket_perm, validate}

-- What the program relies on in a configuration.
pub record IsValid (c : Config) : Type 0 where
  pub socket : c.unix_socket ≢ []
  pub seeds : c.cluster_seeds ≢ []
  pub flavor :
      mem_name (to_lower c.backend_flavor) (codes "auto" ∷ codes "dragonfly" ∷ codes "redis" ∷ [])
      ≡ true
  pub pool_max : pos 1 ≤ℤ c.pool_max_per_node
  pub pool_min : (pos 0 ≤ℤ c.pool_min_per_node) × (c.pool_min_per_node ≤ℤ c.pool_max_per_node)
  pub clients : pos 1 ≤ℤ c.max_client_conns
  pub hops : pos 1 ≤ℤ c.moved_hop_limit
  pub databases : pos 1 ≤ℤ c.max_databases
  pub pipeline : pos 1 ≤ℤ c.max_pipeline
  pub dial : pos 1 ≤ℤ c.dial_timeout
  pub read : pos 1 ≤ℤ c.read_timeout
  pub write : pos 1 ≤ℤ c.write_timeout
  pub perm : unix_socket_perm c ≢ none

pub validate-IsValid : (c : Config) → validate c ≡ ok tt → IsValid c
unfolding validate
validate-IsValid c h = ground (arith, equal_iff c.unix_socket [])
