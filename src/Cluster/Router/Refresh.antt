-- ===== src/Cluster/Router/Refresh.antt =====
-- internal/cluster/router.go: the topology is fetched from a node, and the pools follow it.
pub mod Keeps
use dragon_cluster_resp_prox.Base.{
  ℕ, ℤ, pos, Bool, true, false, not, ◌&&◌, ◌||◌, List, [], ◌∷◌, if◌then◌else◌, Bytes, codes, equal,
  mem_name, content, buf, Argv, Option, none, some, Result, Go, ok, err, ◌>>=◌,
}
use dragon_cluster_resp_prox.Resp.Value.{Value, is_error, str}
use dragon_cluster_resp_prox.Cluster.Topology.{
  Flavor, Node, Topology, Map, to_lower, detect_flavor, store,
}
use dragon_cluster_resp_prox.Cluster.Topology.Parse.{parse_slots, parse_shards}
use dragon_cluster_resp_prox.Config.{Config}
use dragon_cluster_resp_prox.Cluster.Router.{
  Net, Request, argv, Router, rewrite, is_undetected, candidate_addrs, new_pool, pool_for,
  install_seeds,
}

abbrev two_words : Bytes → Bytes → Request
two_words a b = argv (buf a ∷ buf b ∷ [])

-- The addresses of the pools that a topology's nodes have.
abbrev pub live : Config → List Node → List Bytes
live cfg [] = []
live cfg (n ∷ nodes) = rewrite cfg n.addr ∷ live cfg nodes

-- The addresses that stay, and those that go.
unfoldable pub remaining : List Bytes → List Bytes → List Bytes
unfolding mem_name
remaining addrs [] = []
remaining addrs (a ∷ pools) =
    let rest = remaining addrs pools in if mem_name a addrs then a ∷ rest else rest

-- The error of a reply, or what the parser makes of it.
topology_of : (Value → Go (Result Bytes Topology)) → Result Bytes Value → Go (Result Bytes Topology)
topology_of parse (err e) = ok (err e)
topology_of parse (ok v) = if is_error v then ok (err (content (str v))) else parse v

module _ {C W : Type 0} (net : Net C W) (cfg : Config) where
  unfoldable pub open_nodes : List Node → Router → W → Router × W
  unfolding rewrite new_pool mem_name
  open_nodes [] r w = (r, w)
  open_nodes (n ∷ nodes) r w =
      let a = rewrite cfg n.addr in
      elim (mem_name a r.pools) [
        | true ↦ open_nodes nodes r w
        | false ↦
            open_nodes nodes (record r { pools = a ∷ r.pools })
              (new_pool net cfg a (not n.master && cfg.read_from_replicas) r w)
      ]

  close_dead : List Bytes → List Bytes → W → W
  unfolding mem_name
  close_dead addrs [] w = w
  close_dead addrs (a ∷ pools) w =
      close_dead addrs pools (if mem_name a addrs then w else net.close_pool a w)

  unfoldable pub sync_pools : Topology → Router → W → Router × W
  unfolding open_nodes close_dead remaining
  sync_pools t r w =
      let (next, opened) = open_nodes t.nodes r w in
      let addrs = live cfg t.nodes in
      (record next { pools = remaining addrs next.pools }, close_dead addrs next.pools opened)

  -- `c.Do` with the read timeout of the configuration.
  abbrev ask_node : C → Request → W → Go (Result Bytes Value × W)
  ask_node c q w = net.send c q cfg.read_timeout w

  -- The reply to INFO names the flavor.
  detected : Router → Result Bytes Value → Router
  unfolding detect_flavor
  detected r (err e) = r
  detected r (ok v) =
      if is_error v then r else record r { flavor = detect_flavor (content (str v)) }

  detect_on : C → Router → W → Go (Router × W)
  unfolding detected equal
  detect_on c r w =
      if is_undetected r.flavor || equal cfg.backend_flavor (codes "auto")
      then (ask_node c (two_words (codes "INFO") (codes "server")) w >>= λ out.
          ok (detected r out.0, out.1))
      else ok (r, w)

  fetch_slots : C → W → Go (Result Bytes Topology × W)
  unfolding topology_of parse_slots
  fetch_slots c w = ask_node c (two_words (codes "CLUSTER") (codes "SLOTS")) w >>= λ out.
      topology_of parse_slots out.0 >>= λ t. ok (t, out.1)

  -- CLUSTER SLOTS is asked for only if CLUSTER SHARDS is refused.
  fetch_by : C → Result Bytes Value → W → Go (Result Bytes Topology × W)
  unfolding fetch_slots parse_shards
  fetch_by c (err e) w = fetch_slots c w
  fetch_by c (ok v) w = elim (is_error v) [
    | true ↦ fetch_slots c w
    | false ↦ parse_shards v >>= λ t. ok (t, w)
  ]

  fetch : C → W → Go (Result Bytes Topology × W)
  unfolding fetch_by
  fetch c w =
      ask_node c (two_words (codes "CLUSTER") (codes "SHARDS")) w >>= λ out. fetch_by c out.0 out.1

  -- The topology that is found takes the place of the old one.
  unfoldable pub adopt : Result Bytes Topology → Router → W → Result Bytes (Unit {0}) × Router × W
  unfolding sync_pools store
  adopt (err e) r w = (err e, r, w)
  adopt (ok t) r w =
      let topo = record t { flavor = r.flavor } in
      let (synced, after) = sync_pools topo (record r { slots = store (some topo) r.slots }) w in
      (ok tt, synced, after)

  -- On the connection that the pool gives, which goes back to it at the end.
  refresh_on : Bytes → Result Bytes C → Router → W → Go (Result Bytes (Unit {0}) × Router × W)
  unfolding detect_on fetch adopt
  refresh_on a (err e) r w = ok (err e, r, w)
  refresh_on a (ok c) r w = detect_on c r w >>= λ known. fetch c known.1 >>= λ found.
      let (result, adopted, last) = adopt found.0 known.0 found.1 in
      ok (result, adopted, net.put_back a c last)

  unfoldable pub refresh_from : Bytes → Router → W → Go (Result Bytes (Unit {0}) × Router × W)
  unfolding pool_for refresh_on
  refresh_from addr r w =
      let (a, next, opened) = pool_for net cfg addr false r w in
      let (got, after) = net.get a opened in refresh_on a got next after

  -- After one address: the refresh is done, or the others are tried.
  abbrev pub or_else :
      (Bytes → Router → W → Go (Result Bytes (Unit {0}) × Router × W))
      → Result Bytes (Unit {0}) × Router × W
      → Go (Result Bytes (Unit {0}) × Router × W)
  or_else next (ok u, r, w) = ok (ok u, r, w)
  or_else next (err e, r, w) = next e r w

  unfoldable pub refresh_any :
      List Bytes → Bytes → Router → W → Go (Result Bytes (Unit {0}) × Router × W)
  unfolding refresh_from
  refresh_any [] last r w = ok (err last, r, w)
  refresh_any (addr ∷ addrs) last r w = refresh_from addr r w >>= or_else (refresh_any addrs)

  unfoldable pub refresh : Router → W → Go (Result Bytes (Unit {0}) × Router × W)
  unfolding refresh_any candidate_addrs
  refresh r w = refresh_any (candidate_addrs cfg r) (codes "no cluster seeds") r w

  -- A flavor that the configuration names, and a first refresh, or the seeds alone.
  abbrev configured : Bytes → Flavor
  configured name =
      let low = to_lower name in
      if equal low (codes "dragonfly")
      then Flavor.dragonfly
      else if equal low (codes "redis")
      then Flavor.redis
      else Flavor.undetected

  unfoldable pub new_router : W → Go (Router × W)
  unfolding refresh install_seeds equal to_lower
  new_router w =
      let blank : Router = record {
        slots = record { ptr = none; gen = 0 };
        flavor = configured cfg.backend_flavor;
        pools = [];
      } in
      refresh blank w >>= λ out. elim out.0 [
        | ok u ↦ ok (out.1, out.2)
        | err e ↦ ok (install_seeds cfg out.1, out.2)
      ]
