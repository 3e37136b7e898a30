-- ===== src/Cluster/Router/Refresh/Keeps.antt =====
-- internal/cluster/router.go: what a refresh does to the topology, whatever the nodes answer.
use dragon_cluster_resp_prox.Base.{
  ◌+◌, ◌%◌, ◌^◌, ◌≡◌, refl, subst, arith, ap, mem_name, Bool, true, false, not, ◌&&◌, List, [], ◌∷◌,
  Bytes, some, Result, Go, ok, err, panic, ◌>>=◌, Holds, Holds-bind, Holds-any, if_both, ◌||◌,
  equal, codes, if◌then◌else◌, content,
}
use dragon_cluster_resp_prox.Resp.Value.{Value, is_error, str}
use dragon_cluster_resp_prox.Cluster.Topology.{Node, Topology, Map, store}
use dragon_cluster_resp_prox.Cluster.Topology.Parse.{parse_slots, parse_shards}
use dragon_cluster_resp_prox.Cluster.Topology.Parse.InBounds.{
  Sound, parse_slots_and_shards-WellFormed,
}
use dragon_cluster_resp_prox.Cluster.Topology.Invariant.{WellFormed}
use dragon_cluster_resp_prox.Cluster.Router.Pools.{mem_name-sync_pools}
use dragon_cluster_resp_prox.Config.{Config}
use dragon_cluster_resp_prox.Cluster.Router.{
  Net, Request, Router, pool_for, new_pool, rewrite, is_undetected, candidate_addrs,
}
use dragon_cluster_resp_prox.Cluster.Router.Refresh.{
  live, open_nodes, sync_pools, detected, detect_on, topology_of, fetch_by, refresh_on, or_else,
  fetch_slots, fetch, two_words, adopt, refresh_from, refresh_any, refresh,
}

-- A refresh that fails leaves the topology. One that succeeds gives one that is well-formed, with the
-- next generation on it and on the map's counter, and there is a pool at an address exactly when it
-- is the address of a node, mapped by the configuration.
abbrev pub Refreshed : Config → Map → Result Bytes (Unit {0}) → Router → Type 0
Refreshed cfg before (err e) after = after.slots ≡ before
Refreshed cfg before (ok u) after =
    let next = (before.gen + 1) % 2 ^ 64 in
    (t : Topology) × (after.slots.ptr ≡ some t)
    × WellFormed t
    × (t.generation ≡ next)
    × (after.slots.gen ≡ next)
    × ((a : Bytes) → mem_name a after.pools ≡ mem_name a (live cfg t.nodes))

abbrev IsRefreshed : {W : Type 0} → Config → Map → Result Bytes (Unit {0}) × Router × W → Type 0
IsRefreshed cfg m out = Refreshed cfg m out.0 out.1

abbrev IsSound : {W : Type 0} → Result Bytes Topology × W → Type 0
IsSound p = Sound p.0

Holds-paired :
    {W : Type 0} (m : Go (Result Bytes Topology)) (w : W)
    → Holds Sound m
    → Holds IsSound (m >>= λ t. ok (t, w))
Holds-paired (ok t) w h = h
Holds-paired (err panic) w h = tt

topology_of-Sound :
    (parse : Value → Go (Result Bytes Topology))
    → ((v : Value) → Holds Sound (parse v))
    → (answer : Result Bytes Value) → Holds Sound (topology_of parse answer)
unfolding topology_of
topology_of-Sound parse h (err e) = tt
topology_of-Sound parse h (ok v) =
    elim (is_error v) as (λ b. Holds Sound (if b then ok (err (content (str v))) else parse v)) [
      | true ↦ tt
      | false ↦ h v
    ]

module _ {C W : Type 0} (net : Net C W) (cfg : Config) where
  fetch_slots-Sound : (c : C) (w : W) → Holds IsSound (fetch_slots net cfg c w)
  unfolding fetch_slots
  fetch_slots-Sound c w =
      Holds-bind (λ _. Unit {0}) IsSound
        (net.send c (two_words (codes "CLUSTER") (codes "SLOTS")) cfg.read_timeout w)
        (λ out. topology_of parse_slots out.0 >>= λ t. ok (t, out.1))
        (Holds-any (net.send c (two_words (codes "CLUSTER") (codes "SLOTS")) cfg.read_timeout w))
        (λ out _.
          Holds-paired (topology_of parse_slots out.0) out.1
            (topology_of-Sound parse_slots (λ v. (parse_slots_and_shards-WellFormed v).0) out.0))

  fetch_by-Sound :
      (c : C) (answer : Result Bytes Value) (w : W) → Holds IsSound (fetch_by net cfg c answer w)
  unfolding fetch_by
  fetch_by-Sound c (err e) w = fetch_slots-Sound c w
  fetch_by-Sound c (ok v) w =
      elim (is_error v)
        as (λ b.
          Holds (IsSound {W = W}) (elim b [
            | true ↦ fetch_slots net cfg c w
            | false ↦ parse_shards v >>= λ t. ok (t, w)
          ])) [
            | true ↦ fetch_slots-Sound c w
            | false ↦ Holds-paired (parse_shards v) w (parse_slots_and_shards-WellFormed v).1
          ]

  fetch-Sound : (c : C) (w : W) → Holds IsSound (fetch net cfg c w)
  unfolding fetch
  fetch-Sound c w =
      Holds-bind (λ _. Unit {0}) IsSound
        (net.send c (two_words (codes "CLUSTER") (codes "SHARDS")) cfg.read_timeout w)
        (λ out. fetch_by net cfg c out.0 out.1)
        (Holds-any (net.send c (two_words (codes "CLUSTER") (codes "SHARDS")) cfg.read_timeout w))
        (λ out _. fetch_by-Sound c out.0 out.1)

  open_nodes_slots :
      (nodes : List Node) (r : Router) (w : W) → (open_nodes net cfg nodes r w).0.slots ≡ r.slots
  unfolding open_nodes
  open_nodes_slots [] r w = refl
  open_nodes_slots (n ∷ nodes) r w = ground (
    arith,
    open_nodes_slots nodes r w,
    open_nodes_slots nodes (record r { pools = rewrite cfg n.addr ∷ r.pools })
        (new_pool net cfg (rewrite cfg n.addr) (not n.master && cfg.read_from_replicas) r w),
  )

  detected_slots :
      (r : Router) (info : Result Bytes Value) → (detected net cfg r info).slots ≡ r.slots
  unfolding detected
  detected_slots r (err e) = refl
  detected_slots r (ok v) = ground arith

  detect_on_slots :
      (c : C) (r : Router) (w : W) → Holds (λ out. out.0.slots ≡ r.slots) (detect_on net cfg c r w)
  unfolding detect_on
  detect_on_slots c r w =
      let P : Router × W → Type 0 = λ out. out.0.slots ≡ r.slots in
      let q : Request = two_words (codes "INFO") (codes "server") in
      if_both (Holds P) (is_undetected r.flavor || equal cfg.backend_flavor (codes "auto"))
        (Holds-bind (λ _. Unit {0}) P (net.send c q cfg.read_timeout w)
          (λ out. ok (detected net cfg r out.0, out.1))
          (Holds-any (net.send c q cfg.read_timeout w)) (λ out _. detected_slots r out.0))
        refl

  pub pool_for_slots :
      (addr : Bytes) (b : Bool) (r : Router) (w : W)
      → (pool_for net cfg addr b r w).1.slots ≡ r.slots
  unfolding pool_for
  pool_for_slots addr b r w = ground arith

  adopt-IsRefreshed :
      (found : Result Bytes Topology) (r : Router) (w : W)
      → Sound found
      → IsRefreshed cfg r.slots (adopt net cfg found r w)
  unfolding adopt sync_pools store
  adopt-IsRefreshed (err e) r w h = refl
  adopt-IsRefreshed (ok t) r w h =
      let topo : Topology = record t { flavor = r.flavor } in
      let m : Map = store (some topo) r.slots in
      let same = open_nodes_slots t.nodes (record r { slots = m }) w in
      (
        record topo { generation = m.gen },
        ap (λ x. x.ptr) same,
        record { all_slots = h.all_slots; entries = h.entries; leaders = h.leaders },
        refl,
        ap (λ x. x.gen) same,
        λ a. mem_name-sync_pools net cfg a topo (record r { slots = m }) w,
      )

  refresh_on-IsRefreshed :
      (a : Bytes) (got : Result Bytes C) (r : Router) (w : W)
      → Holds (IsRefreshed cfg r.slots) (refresh_on net cfg a got r w)
  unfolding refresh_on
  refresh_on-IsRefreshed a (err e) r w = refl
  refresh_on-IsRefreshed a (ok c) r w =
      Holds-bind (λ known. known.0.slots ≡ r.slots) (IsRefreshed cfg r.slots)
        (detect_on net cfg c r w)
        (λ known. fetch net cfg c known.1 >>= λ found.
          let (result, adopted, last) = adopt net cfg found.0 known.0 found.1 in
          ok (result, adopted, net.put_back a c last))
        (detect_on_slots c r w)
        (λ known same.
          Holds-bind (IsSound {W = W}) (IsRefreshed cfg r.slots) (fetch net cfg c known.1)
            (λ found.
              let (result, adopted, last) = adopt net cfg found.0 known.0 found.1 in
              ok (result, adopted, net.put_back a c last))
            (fetch-Sound c known.1)
            (λ found h.
              subst (λ m. IsRefreshed cfg m (adopt net cfg found.0 known.0 found.1)) same
                (adopt-IsRefreshed found.0 known.0 found.1 h)))

  refresh_from-IsRefreshed :
      (addr : Bytes) (r : Router) (w : W)
      → Holds (IsRefreshed cfg r.slots) (refresh_from net cfg addr r w)
  unfolding refresh_from
  refresh_from-IsRefreshed addr r w =
      let p : Bytes × Router × W = pool_for net cfg addr false r w in
      let got : Result Bytes C × W = net.get p.0 p.2 in
      subst (λ m. Holds (IsRefreshed cfg m) (refresh_on net cfg p.0 got.0 p.1 got.1))
        (pool_for_slots addr false r w) (refresh_on-IsRefreshed p.0 got.0 p.1 got.1)

  or_else-IsRefreshed :
      (m : Map) (next : Bytes → Router → W → Go (Result Bytes (Unit {0}) × Router × W))
      → ((e : Bytes) (r : Router) (w : W) → Holds (IsRefreshed cfg r.slots) (next e r w))
      → (out : Result Bytes (Unit {0}) × Router × W) → IsRefreshed cfg m out
      → Holds (IsRefreshed cfg m) (or_else net cfg next out)
  or_else-IsRefreshed m next k (ok u, r, w) h = h
  or_else-IsRefreshed m next k (err e, r, w) h =
      subst (λ n. Holds (IsRefreshed cfg n) (next e r w)) h (k e r w)

  refresh_any-IsRefreshed :
      (addrs : List Bytes) (last : Bytes) (r : Router) (w : W)
      → Holds (IsRefreshed cfg r.slots) (refresh_any net cfg addrs last r w)
  unfolding refresh_any
  refresh_any-IsRefreshed [] last r w = refl
  refresh_any-IsRefreshed (addr ∷ addrs) last r w =
      Holds-bind (IsRefreshed cfg r.slots) (IsRefreshed cfg r.slots) (refresh_from net cfg addr r w)
        (or_else net cfg (refresh_any net cfg addrs)) (refresh_from-IsRefreshed addr r w)
        (or_else-IsRefreshed r.slots (refresh_any net cfg addrs) (refresh_any-IsRefreshed addrs))

  -- Whatever the nodes answer, if neither the reader nor a parser panics: a refresh that fails leaves the
  -- topology as it was, and one that succeeds gives a well-formed topology of the next generation, with a pool at an address
  -- exactly when it is the address of a node, mapped by the configuration.
  pub refresh-Refreshed :
      (r : Router) (w : W) → Holds (λ out. Refreshed cfg r.slots out.0 out.1) (refresh net cfg r w)
  unfolding refresh
  refresh-Refreshed r w =
      refresh_any-IsRefreshed (candidate_addrs cfg r) (codes "no cluster seeds") r w
