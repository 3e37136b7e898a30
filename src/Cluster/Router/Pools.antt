-- ===== src/Cluster/Router/Pools.antt =====
-- internal/cluster/router.go: `syncPools` leaves a pool for each node and no other; the addresses
-- that a refresh tries.
use dragon_cluster_resp_prox.Base.{
  ◌≡◌, ◌≢◌, inl, inr, refl, ap, arith, true, false, not, ◌&&◌, ◌||◌, Bool-cases, List, [], ◌∷◌,
  ◌++◌, Bytes, none, some, equal, equal_iff, mem_name, if◌then◌else◌,
}
use dragon_cluster_resp_prox.Cluster.Topology.{Node, Topology}
use dragon_cluster_resp_prox.Config.{Config}
use dragon_cluster_resp_prox.Cluster.Router.{
  Net, Router, rewrite, new_pool, add_addr, add_addrs, add_masters, candidate_addrs,
}
use dragon_cluster_resp_prox.Cluster.Router.Refresh.{live, remaining, open_nodes, sync_pools}

mem_name-same : (a b : Bytes) (s : List Bytes) → equal a b ≡ true → mem_name a s ≡ mem_name b s
mem_name-same a b s h = ap (λ x. mem_name x s) ((equal_iff a b).0 h)

mem_name-remaining :
    (a : Bytes) (addrs pools : List Bytes)
    → mem_name a (remaining addrs pools) ≡ (mem_name a pools && mem_name a addrs)
unfolding remaining mem_name
mem_name-remaining a addrs [] = refl
mem_name-remaining a addrs (p ∷ pools) =
    ground (arith, mem_name-remaining a addrs pools, mem_name-same a p addrs)

mem_name-append :
    (a : Bytes) (s t : List Bytes) → mem_name a (s ++ t) ≡ (mem_name a s || mem_name a t)
unfolding mem_name
mem_name-append a [] t = refl
mem_name-append a (x ∷ s) t = ground (arith, mem_name-append a s t)

module _ {C W : Type 0} (net : Net C W) (cfg : Config) where
  mem_name-open_nodes :
      (a : Bytes) (nodes : List Node) (r : Router) (w : W)
      → mem_name a (open_nodes net cfg nodes r w).0.pools
        ≡ (mem_name a r.pools || mem_name a (live cfg nodes))
  unfolding open_nodes mem_name
  mem_name-open_nodes a [] r w = ground arith
  mem_name-open_nodes a (n ∷ nodes) r w =
      let p : Bytes = rewrite cfg n.addr in
      elim (Bool-cases (mem_name p r.pools)) [
        | inl e ↦ ground (arith, mem_name-open_nodes a nodes r w, mem_name-same a p r.pools)
        | inr e ↦ ground (
          arith,
          mem_name-open_nodes a nodes (record r { pools = p ∷ r.pools })
              (new_pool net cfg p (not n.master && cfg.read_from_replicas) r w),
        )
      ]

  -- `syncPools` leaves a pool at an address exactly when it is the address of a node, mapped by the
  -- configuration.
  pub mem_name-sync_pools :
      (a : Bytes) (t : Topology) (r : Router) (w : W)
      → mem_name a (sync_pools net cfg t r w).0.pools ≡ mem_name a (live cfg t.nodes)
  unfolding sync_pools
  mem_name-sync_pools a t r w = ground (
    arith,
    mem_name-remaining a (live cfg t.nodes) (open_nodes net cfg t.nodes r w).0.pools,
    mem_name-open_nodes a t.nodes r w,
  )

-- No address is empty, and none stands twice.
abbrev pub Distinct : List Bytes → Type 0
Distinct [] = Unit
Distinct (a ∷ addrs) = (a ≢ []) × (mem_name a addrs ≡ false) × Distinct addrs

Distinct-append :
    (addrs : List Bytes) (a : Bytes)
    → Distinct addrs
    → a ≢ []
    → mem_name a addrs ≡ false
    → Distinct (addrs ++ (a ∷ []))
unfolding mem_name
Distinct-append [] a d ne h = (ne, refl, tt)
Distinct-append (x ∷ addrs) a d ne h =
    let same = (equal_iff x a).0 in
    let self = (equal_iff a x).1 in
    let split = mem_name-append x addrs (a ∷ []) in
    (d.0, ground arith, Distinct-append addrs a d.2 ne (ground arith))

add_addr-Distinct : (a : Bytes) (out : List Bytes) → Distinct out → Distinct (add_addr a out)
unfolding add_addr
add_addr-Distinct a out d = elim (Bool-cases (equal a [] || mem_name a out)) [
  | inl e ↦ rw e d
  | inr e ↦ rw e (Distinct-append out a d (λ h. ground (arith, equal_iff a [])) (ground arith))
]

add_masters-Distinct :
    (nodes : List Node) (out : List Bytes) → Distinct out → Distinct (add_masters nodes out)
unfolding add_masters
add_masters-Distinct [] out d = d
add_masters-Distinct (n ∷ nodes) out d =
    add_masters-Distinct nodes (if n.master then add_addr n.addr out else out)
      (elim n.master as (λ b. Distinct (if b then add_addr n.addr out else out)) [
        | true ↦ add_addr-Distinct n.addr out d
        | false ↦ d
      ])

add_addrs-Distinct : (addrs out : List Bytes) → Distinct out → Distinct (add_addrs addrs out)
unfolding add_addrs
add_addrs-Distinct [] out d = d
add_addrs-Distinct (a ∷ addrs) out d =
    add_addrs-Distinct addrs (add_addr a out) (add_addr-Distinct a out d)

mem_name-add_addr :
    (a x : Bytes) (out : List Bytes)
    → equal a [] ≡ false
    → mem_name a (add_addr x out) ≡ (mem_name a out || equal a x)
unfolding add_addr mem_name
mem_name-add_addr a x out ne = ground (
  arith,
  mem_name-same a x out,
  mem_name-append a out (x ∷ []),
  equal_iff a x,
  equal_iff x [],
  equal_iff a [],
)

mem_name-add_addrs :
    (a : Bytes) (addrs out : List Bytes)
    → equal a [] ≡ false
    → mem_name a (add_addrs addrs out) ≡ (mem_name a out || mem_name a addrs)
unfolding add_addrs mem_name
mem_name-add_addrs a [] out ne = ground arith
mem_name-add_addrs a (x ∷ addrs) out ne =
    ground (arith, mem_name-add_addr a x out ne, mem_name-add_addrs a addrs (add_addr x out) ne)

-- The addresses that a refresh tries: none of them is empty, none is tried twice, and every seed that
-- is not empty is among them.
pub candidate_addrs-Distinct :
    (cfg : Config) (r : Router)
    → Distinct (candidate_addrs cfg r)
      × ((seed : Bytes)
          → seed ≢ []
          → mem_name seed cfg.cluster_seeds ≡ true
          → mem_name seed (candidate_addrs cfg r) ≡ true)
unfolding candidate_addrs
candidate_addrs-Distinct cfg r =
    let masters : List Bytes = elim r.slots.ptr [ none ↦ [] | some t ↦ add_masters t.nodes [] ] in
    (
      add_addrs-Distinct cfg.cluster_seeds masters
          (elim r.slots.ptr
            as (λ p. Distinct (elim p [ none ↦ [] | some t ↦ add_masters t.nodes [] ])) [
              | none ↦ tt
              | some t ↦ add_masters-Distinct t.nodes [] tt
            ]),
      λ seed ne h. ground (
        arith,
        mem_name-add_addrs seed cfg.cluster_seeds masters (ground (arith, equal_iff seed [])),
      ),
    )
