-- ===== src/Proxy/Wiring/Blocking.antt =====
-- internal/proxy/session.go: a command that waits at a node, over the router of internal/cluster.
use dragon_cluster_resp_prox.Base.{
  ℕ, ◌+◌, ◌-◌, ◌≡◌, ◌<◌, refl, sym, ap, subst, ◌∙◌, arith, inl, inr, ℤ, pos_part, false, [], Bytes,
  content, Argv, Option, none, some, Option-cases, Result, ok, err, ◌>>=◌, Returns, Returns-bind,
}
use dragon_cluster_resp_prox.Resp.Value.{Value, str}
use dragon_cluster_resp_prox.Cluster.Crc16.{slot_count}
use dragon_cluster_resp_prox.Cluster.Slot.{Redirect, parse_redirect}
use dragon_cluster_resp_prox.Cluster.Slot.Redirects.{parse_redirect-Parsed}
use dragon_cluster_resp_prox.Cluster.Topology.{update_slot}
use dragon_cluster_resp_prox.Cluster.Topology.Owners.{Current, update_slot-Current}
use dragon_cluster_resp_prox.Config.{Config}
use dragon_cluster_resp_prox.Cluster.Router.{
  Net, argv, Router, pool_for, node_or_master, no_nodes, checkout_addr, checkout,
}
use dragon_cluster_resp_prox.Cluster.Router.Exec.{exec, exec_frame}
use dragon_cluster_resp_prox.Cluster.Router.Exec.Ledger.{Ledger, taken, pool_for_same}
use dragon_cluster_resp_prox.Cluster.Router.Exec.Settles.{Settled, exec_frame-Settled}
use dragon_cluster_resp_prox.Cluster.Router.Refresh.Keeps.{pool_for_slots}
use dragon_cluster_resp_prox.Proxy.Dispatch.{
  moved_redirect, blocked, waited, blocking_on, do_blocking,
}
use dragon_cluster_resp_prox.Proxy.Wiring.{Wire, joined, service_of}

-- The redirect's slot is in range.
moved_redirect-lt :
    (v : Value) {red : Redirect} → moved_redirect v ≡ some red → red.slot < slot_count
unfolding moved_redirect
moved_redirect-lt v {red} h = elim (Option-cases (parse_redirect (content (str v)))) [
  | inl e ↦ absurd (ground arith)
  | inr (found, e) ↦
      let lt = (parse_redirect-Parsed (content (str v)) {r = found} e).in_range in
      let same : found ≡ red = ground arith in subst (λ r. r.slot < slot_count) same lt
]

module _ {C W : Type 0} (net : Net C W) (l : Ledger net) (wire : Wire C W) (cfg : Config)
    (version : Bytes) where
  -- `n` connections are held, and the topology is well-formed.
  abbrev pub Holding : {A : Type 0} → ℕ → A × (Router × W) → Type 0
  Holding n out = (l.held out.1.1 ≡ n) × Current out.1.0.slots.ptr

  -- With the connection that was given taken.
  abbrev Taken : ℕ → Result Bytes (Bytes × C) × Router × W → Type 0
  Taken n out = (l.held out.2 ≡ n + taken out.0) × Current out.1.slots.ptr

  checkout_addr-Taken :
      (addr : Bytes) (r : Router) (w : W)
      → Current r.slots.ptr
      → Taken (l.held w) (checkout_addr net cfg addr r w)
  unfolding checkout_addr
  checkout_addr-Taken addr r w h =
      let a : Bytes = (pool_for net cfg addr false r w).0 in
      let opened : W = (pool_for net cfg addr false r w).2 in
      let (same_held, same_sent) = pool_for_same net l cfg addr false r w in
      let got = l.get_held a opened in
      let slots = pool_for_slots net cfg addr false r w in
      elim (net.get a opened).0
          as (λ g.
            l.held (net.get a opened).1 ≡ l.held opened + taken g
            → Taken (l.held w) (elim g [
              | err e ↦ (err e, (pool_for net cfg addr false r w).1, (net.get a opened).1)
              | ok c ↦ (ok (a, c), (pool_for net cfg addr false r w).1, (net.get a opened).1)
            ])) [
              | err e ↦ λ k. (omega arith, subst (λ m. Current m.ptr) (sym slots) h)
              | ok c ↦ λ k. (omega arith, subst (λ m. Current m.ptr) (sym slots) h)
            ]
        got

  checkout-Taken :
      (slot : ℕ) (r : Router) (w : W)
      → Current r.slots.ptr
      → Taken (l.held w) (checkout net cfg slot r w)
  unfolding checkout
  checkout-Taken slot r w h =
      elim (node_or_master cfg r slot false)
        as (λ o.
          Taken (l.held w)
            (elim o [ none ↦ (err no_nodes, r, w) | some n ↦ checkout_addr net cfg n.addr r w ])) [
              | none ↦ (omega arith, h)
              | some n ↦ checkout_addr-Taken n.addr r w h
            ]

  -- A request of a session over the router.
  exec-Holding :
      (slot : ℕ) (args : Argv) (t : ℤ) (n : ℕ) (s : Router × W)
      → Current s.0.slots.ptr × (l.held s.1 ≡ n)
      → Returns (Holding n) ((service_of net wire cfg version).exec slot args false t s)
  unfolding exec
  exec-Holding slot args t n s (h, e) =
      Returns-bind (Settled net l cfg (pos_part cfg.moved_hop_limit) s.1) (Holding n)
        (exec_frame net cfg slot (argv args) false t false s.0 s.1) (λ out. ok (joined out))
        (exec_frame-Settled net l cfg slot (argv args) false t false s.0 s.1 h)
        (λ out k. (joined out, refl, (k.0 ∙ e, k.4)))

  blocked-Holding :
      (args : Argv) (t : ℤ) (c : Bytes × C) (red : Option Redirect) (v : Value) (r : Router) (w : W)
      → Current r.slots.ptr
      → ((x : Redirect) → red ≡ some x → x.slot < slot_count)
      → Returns
          (Holding (l.held w - 1))
          (blocked (service_of net wire cfg version) args t c red v (r, w))
  unfolding blocked exec
  blocked-Holding args t c none v r w h lt =
      ((ok v, (r, net.put_back c.0 c.1 w)), refl, (l.put_held c.0 c.1 w, h))
  blocked-Holding args t c (some red) v r w h lt =
      let u : W = net.drop_back c.0 c.1 w in
      Returns-bind (λ s. Current s.0.slots.ptr × (l.held s.1 ≡ l.held w - 1))
        (Holding (l.held w - 1))
        ((service_of net wire cfg version).update_slot red.slot red.addr (r, u))
        (λ after. (service_of net wire cfg version).exec red.slot args false t after)
        (Returns-bind (λ m. Current m.ptr)
          (λ s. Current s.0.slots.ptr × (l.held s.1 ≡ l.held w - 1))
          (update_slot red.slot red.addr [] r.slots) (λ m. ok (record r { slots = m }, u))
          (update_slot-Current red.slot red.addr [] r.slots h (lt red refl))
          (λ m k. ((record r { slots = m }, u), refl, (k, l.drop_held c.0 c.1 w))))
        (λ s k. exec-Holding red.slot args t (l.held w - 1) s k)

  waited-Holding :
      (args : Argv) (t : ℤ) (c : Bytes × C) (r : Router) (n : ℕ) (out : Result Bytes Value × W)
      → Current r.slots.ptr
      → l.held out.1 ≡ n
      → Returns
          (Holding (n - 1))
          (waited (service_of net wire cfg version) args t c (out.0, (r, out.1)))
  unfolding waited
  waited-Holding args t c r n (err e, w) h same = (
    (err e, (r, net.drop_back c.0 c.1 w)),
    refl,
    (l.drop_held c.0 c.1 w ∙ ap (λ k. k - 1) same, h),
  )
  waited-Holding args t c r n (ok v, w) h same =
      subst
        (λ k.
          Returns (Holding (k - 1))
            (blocked (service_of net wire cfg version) args t c (moved_redirect v) v (r, w)))
        same (blocked-Holding args t c (moved_redirect v) v r w h (λ x e. moved_redirect-lt v e))

  blocking_on-Holding :
      (args : Argv) (t : ℤ) (got : Result Bytes (Bytes × C)) (r : Router) (w : W)
      → Current r.slots.ptr
      → Returns
          (Holding (l.held w - taken got))
          (blocking_on (service_of net wire cfg version) args t got (r, w))
  unfolding blocking_on
  blocking_on-Holding args t (err e) r w h = ((err e, (r, w)), refl, (omega arith, h))
  blocking_on-Holding args t (ok c) r w h =
      let (out, run, (held, sent)) = l.sends c.1 (argv args) t w in
      let (end, rest, done) = waited-Holding args t c r (l.held w) out h held in
      (
        end,
        ap
              (λ m.
                (m >>= λ x. ok (x.0, (r, x.1)))
                >>= waited (service_of net wire cfg version) args t c)
              run
            ∙ rest,
        done,
      )

  -- On a well-formed topology, and as long as no reply makes the reader panic, a command that waits at a
  -- node returns, whatever the node answers: the connection that it takes is given up, also where the slot has moved and the command is sent again,
  -- and the topology stays well-formed.
  pub do_blocking-Holding :
      (slot : ℕ) (args : Argv) (t : ℤ) (r : Router) (w : W)
      → Current r.slots.ptr
      → Returns
          (Holding (l.held w))
          (do_blocking (service_of net wire cfg version) slot args t (r, w))
  unfolding do_blocking
  do_blocking-Holding slot args t r w h =
      let out : Result Bytes (Bytes × C) × Router × W = checkout net cfg slot r w in
      let (held, current) = checkout-Taken slot r w h in
      subst
        (λ n.
          Returns (Holding n)
            (blocking_on (service_of net wire cfg version) args t out.0 (out.1, out.2)))
        (omega arith) (blocking_on-Holding args t out.0 out.1 out.2 current)
