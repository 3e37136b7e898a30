-- ===== src/Cluster/Router/Exec/Settles.antt =====
-- internal/cluster/router.go: `execFrame` returns, gives every connection up, sends a bounded number of
-- requests and keeps the topology well-formed.
use dragon_cluster_resp_prox.Base.{
  ℕ, zero, suc, ◌+◌, ◌*◌, ◌≡◌, ◌≤◌, refl, sym, subst, arith, [], ℤ, pos, ltb_ℤ, if◌then◌else◌,
  pos_part, Bool, true, false, Bytes, equal, Result, Go, Returns, Returns-map, Returns-bind, ok,
  err, ◌>>=◌,
}
use dragon_cluster_resp_prox.Resp.Value.{Value, zero_value}
use dragon_cluster_resp_prox.Cluster.Slot.{Redirect, moved}
use dragon_cluster_resp_prox.Cluster.Topology.{update_slot}
use dragon_cluster_resp_prox.Cluster.Topology.Owners.{Current, update_slot-Current}
use dragon_cluster_resp_prox.Config.{Config}
use dragon_cluster_resp_prox.Cluster.Router.{Net, Request, Router}
use dragon_cluster_resp_prox.Cluster.Router.Exec.{Outcome, hop, after_hop, hops, exec_frame}
use dragon_cluster_resp_prox.Cluster.Router.Exec.Ledger.{Ledger, IsRedirect, Kept, hop-Kept}

module _ {C W : Type 0} (net : Net C W) (l : Ledger net) (cfg : Config) where
  -- A reply that is a redirect comes only after `n` requests at least.
  abbrev pub Exhausted : Result Bytes Value → ℕ → ℕ → ℕ → Type 0
  Exhausted (err e) n before after = Unit
  Exhausted (ok v) n before after = IsRedirect v → before + n ≤ after

  -- Every connection is given up, each of the `n` hops sends two requests at most, and the topology
  -- is well-formed.
  abbrev pub Settled : ℕ → W → Result Bytes Value × Router × W → Type 0
  Settled n w out =
      (l.held out.2 ≡ l.held w)
      × (l.sent w ≤ l.sent out.2)
      × (l.sent out.2 ≤ l.sent w + 2 * n)
      × Exhausted out.0 n (l.sent w) (l.sent out.2)
      × Current out.1.slots.ptr

  Settled-later :
      (n : ℕ) (w after : W) (red : Redirect) (v : Value) (r : Router)
      → Kept net l cfg 2 r w (Outcome.follow red v, r, after)
      → (out : Result Bytes Value × Router × W) → Settled n after out
      → Settled (suc n) w out
  Settled-later n w after red v r k (err e, r2, u) s =
      (omega (arith, k, s), omega (arith, k, s), omega (arith, k, s), tt, s.4)
  Settled-later n w after red v r k (ok x, r2, u) s = (
    omega (arith, k, s),
    omega (arith, k, s),
    omega (arith, k, s),
    λ h. (let later = s.3 h in omega (arith, k, s)),
    s.4,
  )

  after_hop-Settled :
      (n : ℕ) (w : W)
      (next : Redirect → Bool → Bool → Value → Router → W → Go (Result Bytes Value × Router × W))
      → ((red : Redirect) (asking read : Bool) (v : Value) (r : Router) (u : W)
          → Current r.slots.ptr
          → Returns (Settled n u) (next red asking read v r u))
      → (o : Outcome) (read : Bool) (r : Router) (after : W) → Kept net l cfg 2 r w (o, r, after)
      → Current r.slots.ptr
      → Returns (Settled (suc n) w) (after_hop net cfg next o read r after)
  unfolding after_hop
  after_hop-Settled n w next h (Outcome.stop (err e)) read r after k well =
      ((err e, r, after), refl, (k.0, k.1, omega (arith, k), tt, well))
  after_hop-Settled n w next h (Outcome.stop (ok v)) read r after k well =
      ((ok v, r, after), refl, (k.0, k.1, omega (arith, k), λ x. absurd (k.3 x), well))
  after_hop-Settled n w next h (Outcome.follow red v) read r after k well =
      let later = Settled-later n w after red v r k in
      elim (equal red.kind moved)
        as (λ b. Returns (Settled (suc n) w) (elim b [
          | true ↦ update_slot red.slot red.addr [] r.slots >>= λ m.
              next red false read v (record r { slots = m }) after
          | false ↦ next red true false v r after
        ])) [
          | true ↦
              Returns-bind (λ m. Current m.ptr) (Settled (suc n) w)
                (update_slot red.slot red.addr [] r.slots)
                (λ m. next red false read v (record r { slots = m }) after)
                (update_slot-Current red.slot red.addr [] r.slots well k.3.1)
                (λ m c.
                  Returns-map (next red false read v (record r { slots = m }) after) later
                    (h red false read v (record r { slots = m }) after c))
          | false ↦
              Returns-map (next red true false v r after) later (h red true false v r after well)
        ]

  hops-Settled :
      (n : ℕ) (q : Request) (t : ℤ) (slot : ℕ) (hint : Bytes) (asking read : Bool) (last : Value)
      (r : Router) (w : W)
      → Current r.slots.ptr
      → Returns (Settled n w) (hops net cfg n q t slot hint asking read last r w)
  unfolding hops
  hops-Settled zero q t slot hint asking read last r w well =
      ((ok last, r, w), refl, (refl, omega arith, omega arith, λ x. omega arith, well))
  hops-Settled (suc n) q t slot hint asking read last r w well =
      Returns-bind (Kept net l cfg 2 r w) (Settled (suc n) w)
        (hop net cfg q t slot hint asking read r w)
        (λ out.
          after_hop net cfg (λ red. hops net cfg n q t red.slot red.addr) out.0 read out.1 out.2)
        (hop-Kept net l cfg q t slot hint asking read r w)
        (λ out k.
          after_hop-Settled n w (λ red. hops net cfg n q t red.slot red.addr)
            (λ red asking read v r u c. hops-Settled n q t red.slot red.addr asking read v r u c)
            out.0 read out.1 out.2 (k.0, k.1, k.2, k.3, refl)
            (subst (λ m. Current m.ptr) (sym k.4) well))

  -- On a well-formed topology, and as long as no reply makes the reader panic, a request returns,
  -- whatever the nodes answer: every connection that is taken from a pool is given up, each hop of the limit sends two requests at most, a reply
  -- that is still a redirect comes only after as many requests as the limit has hops, and the
  -- topology stays well-formed.
  pub exec_frame-Settled :
      (slot : ℕ) (q : Request) (read : Bool) (read_to : ℤ) (asking : Bool) (r : Router) (w : W)
      → Current r.slots.ptr
      → Returns
          (Settled (pos_part cfg.moved_hop_limit) w)
          (exec_frame net cfg slot q read read_to asking r w)
  unfolding exec_frame
  exec_frame-Settled slot q read read_to asking r w well =
      hops-Settled (pos_part cfg.moved_hop_limit) q
        (if ltb_ℤ (pos 0) read_to then read_to else cfg.read_timeout) slot [] asking read zero_value
        r w well
