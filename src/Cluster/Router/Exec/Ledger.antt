-- ===== src/Cluster/Router/Exec/Ledger.antt =====
-- internal/cluster/router.go: the connections and the requests of a call of `execFrame`, counted.
use dragon_cluster_resp_prox.Base.{
  ℕ, suc, ◌+◌, ◌-◌, ◌≡◌, ◌≢◌, ◌≤◌, ◌<◌, inl, inr, Option-cases, refl, sym, subst, arith, ℤ, Bool,
  true, false, not, ◌&&◌, Bytes, content, Option, none, some, Result, ok, err, Returns,
  Returns-bind, Returns-map,
}
use dragon_cluster_resp_prox.Resp.Value.{Value, is_error, str}
use dragon_cluster_resp_prox.Cluster.Crc16.{slot_count}
use dragon_cluster_resp_prox.Cluster.Slot.{parse_redirect}
use dragon_cluster_resp_prox.Cluster.Slot.Redirects.{parse_redirect-Parsed}
use dragon_cluster_resp_prox.Config.{Config}
use dragon_cluster_resp_prox.Cluster.Router.{
  Net, Request, Router, no_nodes, pool_for, new_pool, rewrite, is_redis, flavor_of,
}
use dragon_cluster_resp_prox.Cluster.Router.Exec.{
  Outcome, target, asking_request, outcome_of, given_up, request_on, after_asking, asked_on, hop_on,
  hop_to, hop_target, hop,
}

abbrev pub taken : {C : Type 0} → Result Bytes C → ℕ
taken (ok c) = 1
taken (err e) = 0

-- Counters over the state of a net: the connections that are held, and the requests that were sent. A
-- request returns: no reply makes the reader panic.
pub record Ledger {C W : Type 0} (net : Net C W) : Type 0 where
  pub held : W → ℕ
  pub sent : W → ℕ
  pub open_held : (a : Bytes) (b : Bool) (w : W) → held (net.open_pool a b w) ≡ held w
  pub open_sent : (a : Bytes) (b : Bool) (w : W) → sent (net.open_pool a b w) ≡ sent w
  pub get_held : (a : Bytes) (w : W) → held (net.get a w).1 ≡ held w + taken (net.get a w).0
  pub get_sent : (a : Bytes) (w : W) → sent (net.get a w).1 ≡ sent w
  pub put_held : (a : Bytes) (c : C) (w : W) → held (net.put_back a c w) ≡ held w - 1
  pub put_sent : (a : Bytes) (c : C) (w : W) → sent (net.put_back a c w) ≡ sent w
  pub drop_held : (a : Bytes) (c : C) (w : W) → held (net.drop_back a c w) ≡ held w - 1
  pub drop_sent : (a : Bytes) (c : C) (w : W) → sent (net.drop_back a c w) ≡ sent w
  pub sends :
      (c : C) (q : Request) (t : ℤ) (w : W)
      → Returns (λ out. (held out.1 ≡ held w) × (sent out.1 ≡ suc (sent w))) (net.send c q t w)

-- A reply that names another node.
abbrev pub IsRedirect : Value → Type 0
IsRedirect v = (is_error v ≡ true) × (parse_redirect (content (str v)) ≢ none)

-- The requests of one hop: the reply may be a redirect only after one of them at least.
abbrev pub Spent : Outcome → ℕ → ℕ → Type 0
Spent (Outcome.stop (err e)) before after = Unit
Spent (Outcome.stop (ok v)) before after = ¬ IsRedirect v
Spent (Outcome.follow red v) before after = (suc before ≤ after) × (red.slot < slot_count)

module _ {C W : Type 0} (net : Net C W) (l : Ledger net) (cfg : Config) where
  -- A connection is given up, and between one and `n` requests are sent.
  abbrev Used : ℕ → W → Outcome × W → Type 0
  Used n w p =
      (l.held p.1 ≡ l.held w - 1)
      × (l.sent w ≤ l.sent p.1)
      × (l.sent p.1 ≤ l.sent w + n)
      × Spent p.0 (l.sent w) (l.sent p.1)

  outcome_of-Spent :
      (v : Value) (before after : ℕ) → suc before ≤ after → Spent (outcome_of v) before after
  unfolding outcome_of
  outcome_of-Spent v before after h = elim (Option-cases (parse_redirect (content (str v)))) [
    | inl e ↦ ground (arith)
    | inr (red, e) ↦
        let p = parse_redirect-Parsed (content (str v)) {r = red} e in
        let q = p.in_range in ground (arith)
  ]

  given_up-Used :
      (a : Bytes) (c : C) (w : W) (out : Result Bytes Value × W)
      → (l.held out.1 ≡ l.held w) × (l.sent out.1 ≡ suc (l.sent w))
      → Used 1 w (given_up net cfg a c out)
  unfolding given_up
  given_up-Used a c w (err e, after) h =
      let held = l.drop_held a c after in
      let sent = l.drop_sent a c after in (omega arith, omega arith, omega arith, tt)
  given_up-Used a c w (ok v, after) h =
      let held = l.put_held a c after in
      let sent = l.put_sent a c after in
      (
        omega arith,
        omega arith,
        omega arith,
        outcome_of-Spent v (l.sent w) (l.sent (net.put_back a c after)) (omega arith),
      )

  request_on-Used :
      (a : Bytes) (c : C) (q : Request) (t : ℤ) (w : W)
      → Returns (Used 1 w) (request_on net cfg a c q t w)
  unfolding request_on
  request_on-Used a c q t w =
      Returns-bind (λ out. (l.held out.1 ≡ l.held w) × (l.sent out.1 ≡ suc (l.sent w))) (Used 1 w)
        (net.send c q t w) (λ out. ok (given_up net cfg a c out)) (l.sends c q t w)
        (λ out h. (given_up net cfg a c out, refl, given_up-Used a c w out h))

  Used-later :
      (w u : W) (out : Outcome × W)
      → (l.held u ≡ l.held w) × (l.sent u ≡ suc (l.sent w))
      → Used 1 u out
      → Used 2 w out
  Used-later w u (Outcome.stop (err e), x) h k =
      (omega (arith, k), omega (arith, k), omega (arith, k), tt)
  Used-later w u (Outcome.stop (ok v), x) h k =
      (omega (arith, k), omega (arith, k), omega (arith, k), k.3)
  Used-later w u (Outcome.follow red v, x) h k =
      (omega (arith, k), omega (arith, k), omega (arith, k), (omega (arith, k.3.0), k.3.1))

  after_asking-Used :
      (a : Bytes) (c : C) (q : Request) (t : ℤ) (w : W) (out : Result Bytes Value × W)
      → (l.held out.1 ≡ l.held w) × (l.sent out.1 ≡ suc (l.sent w))
      → Returns (Used 2 w) (after_asking net cfg a c q t out)
  unfolding after_asking
  after_asking-Used a c q t w (err e, after) h =
      let held = l.drop_held a c after in
      let sent = l.drop_sent a c after in
      (
        (Outcome.stop (err e), net.drop_back a c after),
        refl,
        (omega arith, omega arith, omega arith, tt),
      )
  after_asking-Used a c q t w (ok v, after) h =
      Returns-map (request_on net cfg a c q t after) (λ out. Used-later w after out h)
        (request_on-Used a c q t after)

  asked_on-Used :
      (a : Bytes) (c : C) (q : Request) (t : ℤ) (w : W)
      → Returns (Used 2 w) (asked_on net cfg a c q t w)
  unfolding asked_on
  asked_on-Used a c q t w =
      Returns-bind (λ out. (l.held out.1 ≡ l.held w) × (l.sent out.1 ≡ suc (l.sent w))) (Used 2 w)
        (net.send c asking_request cfg.read_timeout w) (after_asking net cfg a c q t)
        (l.sends c asking_request cfg.read_timeout w) (after_asking-Used a c q t w)

  -- What is held stays, at most `n` requests are sent, and the topology stays.
  abbrev pub Kept : ℕ → Router → W → Outcome × Router × W → Type 0
  Kept n r w p =
      (l.held p.2 ≡ l.held w)
      × (l.sent w ≤ l.sent p.2)
      × (l.sent p.2 ≤ l.sent w + n)
      × Spent p.0 (l.sent w) (l.sent p.2)
      × (p.1.slots ≡ r.slots)

  pub pool_for_same :
      (addr : Bytes) (b : Bool) (r : Router) (w : W)
      → (l.held (pool_for net cfg addr b r w).2 ≡ l.held w)
        × (l.sent (pool_for net cfg addr b r w).2 ≡ l.sent w)
  unfolding pool_for new_pool
  pool_for_same addr b r w =
      let a : Bytes = rewrite cfg addr in
      let replica : Bool = b && is_redis (flavor_of r) in
      ground (arith, l.open_held a replica w, l.open_sent a replica w)

  pool_for_topology :
      (addr : Bytes) (b : Bool) (r : Router) (w : W)
      → (pool_for net cfg addr b r w).1.slots ≡ r.slots
  unfolding pool_for
  pool_for_topology addr b r w = ground arith

  -- With the connection that the pool gave taken.
  abbrev Given : Result Bytes C → W → Outcome × W → Type 0
  Given got w out =
      (l.held out.1 ≡ l.held w - taken got)
      × (l.sent w ≤ l.sent out.1)
      × (l.sent out.1 ≤ l.sent w + 2)
      × Spent out.0 (l.sent w) (l.sent out.1)

  hop_on-Given :
      (a : Bytes) (got : Result Bytes C) (q : Request) (t : ℤ) (asking : Bool) (w : W)
      → Returns (Given got w) (hop_on net cfg a got q t asking w)
  unfolding hop_on
  hop_on-Given a (err e) q t asking w =
      ((Outcome.stop (err e), w), refl, (omega arith, omega arith, omega arith, tt))
  hop_on-Given a (ok c) q t true w = asked_on-Used a c q t w
  hop_on-Given a (ok c) q t false w =
      Returns-map (request_on net cfg a c q t w) (λ out k. (k.0, k.1, omega (arith, k), k.3))
        (request_on-Used a c q t w)

  Spent-same : (o : Outcome) (a b c : ℕ) → a ≡ b → Spent o b c → Spent o a c
  Spent-same o a b c e h = subst (λ n. Spent o n c) (sym e) h

  hop_to-Kept :
      (addr : Bytes) (q : Request) (t : ℤ) (asking read : Bool) (r : Router) (w : W)
      → Returns (Kept 2 r w) (hop_to net cfg addr q t asking read r w)
  unfolding hop_to
  hop_to-Kept addr q t asking read r w =
      let b : Bool = read && cfg.read_from_replicas in
      let a : Bytes = (pool_for net cfg addr b r w).0 in
      let next : Router = (pool_for net cfg addr b r w).1 in
      let opened : W = (pool_for net cfg addr b r w).2 in
      let (same_held, same_sent) = pool_for_same addr b r w in
      let e1 = l.get_held a opened in
      let e2 = l.get_sent a opened in
      Returns-bind (Given (net.get a opened).0 (net.get a opened).1) (Kept 2 r w)
        (hop_on net cfg a (net.get a opened).0 q t asking (net.get a opened).1)
        (λ out. ok (out.0, next, out.1))
        (hop_on-Given a (net.get a opened).0 q t asking (net.get a opened).1)
        (λ out k. (
          (out.0, next, out.1),
          refl,
          (
            omega (arith, k),
            omega (arith, k),
            omega (arith, k),
            Spent-same out.0 (l.sent w) (l.sent (net.get a opened).1) (l.sent out.1) (omega arith)
                k.3,
            pool_for_topology addr b r w,
          ),
        ))

  hop_target-Kept :
      (addr : Option Bytes) (q : Request) (t : ℤ) (asking read : Bool) (r : Router) (w : W)
      → Returns (Kept 2 r w) (hop_target net cfg addr q t asking read r w)
  unfolding hop_target
  hop_target-Kept none q t asking read r w =
      ((Outcome.stop (err no_nodes), r, w), refl, (refl, omega arith, omega arith, tt, refl))
  hop_target-Kept (some addr) q t asking read r w = hop_to-Kept addr q t asking read r w

  pub hop-Kept :
      (q : Request) (t : ℤ) (slot : ℕ) (hint : Bytes) (asking read : Bool) (r : Router) (w : W)
      → Returns (Kept 2 r w) (hop net cfg q t slot hint asking read r w)
  unfolding hop
  hop-Kept q t slot hint asking read r w =
      let addr : Option Bytes = target cfg r slot hint (read && not asking) in
      elim (net.cancelled w)
        as (λ x. Returns (Kept 2 r w) (elim x [
          | some e ↦ ok (Outcome.stop (err e), r, w)
          | none ↦ hop_target net cfg addr q t asking read r w
        ])) [
          | some e ↦
              ((Outcome.stop (err e), r, w), refl, (refl, omega arith, omega arith, tt, refl))
          | none ↦ hop_target-Kept addr q t asking read r w
        ]
