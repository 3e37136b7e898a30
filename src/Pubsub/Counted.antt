-- ===== src/Pubsub/Counted.antt =====
-- internal/pubsub/pubsub.go: the channels of a client and their counter.
use dragon_cluster_resp_prox.Base.{
  ◌+◌, ◌≡◌, ◌≤◌, inl, inr, refl, subst, arith, Bool, true, false, List, [], ◌∷◌, Bytes, equal,
  equal_iff, content, Slice, Argv, none, some, length, Result, ok, err, Bool-cases,
}
use dragon_cluster_resp_prox.Resp.Value.{Value}
use dragon_cluster_resp_prox.Command.Classify.{PubSubOp, classify_pub_sub}
use dragon_cluster_resp_prox.Cluster.Routing.{slot_of}
use dragon_cluster_resp_prox.Pubsub.{
  Hub, Subscriptions, Wording, find_value, without, add_sub, remove_sub, ensure_backend, subscribed,
  subscribe_on, subscribe_one, subscribe_each, subscribe, unsubscribe_each, unsubscribe,
  pattern_cmd, round_trip, client_cmd, handle_client_cmd, no_backend, or_all,
}

-- No channel stands twice.
abbrev pub Unique : List (Bytes × Bytes) → Type 0
Unique [] = Unit
Unique (p ∷ m) = (find_value m p.0 ≡ none) × Unique m

-- The count is not over the number of the channels.
abbrev pub Counted : {C : Type 0} → Subscriptions C → Type 0
Counted s = Unique s.subs × (s.count ≤ length s.subs)

find_value-without_self : (m : List (Bytes × Bytes)) (k : Bytes) → find_value (without m k) k ≡ none
unfolding find_value without
find_value-without_self [] k = refl
find_value-without_self (p ∷ m) k = ground (arith, find_value-without_self m k)

find_value-without :
    (m : List (Bytes × Bytes)) (k j : Bytes)
    → find_value m j ≡ none
    → find_value (without m k) j ≡ none
unfolding find_value without
find_value-without [] k j h = refl
find_value-without (p ∷ m) k j h = ground (arith, find_value-without m k j)

without-Unique : (m : List (Bytes × Bytes)) (k : Bytes) → Unique m → Unique (without m k)
unfolding without
without-Unique [] k u = tt
without-Unique (p ∷ m) k u = elim (Bool-cases (equal p.0 k)) [
  | inl e ↦ rw e (without-Unique m k u.1)
  | inr e ↦ rw e (find_value-without m k p.0 u.0, without-Unique m k u.1)
]

length-without_unknown :
    (m : List (Bytes × Bytes)) (k : Bytes) → find_value m k ≡ none → length (without m k) ≡ length m
unfolding find_value without
length-without_unknown [] k h = refl
length-without_unknown (p ∷ m) k h = ground (arith, length-without_unknown m k)

-- One channel at most goes.
length-without :
    (m : List (Bytes × Bytes)) (k : Bytes) → Unique m → length m ≤ length (without m k) + 1
unfolding without
length-without [] k u = omega arith
length-without (p ∷ m) k u =
    let same = (equal_iff p.0 k).0 in
    elim (Bool-cases (equal p.0 k)) [
      | inl e ↦
          let gone = length-without_unknown m k (subst (λ x. find_value m x ≡ none) (same e) u.0) in
          ground arith
      | inr e ↦ let rest = length-without m k u.1 in ground arith
    ]

add_sub-Counted :
    {C : Type 0} (channel : Slice) (addr : Bytes) (s : Subscriptions C)
    → Counted s
    → Counted (add_sub channel addr s)
unfolding add_sub
add_sub-Counted channel addr s (u, le) =
    let k : Bytes = content channel in
    let bound = length-without s.subs k u in
    let same = length-without_unknown s.subs k in
    ((find_value-without_self s.subs k, without-Unique s.subs k u), ground arith)

remove_sub-Counted :
    {C : Type 0} (channel : Slice) (s : Subscriptions C)
    → Counted s
    → Counted (remove_sub channel s)
unfolding remove_sub
remove_sub-Counted channel s (u, le) =
    let bound = length-without s.subs (content channel) u in
    (without-Unique s.subs (content channel) u, omega arith)

module _ {C W : Type 0} (h : Hub C W) where
  ensure_backend-Counted :
      (addr : Bytes) (s : Subscriptions C) (w : W)
      → Counted s
      → Counted (ensure_backend h addr s w).1
  unfolding ensure_backend
  ensure_backend-Counted addr s w c = ground arith

  subscribed-Counted :
      (t : Wording) (channel : Slice) (addr : Bytes) (ack : Result Bytes Value)
      (s : Subscriptions C) (w : W)
      → Counted s
      → Counted (subscribed h t channel addr ack s w).1
  unfolding subscribed
  subscribed-Counted t channel addr (err e) s w c = c
  subscribed-Counted t channel addr (ok ack) s w c = add_sub-Counted channel addr s c

  subscribe_on-Counted :
      (t : Wording) (channel : Slice) (addr : Bytes) (got : Result Bytes C) (s : Subscriptions C)
      (w : W)
      → Counted s
      → Counted (subscribe_on h t channel addr got s w).1
  unfolding subscribe_on
  subscribe_on-Counted t channel addr (err e) s w k = k
  subscribe_on-Counted t channel addr (ok c) s w k = subscribed-Counted t channel addr _ s _ k

  subscribe_one-Counted :
      (t : Wording) (channel : Slice) (s : Subscriptions C) (w : W)
      → Counted s
      → Counted (subscribe_one h t channel s w).1
  unfolding subscribe_one
  subscribe_one-Counted t channel s w k =
      elim (h.node_addr (slot_of h.delimiters channel) w)
        as (λ o.
          let out : Result Value Value × Subscriptions C × W = elim o [
            | none ↦ (err no_backend, s, w)
            | some addr ↦
                let (got, opened, after) = ensure_backend h addr s w in
                subscribe_on h t channel addr got opened after
          ] in
          Counted out.1) [
            | none ↦ k
            | some addr ↦
                subscribe_on-Counted t channel addr _ _ _ (ensure_backend-Counted addr s w k)
          ]

  subscribe_each-Counted :
      (t : Wording) (channels : Argv) (s : Subscriptions C) (w : W)
      → Counted s
      → Counted (subscribe_each h t channels s w).1
  unfolding subscribe_each
  subscribe_each-Counted t [] s w k = k
  subscribe_each-Counted t (channel ∷ channels) s w k =
      let next : Subscriptions C = (subscribe_one h t channel s w).1 in
      let after : W = (subscribe_one h t channel s w).2 in
      let first = subscribe_one-Counted t channel s w k in
      ground (arith, subscribe_each-Counted t channels next after first, first)

  subscribe-Counted :
      (channels : Argv) (b : Bool) (s : Subscriptions C) (w : W)
      → Counted s
      → Counted (subscribe h channels b s w).1
  unfolding subscribe
  subscribe-Counted [] b s w k = k
  subscribe-Counted (channel ∷ channels) b s w k =
      subscribe_each-Counted _ (channel ∷ channels) s w k

  unsubscribe_each-Counted :
      (t : Wording) (channels : Argv) (s : Subscriptions C) (w : W)
      → Counted s
      → Counted (unsubscribe_each h t channels s w).1
  unfolding unsubscribe_each
  unsubscribe_each-Counted t [] s w k = k
  unsubscribe_each-Counted t (channel ∷ channels) s w k =
      unsubscribe_each-Counted t channels (remove_sub channel s) _ (remove_sub-Counted channel s k)

  pattern_cmd-Counted :
      (argv : Argv) (s : Subscriptions C) (w : W) → Counted s → Counted (pattern_cmd h argv s w).1
  unfolding pattern_cmd round_trip ensure_backend
  pattern_cmd-Counted argv s w k = ground arith

  client_cmd-Counted :
      (op : PubSubOp) (argv channels : Argv) (s : Subscriptions C) (w : W)
      → Counted s
      → Counted (client_cmd h op argv channels s w).1
  unfolding unsubscribe
  client_cmd-Counted PubSubOp.psubscribe argv channels s w k = pattern_cmd-Counted argv s w k
  client_cmd-Counted PubSubOp.punsubscribe argv channels s w k = pattern_cmd-Counted argv s w k
  client_cmd-Counted PubSubOp.subscribe argv channels s w k = subscribe-Counted channels true s w k
  client_cmd-Counted PubSubOp.ssubscribe argv channels s w k =
      subscribe-Counted channels false s w k
  client_cmd-Counted PubSubOp.unsubscribe argv channels s w k =
      unsubscribe_each-Counted _ (or_all channels s) s w k
  client_cmd-Counted PubSubOp.sunsubscribe argv channels s w k =
      unsubscribe_each-Counted _ (or_all channels s) s w k
  client_cmd-Counted PubSubOp.no_op argv channels s w k = k
  client_cmd-Counted PubSubOp.publish argv channels s w k = k
  client_cmd-Counted PubSubOp.spublish argv channels s w k = k
  client_cmd-Counted PubSubOp.pubsub argv channels s w k = k

  -- Whatever a subscribed client sends, and whatever the nodes answer: no channel stands twice, and the
  -- session's counter of channels is not over the number of its channels.
  pub handle_client_cmd-Counted :
      (argv : Argv) (s : Subscriptions C) (w : W)
      → Counted s
      → Counted (handle_client_cmd h argv s w).1
  unfolding handle_client_cmd
  handle_client_cmd-Counted [] s w k = k
  handle_client_cmd-Counted (name ∷ channels) s w k =
      client_cmd-Counted (classify_pub_sub (content name)) (name ∷ channels) channels s w k
