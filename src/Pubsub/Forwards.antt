-- ===== src/Pubsub/Forwards.antt =====
-- internal/pubsub/pubsub.go: what a client sees of the values of a node.
use dragon_cluster_resp_prox.Base.{
  ◌≡◌, ◌⊎◌, inl, inr, refl, sym, subst, arith, true, false, if◌then◌else◌, List, [], ◌∷◌, Bytes,
  codes, none, some, if_both, nil,
}
use dragon_cluster_resp_prox.Resp.Value.{
  Value, value, end, item, str, values, to_list, raw, type_of, int, is_null,
}
use dragon_cluster_resp_prox.Resp.Ascii.{equal_fold}
use dragon_cluster_resp_prox.Pubsub.{
  Subscriptions, Forward, to_acks, to_client, resubscribe, is_list, is_ack, is_unsub, one_of,
  kind_of_push, rename_first, rewrite_incoming, maybe_resub, forward_ack, forward,
}

-- The kinds that only a client of shards knows.
abbrev pub sharded_kinds : List Bytes
sharded_kinds = codes "smessage" ∷ codes "ssubscribe" ∷ codes "sunsubscribe" ∷ []

abbrev pub IsPlain : Value → Type 0
IsPlain v =
    is_list v ≡ true
    → one_of (elim (kind_of_push v) [ none ↦ [] | some k ↦ k ]) sharded_kinds ≡ false

rewrite_incoming-IsPlain : (v : Value) → IsPlain (rewrite_incoming v)
unfolding rewrite_incoming rename_first one_of equal_fold
rewrite_incoming-IsPlain (value t s n end r z) h = ground arith
rewrite_incoming-IsPlain (value t s n (item k rest) r z) h = ground arith

-- A value of a node as it came, or one without raw bytes, so that it is written from its fields.
abbrev pub IsWritten : Value → Value → Type 0
IsWritten came v = (v ≡ came) ⊎ (raw v ≡ nil)

rewrite_incoming-IsWritten : (v : Value) → IsWritten v (rewrite_incoming v)
unfolding rewrite_incoming
rewrite_incoming-IsWritten v =
    elim (is_list v)
      as (λ b. IsWritten v (
        if b
        then elim (rename_first (values v)) [
          | none ↦ v
          | some vs ↦ value (type_of v) (str v) (int v) vs nil (is_null v)
        ]
        else v)) [
          | true ↦
              elim (rename_first (values v))
                as (λ o. IsWritten v (elim o [
                  | none ↦ v
                  | some vs ↦ value (type_of v) (str v) (int v) vs nil (is_null v)
                ])) [ none ↦ inl refl | some vs ↦ inr refl ]
          | false ↦ inl refl
        ]

-- Nothing of a shard is seen in the fields of a value, and they are what is written.
abbrev pub Shown : Value → Value → Type 0
Shown came v = IsPlain v × IsWritten came v

abbrev pub Shows : Value → Forward → Type 0
Shows came (to_acks v) = Shown came v
Shows came (to_client v) = Shown came v
Shows came (resubscribe channel) = Unit

forward_ack-Shows :
    (came : Value) (subs : List (Bytes × Bytes)) (v : Value)
    → Shown came v
    → Shows came (forward_ack subs v)
unfolding forward_ack
forward_ack-Shows came subs v h =
    elim (is_unsub v)
      as (λ b. Shows came (
        if b
        then elim (maybe_resub subs (to_list (values v))) [
          | none ↦ to_acks v
          | some channel ↦ resubscribe channel
        ]
        else to_acks v)) [
          | true ↦
              elim (maybe_resub subs (to_list (values v)))
                as (λ o.
                  Shows came (elim o [ none ↦ to_acks v | some channel ↦ resubscribe channel ])) [
                    | none ↦ h
                    | some channel ↦ tt
                  ]
          | false ↦ h
        ]

-- Where shards are hidden, neither a message nor an acknowledgement that is passed on has a kind that
-- only a client of shards knows; it is the node's value, or it has no raw bytes and is written from its
-- fields.
pub forward-Shows :
    {C : Type 0} (s : Subscriptions C) (v : Value) → s.sharded ≡ true → Shows v (forward s v)
unfolding forward
forward-Shows s v h =
    let shown : Value = if s.sharded then rewrite_incoming v else v in
    let plain : Shown v shown =
      subst (λ b. Shown v (if b then rewrite_incoming v else v)) (sym h)
        (rewrite_incoming-IsPlain v, rewrite_incoming-IsWritten v) in
    if_both (Shows v) (is_ack v) (forward_ack-Shows v s.subs shown plain) plain
