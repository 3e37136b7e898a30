-- ===== src/Pubsub.antt =====
-- internal/pubsub/pubsub.go: the channels that a client is subscribed to, over the connections to their
-- nodes. The router, the connections and the acknowledgements that come over them are parameters.
pub mod Counted
pub mod Forwards
use dragon_cluster_resp_prox.Base.{
  String, ℕ, zero, suc, ◌+◌, ◌-◌, pos, Bool, true, false, not, ◌&&◌, ◌||◌, List, [], ◌∷◌, ◌++◌,
  ◌==◌, ltb, if◌then◌else◌, Bytes, codes, equal, content, Slice, nil, buf, Argv, Option, none, some,
  length, map, Result, Go, ok, err, ◌>>=◌,
}
use dragon_cluster_resp_prox.Resp.Prefix
use dragon_cluster_resp_prox.Resp.Value.{
  Value, value, error, integer, array, bulk_string, type_of, str, int, values, raw, is_null,
  to_list, Values, end, item,
}
use dragon_cluster_resp_prox.Resp.Ascii.{equal_fold}
use dragon_cluster_resp_prox.Command.Classify.{PubSubOp, classify_pub_sub}
use dragon_cluster_resp_prox.Cluster.Topology.{Flavor}
use dragon_cluster_resp_prox.Cluster.Routing.{Delimiters, slot_of}

-- What a subscribed client asks of the rest: connections `C`, and the state `W` of all else. A node is
-- `NodeForSlot`, or else any master.
pub record Hub (C W : Type 0) : Type 0 where
  pub delimiters : Delimiters
  pub node_addr : ℕ → W → Option Bytes
  pub master_addr : W → Option Bytes
  pub checkout_addr : Bytes → W → Result Bytes C × W
  pub release : C → W → W
  pub write : C → Argv → W → Option Bytes × W
  pub wait_ack : C → W → Result Bytes Value × W

-- `sharded` is `ModeShardedRewrite`.
pub record Subscriptions (C : Type 0) : Type 0 where
  pub sharded : Bool
  pub subs : List (Bytes × Bytes)
  pub backends : List (Bytes × C)
  pub count : ℕ

abbrev pub is_dragonfly : Flavor → Bool
is_dragonfly Flavor.dragonfly = true
is_dragonfly _ = false

unfoldable pub new_subscriptions : {C : Type 0} → Flavor → Subscriptions C
new_subscriptions flavor = record {
  sharded = is_dragonfly flavor;
  subs = [];
  backends = [];
  count = 0;
}

abbrev pub is_publish : PubSubOp → Bool
is_publish PubSubOp.publish = true
is_publish _ = false

unfoldable pub rewrite_publish : Flavor → Argv → Argv
unfolding classify_pub_sub
rewrite_publish flavor (name ∷ channel ∷ rest) =
    if is_dragonfly flavor && is_publish (classify_pub_sub (content name))
    then buf (codes "SPUBLISH") ∷ channel ∷ rest
    else name ∷ channel ∷ rest
rewrite_publish flavor argv = argv

-- The value of a key.
unfoldable pub find_value {ℓ} : {A : Type ℓ} → List (Bytes × A) → Bytes → Option A
unfolding equal
find_value [] key = none
find_value (p ∷ m) key = let rest = find_value m key in if equal p.0 key then some p.1 else rest

abbrev pub is_some {ℓ} : {A : Type ℓ} → Option A → Bool
is_some none = false
is_some (some a) = true

unfoldable pub without : List (Bytes × Bytes) → Bytes → List (Bytes × Bytes)
unfolding equal
without [] key = []
without (p ∷ m) key = let rest = without m key in if equal p.0 key then rest else p ∷ rest

-- The first argument of an array or a push, if there is one.
abbrev pub kind_of_push : Value → Option Bytes
kind_of_push v = elim (to_list (values v)) [ [] ↦ none | k ∷ rest ↦ some (content (str k)) ]

abbrev pub is_list : Value → Bool
is_list v = type_of v == Prefix.array || type_of v == Prefix.push

unfoldable pub one_of : Bytes → List Bytes → Bool
unfolding equal_fold
one_of k [] = false
one_of k (name ∷ names) = equal_fold k name || one_of k names

unfoldable pub is_ack : Value → Bool
unfolding one_of
is_ack v = is_list v && elim (kind_of_push v) [
  | none ↦ false
  | some k ↦ one_of k (
      codes "subscribe"
      ∷ codes "ssubscribe"
      ∷ codes "unsubscribe"
      ∷ codes "sunsubscribe"
      ∷ codes "psubscribe"
      ∷ codes "punsubscribe"
      ∷ [])
]

unfoldable pub is_unsub : Value → Bool
unfolding one_of
is_unsub v = elim (kind_of_push v) [
  | none ↦ false
  | some k ↦ one_of k (codes "unsubscribe" ∷ codes "sunsubscribe" ∷ [])
]

abbrev pub with_str : Bytes → Value → Value
with_str s (value t old n vs r z) = value t (buf s) n vs r z

-- The name of a message for a client that knows of no shards.
abbrev pub plain_kind : Bytes → Option Bytes
plain_kind k =
    if equal_fold k (codes "smessage")
    then some (codes "message")
    else if equal_fold k (codes "ssubscribe")
    then some (codes "subscribe")
    else if equal_fold k (codes "sunsubscribe")
    then some (codes "unsubscribe")
    else none

unfoldable pub rename_first : Values → Option Values
unfolding equal_fold
rename_first end = none
rename_first (item k rest) = elim (plain_kind (content (str k))) [
  | none ↦ none
  | some name ↦ some (item (with_str name k) rest)
]

unfoldable pub rewrite_incoming : Value → Value
unfolding rename_first
rewrite_incoming v =
    if is_list v
    then elim (rename_first (values v)) [
      | none ↦ v
      | some vs ↦ value (type_of v) (str v) (int v) vs nil (is_null v)
    ]
    else v

abbrev pub counted_ack : Bytes → Slice → ℕ → Value
counted_ack kind channel n =
    array (bulk_string (buf kind) ∷ bulk_string channel ∷ integer (pos n) ∷ [])

unfoldable pub client_ack : Value → Bytes → Slice → ℕ → Bool → Value
client_ack v kind channel n is_rewrite =
    if not is_rewrite && ltb 0 (length (content (raw v))) then v else counted_ack kind channel n

-- What the reader of a backend's connection does with a value.
pub data Forward : Type 0 where
  to_acks to_client : Value → Forward
  resubscribe : Bytes → Forward

-- `maybeResub`: the channel, if it is one of the client's.
unfoldable pub maybe_resub : List (Bytes × Bytes) → List Value → Option Bytes
unfolding find_value
maybe_resub subs (k ∷ channel ∷ rest) =
    if is_some (find_value subs (content (str channel))) then some (content (str channel)) else none
maybe_resub subs _ = none

-- Of an acknowledgement: one that a channel is given up may be taken for a forced one.
unfoldable pub forward_ack : List (Bytes × Bytes) → Value → Forward
unfolding is_unsub maybe_resub
forward_ack subs v =
    if is_unsub v
    then elim (maybe_resub subs (to_list (values v))) [
      | none ↦ to_acks v
      | some channel ↦ resubscribe channel
    ]
    else to_acks v

unfoldable pub forward : {C : Type 0} → Subscriptions C → Value → Forward
unfolding is_ack rewrite_incoming forward_ack
forward s v =
    let shown = if s.sharded then rewrite_incoming v else v in
    if is_ack v then forward_ack s.subs shown else to_client shown

abbrev pub err_reply : Bytes → Value
err_reply e = error (codes "ERR " ++ e)

abbrev pub no_backend : Value
no_backend = error (codes "ERR no backend nodes")

unfoldable pub add_sub : {C : Type 0} → Slice → Bytes → Subscriptions C → Subscriptions C
unfolding find_value without
add_sub channel addr s =
    let known = is_some (find_value s.subs (content channel)) in
    record s {
      subs = (content channel, addr) ∷ without s.subs (content channel);
      count = if known then s.count else s.count + 1;
    }

-- The count does not go below 0.
unfoldable pub remove_sub : {C : Type 0} → Slice → Subscriptions C → Subscriptions C
unfolding without
remove_sub channel s = record s { subs = without s.subs (content channel); count = s.count - 1 }

-- The channels of an UNSUBSCRIBE without any are all channels, in some order.
abbrev pub or_all : {C : Type 0} → Argv → Subscriptions C → Argv
or_all [] s = map (λ p. buf p.0) s.subs
or_all (channel ∷ channels) s = channel ∷ channels

-- The address of a channel that is unknown is empty.
abbrev pub addr_of : {C : Type 0} → Slice → Subscriptions C → Bytes
addr_of channel s = elim (find_value s.subs (content channel)) [ none ↦ [] | some addr ↦ addr ]

-- The command that goes to the node, the kind of its acknowledgement, and whether both differ.
pub record Wording : Type 0 where
  pub command : Bytes
  pub kind : Bytes
  pub differs : Bool

abbrev subscribe_wording : Bool → Bool → Wording
subscribe_wording sharded from_global =
    if sharded && from_global
    then record { command = codes "SSUBSCRIBE"; kind = codes "subscribe"; differs = true }
    else if not from_global
    then record { command = codes "SSUBSCRIBE"; kind = codes "ssubscribe"; differs = false }
    else record { command = codes "SUBSCRIBE"; kind = codes "subscribe"; differs = false }

abbrev unsubscribe_wording : Bool → Bool → Wording
unsubscribe_wording sharded from_global =
    if sharded && from_global
    then record { command = codes "SUNSUBSCRIBE"; kind = codes "unsubscribe"; differs = true }
    else if not from_global
    then record { command = codes "SUNSUBSCRIBE"; kind = codes "sunsubscribe"; differs = false }
    else record { command = codes "UNSUBSCRIBE"; kind = codes "unsubscribe"; differs = false }

module _ {C W : Type 0} (h : Hub C W) where
  ensure_backend : Bytes → Subscriptions C → W → Result Bytes C × Subscriptions C × W
  unfolding find_value
  ensure_backend addr s w = elim (find_value s.backends addr) [
    | some c ↦ (ok c, s, w)
    | none ↦
        let (got, after) = h.checkout_addr addr w in
        elim got [
          | err e ↦ (err e, s, after)
          | ok c ↦ (ok c, record s { backends = (addr, c) ∷ s.backends }, after)
        ]
  ]

  -- A command is written, and the next acknowledgement is waited for.
  round : C → Argv → W → Result Bytes Value × W
  round c argv w =
      let (failed, after) = h.write c argv w in
      elim failed [ some e ↦ (err e, after) | none ↦ h.wait_ack c after ]

  subscribed :
      Wording
      → Slice
      → Bytes
      → Result Bytes Value
      → Subscriptions C
      → W
      → Result Value Value × Subscriptions C × W
  unfolding add_sub client_ack
  subscribed t channel addr (err e) s w = (err (err_reply e), s, w)
  subscribed t channel addr (ok ack) s w =
      let after = add_sub channel addr s in
      (ok (client_ack ack t.kind channel after.count t.differs), after, w)

  subscribe_on :
      Wording
      → Slice
      → Bytes
      → Result Bytes C
      → Subscriptions C
      → W
      → Result Value Value × Subscriptions C × W
  unfolding round subscribed
  subscribe_on t channel addr (err e) s w = (err (err_reply e), s, w)
  subscribe_on t channel addr (ok c) s w =
      let (ack, after) = round c (buf t.command ∷ channel ∷ []) w in
      subscribed t channel addr ack s after

  -- An error is the reply to the whole command.
  subscribe_one : Wording → Slice → Subscriptions C → W → Result Value Value × Subscriptions C × W
  unfolding ensure_backend subscribe_on
  subscribe_one t channel s w = elim (h.node_addr (slot_of h.delimiters channel) w) [
    | none ↦ (err no_backend, s, w)
    | some addr ↦
        let (got, opened, after) = ensure_backend addr s w in
        subscribe_on t channel addr got opened after
  ]

  unfoldable pub subscribe_each :
      Wording → Argv → Subscriptions C → W → Result Value (List Value) × Subscriptions C × W
  unfolding subscribe_one
  subscribe_each t [] s w = (ok [], s, w)
  subscribe_each t (channel ∷ channels) s w =
      let (reply, next, after) = subscribe_one t channel s w in
      let (replies, last, ended) = subscribe_each t channels next after in
      elim reply [
        | err e ↦ (err e, next, after)
        | ok v ↦ (replies >>= λ vs. ok (v ∷ vs), last, ended)
      ]

  abbrev pub replies_of : Result Value (List Value) → List Value
  replies_of (err v) = v ∷ []
  replies_of (ok vs) = vs

  unfoldable pub subscribe : Argv → Bool → Subscriptions C → W → List Value × Subscriptions C × W
  unfolding subscribe_each
  subscribe [] from_global s w =
      (error (codes "ERR wrong number of arguments for 'subscribe' command") ∷ [], s, w)
  subscribe (channel ∷ channels) from_global s w =
      let (replies, last, after) =
        subscribe_each (subscribe_wording s.sharded from_global) (channel ∷ channels) s w in
      (replies_of replies, last, after)

  unsubscribe_on : Wording → Slice → Option C → ℕ → W → Value × W
  unfolding client_ack
  unsubscribe_on t channel none n w = (counted_ack t.kind channel n, w)
  unsubscribe_on t channel (some c) n w =
      let (failed, written) = h.write c (buf t.command ∷ channel ∷ []) w in
      let (ack, after) = h.wait_ack c written in
      (
        elim ack [
          | err e ↦ counted_ack t.kind channel n
          | ok v ↦ client_ack v t.kind channel n t.differs
        ],
        after,
      )

  unfoldable pub unsubscribe_each :
      Wording → Argv → Subscriptions C → W → List Value × Subscriptions C × W
  unfolding find_value remove_sub unsubscribe_on
  unsubscribe_each t [] s w = ([], s, w)
  unsubscribe_each t (channel ∷ channels) s w =
      let next = remove_sub channel s in
      let (reply, after) =
        unsubscribe_on t channel (find_value s.backends (addr_of channel s)) next.count w in
      let (replies, last, ended) = unsubscribe_each t channels next after in
      (reply ∷ replies, last, ended)

  unfoldable pub unsubscribe : Argv → Bool → Subscriptions C → W → List Value × Subscriptions C × W
  unfolding unsubscribe_each
  unsubscribe channels from_global s w =
      unsubscribe_each (unsubscribe_wording s.sharded from_global) (or_all channels s) s w

  round_trip_on : Argv → Result Bytes C → W → Value × W
  unfolding round
  round_trip_on argv (err e) w = (err_reply e, w)
  round_trip_on argv (ok c) w =
      let (ack, after) = round c argv w in (elim ack [ err e ↦ err_reply e | ok v ↦ v ], after)

  round_trip : Argv → Subscriptions C → W → Value × Subscriptions C × W
  unfolding ensure_backend round_trip_on
  round_trip argv s w = elim (h.master_addr w) [
    | none ↦ (no_backend, s, w)
    | some addr ↦
        let (got, opened, after) = ensure_backend addr s w in
        let (reply, last) = round_trip_on argv got after in (reply, opened, last)
  ]

  pattern_cmd : Argv → Subscriptions C → W → List Value × Subscriptions C × W
  unfolding round_trip
  pattern_cmd argv s w =
      if s.sharded
      then (error (codes "ERR PSUBSCRIBE is not supported against Dragonfly cluster") ∷ [], s, w)
      else (let (reply, last, after) = round_trip argv s w in (reply ∷ [], last, after))

  abbrev client_cmd :
      PubSubOp → Argv → Argv → Subscriptions C → W → List Value × Subscriptions C × W
  client_cmd PubSubOp.psubscribe argv channels s w = pattern_cmd argv s w
  client_cmd PubSubOp.punsubscribe argv channels s w = pattern_cmd argv s w
  client_cmd PubSubOp.subscribe argv channels s w = subscribe channels true s w
  client_cmd PubSubOp.ssubscribe argv channels s w = subscribe channels false s w
  client_cmd PubSubOp.unsubscribe argv channels s w = unsubscribe channels true s w
  client_cmd PubSubOp.sunsubscribe argv channels s w = unsubscribe channels false s w
  client_cmd _ argv channels s w =
      (error (codes "ERR only (UN)SUBSCRIBE / PING / QUIT allowed in this mode") ∷ [], s, w)

  unfoldable pub handle_client_cmd :
      Argv → Subscriptions C → W → Result Bytes (List Value) × Subscriptions C × W
  unfolding classify_pub_sub pattern_cmd subscribe unsubscribe
  handle_client_cmd [] s w = (err (codes "empty"), s, w)
  handle_client_cmd (name ∷ channels) s w =
      let (replies, last, after) =
        client_cmd (classify_pub_sub (content name)) (name ∷ channels) channels s w in
      (ok replies, last, after)

  release_all : List (Bytes × C) → W → W
  release_all [] w = w
  release_all (p ∷ backends) w = release_all backends (h.release p.1 w)

  unfoldable pub close : Subscriptions C → W → Subscriptions C × W
  unfolding release_all
  close s w = (record s { backends = []; subs = [] }, release_all s.backends w)
