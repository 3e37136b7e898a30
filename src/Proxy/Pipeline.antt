-- ===== src/Proxy/Pipeline.antt =====
-- internal/proxy/pipeline.go: the commands that a client sends together. The requests to the nodes,
-- which goroutines send, stand in the order of the nodes' first commands.
pub mod InOrder
pub mod Nodes
use dragon_cluster_resp_prox.Base.{
  ℕ, zero, suc, ℤ, pos, negsuc, Bool, true, false, not, ◌&&◌, ◌||◌, List, [], ◌∷◌, ◌++◌, map, ltb,
  if◌then◌else◌, Bytes, codes, equal, mem_name, content, Argv, Option, none, some, length,
  get_elem?, Result, Go, ok, err, panic, ◌>>=◌,
}
use dragon_cluster_resp_prox.Resp.Value.{Value, error, is_error, str, zero_value}
use dragon_cluster_resp_prox.Resp.Encode.{encode_command}
use dragon_cluster_resp_prox.Command.Keys.{name_of, extract_keys}
use dragon_cluster_resp_prox.Command.Classify.{fanout_of, is_blocking}
use dragon_cluster_resp_prox.Command.Database.{parse_db_index, rewrite_argv}
use dragon_cluster_resp_prox.Command.Fanout.{place}
use dragon_cluster_resp_prox.Cluster.Slot.{parse_redirect}
use dragon_cluster_resp_prox.Cluster.Routing.{cross_slot}
use dragon_cluster_resp_prox.Proxy.Transaction.{
  Session, ok_reply, err_cross, failure, first_slot, select_db,
}
use dragon_cluster_resp_prox.Proxy.Service.{Service, Client, err_no_auth}
use dragon_cluster_resp_prox.Proxy.Local.{handle_local}
use dragon_cluster_resp_prox.Proxy.Fanout.{reads}
use dragon_cluster_resp_prox.Proxy.Dispatch.{Handled, is_none, needs_rewrite, shown_reply, handle}

pub record ClientCmd : Type 0 where
  pub argv : Argv
  pub raw : Bytes
  pub name : Bytes

-- A request of the batch.
pub record Sent : Type 0 where
  pub slot : ℕ
  pub addr : Bytes
  pub frame : Bytes
  pub argv : Argv
  pub read : Bool

pub data PipeItem : Type 0 where
  slow : PipeItem
  local : Value → PipeItem
  request : Sent → PipeItem

unfoldable pub max_pipeline : ℤ → ℕ
max_pipeline (pos zero) = 128
max_pipeline (pos (suc n)) = suc n
max_pipeline (negsuc n) = 128

unfoldable pub pipeline_slow : Bytes → Argv → Bool
unfolding is_blocking mem_name
pipeline_slow name argv =
    is_blocking argv
    || mem_name name (
        codes "MULTI"
        ∷ codes "EXEC"
        ∷ codes "DISCARD"
        ∷ codes "WATCH"
        ∷ codes "UNWATCH"
        ∷ codes "SUBSCRIBE"
        ∷ codes "SSUBSCRIBE"
        ∷ codes "PSUBSCRIBE"
        ∷ codes "UNSUBSCRIBE"
        ∷ codes "SUNSUBSCRIBE"
        ∷ codes "PUNSUBSCRIBE"
        ∷ codes "PUBLISH"
        ∷ codes "SPUBLISH"
        ∷ codes "PUBSUB"
        ∷ codes "MOVE"
        ∷ codes "COPY"
        ∷ codes "FLUSHDB"
        ∷ codes "FLUSHALL"
        ∷ codes "SWAPDB"
        ∷ codes "RANDOMKEY"
        ∷ codes "QUIT"
        ∷ [])

abbrev pub is_slow : PipeItem → Bool
is_slow slow = true
is_slow _ = false

-- A node's address with the positions of its requests.
pub record AddrGroup : Type 0 where
  pub addr : Bytes
  pub index : List ℕ

-- `g.idx = append(g.idx, i)`; a new address goes to the end of `order`.
unfoldable pub add_request : Bytes → ℕ → List AddrGroup → List AddrGroup
unfolding equal
add_request a i [] = record { addr = a; index = i ∷ [] } ∷ []
add_request a i (g ∷ groups) =
    let rest = add_request a i groups in
    if equal g.addr a then record g { index = g.index ++ (i ∷ []) } ∷ groups else g ∷ rest

-- The loop over the items from position `i` on.
unfoldable pub group_items : ℕ → List PipeItem → List AddrGroup → List AddrGroup
unfolding add_request
group_items i [] groups = groups
group_items i (request q ∷ items) groups = group_items (suc i) items (add_request q.addr i groups)
group_items i (local v ∷ items) groups = group_items (suc i) items groups
group_items i (slow ∷ items) groups = group_items (suc i) items groups

-- The replies before any request is sent.
unfoldable pub local_replies : List PipeItem → List Value
local_replies [] = []
local_replies (local v ∷ items) = v ∷ local_replies items
local_replies (request q ∷ items) = zero_value ∷ local_replies items
local_replies (slow ∷ items) = zero_value ∷ local_replies items

abbrev pub request_at : List PipeItem → ℕ → Option Sent
request_at items i = elim (get_elem? items i) [
  | none ↦ none
  | some item ↦ elim item [ request q ↦ some q | local v ↦ none | slow ↦ none ]
]

-- The frames of a group, one behind the other.
frames : List PipeItem → List ℕ → Bytes
frames items [] = []
frames items (i ∷ index) =
    let rest = frames items index in
    elim (request_at items i) [ none ↦ rest | some q ↦ q.frame ++ rest ]

abbrev pub names_redirect : Value → Bool
names_redirect v =
    is_error v && elim (parse_redirect (content (str v))) [ none ↦ false | some red ↦ true ]

-- Replies of the groups at their places, or the first error.
unfoldable pub place_groups :
    List AddrGroup → List (Result Bytes (List Value)) → List Value → Result Bytes (List Value)
unfolding place
place_groups (g ∷ groups) (err e ∷ results) out = err e
place_groups (g ∷ groups) (ok vs ∷ results) out = place_groups groups results (place g.index vs out)
place_groups _ _ out = ok out

unfoldable pub shown_replies : List Bytes → ℕ → List Value → List Value
unfolding shown_reply
shown_replies (name ∷ names) db (v ∷ vs) = shown_reply name db (ok v) ∷ shown_replies names db vs
shown_replies _ db _ = []

module _ {C W : Type 0} (b : Service C W) where
  -- A SELECT of a batch takes effect at once.
  unfoldable pub pipe_select : Argv → Client C → Value × Client C
  unfolding select_db
  pipe_select argv s =
      if not s.session.authed
      then (err_no_auth, s)
      else elim (select_db b.backend.max_databases argv) [
        | err v ↦ (v, s)
        | ok db ↦ (ok_reply, record s { session = record s.session { db = db } })
      ]

  abbrev pub frame_of : Bytes → Argv → Bytes
  frame_of raw argv =
      if not (ltb 0 (length raw)) || needs_rewrite argv then encode_command [] argv else raw

  -- To the node of the slot; an empty command has no name to look at.
  unfoldable pub pipe_request : Bytes → Argv → ℕ → Option Bytes → Argv → Go PipeItem
  unfolding encode_command needs_rewrite reads
  pipe_request raw argv slot none original = ok (local (error (codes "ERR no backend nodes")))
  pipe_request raw argv slot (some addr) [] = err panic
  pipe_request raw argv slot (some addr) (name ∷ args) = ok (
      request (record {
        slot = slot;
        addr = addr;
        frame = frame_of raw argv;
        argv = argv;
        read = reads (name ∷ args);
      }))

  unfoldable pub pipe_keys : Bytes → Argv → Argv → Argv → W → Go PipeItem
  unfolding cross_slot fanout_of first_slot pipe_request
  pipe_keys raw argv keys original w = elim (cross_slot b.backend.delimiters keys) [
    | true ↦ ok (if is_none (fanout_of argv) then local err_cross else slow)
    | false ↦
        let slot = first_slot b.backend keys in
        pipe_request raw argv slot (b.node_addr slot w) original
  ]

  unfoldable pub pipe_plain : ClientCmd → ℕ → W → Go PipeItem
  unfolding rewrite_argv extract_keys pipe_keys
  pipe_plain c db w = rewrite_argv c.argv db >>= λ rewritten.
      let argv = if ltb 0 db then rewritten else c.argv in
      let raw = if ltb 0 db then [] else c.raw in
      extract_keys argv >>= λ keys. pipe_keys raw argv keys c.argv w

  abbrev pub pipe_answered : ClientCmd → Option Value × Client C × W → Go (PipeItem × Client C × W)
  pipe_answered c (some v, s, w) = ok (local v, s, w)
  pipe_answered c (none, s, w) = pipe_plain c s.session.db w >>= λ item. ok (item, s, w)

  unfoldable pub classify_pipe : ClientCmd → Client C → W → Go (PipeItem × Client C × W)
  unfolding pipeline_slow equal pipe_select handle_local pipe_plain
  classify_pipe c s w =
      if s.subscribed || pipeline_slow c.name c.argv
      then ok (slow, s, w)
      else if equal c.name (codes "SELECT")
      then (let (v, after) = pipe_select c.argv s in ok (local v, after, w))
      else pipe_answered c (handle_local b c.argv s w)

  unfoldable pub classify_batch : List ClientCmd → Client C → W → Go (List PipeItem × Client C × W)
  unfolding classify_pipe
  classify_batch [] s w = ok ([], s, w)
  classify_batch (c ∷ batch) s w = classify_pipe c s w >>= λ out.
      classify_batch batch out.1 out.2 >>= λ rest. ok (out.0 ∷ rest.0, rest.1, rest.2)

  abbrev and_then :
      (W → Go (Result Bytes (List Value) × W))
      → Result Bytes Value × W
      → Go (Result Bytes (List Value) × W)
  and_then next (err e, w) = ok (err e, w)
  and_then next (ok v, w) = next w >>= λ rest. ok (rest.0 >>= λ vs. ok (v ∷ vs), rest.1)

  read_replies : C → List ℕ → W → Go (Result Bytes (List Value) × W)
  read_replies c [] w = ok (ok [], w)
  read_replies c (i ∷ index) w = b.backend.read c w >>= and_then (read_replies c index)

  -- A reply that names another node is asked for again, with its redirects followed.
  follow_one : Option Sent → Value → W → Go (Result Bytes Value × W)
  unfolding parse_redirect
  follow_one none v w = ok (ok v, w)
  follow_one (some q) v w =
      if names_redirect v then b.exec q.slot q.argv q.read b.read_timeout w else ok (ok v, w)

  unfoldable pub follow_all :
      List PipeItem → List ℕ → List Value → W → Go (Result Bytes (List Value) × W)
  unfolding follow_one
  follow_all items (i ∷ index) (v ∷ vs) w =
      follow_one (request_at items i) v w >>= and_then (follow_all items index vs)
  follow_all items _ _ w = ok (ok [], w)

  -- The replies that were read, with the connection given up.
  replies_read :
      List PipeItem
      → List ℕ
      → C
      → Result Bytes (List Value) × W
      → Go (Result Bytes (List Value) × W)
  unfolding follow_all
  replies_read items index c (err e, w) = ok (err e, b.backend.drop_conn c w)
  replies_read items index c (ok vs, w) = follow_all items index vs (b.backend.put c w)

  flush_on : List PipeItem → List ℕ → Result Bytes C × W → Go (Result Bytes (List Value) × W)
  unfolding frames read_replies replies_read
  flush_on items index (err e, w) = ok (err e, w)
  flush_on items index (ok c, w) =
      let (failed, after) = b.write_frames c (frames items index) w in
      elim failed [
        | some e ↦ ok (err e, b.backend.drop_conn c after)
        | none ↦ read_replies c index after >>= replies_read items index c
      ]

  unfoldable pub flush_group :
      Bytes → List PipeItem → List ℕ → W → Go (Result Bytes (List Value) × W)
  unfolding flush_on
  flush_group addr items index w = flush_on items index (b.checkout_addr addr w)

  unfoldable pub flush_groups :
      List PipeItem → List AddrGroup → W → Go (List (Result Bytes (List Value)) × W)
  unfolding flush_group
  flush_groups items [] w = ok ([], w)
  flush_groups items (g ∷ groups) w = flush_group g.addr items g.index w >>= λ out.
      flush_groups items groups out.1 >>= λ rest. ok (out.0 ∷ rest.0, rest.1)

  -- One error is the reply to the whole batch.
  abbrev pub batch_reply : List Bytes → ℕ → Result Bytes (List Value) → List Value
  batch_reply names db (err e) = failure e ∷ []
  batch_reply names db (ok replies) = shown_replies names db replies

  unfoldable pub exec_fast_pipeline : List Bytes → List PipeItem → ℕ → W → Go (List Value × W)
  unfolding group_items flush_groups place_groups local_replies shown_replies
  exec_fast_pipeline names items db w =
      let groups = group_items 0 items [] in
      flush_groups items groups w >>= λ out.
      ok (batch_reply names db (place_groups groups out.0 (local_replies items)), out.1)

  abbrev and_later : (Client C → W → Handled C W) → Option (List Value × Client C × W) → Handled C W
  and_later next none = ok none
  and_later next (some out) = next out.1 out.2 >>= λ rest. elim rest [
    | none ↦ ok none
    | some last ↦ ok (some (out.0 ++ last.0, last.1, last.2))
  ]

  unfoldable pub handle_each : ℕ → List ClientCmd → Client C → W → Handled C W
  unfolding handle
  handle_each fuel [] s w = ok (some ([], s, w))
  handle_each fuel (c ∷ batch) s w =
      handle b fuel c.argv c.raw s w >>= and_later (handle_each fuel batch)

  abbrev pub any_slow : List PipeItem → Bool
  any_slow [] = false
  any_slow (item ∷ items) = is_slow item || any_slow items

  unfoldable pub handle_batch : ℕ → List ClientCmd → Client C → W → Handled C W
  unfolding handle classify_batch handle_each exec_fast_pipeline
  handle_batch fuel (c ∷ []) s w = handle b fuel c.argv c.raw s w
  handle_batch fuel batch s w = classify_batch batch s w >>= λ out. elim (any_slow out.0) [
    | true ↦ handle_each fuel batch out.1 out.2
    | false ↦
        exec_fast_pipeline (map (λ (c : ClientCmd). c.name) batch) out.0 out.1.session.db out.2
        >>= λ last. ok (some (last.0, out.1, last.1))
  ]
