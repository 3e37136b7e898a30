-- ===== src/Proxy/Dispatch.antt =====
-- internal/proxy/session.go: the dispatch of a client's command, with the commands of a subscribed
-- session and those that wait at a node. A panic of the program is `err panic`.
pub mod Guarded
use dragon_cluster_resp_prox.Base.{
  ℕ, ℤ, pos, Bool, true, false, not, ◌&&◌, ◌||◌, List, [], ◌∷◌, ltb, if◌then◌else◌, Bytes, codes,
  equal, content, buf, Slice, Argv, Option, none, some, length, Result, Go, ok, err, panic, ◌>>=◌,
}
use dragon_cluster_resp_prox.Resp.Value.{
  Value, error, simple_string, array, bulk_string, is_error, str,
}
use dragon_cluster_resp_prox.Command.Table.{Kind, Fanout}
use dragon_cluster_resp_prox.Command.Keys.{name_of, extract_keys}
use dragon_cluster_resp_prox.Command.Classify.{PubSubOp, classify_pub_sub, fanout_of, is_blocking}
use dragon_cluster_resp_prox.Command.Database.{rewrite_argv}
use dragon_cluster_resp_prox.Command.Reply.{strip_reply_keys}
use dragon_cluster_resp_prox.Cluster.Slot.{Redirect, moved, parse_redirect}
use dragon_cluster_resp_prox.Cluster.Routing.{slot_of, cross_slot}
use dragon_cluster_resp_prox.Pubsub.{rewrite_publish, is_publish}
use dragon_cluster_resp_prox.Proxy.Transaction.{
  Session, ok_reply, err_cross, failure, first_slot, cmd_multi, cmd_discard, cmd_select, enqueue,
  cmd_watch, cmd_unwatch, cmd_exec, reset_txn,
}
use dragon_cluster_resp_prox.Proxy.Service.{Service, Client, without_redirect}
use dragon_cluster_resp_prox.Proxy.Local.{handle_local}
use dragon_cluster_resp_prox.Proxy.Fanout.{reads, cmd_fanout}
use dragon_cluster_resp_prox.Proxy.Keyspace.{cmd_move, cmd_copy, cmd_flush_db, cmd_random_key}

-- Where a reply of a node says that a slot has moved for good.
unfoldable pub moved_redirect : Value → Option Redirect
unfolding parse_redirect equal
moved_redirect v =
    if is_error v
    then elim (parse_redirect (content (str v))) [
      | none ↦ none
      | some red ↦ if equal red.kind moved then some red else none
    ]
    else none

-- A PUBLISH is encoded anew.
unfoldable pub needs_rewrite : Argv → Bool
unfolding classify_pub_sub
needs_rewrite [] = false
needs_rewrite (name ∷ args) = is_publish (classify_pub_sub (content name))

abbrev pub is_none : Fanout → Bool
is_none Fanout.none = true
is_none _ = false

-- The reply that the client gets of an answer.
unfoldable pub shown_reply : Bytes → ℕ → Result Bytes Value → Value
unfolding strip_reply_keys
shown_reply name db (err e) = failure e
shown_reply name db (ok v) = if is_error v then without_redirect v else strip_reply_keys name db v

abbrev pub err_swap_db : Value
err_swap_db = error (codes "ERR SWAPDB is not supported")

abbrev pub err_flush_all : Value
err_flush_all = error (codes "ERR FLUSHALL is not supported; use FLUSHDB on a virtual database")

-- Replies, the session and the rest after a command; a scan that takes more rounds than the fuel
-- allows gives none.
abbrev pub Handled : Type 0 → Type 0 → Type 0
Handled C W = Go (Option (List Value × Client C × W))

module _ {C W : Type 0} (b : Service C W) where
  abbrev pub replied : Client C → Value × W → Handled C W
  replied s out = ok (some (out.0 ∷ [], s, out.1))

  abbrev pub with_session : Client C → Session C → Client C
  with_session s t = record s { session = t }

  abbrev pub transacted : Client C → Value × Session C × W → Handled C W
  transacted s out = ok (some (out.0 ∷ [], with_session s out.1, out.2))

  unfoldable pub blocked : Argv → ℤ → C → Option Redirect → Value → W → Go (Result Bytes Value × W)
  blocked argv timeout c none v w = ok (ok v, b.backend.put c w)
  blocked argv timeout c (some red) v w =
      b.update_slot red.slot red.addr (b.backend.drop_conn c w) >>= λ after.
      b.exec red.slot argv false timeout after

  -- What follows on the reply to a command that waits.
  unfoldable pub waited : Argv → ℤ → C → Result Bytes Value × W → Go (Result Bytes Value × W)
  unfolding moved_redirect blocked
  waited argv timeout c (err e, w) = ok (err e, b.backend.drop_conn c w)
  waited argv timeout c (ok v, w) = blocked argv timeout c (moved_redirect v) v w

  unfoldable pub blocking_on : Argv → ℤ → Result Bytes C → W → Go (Result Bytes Value × W)
  unfolding waited
  blocking_on argv timeout (err e) w = ok (err e, w)
  blocking_on argv timeout (ok c) w = b.do_waiting c argv timeout w >>= waited argv timeout c

  -- A command that waits has a connection of its own.
  unfoldable pub do_blocking : ℕ → Argv → ℤ → W → Go (Result Bytes Value × W)
  unfolding blocking_on
  do_blocking slot argv timeout w =
      let (got, after) = b.backend.checkout slot w in blocking_on argv timeout got after

  -- The frame as it came is sent, if there is one.
  unfoldable pub send_plain : Bytes → Argv → ℕ → W → Go (Result Bytes Value × W)
  unfolding is_blocking needs_rewrite reads do_blocking
  send_plain raw argv slot w =
      if is_blocking argv
      then do_blocking slot argv b.blocking_max_wait w
      else if ltb 0 (length raw) && not (needs_rewrite argv)
      then b.exec_raw slot raw (reads argv) b.read_timeout w
      else b.exec slot argv (reads argv) b.read_timeout w

  -- The arguments that go to the cluster, with their keys.
  unfoldable pub routed : Bytes → ℕ → Bytes → Argv → Argv → W → Go (Value × W)
  unfolding first_slot cross_slot fanout_of cmd_fanout send_plain shown_reply
  routed name db raw argv keys w = elim (cross_slot b.backend.delimiters keys) [
    | true ↦ elim (is_none (fanout_of argv)) [
      | true ↦ ok (err_cross, w)
      | false ↦ cmd_fanout b argv name db w
    ]
    | false ↦ send_plain raw argv (first_slot b.backend keys) w >>= λ out.
        ok (shown_reply name db out.0, out.1)
  ]

  -- In a database above 0 the rewritten arguments go, and the frame as it came is not used.
  unfoldable pub cmd_plain : Argv → Bytes → ℕ → W → Go (Value × W)
  unfolding rewrite_argv extract_keys name_of routed
  cmd_plain argv raw db w = rewrite_argv argv db >>= λ rewritten.
      let sent = if ltb 0 db then rewritten else argv in
      extract_keys sent >>= λ keys.
      routed (name_of argv) db (if ltb 0 db then [] else raw) sent keys w

  unfoldable pub cmd_publish : Argv → W → Go (Value × W)
  unfolding rewrite_publish
  cmd_publish argv w =
      let rewritten = rewrite_publish (b.flavor w) argv in
      let slot : ℕ = elim rewritten [
        | [] ↦ 0
        | name ∷ args ↦ elim args [ [] ↦ 0 | channel ∷ rest ↦ slot_of b.backend.delimiters channel ]
      ] in
      b.exec slot rewritten false b.read_timeout w >>= λ out.
      ok (elim out.0 [ err e ↦ (failure e, out.1) | ok v ↦ (v, out.1) ])

  subscribe_replies : Client C → Result Bytes (List Value) × W → Handled C W
  subscribe_replies s (err e, w) = ok (some (failure e ∷ [], s, w))
  subscribe_replies s (ok vs, w) = ok (some (vs, s, w))

  unfoldable pub enter_sub : Argv → Client C → W → Handled C W
  unfolding subscribe_replies
  enter_sub argv s w = subscribe_replies (record s { subscribed = true }) (b.subscribe argv w)

  pong : Argv → Value
  pong (name ∷ message ∷ rest) = array (bulk_string (buf (codes "pong")) ∷ bulk_string message ∷ [])
  pong _ = array (bulk_string (buf (codes "pong")) ∷ bulk_string (buf []) ∷ [])

  unfoldable pub handle_sub : Argv → Client C → W → Handled C W
  unfolding name_of equal pong subscribe_replies
  handle_sub [] s w = err panic
  handle_sub (name ∷ args) s w =
      if equal (name_of (name ∷ args)) (codes "PING")
      then replied s (pong (name ∷ args), w)
      else if equal (name_of (name ∷ args)) (codes "QUIT")
      then replied (record s { quit = true }) (ok_reply, w)
      else subscribe_replies s (b.subscribe (name ∷ args) w)

  -- The commands of the key space.
  unfoldable pub cmd_keys : ℕ → Argv → Bytes → Client C → W → Handled C W
  unfolding name_of equal cmd_flush_db cmd_move cmd_copy cmd_random_key cmd_plain
  cmd_keys fuel argv raw s w =
      let name = name_of argv in
      let db = s.session.db in
      if equal name (codes "SWAPDB")
      then replied s (err_swap_db, w)
      else if equal name (codes "FLUSHALL")
      then replied s (err_flush_all, w)
      else if equal name (codes "FLUSHDB")
      then (cmd_flush_db b fuel db w >>= λ out. elim out [ none ↦ ok none | some o ↦ replied s o ])
      else if equal name (codes "MOVE")
      then (cmd_move b argv db w >>= replied s)
      else if equal name (codes "COPY")
      then (cmd_copy b argv db w >>= replied s)
      else if equal name (codes "RANDOMKEY")
      then (cmd_random_key b db w >>= replied s)
      else (cmd_plain argv raw db w >>= replied s)

  abbrev by_op : PubSubOp → ℕ → Argv → Bytes → Client C → W → Handled C W
  by_op PubSubOp.subscribe fuel argv raw s w = enter_sub argv s w
  by_op PubSubOp.psubscribe fuel argv raw s w = enter_sub argv s w
  by_op PubSubOp.ssubscribe fuel argv raw s w = enter_sub argv s w
  by_op PubSubOp.publish fuel argv raw s w = cmd_publish argv w >>= replied s
  by_op PubSubOp.spublish fuel argv raw s w = cmd_publish argv w >>= replied s
  by_op _ fuel argv raw s w = cmd_keys fuel argv raw s w

  -- Outside MULTI; an empty command has no name to look at.
  unfoldable pub handle_open : ℕ → Argv → Bytes → Client C → W → Handled C W
  unfolding classify_pub_sub enter_sub cmd_publish cmd_keys
  handle_open fuel [] raw s w = err panic
  handle_open fuel (name ∷ args) raw s w =
      by_op (classify_pub_sub (content name)) fuel (name ∷ args) raw s w

  unfoldable pub handle_transaction : ℕ → Argv → Bytes → Client C → W → Handled C W
  unfolding name_of equal cmd_multi cmd_discard cmd_exec cmd_watch cmd_unwatch enqueue handle_open
  handle_transaction fuel argv raw s w =
      let name = name_of argv in
      let t = s.session in
      if equal name (codes "MULTI")
      then (let (v, after) = cmd_multi b.backend t in transacted s (v, after, w))
      else if equal name (codes "DISCARD")
      then (let (v, after) = cmd_discard b.backend t in transacted s (v, after, w))
      else if equal name (codes "EXEC")
      then (cmd_exec b.backend t w >>= transacted s)
      else if equal name (codes "WATCH")
      then (cmd_watch b.backend argv t w >>= transacted s)
      else if equal name (codes "UNWATCH")
      then (cmd_unwatch b.backend t w >>= transacted s)
      else if t.multi
      then (let (v, after) = enqueue b.backend argv t in transacted s (v, after, w))
      else handle_open fuel argv raw s w

  -- What the proxy answers itself, or what the command goes on to.
  unfoldable pub answered : ℕ → Argv → Bytes → Option Value × Client C × W → Handled C W
  unfolding handle_transaction
  answered fuel argv raw (some v, s, w) = replied s (v, w)
  answered fuel argv raw (none, s, w) = handle_transaction fuel argv raw s w

  unfoldable pub handle : ℕ → Argv → Bytes → Client C → W → Handled C W
  unfolding handle_sub name_of equal cmd_select handle_local answered
  handle fuel argv raw s w =
      if s.subscribed
      then handle_sub argv s w
      else if equal (name_of argv) (codes "SELECT")
      then (let (v, after) = cmd_select b.backend argv s.session in transacted s (v, after, w))
      else answered fuel argv raw (handle_local b argv s w)

  -- The end of a session: the transaction is given up.
  unfoldable pub cleanup : Client C → W → Client C × W
  unfolding reset_txn
  cleanup s w =
      let (cleared, after) = reset_txn b.backend s.session w in (with_session s cleared, after)
