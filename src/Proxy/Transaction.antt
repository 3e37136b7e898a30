-- ===== src/Proxy/Transaction.antt =====
-- internal/proxy/session.go: MULTI, EXEC, DISCARD, SELECT, WATCH and UNWATCH. A backend connection
-- and the state of everything outside the session are parameters.
pub mod Order
pub mod States
use dragon_cluster_resp_prox.Base.{
  ℕ, zero, suc, ◌+◌, ℤ, Bool, true, false, not, ◌&&◌, ◌||◌, List, [], ◌∷◌, ◌++◌, map, ◌==◌, ltb,
  if◌then◌else◌, Bytes, codes, equal, content, Slice, buf, Argv, Option, none, some, length, get_or,
  Result, Go, ok, err, panic, ◌>>=◌,
}
use dragon_cluster_resp_prox.Resp.Prefix
use dragon_cluster_resp_prox.Resp.Value.{
  Value, error, simple_string, array, type_of, is_null, values, to_list,
}
use dragon_cluster_resp_prox.Command.Keys.{name_of, extract_keys}
use dragon_cluster_resp_prox.Command.Database.{
  parse_db_index, db_index_error, clone_argv, rewrite_argv,
}
use dragon_cluster_resp_prox.Cluster.Routing.{Delimiters, slot_of, cross_slot}

-- What a session asks of the router and the pools: connections `C`, and the state `W` of all else.
-- A write gives the text of an error, or `none`.
pub record Backend (C W : Type 0) : Type 0 where
  pub delimiters : Delimiters
  pub max_databases : ℤ
  pub generation : W → ℕ
  pub checkout : ℕ → W → Result Bytes C × W
  pub put : C → W → W
  pub drop_conn : C → W → W
  pub write_raw : C → Argv → W → Option Bytes × W
  pub read : C → W → Go (Result Bytes Value × W)
  pub do_argv : C → Argv → W → Go (Result Bytes Value × W)

-- The part of the session that transactions change.
pub record Session (C : Type 0) : Type 0 where
  pub authed : Bool
  pub db : ℕ
  pub multi : Bool
  pub queued : List Argv
  pub watched : Argv
  pub pin : Option C
  pub pin_gen : ℕ

abbrev pub ok_reply : Value
ok_reply = simple_string (codes "OK")

abbrev pub queued_reply : Value
queued_reply = simple_string (codes "QUEUED")

abbrev pub err_cross : Value
err_cross = error (codes "CROSSSLOT Keys in request don't hash to the same slot")

abbrev pub exec_abort : Value
exec_abort = error (codes "EXECABORT Transaction discarded because of topology change")

abbrev pub select_arity : Value
select_arity = error (codes "ERR wrong number of arguments for 'select' command")

abbrev pub failure : Bytes → Value
failure e = error (codes "ERR " ++ e)

-- An item of EXEC: a reply of the proxy's own, or a command for the backend.
pub data ExecItem : Type 0 where
  local : Value → ExecItem
  backend : Argv → ExecItem

-- `ParseDBIndex` on the one argument of a SELECT.
unfoldable pub select_db : ℤ → Argv → Result Value ℕ
unfolding parse_db_index
select_db max (name ∷ index ∷ []) = elim (parse_db_index (content index) max) [
  | err e ↦ err (db_index_error e)
  | ok n ↦ ok n
]
select_db max _ = err select_arity

abbrev pub is_select : Argv → Bool
is_select a = ltb 0 (length a) && equal (name_of a) (codes "SELECT")

-- The items, the keys of the commands among them, and the last database.
pub record Plan : Type 0 where
  pub items : List ExecItem
  pub keys : Argv
  pub last_db : ℕ

abbrev pub with_item : ExecItem → Argv → Plan → Plan
with_item i ks p = record p { items = i ∷ p.items; keys = ks ++ p.keys }

unfoldable pub plan : ℤ → ℕ → List Argv → Go Plan
unfolding select_db
plan max db [] = ok (record { items = []; keys = []; last_db = db })
plan max db (a ∷ rest) = elim (is_select a) [
  | true ↦ elim (select_db max a) [
    | err e ↦ plan max db rest >>= λ p. ok (with_item (local e) [] p)
    | ok n ↦ plan max n rest >>= λ p. ok (with_item (local ok_reply) [] p)
  ]
  | false ↦ rewrite_argv a db >>= λ rewritten. extract_keys rewritten >>= λ ks.
      plan max db rest >>= λ p. ok (with_item (backend rewritten) ks p)
]

unfoldable pub backend_argvs : List ExecItem → List Argv
backend_argvs [] = []
backend_argvs (local v ∷ items) = backend_argvs items
backend_argvs (backend a ∷ items) = a ∷ backend_argvs items

-- The backend's replies in the places of its commands.
unfoldable pub merge_items : List ExecItem → List Value → List Value
merge_items [] vs = []
merge_items (local v ∷ items) vs = v ∷ merge_items items vs
merge_items (backend a ∷ items) [] = error (codes "ERR EXEC reply missing") ∷ merge_items items []
merge_items (backend a ∷ items) (v ∷ vs) = v ∷ merge_items items vs

unfoldable pub merge_exec_reply : List ExecItem → Value → Value
unfolding merge_items
merge_exec_reply items v =
    if not (type_of v == Prefix.array) || is_null v
    then v
    else array (merge_items items (to_list (values v)))

abbrev pub local_values : List ExecItem → List Value
local_values [] = []
local_values (local v ∷ items) = v ∷ local_values items
local_values (backend a ∷ items) = local_values items

-- A reply, the session and the rest after it.
abbrev reply_and : {C W : Type 0} → Value → Session C × W → Value × Session C × W
reply_and v p = (v, p.0, p.1)

module _ {C W : Type 0} (b : Backend C W) where
  unfoldable pub cmd_multi : Session C → Value × Session C
  cmd_multi s =
      if s.multi
      then (error (codes "ERR MULTI calls can not be nested"), s)
      else (ok_reply, record s { multi = true; queued = [] })

  unfoldable pub cmd_discard : Session C → Value × Session C
  cmd_discard s =
      if not s.multi
      then (error (codes "ERR DISCARD without MULTI"), s)
      else (ok_reply, record s { multi = false; queued = [] })

  unfoldable pub cmd_select : Argv → Session C → Value × Session C
  unfolding select_db
  cmd_select argv s =
      if not s.authed
      then (error (codes "NOAUTH Authentication required."), s)
      else elim (select_db b.max_databases argv) [
        | err e ↦ (e, s)
        | ok n ↦
            if s.multi
            then (queued_reply, record s { queued = s.queued ++ (clone_argv argv ∷ []) })
            else (ok_reply, record s { db = n })
      ]

  -- The end of `handle` for a command inside MULTI.
  unfoldable pub enqueue : Argv → Session C → Value × Session C
  enqueue argv s = (queued_reply, record s { queued = s.queued ++ (clone_argv argv ∷ []) })

  unfoldable pub drop_pin : Session C → W → Session C × W
  drop_pin s w = (record s { pin = none }, elim s.pin [ none ↦ w | some c ↦ b.drop_conn c w ])

  unfoldable pub reset_txn : Session C → W → Session C × W
  unfolding drop_pin
  reset_txn s w = drop_pin (record s { multi = false; queued = []; watched = [] }) w

  -- `s.pin.Do`, and what follows on its result.
  watched_by : Argv → Session C → Result Bytes Value × W → Value × Session C × W
  unfolding drop_pin
  watched_by keys s (err e, w) = reply_and (failure e) (drop_pin s w)
  watched_by keys s (ok v, w) = (v, record s { watched = s.watched ++ clone_argv keys }, w)

  watch_on : C → Argv → Argv → Session C → W → Go (Value × Session C × W)
  unfolding watched_by
  watch_on c argv keys s w = b.do_argv c argv w >>= λ out. ok (watched_by keys s out)

  watch_pinned : ℕ → Argv → Argv → Session C → W → Go (Value × Session C × W)
  unfolding watch_on
  watch_pinned slot argv keys s w = elim s.pin [
    | some c ↦ watch_on c argv keys s w
    | none ↦
        let (result, after) = b.checkout slot w in
        elim result [
          | err e ↦ ok (failure e, s, after)
          | ok c ↦
              watch_on c argv keys (record s { pin = some c; pin_gen = b.generation after }) after
        ]
  ]

  watch_keys : Argv → Argv → Session C → W → Go (Value × Session C × W)
  unfolding watch_pinned
  watch_keys argv [] s w =
      ok (error (codes "ERR wrong number of arguments for 'watch' command"), s, w)
  watch_keys argv (k ∷ ks) s w =
      if cross_slot b.delimiters (k ∷ ks)
      then ok (err_cross, s, w)
      else watch_pinned (slot_of b.delimiters k) argv (k ∷ ks) s w

  unfoldable pub cmd_watch : Argv → Session C → W → Go (Value × Session C × W)
  unfolding watch_keys
  cmd_watch argv s w =
      if s.multi
      then ok (error (codes "ERR WATCH inside MULTI is not allowed"), s, w)
      else (rewrite_argv argv s.db >>= λ rewritten.
          extract_keys rewritten >>= λ keys. watch_keys rewritten keys s w)

  unfoldable pub cmd_unwatch : Session C → W → Go (Value × Session C × W)
  unfolding drop_pin
  cmd_unwatch s w = elim s.pin [
    | none ↦ ok (ok_reply, record s { watched = [] }, w)
    | some c ↦ b.do_argv c (buf (codes "UNWATCH") ∷ []) w >>= λ out.
        ok (reply_and ok_reply (drop_pin (record s { watched = [] }) out.1))
  ]

  -- A command is written and its reply is read; the reply itself is not looked at.
  failed_with : Result Bytes Value → Option Bytes
  failed_with (err e) = some e
  failed_with (ok v) = none

  exchange : C → Argv → W → Go (Option Bytes × W)
  unfolding failed_with
  exchange c argv w =
      let (failed, after) = b.write_raw c argv w in
      elim failed [
        | some e ↦ ok (some e, after)
        | none ↦ b.read c after >>= λ out. ok (failed_with out.0, out.1)
      ]

  abbrev and_next : (W → Go (Option Bytes × W)) → Option Bytes × W → Go (Option Bytes × W)
  and_next next (some e, w) = ok (some e, w)
  and_next next (none, w) = next w

  exchange_all : C → List Argv → W → Go (Option Bytes × W)
  unfolding exchange
  exchange_all c [] w = ok (none, w)
  exchange_all c (a ∷ argvs) w = exchange c a w >>= and_next (exchange_all c argvs)

  -- The transaction on a connection: an error drops the connection, the end gives it back.
  executed : C → Plan → Session C → Result Bytes Value × W → Value × Session C × W
  executed c p s (err e, w) = (failure e, s, b.drop_conn c w)
  executed c p s (ok v, w) =
      if is_null v
      then (v, record s { watched = [] }, b.put c w)
      else (merge_exec_reply p.items v, record s { watched = []; db = p.last_db }, b.put c w)

  -- EXEC, if MULTI and the commands have been sent.
  execute : C → Plan → Session C → Option Bytes × W → Go (Value × Session C × W)
  unfolding executed
  execute c p s (some e, w) = ok (failure e, s, b.drop_conn c w)
  execute c p s (none, w) =
      b.do_argv c (buf (codes "EXEC") ∷ []) w >>= λ out. ok (executed c p s out)

  transact : C → Plan → Session C → W → Go (Value × Session C × W)
  unfolding exchange_all execute
  transact c p s w =
      exchange_all c ((buf (codes "MULTI") ∷ []) ∷ backend_argvs p.items) w >>= execute c p s

  unfoldable pub first_slot : Argv → ℕ
  first_slot [] = 0
  first_slot (k ∷ keys) = slot_of b.delimiters k

  exec_backend : Plan → Argv → Session C → W → Go (Value × Session C × W)
  unfolding transact first_slot
  exec_backend p keys s w = elim s.pin [
    | some c ↦ transact c p (record s { pin = none }) w
    | none ↦
        let (result, after) = b.checkout (first_slot keys) w in
        elim result [ err e ↦ ok (failure e, s, after) | ok c ↦ transact c p s after ]
  ]

  exec_plan : Plan → Session C → W → Go (Value × Session C × W)
  unfolding drop_pin exec_backend
  exec_plan p s w =
      let keys = s.watched ++ p.keys in
      if cross_slot b.delimiters keys
      then ok (reply_and err_cross (drop_pin s w))
      else if length (backend_argvs p.items) == 0
      then ok (array (local_values p.items), record s { db = p.last_db; watched = [] }, w)
      else exec_backend p keys s w

  stale : Session C → W → Bool
  stale s w = elim s.pin [ none ↦ false | some c ↦ not (s.pin_gen == b.generation w) ]

  unfoldable pub cmd_exec : Session C → W → Go (Value × Session C × W)
  unfolding stale drop_pin exec_plan
  cmd_exec s w =
      let closed = record s { multi = false; queued = [] } in
      if not s.multi
      then ok (error (codes "ERR EXEC without MULTI"), s, w)
      else if stale s w
      then ok (reply_and exec_abort (drop_pin closed w))
      else (plan b.max_databases s.db s.queued >>= λ p. exec_plan p closed w)
