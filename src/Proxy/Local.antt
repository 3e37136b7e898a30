-- ===== src/Proxy/Local.antt =====
-- internal/proxy/local.go: the commands that the proxy answers itself.
pub mod Auth
use dragon_cluster_resp_prox.Base.{
  ℕ, zero, suc, ◌+◌, ◌-◌, pos, Bool, true, false, not, ◌&&◌, ◌||◌, List, [], ◌∷◌, ◌++◌, ◌==◌,
  if◌then◌else◌, Bytes, codes, equal, mem_name, content, buf, Argv, Option, none, some, length,
  get_or, nil,
}
use dragon_cluster_resp_prox.Resp.Value.{Value, error, simple_string, bulk_string, integer, array}
use dragon_cluster_resp_prox.Resp.Ascii.{equal_fold, upper}
use dragon_cluster_resp_prox.Command.Keys.{name_of}
use dragon_cluster_resp_prox.Proxy.Transaction.{Session, ok_reply, reset_txn}
use dragon_cluster_resp_prox.Proxy.Service.{Service, Client, err_no_auth}

abbrev pub err_auth : Value
err_auth = error (codes "WRONGPASS invalid username-password pair or user is disabled.")

abbrev pub err_cluster : Value
err_cluster = error (codes "ERR This instance has cluster support disabled")

abbrev pub auth_arity : Value
auth_arity = error (codes "ERR wrong number of arguments for 'auth' command")

-- The password of an AUTH.
abbrev pub auth_password : Argv → Option Bytes
auth_password (a ∷ p ∷ []) = some (content p)
auth_password (a ∷ u ∷ p ∷ []) = some (content p)
auth_password _ = none

abbrev pub authed_as : {C : Type 0} → Bool → Client C → Client C
authed_as b s = record s { session = record s.session { authed = b } }

unfoldable pub do_auth : {C : Type 0} → Argv → Client C → Value × Client C
unfolding equal
do_auth argv s = if not s.require_auth then (ok_reply, s) else elim (auth_password argv) [
  | none ↦ (auth_arity, s)
  | some pass ↦ if equal pass s.client_pass then (ok_reply, authed_as true s) else (err_auth, s)
]

abbrev text : Bytes → Value
text b = bulk_string (buf b)

abbrev pub hello_reply : Value
hello_reply = array (
    text (codes "server")
    ∷ text (codes "redis")
    ∷ text (codes "version")
    ∷ text (codes "7.2.0")
    ∷ text (codes "proto")
    ∷ integer (pos 2)
    ∷ text (codes "id")
    ∷ integer (pos 1)
    ∷ text (codes "mode")
    ∷ text (codes "standalone")
    ∷ text (codes "role")
    ∷ text (codes "master")
    ∷ text (codes "modules")
    ∷ array []
    ∷ [])

-- The first AUTH behind the name with an argument behind it, and the argument at its password's place.
unfoldable pub hello_password : Argv → Option (Option Bytes)
unfolding equal_fold
hello_password (a ∷ u ∷ rest) =
    let later = hello_password (u ∷ rest) in
    if equal_fold (content a) (codes "AUTH")
    then some (elim rest [ [] ↦ none | p ∷ ps ↦ some (content p) ])
    else later
hello_password _ = none

unfoldable pub hello_auth : {C : Type 0} → Argv → Client C → Option Value × Client C
unfolding hello_password equal
hello_auth [] s = (none, s)
hello_auth (name ∷ args) s = elim (hello_password args) [
  | none ↦ (none, s)
  | some none ↦ (some err_auth, s)
  | some (some pass) ↦
      if equal pass s.client_pass then (some hello_reply, authed_as true s) else (some err_auth, s)
]

-- `strings.ToUpper`, on the ASCII letters.
handle_cluster : Argv → Value
unfolding upper equal
handle_cluster (name ∷ sub ∷ rest) =
    if equal (upper (content sub)) (codes "HELP")
    then array (
        text (codes "CLUSTER HELP")
        ∷ text (codes "This instance has cluster support disabled")
        ∷ [])
    else if equal (upper (content sub)) (codes "INFO")
    then text (codes "cluster_state:fail\r\ncluster_slots_assigned:0\r\ncluster_enabled:0\r\n")
    else err_cluster
handle_cluster _ = err_cluster

abbrev info_reply : Bytes → Value
info_reply version = text (
    codes "# Server\r\nredis_version:7.2.0\r\nredis_mode:standalone\r\nos:proxy\r\ndcrp_version:"
    ++ (version ++ codes "\r\ncluster_enabled:0\r\n"))

abbrev plus_pong : Value
plus_pong = simple_string (codes "PONG")

ping_reply : Argv → Value
ping_reply (name ∷ message ∷ rest) = bulk_string message
ping_reply _ = plus_pong

echo_reply : Argv → Value
echo_reply (name ∷ message ∷ []) = bulk_string message
echo_reply _ = error (codes "ERR wrong number of arguments for 'echo' command")

-- An answer of the proxy's own that only an authenticated client gets.
abbrev guarded : Bool → Value → Value
guarded authed v = if not authed then err_no_auth else v

-- The first of two answers that there is.
abbrev pub or_no_auth : Option Value → Value
or_no_auth none = err_no_auth
or_no_auth (some v) = v

module _ {C W : Type 0} (b : Service C W) where
  hello : Argv → Client C → Value × Client C
  unfolding hello_auth
  hello argv s =
      if not s.session.authed && s.require_auth
      then (let (answer, after) = hello_auth argv s in (or_no_auth answer, after))
      else (hello_reply, s)

  reset : Client C → W → Client C × W
  unfolding reset_txn
  reset s w =
      let (cleared, after) = reset_txn b.backend s.session w in
      (record s { session = record cleared { db = 0; authed = not s.require_auth } }, after)

  -- No answer: the command goes on.
  unfoldable pub handle_local : Argv → Client C → W → Option Value × Client C × W
  unfolding name_of equal do_auth handle_cluster ping_reply echo_reply hello reset
  handle_local [] s w = (none, s, w)
  handle_local (a ∷ args) s w =
      let argv = a ∷ args in
      let name = name_of argv in
      let authed = s.session.authed in
      if equal name (codes "PING")
      then (some (guarded authed (ping_reply argv)), s, w)
      else if equal name (codes "ECHO")
      then (some (guarded authed (echo_reply argv)), s, w)
      else if equal name (codes "AUTH")
      then (let (v, after) = do_auth argv s in (some v, after, w))
      else if equal name (codes "QUIT")
      then (some ok_reply, record s { quit = true }, w)
      else if equal name (codes "CLUSTER")
      then (some (guarded authed (handle_cluster argv)), s, w)
      else if equal name (codes "COMMAND")
      then (none, s, w)
      else if equal name (codes "INFO")
      then (some (guarded authed (info_reply b.version)), s, w)
      else if equal name (codes "HELLO")
      then (let (v, after) = hello argv s in (some v, after, w))
      else if equal name (codes "RESET")
      then (let (after, last) = reset s w in (some ok_reply, after, last))
      else if s.require_auth && not authed
      then (some err_no_auth, s, w)
      else (none, s, w)
