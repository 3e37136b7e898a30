-- ===== src/Proxy/Service.antt =====
-- internal/proxy/session.go: the fields of a session, and what it asks of the router, the pools and the
-- subscriptions.
use dragon_cluster_resp_prox.Base.{
  ℕ, ℤ, Bool, false, not, ◌||◌, Bytes, codes, equal, Argv, Option, none, Result, Go, List, [],
  if◌then◌else◌,
}
use dragon_cluster_resp_prox.Resp.Value.{Value, error, equal_kind}
use dragon_cluster_resp_prox.Cluster.Topology.{Flavor}
use dragon_cluster_resp_prox.Proxy.Transaction.{Backend, Session}

-- A request gives the text of an error, or the reply. `node_addr` is `NodeForSlot`, or else any
-- master, and `subscribe` a command of a subscribed session.
pub record Service (C W : Type 0) : Type 0 where
  pub backend : Backend C W
  pub version : Bytes
  pub read_timeout : ℤ
  pub blocking_max_wait : ℤ
  pub max_pipeline : ℤ
  pub exec : ℕ → Argv → Bool → ℤ → W → Go (Result Bytes Value × W)
  pub exec_raw : ℕ → Bytes → Bool → ℤ → W → Go (Result Bytes Value × W)
  pub update_slot : ℕ → Bytes → W → Go W
  pub node_addr : ℕ → W → Option Bytes
  pub master_addrs : W → List Bytes
  pub flavor : W → Flavor
  pub checkout_addr : Bytes → W → Result Bytes C × W
  pub do_waiting : C → Argv → ℤ → W → Go (Result Bytes Value × W)
  pub write_frames : C → Bytes → W → Option Bytes × W
  pub subscribe : Argv → W → Result Bytes (List Value) × W

-- A session: the part that transactions change, and the rest of its fields.
pub record Client (C : Type 0) : Type 0 where
  pub session : Session C
  pub require_auth : Bool
  pub client_pass : Bytes
  pub quit : Bool
  pub subscribed : Bool

abbrev pub err_no_auth : Value
err_no_auth = error (codes "NOAUTH Authentication required.")

abbrev pub redirect_exhausted : Value
redirect_exhausted = error (codes "ERR backend redirect exhausted")

-- A redirect that is left is not shown to the client.
unfoldable pub is_redirect : Value → Bool
unfolding equal_kind
is_redirect v = equal_kind v (codes "MOVED") || equal_kind v (codes "ASK")

abbrev pub without_redirect : Value → Value
without_redirect v = if is_redirect v then redirect_exhausted else v

-- A new session: without a password nothing is required.
unfoldable pub new_session : {C : Type 0} → Bytes → Client C
unfolding equal
new_session password = record {
  session = record {
    authed = equal password [];
    db = 0;
    multi = false;
    queued = [];
    watched = [];
    pin = none;
    pin_gen = 0;
  };
  require_auth = not (equal password []);
  client_pass = password;
  quit = false;
  subscribed = false;
}
