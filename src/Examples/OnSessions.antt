-- ===== src/Examples/OnSessions.antt =====
-- internal/proxy: the dispatch, the pipeline and the wiring at concrete inputs.
use dragon_cluster_resp_prox.Base.{
  ℕ, ◌≡◌, refl, Argv, Slice, ap, ◌∙◌, ◌++◌, length, All, Result, err, arith, pos, true, false, List,
  [], ◌∷◌, map, Bytes, codes, equal, mem_name, buf, none, some, ok, ◌↔◌, Returns,
}
use dragon_cluster_resp_prox.Resp.Value.{Value, integer, simple_string, array, bulk_string}
use dragon_cluster_resp_prox.Command.Table.{Fanout}
use dragon_cluster_resp_prox.Command.Keys.{name_of}
use dragon_cluster_resp_prox.Proxy.Fanout.Whole.{NodeValues}
use dragon_cluster_resp_prox.Cluster.Topology.{Flavor}
use dragon_cluster_resp_prox.Proxy.Service.{Service, Client, new_session, err_no_auth}
use dragon_cluster_resp_prox.Proxy.Local.{handle_local}
use dragon_cluster_resp_prox.Proxy.Local.Auth.{Gives, handle_local-Gives}
use dragon_cluster_resp_prox.Proxy.Dispatch.{handle, do_blocking}
use dragon_cluster_resp_prox.Proxy.Dispatch.Guarded.{Locked, open_commands, handle-Locked}
use dragon_cluster_resp_prox.Proxy.Pipeline.{PipeItem, local, request, names_redirect}
use dragon_cluster_resp_prox.Proxy.Pipeline.Nodes.{joined, Nodes}
use dragon_cluster_resp_prox.Proxy.Wiring.{Wire, service_of}
use dragon_cluster_resp_prox.Proxy.Wiring.Blocking.{Holding, do_blocking-Holding}
use dragon_cluster_resp_prox.Examples.OnTransactions.{always_one}
use dragon_cluster_resp_prox.Examples.OnRouters.{
  Counts, two_nodes, counts, seeded, unknown_cluster, nothing_yet,
}

abbrev one : Value
one = integer (pos 1)

-- A cluster whose only node answers everything with 1.
abbrev ones : Service ℕ ℕ
ones = record {
  backend = always_one;
  version = codes "dev";
  read_timeout = pos 1;
  blocking_max_wait = pos 1;
  max_pipeline = pos 128;
  exec = λ slot args read timeout w. ok (ok one, w);
  exec_raw = λ slot bytes read timeout w. ok (ok one, w);
  update_slot = λ slot addr w. ok w;
  node_addr = λ slot w. some (codes "a:1");
  master_addrs = λ w. codes "a:1" ∷ [];
  flavor = λ w. Flavor.redis;
  checkout_addr = λ addr w. (ok 0, w);
  do_waiting = λ c args timeout w. ok (ok one, w);
  write_frames = λ c bytes w. (none, w);
  subscribe = λ args w. (ok [], w);
}

abbrev password : Bytes
password = codes "secret"

abbrev stranger : Client ℕ
stranger = new_session password

stranger-Locked : Locked stranger
unfolding new_session equal
stranger-Locked = record { required = refl; unknown = refl; plain = refl }

flush_all_guarded : mem_name (name_of (buf (codes "flushall") ∷ [])) open_commands ≡ false
unfolding mem_name name_of
flush_all_guarded = refl

handle-Locked_example :
    handle ones 10 (buf (codes "flushall") ∷ []) [] stranger 5
    ≡ ok (some (err_no_auth ∷ [], stranger, 5))
handle-Locked_example =
    handle-Locked ones 10 (buf (codes "flushall")) [] [] stranger 5 stranger-Locked
      flush_all_guarded

handle_local-Gives_example :
    ((handle_local ones (buf (codes "AUTH") ∷ buf password ∷ []) stranger 5).1.session.authed
      ≡ true)
    ↔ Gives (buf (codes "AUTH")) (buf password ∷ []) stranger.client_pass
handle_local-Gives_example =
    handle_local-Gives ones (buf (codes "AUTH")) (buf password ∷ []) stranger 5
      stranger-Locked.required stranger-Locked.unknown

abbrev no_wire : Wire Bytes Counts
no_wire = record {
  write_raw = λ c args w. (none, w);
  write_frames = λ c bytes w. (none, w);
  read = λ c w. ok (ok one, w);
  subscribe = λ args w. (ok [], w);
}

do_blocking-Holding_example : Returns (Holding two_nodes counts no_wire seeded (codes "dev") 0) (
    do_blocking
      (service_of two_nodes no_wire seeded (codes "dev"))
      1
      (buf (codes "BLPOP") ∷ [])
      (pos 0)
      (unknown_cluster, nothing_yet))
do_blocking-Holding_example =
    do_blocking-Holding two_nodes counts no_wire seeded (codes "dev") 1 (buf (codes "BLPOP") ∷ [])
      (pos 0) unknown_cluster nothing_yet tt

abbrev arguments : Argv → Argv
arguments [] = []
arguments (name ∷ args) = args

-- A cluster where the value of each key is its name.
abbrev names_as_values : Service ℕ ℕ
names_as_values = record ones {
  exec = λ slot args read timeout w. ok (ok (array (map bulk_string (arguments args))), w);
}

abbrev mget_two : Argv
mget_two = buf (codes "MGET") ∷ buf (codes "a") ∷ buf (codes "b") ∷ []

abbrev mget_name : Slice
mget_name = buf (codes "MGET")

abbrev named_values : NodeValues names_as_values mget_name
named_values = record {
  Ready = λ w. Unit;
  value_of = bulk_string;
  mget = λ slot k ks read w same up. (w, refl, tt);
}

-- A node that reads commands of one byte and replies with the byte; the state is what it has to send.
abbrev echo : ℕ → Value
echo x = bulk_string (buf (x ∷ []))

abbrev next_reply : List Value → Result Bytes Value × List Value
next_reply [] = (err [], [])
next_reply (v ∷ vs) = (ok v, vs)

abbrev echoes : Service ℕ (List Value)
echoes = record {
  backend = record {
    delimiters = always_one.delimiters;
    max_databases = pos 16;
    generation = λ w. 1;
    checkout = λ slot w. (ok 0, w);
    put = λ c w. w;
    drop_conn = λ c w. w;
    write_raw = λ c argv w. (none, w);
    read = λ c w. ok (next_reply w);
    do_argv = λ c argv w. ok (ok one, w);
  };
  version = codes "dev";
  read_timeout = pos 1;
  blocking_max_wait = pos 1;
  max_pipeline = pos 10;
  exec = λ slot args read timeout w. ok (ok one, w);
  exec_raw = λ slot bytes read timeout w. ok (ok one, w);
  update_slot = λ slot addr w. ok w;
  node_addr = λ slot w. some (codes "a:1");
  master_addrs = λ w. [];
  flavor = λ w. Flavor.redis;
  checkout_addr = λ addr w. (ok 0, w);
  do_waiting = λ c args timeout w. ok (ok one, w);
  write_frames = λ c bytes w. (none, w ++ map echo bytes);
  subscribe = λ args w. (ok [], w);
}

abbrev first_byte_of : Bytes → Value
first_byte_of [] = one
first_byte_of (x ∷ f) = echo x

joined_bytes :
    (fs : List Bytes)
    → All (λ (f : Bytes). length f ≡ 1) fs
    → map echo (joined fs) ≡ map first_byte_of fs
joined_bytes [] h = refl
joined_bytes ([] ∷ fs) h = absurd (omega (arith, h.0))
joined_bytes ((x ∷ []) ∷ fs) h = ap (λ vs. echo x ∷ vs) (joined_bytes fs h.1)
joined_bytes ((x ∷ y ∷ f) ∷ fs) h = absurd (omega (arith, h.0))

echo_no_redirect : (f : Bytes) → names_redirect (first_byte_of f) ≡ false
echo_no_redirect [] = refl
echo_no_redirect (x ∷ f) = refl

abbrev echo_nodes : Nodes echoes
echo_nodes = record {
  Ready = λ w. w ≡ [];
  Pending = λ a c vs w. w ≡ vs;
  IsCommand = λ f. length f ≡ 1;
  answer = λ a f. first_byte_of f;
  no_redirect = λ a f. echo_no_redirect f;
  checks_out = λ a w up. (0, w, refl, up);
  writes = λ a c fs w h idle. (
    w ++ map echo (joined fs),
    refl,
    ap (λ x. x ++ map echo (joined fs)) idle ∙ joined_bytes fs h,
  );
  delivers = λ a c v vs w h. (vs, ap (λ x. ok (next_reply x)) h, refl);
  puts = λ a c w h. h;
}

abbrev byte_to : Bytes → ℕ → PipeItem
byte_to addr x = request (record { slot = 1; addr = addr; frame = x ∷ []; argv = []; read = true })

abbrev four_items : List PipeItem
four_items =
    byte_to (codes "a:1") 1
    ∷ local (simple_string (codes "PONG"))
    ∷ byte_to (codes "b:2") 2
    ∷ byte_to (codes "a:1") 3
    ∷ []

abbrev four_names : List Bytes
four_names = codes "GET" ∷ codes "PING" ∷ codes "GET" ∷ codes "GET" ∷ []
