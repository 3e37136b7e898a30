-- ===== src/Config/Load.antt =====
-- internal/config/load.go: a file over the defaults, and the environment over both. The environment,
-- the files, YAML and `time.ParseDuration` are parameters.
pub mod Checked
pub mod Lists
use dragon_cluster_resp_prox.Base.{
  ℕ, ◌+◌, ◌-◌, ℤ, pos, negsuc, ltb_ℤ, Bool, true, false, not, ◌&&◌, ◌||◌, List, [], ◌∷◌, ◌++◌, ◌==◌,
  ltb, leb, if◌then◌else◌, Bytes, codes, equal, mem_name, Option, none, some, Result, ok, err,
  ◌>>=◌,
}
use dragon_cluster_resp_prox.Resp.Decimal.{parse_int64}
use dragon_cluster_resp_prox.Cluster.Topology.{to_lower}
use dragon_cluster_resp_prox.Config.{StringMap, TlsConfig, Config, defaults, Invalid, validate}

-- A pointer that is nil is `none`.
pub record FileConfig : Type 0 where
  pub unix_socket : Bytes
  pub unix_socket_mode : Bytes
  pub cluster_seeds : List Bytes
  pub cluster_username : Bytes
  pub cluster_password : Bytes
  pub tls : TlsConfig
  pub backend_flavor : Bytes
  pub pool_min_per_node : Option ℤ
  pub pool_max_per_node : Option ℤ
  pub dial_timeout : ℤ
  pub read_timeout : ℤ
  pub write_timeout : ℤ
  pub reconnect_backoff_min : ℤ
  pub reconnect_backoff_max : ℤ
  pub topology_refresh : ℤ
  pub max_client_conns : Option ℤ
  pub blocking_max_wait : ℤ
  pub metrics_addr : Bytes
  pub log_level : Bytes
  pub pprof : Option Bool
  pub pprof_addr : Bytes
  pub shutdown_timeout : ℤ
  pub read_from_replicas : Option Bool
  pub client_auth_password : Bytes
  pub hash_tag_open : Bytes
  pub hash_tag_close : Bytes
  pub moved_hop_limit : Option ℤ
  pub address_map : StringMap
  pub max_databases : Option ℤ
  pub max_pipeline : Option ℤ

abbrev pub text_over : Bytes → Bytes → Bytes
text_over [] old = old
text_over (c ∷ s) old = c ∷ s

abbrev pub list_over {ℓ} : {A : Type ℓ} → List A → List A → List A
list_over [] old = old
list_over (x ∷ xs) old = x ∷ xs

abbrev pub pointer_over {ℓ} : {A : Type ℓ} → Option A → A → A
pointer_over none old = old
pointer_over (some v) old = v

abbrev pub positive_over : ℤ → ℤ → ℤ
positive_over v old = if ltb_ℤ (pos 0) v then v else old

-- `out[from] = to`
insert : Bytes → Bytes → StringMap → StringMap
insert k v [] = (k, v) ∷ []
insert k v (p ∷ m) = let rest = insert k v m in if equal p.0 k then (k, v) ∷ m else p ∷ rest

clone_map : StringMap → StringMap
unfolding insert
clone_map [] = []
clone_map (p ∷ m) = insert p.0 p.1 (clone_map m)

apply_tls : TlsConfig → TlsConfig → TlsConfig
apply_tls t f = record {
  enabled = t.enabled || f.enabled;
  ca_file = text_over f.ca_file t.ca_file;
  cert_file = text_over f.cert_file t.cert_file;
  key_file = text_over f.key_file t.key_file;
  insecure_skip_verify = t.insecure_skip_verify || f.insecure_skip_verify;
}

unfoldable pub apply_file : Config → FileConfig → Config
unfolding apply_tls clone_map
apply_file c f = record {
  unix_socket = text_over f.unix_socket c.unix_socket;
  unix_socket_mode = text_over f.unix_socket_mode c.unix_socket_mode;
  cluster_seeds = list_over f.cluster_seeds c.cluster_seeds;
  cluster_username = text_over f.cluster_username c.cluster_username;
  cluster_password = text_over f.cluster_password c.cluster_password;
  tls = apply_tls c.tls f.tls;
  backend_flavor = text_over f.backend_flavor c.backend_flavor;
  pool_min_per_node = pointer_over f.pool_min_per_node c.pool_min_per_node;
  pool_max_per_node = pointer_over f.pool_max_per_node c.pool_max_per_node;
  dial_timeout = positive_over f.dial_timeout c.dial_timeout;
  read_timeout = positive_over f.read_timeout c.read_timeout;
  write_timeout = positive_over f.write_timeout c.write_timeout;
  reconnect_backoff_min = positive_over f.reconnect_backoff_min c.reconnect_backoff_min;
  reconnect_backoff_max = positive_over f.reconnect_backoff_max c.reconnect_backoff_max;
  topology_refresh = positive_over f.topology_refresh c.topology_refresh;
  max_client_conns = pointer_over f.max_client_conns c.max_client_conns;
  blocking_max_wait = positive_over f.blocking_max_wait c.blocking_max_wait;
  metrics_addr = text_over f.metrics_addr c.metrics_addr;
  log_level = text_over f.log_level c.log_level;
  pprof = pointer_over f.pprof c.pprof;
  pprof_addr = text_over f.pprof_addr c.pprof_addr;
  shutdown_timeout = positive_over f.shutdown_timeout c.shutdown_timeout;
  read_from_replicas = pointer_over f.read_from_replicas c.read_from_replicas;
  client_auth_password = text_over f.client_auth_password c.client_auth_password;
  hash_tag_open = text_over f.hash_tag_open c.hash_tag_open;
  hash_tag_close = text_over f.hash_tag_close c.hash_tag_close;
  moved_hop_limit = pointer_over f.moved_hop_limit c.moved_hop_limit;
  address_map = list_over (clone_map f.address_map) c.address_map;
  max_databases = pointer_over f.max_databases c.max_databases;
  max_pipeline = pointer_over f.max_pipeline c.max_pipeline;
}

-- `strings.TrimSpace`, of the white space that is ASCII.
abbrev is_space : ℕ → Bool
is_space c = c == b' ' || (leb 9 c && leb c 13)

trim_left : Bytes → Bytes
trim_left [] = []
trim_left (c ∷ s) = let rest = trim_left s in if is_space c then rest else c ∷ s

abbrev keep : ℕ → Bytes → Bytes
keep c [] = if is_space c then [] else c ∷ []
keep c (d ∷ s) = c ∷ d ∷ s

trim_right : Bytes → Bytes
trim_right [] = []
trim_right (c ∷ s) = keep c (trim_right s)

unfoldable pub trim_space : Bytes → Bytes
unfolding trim_left trim_right
trim_space s = trim_right (trim_left s)

-- `strings.Split(v, ",")`: one part at least.
abbrev pub in_front : ℕ → List Bytes → List Bytes
in_front c [] = (c ∷ []) ∷ []
in_front c (p ∷ ps) = (c ∷ p) ∷ ps

split_commas : Bytes → List Bytes
split_commas [] = [] ∷ []
split_commas (c ∷ s) = let rest = split_commas s in if c == b',' then [] ∷ rest else in_front c rest

drop_empty : List Bytes → List Bytes
unfolding trim_space
drop_empty [] = []
drop_empty (p ∷ ps) =
    let rest = drop_empty ps in if equal (trim_space p) [] then rest else trim_space p ∷ rest

unfoldable pub split_csv : Bytes → List Bytes
unfolding split_commas drop_empty
split_csv v = drop_empty (split_commas v)

-- `strings.Cut(part, "=")`
cut : Bytes → Option (Bytes × Bytes)
cut [] = none
cut (c ∷ s) =
    let rest : Option (Bytes × Bytes) = elim (cut s) [
      | none ↦ none
      | some (a, b) ↦ some (c ∷ a, b)
    ] in
    if c == b'=' then some ([], s) else rest

add_mapping : Option (Bytes × Bytes) → StringMap → StringMap
unfolding insert
add_mapping none m = m
add_mapping (some (from, to)) m = if equal from [] || equal to [] then m else insert from to m

-- The parts from the first on, into the map so far.
mappings : List Bytes → StringMap → StringMap
unfolding cut add_mapping trim_space
mappings [] m = m
mappings (p ∷ ps) m = mappings ps (add_mapping (cut (trim_space p)) m)

unfoldable pub parse_address_map : Bytes → StringMap
unfolding split_commas mappings
parse_address_map v = mappings (split_commas v) []

unfoldable pub parse_bool : Bytes → Bool
unfolding to_lower trim_space
parse_bool v =
    mem_name (to_lower (trim_space v)) (codes "1" ∷ codes "true" ∷ codes "yes" ∷ codes "on" ∷ [])

module _ (lookup_env : Bytes → Option Bytes) (parse_duration : Bytes → Option ℤ) where
  -- A variable that is set and not empty.
  abbrev pub env_value : Bytes → Option Bytes
  env_value key = elim (lookup_env (codes "DCRP_" ++ key)) [
    | none ↦ none
    | some [] ↦ none
    | some (c ∷ s) ↦ some (c ∷ s)
  ]

  abbrev pub set_str : Bytes → Bytes → Bytes
  set_str key old = elim (env_value key) [ none ↦ old | some v ↦ v ]

  abbrev pub set_bool : Bytes → Bool → Bool
  set_bool key old = elim (env_value key) [ none ↦ old | some v ↦ parse_bool v ]

  abbrev pub set_int : Bytes → ℤ → ℤ
  set_int key old = elim (env_value key) [
    | none ↦ old
    | some v ↦ elim (parse_int64 v) [ none ↦ old | some n ↦ n ]
  ]

  abbrev pub set_dur : Bytes → ℤ → ℤ
  set_dur key old = elim (env_value key) [
    | none ↦ old
    | some v ↦ elim (parse_duration v) [ none ↦ old | some d ↦ d ]
  ]

  unfoldable pub apply_env : Config → Config
  apply_env c = record {
    unix_socket = set_str (codes "UNIX_SOCKET") c.unix_socket;
    unix_socket_mode = set_str (codes "UNIX_SOCKET_MODE") c.unix_socket_mode;
    cluster_seeds = elim (env_value (codes "CLUSTER_SEEDS")) [
      | none ↦ c.cluster_seeds
      | some v ↦ split_csv v
    ];
    cluster_username = set_str (codes "CLUSTER_USERNAME") c.cluster_username;
    cluster_password = set_str (codes "CLUSTER_PASSWORD") c.cluster_password;
    tls = record {
      enabled = set_bool (codes "TLS_ENABLED") c.tls.enabled;
      ca_file = set_str (codes "TLS_CA_FILE") c.tls.ca_file;
      cert_file = set_str (codes "TLS_CERT_FILE") c.tls.cert_file;
      key_file = set_str (codes "TLS_KEY_FILE") c.tls.key_file;
      insecure_skip_verify = set_bool (codes "TLS_INSECURE_SKIP_VERIFY") c.tls.insecure_skip_verify;
    };
    backend_flavor = set_str (codes "BACKEND_FLAVOR") c.backend_flavor;
    pool_min_per_node = set_int (codes "POOL_MIN_PER_NODE") c.pool_min_per_node;
    pool_max_per_node = set_int (codes "POOL_MAX_PER_NODE") c.pool_max_per_node;
    dial_timeout = set_dur (codes "DIAL_TIMEOUT") c.dial_timeout;
    read_timeout = set_dur (codes "READ_TIMEOUT") c.read_timeout;
    write_timeout = set_dur (codes "WRITE_TIMEOUT") c.write_timeout;
    reconnect_backoff_min = set_dur (codes "RECONNECT_BACKOFF_MIN") c.reconnect_backoff_min;
    reconnect_backoff_max = set_dur (codes "RECONNECT_BACKOFF_MAX") c.reconnect_backoff_max;
    topology_refresh = set_dur (codes "TOPOLOGY_REFRESH") c.topology_refresh;
    max_client_conns = set_int (codes "MAX_CLIENT_CONNS") c.max_client_conns;
    blocking_max_wait = set_dur (codes "BLOCKING_MAX_WAIT") c.blocking_max_wait;
    metrics_addr = set_str (codes "METRICS_ADDR") c.metrics_addr;
    log_level = set_str (codes "LOG_LEVEL") c.log_level;
    pprof = set_bool (codes "PPROF") c.pprof;
    pprof_addr = set_str (codes "PPROF_ADDR") c.pprof_addr;
    shutdown_timeout = set_dur (codes "SHUTDOWN_TIMEOUT") c.shutdown_timeout;
    read_from_replicas = set_bool (codes "READ_FROM_REPLICAS") c.read_from_replicas;
    client_auth_password = set_str (codes "CLIENT_AUTH_PASSWORD") c.client_auth_password;
    hash_tag_open = set_str (codes "HASH_TAG_OPEN") c.hash_tag_open;
    hash_tag_close = set_str (codes "HASH_TAG_CLOSE") c.hash_tag_close;
    moved_hop_limit = set_int (codes "MOVED_HOP_LIMIT") c.moved_hop_limit;
    address_map = elim (env_value (codes "ADDRESS_MAP")) [
      | none ↦ c.address_map
      | some v ↦ parse_address_map v
    ];
    max_databases = set_int (codes "MAX_DATABASES") c.max_databases;
    max_pipeline = set_int (codes "MAX_PIPELINE") c.max_pipeline;
  }

  pub data LoadError : Type 0 where
    reading parsing : Bytes → Bytes → LoadError
    invalid : Invalid → LoadError

  checked : Config → Result LoadError Config
  checked c = elim (validate c) [ err e ↦ err (invalid e) | ok _ ↦ ok c ]

  module _ (read_file : Bytes → Result Bytes Bytes)
      (unmarshal : Bytes → Result Bytes FileConfig) where
    from_file : Bytes → Result LoadError Config
    unfolding apply_file
    from_file [] = ok defaults
    from_file (p ∷ path) = elim (read_file (p ∷ path)) [
      | err e ↦ err (reading (p ∷ path) e)
      | ok body ↦ elim (unmarshal body) [
        | err e ↦ err (parsing (p ∷ path) e)
        | ok f ↦ ok (apply_file defaults f)
      ]
    ]

    -- `os.Getenv` gives an empty text for a variable that is not set.
    abbrev config_path : Bytes → Bytes
    config_path [] = elim (lookup_env (codes "DCRP_CONFIG")) [ none ↦ [] | some v ↦ v ]
    config_path (c ∷ path) = c ∷ path

    unfoldable pub load : Bytes → Result LoadError Config
    unfolding from_file checked
    load path = from_file (config_path path) >>= λ c. checked (apply_env c)
