-- ===== src/Config.antt =====
-- internal/config: the configuration, its defaults, and what is checked of it. A `time.Duration` is its
-- number of nanoseconds, a `map[string]string` a list of pairs.
pub mod Load
pub mod Valid
use dragon_cluster_resp_prox.Base.{
  ℕ, zero, suc, ◌+◌, ◌-◌, ◌*◌, ◌^◌, ◌%◌, ℤ, pos, negsuc, ltb_ℤ, Bool, true, false, not, ◌&&◌, ◌||◌,
  List, [], ◌∷◌, ◌==◌, ltb, leb, if◌then◌else◌, Bytes, codes, equal, mem_name, Option, none, some,
  Result, ok, err, ◌>>=◌,
}
use dragon_cluster_resp_prox.Cluster.Topology.{to_lower}

abbrev pub StringMap : Type 0
StringMap = List (Bytes × Bytes)

pub record TlsConfig : Type 0 where
  pub enabled : Bool
  pub ca_file : Bytes
  pub cert_file : Bytes
  pub key_file : Bytes
  pub insecure_skip_verify : Bool

pub record Config : Type 0 where
  pub unix_socket : Bytes
  pub unix_socket_mode : Bytes
  pub cluster_seeds : List Bytes
  pub cluster_username : Bytes
  pub cluster_password : Bytes
  pub tls : TlsConfig
  pub backend_flavor : Bytes
  pub pool_min_per_node : ℤ
  pub pool_max_per_node : ℤ
  pub dial_timeout : ℤ
  pub read_timeout : ℤ
  pub write_timeout : ℤ
  pub reconnect_backoff_min : ℤ
  pub reconnect_backoff_max : ℤ
  pub topology_refresh : ℤ
  pub max_client_conns : ℤ
  pub blocking_max_wait : ℤ
  pub metrics_addr : Bytes
  pub log_level : Bytes
  pub pprof : Bool
  pub pprof_addr : Bytes
  pub shutdown_timeout : ℤ
  pub read_from_replicas : Bool
  pub client_auth_password : Bytes
  pub hash_tag_open : Bytes
  pub hash_tag_close : Bytes
  pub moved_hop_limit : ℤ
  pub address_map : StringMap
  pub max_databases : ℤ
  pub max_pipeline : ℤ

abbrev milliseconds : ℕ → ℤ
milliseconds n = pos (n * 1_000_000)

abbrev seconds : ℕ → ℤ
seconds n = pos (n * 1_000_000_000)

unfoldable pub defaults : Config
defaults = record {
  unix_socket = codes "/tmp/dragon-cluster-resp-proxy.sock";
  unix_socket_mode = codes "0770";
  cluster_seeds = [];
  cluster_username = [];
  cluster_password = [];
  tls = record {
    enabled = false;
    ca_file = [];
    cert_file = [];
    key_file = [];
    insecure_skip_verify = false;
  };
  backend_flavor = codes "auto";
  pool_min_per_node = pos 2;
  pool_max_per_node = pos 64;
  dial_timeout = seconds 3;
  read_timeout = seconds 30;
  write_timeout = seconds 5;
  reconnect_backoff_min = milliseconds 50;
  reconnect_backoff_max = seconds 2;
  topology_refresh = seconds 10;
  max_client_conns = pos 10000;
  blocking_max_wait = seconds 60;
  metrics_addr = codes ":9090";
  log_level = codes "info";
  pprof = false;
  pprof_addr = codes "127.0.0.1:6060";
  shutdown_timeout = seconds 15;
  read_from_replicas = false;
  client_auth_password = [];
  hash_tag_open = codes "{";
  hash_tag_close = codes "}";
  moved_hop_limit = pos 5;
  address_map = [];
  max_databases = pos 16;
  max_pipeline = pos 128;
}

-- `strconv.ParseUint` at base 8 and 32 bits, behind a value of `n`.
octal_from : Bytes → ℕ → Option ℕ
octal_from [] n = some n
octal_from (c ∷ s) n =
    let next = n * 8 + (c - b'0') in
    let rest = octal_from s next in
    if leb b'0' c && leb c b'7' && ltb next (2 ^ 32) then rest else none

unfoldable pub unix_socket_perm : Config → Option ℕ
unfolding octal_from
unix_socket_perm c = elim c.unix_socket_mode [ [] ↦ none | d ∷ s ↦ octal_from (d ∷ s) 0 ]

-- The first byte of a text, if it has one.
abbrev first_byte : Bytes → ℕ → ℕ
first_byte [] d = d
first_byte (c ∷ _) d = c

unfoldable pub hash_tag_runes : Config → ℕ × ℕ
hash_tag_runes c = (first_byte c.hash_tag_open b'{', first_byte c.hash_tag_close b'}')

-- The errors of `Validate`, in the order of its tests.
pub data Invalid : Type 0 where
  unix_socket_required cluster_seeds_required backend_flavor_unknown : Invalid
  pool_max_too_small pool_min_out_of_range max_client_conns_too_small : Invalid
  moved_hop_limit_too_small max_databases_too_small max_pipeline_too_small : Invalid
  timeout_not_positive unix_socket_mode_not_octal : Invalid

abbrev below_one : ℤ → Bool
below_one z = ltb_ℤ z (pos 1)

abbrev no_seeds : List Bytes → Bool
no_seeds [] = true
no_seeds _ = false

abbrev is_none : Option ℕ → Bool
is_none none = true
is_none (some _) = false

unfoldable pub validate : Config → Result Invalid (Unit {0})
unfolding to_lower
validate c =
    if equal c.unix_socket []
    then err unix_socket_required
    else if no_seeds c.cluster_seeds
    then err cluster_seeds_required
    else if not (
        mem_name (to_lower c.backend_flavor)
          (codes "auto" ∷ codes "dragonfly" ∷ codes "redis" ∷ []))
    then err backend_flavor_unknown
    else if below_one c.pool_max_per_node
    then err pool_max_too_small
    else if ltb_ℤ c.pool_min_per_node (pos 0) || ltb_ℤ c.pool_max_per_node c.pool_min_per_node
    then err pool_min_out_of_range
    else if below_one c.max_client_conns
    then err max_client_conns_too_small
    else if below_one c.moved_hop_limit
    then err moved_hop_limit_too_small
    else if below_one c.max_databases
    then err max_databases_too_small
    else if below_one c.max_pipeline
    then err max_pipeline_too_small
    else if below_one c.dial_timeout || below_one c.read_timeout || below_one c.write_timeout
    then err timeout_not_positive
    else if is_none (unix_socket_perm c)
    then err unix_socket_mode_not_octal
    else ok tt
