-- ===== src/Config/Load/Checked.antt =====
-- internal/config/load.go: what `Load` gives has passed `Validate`.
use dragon_cluster_resp_prox.Base.{◌≡◌, subst, arith, ℤ, Bytes, Option, Result, ok, >>=-eq-ok}
use dragon_cluster_resp_prox.Config.{Config, validate}
use dragon_cluster_resp_prox.Config.Valid.{IsValid, validate-IsValid}
use dragon_cluster_resp_prox.Config.Load.{
  FileConfig, checked, load, from_file, apply_env, config_path,
}

module _ (lookup_env : Bytes → Option Bytes) (parse_duration : Bytes → Option ℤ) where
  checked-eq :
      (c d : Config) → checked lookup_env parse_duration c ≡ ok d → (c ≡ d) × (validate c ≡ ok tt)
  unfolding checked
  checked-eq c d h = ground (arith)

  -- Whatever the environment, the files and the parsers give: a configuration that is loaded has a
  -- socket and seeds, a known flavor, limits of at least one connection, client, hop, database and
  -- command, a minimum of connections between zero and the maximum, timeouts above zero, and an octal
  -- mode.
  pub load-IsValid :
      (read_file : Bytes → Result Bytes Bytes) (unmarshal : Bytes → Result Bytes FileConfig)
      (path : Bytes) (c : Config)
      → load lookup_env parse_duration read_file unmarshal path ≡ ok c
      → IsValid c
  unfolding load
  load-IsValid read_file unmarshal path c h =
      let (before, _, e) =
        >>=-eq-ok
          (from_file lookup_env parse_duration read_file unmarshal
            (config_path lookup_env parse_duration read_file unmarshal path))
          (λ before. checked lookup_env parse_duration (apply_env lookup_env parse_duration before))
          h in
      let (same, valid) = checked-eq (apply_env lookup_env parse_duration before) c e in
      subst IsValid same (validate-IsValid (apply_env lookup_env parse_duration before) valid)
