-- ===== src/Examples/OnConfigs.antt =====
-- internal/config at concrete inputs.
use dragon_cluster_resp_prox.Base.{
  ◌≡◌, refl, arith, ℤ, if◌then◌else◌, equal, mem_name, [], ◌∷◌, Bytes, codes, Option, none, some,
  Result, ok, err,
}
use dragon_cluster_resp_prox.Config.{Config, defaults, validate, unix_socket_perm}
use dragon_cluster_resp_prox.Config.Valid.{IsValid}
use dragon_cluster_resp_prox.Config.Load.{FileConfig, load, trim_space, split_csv, apply_env}
use dragon_cluster_resp_prox.Config.Load.Checked.{load-IsValid}
use dragon_cluster_resp_prox.Config.Load.Lists.{IsItem, split_csv-join}

-- An environment with the seeds only, and no files.
abbrev one_variable : Bytes → Option Bytes
one_variable key = if equal key (codes "DCRP_CLUSTER_SEEDS") then some (codes "a:1, b:2") else none

abbrev no_duration : Bytes → Option ℤ
no_duration s = none

abbrev no_file : Bytes → Result Bytes Bytes
no_file path = err (codes "not found")

abbrev no_yaml : Bytes → Result Bytes FileConfig
no_yaml body = err (codes "no yaml")

abbrev two_seeds : Config
two_seeds = record defaults { cluster_seeds = codes "a:1" ∷ codes "b:2" ∷ [] }

load-two_seeds : load one_variable no_duration no_file no_yaml [] ≡ ok two_seeds
unfolding load equal validate apply_env defaults split_csv mem_name unix_socket_perm
load-two_seeds = refl

load-IsValid_example : IsValid two_seeds
load-IsValid_example =
    load-IsValid one_variable no_duration no_file no_yaml [] two_seeds load-two_seeds

first-IsItem : IsItem (codes "a:1")
unfolding trim_space
first-IsItem = (refl, ground (arith), (omega arith, (omega arith, (omega arith, tt))))

second-IsItem : IsItem (codes "b:2")
unfolding trim_space
second-IsItem = (refl, ground (arith), (omega arith, (omega arith, (omega arith, tt))))

split_csv-join_example : split_csv (codes "a:1,b:2") ≡ codes "a:1" ∷ codes "b:2" ∷ []
split_csv-join_example =
    split_csv-join (codes "a:1") (codes "b:2" ∷ []) first-IsItem (second-IsItem, tt)
