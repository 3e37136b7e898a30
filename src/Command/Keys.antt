-- ===== src/Command/Keys.antt =====
-- internal/command/command.go: `KeyIndexes` and `ExtractKeys`.
pub mod InRange
use dragon_cluster_resp_prox.Base.{
  ℕ, zero, suc, ◌+◌, ◌-◌, ◌*◌, ◌/◌, ◌%◌, ◌^◌, ℤ, pos, negsuc, Bool, true, false, not, ◌&&◌, ◌||◌,
  List, [], ◌∷◌, ◌++◌, map, ◌==◌, ltb, leb, if◌then◌else◌, Bytes, codes, String, Slice, nil,
  content, Argv, Option, none, some, length, drop, get_or, get_elem?, equal, mem_name, Go, ok, err,
  panic, ◌>>=◌,
}
use dragon_cluster_resp_prox.Resp.Ascii.{upper, equal_fold}
use dragon_cluster_resp_prox.Resp.Decimal.{parse_int64}
use dragon_cluster_resp_prox.Resp.Reader.{signed64}
use dragon_cluster_resp_prox.Command.Table.{Meta, lookup}
use dragon_cluster_resp_prox.Command.Positions.{
  span, indexes_by_spec, eval_key_idx, xread_key_idx, migrate_key_idx, numkeys_idx,
  dest_numkeys_idx, scan_match_idx, sort_key_idx, store_option_idx, arg,
}

-- `string(name)` of the command: its first argument in upper case.
unfoldable pub name_of : Argv → Bytes
unfolding upper
name_of [] = []
name_of (a ∷ _) = upper (content a)

unfoldable pub table_idx : Argv → Option Meta → List ℕ
unfolding indexes_by_spec
table_idx argv none = []
table_idx argv (some m) = indexes_by_spec argv m.keys

-- The switch of `KeyIndexes` on the command's name.
unfoldable pub named_idx : Bytes → Argv → Go (List ℕ)
named_idx name argv =
    if mem_name name (codes "EVAL" ∷ codes "EVALSHA" ∷ codes "EVAL_RO" ∷ codes "EVALSHA_RO" ∷ [])
    then ok (eval_key_idx argv)
    else if mem_name name (codes "XREAD" ∷ codes "XREADGROUP" ∷ [])
    then ok (xread_key_idx argv)
    else if mem_name name (codes "MIGRATE" ∷ [])
    then ok (migrate_key_idx argv)
    else if mem_name name (codes "LMPOP" ∷ codes "ZMPOP" ∷ codes "SINTERCARD" ∷ [])
    then numkeys_idx argv 1
    else if mem_name name (codes "BLMPOP" ∷ codes "BZMPOP" ∷ [])
    then numkeys_idx argv 2
    else if mem_name name (codes "ZUNIONSTORE" ∷ codes "ZINTERSTORE" ∷ codes "ZDIFFSTORE" ∷ [])
    then dest_numkeys_idx argv
    else if mem_name name (codes "ZUNION" ∷ codes "ZINTER" ∷ codes "ZDIFF" ∷ [])
    then numkeys_idx argv 1
    else if mem_name name (codes "MEMORY" ∷ [])
    then ok (if leb 3 (length argv) && equal_fold (arg argv 1) (codes "USAGE") then 2 ∷ [] else [])
    else if mem_name name (codes "KEYS" ∷ [])
    then ok (if leb 2 (length argv) then 1 ∷ [] else [])
    else if mem_name name (codes "SCAN" ∷ [])
    then ok (scan_match_idx argv)
    else if mem_name name (codes "SORT" ∷ [])
    then ok (sort_key_idx argv)
    else if mem_name name (codes "GEORADIUS" ∷ codes "GEORADIUSBYMEMBER" ∷ [])
    then ok (table_idx argv (lookup name) ++ store_option_idx argv)
    else ok (table_idx argv (lookup name))

unfoldable pub key_indexes : Argv → Go (List ℕ)
unfolding named_idx name_of
key_indexes [] = ok []
key_indexes (a ∷ argv) = named_idx (name_of (a ∷ argv)) (a ∷ argv)

-- `argv[j]` for each index; an index out of range is a panic.
unfoldable pub select : Argv → List ℕ → Go Argv
select argv [] = ok []
select argv (j ∷ idx) = elim (get_elem? argv j) [
  | none ↦ err panic
  | some a ↦ select argv idx >>= λ rest. ok (a ∷ rest)
]

unfoldable pub extract_keys : Argv → Go Argv
unfolding key_indexes select
extract_keys argv = key_indexes argv >>= select argv
