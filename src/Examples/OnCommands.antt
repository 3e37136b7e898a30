-- ===== src/Examples/OnCommands.antt =====
-- internal/command at concrete inputs.
use dragon_cluster_resp_prox.Base.{
  count_of, ℕ, ◌^◌, ◌≡◌, ◌-◌, refl, inl, arith, List, [], ◌∷◌, map, if◌then◌else◌, ltb, Bytes,
  codes, mem_name, Slice, nil, buf, content, Argv, some, get_or, length, ok, err, panic, All,
}
use dragon_cluster_resp_prox.Resp.Decimal.{parse_int64}
use dragon_cluster_resp_prox.Command.Positions.Bounds.{InRange}
use dragon_cluster_resp_prox.Command.Table.{lookup}
use dragon_cluster_resp_prox.Command.Positions.{natural}
use dragon_cluster_resp_prox.Command.Keys.{key_indexes, table_idx, name_of, extract_keys}
use dragon_cluster_resp_prox.Command.Keys.InRange.{
  picked, extract_keys-key_indexes, key_indexes-panic,
}
use dragon_cluster_resp_prox.Command.Database.{prefix_key, strip_key}
use dragon_cluster_resp_prox.Command.Database.Prefixes.{strip_key-prefix_key, prefix_key_injective}
use dragon_cluster_resp_prox.Command.Fanout.{group_by_slot}
use dragon_cluster_resp_prox.Command.Fanout.Groups.{
  positions, HasSlot, Distinct, group_by_slot_partition,
}

abbrev args : List Bytes → Argv
args = map buf

abbrev mget : Argv
mget = args (codes "MGET" ∷ codes "a" ∷ codes "b" ∷ [])

key_indexes-mget : key_indexes mget ≡ ok (1 ∷ 2 ∷ [])
unfolding key_indexes table_idx lookup mem_name
key_indexes-mget = refl

extract_keys-key_indexes_example :
    All (InRange 3) (1 ∷ 2 ∷ [])
    × ((keys : Argv) × (extract_keys mget ≡ ok keys) × (map some keys ≡ picked mget (1 ∷ 2 ∷ [])))
extract_keys-key_indexes_example = extract_keys-key_indexes mget key_indexes-mget

natural-largest : natural (codes "9223372036854775807") ≡ some (2 ^ 63 - 1)
unfolding natural parse_int64
natural-largest = refl

key_indexes-panic_example :
    key_indexes (args (codes "LMPOP" ∷ codes "9223372036854775807" ∷ codes "a" ∷ [])) ≡ err panic
unfolding name_of
key_indexes-panic_example =
    key_indexes-panic (buf (codes "LMPOP")) (buf (codes "9223372036854775807")) (buf (codes "a")) []
      (2 ^ 63 - 1) (inl refl) natural-largest (omega arith) (omega arith)

strip_key-prefix_key_example :
    content (strip_key 3 (prefix_key 3 (buf (codes "db4:k")))) ≡ codes "db4:k"
strip_key-prefix_key_example = strip_key-prefix_key 3 (buf (codes "db4:k"))

abbrev twelve : ℕ
twelve = 12

prefix_key_injective_example : (twelve ≡ twelve) × (codes "k" ≡ codes "k")
prefix_key_injective_example =
    prefix_key_injective 12 12 (buf (codes "k")) (buf (codes "k")) (omega arith) (omega arith) refl

-- Keys are spread over two slots by their length.
abbrev slot_fn : Slice → ℕ
slot_fn k = length (content k)

abbrev three_keys : Argv
three_keys = args (codes "a" ∷ codes "bb" ∷ codes "c" ∷ [])

group_by_slot_partition_example :
    ((j : ℕ)
      → count_of j (positions (group_by_slot three_keys slot_fn)) ≡ (if ltb j 3 then 1 else 0))
    × All (HasSlot (λ i. slot_fn (get_or three_keys i nil))) (group_by_slot three_keys slot_fn)
    × Distinct (group_by_slot three_keys slot_fn)
group_by_slot_partition_example = group_by_slot_partition slot_fn three_keys
