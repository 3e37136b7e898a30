-- ===== src/Cluster/Slot.antt =====
-- internal/cluster/slot.go: hash tags, key slots, redirect errors and addresses.
pub mod HashTag
pub mod Redirects
use dragon_cluster_resp_prox.Base.{
  ℕ, zero, suc, ◌+◌, ◌-◌, ◌*◌, ◌%◌, ◌≡◌, Bool, true, false, not, ◌&&◌, ◌||◌, [], ◌∷◌, ◌==◌, ltb,
  leb, if◌then◌else◌, Bytes, codes, equal, is_digit, Option, none, some, length, take, drop,
}
use dragon_cluster_resp_prox.Resp.Value.{index_byte}
use dragon_cluster_resp_prox.Cluster.Crc16.{slot_count, crc16}

-- `key[start+1:i]` for the first closing delimiter at `i`; an empty tag does not count.
tag_of : Bytes → Bytes → Option ℕ → Bytes
tag_of key rest none = key
tag_of key rest (some zero) = key
tag_of key rest (some (suc i)) = take (suc i) rest

unfoldable pub hash_tag : Bytes → ℕ → ℕ → Bytes
unfolding index_byte tag_of
hash_tag key open_byte close_byte = elim (index_byte key open_byte) [
  | none ↦ key
  | some start ↦ let rest = drop (suc start) key in tag_of key rest (index_byte rest close_byte)
]

unfoldable pub key_slot : Bytes → ℕ → ℕ → ℕ
key_slot key open_byte close_byte = crc16 (hash_tag key open_byte close_byte) % slot_count

pub record Redirect : Type 0 where
  pub kind : Bytes
  pub slot : ℕ
  pub addr : Bytes

abbrev pub moved : Bytes
moved = codes "MOVED"

abbrev pub ask : Bytes
ask = codes "ASK"

-- The loop over the digits, behind a value of `n`.
atoi16_from : ℕ → Bytes → Option ℕ
atoi16_from n [] = some n
atoi16_from n (c ∷ b) =
    let next = n * 10 + (c - b'0') in
    let rest = atoi16_from next b in
    if ltb c b'0' || ltb b'9' c then none else if leb slot_count next then none else rest

unfoldable pub atoi16 : Bytes → Option ℕ
unfolding atoi16_from
atoi16 [] = none
atoi16 (c ∷ b) = atoi16_from 0 (c ∷ b)

-- `payload[:i]` and `payload[i+1:]` around the first space; it must not be the first byte.
unfoldable pub token : Bytes → Option (Bytes × Bytes)
unfolding index_byte
token payload = elim (index_byte payload b' ') [
  | none ↦ none
  | some i ↦ if i == 0 then none else some (take i payload, drop (suc i) payload)
]

redirect_to : Bytes → Bytes → Bytes → Option Redirect
redirect_to kind digits [] = none
redirect_to kind digits (c ∷ addr) = elim (atoi16 digits) [
  | none ↦ none
  | some slot ↦
      if leb slot_count slot
      then none
      else some (record { kind = kind; slot = slot; addr = c ∷ addr })
]

unfoldable pub parse_redirect : Bytes → Option Redirect
unfolding redirect_to equal
parse_redirect payload = elim (token payload) [
  | none ↦ none
  | some (kind, rest) ↦
      if not (equal kind moved) && not (equal kind ask)
      then none
      else elim (token rest) [ none ↦ none | some (digits, addr) ↦ redirect_to kind digits addr ]
]

-- `lastColon`
unfoldable pub last_colon : Bytes → Option ℕ
last_colon [] = none
last_colon (c ∷ s) = elim (last_colon s) [
  | some i ↦ some (suc i)
  | none ↦ if c == b':' then some 0 else none
]

unfoldable pub split_host_port : Bytes → Option (Bytes × Bytes)
unfolding last_colon
split_host_port addr = elim (last_colon addr) [
  | none ↦ none
  | some i ↦ if i == 0 || suc i == length addr then none else some (take i addr, drop (suc i) addr)
]
