-- ===== src/Command/Fanout.antt =====
-- internal/command/fanout.go: a command whose keys live in several slots, as one command for each
-- slot, and the merging of their replies.
pub mod Groups
pub mod Merge
pub mod Rebuilt
use dragon_cluster_resp_prox.Base.{
  ℕ, zero, suc, ◌+◌, ◌-◌, ◌%◌, ◌^◌, ℤ, pos, negsuc, Bool, true, false, not, ◌&&◌, ◌||◌, List, [],
  ◌∷◌, ◌++◌, map, ◌==◌, ltb, leb, if◌then◌else◌, Bytes, codes, Slice, nil, buf, content, Argv,
  Option, none, some, length, get_elem?, get_or, set, replicate, Go, ok, err, ◌>>=◌,
}
use dragon_cluster_resp_prox.Resp.Prefix
use dragon_cluster_resp_prox.Resp.Reader.{signed64}
use dragon_cluster_resp_prox.Resp.Value.{
  Value, type_of, is_null, is_error, int, values, to_list, count, error, integer, simple_string,
  array, null_bulk,
}
use dragon_cluster_resp_prox.Command.Table.{Fanout}
use dragon_cluster_resp_prox.Command.Keys.{key_indexes}
use dragon_cluster_resp_prox.Command.Classify.{fanout_of}

pub record KeyGroup : Type 0 where
  pub slot : ℕ
  pub index : List ℕ

-- `bySlot[s] = append(bySlot[s], i)`; a new slot goes to the end of `order`.
unfoldable pub add_key : ℕ → ℕ → List KeyGroup → List KeyGroup
add_key s i [] = record { slot = s; index = i ∷ [] } ∷ []
add_key s i (g ∷ gs) =
    let rest = add_key s i gs in
    if g.slot == s then record g { index = g.index ++ (i ∷ []) } ∷ gs else g ∷ rest

-- The loop over the keys from position `i` on.
group_from : (Slice → ℕ) → ℕ → Argv → List KeyGroup → List KeyGroup
unfolding add_key
group_from slot_fn i [] groups = groups
group_from slot_fn i (k ∷ keys) groups =
    group_from slot_fn (suc i) keys (add_key (slot_fn k) i groups)

unfoldable pub group_by_slot : Argv → (Slice → ℕ) → List KeyGroup
unfolding group_from
group_by_slot keys slot_fn = group_from slot_fn 0 keys []

-- The arguments for one key of the group: the key, and for MSET the value behind it.
pair_of : Argv → Option ℕ → Argv
pair_of argv none = []
pair_of argv (some ai) =
    get_or argv ai nil ∷ (if ltb (ai + 1) (length argv) then get_or argv (ai + 1) nil ∷ [] else [])

key_of : Argv → Option ℕ → Argv
key_of argv none = []
key_of argv (some ai) = get_or argv ai nil ∷ []

pick_keys : (Option ℕ → Argv) → List ℕ → List ℕ → Argv
pick_keys pick idx [] = []
pick_keys pick idx (ki ∷ rest) = pick (get_elem? idx ki) ++ pick_keys pick idx rest

by_fanout : Fanout → Argv → List ℕ → List ℕ → Argv
unfolding pick_keys pair_of key_of
by_fanout Fanout.mset argv idx index = pick_keys (pair_of argv) idx index
by_fanout _ argv idx index = pick_keys (key_of argv) idx index

unfoldable pub rebuild_fanout_argv : Argv → KeyGroup → Go Argv
unfolding by_fanout
rebuild_fanout_argv [] g = ok []
rebuild_fanout_argv (a ∷ argv) g = key_indexes (a ∷ argv) >>= λ idx.
    ok (a ∷ by_fanout (fanout_of (a ∷ argv)) (a ∷ argv) idx g.index)

-- `sum += r.Int` on int64, as two's complement.
abbrev pattern64 : ℤ → ℕ
pattern64 (pos n) = n % 2 ^ 64
pattern64 (negsuc n) = 2 ^ 64 - suc n % 2 ^ 64

unfoldable pub add64 : ℤ → ℤ → ℤ
add64 a b = signed64 ((pattern64 a + pattern64 b) % 2 ^ 64)

sum_from : ℤ → List Value → Value
unfolding add64
sum_from sum [] = integer sum
sum_from sum (r ∷ replies) =
    let rest = sum_from (add64 sum (int r)) replies in
    if is_error r
    then r
    else if not (type_of r == Prefix.integer)
    then error (codes "ERR fan-out expected integer reply")
    else rest

unfoldable pub merge_sum : List Value → Value
unfolding sum_from
merge_sum replies = sum_from (pos 0) replies

unfoldable pub merge_mset : List Value → Value
merge_mset [] = simple_string (codes "OK")
merge_mset (r ∷ replies) = let rest = merge_mset replies in if is_error r then r else rest

abbrev pub mismatch : Value
mismatch = error (codes "ERR fan-out MGET reply length mismatch")

-- `out[ki] = r.Values[j]` for each key of the group; the two lists have one length.
unfoldable pub place : List ℕ → List Value → List Value → List Value
place [] vs out = out
place (ki ∷ index) [] out = out
place (ki ∷ index) (v ∷ vs) out = place index vs (set out ki v)

merge_groups : List KeyGroup → List Value → List Value → Value
unfolding place
merge_groups [] replies out = array out
merge_groups (g ∷ gs) [] out = array out
merge_groups (g ∷ gs) (r ∷ replies) out =
    let rest = merge_groups gs replies (place g.index (to_list (values r)) out) in
    if is_error r
    then r
    else if not (type_of r == Prefix.array) || is_null r || not (count (values r) == length g.index)
    then mismatch
    else rest

unfoldable pub merge_mget : ℕ → List KeyGroup → List Value → Value
unfolding merge_groups
merge_mget n_keys groups replies =
    if not (length groups == length replies)
    then mismatch
    else merge_groups groups replies (replicate n_keys null_bulk)
