-- ===== src/Command/Database.antt =====
-- internal/command/db.go: virtual databases as key prefixes, and the rewriting of commands. A
-- database index is never negative where it is used: `ParseDBIndex` and COPY's own test see to it.
pub mod Prefixes
pub mod Rewrites
use dragon_cluster_resp_prox.Base.{
  ℕ, zero, suc, ◌+◌, ◌-◌, ℤ, pos, negsuc, Bool, true, false, not, ◌&&◌, ◌||◌, List, [], ◌∷◌, ◌++◌,
  map, ◌==◌, ltb, leb, if◌then◌else◌, Bytes, codes, String, Slice, nil, buf, content, fresh, Argv,
  Option, none, some, length, drop, take, get_or, set, equal, is_prefix, is_digit, mem_name, Result,
  Go, ok, err, panic, ◌>>=◌,
}
use dragon_cluster_resp_prox.Resp.Decimal.{decimal, parse_int64}
use dragon_cluster_resp_prox.Resp.Value.{Value, error}
use dragon_cluster_resp_prox.Resp.Ascii.{equal_fold}
use dragon_cluster_resp_prox.Command.Positions.{natural, is_word}
use dragon_cluster_resp_prox.Command.Keys.{name_of, key_indexes}

unfoldable pub db_prefix : ℕ → Bytes
db_prefix zero = []
db_prefix (suc n) = b'd' ∷ b'b' ∷ (decimal (suc n) ++ (b':' ∷ []))

-- The loop over the digits, and the test behind it; the flag is `i > 2`.
digits_then_colon : Bool → Bytes → Bool
digits_then_colon some_digit [] = false
digits_then_colon some_digit (c ∷ s) =
    let rest = digits_then_colon true s in if is_digit c then rest else some_digit && c == b':'

unfoldable pub has_virtual_db_prefix : Bytes → Bool
unfolding digits_then_colon is_prefix
has_virtual_db_prefix key =
    if not (is_prefix key (codes "db")) then false else digits_then_colon false (drop 2 key)

unfoldable pub prefix_key : ℕ → Slice → Slice
unfolding db_prefix
prefix_key db key = if length (db_prefix db) == 0 then key else buf (db_prefix db ++ content key)

unfoldable pub strip_key : ℕ → Slice → Slice
unfolding db_prefix is_prefix
strip_key db key =
    if length (db_prefix db) == 0 || not (is_prefix (content key) (db_prefix db))
    then key
    else buf (drop (length (db_prefix db)) (content key))

pub data DbError : Type 0 where
  invalid_db db_range : DbError

-- `max`, with 16 for a limit that is not positive.
abbrev pub max_or_default : ℤ → ℕ
max_or_default (pos n) = if n == 0 then 16 else n
max_or_default (negsuc n) = 16

unfoldable pub parse_db_index : Bytes → ℤ → Result DbError ℕ
unfolding natural
parse_db_index b max = elim (natural b) [
  | none ↦ err invalid_db
  | some n ↦ if leb (max_or_default max) n then err db_range else ok n
]

unfoldable pub db_index_error : DbError → Value
db_index_error invalid_db = error (codes "ERR invalid DB index")
db_index_error db_range = error (codes "ERR DB index is out of range")

-- Commands without keys, and those of pub/sub, whose channels are not prefixed.
abbrev unprefixed : List Bytes
unprefixed = map codes (
    "PING" ∷ "ECHO" ∷ "AUTH" ∷ "QUIT" ∷ "SELECT" ∷ "HELLO" ∷ "RESET" ∷ "MULTI" ∷ "EXEC" ∷ "DISCARD"
    ∷ "UNWATCH" ∷ "CLUSTER" ∷ "INFO" ∷ "COMMAND" ∷ "CONFIG" ∷ "TIME" ∷ "ROLE" ∷ "LOLWUT" ∷ "CLIENT"
    ∷ "READONLY" ∷ "READWRITE" ∷ "REPLICAOF" ∷ "SLAVEOF" ∷ "WAIT" ∷ "LATENCY" ∷ "FLUSHALL"
    ∷ "SWAPDB" ∷ "PUBLISH" ∷ "SPUBLISH" ∷ "SUBSCRIBE" ∷ "SSUBSCRIBE" ∷ "UNSUBSCRIBE"
    ∷ "SUNSUBSCRIBE" ∷ "PSUBSCRIBE" ∷ "PUNSUBSCRIBE" ∷ "PUBSUB" ∷ [])

unfoldable pub needs_db_rewrite : Argv → Bool
unfolding name_of mem_name
needs_db_rewrite [] = false
needs_db_rewrite (a ∷ argv) = not (mem_name (name_of (a ∷ argv)) unprefixed)

-- The copy of an empty slice that is not nil is nil.
unfoldable pub clone_bytes : Slice → Slice
unfolding fresh
clone_bytes nil = nil
clone_bytes (buf b) = fresh b

unfoldable pub clone_argv : Argv → Argv
unfolding clone_bytes
clone_argv [] = []
clone_argv (a ∷ argv) = clone_bytes a ∷ clone_argv argv

-- `out[i] = PrefixKey(db, out[i])` for each position inside the command.
unfoldable pub prefix_at : ℕ → List ℕ → Argv → Argv
unfolding prefix_key
prefix_at db [] out = out
prefix_at db (i ∷ idx) out =
    prefix_at db idx
      (if ltb 0 i && ltb i (length out) then set out i (prefix_key db (get_or out i nil)) else out)

-- The options of COPY: the destination and whether REPLACE stands there.
copy_options : ℕ → Bool → Argv → ℕ × Bool
unfolding natural equal_fold
copy_options dest replace [] = (dest, replace)
copy_options dest replace (a ∷ []) = (dest, is_word a "REPLACE" || replace)
copy_options dest replace (a ∷ b ∷ rest) =
    let replaced = copy_options dest true (b ∷ rest) in
    let target : ℕ = elim (natural (content b)) [ none ↦ dest | some n ↦ n ] in
    let moved = copy_options target replace rest in
    let later = copy_options dest replace (b ∷ rest) in
    if is_word a "REPLACE" then replaced else if is_word a "DB" then moved else later

rewrite_copy : Argv → ℕ → Argv
unfolding copy_options clone_argv prefix_key
rewrite_copy argv db =
    if ltb (length argv) 3
    then clone_argv argv
    else let (dest, replace) = copy_options db false (drop 3 argv) in
      clone_bytes (get_or argv 0 nil)
      ∷ prefix_key db (get_or argv 1 nil)
      ∷ prefix_key dest (get_or argv 2 nil)
      ∷ (if replace then buf (codes "REPLACE") ∷ [] else [])

-- The arguments from position 2 on, with the pattern behind MATCH prefixed.
unfoldable pub match_rewrite : ℕ → Argv → Option Argv
unfolding equal_fold prefix_key
match_rewrite db (a ∷ b ∷ rest) =
    let later = match_rewrite db (b ∷ rest) in
    if is_word a "MATCH"
    then some (a ∷ prefix_key db b ∷ rest)
    else elim later [ none ↦ none | some out ↦ some (a ∷ out) ]
match_rewrite db _ = none

unfoldable pub rewrite_scan : Argv → ℕ → Argv
unfolding match_rewrite clone_argv
rewrite_scan argv db =
    let out = clone_argv argv in
    if length (db_prefix db) == 0 then out else elim (match_rewrite db (drop 2 out)) [
      | some tail ↦ take 2 out ++ tail
      | none ↦ out ++ (buf (codes "MATCH") ∷ buf (db_prefix db ++ (b'*' ∷ [])) ∷ [])
    ]

-- `out[1] = PrefixKey(db, out[1])`, if it is there.
unfoldable pub prefix_first : ℕ → Argv → Argv
unfolding prefix_key
prefix_first db (a ∷ b ∷ rest) = a ∷ prefix_key db b ∷ rest
prefix_first db out = out

unfoldable pub rewrite_keys : Argv → ℕ → Argv
unfolding prefix_first clone_argv
rewrite_keys argv db = prefix_first db (clone_argv argv)

-- The arguments from position 2 on; an option with its value takes two of them.
unfoldable pub sort_rewrite : ℕ → Argv → Argv
unfolding equal_fold equal prefix_key
sort_rewrite db (a ∷ b ∷ rest) =
    let behind = sort_rewrite db rest in
    let later = sort_rewrite db (b ∷ rest) in
    if is_word a "BY"
    then (if is_word b "nosort" then a ∷ b ∷ behind else a ∷ prefix_key db b ∷ behind)
    else if is_word a "GET"
    then (if equal (content b) (codes "#") then a ∷ b ∷ behind else a ∷ prefix_key db b ∷ behind)
    else if is_word a "STORE"
    then a ∷ prefix_key db b ∷ behind
    else a ∷ later
sort_rewrite db out = out

unfoldable pub rewrite_sort : Argv → ℕ → Argv
unfolding sort_rewrite prefix_first clone_argv
rewrite_sort argv db =
    let out = prefix_first db (clone_argv argv) in take 2 out ++ sort_rewrite db (drop 2 out)

unfoldable pub rewrite_move : Argv → ℕ → Argv
unfolding prefix_first clone_argv
rewrite_move argv db = prefix_first db (clone_argv argv)

unfoldable pub rewrite_argv : Argv → ℕ → Go Argv
unfolding rewrite_copy needs_db_rewrite
rewrite_argv argv db =
    let name = name_of argv in
    let out = clone_argv argv in
    if db == 0 || not (needs_db_rewrite argv)
    then ok argv
    else if equal name (codes "COPY")
    then ok (rewrite_copy argv db)
    else if equal name (codes "SCAN")
    then ok (rewrite_scan argv db)
    else if equal name (codes "KEYS")
    then ok (rewrite_keys argv db)
    else if equal name (codes "SORT")
    then ok (rewrite_sort argv db)
    else if equal name (codes "MOVE")
    then ok (rewrite_move argv db)
    else (key_indexes out >>= λ idx. ok (prefix_at db idx out))
