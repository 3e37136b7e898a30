-- ===== src/Command/Positions.antt =====
-- internal/command/command.go: the positions of the keys, for each way of giving them.
pub mod Bounds
use dragon_cluster_resp_prox.Base.{
  ℕ, zero, suc, ◌+◌, ◌-◌, ◌*◌, ◌/◌, ◌%◌, ◌^◌, ℤ, pos, negsuc, Bool, true, false, not, ◌&&◌, ◌||◌,
  List, [], ◌∷◌, ◌++◌, map, ◌==◌, ltb, leb, if◌then◌else◌, Bytes, codes, String, Slice, nil,
  content, Argv, Option, none, some, length, drop, get_or, get_elem?, equal, mem_name, Go, ok, err,
  panic, ◌>>=◌,
}
use dragon_cluster_resp_prox.Resp.Ascii.{upper, equal_fold}
use dragon_cluster_resp_prox.Resp.Decimal.{parse_int64}
use dragon_cluster_resp_prox.Resp.Reader.{signed64}
use dragon_cluster_resp_prox.Command.Table.{KeySpec}

-- `start`, `start + 1`, … : `n` numbers.
unfoldable pub span : ℕ → ℕ → List ℕ
span start zero = []
span start (suc n) = start ∷ span (suc start) n

-- The i-th argument, where the code has tested that it is there.
abbrev pub arg : Argv → ℕ → Bytes
arg argv i = content (get_or argv i nil)

abbrev pub is_word : Slice → String → Bool
is_word a word = equal_fold (content a) (codes word)

-- `for i := first; i <= last; i += step`; the fuel is the number of values from `i` to `last`.
stride : ℕ → ℕ → ℕ → ℕ → List ℕ
stride zero i last step = []
stride (suc fuel) i last step =
    let rest = stride fuel (i + step) last step in if ltb last i then [] else i ∷ rest

-- `len(argv) + last` of a negative `last`: where that is negative too it is less than `first`, as 0 is.
resolve_last : ℕ → ℤ → ℕ → ℕ
resolve_last first (pos n) len = if n == 0 then first else n
resolve_last first (negsuc n) len = len - suc n

unfoldable pub indexes_by_spec : Argv → KeySpec → List ℕ
unfolding stride resolve_last
indexes_by_spec argv spec =
    let first = spec.first in
    let step = if spec.step == 0 then 1 else spec.step in
    let last = resolve_last first spec.last (length argv) in
    let end = if leb (length argv) last then length argv - 1 else last in
    if first == 0
    then []
    else if leb (length argv) first || ltb last first
    then []
    else stride (suc end - first) first end step

-- `strconv.Atoi` with an error for a negative number.
unfoldable pub natural : Bytes → Option ℕ
natural b = elim (parse_int64 b) [
  | none ↦ none
  | some z ↦ elim z [ pos n ↦ some n | negsuc _ ↦ none ]
]

-- An `int` sum of two numbers that are not negative.
abbrev pub int_sum : ℕ → ℕ → ℤ
int_sum a b = signed64 ((a + b) % 2 ^ 64)

abbrev pub at_most : ℕ → ℕ → ℕ
at_most n limit = if ltb limit n then limit else n

eval_end : ℕ → ℤ → List ℕ
unfolding span
eval_end len (negsuc _) = []
eval_end len (pos e) = let end = at_most e len in if leb end 3 then [] else span 3 (end - 3)

unfoldable pub eval_key_idx : Argv → List ℕ
unfolding eval_end natural
eval_key_idx argv =
    if ltb (length argv) 3
    then []
    else elim (natural (arg argv 2)) [ none ↦ [] | some n ↦ eval_end (length argv) (int_sum 3 n) ]

-- The arguments from position `i` on.
xread_from : ℕ → Argv → List ℕ
unfolding span equal_fold
xread_from i [] = []
xread_from i (a ∷ rest) =
    let later = xread_from (suc i) rest in
    if is_word a "STREAMS"
    then (if ltb (length rest) 2 || not (length rest % 2 == 0)
        then []
        else span (suc i) (length rest / 2))
    else later

unfoldable pub xread_key_idx : Argv → List ℕ
unfolding xread_from
xread_key_idx argv = xread_from 1 (drop 1 argv)

-- `none`: no KEYS option from position `i` on.
migrate_from : ℕ → Argv → Option (List ℕ)
unfolding span equal_fold
migrate_from i [] = none
migrate_from i (a ∷ rest) =
    let later = migrate_from (suc i) rest in
    if is_word a "KEYS" then some (span (suc i) (length rest)) else later

unfoldable pub migrate_key_idx : Argv → List ℕ
unfolding migrate_from
migrate_key_idx argv = if ltb (length argv) 6 then [] else elim (migrate_from 6 (drop 6 argv)) [
  | some idx ↦ idx
  | none ↦ if ltb 0 (length (arg argv 3)) then 3 ∷ [] else []
]

-- `make` with the capacity `end - start` panics where the sum has wrapped around.
numkeys_end : ℕ → ℕ → ℤ → Go (List ℕ)
unfolding span
numkeys_end start len (negsuc _) = err panic
numkeys_end start len (pos e) = ok (span start (at_most e len - start))

unfoldable pub numkeys_idx : Argv → ℕ → Go (List ℕ)
unfolding numkeys_end natural
numkeys_idx argv at = if leb (length argv) at then ok [] else elim (natural (arg argv at)) [
  | none ↦ ok []
  | some n ↦
      if leb (length argv) (at + 1)
      then ok []
      else numkeys_end (at + 1) (length argv) (int_sum (at + 1) n)
]

unfoldable pub dest_numkeys_idx : Argv → Go (List ℕ)
unfolding numkeys_idx
dest_numkeys_idx argv =
    if ltb (length argv) 3
    then ok (if leb 2 (length argv) then 1 ∷ [] else [])
    else (numkeys_idx argv 2 >>= λ idx. ok (1 ∷ idx))

scan_match_from : ℕ → Argv → List ℕ
unfolding equal_fold
scan_match_from i (a ∷ b ∷ rest) =
    let later = scan_match_from (suc i) (b ∷ rest) in
    if is_word a "MATCH" then suc i ∷ [] else later
scan_match_from i _ = []

unfoldable pub scan_match_idx : Argv → List ℕ
unfolding scan_match_from
scan_match_idx argv = scan_match_from 2 (drop 2 argv)

-- An option with its value takes two arguments.
sort_from : ℕ → Argv → List ℕ
unfolding equal_fold equal
sort_from i (a ∷ b ∷ rest) =
    let behind = sort_from (suc (suc i)) rest in
    let later = sort_from (suc i) (b ∷ rest) in
    if is_word a "BY"
    then (if is_word b "nosort" then behind else suc i ∷ behind)
    else if is_word a "GET"
    then (if equal (content b) (codes "#") then behind else suc i ∷ behind)
    else if is_word a "STORE"
    then suc i ∷ behind
    else later
sort_from i _ = []

unfoldable pub sort_key_idx : Argv → List ℕ
unfolding sort_from
sort_key_idx argv = (if leb 2 (length argv) then 1 ∷ [] else []) ++ sort_from 2 (drop 2 argv)

store_from : ℕ → Argv → List ℕ
unfolding equal_fold
store_from i (a ∷ b ∷ rest) =
    let later = store_from (suc i) (b ∷ rest) in
    if is_word a "STORE" || is_word a "STOREDIST" then suc i ∷ later else later
store_from i _ = []

unfoldable pub store_option_idx : Argv → List ℕ
unfolding store_from
store_option_idx argv = store_from 1 (drop 1 argv)
