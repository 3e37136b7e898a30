-- ===== src/Proxy/Keyspace.antt =====
-- internal/proxy/session.go: the commands that work on virtual databases: MOVE, COPY, FLUSHDB and
-- RANDOMKEY, and PUBLISH.
pub mod Moves
use dragon_cluster_resp_prox.Base.{
  String, ℕ, zero, suc, ℤ, pos, negsuc, ltb_ℤ, Bool, true, false, not, ◌&&◌, ◌||◌, List, [], ◌∷◌,
  ◌++◌, ◌==◌, ltb, if◌then◌else◌, Bytes, codes, equal, content, Slice, nil, buf, Argv, Option, none,
  some, length, Result, Go, ok, err, ◌>>=◌,
}
use dragon_cluster_resp_prox.Resp.Prefix
use dragon_cluster_resp_prox.Resp.Value.{
  Value, error, integer, bulk_string, null_bulk, type_of, is_null, is_error, str, int, values,
  to_list,
}
use dragon_cluster_resp_prox.Resp.Ascii.{equal_fold}
use dragon_cluster_resp_prox.Command.Database.{
  db_prefix, prefix_key, strip_key, has_virtual_db_prefix, parse_db_index, db_index_error,
}
use dragon_cluster_resp_prox.Cluster.Routing.{slot_of}
use dragon_cluster_resp_prox.Proxy.Transaction.{failure, ok_reply}
use dragon_cluster_resp_prox.Proxy.Service.{Service}

abbrev pub word : String → Slice
word s = buf (codes s)

-- `errFromValue`
abbrev pub err_from_value : Value → Bytes
err_from_value v = elim (content (str v)) [ [] ↦ codes "backend error" | c ∷ s ↦ c ∷ s ]

-- A reply, and what is left of a command that needs it.
abbrev pub or_failed :
    {W : Type 0}
    → (Value → W → Go (Result Bytes ℤ × W))
    → Result Bytes Value × W
    → Go (Result Bytes ℤ × W)
or_failed next (err e, w) = ok (err e, w)
or_failed next (ok v, w) = next v w

abbrev pub refused :
    {W : Type 0} → (Value → W → Go (Result Bytes ℤ × W)) → Value → W → Go (Result Bytes ℤ × W)
refused next v w = if is_error v then ok (err (err_from_value v), w) else next v w

abbrev pub is_integer : Value → Bool
is_integer v = type_of v == Prefix.integer

abbrev pub is_array : Value → Bool
is_array v = type_of v == Prefix.array

abbrev pub with_replace : Bool → Argv → Argv
with_replace replace argv = if replace then argv ++ (word "REPLACE" ∷ []) else argv

-- Whether the reply to EXISTS says that there is a key.
abbrev pub says_present : Value → Bool
says_present v = not (is_error v) && is_integer v && ltb_ℤ (pos 0) (int v)

-- What COPY's options say: the database, and REPLACE; or the reply to a bad one.
unfoldable pub copy_plan : ℤ → Argv → ℕ → Bool → Result Value (ℕ × Bool)
unfolding equal_fold parse_db_index
copy_plan max [] db replace = ok (db, replace)
copy_plan max (a ∷ []) db replace =
    if equal_fold (content a) (codes "REPLACE")
    then ok (db, true)
    else if equal_fold (content a) (codes "DB")
    then err (error (codes "ERR syntax error"))
    else ok (db, replace)
copy_plan max (a ∷ n ∷ rest) db replace = elim (equal_fold (content a) (codes "REPLACE")) [
  | true ↦ copy_plan max (n ∷ rest) db true
  | false ↦ elim (equal_fold (content a) (codes "DB")) [
    | false ↦ copy_plan max (n ∷ rest) db replace
    | true ↦ elim (parse_db_index (content n) max) [
      | err e ↦ err (db_index_error e)
      | ok other ↦ copy_plan max rest other replace
    ]
  ]
]

abbrev pub count_reply : {W : Type 0} → Result Bytes ℤ × W → Value × W
count_reply (err e, w) = (failure e, w)
count_reply (ok n, w) = (integer n, w)

-- The keys that a SCAN found, as the arguments of a DEL.
unfoldable pub found_keys : List Value → Argv
found_keys [] = []
found_keys (k ∷ ks) =
    let rest = found_keys ks in if ltb 0 (length (content (str k))) then str k ∷ rest else rest

abbrev pub listed : Value → List Value
listed keys = if is_array keys then to_list (values keys) else []

abbrev pub key_pattern : ℕ → Bytes
key_pattern db = db_prefix db ++ codes "*"

module _ {C W : Type 0} (b : Service C W) where
  -- A request about a key, to its slot.
  abbrev pub ask_key : Slice → Argv → Bool → W → Go (Result Bytes Value × W)
  ask_key key argv read w = b.exec (slot_of b.backend.delimiters key) argv read b.read_timeout w

  -- Both keys have one slot.
  abbrev pub moved_count : Bool → Value → W → Go (Result Bytes ℤ × W)
  moved_count del_src v w =
      ok (ok (if del_src then pos 1 else if is_integer v then int v else pos 1), w)

  unfoldable pub transfer_near : Slice → Slice → Bool → Bool → W → Go (Result Bytes ℤ × W)
  transfer_near src dst del_src replace w =
      let argv =
        if del_src
        then word "RENAME" ∷ src ∷ dst ∷ []
        else with_replace replace (word "COPY" ∷ src ∷ dst ∷ []) in
      ask_key src argv false w >>= or_failed (refused (moved_count del_src))

  -- The source is deleted after the value is restored.
  unfoldable pub restored : Slice → Bool → Value → W → Go (Result Bytes ℤ × W)
  restored src true v w =
      ask_key src (word "DEL" ∷ src ∷ []) false w >>= λ out. ok (ok (pos 1), out.1)
  restored src false v w = ok (ok (pos 1), w)

  unfoldable pub restore : Slice → Slice → Bool → Bool → Value → W → Go (Result Bytes ℤ × W)
  unfolding restored
  restore src dst del_src replace dump w =
      if is_null dump || length (content (str dump)) == 0
      then ok (ok (pos 0), w)
      else (ask_key dst (with_replace replace (word "RESTORE" ∷ dst ∷ word "0" ∷ str dump ∷ []))
            false w
          >>= or_failed (refused (restored src del_src)))

  unfoldable pub transfer_far : Slice → Slice → Bool → Bool → W → Go (Result Bytes ℤ × W)
  unfolding restore
  transfer_far src dst del_src replace w =
      ask_key src (word "DUMP" ∷ src ∷ []) true w
      >>= or_failed (refused (restore src dst del_src replace))

  unfoldable pub transfer : Slice → Slice → Bool → Bool → W → Go (Result Bytes ℤ × W)
  unfolding transfer_near transfer_far
  transfer src dst del_src replace w =
      if slot_of b.backend.delimiters src == slot_of b.backend.delimiters dst
      then transfer_near src dst del_src replace w
      else transfer_far src dst del_src replace w

  unfoldable pub if_absent : Slice → Slice → Bool → Value → W → Go (Result Bytes ℤ × W)
  unfolding transfer
  if_absent src dst del_src v w =
      if says_present v then ok (ok (pos 0), w) else transfer src dst del_src false w

  unfoldable pub transfer_key : Slice → Slice → Bool → Bool → W → Go (Result Bytes ℤ × W)
  unfolding if_absent
  transfer_key src dst del_src true w = transfer src dst del_src true w
  transfer_key src dst del_src false w =
      ask_key dst (word "EXISTS" ∷ dst ∷ []) true w >>= or_failed (if_absent src dst del_src)

  unfoldable pub cmd_move : Argv → ℕ → W → Go (Value × W)
  unfolding parse_db_index prefix_key transfer_key
  cmd_move (name ∷ key ∷ index ∷ []) db w =
      elim (parse_db_index (content index) b.backend.max_databases) [
        | err e ↦ ok (db_index_error e, w)
        | ok dest ↦
            if dest == db
            then ok (error (codes "ERR source and destination objects are the same"), w)
            else (transfer_key (prefix_key db key) (prefix_key dest key) true false w >>= λ out.
                ok (count_reply out))
      ]
  cmd_move argv db w = ok (error (codes "ERR wrong number of arguments for 'move' command"), w)

  unfoldable pub cmd_copy : Argv → ℕ → W → Go (Value × W)
  unfolding copy_plan prefix_key transfer_key
  cmd_copy (name ∷ src ∷ dst ∷ options) db w =
      elim (copy_plan b.backend.max_databases options db false) [
        | err reply ↦ ok (reply, w)
        | ok plan ↦
            transfer_key (prefix_key db src) (prefix_key plan.0 dst) false plan.1 w >>= λ out.
            ok (count_reply out)
      ]
  cmd_copy argv db w = ok (error (codes "ERR wrong number of arguments for 'copy' command"), w)

  -- The keys that a round of SCAN found are deleted.
  delete_found : C → Argv → W → Go (Option Bytes × W)
  delete_found c [] w = ok (none, w)
  delete_found c (k ∷ keys) w = b.backend.do_argv c (word "DEL" ∷ k ∷ keys) w >>= λ out.
      ok (elim out.0 [ err e ↦ some e | ok v ↦ none ], out.1)

  -- How a round ends: the connection goes back or is dropped with what there is to say, or the next
  -- cursor.
  pub data Round : Type 0 where
    put_and drop_and : Option Bytes → Round
    next_from : Slice → Round

  round_ended : Slice → Option Bytes × W → Round × W
  unfolding equal
  round_ended cursor (some e, w) = (drop_and (some e), w)
  round_ended cursor (none, w) =
      (if equal (content cursor) (codes "0") then put_and none else next_from cursor, w)

  scanned : C → Value → List Value → W → Go (Round × W)
  unfolding delete_found found_keys round_ended
  scanned c v (cursor ∷ keys ∷ more) w =
      if is_error v
      then ok (put_and (some (err_from_value v)), w)
      else if not (is_array v)
      then ok (put_and none, w)
      else (delete_found c (found_keys (listed keys)) w >>= λ out.
          ok (round_ended (str cursor) out))
  scanned c v _ w = ok (put_and (if is_error v then some (err_from_value v) else none), w)

  scan_round : C → Bytes → Slice → W → Go (Round × W)
  unfolding scanned
  scan_round c match cursor w =
      b.backend.do_argv c
        (word "SCAN" ∷ cursor ∷ word "MATCH" ∷ buf match ∷ word "COUNT" ∷ word "256" ∷ []) w
      >>= λ out. elim out.0 [
        | err e ↦ ok (drop_and (some e), out.1)
        | ok v ↦ scanned c v (to_list (values v)) out.1
      ]

  -- `none` when there are more rounds than the fuel allows.
  unfoldable pub scan_loop : ℕ → C → Bytes → Slice → W → Go (Option (Option Bytes × W))
  unfolding scan_round
  scan_loop zero c match cursor w = ok none
  scan_loop (suc fuel) c match cursor w = scan_round c match cursor w >>= λ out. elim out.0 [
    | put_and e ↦ ok (some (e, b.backend.put c out.1))
    | drop_and e ↦ ok (some (e, b.backend.drop_conn c out.1))
    | next_from later ↦ scan_loop fuel c match later out.1
  ]

  unfoldable pub scan_delete_on : ℕ → Bytes → Bytes → W → Go (Option (Option Bytes × W))
  unfolding scan_loop
  scan_delete_on fuel addr match w =
      let (got, after) = b.checkout_addr addr w in
      elim got [
        | err e ↦ ok (some (some e, after))
        | ok c ↦ scan_loop fuel c match (word "0") after
      ]

  flush_masters : ℕ → Bytes → List Bytes → W → Go (Option (Value × W))
  unfolding scan_delete_on
  flush_masters fuel match [] w = ok (some (ok_reply, w))
  flush_masters fuel match (addr ∷ addrs) w = scan_delete_on fuel addr match w >>= λ found.
      elim found [
        | none ↦ ok none
        | some out ↦ elim out.0 [
          | some e ↦ ok (some (failure e, out.1))
          | none ↦ flush_masters fuel match addrs out.1
        ]
      ]

  abbrev value_or_failure : Result Bytes Value × W → Value × W
  value_or_failure (err e, w) = (failure e, w)
  value_or_failure (ok v, w) = (v, w)

  unfoldable pub cmd_flush_db : ℕ → ℕ → W → Go (Option (Value × W))
  unfolding flush_masters db_prefix
  cmd_flush_db fuel zero w = b.exec 0 (word "FLUSHDB" ∷ []) false b.read_timeout w >>= λ out.
      ok (some (value_or_failure out))
  cmd_flush_db fuel (suc db) w = flush_masters fuel (key_pattern (suc db)) (b.master_addrs w) w

  -- The first key that SCAN found, without its prefix.
  unfoldable pub first_key : ℕ → Value → List Value → Value
  unfolding strip_key
  first_key db v (cursor ∷ keys ∷ more) =
      if is_error v
      then v
      else if is_array v
      then elim (listed keys) [ [] ↦ null_bulk | k ∷ ks ↦ bulk_string (strip_key db (str k)) ]
      else null_bulk
  first_key db v _ = if is_error v then v else null_bulk

  unfoldable pub random_key : ℕ → Value → Value
  unfolding first_key has_virtual_db_prefix
  random_key zero v =
      if not (is_null v) && has_virtual_db_prefix (content (str v)) then null_bulk else v
  random_key (suc db) v = first_key (suc db) v (to_list (values v))

  unfoldable pub cmd_random_key : ℕ → W → Go (Value × W)
  unfolding random_key db_prefix
  cmd_random_key db w =
      let argv =
        if db == 0
        then word "RANDOMKEY" ∷ []
        else word "SCAN"
          ∷ word "0"
          ∷ word "MATCH"
          ∷ buf (key_pattern db)
          ∷ word "COUNT"
          ∷ word "16"
          ∷ [] in
      b.exec 0 argv true b.read_timeout w >>= λ out.
      ok (elim out.0 [ err e ↦ (failure e, out.1) | ok v ↦ (random_key db v, out.1) ])
