-- ===== src/Command/Reply.antt =====
-- internal/command/db.go: replies that echo key names lose the prefix.
use dragon_cluster_resp_prox.Base.{
  ℕ, not, ◌&&◌, ◌||◌, List, [], ◌∷◌, map, ◌==◌, leb, if◌then◌else◌, Bytes, codes, content, fresh,
  equal, mem_name,
}
use dragon_cluster_resp_prox.Resp.Prefix
use dragon_cluster_resp_prox.Resp.Value.{
  Value, count, type_of, str, values, is_null, is_error, bulk_string, array, to_list,
}
use dragon_cluster_resp_prox.Command.Database.{strip_key}

-- The copy that is made of the stripped key is nil if the key is empty.
unfoldable pub strip_bulk : ℕ → Value → Value
unfolding strip_key fresh
strip_bulk db v =
    if is_null v || not (type_of v == Prefix.bulk_string) && not (type_of v == Prefix.simple_string)
    then v
    else bulk_string (fresh (content (strip_key db (str v))))

unfoldable pub strip_array_of_keys : ℕ → Value → Value
unfolding strip_bulk
strip_array_of_keys db v =
    if not (type_of v == Prefix.array) || is_null v
    then v
    else array (map (strip_bulk db) (to_list (values v)))

strip_first : ℕ → List Value → List Value
unfolding strip_bulk
strip_first db [] = []
strip_first db (v ∷ vs) = strip_bulk db v ∷ vs

unfoldable pub strip_first_array_key : ℕ → Value → Value
unfolding strip_first
strip_first_array_key db v =
    if not (type_of v == Prefix.array) || is_null v || count (values v) == 0
    then v
    else array (strip_first db (to_list (values v)))

strip_stream : ℕ → Value → Value
unfolding strip_first
strip_stream db stream =
    if type_of stream == Prefix.array && leb 1 (count (values stream))
    then array (strip_first db (to_list (values stream)))
    else stream

unfoldable pub strip_xread : ℕ → Value → Value
unfolding strip_stream
strip_xread db v =
    if not (type_of v == Prefix.array) || is_null v
    then v
    else array (map (strip_stream db) (to_list (values v)))

strip_second : ℕ → List Value → List Value
unfolding strip_array_of_keys
strip_second db (v ∷ w ∷ vs) = v ∷ strip_array_of_keys db w ∷ vs
strip_second db vs = vs

strip_scan : ℕ → Value → Value
unfolding strip_second
strip_scan db v =
    if type_of v == Prefix.array && leb 2 (count (values v))
    then array (strip_second db (to_list (values v)))
    else v

abbrev pop_commands : List Bytes
pop_commands =
    map codes
      ("BLPOP" ∷ "BRPOP" ∷ "BZPOPMIN" ∷ "BZPOPMAX" ∷ "LMPOP" ∷ "BLMPOP" ∷ "ZMPOP" ∷ "BZMPOP" ∷ [])

unfoldable pub strip_reply_keys : Bytes → ℕ → Value → Value
unfolding strip_scan strip_xread strip_first_array_key strip_array_of_keys equal mem_name
strip_reply_keys name db v =
    if db == 0 || is_error v || is_null v
    then v
    else if equal name (codes "KEYS")
    then strip_array_of_keys db v
    else if equal name (codes "SCAN")
    then strip_scan db v
    else if equal name (codes "RANDOMKEY")
    then strip_bulk db v
    else if mem_name name pop_commands
    then strip_first_array_key db v
    else if mem_name name (codes "XREAD" ∷ codes "XREADGROUP" ∷ [])
    then strip_xread db v
    else v
