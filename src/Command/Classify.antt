-- ===== src/Command/Classify.antt =====
-- internal/command/command.go: the classes of commands.
use dragon_cluster_resp_prox.Base.{
  Bool, true, false, ◌&&◌, ◌||◌, [], ◌∷◌, if◌then◌else◌, Bytes, codes, String, content, Argv,
  Option, none, some, equal, mem_name,
}
use dragon_cluster_resp_prox.Resp.Ascii.{upper, equal_fold}
use dragon_cluster_resp_prox.Command.Table.{Kind, Fanout, Meta, lookup}
use dragon_cluster_resp_prox.Command.Positions.{is_word}
use dragon_cluster_resp_prox.Command.Keys.{name_of}

kind_or : Option Meta → Kind
kind_or none = Kind.unknown
kind_or (some m) = m.kind

unfoldable pub kind_of : Bytes → Kind
unfolding kind_or lookup upper
kind_of argv0 = kind_or (lookup (upper argv0))

fanout_or : Option Meta → Fanout
fanout_or none = Fanout.none
fanout_or (some m) = m.fanout

unfoldable pub fanout_of : Argv → Fanout
unfolding fanout_or lookup name_of
fanout_of [] = Fanout.none
fanout_of (a ∷ argv) = fanout_or (lookup (name_of (a ∷ argv)))

abbrev pub is_block : Kind → Bool
is_block Kind.block = true
is_block _ = false

has_word : String → Argv → Bool
unfolding equal_fold
has_word word [] = false
has_word word (a ∷ argv) = is_word a word || has_word word argv

unfoldable pub is_blocking : Argv → Bool
unfolding has_word kind_of mem_name name_of
is_blocking [] = false
is_blocking (a ∷ argv) =
    if is_block (kind_of (content a))
    then true
    else mem_name (name_of (a ∷ argv)) (codes "XREAD" ∷ codes "XREADGROUP" ∷ [])
      && has_word "BLOCK" argv

pub data PubSubOp : Type 0 where
  no_op subscribe unsubscribe psubscribe punsubscribe ssubscribe sunsubscribe publish spublish
        pubsub :
      PubSubOp

unfoldable pub classify_pub_sub : Bytes → PubSubOp
unfolding equal upper
classify_pub_sub argv0 =
    let name = upper argv0 in
    if equal name (codes "SUBSCRIBE")
    then subscribe
    else if equal name (codes "UNSUBSCRIBE")
    then unsubscribe
    else if equal name (codes "PSUBSCRIBE")
    then psubscribe
    else if equal name (codes "PUNSUBSCRIBE")
    then punsubscribe
    else if equal name (codes "SSUBSCRIBE")
    then ssubscribe
    else if equal name (codes "SUNSUBSCRIBE")
    then sunsubscribe
    else if equal name (codes "PUBLISH")
    then publish
    else if equal name (codes "SPUBLISH")
    then spublish
    else if equal name (codes "PUBSUB")
    then pubsub
    else no_op
