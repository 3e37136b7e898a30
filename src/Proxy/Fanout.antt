-- ===== src/Proxy/Fanout.antt =====
-- internal/proxy/session.go: a command whose keys have several slots, one request for each of them.
-- The requests of the groups, which goroutines send, stand in the order of the groups.
pub mod Whole
use dragon_cluster_resp_prox.Base.{
  ℕ, Bool, true, false, List, [], ◌∷◌, Bytes, Argv, length, content, Result, Go, ok, err, ◌>>=◌,
  if◌then◌else◌,
}
use dragon_cluster_resp_prox.Resp.Value.{Value, is_error}
use dragon_cluster_resp_prox.Command.Table.{Kind, Fanout}
use dragon_cluster_resp_prox.Command.Keys.{extract_keys}
use dragon_cluster_resp_prox.Command.Classify.{kind_of, fanout_of}
use dragon_cluster_resp_prox.Command.Fanout.{
  KeyGroup, group_by_slot, rebuild_fanout_argv, merge_sum, merge_mset, merge_mget,
}
use dragon_cluster_resp_prox.Command.Reply.{strip_reply_keys}
use dragon_cluster_resp_prox.Cluster.Routing.{slot_of}
use dragon_cluster_resp_prox.Proxy.Transaction.{err_cross, failure}
use dragon_cluster_resp_prox.Proxy.Service.{Service, without_redirect}

abbrev pub is_read : Kind → Bool
is_read Kind.read = true
is_read _ = false

-- Whether a command only reads, by its name.
unfoldable pub reads : Argv → Bool
unfolding kind_of
reads [] = false
reads (a ∷ args) = is_read (kind_of (content a))

-- All the replies, or the first error.
unfoldable pub all_replies : List (Result Bytes Value) → Result Bytes (List Value)
all_replies [] = ok []
all_replies (err e ∷ rest) = err e
all_replies (ok v ∷ rest) = all_replies rest >>= λ vs. ok (v ∷ vs)

unfoldable pub merge_fanout : Fanout → ℕ → List KeyGroup → List Value → Value
unfolding merge_sum merge_mset merge_mget
merge_fanout Fanout.sum n groups replies = merge_sum replies
merge_fanout Fanout.mget n groups replies = merge_mget n groups replies
merge_fanout Fanout.mset n groups replies = merge_mset replies
merge_fanout Fanout.none n groups replies = err_cross

-- The first error among the replies, or what merges them.
unfoldable pub error_or : List Value → Value → Value
error_or [] merged = merged
error_or (v ∷ vs) merged =
    let rest = error_or vs merged in if is_error v then without_redirect v else rest

-- The reply for the client.
unfoldable pub fanout_reply :
    Bytes → ℕ → Fanout → ℕ → List KeyGroup → Result Bytes (List Value) → Value
unfolding error_or merge_fanout strip_reply_keys
fanout_reply name db f n groups (err e) = failure e
fanout_reply name db f n groups (ok replies) =
    let merged = merge_fanout f n groups replies in
    error_or replies (if is_error merged then merged else strip_reply_keys name db merged)

module _ {C W : Type 0} (b : Service C W) where
  unfoldable pub run_groups : Argv → Bool → List KeyGroup → W → Go (List (Result Bytes Value) × W)
  unfolding rebuild_fanout_argv
  run_groups argv read [] w = ok ([], w)
  run_groups argv read (g ∷ groups) w = rebuild_fanout_argv argv g >>= λ sub.
      b.exec g.slot sub read b.read_timeout w >>= λ out.
      run_groups argv read groups out.1 >>= λ rest. ok (out.0 ∷ rest.0, rest.1)

  unfoldable pub fan_out : Argv → Bytes → ℕ → ℕ → List KeyGroup → W → Go (Value × W)
  unfolding run_groups all_replies fanout_reply reads
  fan_out argv name db n [] w = ok (err_cross, w)
  fan_out argv name db n (g ∷ groups) w = run_groups argv (reads argv) (g ∷ groups) w >>= λ out.
      ok (fanout_reply name db (fanout_of argv) n (g ∷ groups) (all_replies out.0), out.1)

  unfoldable pub cmd_fanout : Argv → Bytes → ℕ → W → Go (Value × W)
  unfolding extract_keys group_by_slot fan_out
  cmd_fanout argv name db w = extract_keys argv >>= λ keys.
      fan_out argv name db (length keys) (group_by_slot keys (slot_of b.backend.delimiters)) w
