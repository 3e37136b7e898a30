-- ===== src/Examples/OnChannels.antt =====
-- internal/pubsub/pubsub.go at concrete inputs.
use dragon_cluster_resp_prox.Base.{
  String, ℕ, refl, arith, pos, true, [], ◌∷◌, Bytes, codes, buf, Argv, none, some, ok,
}
use dragon_cluster_resp_prox.Resp.Value.{Value, array, bulk_string, integer}
use dragon_cluster_resp_prox.Pubsub.{Hub, Subscriptions, find_value, forward, handle_client_cmd}
use dragon_cluster_resp_prox.Pubsub.Counted.{Counted, handle_client_cmd-Counted}
use dragon_cluster_resp_prox.Pubsub.Forwards.{Shows, forward-Shows}

-- One node, which acknowledges everything.
abbrev one_node : Hub ℕ ℕ
one_node = record {
  delimiters = record { open_byte = b'{'; close_byte = b'}' };
  node_addr = λ slot w. some (codes "a:1");
  master_addr = λ w. some (codes "a:1");
  checkout_addr = λ addr w. (ok 0, w);
  release = λ c w. w;
  write = λ c args w. (none, w);
  wait_ack = λ c w. (ok (integer (pos 1)), w);
}

abbrev news : Bytes
news = codes "news"

abbrev one_channel : Subscriptions ℕ
one_channel = record {
  sharded = true;
  subs = (news, codes "a:1") ∷ [];
  backends = (codes "a:1", 0) ∷ [];
  count = 1;
}

abbrev two_channels : Argv
two_channels = buf (codes "SUBSCRIBE") ∷ buf news ∷ buf (codes "sport") ∷ []

one_channel-Counted : Counted one_channel
unfolding find_value
one_channel-Counted = ((refl, tt), omega arith)

handle_client_cmd-Counted_example :
    Counted (handle_client_cmd one_node two_channels one_channel 5).1
handle_client_cmd-Counted_example =
    handle_client_cmd-Counted one_node two_channels one_channel 5 one_channel-Counted

abbrev told : String → Value
told kind =
    array (bulk_string (buf (codes kind)) ∷ bulk_string (buf news) ∷ bulk_string (buf news) ∷ [])

forward-Shows_example : Shows (told "smessage") (forward one_channel (told "smessage"))
forward-Shows_example = forward-Shows one_channel (told "smessage") refl
