-- ===== src/Examples/OnKeys.antt =====
-- internal/proxy/session.go: MOVE at a concrete input.
use dragon_cluster_resp_prox.Base.{
  ℕ, ◌≡◌, ◌≢◌, refl, ap, ◌∙◌, arith, pos, [], ◌∷◌, Bytes, codes, equal, equal_iff, equal_refl,
  content, Argv, Option, none, some, if◌then◌else◌, ok,
}
use dragon_cluster_resp_prox.Resp.Value.{Value, integer}
use dragon_cluster_resp_prox.Cluster.Topology.{Flavor}
use dragon_cluster_resp_prox.Proxy.Transaction.{Backend, ok_reply}
use dragon_cluster_resp_prox.Proxy.Service.{Service}
use dragon_cluster_resp_prox.Proxy.Keyspace.Moves.{KeyStore, present, dump_reply}

-- The values of keys; an empty one is none.
abbrev KeyValues : Type 0
KeyValues = Bytes → Bytes

abbrev some_value : Bytes → Option Bytes
some_value [] = none
some_value (c ∷ d) = some (c ∷ d)

abbrev value_at : KeyValues → Bytes → Option Bytes
value_at w k = some_value (w k)

abbrev put_value : Bytes → Bytes → KeyValues → KeyValues
put_value k d w j = if equal k j then d else w j

-- The commands by their names and the number of their arguments.
abbrev run : Argv → KeyValues → Value × KeyValues
run (name ∷ k ∷ []) w =
    if equal (content name) (codes "EXISTS")
    then (present (value_at w (content k)), w)
    else if equal (content name) (codes "DUMP")
    then (dump_reply (value_at w (content k)), w)
    else (integer (pos 1), put_value (content k) [] w)
run (name ∷ src ∷ dst ∷ []) w =
    (ok_reply, put_value (content dst) (w (content src)) (put_value (content src) [] w))
run (name ∷ k ∷ ttl ∷ d ∷ []) w = (ok_reply, put_value (content k) (content d) w)
run argv w = (ok_reply, w)

abbrev values_only : Backend ℕ KeyValues
values_only = record {
  delimiters = record { open_byte = b'{'; close_byte = b'}' };
  max_databases = pos 16;
  generation = λ w. 1;
  checkout = λ slot w. (ok 0, w);
  put = λ c w. w;
  drop_conn = λ c w. w;
  write_raw = λ c argv w. (none, w);
  read = λ c w. ok (ok ok_reply, w);
  do_argv = λ c argv w. ok (ok ok_reply, w);
}

abbrev key_service : Service ℕ KeyValues
key_service = record {
  backend = values_only;
  version = codes "dev";
  read_timeout = pos 1;
  blocking_max_wait = pos 1;
  max_pipeline = pos 128;
  exec = λ slot args read timeout w. ok (ok (run args w).0, (run args w).1);
  exec_raw = λ slot bytes read timeout w. ok (ok ok_reply, w);
  update_slot = λ slot addr w. ok w;
  node_addr = λ slot w. some (codes "a:1");
  master_addrs = λ w. codes "a:1" ∷ [];
  flavor = λ w. Flavor.redis;
  checkout_addr = λ addr w. (ok 0, w);
  do_waiting = λ c args timeout w. ok (ok ok_reply, w);
  write_frames = λ c bytes w. (none, w);
  subscribe = λ args w. (ok [], w);
}

put_value_self : (k d : Bytes) (w : KeyValues) → put_value k d w k ≡ d
put_value_self k d w = rw (equal_refl k) refl

put_value_other : (k d j : Bytes) (w : KeyValues) → j ≢ k → put_value k d w j ≡ w j
put_value_other k d j w ne = let same = (equal_iff k j).0 in ground arith

some_value_ne : (d : Bytes) → d ≢ [] → some_value d ≡ some d
some_value_ne [] h = absurd (h refl)
some_value_ne (c ∷ d) h = refl

ne_some_value : (v d : Bytes) → some_value v ≡ some d → d ≢ []
ne_some_value [] d h e = cc
ne_some_value (c ∷ v) d h e = cc

value_of_some : (v d : Bytes) → some_value v ≡ some d → v ≡ d
value_of_some [] d h = cc
value_of_some (c ∷ v) d h = cc

keys : KeyStore key_service
unfolding equal
keys = record {
  Ready = λ w. Unit;
  value_of = value_at;
  some_bytes = λ w k d h. ne_some_value (w k) d h;
  exists = λ k w up. (w, refl, tt, λ j. refl);
  dump = λ k w up. (w, refl, tt, λ j. refl);
  restore = λ k d w up ne h. (
    put_value (content k) d w,
    refl,
    tt,
    (
      ap some_value (put_value_self (content k) d w) ∙ some_value_ne d ne,
      λ j other. ap some_value (put_value_other (content k) d j w other),
    ),
  );
  del = λ k w up. (
    put_value (content k) [] w,
    integer (pos 1),
    refl,
    tt,
    (
      ap some_value (put_value_self (content k) [] w),
      λ j other. ap some_value (put_value_other (content k) [] j w other),
    ),
  );
  rename = λ src dst d w up slots ne h.
      let gone : KeyValues = put_value (content src) [] w in
      let after : KeyValues = put_value (content dst) (w (content src)) gone in
      (
        after,
        refl,
        tt,
        ap some_value (
            put_value_other (content dst) (w (content src)) (content src) gone ne
            ∙ put_value_self (content src) [] w),
        ap some_value (put_value_self (content dst) (w (content src)) gone) ∙ h,
        λ j a c. ap some_value (
            put_value_other (content dst) (w (content src)) j gone c
            ∙ put_value_other (content src) [] j w a),
      );
}

abbrev k_is_v : KeyValues
k_is_v = put_value (codes "k") (codes "v") (λ j. [])
