-- ===== src/Examples/OnPools.antt =====
-- internal/pool/pool.go at concrete inputs.
use dragon_cluster_resp_prox.Base.{
  ℕ, suc, ◌-◌, ◌++◌, ◌≡◌, refl, pos, true, [], ◌∷◌, ◌+ℤ◌, Bytes, codes, none, ok, Holds, equal,
}
use dragon_cluster_resp_prox.Resp.Reader.{read_value}
use dragon_cluster_resp_prox.Pool.Dial.{Link, Options, dial}
use dragon_cluster_resp_prox.Pool.Dial.Greeted.{Sockets, Dialled, dial-Dialled}
use dragon_cluster_resp_prox.Pool.{
  Pool, new_pool, first_conns, take_conn, get, got, dialled, new_conn, count_up,
}
use dragon_cluster_resp_prox.Pool.Interleaved.{
  Shared, Kept, start, next, dial_step, count_step, Reachable-Kept,
}
use dragon_cluster_resp_prox.Pool.Serial.{Alone, Within, get_call, Alone-Within}

abbrev pool_of_one : Pool
pool_of_one = new_pool (pos 1) (pos 0) 0

-- The pool after two dials that began together.
abbrev two_dials : Pool
two_dials = (dialled (dialled pool_of_one).1).1

-- Two dials end before either of them is counted.
abbrev both_dialled : Shared
both_dialled = record { pool = new_conn (new_conn pool_of_one); arriving = 2; leaving = 0 }

Reachable-Kept_example :
    Kept (record both_dialled { pool = count_up both_dialled.pool; arriving = 1 })
Reachable-Kept_example = Reachable-Kept (
    next
      (next
        (next (start (pos 1) (pos 0) 0)
          (dial_step (record { pool = pool_of_one; arriving = 0; leaving = 0 })))
        (dial_step (record { pool = new_conn pool_of_one; arriving = 1; leaving = 0 })))
      (count_step both_dialled 1 refl))

two_dials_in_use : two_dials.out ≡ 1 ∷ 0 ∷ []
unfolding dialled new_pool first_conns
two_dials_in_use = refl

get-one : get true pool_of_one ≡ got 0 (dialled pool_of_one).1
unfolding get dialled new_pool take_conn ◌+ℤ◌
get-one = refl

Alone-Within_example : Within (dialled pool_of_one).1
Alone-Within_example = Alone-Within (get_call true (Alone.start (pos 1) (pos 0) 0) get-one)

-- How many sockets are open, and what was written. A node answers OK to everything.
abbrev polite : Link ℕ (ℕ × Bytes)
polite = record {
  connect = λ a t w. (ok 0, (suc w.0, []));
  secure = λ c t w. (ok c, (w.0, []));
  write_deadline = λ c t w. (none, w);
  read_deadline = λ c t w. (none, w);
  write = λ c frame w. (none, (w.0, w.1 ++ frame));
  unread = λ c w. codes "+OK\r\n";
  advance = λ c rest w. w;
  shut = λ c w. (w.0 - 1, w.1);
  error_text = λ e. codes "unreadable";
}

abbrev polite_sockets : Sockets polite
polite_sockets = record {
  alive = λ w. w.0;
  sent = λ c w. w.1;
  connects = λ a t w. (refl, refl);
  secures = λ c t w. (refl, refl);
  write_waits = λ c t w. (refl, refl);
  read_waits = λ c t w. (refl, refl);
  writes = λ c frame w. (refl, refl);
  advances = λ c rest w. (refl, refl);
  shuts = λ c w. refl;
}

abbrev replica : Options
replica = record {
  addr = codes "a:1";
  dial_timeout = pos 3;
  read_timeout = pos 3;
  write_timeout = pos 3;
  tls = true;
  username = [];
  password = codes "secret";
  read_only = true;
}

dial-Dialled_example : Holds (Dialled polite polite_sockets replica 0) (dial polite replica (0, []))
dial-Dialled_example = dial-Dialled polite polite_sockets replica (0, [])

replica_dial :
    dial polite replica (0, [])
    ≡ ok (ok 0, (1, codes "*2\r\n$4\r\nAUTH\r\n$6\r\nsecret\r\n*1\r\n$8\r\nREADONLY\r\n"))
unfolding dial equal read_value
replica_dial = refl
