-- ===== src/Examples/OnTransactions.antt =====
-- internal/proxy/session.go at concrete inputs.
use dragon_cluster_resp_prox.Base.{
  ℕ, ◌≡◌, refl, pos, true, false, List, [], ◌∷◌, map, Bytes, codes, buf, Argv, none, some,
  get_elem?, ok, equal, nil, get_or, arith, mem_name,
}
use dragon_cluster_resp_prox.Resp.Value.{Value, array, integer}
use dragon_cluster_resp_prox.Resp.Decimal.{parse_int64, decimal}
use dragon_cluster_resp_prox.Command.Table.{lookup}
use dragon_cluster_resp_prox.Command.Keys.{name_of, table_idx, key_indexes, extract_keys}
use dragon_cluster_resp_prox.Command.Database.{
  rewrite_argv, prefix_at, clone_argv, needs_db_rewrite,
}
use dragon_cluster_resp_prox.Command.Database.Rewrites.{has_own_way, prefixed_at, rewrite_argv-each}
use dragon_cluster_resp_prox.Cluster.Routing.{cross_slot}
use dragon_cluster_resp_prox.Proxy.Transaction.{
  Backend, Session, ExecItem, local, backend, Plan, plan, select_db, is_select, backend_argvs,
  ok_reply, cmd_exec, cmd_multi,
}
use dragon_cluster_resp_prox.Proxy.Transaction.Order.{db_after, plan-rewrite_argv}
use dragon_cluster_resp_prox.Proxy.Transaction.States.{
  Closed, start, next, multi_step, Reachable-Closed,
}

abbrev command : List Bytes → Argv
command = map buf

abbrev set_k : Argv
set_k = command (codes "SET" ∷ codes "k" ∷ codes "v" ∷ [])

abbrev two_items : List ExecItem
two_items = local ok_reply ∷ backend set_k ∷ []

abbrev select_two : Argv
select_two = command (codes "SELECT" ∷ codes "2" ∷ [])

abbrev planned : Plan
planned = record {
  items = local ok_reply ∷ backend (command (codes "SET" ∷ codes "db2:k" ∷ codes "v" ∷ [])) ∷ [];
  keys = command (codes "db2:k" ∷ []);
  last_db = 2;
}

plan-two : plan (pos 16) 0 (select_two ∷ set_k ∷ []) ≡ ok planned
unfolding plan select_db equal name_of parse_int64 rewrite_argv key_indexes extract_keys prefix_at
    table_idx lookup decimal
plan-two = refl

set_unselected : is_select set_k ≡ false
unfolding name_of equal
set_unselected = refl

plan-rewrite_argv_example :
    (r : Argv) × (rewrite_argv set_k (db_after (pos 16) 0 (select_two ∷ [])) ≡ ok r)
    × (get_elem? planned.items 1 ≡ some (backend r))
plan-rewrite_argv_example =
    plan-rewrite_argv (pos 16) 0 (select_two ∷ []) set_k [] plan-two set_unselected

-- A backend with one connection that answers every command with 1.
abbrev pub always_one : Backend ℕ ℕ
always_one = record {
  delimiters = record { open_byte = b'{'; close_byte = b'}' };
  max_databases = pos 16;
  generation = λ w. 1;
  checkout = λ slot w. (ok 0, w);
  put = λ c w. w;
  drop_conn = λ c w. w;
  write_raw = λ c argv w. (none, w);
  read = λ c w. ok (ok (integer (pos 1)), w);
  do_argv = λ c argv w. ok (ok (integer (pos 1)), w);
}

abbrev opened : Session ℕ
opened = record {
  authed = true;
  db = 3;
  multi = true;
  queued = [];
  watched = [];
  pin = none;
  pin_gen = 0;
}

cmd_exec-opened : cmd_exec always_one opened 5 ≡ ok (array [], record opened { multi = false }, 5)
unfolding cmd_exec plan cross_slot backend_argvs
cmd_exec-opened = refl

Reachable-Closed_example :
    Closed
      (cmd_multi always_one (record {
        authed = true;
        db = 0;
        multi = false;
        queued = [];
        watched = [];
        pin = none;
        pin_gen = 0;
      })).1
Reachable-Closed_example = Reachable-Closed always_one (next (start true 5) (multi_step _ 5))

key_indexes-set : key_indexes (clone_argv set_k) ≡ ok (1 ∷ [])
unfolding key_indexes name_of table_idx lookup mem_name clone_argv
key_indexes-set = refl

needs-set : needs_db_rewrite set_k ≡ true
unfolding needs_db_rewrite name_of mem_name
needs-set = refl

set_is_plain : has_own_way (name_of set_k) ≡ false
unfolding name_of equal
set_is_plain = refl

rewrite_argv-each_example :
    (out : Argv) × (rewrite_argv set_k 2 ≡ ok out)
    × ((j : ℕ) → get_or out j nil ≡ prefixed_at 2 (1 ∷ []) (clone_argv set_k) j)
rewrite_argv-each_example =
    rewrite_argv-each set_k 2 (omega arith) needs-set set_is_plain key_indexes-set
      (λ j. ground arith)
