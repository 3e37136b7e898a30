-- ===== src/Examples/OnRouters.antt =====
-- internal/cluster/router.go at concrete inputs.
use dragon_cluster_resp_prox.Base.{
  Result, ℕ, suc, ◌+◌, ◌-◌, ◌≡◌, ◌≢◌, refl, pos, true, false, [], ◌∷◌, Bytes, codes, equal,
  mem_name, if◌then◌else◌, buf, none, ok, Returns, Holds,
}
use dragon_cluster_resp_prox.Resp.Value.{Value, simple_string, error}
use dragon_cluster_resp_prox.Config.{Config, defaults}
use dragon_cluster_resp_prox.Cluster.Slot.{token, atoi16}
use dragon_cluster_resp_prox.Cluster.Topology.{
  Topology, Flavor, node_index, new_empty_topology, Health,
}
use dragon_cluster_resp_prox.Cluster.Router.{Net, Request, argv, Router, candidate_addrs}
use dragon_cluster_resp_prox.Cluster.Router.Exec.{exec_frame}
use dragon_cluster_resp_prox.Cluster.Router.Exec.Ledger.{Ledger}
use dragon_cluster_resp_prox.Cluster.Router.Exec.Settles.{Settled, exec_frame-Settled}
use dragon_cluster_resp_prox.Cluster.Router.Refresh.{refresh}
use dragon_cluster_resp_prox.Cluster.Router.Refresh.Keeps.{Refreshed, refresh-Refreshed}
use dragon_cluster_resp_prox.Cluster.Router.Pools.{Distinct, candidate_addrs-Distinct}

-- Connections that are held, and requests that were sent.
pub record Counts : Type 0 where
  pub held : ℕ
  pub sent : ℕ

abbrev two_reply : Bytes → Result Bytes Value
two_reply c =
    if equal c (codes "a:1")
    then ok (error (codes "MOVED 1 b:2"))
    else ok (simple_string (codes "OK"))

-- A cluster of two nodes: `a:1` sends every request on to `b:2`, which answers it.
abbrev pub two_nodes : Net Bytes Counts
two_nodes = record {
  cancelled = λ w. none;
  open_pool = λ addr replica w. w;
  close_pool = λ addr w. w;
  get = λ addr w. (ok addr, record w { held = w.held + 1 });
  put_back = λ addr c w. record w { held = w.held - 1 };
  drop_back = λ addr c w. record w { held = w.held - 1 };
  send = λ c q timeout w. ok (two_reply c, record w { sent = suc w.sent });
}

abbrev pub counts : Ledger two_nodes
counts = record {
  held = λ w. w.held;
  sent = λ w. w.sent;
  open_held = λ a b w. refl;
  open_sent = λ a b w. refl;
  get_held = λ a w. refl;
  get_sent = λ a w. refl;
  put_held = λ a c w. refl;
  put_sent = λ a c w. refl;
  drop_held = λ a c w. refl;
  drop_sent = λ a c w. refl;
  sends = λ c q t w. ((two_reply c, record w { sent = suc w.sent }), refl, (refl, refl));
}

abbrev pub seeded : Config
seeded = record defaults { cluster_seeds = codes "a:1" ∷ codes "a:1" ∷ [] }

abbrev pub unknown_cluster : Router
unknown_cluster = record {
  slots = record { ptr = none; gen = 0 };
  flavor = Flavor.undetected;
  pools = codes "c:3" ∷ [];
}

abbrev pub nothing_yet : Counts
nothing_yet = record { held = 0; sent = 0 }

abbrev get_k : Request
get_k = argv (buf (codes "GET") ∷ buf (codes "k") ∷ [])

exec_frame-Settled_example :
    Returns
      (Settled two_nodes counts seeded 5 nothing_yet)
      (exec_frame two_nodes seeded 1 get_k true (pos 0) false unknown_cluster nothing_yet)
unfolding defaults
exec_frame-Settled_example =
    exec_frame-Settled two_nodes counts seeded 1 get_k true (pos 0) false unknown_cluster
      nothing_yet tt

-- The answer of the second node, after two requests, with no connection held.
exec_frame_moved :
    Holds
      (λ out. (out.0 ≡ ok (simple_string (codes "OK"))) × (out.2 ≡ record { held = 0; sent = 2 }))
      (exec_frame two_nodes seeded 1 get_k true (pos 0) false unknown_cluster nothing_yet)
unfolding exec_frame defaults token atoi16 node_index new_empty_topology
exec_frame_moved = (refl, refl)

refresh-Refreshed_example :
    Holds
      (λ out. Refreshed seeded unknown_cluster.slots out.0 out.1)
      (refresh two_nodes seeded unknown_cluster nothing_yet)
refresh-Refreshed_example = refresh-Refreshed two_nodes seeded unknown_cluster nothing_yet

abbrev one_node : Topology
one_node = record new_empty_topology {
  nodes =
      record {
        id = [];
        addr = codes "b:2";
        role = codes "master";
        health = Health.online;
        master = true;
      }
      ∷ [];
}

candidate_addrs-Distinct_example :
    Distinct (candidate_addrs seeded unknown_cluster)
    × ((seed : Bytes)
        → seed ≢ []
        → mem_name seed seeded.cluster_seeds ≡ true
        → mem_name seed (candidate_addrs seeded unknown_cluster) ≡ true)
candidate_addrs-Distinct_example = candidate_addrs-Distinct seeded unknown_cluster
