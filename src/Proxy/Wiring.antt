-- ===== src/Proxy/Wiring.antt =====
-- The sessions of internal/proxy over the router of internal/cluster: what a session asks for is what
-- the router does. A connection goes with the address of its pool.
pub mod Blocking
use dragon_cluster_resp_prox.Base.{
  ℕ, ℤ, Bool, false, List, [], Bytes, Argv, Option, none, some, Result, Go, ok, err, ◌>>=◌,
}
use dragon_cluster_resp_prox.Resp.Value.{Value}
use dragon_cluster_resp_prox.Cluster.Topology.{update_slot}
use dragon_cluster_resp_prox.Cluster.Routing.{Delimiters, generation_of}
use dragon_cluster_resp_prox.Config.{Config, hash_tag_runes}
use dragon_cluster_resp_prox.Cluster.Router.{
  Net, argv, Router, flavor_of, candidate_addrs, node_or_master, checkout, checkout_addr,
}
use dragon_cluster_resp_prox.Cluster.Router.Exec.{exec, exec_raw}
use dragon_cluster_resp_prox.Proxy.Transaction.{Backend}
use dragon_cluster_resp_prox.Proxy.Service.{Service}

-- What a session needs of a connection and of the subscriptions, besides what the router needs. As for
-- `Net`, a reply can make the reader panic.
pub record Wire (C W : Type 0) : Type 0 where
  pub write_raw : C → Argv → W → Option Bytes × W
  pub write_frames : C → Bytes → W → Option Bytes × W
  pub read : C → W → Go (Result Bytes Value × W)
  pub subscribe : Argv → W → Result Bytes (List Value) × W

-- A result with a state in two parts.
abbrev pub joined {ℓ} : {A : Type ℓ} {W : Type 0} → A × Router × W → A × (Router × W)
joined (a, r, w) = (a, (r, w))

module _ {C W : Type 0} (net : Net C W) (wire : Wire C W) (cfg : Config) where
  abbrev on_net {ℓ} : {A : Type ℓ} → (W → A × W) → Router × W → A × (Router × W)
  on_net act s = let (a, after) = act s.1 in (a, (s.0, after))

  abbrev go_on_net {ℓ} : {A : Type ℓ} → (W → Go (A × W)) → Router × W → Go (A × (Router × W))
  go_on_net act s = act s.1 >>= λ out. ok (out.0, (s.0, out.1))

  abbrev pub backend_of : Backend (Bytes × C) (Router × W)
  backend_of = record {
    delimiters = record { open_byte = (hash_tag_runes cfg).0; close_byte = (hash_tag_runes cfg).1 };
    max_databases = cfg.max_databases;
    generation = λ s. generation_of s.0.slots;
    checkout = λ slot s. joined (checkout net cfg slot s.0 s.1);
    put = λ c s. (s.0, net.put_back c.0 c.1 s.1);
    drop_conn = λ c s. (s.0, net.drop_back c.0 c.1 s.1);
    write_raw = λ c args s. on_net (wire.write_raw c.1 args) s;
    read = λ c s. go_on_net (wire.read c.1) s;
    do_argv = λ c args s. go_on_net (net.send c.1 (argv args) cfg.read_timeout) s;
  }

  abbrev pub service_of : Bytes → Service (Bytes × C) (Router × W)
  service_of version = record {
    backend = backend_of;
    version = version;
    read_timeout = cfg.read_timeout;
    blocking_max_wait = cfg.blocking_max_wait;
    max_pipeline = cfg.max_pipeline;
    exec = λ slot args read timeout s.
        exec net cfg slot args read timeout s.0 s.1 >>= λ out. ok (joined out);
    exec_raw = λ slot bytes read timeout s.
        exec_raw net cfg slot bytes read timeout s.0 s.1 >>= λ out. ok (joined out);
    update_slot = λ slot addr s.
        update_slot slot addr [] s.0.slots >>= λ m. ok (record s.0 { slots = m }, s.1);
    node_addr =
        λ slot s. elim (node_or_master cfg s.0 slot false) [ none ↦ none | some n ↦ some n.addr ];
    master_addrs = λ s. candidate_addrs cfg s.0;
    flavor = λ s. flavor_of s.0;
    checkout_addr = λ addr s. joined (checkout_addr net cfg addr s.0 s.1);
    do_waiting = λ c args timeout s. go_on_net (net.send c.1 (argv args) timeout) s;
    write_frames = λ c bytes s. on_net (wire.write_frames c.1 bytes) s;
    subscribe = λ args s. on_net (wire.subscribe args) s;
  }
