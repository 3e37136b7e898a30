-- ===== src/Cluster/Router/Exec.antt =====
-- internal/cluster/router.go: a request is sent to the owner of its slot and follows MOVED and ASK.
pub mod Ledger
pub mod Settles
use dragon_cluster_resp_prox.Base.{
  ℕ, zero, suc, ℤ, pos, pos_part, ltb_ℤ, Bool, true, false, not, ◌&&◌, List, [], ◌∷◌, if◌then◌else◌,
  Bytes, codes, equal, content, buf, Argv, Option, none, some, Result, Go, ok, err, ◌>>=◌,
}
use dragon_cluster_resp_prox.Resp.Value.{Value, is_error, str, zero_value}
use dragon_cluster_resp_prox.Cluster.Slot.{Redirect, moved, parse_redirect}
use dragon_cluster_resp_prox.Cluster.Topology.{Node, update_slot}
use dragon_cluster_resp_prox.Config.{Config}
use dragon_cluster_resp_prox.Cluster.Router.{
  Net, Request, argv, frame, Router, no_nodes, node_or_master, pool_for,
}

-- How a hop ends: with what is given back, or with a redirect.
pub data Outcome : Type 0 where
  stop : Result Bytes Value → Outcome
  follow : Redirect → Value → Outcome

unfoldable pub outcome_of : Value → Outcome
unfolding parse_redirect
outcome_of v =
    if not (is_error v)
    then stop (ok v)
    else elim (parse_redirect (content (str v))) [ none ↦ stop (ok v) | some red ↦ follow red v ]

-- Where a hop goes: to the address of a redirect, or to the slot's node, or to any master.
unfoldable pub target : Config → Router → ℕ → Bytes → Bool → Option Bytes
unfolding node_or_master
target cfg r slot (c ∷ hint) read = some (c ∷ hint)
target cfg r slot [] read = elim (node_or_master cfg r slot read) [
  | none ↦ none
  | some n ↦ some n.addr
]

abbrev asking_request : Request
asking_request = argv (buf (codes "ASKING") ∷ [])

module _ {C W : Type 0} (net : Net C W) (cfg : Config) where
  -- The connection goes back with a reply, and is dropped with an error.
  unfoldable pub given_up : Bytes → C → Result Bytes Value × W → Outcome × W
  unfolding outcome_of
  given_up a c (err e, w) = (stop (err e), net.drop_back a c w)
  given_up a c (ok v, w) = (outcome_of v, net.put_back a c w)

  unfoldable pub request_on : Bytes → C → Request → ℤ → W → Go (Outcome × W)
  unfolding given_up
  request_on a c q timeout w = net.send c q timeout w >>= λ out. ok (given_up a c out)

  -- What follows on the reply to ASKING.
  unfoldable pub after_asking : Bytes → C → Request → ℤ → Result Bytes Value × W → Go (Outcome × W)
  unfolding request_on
  after_asking a c q timeout (err e, w) = ok (stop (err e), net.drop_back a c w)
  after_asking a c q timeout (ok v, w) = request_on a c q timeout w

  unfoldable pub asked_on : Bytes → C → Request → ℤ → W → Go (Outcome × W)
  unfolding after_asking
  asked_on a c q timeout w =
      net.send c asking_request cfg.read_timeout w >>= after_asking a c q timeout

  -- On the connection that the pool gives, if it gives one.
  unfoldable pub hop_on : Bytes → Result Bytes C → Request → ℤ → Bool → W → Go (Outcome × W)
  unfolding asked_on request_on
  hop_on a (err e) q timeout asking w = ok (stop (err e), w)
  hop_on a (ok c) q timeout true w = asked_on a c q timeout w
  hop_on a (ok c) q timeout false w = request_on a c q timeout w

  unfoldable pub hop_to : Bytes → Request → ℤ → Bool → Bool → Router → W → Go (Outcome × Router × W)
  unfolding pool_for hop_on
  hop_to addr q timeout asking read r w =
      let (a, next, opened) = pool_for net cfg addr (read && cfg.read_from_replicas) r w in
      let (got, after) = net.get a opened in
      hop_on a got q timeout asking after >>= λ out. ok (out.0, next, out.1)

  unfoldable pub hop_target :
      Option Bytes → Request → ℤ → Bool → Bool → Router → W → Go (Outcome × Router × W)
  unfolding hop_to
  hop_target none q timeout asking read r w = ok (stop (err no_nodes), r, w)
  hop_target (some addr) q timeout asking read r w = hop_to addr q timeout asking read r w

  unfoldable pub hop :
      Request → ℤ → ℕ → Bytes → Bool → Bool → Router → W → Go (Outcome × Router × W)
  unfolding target hop_target
  hop q timeout slot hint asking read r w = elim (net.cancelled w) [
    | some e ↦ ok (stop (err e), r, w)
    | none ↦ hop_target (target cfg r slot hint (read && not asking)) q timeout asking read r w
  ]

  -- What a hop's outcome leads to; `next` is the loop from there on, with `asking` and `read`.
  unfoldable pub after_hop :
      (Redirect → Bool → Bool → Value → Router → W → Go (Result Bytes Value × Router × W))
      → Outcome
      → Bool
      → Router
      → W
      → Go (Result Bytes Value × Router × W)
  unfolding update_slot equal
  after_hop next (stop result) read r w = ok (result, r, w)
  after_hop next (follow red v) read r w = elim (equal red.kind moved) [
    | true ↦ update_slot red.slot red.addr [] r.slots >>= λ m.
        next red false read v (record r { slots = m }) w
    | false ↦ next red true false v r w
  ]

  -- The hops that are left, and the last reply.
  unfoldable pub hops :
      ℕ
      → Request
      → ℤ
      → ℕ
      → Bytes
      → Bool
      → Bool
      → Value
      → Router
      → W
      → Go (Result Bytes Value × Router × W)
  unfolding hop after_hop
  hops zero q timeout slot hint asking read last r w = ok (ok last, r, w)
  hops (suc n) q timeout slot hint asking read last r w =
      hop q timeout slot hint asking read r w >>= λ out.
      after_hop (λ red. hops n q timeout red.slot red.addr) out.0 read out.1 out.2

  unfoldable pub exec_frame :
      ℕ → Request → Bool → ℤ → Bool → Router → W → Go (Result Bytes Value × Router × W)
  unfolding hops
  exec_frame slot q read read_to asking r w =
      let timeout = if ltb_ℤ (pos 0) read_to then read_to else cfg.read_timeout in
      hops (pos_part cfg.moved_hop_limit) q timeout slot [] asking read zero_value r w

  unfoldable pub exec : ℕ → Argv → Bool → ℤ → Router → W → Go (Result Bytes Value × Router × W)
  unfolding exec_frame
  exec slot args read read_to r w = exec_frame slot (argv args) read read_to false r w

  -- The frame is not nil.
  unfoldable pub exec_raw : ℕ → Bytes → Bool → ℤ → Router → W → Go (Result Bytes Value × Router × W)
  unfolding exec_frame
  exec_raw slot bytes read read_to r w = exec_frame slot (frame bytes) read read_to false r w
