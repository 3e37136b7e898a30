-- ===== src/Proxy/Pipeline/Nodes.antt =====
-- internal/proxy/pipeline.go: what a batch is answered by nodes that answer in order.
use dragon_cluster_resp_prox.Base.{
  ℕ, ◌≡◌, false, List, [], ◌∷◌, ◌++◌, map, Bytes, Option, none, some, All, Result, Go, ok, err,
  ◌>>=◌,
}
use dragon_cluster_resp_prox.Resp.Value.{Value}
use dragon_cluster_resp_prox.Proxy.Service.{Service}
use dragon_cluster_resp_prox.Proxy.Pipeline.{
  Sent, PipeItem, AddrGroup, request_at, names_redirect, read_replies, replies_read,
}

-- Frames, one behind the other.
abbrev pub joined : List Bytes → Bytes
joined [] = []
joined (f ∷ fs) = f ++ joined fs

-- Nodes that answer: `answer a f` is what the node at `a` replies to a command that is the frame `f`, and
-- `Pending a c vs` says that the connection `c` to `a` has the replies `vs` to come. A node takes the
-- commands of what is written one after the other and replies in their order.
pub record Nodes {C W : Type 0} (b : Service C W) : Type 1 where
  pub Ready : W → Type 0
  pub Pending : Bytes → C → List Value → W → Type 0
  pub IsCommand : Bytes → Type 0
  pub answer : Bytes → Bytes → Value
  pub no_redirect : (a f : Bytes) → names_redirect (answer a f) ≡ false
  pub checks_out :
      (a : Bytes) (w : W)
      → Ready w
      → (c : C) × (after : W) × (b.checkout_addr a w ≡ (ok c, after)) × Pending a c [] after
  pub writes :
      (a : Bytes) (c : C) (fs : List Bytes) (w : W)
      → All IsCommand fs
      → Pending a c [] w
      → (after : W) × (b.write_frames c (joined fs) w ≡ (none, after))
        × Pending a c (map (answer a) fs) after
  pub delivers :
      (a : Bytes) (c : C) (v : Value) (vs : List Value) (w : W)
      → Pending a c (v ∷ vs) w
      → (after : W) × (b.backend.read c w ≡ ok (ok v, after)) × Pending a c vs after
  pub puts : (a : Bytes) (c : C) (w : W) → Pending a c [] w → Ready (b.backend.put c w)

-- The request at a position goes to the address.
abbrev Goes : List PipeItem → Bytes → ℕ → Type 0
Goes items a i = (q : Sent) × (request_at items i ≡ some q) × (q.addr ≡ a)

abbrev Grouped : List PipeItem → AddrGroup → Type 0
Grouped items g = All (Goes items g.addr) g.index

abbrev frame_at : List PipeItem → ℕ → Bytes
frame_at items i = elim (request_at items i) [ none ↦ [] | some q ↦ q.frame ]

module _ {C W : Type 0} (b : Service C W) (nodes : Nodes b) where
  -- What the node of a request replies to it.
  abbrev pub node_reply : Sent → Value
  node_reply q = nodes.answer q.addr q.frame

  -- The items' requests are commands.
  abbrev pub AreCommands : List PipeItem → Type 0
  AreCommands items = (i : ℕ) (q : Sent) → request_at items i ≡ some q → nodes.IsCommand q.frame

  -- What follows when the frames of a group are written.
  abbrev written :
      List PipeItem → List ℕ → C → Option Bytes × W → Go (Result Bytes (List Value) × W)
  written items index c p = elim p.0 [
    | some e ↦ ok (err e, b.backend.drop_conn c p.1)
    | none ↦ read_replies b c index p.1 >>= replies_read b items index c
  ]
