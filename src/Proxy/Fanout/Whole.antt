-- ===== src/Proxy/Fanout/Whole.antt =====
-- internal/proxy/session.go: an MGET whose keys have several slots is answered as by one node.
use dragon_cluster_resp_prox.Base.{
  ℕ, ◌≡◌, Bool, List, [], ◌∷◌, map, Bytes, Slice, Argv, All, Result, ok, if◌then◌else◌,
}
use dragon_cluster_resp_prox.Resp.Value.{Value, array, is_error}
use dragon_cluster_resp_prox.Command.Table.{Fanout}
use dragon_cluster_resp_prox.Command.Reply.{strip_reply_keys}
use dragon_cluster_resp_prox.Cluster.Routing.{slot_of}
use dragon_cluster_resp_prox.Proxy.Service.{Service}

-- The results of requests that all succeed.
abbrev succeeded : List Value → List (Result Bytes Value)
succeeded [] = []
succeeded (v ∷ vs) = ok v ∷ succeeded vs

abbrev stripped : Bytes → ℕ → Value → Value
stripped name db v = if is_error v then v else strip_reply_keys name db v

-- A cluster whose keys have values: while it is ready, the node of a slot answers an MGET of keys that
-- all have the slot with their values, in the order in which they are asked for, and stays ready.
pub record NodeValues {C W : Type 0} (b : Service C W) (name : Slice) : Type 1 where
  pub Ready : W → Type 0
  pub value_of : Slice → Value
  pub mget :
      (slot : ℕ) (k : Slice) (keys : Argv) (read : Bool) (w : W)
      → All (λ x. slot_of b.backend.delimiters x ≡ slot) (k ∷ keys)
      → Ready w
      → (after : W) × (b.exec slot (name ∷ k ∷ keys) read b.read_timeout w
          ≡ ok (ok (array (map value_of (k ∷ keys))), after))
        × Ready after
