-- ===== src/Proxy/Keyspace/Moves.antt =====
-- internal/proxy/session.go: what `transferKey` does to the keys of a cluster.
use dragon_cluster_resp_prox.Base.{
  ◌≡◌, ◌≢◌, pos, true, false, [], ◌∷◌, Bytes, content, Slice, buf, Option, none, some, ok,
}
use dragon_cluster_resp_prox.Resp.Value.{Value, integer, bulk_string, null_bulk}
use dragon_cluster_resp_prox.Cluster.Routing.{slot_of}
use dragon_cluster_resp_prox.Proxy.Transaction.{ok_reply}
use dragon_cluster_resp_prox.Proxy.Service.{Service}
use dragon_cluster_resp_prox.Proxy.Keyspace.{word, ask_key, restore}

abbrev pub present : Option Bytes → Value
present none = integer (pos 0)
present (some d) = integer (pos 1)

abbrev pub dump_reply : Option Bytes → Value
dump_reply none = null_bulk
dump_reply (some d) = bulk_string (buf d)

-- One key changes.
abbrev pub Changed : (Bytes → Option Bytes) → (Bytes → Option Bytes) → Bytes → Option Bytes → Type 0
Changed before after k v = (after k ≡ v) × ((j : Bytes) → j ≢ k → after j ≡ before j)

abbrev pub Same : (Bytes → Option Bytes) → (Bytes → Option Bytes) → Type 0
Same before after = (j : Bytes) → after j ≡ before j

-- A cluster whose keys have values, as the documentation of its commands has it. While it is ready, its
-- nodes answer; what else is in the state, such as the pools of connections, may change with a request.
pub record KeyStore {C W : Type 0} (b : Service C W) : Type 1 where
  pub Ready : W → Type 0
  pub value_of : W → Bytes → Option Bytes
  pub some_bytes : (w : W) (k d : Bytes) → value_of w k ≡ some d → d ≢ []
  pub exists :
      (k : Slice) (w : W)
      → Ready w
      → (after : W) × (ask_key b k (word "EXISTS" ∷ k ∷ []) true w
          ≡ ok (ok (present (value_of w (content k))), after))
        × Ready after
        × Same (value_of w) (value_of after)
  pub dump :
      (k : Slice) (w : W)
      → Ready w
      → (after : W) × (ask_key b k (word "DUMP" ∷ k ∷ []) true w
          ≡ ok (ok (dump_reply (value_of w (content k))), after))
        × Ready after
        × Same (value_of w) (value_of after)
  pub restore :
      (k : Slice) (d : Bytes) (w : W)
      → Ready w
      → d ≢ []
      → value_of w (content k) ≡ none
      → (after : W) × (ask_key b k (word "RESTORE" ∷ k ∷ word "0" ∷ buf d ∷ []) false w
          ≡ ok (ok ok_reply, after))
        × Ready after
        × Changed (value_of w) (value_of after) (content k) (some d)
  pub del :
      (k : Slice) (w : W)
      → Ready w
      → (after : W) × (v : Value) × (ask_key b k (word "DEL" ∷ k ∷ []) false w ≡ ok (ok v, after))
        × Ready after
        × Changed (value_of w) (value_of after) (content k) none
  pub rename :
      (src dst : Slice) (d : Bytes) (w : W)
      → Ready w
      → slot_of b.backend.delimiters src ≡ slot_of b.backend.delimiters dst
      → content src ≢ content dst
      → value_of w (content src) ≡ some d
      → (after : W) × (ask_key b src (word "RENAME" ∷ src ∷ dst ∷ []) false w
          ≡ ok (ok ok_reply, after))
        × Ready after
        × (value_of after (content src) ≡ none)
        × (value_of after (content dst) ≡ some d)
        × ((j : Bytes) → j ≢ content src → j ≢ content dst → value_of after j ≡ value_of w j)

module _ {C W : Type 0} (b : Service C W) (store : KeyStore b) where
  -- The value goes from one key to another one, and nothing else changes.
  abbrev pub Moved : Slice → Slice → Bytes → W → W → Type 0
  Moved src dst d w after =
      store.Ready after
      × (store.value_of after (content src) ≡ none)
      × (store.value_of after (content dst) ≡ some d)
      × ((j : Bytes)
          → j ≢ content src
          → j ≢ content dst
          → store.value_of after j ≡ store.value_of w j)
