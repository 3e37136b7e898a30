-- ===== src/Examples/OnSlots.antt =====
-- internal/cluster at concrete inputs.
use dragon_cluster_resp_prox.Base.{◌≡◌, refl, inl, arith, [], ◌∷◌, ◌++◌, codes, some, get_or}
use dragon_cluster_resp_prox.Cluster.Crc16.{table, divide_byte, get_or-table}
use dragon_cluster_resp_prox.Cluster.Slot.{Redirect, moved, key_slot, parse_redirect}
use dragon_cluster_resp_prox.Cluster.Slot.HashTag.{key_slot_braced}
use dragon_cluster_resp_prox.Cluster.Slot.Redirects.{
  redirect_text, parse_redirect-redirect_text, Parsed, parse_redirect-Parsed,
}

get_or-table_example : get_or table 200 0 ≡ divide_byte 200
get_or-table_example = get_or-table 200 (omega arith)

key_slot_braced_example :
    key_slot (codes "a" ++ (b'{' ∷ (codes "t" ++ (b'}' ∷ [])))) b'{' b'}'
    ≡ key_slot ([] ++ (b'{' ∷ (codes "t" ++ (b'}' ∷ codes "b{c}")))) b'{' b'}'
key_slot_braced_example =
    key_slot_braced b'{' b'}' (codes "t") (codes "a") [] [] (codes "b{c}") (ground arith)
      (ground arith) (ground arith) (λ e. cc)

abbrev elsewhere : Redirect
elsewhere = record { kind = moved; slot = 3999; addr = codes "127.0.0.1:6381" }

parse_redirect-redirect_text_example : parse_redirect (redirect_text elsewhere) ≡ some elsewhere
parse_redirect-redirect_text_example =
    parse_redirect-redirect_text elsewhere (inl refl) (omega arith) (λ e. cc)

parse_redirect-Parsed_example : Parsed (redirect_text elsewhere) elsewhere
parse_redirect-Parsed_example =
    parse_redirect-Parsed (redirect_text elsewhere) parse_redirect-redirect_text_example
