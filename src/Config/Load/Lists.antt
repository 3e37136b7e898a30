-- ===== src/Config/Load/Lists.antt =====
-- internal/config/load.go: the lists of the environment.
use dragon_cluster_resp_prox.Base.{
  ◌≡◌, ◌≢◌, refl, ap, ◌∙◌, arith, List, [], ◌∷◌, ◌++◌, Bytes, equal_iff, All,
}
use dragon_cluster_resp_prox.Config.Load.{trim_space, split_commas, drop_empty, split_csv}

-- The items with a comma between two of them.
abbrev pub join : Bytes → List Bytes → Bytes
join p [] = p
join p (q ∷ ps) = p ++ (b',' ∷ join q ps)

-- An item that is kept as it is: no white space at its ends, not empty, no comma.
abbrev pub IsItem : Bytes → Type 0
IsItem p = (trim_space p ≡ p) × (p ≢ []) × All (λ c. c ≢ b',') p

split_commas-single : (p : Bytes) → All (λ c. c ≢ b',') p → split_commas p ≡ p ∷ []
unfolding split_commas
split_commas-single [] h = refl
split_commas-single (c ∷ p) h = ground (arith, split_commas-single p h.1)

split_commas-append :
    (p q : Bytes) → All (λ c. c ≢ b',') p → split_commas (p ++ (b',' ∷ q)) ≡ p ∷ split_commas q
unfolding split_commas
split_commas-append [] q h = refl
split_commas-append (c ∷ p) q h = ground (arith, split_commas-append p q h.1)

split_commas-join :
    (p : Bytes) (ps : List Bytes) → IsItem p → All IsItem ps → split_commas (join p ps) ≡ p ∷ ps
split_commas-join p [] h hs = split_commas-single p h.2
split_commas-join p (q ∷ ps) h hs =
    split_commas-append p (join q ps) h.2 ∙ ap (λ r. p ∷ r) (split_commas-join q ps hs.0 hs.1)

drop_empty-All : (ps : List Bytes) → All IsItem ps → drop_empty ps ≡ ps
unfolding drop_empty
drop_empty-All [] h = refl
drop_empty-All (p ∷ ps) h = ground (arith, equal_iff p [], drop_empty-All ps h.1)

-- Items with no white space at their ends, none of them empty or with a comma, are found again in the
-- text that has commas between them.
pub split_csv-join :
    (p : Bytes) (ps : List Bytes) → IsItem p → All IsItem ps → split_csv (join p ps) ≡ p ∷ ps
unfolding split_csv
split_csv-join p ps h hs =
    ap drop_empty (split_commas-join p ps h hs) ∙ drop_empty-All (p ∷ ps) (h, hs)
