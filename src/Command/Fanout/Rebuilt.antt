-- ===== src/Command/Fanout/Rebuilt.antt =====
-- internal/command/fanout.go: the keys that the request of a group has.
use dragon_cluster_resp_prox.Base.{
  ℕ, zero, suc, ◌+◌, ◌≡◌, ◌≤◌, ◌<◌, refl, sym, ap, subst, ◌∙◌, Go, >>=-eq-ok, List, [], ◌∷◌, map,
  Slice, nil, Argv, length, length-append, get_or, get_elem?, some, ok, All, All-append, arith,
}
use dragon_cluster_resp_prox.Command.Table.{Fanout}
use dragon_cluster_resp_prox.Command.Keys.{key_indexes, select, extract_keys}
use dragon_cluster_resp_prox.Command.Keys.InRange.{extract_keys-key_indexes}
use dragon_cluster_resp_prox.Command.Classify.{fanout_of}
use dragon_cluster_resp_prox.Command.Fanout.{
  KeyGroup, add_key, group_from, group_by_slot, key_of, pick_keys, by_fanout, rebuild_fanout_argv,
}

-- A group that has a position, all of them below `n`.
abbrev pub Fits : ℕ → KeyGroup → Type 0
Fits n g = (1 ≤ length g.index) × All (λ i. i < n) g.index

Fits-add_key :
    (n s i : ℕ) (gs : List KeyGroup) → i < n → All (Fits n) gs → All (Fits n) (add_key s i gs)
unfolding add_key
Fits-add_key n s i [] h fit = ground arith
Fits-add_key n s i (g ∷ gs) h fit = ground (
  arith,
  Fits-add_key n s i gs h,
  length-append g.index (i ∷ []),
  All-append (λ (j : ℕ). j < n) g.index (i ∷ []) fit.0.1,
)

Fits-group_from :
    (slot_fn : Slice → ℕ) (n i : ℕ) (keys : Argv) (gs : List KeyGroup)
    → i + length keys ≤ n
    → All (Fits n) gs
    → All (Fits n) (group_from slot_fn i keys gs)
unfolding group_from
Fits-group_from slot_fn n i [] gs h fit = fit
Fits-group_from slot_fn n i (k ∷ keys) gs h fit =
    Fits-group_from slot_fn n (suc i) keys (add_key (slot_fn k) i gs) (omega arith)
      (Fits-add_key n (slot_fn k) i gs (omega arith) fit)

pub group_by_slot-Fits :
    (slot_fn : Slice → ℕ) (keys : Argv) → All (Fits (length keys)) (group_by_slot keys slot_fn)
unfolding group_by_slot
group_by_slot-Fits slot_fn keys = Fits-group_from slot_fn (length keys) 0 keys [] (omega arith) tt

get_or-some : (s : Argv) (i : ℕ) {a : Slice} → get_elem? s i ≡ some a → get_or s i nil ≡ a
get_or-some [] i h = cc h
get_or-some (x ∷ s) zero h = cc h
get_or-some (x ∷ s) (suc i) h = get_or-some s i h

-- The position of a key gives the key.
key_of_position :
    (argv keys : Argv) (idx : List ℕ) (i : ℕ)
    → map some keys ≡ map (get_elem? argv) idx
    → i < length keys
    → key_of argv (get_elem? idx i) ≡ get_or keys i nil ∷ []
unfolding key_of
key_of_position argv [] idx i h lt = absurd (omega arith)
key_of_position argv (k ∷ keys) [] i h lt = cc h
key_of_position argv (k ∷ keys) (j ∷ idx) zero h lt =
    let here : get_elem? argv j ≡ some k = cc h in ap (λ x. x ∷ []) (get_or-some argv j here)
key_of_position argv (k ∷ keys) (j ∷ idx) (suc i) h lt =
    key_of_position argv keys idx i (cc h) (omega arith)

pick_keys-key_of :
    (argv keys : Argv) (idx index : List ℕ)
    → map some keys ≡ map (get_elem? argv) idx
    → All (λ i. i < length keys) index
    → pick_keys (key_of argv) idx index ≡ map (λ i. get_or keys i nil) index
unfolding pick_keys
pick_keys-key_of argv keys idx [] h fit = refl
pick_keys-key_of argv keys idx (i ∷ index) h fit =
    rw (key_of_position argv keys idx i h fit.0, pick_keys-key_of argv keys idx index h fit.1) refl

go_injective : {x y : Argv} → ◌≡◌ {A = Go Argv} (ok x) (ok y) → x ≡ y
go_injective h = cc

indexes_of :
    (argv keys : Argv)
    → extract_keys argv ≡ ok keys
    → (idx : List ℕ) × (key_indexes argv ≡ ok idx) × (map some keys ≡ map (get_elem? argv) idx)
unfolding extract_keys
indexes_of argv keys h =
    let (idx, at, picks) = >>=-eq-ok (key_indexes argv) (select argv) h in
    let (bounds, (found, e, same)) = extract_keys-key_indexes argv {idx = idx} at in
    let eq : found ≡ keys = go_injective (sym e ∙ h) in
    (idx, at, subst (λ ks. map some ks ≡ map (get_elem? argv) idx) eq same)

-- The request of a group is the command's name with the keys at the group's positions.
pub rebuild_fanout_argv-mget :
    (name : Slice) (args keys : Argv) (g : KeyGroup)
    → extract_keys (name ∷ args) ≡ ok keys
    → fanout_of (name ∷ args) ≡ Fanout.mget
    → All (λ i. i < length keys) g.index
    → rebuild_fanout_argv (name ∷ args) g ≡ ok (name ∷ map (λ i. get_or keys i nil) g.index)
unfolding rebuild_fanout_argv by_fanout
rebuild_fanout_argv-mget name args keys g h kind fit =
    let (idx, at, picks) = indexes_of (name ∷ args) keys h in
    rw (at, kind)
      (ap (λ ks. ok (name ∷ ks)) (pick_keys-key_of (name ∷ args) keys idx g.index picks fit))
