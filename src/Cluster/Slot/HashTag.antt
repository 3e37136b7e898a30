-- ===== src/Cluster/Slot/HashTag.antt =====
-- Which keys share a slot.
use dragon_cluster_resp_prox.Base.{
  ℕ, zero, suc, ◌%◌, ◌≡◌, ◌≢◌, ◌<◌, refl, ap, [], ◌∷◌, ◌++◌, Bytes, Option, none, some, length,
  take, drop, All, arith, ◌⊎◌, inl, inr, Option-cases,
}
use dragon_cluster_resp_prox.Resp.Value.{index_byte}
use dragon_cluster_resp_prox.Cluster.Crc16.{slot_count, crc16}
use dragon_cluster_resp_prox.Cluster.Slot.{tag_of, hash_tag, key_slot}

abbrev pub Lacks : ℕ → Bytes → Type 0
Lacks b = All (λ c. c ≢ b)

pub index_byte-append :
    (b : ℕ) (pre post : Bytes) → Lacks b pre → index_byte (pre ++ (b ∷ post)) b ≡ some (length pre)
unfolding index_byte
index_byte-append b [] post h = ground arith
index_byte-append b (c ∷ pre) post h = ground (arith, index_byte-append b pre post h.1)

pub take-append : (xs ys : Bytes) → take (length xs) (xs ++ ys) ≡ xs
take-append [] ys = refl
take-append (x ∷ xs) ys = cc (take-append xs ys)

pub drop-append : (xs : Bytes) (y : ℕ) (ys : Bytes) → drop (suc (length xs)) (xs ++ (y ∷ ys)) ≡ ys
drop-append [] y ys = refl
drop-append (x ∷ xs) y ys = drop-append xs y ys

pub index_byte-none : (b : ℕ) (s : Bytes) → Lacks b s → index_byte s b ≡ none
unfolding index_byte
index_byte-none b [] h = refl
index_byte-none b (c ∷ s) h = ground (arith, index_byte-none b s h.1)

-- What stands before the first occurrence does not hold the byte.
abbrev LacksTo : ℕ → Bytes → Option ℕ → Type 0
LacksTo b s none = Lacks b s
LacksTo b s (some i) = Lacks b (take i s)

index_byte-LacksTo : (b : ℕ) (s : Bytes) → LacksTo b s (index_byte s b)
unfolding index_byte
index_byte-LacksTo b [] = tt
index_byte-LacksTo b (c ∷ s) = ground (arith, index_byte-LacksTo b s)

-- The tag is what the first pair of delimiters encloses, if that is not empty: no opening delimiter
-- stands before it, and no closing one in it.
pub hash_tag_braced :
    (o c : ℕ) (pre tag post : Bytes)
    → Lacks o pre
    → Lacks c tag
    → tag ≢ []
    → hash_tag (pre ++ (o ∷ (tag ++ (c ∷ post)))) o c ≡ tag
unfolding hash_tag
hash_tag_braced o c pre [] post h k ne = absurd (ne refl)
hash_tag_braced o c pre (x ∷ tag) post h k ne =
    rw (index_byte-append o pre ((x ∷ tag) ++ (c ∷ post)) h, hash_tag)
      (rw (drop-append pre o ((x ∷ tag) ++ (c ∷ post)))
        (rw (index_byte-append c (x ∷ tag) post k, tag_of) (take-append (x ∷ tag) (c ∷ post))))

-- Two keys with the same tag share a slot, whatever stands around the tag: no opening delimiter stands
-- before it, no closing one in it, and it is not empty.
pub key_slot_braced :
    (o c : ℕ) (tag pre pre' post post' : Bytes)
    → Lacks o pre
    → Lacks o pre'
    → Lacks c tag
    → tag ≢ []
    → key_slot (pre ++ (o ∷ (tag ++ (c ∷ post)))) o c
      ≡ key_slot (pre' ++ (o ∷ (tag ++ (c ∷ post')))) o c
unfolding key_slot
key_slot_braced o c tag pre pre' post post' h h' k ne =
    rw (hash_tag_braced o c pre tag post h k ne, hash_tag_braced o c pre' tag post' h' k ne) refl

Lacks-drop : (b n : ℕ) (s : Bytes) → Lacks b s → Lacks b (drop n s)
Lacks-drop b zero s h = h
Lacks-drop b (suc n) [] h = h
Lacks-drop b (suc n) (c ∷ s) h = Lacks-drop b n s h.1

-- A key without a closing delimiter has no tag.
hash_tag_unclosed : (key : Bytes) (o c : ℕ) → Lacks c key → hash_tag key o c ≡ key
unfolding hash_tag
hash_tag_unclosed key o c h = elim (Option-cases (index_byte key o)) [
  | inl e ↦ rw (e, hash_tag) refl
  | inr (i, e) ↦
      rw (e, hash_tag)
        (rw (index_byte-none c (drop (suc i) key) (Lacks-drop c (suc i) key h), tag_of) refl)
]

abbrev IsTag : ℕ → Bytes → Bytes → Type 0
IsTag c key tag = (tag ≡ key) ⊎ Lacks c tag

tag_of-IsTag :
    (c : ℕ) (key rest : Bytes) (i : Option ℕ) → LacksTo c rest i → IsTag c key (tag_of key rest i)
unfolding tag_of
tag_of-IsTag c key rest none h = inl refl
tag_of-IsTag c key rest (some zero) h = inl refl
tag_of-IsTag c key rest (some (suc i)) h = inr h

hash_tag-IsTag : (key : Bytes) (o c : ℕ) → IsTag c key (hash_tag key o c)
unfolding hash_tag
hash_tag-IsTag key o c = elim (Option-cases (index_byte key o)) [
  | inl e ↦ rw (e, hash_tag) (inl refl)
  | inr (i, e) ↦
      let rest = drop (suc i) key in
      rw (e, hash_tag) (tag_of-IsTag c key rest (index_byte rest c) (index_byte-LacksTo c rest))
]

-- A key and its hash tag have the same tag, and so the same slot.
pub key_slot-hash_tag :
    (key : Bytes) (o c : ℕ)
    → (hash_tag (hash_tag key o c) o c ≡ hash_tag key o c)
      × (key_slot (hash_tag key o c) o c ≡ key_slot key o c)
unfolding key_slot
key_slot-hash_tag key o c =
    let same : hash_tag (hash_tag key o c) o c ≡ hash_tag key o c = elim (hash_tag-IsTag key o c) [
      | inl e ↦ ap (λ k. hash_tag k o c) e
      | inr h ↦ hash_tag_unclosed (hash_tag key o c) o c h
    ] in
    (same, ap (λ k. crc16 k % slot_count) same)

pub key_slot-lt : (key : Bytes) (o c : ℕ) → key_slot key o c < slot_count
unfolding key_slot
key_slot-lt key o c = omega arith
