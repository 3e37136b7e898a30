-- ===== src/Cluster/Slot/Redirects.antt =====
-- What `ParseRedirect` accepts, and what it makes of it; addresses.
use dragon_cluster_resp_prox.Base.{
  ℕ, suc, ◌+◌, ◌-◌, ◌*◌, ◌≡◌, ◌≢◌, ◌<◌, ◌≤◌, refl, ap, ◌∙◌, false, not, ◌&&◌, [], ◌∷◌, ◌++◌, Bytes,
  Option, none, some, length, length-append, take, drop, All, arith, ◌⊎◌, inl, inr, Option-cases,
  equal, equal_iff, Bool-cases,
}
use dragon_cluster_resp_prox.Resp.Value.{index_byte}
use dragon_cluster_resp_prox.Resp.Decimal.{
  scan, decimal, decimal-All, IsDigit, decimal-ne-nil, scan-decimal,
}
use dragon_cluster_resp_prox.Cluster.Crc16.{slot_count}
use dragon_cluster_resp_prox.Cluster.Slot.{
  Redirect, moved, ask, atoi16_from, atoi16, token, redirect_to, parse_redirect, last_colon,
  split_host_port,
}
use dragon_cluster_resp_prox.Cluster.Slot.HashTag.{
  Lacks, index_byte-append, take-append, drop-append,
}

scan-ge : (b : Bytes) (n r : ℕ) → scan b n ≡ some r → n ≤ r
unfolding scan
scan-ge [] n r h = ground arith
scan-ge (c ∷ b) n r h = ground (arith, scan-ge b (n * 10 + (c - b'0')) r)

-- The loop gives the number that the digits spell, if that is a slot.
atoi16_from-scan :
    (b : Bytes) (n r : ℕ) → scan b n ≡ some r → r < slot_count → atoi16_from n b ≡ some r
unfolding scan atoi16_from
atoi16_from-scan [] n r h lt = h
atoi16_from-scan (c ∷ b) n r h lt =
    ground (arith, atoi16_from-scan b (n * 10 + (c - b'0')) r, scan-ge b (n * 10 + (c - b'0')) r)

atoi16_from_sound :
    (b : Bytes) (n r : ℕ)
    → n < slot_count
    → atoi16_from n b ≡ some r
    → (scan b n ≡ some r) × (r < slot_count)
unfolding scan atoi16_from
atoi16_from_sound [] n r lt h = ground arith
atoi16_from_sound (c ∷ b) n r lt h = ground (arith, atoi16_from_sound b (n * 10 + (c - b'0')) r)

Splits : ℕ → Bytes → Option ℕ → Type 0
Splits b s none = Unit
Splits b s (some i) = s ≡ take i s ++ (b ∷ drop (suc i) s)

index_byte-Splits : (b : ℕ) (s : Bytes) → Splits b s (index_byte s b)
unfolding index_byte Splits
index_byte-Splits b [] = tt
index_byte-Splits b (c ∷ s) = ground (arith, index_byte-Splits b s)

token_sound : (s a b : Bytes) → token s ≡ some (a, b) → s ≡ a ++ (b' ' ∷ b)
unfolding token Splits
token_sound s a b h = ground (arith, index_byte-Splits b' ' s)

token-append : (a b : Bytes) → a ≢ [] → Lacks b' ' a → token (a ++ (b' ' ∷ b)) ≡ some (a, b)
unfolding token
token-append [] b ne h = absurd (ne refl)
token-append (c ∷ a) b ne h =
    rw (index_byte-append b' ' (c ∷ a) b h, token)
      (rw (take-append (c ∷ a) (b' ' ∷ b), drop-append (c ∷ a) b' ' b) (ground arith))

Lacks-digits : (s : Bytes) → All IsDigit s → Lacks b' ' s
Lacks-digits [] h = tt
Lacks-digits (c ∷ s) h = (omega arith, Lacks-digits s h.1)

atoi16-scan : (s : Bytes) (n : ℕ) → s ≢ [] → scan s 0 ≡ some n → n < slot_count → atoi16 s ≡ some n
unfolding atoi16
atoi16-scan [] n ne e lt = absurd (ne refl)
atoi16-scan (c ∷ s) n ne e lt = atoi16_from-scan (c ∷ s) 0 n e lt

-- What a node answers for a key that it does not own.
abbrev pub redirect_text : Redirect → Bytes
redirect_text r = r.kind ++ (b' ' ∷ (decimal r.slot ++ (b' ' ∷ r.addr)))

IsKind : Bytes → Type 0
IsKind k = (k ≡ moved) ⊎ (k ≡ ask)

kind_test : (k : Bytes) → IsKind k → (not (equal k moved) && not (equal k ask)) ≡ false
unfolding IsKind
kind_test k (inl e) = rw ((equal_iff k moved).1 e) refl
kind_test k (inr e) = rw ((equal_iff k ask).1 e) (ground arith)

kind_token : (k rest : Bytes) → IsKind k → token (k ++ (b' ' ∷ rest)) ≡ some (k, rest)
unfolding IsKind
kind_token k rest (inl e) = rw e (token-append moved rest (cc) (omega arith))
kind_token k rest (inr e) = rw e (token-append ask rest (cc) (omega arith))

atoi16-decimal : (n : ℕ) → n < slot_count → atoi16 (decimal n) ≡ some n
atoi16-decimal n lt = atoi16-scan (decimal n) n (decimal-ne-nil n) (scan-decimal n) lt

redirect_to_known :
    (kind digits addr : Bytes) (n : ℕ)
    → addr ≢ []
    → atoi16 digits ≡ some n
    → n < slot_count
    → redirect_to kind digits addr ≡ some (record { kind = kind; slot = n; addr = addr })
unfolding redirect_to
redirect_to_known kind digits [] n ne e lt = absurd (ne refl)
redirect_to_known kind digits (c ∷ addr) n ne e lt = ground arith

redirect_to_sound :
    (kind digits addr : Bytes) (r : Redirect)
    → redirect_to kind digits addr ≡ some r
    → (r.kind ≡ kind) × (atoi16 digits ≡ some r.slot) × (r.addr ≡ addr) × (r.addr ≢ [])
unfolding redirect_to
redirect_to_sound kind digits [] r h = cc
redirect_to_sound kind digits (c ∷ addr) r h = ground arith

atoi16_sound : (s : Bytes) (n : ℕ) → atoi16 s ≡ some n → (scan s 0 ≡ some n) × (n < slot_count)
unfolding atoi16
atoi16_sound [] n h = cc
atoi16_sound (c ∷ s) n h = atoi16_from_sound (c ∷ s) 0 n (omega arith) h

known-IsKind : (k : Bytes) → (not (equal k moved) && not (equal k ask)) ≡ false → IsKind k
unfolding IsKind
known-IsKind k h = ground (arith, equal_iff k moved, equal_iff k ask)

-- Every redirect with a known kind, a slot in range and an address is parsed back from its text.
pub parse_redirect-redirect_text :
    (r : Redirect)
    → (r.kind ≡ moved) ⊎ (r.kind ≡ ask)
    → r.slot < slot_count
    → r.addr ≢ []
    → parse_redirect (redirect_text r) ≡ some r
unfolding parse_redirect IsKind
parse_redirect-redirect_text r k lt ne =
    rw (kind_token r.kind (decimal r.slot ++ (b' ' ∷ r.addr)) k, parse_redirect)
      (rw (kind_test r.kind k) (
        rw
          (
            token-append (decimal r.slot) r.addr (decimal-ne-nil r.slot)
                (Lacks-digits (decimal r.slot) (decimal-All r.slot)),
            parse_redirect,
          )
          (redirect_to_known r.kind (decimal r.slot) r.addr r.slot ne (atoi16-decimal r.slot lt)
            lt)))

-- What is accepted is one of the two kinds, the digits of a slot in range, and an address that is
-- not empty, with one space between them, and nothing is lost.
pub record Parsed (payload : Bytes) (r : Redirect) : Type 0 where
  pub digits : Bytes
  pub splits : payload ≡ r.kind ++ (b' ' ∷ (digits ++ (b' ' ∷ r.addr)))
  pub kind : (r.kind ≡ moved) ⊎ (r.kind ≡ ask)
  pub number : scan digits 0 ≡ some r.slot
  pub in_range : r.slot < slot_count
  pub addressed : r.addr ≢ []

parsed :
    (payload kind rest digits addr : Bytes) (r : Redirect)
    → token payload ≡ some (kind, rest)
    → IsKind kind
    → token rest ≡ some (digits, addr)
    → redirect_to kind digits addr ≡ some r
    → Parsed payload r
unfolding IsKind
parsed payload kind rest digits addr r e k e' h =
    let (same_kind, value, same_addr, ne) = redirect_to_sound kind digits addr r h in
    let (number, lt) = atoi16_sound digits r.slot value in
    record {
      digits = digits;
      splits =
          token_sound payload kind rest e
          ∙ ap (λ t. kind ++ (b' ' ∷ t)) (token_sound rest digits addr e')
          ∙ cc;
      kind = rw same_kind k;
      number = number;
      in_range = lt;
      addressed = ne;
    }

-- A payload that is parsed is a kind, digits and an address, separated by single spaces: the kind
-- is MOVED or ASK, the digits spell the slot, the slot is in range, and the address is not empty.
pub parse_redirect-Parsed :
    (payload : Bytes) {r : Redirect} → parse_redirect payload ≡ some r → Parsed payload r
unfolding parse_redirect IsKind
parse_redirect-Parsed payload {r} h = elim (Option-cases (token payload)) [
  | inl e ↦ cc (rw (e, parse_redirect) at h)
  | inr ((kind, rest), e) ↦ elim (Bool-cases (not (equal kind moved) && not (equal kind ask))) [
    | inl bad ↦ absurd (ground arith)
    | inr good ↦ elim (Option-cases (token rest)) [
      | inl e' ↦ absurd (ground arith)
      | inr ((digits, addr), e') ↦
          parsed payload kind rest digits addr r e (known-IsKind kind good) e' (ground arith)
    ]
  ]
]

-- The last colon of a text that is split at one.
last_colon-none : (s : Bytes) → Lacks b':' s → last_colon s ≡ none
unfolding last_colon
last_colon-none [] h = refl
last_colon-none (c ∷ s) h = ground (arith, last_colon-none s h.1)

last_colon-append :
    (host port : Bytes) → Lacks b':' port → last_colon (host ++ (b':' ∷ port)) ≡ some (length host)
unfolding last_colon
last_colon-append [] port h = rw (last_colon-none port h) refl
last_colon-append (c ∷ host) port h = rw (last_colon-append host port h) refl

-- A host and a port that are not empty are found again, colons in the host included, if the port has
-- no colon.
pub split_host_port-append :
    (host port : Bytes)
    → host ≢ []
    → port ≢ []
    → Lacks b':' port
    → split_host_port (host ++ (b':' ∷ port)) ≡ some (host, port)
unfolding split_host_port
split_host_port-append [] port ne ne' h = absurd (ne refl)
split_host_port-append (c ∷ host) [] ne ne' h = absurd (ne' refl)
split_host_port-append (c ∷ host) (d ∷ port) ne ne' h =
    rw (last_colon-append (c ∷ host) (d ∷ port) h, split_host_port)
      (rw (take-append (c ∷ host) (b':' ∷ d ∷ port), drop-append (c ∷ host) b':' (d ∷ port))
        (ground (arith, length-append (c ∷ host) (b':' ∷ d ∷ port))))
