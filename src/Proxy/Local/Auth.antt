-- ===== src/Proxy/Local/Auth.antt =====
-- internal/proxy/local.go: who is let in.
use dragon_cluster_resp_prox.Base.{
  ◌≡◌, ◌↔◌, ◌⊎◌, ◌∙◌, inl, inr, refl, ap, arith, true, false, [], ◌∷◌, ◌++◌, All, Bytes, codes,
  content, equal, equal_iff, Slice, Option, Argv, none, some, Bool-cases, Option-cases,
}
use dragon_cluster_resp_prox.Command.Keys.{name_of}
use dragon_cluster_resp_prox.Resp.Ascii.{equal_fold}
use dragon_cluster_resp_prox.Proxy.Service.{Service, Client}
use dragon_cluster_resp_prox.Proxy.Local.{
  auth_password, do_auth, hello_password, hello_auth, hello, reset, handle_local,
}

abbrev pub IsAuth : Slice → Type 0
IsAuth a = equal_fold (content a) (codes "AUTH") ≡ true

-- AUTH's arguments: the password, alone or behind a user's name.
abbrev pub AuthArgs : Argv → Bytes → Type 0
AuthArgs args pass =
    (p : Slice) × (content p ≡ pass) × ((args ≡ p ∷ []) ⊎ ((u : Slice) × (args ≡ u ∷ p ∷ [])))

-- HELLO's arguments: behind the first word AUTH stand a user's name and the password.
abbrev pub HelloArgs : Argv → Bytes → Type 0
HelloArgs args pass =
    (before : Argv) × (a : Slice) × (u : Slice) × (p : Slice) × (after : Argv) × (args
      ≡ before ++ (a ∷ u ∷ p ∷ after))
    × All (λ x. equal_fold (content x) (codes "AUTH") ≡ false) before
    × IsAuth a
    × (content p ≡ pass)

-- A command that gives a password: AUTH, or HELLO with AUTH among its arguments.
abbrev pub Gives : Slice → Argv → Bytes → Type 0
Gives name args pass =
    ((equal (name_of (name ∷ args)) (codes "AUTH") ≡ true) × AuthArgs args pass)
    ⊎ ((equal (name_of (name ∷ args)) (codes "HELLO") ≡ true) × HelloArgs args pass)

some_injective : {x y : Bytes} → ◌≡◌ {A = Option Bytes} (some x) (some y) → x ≡ y
some_injective h = cc

auth_password-AuthArgs :
    (name : Slice) (args : Argv) (pass : Bytes)
    → (auth_password (name ∷ args) ≡ some pass) ↔ AuthArgs args pass
auth_password-AuthArgs name [] pass =
    (λ h. cc h, λ h. elim (h.2) [ inl e ↦ cc e | inr e ↦ cc (e.1) ])
auth_password-AuthArgs name (p ∷ []) pass = (
  λ h. (p, some_injective h, inl refl),
  λ h. elim (h.2) [ inl e ↦ cc (e, h.1) | inr e ↦ cc (e.1) ],
)
auth_password-AuthArgs name (u ∷ p ∷ []) pass = (
  λ h. (p, some_injective h, inr (u, refl)),
  λ h. elim (h.2) [ inl e ↦ cc e | inr e ↦ cc (e.1, h.1) ],
)
auth_password-AuthArgs name (u ∷ p ∷ q ∷ more) pass =
    (λ h. cc h, λ h. elim (h.2) [ inl e ↦ cc e | inr e ↦ cc (e.1) ])

hello_password-finds :
    (before after : Argv) (a u p : Slice)
    → All (λ x. equal_fold (content x) (codes "AUTH") ≡ false) before
    → IsAuth a
    → hello_password (before ++ (a ∷ u ∷ p ∷ after)) ≡ some (some (content p))
unfolding hello_password
hello_password-finds [] after a u p free auth = rw auth refl
hello_password-finds (x ∷ []) after a u p free auth =
    rw (free.0) (hello_password-finds [] after a u p tt auth)
hello_password-finds (x ∷ y ∷ before) after a u p free auth =
    rw (free.0) (hello_password-finds (y ∷ before) after a u p free.1 auth)

hello_password-HelloArgs :
    (args : Argv) (pass : Bytes) → hello_password args ≡ some (some pass) → HelloArgs args pass
unfolding hello_password
hello_password-HelloArgs [] pass h = cc h
hello_password-HelloArgs (a ∷ []) pass h = cc h
hello_password-HelloArgs (a ∷ u ∷ []) pass h = absurd (ground arith)
hello_password-HelloArgs (a ∷ u ∷ p ∷ rest) pass h =
    elim (Bool-cases (equal_fold (content a) (codes "AUTH"))) [
      | inl e ↦ ([], a, u, p, rest, refl, tt, e, cc (rw e at h))
      | inr e ↦
          let (before, b, v, q, after, same, free, auth, is_pass) =
            hello_password-HelloArgs (u ∷ p ∷ rest) pass (rw e at h) in
          (a ∷ before, b, v, q, after, ap (λ s. a ∷ s) same, (e, free), auth, is_pass)
    ]

-- What the code finds in such a command.
abbrev Finds : Slice → Argv → Bytes → Type 0
Finds name args pass =
    ((equal (name_of (name ∷ args)) (codes "AUTH") ≡ true)
      × (auth_password (name ∷ args) ≡ some pass))
    ⊎ ((equal (name_of (name ∷ args)) (codes "HELLO") ≡ true)
        × (hello_password args ≡ some (some pass)))

Finds-Gives :
    (name : Slice) (args : Argv) (pass : Bytes) → Finds name args pass ↔ Gives name args pass
Finds-Gives name args pass = (
  λ f. elim f [
    | inl (e, h) ↦ inl (e, (auth_password-AuthArgs name args pass).0 h)
    | inr (e, h) ↦ inr (e, hello_password-HelloArgs args pass h)
  ],
  λ g. elim g [
    | inl (e, h) ↦ inl (e, (auth_password-AuthArgs name args pass).1 h)
    | inr (e, (before, a, u, p, after, same, free, auth, is_pass)) ↦ inr (
      e,
      ap hello_password same
          ∙ hello_password-finds before after a u p free auth
          ∙ ap (λ x. some (some x)) is_pass,
    )
  ],
)

module _ {C W : Type 0} (b : Service C W) where
  do_auth-Gives :
      (argv : Argv) (s : Client C)
      → s.require_auth ≡ true
      → s.session.authed ≡ false
      → ((do_auth argv s).1.session.authed ≡ true) ↔ (auth_password argv ≡ some s.client_pass)
  unfolding do_auth
  do_auth-Gives argv s r u = elim (Option-cases (auth_password argv)) [
    | inl e ↦ ground arith
    | inr (p, e) ↦ let same = equal_iff p s.client_pass in ground arith
  ]

  hello-Gives :
      (name : Slice) (args : Argv) (s : Client C)
      → s.require_auth ≡ true
      → s.session.authed ≡ false
      → ((hello b (name ∷ args) s).1.session.authed ≡ true)
        ↔ (hello_password args ≡ some (some s.client_pass))
  unfolding hello hello_auth
  hello-Gives name args s r u = elim (Option-cases (hello_password args)) [
    | inl e ↦ ground arith
    | inr (none, e) ↦ ground arith
    | inr (some p, e) ↦ let same = equal_iff p s.client_pass in ground arith
  ]

  handle_local-do_auth :
      (name : Slice) (args : Argv) (s : Client C) (w : W)
      → name_of (name ∷ args) ≡ codes "AUTH"
      → (handle_local b (name ∷ args) s w).1 ≡ (do_auth (name ∷ args) s).1
  unfolding handle_local equal
  handle_local-do_auth name args s w e = simp e

  handle_local-hello :
      (name : Slice) (args : Argv) (s : Client C) (w : W)
      → name_of (name ∷ args) ≡ codes "HELLO"
      → (handle_local b (name ∷ args) s w).1 ≡ (hello b (name ∷ args) s).1
  unfolding handle_local equal
  handle_local-hello name args s w e = simp e

  other-Locked :
      (name : Slice) (args : Argv) (s : Client C) (w : W)
      → s.require_auth ≡ true
      → s.session.authed ≡ false
      → equal (name_of (name ∷ args)) (codes "AUTH") ≡ false
      → equal (name_of (name ∷ args)) (codes "HELLO") ≡ false
      → (handle_local b (name ∷ args) s w).1.session.authed ≡ false
  unfolding handle_local reset
  other-Locked name args s w r u a h = ground arith

  auth_not_hello : (n : Bytes) → n ≡ codes "AUTH" → equal n (codes "HELLO") ≡ false
  unfolding equal
  auth_not_hello n e = rw e refl

  handle_local-Finds :
      (name : Slice) (args : Argv) (s : Client C) (w : W)
      → s.require_auth ≡ true
      → s.session.authed ≡ false
      → ((handle_local b (name ∷ args) s w).1.session.authed ≡ true) ↔ Finds name args s.client_pass
  handle_local-Finds name args s w r u =
      let n : Bytes = name_of (name ∷ args) in
      let auth = do_auth-Gives (name ∷ args) s r u in
      let greets = hello-Gives name args s r u in
      elim (Bool-cases (equal n (codes "AUTH"))) [
        | inl e ↦
            let is_auth = (equal_iff n (codes "AUTH")).0 e in
            let no_hello = auth_not_hello n is_auth in
            let same = handle_local-do_auth name args s w is_auth in
            let authed = ap (λ t. t.session.authed) same in ground arith
        | inr e ↦ elim (Bool-cases (equal n (codes "HELLO"))) [
          | inl f ↦
              let same = handle_local-hello name args s w ((equal_iff n (codes "HELLO")).0 f) in
              let authed = ap (λ t. t.session.authed) same in ground arith
          | inr f ↦ let kept = other-Locked name args s w r u e f in ground arith
        ]
      ]

  -- A client that has not given the password is let in by a command that the proxy answers itself
  -- exactly when that is AUTH with the password, alone or behind a user's name, or HELLO with the
  -- password behind its first word AUTH and a user's name.
  pub handle_local-Gives :
      (name : Slice) (args : Argv) (s : Client C) (w : W)
      → s.require_auth ≡ true
      → s.session.authed ≡ false
      → ((handle_local b (name ∷ args) s w).1.session.authed ≡ true) ↔ Gives name args s.client_pass
  handle_local-Gives name args s w r u =
      let found = handle_local-Finds name args s w r u in
      let same = Finds-Gives name args s.client_pass in
      (λ h. same.0 (found.0 h), λ h. found.1 (same.1 h))
