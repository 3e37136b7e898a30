-- ===== src/Proxy/Dispatch/Guarded.antt =====
-- internal/proxy: a client that has not given the password.
use dragon_cluster_resp_prox.Base.{
  ℕ, ◌≡◌, refl, ap, ◌∙◌, arith, inl, inr, true, false, List, [], ◌∷◌, Bytes, codes, equal, mem_name,
  Argv, Slice, some, ok, Bool-cases,
}
use dragon_cluster_resp_prox.Command.Keys.{name_of}
use dragon_cluster_resp_prox.Proxy.Transaction.{Session, cmd_select}
use dragon_cluster_resp_prox.Proxy.Service.{Service, Client, err_no_auth}
use dragon_cluster_resp_prox.Proxy.Local.{handle_local}
use dragon_cluster_resp_prox.Proxy.Dispatch.{transacted, answered, handle}

-- The commands that a client without the password may send.
abbrev pub open_commands : List Bytes
open_commands = codes "AUTH" ∷ codes "HELLO" ∷ codes "QUIT" ∷ codes "RESET" ∷ codes "COMMAND" ∷ []

-- Before the password is given.
pub record Locked {C : Type 0} (s : Client C) : Type 0 where
  pub required : s.require_auth ≡ true
  pub unknown : s.session.authed ≡ false
  pub plain : s.subscribed ≡ false

module _ {C W : Type 0} (b : Service C W) where
  handle_local-Locked :
      (name : Slice) (args : Argv) (s : Client C) (w : W)
      → s.require_auth ≡ true
      → s.session.authed ≡ false
      → mem_name (name_of (name ∷ args)) open_commands ≡ false
      → handle_local b (name ∷ args) s w ≡ (some err_no_auth, s, w)
  unfolding handle_local mem_name
  handle_local-Locked name args s w r u n = ground arith

  cmd_select-Locked :
      (argv : Argv) (t : Session C)
      → t.authed ≡ false
      → cmd_select b.backend argv t ≡ (err_no_auth, t)
  unfolding cmd_select
  cmd_select-Locked argv t u = rw u refl

  -- Before the password is given, every command but AUTH, HELLO, QUIT, RESET and COMMAND is answered by
  -- NOAUTH alone, and neither the session nor anything else changes.
  pub handle-Locked :
      (fuel : ℕ) (name : Slice) (args : Argv) (raw : Bytes) (s : Client C) (w : W)
      → Locked s
      → mem_name (name_of (name ∷ args)) open_commands ≡ false
      → handle b fuel (name ∷ args) raw s w ≡ ok (some (err_no_auth ∷ [], s, w))
  unfolding answered
  handle-Locked fuel name args raw s w locked n =
      let local = handle_local-Locked name args s w locked.required locked.unknown n in
      let select = cmd_select-Locked (name ∷ args) s.session locked.unknown in
      elim (Bool-cases (equal (name_of (name ∷ args)) (codes "SELECT"))) [
        | inl e ↦
            let step : handle b fuel (name ∷ args) raw s w
                ≡ transacted b s (
                  (cmd_select b.backend (name ∷ args) s.session).0,
                  (cmd_select b.backend (name ∷ args) s.session).1,
                  w,
                ) =
              unfold handle in simp (locked.plain, e) in
            step ∙ ap (λ p. transacted b s (p.0, p.1, w)) select
        | inr e ↦
            let step : handle b fuel (name ∷ args) raw s w
                ≡ answered b fuel (name ∷ args) raw (handle_local b (name ∷ args) s w) =
              unfold handle in simp (locked.plain, e) in
            step ∙ ap (answered b fuel (name ∷ args) raw) local
      ]
