-- ===== src/Proxy/Transaction/States.antt =====
-- internal/proxy/session.go: the states of a session as it runs its transaction commands.
use dragon_cluster_resp_prox.Base.{
  ℕ, ◌≡◌, refl, sym, subst, ◌∙◌, arith, Bool, true, false, List, [], ◌∷◌, ◌++◌, ◌==◌, length, Bytes,
  codes, buf, Option, some, Result, err, Holds, Holds-bind, Holds-any, Argv, none, Bool-cases,
  if_both, Go, ok, ◌>>=◌, >>=-eq-ok, inl, inr,
}
use dragon_cluster_resp_prox.Resp.Value.{Value}
use dragon_cluster_resp_prox.Cluster.Routing.{slot_of, cross_slot}
use dragon_cluster_resp_prox.Command.Keys.{extract_keys}
use dragon_cluster_resp_prox.Command.Database.{rewrite_argv}
use dragon_cluster_resp_prox.Proxy.Transaction.{
  Backend, Session, exec_abort, Plan, plan, cmd_multi, cmd_discard, cmd_select, enqueue, drop_pin,
  reset_txn, cmd_watch, watch_on, watch_pinned, watch_keys, cmd_unwatch, exchange_all,
  backend_argvs, executed, execute, transact, first_slot, exec_backend, exec_plan, watched_by,
  err_cross, failure, ok_reply, cmd_exec, stale, reply_and,
}

-- Outside MULTI nothing is queued.
abbrev pub Closed : {C : Type 0} → Session C → Type 0
Closed s = (s.multi ≡ false) → s.queued ≡ []

-- Neither in MULTI nor anything queued.
abbrev pub AtRest : {C : Type 0} → Session C → Type 0
AtRest s = (s.multi ≡ false) × (s.queued ≡ [])

abbrev pub Kept : {C W : Type 0} → Bool → List Argv → Value × Session C × W → Type 0
Kept m q p = (p.1.multi ≡ m) × (p.1.queued ≡ q)

module _ {C W : Type 0} (b : Backend C W) where
  -- A step of a session: one of its commands, or the end of the connection.
  pub data Step : Session C × W → Session C × W → Type 0 where
    multi_step : (s : Session C) (w : W) → Step (s, w) ((cmd_multi b s).1, w)
    discard_step : (s : Session C) (w : W) → Step (s, w) ((cmd_discard b s).1, w)
    select_step : (argv : Argv) (s : Session C) (w : W) → Step (s, w) ((cmd_select b argv s).1, w)
    queue_step :
        (argv : Argv) (s : Session C) (w : W)
        → s.multi ≡ true
        → Step (s, w) ((enqueue b argv s).1, w)
    watch_step :
        (argv : Argv) (s : Session C) (w : W) {v : Value} {s' : Session C} {w' : W}
        → cmd_watch b argv s w ≡ ok (v, s', w')
        → Step (s, w) (s', w')
    unwatch_step :
        (s : Session C) (w : W) {v : Value} {s' : Session C} {w' : W}
        → cmd_unwatch b s w ≡ ok (v, s', w')
        → Step (s, w) (s', w')
    exec_step :
        (s : Session C) (w : W) {v : Value} {s' : Session C} {w' : W}
        → cmd_exec b s w ≡ ok (v, s', w')
        → Step (s, w) (s', w')
    reset_step : (s : Session C) (w : W) → Step (s, w) (reset_txn b s w)

  pub data Reachable : Session C × W → Type 0 where
    start :
        (authed : Bool) (w : W)
        → Reachable (
          record {
            authed = authed;
            db = 0;
            multi = false;
            queued = [];
            watched = [];
            pin = none;
            pin_gen = 0;
          },
          w,
        )
    next : {x y : Session C × W} → Reachable x → Step x y → Reachable y

  drop_pin-Kept :
      (v : Value) (s : Session C) (w : W) → Kept s.multi s.queued (reply_and v (drop_pin b s w))
  unfolding drop_pin
  drop_pin-Kept v s w = (refl, refl)

  executed-Kept :
      (c : C) (p : Plan) (s : Session C) (out : Result Bytes Value × W)
      → Kept s.multi s.queued (executed b c p s out)
  unfolding executed
  executed-Kept c p s (err e, w) = (refl, refl)
  executed-Kept c p s (ok v, w) = ground arith

  execute-Kept :
      (c : C) (p : Plan) (s : Session C) (out : Option Bytes × W)
      → Holds (Kept s.multi s.queued) (execute b c p s out)
  unfolding execute
  execute-Kept c p s (some e, w) = (refl, refl)
  execute-Kept c p s (none, w) =
      Holds-bind (λ _. Unit {0}) (Kept s.multi s.queued) (b.do_argv c (buf (codes "EXEC") ∷ []) w)
        (λ out. ok (executed b c p s out)) (Holds-any (b.do_argv c (buf (codes "EXEC") ∷ []) w))
        (λ out _. executed-Kept c p s out)

  transact-Kept :
      (c : C) (p : Plan) (s : Session C) (w : W)
      → Holds (Kept s.multi s.queued) (transact b c p s w)
  unfolding transact
  transact-Kept c p s w =
      let sent : Go (Option Bytes × W) =
        exchange_all b c ((buf (codes "MULTI") ∷ []) ∷ backend_argvs p.items) w in
      Holds-bind (λ _. Unit {0}) (Kept s.multi s.queued) sent (execute b c p s) (Holds-any sent)
        (λ out _. execute-Kept c p s out)

  exec_backend-Kept :
      (p : Plan) (keys : Argv) (s : Session C) (w : W)
      → Holds (Kept s.multi s.queued) (exec_backend b p keys s w)
  unfolding exec_backend
  exec_backend-Kept p keys s w =
      let K : Value × Session C × W → Type 0 = Kept s.multi s.queued in
      let given : Result Bytes C × W = b.checkout (first_slot b keys) w in
      elim s.pin
        as (λ o. Holds K (elim o [
          | some c ↦ transact b c p (record s { pin = none }) w
          | none ↦ elim given.0 [
            | err e ↦ ok (failure e, s, given.1)
            | ok c ↦ transact b c p s given.1
          ]
        ])) [
          | some c ↦ transact-Kept c p (record s { pin = none }) w
          | none ↦
              elim given.0
                as (λ g. Holds K (elim g [
                  | err e ↦ ok (failure e, s, given.1)
                  | ok c ↦ transact b c p s given.1
                ])) [ err e ↦ (refl, refl) | ok c ↦ transact-Kept c p s given.1 ]
        ]

  exec_plan-Kept :
      (p : Plan) (s : Session C) (w : W) → Holds (Kept s.multi s.queued) (exec_plan b p s w)
  unfolding exec_plan
  exec_plan-Kept p s w =
      let K : Value × Session C × W → Type 0 = Kept s.multi s.queued in
      let keys : Argv = s.watched ++ p.keys in
      if_both (Holds K) (cross_slot b.delimiters keys) (drop_pin-Kept err_cross s w) (
        if_both (Holds K) (length (backend_argvs p.items) == 0) (refl, refl)
          (exec_backend-Kept p keys s w))

  watched_by-Kept :
      (keys : Argv) (s : Session C) (out : Result Bytes Value × W)
      → Kept s.multi s.queued (watched_by b keys s out)
  unfolding watched_by drop_pin
  watched_by-Kept keys s (err e, w) = (refl, refl)
  watched_by-Kept keys s (ok v, w) = (refl, refl)

  watch_on-Kept :
      (c : C) (argv keys : Argv) (s : Session C) (w : W)
      → Holds (Kept s.multi s.queued) (watch_on b c argv keys s w)
  unfolding watch_on
  watch_on-Kept c argv keys s w =
      Holds-bind (λ _. Unit {0}) (Kept s.multi s.queued) (b.do_argv c argv w)
        (λ out. ok (watched_by b keys s out)) (Holds-any (b.do_argv c argv w))
        (λ out _. watched_by-Kept keys s out)

  watch_pinned-Kept :
      (slot : ℕ) (argv keys : Argv) (s : Session C) (w : W)
      → Holds (Kept s.multi s.queued) (watch_pinned b slot argv keys s w)
  unfolding watch_pinned
  watch_pinned-Kept slot argv keys s w =
      let K : Value × Session C × W → Type 0 = Kept s.multi s.queued in
      let given : Result Bytes C × W = b.checkout slot w in
      let pinned : C → Session C = λ c. record s { pin = some c; pin_gen = b.generation given.1 } in
      elim s.pin
        as (λ o. Holds K (elim o [
          | some c ↦ watch_on b c argv keys s w
          | none ↦ elim given.0 [
            | err e ↦ ok (failure e, s, given.1)
            | ok c ↦ watch_on b c argv keys (pinned c) given.1
          ]
        ])) [
          | some c ↦ watch_on-Kept c argv keys s w
          | none ↦
              elim given.0
                as (λ g. Holds K (elim g [
                  | err e ↦ ok (failure e, s, given.1)
                  | ok c ↦ watch_on b c argv keys (pinned c) given.1
                ])) [ err e ↦ (refl, refl) | ok c ↦ watch_on-Kept c argv keys (pinned c) given.1 ]
        ]

  cmd_unwatch-Kept : (s : Session C) (w : W) → Holds (Kept s.multi s.queued) (cmd_unwatch b s w)
  unfolding cmd_unwatch drop_pin
  cmd_unwatch-Kept s w =
      let K : Value × Session C × W → Type 0 = Kept s.multi s.queued in
      elim s.pin
        as (λ o. Holds K (elim o [
          | none ↦ ok (ok_reply, record s { watched = [] }, w)
          | some c ↦ b.do_argv c (buf (codes "UNWATCH") ∷ []) w >>= λ out.
              ok (reply_and ok_reply (drop_pin b (record s { watched = [] }) out.1))
        ])) [
          | none ↦ (refl, refl)
          | some c ↦
              Holds-bind (λ _. Unit {0}) K (b.do_argv c (buf (codes "UNWATCH") ∷ []) w)
                (λ out. ok (reply_and ok_reply (drop_pin b (record s { watched = [] }) out.1)))
                (Holds-any (b.do_argv c (buf (codes "UNWATCH") ∷ []) w)) (λ out _. (refl, refl))
        ]

  transferred :
      (m : Bool) (q : List Argv) {p r : Value × Session C × W}
      → ◌≡◌ {A = Go (Value × Session C × W)} (ok p) (ok r)
      → Kept m q p
      → Kept m q r
  transferred m q {p} {r} e h = let same : p ≡ r = cc e in subst (Kept m q) same h

  planned_exec :
      (s : Session C) (w : W) {v : Value} {s' : Session C} {w' : W}
      → (plan b.max_databases s.db s.queued >>= λ p.
          exec_plan b p (record s { multi = false; queued = [] }) w)
        ≡ ok (v, s', w')
      → AtRest s'
  planned_exec s w h =
      let (p, found, last) = >>=-eq-ok (plan b.max_databases s.db s.queued) _ h in
      subst (Holds (Kept false [])) last
        (exec_plan-Kept p (record s { multi = false; queued = [] }) w)

  -- Whatever EXEC answers, no transaction is open after it and nothing is queued.
  pub cmd_exec-AtRest :
      (s : Session C) (w : W) {v : Value} {s' : Session C} {w' : W}
      → Closed s
      → cmd_exec b s w ≡ ok (v, s', w')
      → AtRest s'
  unfolding cmd_exec
  cmd_exec-AtRest s w h e = elim (Bool-cases s.multi) [
    | inl m ↦ elim (Bool-cases (stale b s w)) [
      | inl old ↦
          transferred false [] (rw (m, cmd_exec, old) at e)
            (drop_pin-Kept exec_abort (record s { multi = false; queued = [] }) w)
      | inr fresh_pin ↦ planned_exec s w (rw (m, cmd_exec, fresh_pin) at e)
    ]
    | inr m ↦ transferred false [] (rw (m, cmd_exec) at e) (refl, h m)
  ]

  watch_keys-Kept :
      (argv keys : Argv) (s : Session C) (w : W)
      → Holds (Kept s.multi s.queued) (watch_keys b argv keys s w)
  unfolding watch_keys
  watch_keys-Kept argv [] s w = (refl, refl)
  watch_keys-Kept argv (k ∷ ks) s w =
      if_both (Holds (Kept s.multi s.queued)) (cross_slot b.delimiters (k ∷ ks)) (refl, refl)
        (watch_pinned-Kept (slot_of b.delimiters k) argv (k ∷ ks) s w)

  cmd_watch-Kept :
      (argv : Argv) (s : Session C) (w : W) → Holds (Kept s.multi s.queued) (cmd_watch b argv s w)
  unfolding cmd_watch
  cmd_watch-Kept argv s w =
      let P : Value × Session C × W → Type 0 = Kept s.multi s.queued in
      if_both (Holds P) s.multi (refl, refl)
        (Holds-bind (λ _. Unit {0}) P (rewrite_argv argv s.db) _
          (Holds-any (rewrite_argv argv s.db))
          (λ rewritten _.
            Holds-bind (λ _. Unit {0}) P (extract_keys rewritten) _
              (Holds-any (extract_keys rewritten)) (λ keys _. watch_keys-Kept rewritten keys s w)))

  same-Closed :
      (s : Session C) {v : Value} {s' : Session C} {w' : W} (m : Go (Value × Session C × W))
      → Closed s
      → m ≡ ok (v, s', w')
      → Holds (Kept s.multi s.queued) m
      → Closed s'
  same-Closed s {v} {s'} {w'} m h e kept =
      let same : Kept s.multi s.queued (v, s', w') = subst (Holds (Kept s.multi s.queued)) e kept in
      λ k. same.1 ∙ h (sym same.0 ∙ k)

  Step-Closed : {x y : Session C × W} → Step x y → Closed x.0 → Closed y.0
  unfolding cmd_multi cmd_discard cmd_select enqueue reset_txn drop_pin
  Step-Closed (multi_step s w) h = ground arith
  Step-Closed (discard_step s w) h = ground arith
  Step-Closed (select_step argv s w) h = ground arith
  Step-Closed (queue_step argv s w m) h = ground arith
  Step-Closed (watch_step argv s w e) h =
      same-Closed s (cmd_watch b argv s w) h e (cmd_watch-Kept argv s w)
  Step-Closed (unwatch_step s w e) h = same-Closed s (cmd_unwatch b s w) h e (cmd_unwatch-Kept s w)
  Step-Closed (exec_step s w e) h = λ _. (cmd_exec-AtRest s w h e).1
  Step-Closed (reset_step s w) h = λ _. refl

  -- In every state that a session reaches, nothing is queued outside MULTI.
  pub Reachable-Closed : {x : Session C × W} → Reachable x → Closed x.0
  Reachable-Closed (start authed w) = λ _. refl
  Reachable-Closed (next r st) = Step-Closed st (Reachable-Closed r)
