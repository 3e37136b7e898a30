-- ===== src/Proxy/Transaction/Order.antt =====
-- internal/proxy/session.go: the commands of a transaction and their replies keep their order.
use dragon_cluster_resp_prox.Base.{
  ℕ, ◌≡◌, refl, sym, ap, ◌∙◌, ℤ, true, false, List, [], ◌∷◌, ◌++◌, Argv, some, Bool-cases, inl, inr,
  length, get_elem?, Result, Go, ok, err, ◌>>=◌, >>=-eq-ok,
}
use dragon_cluster_resp_prox.Resp.Value.{Value}
use dragon_cluster_resp_prox.Command.Keys.{extract_keys}
use dragon_cluster_resp_prox.Command.Database.{rewrite_argv}
use dragon_cluster_resp_prox.Proxy.Transaction.{
  ok_reply, ExecItem, local, backend, Plan, with_item, select_db, is_select, plan, local_values,
}

-- The replies in the places of the backend's commands, and in the other places.
abbrev pub backend_places : List ExecItem → List Value → List Value
backend_places (local v ∷ items) (r ∷ rs) = backend_places items rs
backend_places (backend a ∷ items) (r ∷ rs) = r ∷ backend_places items rs
backend_places _ _ = []

abbrev pub local_places : List ExecItem → List Value → List Value
local_places (local v ∷ items) (r ∷ rs) = r ∷ local_places items rs
local_places (backend a ∷ items) (r ∷ rs) = local_places items rs
local_places _ _ = []

-- Every reply in its place.
abbrev pub InPlace : List ExecItem → List Value → List Value → Type 0
InPlace items vs out =
    (length out ≡ length items)
    × (backend_places items out ≡ vs)
    × (local_places items out ≡ local_values items)

-- The database behind a command, and behind all of them.
abbrev pub selected : ℕ → Result Value ℕ → ℕ
selected db (ok n) = n
selected db (err e) = db

abbrev pub db_behind : ℤ → ℕ → Argv → ℕ
db_behind max db a = elim (is_select a) [ true ↦ selected db (select_db max a) | false ↦ db ]

abbrev pub db_after : ℤ → ℕ → List Argv → ℕ
db_after max db [] = db
db_after max db (a ∷ rest) = db_after max (db_behind max db a) rest

-- A plan of a command and the rest is a plan of the rest, with one item in front.
record Planned (max : ℤ) (db : ℕ) (a : Argv) (rest : List Argv) (p : Plan) : Type 0 where
  tail_plan : Plan
  tail_eq : plan max (db_behind max db a) rest ≡ ok tail_plan
  first : ExecItem
  items_eq : p.items ≡ first ∷ tail_plan.items
  last_eq : p.last_db ≡ tail_plan.last_db
  sent : is_select a ≡ false → (r : Argv) × (rewrite_argv a db ≡ ok r) × (first ≡ backend r)

false-true : ¬ (false ≡ true)
false-true e = cc e

item_in_front :
    (i : ExecItem) (ks : Argv) (q : Plan) {p : Plan}
    → ◌≡◌ {A = Go Plan} (ok (with_item i ks q)) (ok p)
    → (p.items ≡ i ∷ q.items) × (p.last_db ≡ q.last_db)
item_in_front i ks q h = (cc h, cc h)

planned_select :
    (max : ℤ) (db : ℕ) (a : Argv) (rest : List Argv) {p : Plan} (r : Result Value ℕ)
    → is_select a ≡ true
    → select_db max a ≡ r
    → plan max db (a ∷ rest) ≡ ok p
    → Planned max db a rest p
unfolding plan
planned_select max db a rest {p} (ok n) sel e h =
    let h' : plan max n rest >>= (λ q. ok (with_item (local ok_reply) [] q)) ≡ ok p =
      rw (sel, plan, e) at h in
    let (q, tail, last) =
      >>=-eq-ok (plan max n rest) (λ q. ok (with_item (local ok_reply) [] q)) h' in
    let (items, same) = item_in_front (local ok_reply) [] q last in
    let behind : db_behind max db a ≡ n = rw (sel, db_behind, e) refl in
    record {
      tail_plan = q;
      tail_eq = ap (λ d. plan max d rest) behind ∙ tail;
      first = local ok_reply;
      items_eq = items;
      last_eq = same;
      sent = λ unsel. absurd (false-true (sym unsel ∙ sel));
    }
planned_select max db a rest {p} (err v) sel e h =
    let h' : plan max db rest >>= (λ q. ok (with_item (local v) [] q)) ≡ ok p =
      rw (sel, plan, e) at h in
    let (q, tail, last) = >>=-eq-ok (plan max db rest) (λ q. ok (with_item (local v) [] q)) h' in
    let (items, same) = item_in_front (local v) [] q last in
    let behind : db_behind max db a ≡ db = rw (sel, db_behind, e) refl in
    record {
      tail_plan = q;
      tail_eq = ap (λ d. plan max d rest) behind ∙ tail;
      first = local v;
      items_eq = items;
      last_eq = same;
      sent = λ unsel. absurd (false-true (sym unsel ∙ sel));
    }

planned_command :
    (max : ℤ) (db : ℕ) (a : Argv) (rest : List Argv) {p : Plan}
    → is_select a ≡ false
    → plan max db (a ∷ rest) ≡ ok p
    → Planned max db a rest p
unfolding plan
planned_command max db a rest {p} sel h =
    let (r, run, h1) = >>=-eq-ok (rewrite_argv a db) _ (rw (sel, plan) at h) in
    let (ks, keys, h2) = >>=-eq-ok (extract_keys r) _ h1 in
    let (q, tail, last) = >>=-eq-ok (plan max db rest) (λ q. ok (with_item (backend r) ks q)) h2 in
    let (items, same) = item_in_front (backend r) ks q last in
    let behind : db_behind max db a ≡ db = rw (sel, db_behind) refl in
    record {
      tail_plan = q;
      tail_eq = ap (λ d. plan max d rest) behind ∙ tail;
      first = backend r;
      items_eq = items;
      last_eq = same;
      sent = λ unsel. (r, run, refl);
    }

planned :
    (max : ℤ) (db : ℕ) (a : Argv) (rest : List Argv) {p : Plan}
    → plan max db (a ∷ rest) ≡ ok p
    → Planned max db a rest p
unfolding plan
planned max db a rest {p} h = elim (Bool-cases (is_select a)) [
  | inl e ↦ planned_select max db a rest (select_db max a) e refl h
  | inr e ↦ planned_command max db a rest e h
]

-- Every command that is queued in a transaction and is no SELECT goes to the backend at its place,
-- rewritten for the database that the SELECTs in front of it leave.
pub plan-rewrite_argv :
    (max : ℤ) (db : ℕ) (before : List Argv) (a : Argv) (behind : List Argv) {p : Plan}
    → plan max db (before ++ (a ∷ behind)) ≡ ok p
    → is_select a ≡ false
    → (r : Argv) × (rewrite_argv a (db_after max db before) ≡ ok r)
      × (get_elem? p.items (length before) ≡ some (backend r))
plan-rewrite_argv max db [] a behind {p} h unsel =
    let one = planned max db a behind {p = p} h in
    let (r, run, same) = one.sent unsel in (r, run, rw (one.items_eq, same) refl)
plan-rewrite_argv max db (b ∷ before) a behind {p} h unsel =
    let one = planned max db b (before ++ (a ∷ behind)) {p = p} h in
    let (r, run, at) =
      plan-rewrite_argv max (db_behind max db b) before a behind one.tail_eq unsel in
    (r, run, rw one.items_eq at)
