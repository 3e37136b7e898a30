-- ===== src/Pool/Serial.antt =====
-- internal/pool/pool.go: the pool when its calls do not overlap.
use dragon_cluster_resp_prox.Base.{
  ℕ, ◌+◌, ◌≡◌, ◌≤◌, ◌<◌, refl, subst, arith, ℤ, pos, ltb_ℤ, ◌+ℤ◌, Bool, true, false, ◌&&◌, List, [],
  ◌∷◌, if◌then◌else◌, Bool-cases, inl, inr, count_of, length, length-append, Option, none, some,
}
use dragon_cluster_resp_prox.Pool.{
  Pool, new_pool, take_from, take_conn, may_dial, dialled, got, pool_closed, serve, get, put,
  drop_conn, close,
}
use dragon_cluster_resp_prox.Pool.Conserved.{
  Conserved, length-remove, new_pool-Conserved, take_conn-Conserved, dialled-Conserved,
  put-Conserved, drop_conn-Conserved, close-Conserved,
}

-- The connections that callers hold and those in the channel.
abbrev pub Within : Pool → Type 0
Within p = Conserved p × (length p.out + length p.conns ≤ p.max_size)

-- One whole call after the other.
pub data Alone : Pool → Type 0 where
  start : (max_size min_idle : ℤ) (answered : ℕ) → Alone (new_pool max_size min_idle answered)
  get_call :
      (answers : Bool) {p : Pool} {c : ℕ} {q : Pool} → Alone p → get answers p ≡ got c q → Alone q
  put_call : {p : Pool} (c : ℕ) → Alone p → 1 ≤ count_of c p.out → Alone (put c p)
  drop_call : {p : Pool} (c : ℕ) → Alone p → 1 ≤ count_of c p.out → Alone (drop_conn c p)
  close_call : {p : Pool} → Alone p → Alone (close p)

take_from-le :
    (cs : List ℕ) (p : Pool) {c : ℕ} {q : Pool}
    → take_from cs p ≡ some (c, q)
    → length p.out + length cs ≤ p.max_size
    → length q.out + length q.conns ≤ q.max_size
unfolding take_from
take_from-le [] p {c} {q} e h = cc e
take_from-le (x ∷ rest) p {c} {q} e h =
    let after : Pool = record p { conns = rest; active = p.active +ℤ pos 1; out = x ∷ p.out } in
    let eq : after ≡ q = cc e in
    subst (λ r. length r.out + length r.conns ≤ r.max_size) eq (omega arith)

take_conn-le :
    (p : Pool) {c : ℕ} {q : Pool}
    → take_conn p ≡ some (c, q)
    → length p.out + length p.conns ≤ p.max_size
    → length q.out + length q.conns ≤ q.max_size
unfolding take_conn
take_conn-le p e h = take_from-le p.conns p e h

and_left : (a b : Bool) → (a && b) ≡ true → a ≡ true
and_left a b h = ground arith

may_dial-lt :
    (p : Pool) → Conserved p → may_dial p ≡ true → length p.out + length p.conns < p.max_size
unfolding ◌+ℤ◌
may_dial-lt p h e =
    let room : ltb_ℤ (pos (length p.out) +ℤ pos (length p.conns)) (pos p.max_size) ≡ true =
      rw h.counted at e in
    ground arith

dialled-Within : (p : Pool) → Within p → may_dial p ≡ true → Within (dialled p).1
unfolding dialled
dialled-Within p h e = (dialled-Conserved p h.0, omega (arith, may_dial-lt p h.0 e))

got_eq : {c d : ℕ} {p q : Pool} → got c p ≡ got d q → p ≡ q
got_eq e = cc e

serve-Within :
    (answers : Bool) (found : Option (ℕ × Pool)) (p : Pool) {c : ℕ} {q : Pool}
    → take_conn p ≡ found
    → serve answers found p ≡ got c q
    → Within p
    → Within q
unfolding serve
serve-Within answers (some (x, next)) p same e h =
    subst Within (got_eq e) (take_conn-Conserved p same h.0, take_conn-le p same h.1)
serve-Within answers none p same e h = elim (Bool-cases (may_dial p && answers)) [
  | inl room ↦
      subst Within (got_eq (rw (room, serve) at e))
        (dialled-Within p h (and_left (may_dial p) answers room))
  | inr full ↦ cc (rw (full, serve) at e)
]

else_eq : {A : Type 0} (b : Bool) (x : A) {y r : A} → b ≡ false → (if b then x else y) ≡ r → y ≡ r
else_eq true x h e = absurd (cc h)
else_eq false x h e = e

get-Within :
    (answers : Bool) (p : Pool) {c : ℕ} {q : Pool} → get answers p ≡ got c q → Within p → Within q
unfolding get
get-Within answers p e h = elim (Bool-cases p.closed) [
  | inl shut ↦ cc (rw (shut, get) at e)
  | inr usable ↦ serve-Within answers (take_conn p) p refl (else_eq p.closed pool_closed usable e) h
]

new_pool-le :
    (max_size min_idle : ℤ) (answered : ℕ)
    → let p : Pool = new_pool max_size min_idle answered in
      length p.out + length p.conns ≤ p.max_size
unfolding new_pool
new_pool-le max_size min_idle answered =
    let small = (new_pool-Conserved max_size min_idle answered).fits in omega (arith, small)

drop_conn-le :
    (c : ℕ) (p : Pool)
    → 1 ≤ count_of c p.out
    → length p.out + length p.conns ≤ p.max_size
    → length (drop_conn c p).out + length (drop_conn c p).conns ≤ (drop_conn c p).max_size
unfolding drop_conn
drop_conn-le c p k h = omega (arith, length-remove c p.out k)

put-le :
    (c : ℕ) (p : Pool)
    → 1 ≤ count_of c p.out
    → length p.out + length p.conns ≤ p.max_size
    → length (put c p).out + length (put c p).conns ≤ (put c p).max_size
unfolding put
put-le c p k h = ground (arith, length-remove c p.out k, length-append p.conns (c ∷ []))

close-le :
    (p : Pool)
    → length p.out + length p.conns ≤ p.max_size
    → length (close p).out + length (close p).conns ≤ (close p).max_size
unfolding close
close-le p h = ground arith

-- If no two calls overlap, the connections that callers hold and those in the channel together are
-- never more than the pool's size.
pub Alone-Within : {p : Pool} → Alone p → Within p
Alone-Within (start max_size min_idle answered) =
    (new_pool-Conserved max_size min_idle answered, new_pool-le max_size min_idle answered)
Alone-Within (get_call answers a e) = get-Within answers _ e (Alone-Within a)
Alone-Within (put_call {p = p} c a k) =
    let h = Alone-Within a in (put-Conserved c p k h.0, put-le c p k h.1)
Alone-Within (drop_call {p = p} c a k) =
    let h = Alone-Within a in (drop_conn-Conserved c p k h.0, drop_conn-le c p k h.1)
Alone-Within (close_call {p = p} a) =
    let h = Alone-Within a in (close-Conserved p h.0, close-le p h.1)
