-- ===== src/Pool/Conserved.antt =====
-- internal/pool/pool.go: no whole call loses a connection or gives it to two callers.
use dragon_cluster_resp_prox.Base.{
  ℕ, zero, suc, ◌+◌, ◌==◌, ◌≡◌, ◌≤◌, refl, sym, subst, arith, ℤ, pos, negsuc, ◌+ℤ◌, List, [], ◌∷◌,
  ltb, if◌then◌else◌, length, length-append, count_of, count_of-append, if_both, if_holds, some,
}
use dragon_cluster_resp_prox.Pool.{
  Pool, natural_part, first_conns, new_pool, take_from, take_conn, dialled, remove, put, drop_conn,
  close, at_least_one, min_of,
}

-- Each connection that was dialled is in one place: in the channel, with one caller, or closed. The
-- counter is the number of connections that callers hold, and the channel is not over its capacity.
pub record Conserved (p : Pool) : Type 0 where
  pub one_place :
      (c : ℕ)
      → count_of c p.conns + count_of c p.out + count_of c p.gone ≡ (if ltb c p.dials then 1 else 0)
  pub counted : p.active ≡ pos (length p.out)
  pub fits : length p.conns ≤ p.max_size

pub count_of-first_conns : (n c : ℕ) → count_of c (first_conns n) ≡ (if ltb c n then 1 else 0)
unfolding first_conns
count_of-first_conns zero c = ground arith
count_of-first_conns (suc n) c =
    ground (arith, count_of-first_conns n c, count_of-append c (first_conns n) (n ∷ []))

length-first_conns : (n : ℕ) → length (first_conns n) ≡ n
unfolding first_conns
length-first_conns zero = refl
length-first_conns (suc n) =
    omega (arith, length-first_conns n, length-append (first_conns n) (n ∷ []))

pub count_of-remove :
    (c d : ℕ) (cs : List ℕ)
    → 1 ≤ count_of c cs
    → count_of d (remove c cs) + (if c == d then 1 else 0) ≡ count_of d cs
unfolding remove
count_of-remove c d [] h = absurd (omega arith)
count_of-remove c d (x ∷ cs) h = ground (arith, count_of-remove c d cs)

pub length-remove :
    (c : ℕ) (cs : List ℕ) → 1 ≤ count_of c cs → suc (length (remove c cs)) ≡ length cs
unfolding remove
length-remove c [] h = absurd (omega arith)
length-remove c (x ∷ cs) h = ground (arith, length-remove c cs)

pub one_more : (n : ℕ) → pos n +ℤ pos 1 ≡ pos (suc n)
unfolding ◌+ℤ◌
one_more n = ground arith

pub one_less : (n : ℕ) → pos (suc n) +ℤ negsuc 0 ≡ pos n
unfolding ◌+ℤ◌
one_less n = ground arith

min_of-le : (a b c : ℕ) → min_of (min_of a b) c ≤ b
min_of-le a b c = ground arith

pub new_pool-Conserved :
    (max_size min_idle : ℤ) (answered : ℕ) → Conserved (new_pool max_size min_idle answered)
unfolding new_pool
new_pool-Conserved max_size min_idle answered =
    let n : ℕ = (new_pool max_size min_idle answered).dials in
    let len : length (first_conns n) ≡ n = length-first_conns n in
    let small : n ≤ at_least_one max_size =
      min_of-le (natural_part min_idle) (at_least_one max_size) answered in
    record {
      one_place = λ c. let here = count_of-first_conns n c in omega arith;
      counted = refl;
      fits = omega arith;
    }

pub dialled-Conserved : (p : Pool) → Conserved p → Conserved (dialled p).1
unfolding dialled
dialled-Conserved p h = record {
  one_place = λ c. let before = h.one_place c in ground arith;
  counted = rw h.counted (one_more (length p.out));
  fits = h.fits;
}

released :
    (c : ℕ) (p : Pool)
    → Conserved p
    → 1 ≤ count_of c p.out
    → p.active +ℤ negsuc 0 ≡ pos (length (remove c p.out))
released c p h k =
    rw (h.counted, sym (length-remove c p.out k)) (one_less (length (remove c p.out)))

pub drop_conn-Conserved :
    (c : ℕ) (p : Pool) → 1 ≤ count_of c p.out → Conserved p → Conserved (drop_conn c p)
unfolding drop_conn
drop_conn-Conserved c p k h = record {
  one_place = λ d. let before = h.one_place d in ground (arith, count_of-remove c d p.out k);
  counted = released c p h k;
  fits = h.fits;
}

pub put-Conserved : (c : ℕ) (p : Pool) → 1 ≤ count_of c p.out → Conserved p → Conserved (put c p)
unfolding put drop_conn
put-Conserved c p k h =
    let gone_put : Conserved (drop_conn c p) = drop_conn-Conserved c p k h in
    if_both Conserved p.closed gone_put (
      if_holds Conserved (ltb (length p.conns) p.max_size)
        (λ room. record {
          one_place = λ d.
              let before = h.one_place d in
              ground (arith, count_of-remove c d p.out k, count_of-append d p.conns (c ∷ []));
          counted = released c p h k;
          fits = ground (arith, length-append p.conns (c ∷ []));
        })
        gone_put)

pub close-Conserved : (p : Pool) → Conserved p → Conserved (close p)
unfolding close
close-Conserved p h = if_both Conserved p.closed h (record {
  one_place = λ c. let before = h.one_place c in omega (arith, count_of-append c p.conns p.gone);
  counted = h.counted;
  fits = omega arith;
})

take_from-Conserved :
    (cs : List ℕ) (p : Pool) {c : ℕ} {q : Pool}
    → p.conns ≡ cs
    → take_from cs p ≡ some (c, q)
    → Conserved p
    → Conserved q
unfolding take_from
take_from-Conserved [] p {c} {q} same e h = cc e
take_from-Conserved (x ∷ rest) p {c} {q} same e h =
    let after : Pool = record p { conns = rest; active = p.active +ℤ pos 1; out = x ∷ p.out } in
    let eq : after ≡ q = cc e in
    subst Conserved eq (record {
      one_place = λ d.
          let before : count_of d (x ∷ rest) + count_of d p.out + count_of d p.gone
              ≡ (if ltb d p.dials then 1 else 0) =
            rw same at (h.one_place d) in
          omega (arith, before);
      counted = rw h.counted (one_more (length p.out));
      fits = let full : length (x ∷ rest) ≤ p.max_size = rw same at h.fits in omega arith;
    })

pub take_conn-Conserved :
    (p : Pool) {c : ℕ} {q : Pool} → take_conn p ≡ some (c, q) → Conserved p → Conserved q
unfolding take_conn
take_conn-Conserved p e h = take_from-Conserved p.conns p refl e h
