-- ===== src/Pool/Interleaved.antt =====
-- internal/pool/pool.go: the calls of goroutines, whose atomic steps interleave. A call counts a
-- connection after it has taken it, and counts it out before it gives it back. The counter does not
-- wrap around: there are fewer than 2^31 connections.
use dragon_cluster_resp_prox.Base.{
  ℕ, zero, suc, ◌+◌, ◌==◌, ◌≡◌, ◌≤◌, ◌<◌, refl, ap, ◌∙◌, arith, ℤ, pos, negsuc, ◌+ℤ◌, List, [], ◌∷◌,
  ltb, if◌then◌else◌, length, length-append, count_of, count_of-append,
}
use dragon_cluster_resp_prox.Pool.{
  Pool, new_pool, count_up, count_down, taken_out, new_conn, remove, give_back, shut_conn,
  mark_closed, drained,
}
use dragon_cluster_resp_prox.Pool.Conserved.{
  new_pool-Conserved, count_of-remove, length-remove, one_more, one_less,
}

-- A pool, with the number of calls that have a connection and have not counted it yet, and of those that
-- have counted theirs out and still have it.
pub record Shared : Type 0 where
  pub pool : Pool
  pub arriving : ℕ
  pub leaving : ℕ

pub data Step : Shared → Shared → Type 0 where
  receive_step :
      (s : Shared) (c : ℕ) (rest : List ℕ)
      → s.pool.conns ≡ c ∷ rest
      → Step s (record s { pool = taken_out c rest s.pool; arriving = suc s.arriving })
  dial_step : (s : Shared) → Step s (record s { pool = new_conn s.pool; arriving = suc s.arriving })
  count_step :
      (s : Shared) (n : ℕ)
      → s.arriving ≡ suc n
      → Step s (record s { pool = count_up s.pool; arriving = n })
  uncount_step :
      (s : Shared)
      → s.arriving + s.leaving < length s.pool.out
      → Step s (record s { pool = count_down s.pool; leaving = suc s.leaving })
  put_step :
      (s : Shared) (c n : ℕ)
      → s.leaving ≡ suc n
      → 1 ≤ count_of c s.pool.out
      → Step s (record s { pool = give_back c s.pool; leaving = n })
  drop_step :
      (s : Shared) (c n : ℕ)
      → s.leaving ≡ suc n
      → 1 ≤ count_of c s.pool.out
      → Step s (record s { pool = shut_conn c s.pool; leaving = n })
  mark_step : (s : Shared) → Step s (record s { pool = mark_closed s.pool })
  drain_step :
      (s : Shared) (c : ℕ) (rest : List ℕ)
      → s.pool.conns ≡ c ∷ rest
      → Step s (record s { pool = drained c rest s.pool })

pub data Reachable : Shared → Type 0 where
  start :
      (max_size min_idle : ℤ) (answered : ℕ)
      → Reachable (record { pool = new_pool max_size min_idle answered; arriving = 0; leaving = 0 })
  next : {s t : Shared} → Reachable s → Step s t → Reachable t

-- Each connection that was dialled is in one place: in the channel, with one caller, or closed.
abbrev pub OnePlace : Pool → Type 0
OnePlace p =
    (c : ℕ)
    → count_of c p.conns + count_of c p.out + count_of c p.gone ≡ (if ltb c p.dials then 1 else 0)

-- The counter of active connections, with the calls that are about to count.
pub record Kept (s : Shared) : Type 0 where
  pub one_place : OnePlace s.pool
  pub counted : (k : ℕ) × (s.pool.active ≡ pos k) × (k + s.arriving + s.leaving ≡ length s.pool.out)
  pub fits : length s.pool.conns ≤ s.pool.max_size

-- A connection in the list's first place.
at_head :
    (d : ℕ) {cs : List ℕ} (c : ℕ) (rest : List ℕ)
    → cs ≡ c ∷ rest
    → count_of d cs ≡ (if c == d then 1 else 0) + count_of d rest
at_head d c rest e = ap (count_of d) e

length_head : {cs : List ℕ} (c : ℕ) (rest : List ℕ) → cs ≡ c ∷ rest → length cs ≡ suc (length rest)
length_head c rest e = ap length e

give_back-OnePlace :
    (c : ℕ) (p : Pool) → 1 ≤ count_of c p.out → OnePlace p → OnePlace (give_back c p)
unfolding give_back
give_back-OnePlace c p k h d =
    let before = h d in
    ground (arith, count_of-remove c d p.out k, count_of-append d p.conns (c ∷ []))

give_back-fits :
    (c : ℕ) (p : Pool)
    → length p.conns ≤ p.max_size
    → length (give_back c p).conns ≤ (give_back c p).max_size
unfolding give_back
give_back-fits c p h = ground (arith, length-append p.conns (c ∷ []))

give_back_active :
    (c : ℕ) (p : Pool)
    → ((give_back c p).active ≡ p.active) × ((give_back c p).out ≡ remove c p.out)
unfolding give_back
give_back_active c p = ground arith

uncounted :
    (k : ℕ) (s : Shared)
    → s.pool.active ≡ pos k
    → k + s.arriving + s.leaving ≡ length s.pool.out
    → s.arriving + s.leaving < length s.pool.out
    → (j : ℕ) × (s.pool.active +ℤ negsuc 0 ≡ pos j)
      × (j + s.arriving + suc s.leaving ≡ length s.pool.out)
uncounted zero s same sum lt = absurd (omega arith)
uncounted (suc j) s same sum lt = (j, ap (λ a. a +ℤ negsuc 0) same ∙ one_less j, omega arith)

Step-Kept : {s t : Shared} → Step s t → Kept s → Kept t
unfolding shut_conn
Step-Kept (receive_step s c rest e) h = record {
  one_place = λ d. let before = h.one_place d in let head = at_head d c rest e in omega arith;
  counted = let (k, same, sum) = h.counted in (k, same, omega arith);
  fits = let fit = h.fits in let head = length_head c rest e in omega arith;
}
Step-Kept (dial_step s) h = record {
  one_place = λ d. let before = h.one_place d in ground arith;
  counted = let (k, same, sum) = h.counted in (k, same, omega arith);
  fits = h.fits;
}
Step-Kept (count_step s n e) h = record {
  one_place = h.one_place;
  counted =
      let (k, same, sum) = h.counted in
      (suc k, ap (λ a. a +ℤ pos 1) same ∙ one_more k, omega arith);
  fits = h.fits;
}
Step-Kept (uncount_step s lt) h = record {
  one_place = h.one_place;
  counted = let (k, same, sum) = h.counted in uncounted k s same sum lt;
  fits = h.fits;
}
Step-Kept (put_step s c n e has) h = record {
  one_place = give_back-OnePlace c s.pool has h.one_place;
  counted =
      let (k, same, sum) = h.counted in
      let (kept, left) = give_back_active c s.pool in
      (k, kept ∙ same, omega (arith, ap length left, length-remove c s.pool.out has));
  fits = give_back-fits c s.pool h.fits;
}
Step-Kept (drop_step s c n e has) h = record {
  one_place = λ d. let before = h.one_place d in ground (arith, count_of-remove c d s.pool.out has);
  counted =
      let (k, same, sum) = h.counted in (k, same, omega (arith, length-remove c s.pool.out has));
  fits = h.fits;
}
Step-Kept (mark_step s) h = record { one_place = h.one_place; counted = h.counted; fits = h.fits }
Step-Kept (drain_step s c rest e) h = record {
  one_place = λ d. let before = h.one_place d in let head = at_head d c rest e in omega arith;
  counted = h.counted;
  fits = let fit = h.fits in let head = length_head c rest e in omega arith;
}

-- However the steps of the calls of any number of goroutines interleave, as long as the counter does not
-- wrap around: each connection that was dialled is in one place, in the channel, with one caller or
-- closed; the counter of active connections, the calls that have not counted their connection yet and
-- those that have counted it out are together the connections that callers hold; and the channel is
-- not over its capacity.
pub Reachable-Kept : {s : Shared} → Reachable s → Kept s
unfolding new_pool
Reachable-Kept (start max_size min_idle answered) =
    let h = new_pool-Conserved max_size min_idle answered in
    record { one_place = h.one_place; counted = (0, refl, refl); fits = h.fits }
Reachable-Kept (next r st) = Step-Kept st (Reachable-Kept r)
