-- ===== src/Pool.antt =====
-- internal/pool/pool.go: the bounded pool of connections to one node. Connections are numbered as they
-- are dialled. `out` and `gone`, the connections that callers hold and those that are closed, are of
-- the model. A dial is a parameter: whether it gives a connection. The counter of
-- active connections, an int32, stays below 2^31.
pub mod Conserved
pub mod Interleaved
pub mod Serial
pub mod Dial
use dragon_cluster_resp_prox.Base.{
  ℕ, zero, suc, ◌+◌, ◌-◌, ◌==◌, ℤ, pos, negsuc, ltb_ℤ, ◌+ℤ◌, Bool, true, false, not, ◌&&◌, List, [],
  ◌∷◌, ◌++◌, ltb, leb, if◌then◌else◌, length, Option, none, some,
}

pub record Pool : Type 0 where
  pub max_size : ℕ
  pub conns : List ℕ
  pub active : ℤ
  pub closed : Bool
  pub out : List ℕ
  pub gone : List ℕ
  pub dials : ℕ

abbrev pub at_least_one : ℤ → ℕ
at_least_one (pos n) = if n == 0 then 1 else n
at_least_one (negsuc n) = 1

abbrev natural_part : ℤ → ℕ
natural_part (pos n) = n
natural_part (negsuc n) = 0

-- The numbers below `n`, the smallest first.
unfoldable pub first_conns : ℕ → List ℕ
first_conns zero = []
first_conns (suc n) = first_conns n ++ (n ∷ [])

abbrev pub min_of : ℕ → ℕ → ℕ
min_of a b = if leb a b then a else b

-- `answered` dials give a connection, then one fails.
unfoldable pub new_pool : ℤ → ℤ → ℕ → Pool
unfolding first_conns
new_pool max_size min_idle answered =
    let size = at_least_one max_size in
    let n = min_of (min_of (natural_part min_idle) size) answered in
    record {
      max_size = size;
      conns = first_conns n;
      active = pos 0;
      closed = false;
      out = [];
      gone = [];
      dials = n;
    }

-- `p.active.Add(1)` and `p.active.Add(-1)`.
abbrev pub count_up : Pool → Pool
count_up p = record p { active = p.active +ℤ pos 1 }

abbrev pub count_down : Pool → Pool
count_down p = record p { active = p.active +ℤ negsuc 0 }

-- A connection leaves the channel for a caller.
abbrev pub taken_out : ℕ → List ℕ → Pool → Pool
taken_out c rest p = record p { conns = rest; out = c ∷ p.out }

-- `<-p.conns` without waiting, on a channel that has a connection.
unfoldable pub take_from : List ℕ → Pool → Option (ℕ × Pool)
take_from [] p = none
take_from (c ∷ rest) p = some (c, count_up (taken_out c rest p))

unfoldable pub take_conn : Pool → Option (ℕ × Pool)
unfolding take_from
take_conn p = take_from p.conns p

abbrev pub may_dial : Pool → Bool
may_dial p = ltb_ℤ (p.active +ℤ pos (length p.conns)) (pos p.max_size)

-- A dial that gives a connection.
abbrev pub new_conn : Pool → Pool
new_conn p = record p { out = p.dials ∷ p.out; dials = suc p.dials }

unfoldable pub dialled : Pool → ℕ × Pool
dialled p = (p.dials, count_up (new_conn p))

-- `Get`: the connection, the error of a closed pool, or waiting for a connection.
pub data Got : Type 0 where
  got : ℕ → Pool → Got
  pool_closed waiting : Got

-- What `Get` does with what it finds in the channel.
serve : Bool → Option (ℕ × Pool) → Pool → Got
serve dial_answers (some (c, next)) p = got c next
serve dial_answers none p =
    if may_dial p && dial_answers then got (dialled p).0 (dialled p).1 else waiting

unfoldable pub get : Bool → Pool → Got
unfolding serve
get dial_answers p = if p.closed then pool_closed else serve dial_answers (take_conn p) p

unfoldable pub remove : ℕ → List ℕ → List ℕ
remove c [] = []
remove c (d ∷ ds) = let rest = remove c ds in if d == c then ds else d ∷ rest

-- `Put` under the lock: a full channel closes the connection, as a closed pool does.
unfoldable pub give_back : ℕ → Pool → Pool
unfolding remove
give_back c p =
    let released = record p { out = remove c p.out } in
    if p.closed
    then record released { gone = c ∷ p.gone }
    else if ltb (length p.conns) p.max_size
    then record released { conns = p.conns ++ (c ∷ []) }
    else record released { gone = c ∷ p.gone }

-- The whole of `Put`: the connection is counted out in front of the lock.
unfoldable pub put : ℕ → Pool → Pool
unfolding give_back
put c p = give_back c (count_down p)

unfoldable pub shut_conn : ℕ → Pool → Pool
unfolding remove
shut_conn c p = record p { out = remove c p.out; gone = c ∷ p.gone }

unfoldable pub drop_conn : ℕ → Pool → Pool
unfolding shut_conn
drop_conn c p = shut_conn c (count_down p)

-- The two steps of `Close`, which closes the connections of the channel one after the other.
abbrev pub mark_closed : Pool → Pool
mark_closed p = record p { closed = true }

abbrev pub drained : ℕ → List ℕ → Pool → Pool
drained c rest p = record p { conns = rest; gone = c ∷ p.gone }

unfoldable pub close : Pool → Pool
close p = if p.closed then p else record (mark_closed p) { conns = []; gone = p.conns ++ p.gone }
