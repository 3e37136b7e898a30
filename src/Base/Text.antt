-- ===== src/Base/Text.antt =====
-- Byte strings and slices. A Go `[]byte` that is nil differs from one that is empty, and the
-- program tests the difference: `nil` and `buf []` are two values here.
use Prim.Native.Nat.{ℕ}
use Prim.Native.Char.{code}
use Prim.Native.String.{String}
use mathlib.Core.Path.{◌≡◌, refl}
use mathlib.Core.Logic.{◌↔◌}
use mathlib.Core.Bool.{Bool, true, false, ◌&&◌, ◌||◌}
use mathlib.Core.List.{List, [], ◌∷◌, ◌++◌}
use native.Mathlib.Omega.{arith}
use dragon_cluster_resp_prox.Base.Compare.{leb, ◌==◌}

abbrev pub Bytes : Type 0
Bytes = List ℕ

-- The code points of a text: its bytes, if it is ASCII.
abbrev pub codes : String → Bytes
codes String.[] = []
codes (String.◌∷◌ c s) = code c ∷ codes s

-- `bytes.Equal`, and `==` on strings.
unfoldable pub equal : Bytes → Bytes → Bool
equal [] [] = true
equal (x ∷ xs) (y ∷ ys) = x == y && equal xs ys
equal _ _ = false

pub equal_iff : (a b : Bytes) → (equal a b ≡ true) ↔ (a ≡ b)
unfolding equal
equal_iff [] [] = ground arith
equal_iff [] (y ∷ t) = ground arith
equal_iff (x ∷ s) [] = ground arith
equal_iff (x ∷ s) (y ∷ t) = ground (arith, equal_iff s t)

pub equal_refl : (a : Bytes) → equal a a ≡ true
equal_refl a = (equal_iff a a).1 refl

-- `bytes.HasPrefix s prefix`.
unfoldable pub is_prefix : Bytes → Bytes → Bool
is_prefix s [] = true
is_prefix [] (p ∷ ps) = false
is_prefix (c ∷ s) (p ∷ ps) = c == p && is_prefix s ps

pub is_prefix-append : (p s : Bytes) → is_prefix (p ++ s) p ≡ true
unfolding is_prefix
is_prefix-append [] s = refl
is_prefix-append (x ∷ p) s = ground (arith, is_prefix-append p s)

abbrev pub is_digit : ℕ → Bool
is_digit c = leb b'0' c && leb c b'9'

-- Whether a name is one of a `case` list.
unfoldable pub mem_name : Bytes → List Bytes → Bool
unfolding equal
mem_name n [] = false
mem_name n (m ∷ ms) = equal n m || mem_name n ms

pub data Slice : Type 0 where
  nil : Slice
  buf : Bytes → Slice

abbrev pub content : Slice → Bytes
content nil = []
content (buf b) = b

-- `append([]byte(nil), b...)`: nothing appended to nil is nil.
unfoldable pub fresh : Bytes → Slice
fresh [] = nil
fresh (c ∷ b) = buf (c ∷ b)

pub content-fresh : (b : Bytes) → content (fresh b) ≡ b
unfolding fresh
content-fresh [] = refl
content-fresh (c ∷ b) = refl

-- `[][]byte`: the arguments of a command.
abbrev pub Argv : Type 0
Argv = List Slice
