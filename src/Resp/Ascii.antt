-- ===== src/Resp/Ascii.antt =====
-- internal/resp/parse.go: command arguments and comparisons up to ASCII case.
use dragon_cluster_resp_prox.Base.{
  ℕ, suc, ◌+◌, ◌-◌, ◌≡◌, refl, ap, Bool, true, false, not, ◌&&◌, ◌||◌, [], ◌∷◌, ◌==◌, ltb, leb,
  if◌then◌else◌, Bytes, nil, buf, Argv, arith, length, take, is_prefix, get_or, ok, err, ◌>>=◌, ◌↔◌,
}
use dragon_cluster_resp_prox.Resp.Prefix
use dragon_cluster_resp_prox.Resp.Reader.{Read, protocol}
use dragon_cluster_resp_prox.Resp.Value.{
  Value, Values, end, item, type_of, str, values, is_null, command_array, bulk_strings,
}

-- The elements must be bulk or simple strings.
elements : Values → Read Argv
elements end = ok []
elements (item v vs) =
    let rest = elements vs >>= λ argv. ok (str v ∷ argv) in
    if type_of v == Prefix.bulk_string || type_of v == Prefix.simple_string
    then rest
    else err protocol

unfoldable pub array_to_argv : Value → Read Argv
unfolding elements
array_to_argv v =
    if not (type_of v == Prefix.array) || is_null v then err protocol else elements (values v)

abbrev pub lower_byte : ℕ → ℕ
lower_byte c = if leb b'A' c && leb c b'Z' then c + 32 else c

abbrev pub upper_byte : ℕ → ℕ
upper_byte c = if leb b'a' c && leb c b'z' then c - 32 else c

fold_bytes : Bytes → Bytes → Bool
fold_bytes (x ∷ a) (y ∷ b) = lower_byte x == lower_byte y && fold_bytes a b
fold_bytes _ _ = true

unfoldable pub equal_fold : Bytes → Bytes → Bool
unfolding fold_bytes
equal_fold a b = if not (length a == length b) then false else fold_bytes a b

unfoldable pub upper : Bytes → Bytes
upper [] = []
upper (c ∷ b) = upper_byte c ∷ upper b

unfoldable pub has_prefix_fold : Bytes → Bytes → Bool
unfolding equal_fold
has_prefix_fold s prefix =
    if ltb (length s) (length prefix) then false else equal_fold (take (length prefix) s) prefix

unfoldable pub contains_token : Bytes → Bytes → Bool
unfolding is_prefix
contains_token s token =
    if not (is_prefix s token)
    then false
    else if length s == length token
    then true
    else get_or s (length token) 0 == b' '

elements-bulk_strings : (argv : Argv) → elements (bulk_strings argv) ≡ ok argv
unfolding elements
elements-bulk_strings [] = refl
elements-bulk_strings (nil ∷ argv) = rw (elements-bulk_strings argv, ◌>>=◌) refl
elements-bulk_strings (buf s ∷ argv) = rw (elements-bulk_strings argv, ◌>>=◌) refl

-- The command array that is sent to a backend gives back the same arguments.
pub array_to_argv-command_array : (argv : Argv) → array_to_argv (command_array argv) ≡ ok argv
unfolding array_to_argv
array_to_argv-command_array argv = elements-bulk_strings argv

fold_bytes_iff : (a b : Bytes) → length a ≡ length b → (fold_bytes a b ≡ true) ↔ (upper a ≡ upper b)
unfolding fold_bytes upper
fold_bytes_iff [] [] h = ground arith
fold_bytes_iff [] (y ∷ b) h = absurd (omega arith)
fold_bytes_iff (x ∷ a) [] h = absurd (omega arith)
fold_bytes_iff (x ∷ a) (y ∷ b) h = ground (arith, fold_bytes_iff a b)

length-upper : (b : Bytes) → length (upper b) ≡ length b
unfolding upper
length-upper [] = refl
length-upper (c ∷ b) = ap suc (length-upper b)

-- `EqualFoldASCII` holds exactly when the upper-case forms are equal.
pub equal_fold_iff : (a b : Bytes) → (equal_fold a b ≡ true) ↔ (upper a ≡ upper b)
unfolding equal_fold
equal_fold_iff a b = ground (arith, fold_bytes_iff a b, length-upper a, length-upper b)

pub upper-upper : (b : Bytes) → upper (upper b) ≡ upper b
unfolding upper
upper-upper [] = refl
upper-upper (c ∷ b) = ground (arith, upper-upper b)
