-- ===== src/Resp/Value.antt =====
-- internal/resp/value.go: the values of the protocol and their constructors.
use dragon_cluster_resp_prox.Base.{
  ℕ, ◌≡◌, refl, Bool, true, false, ◌||◌, List, [], ◌∷◌, Option, none, some, ◌==◌, if◌then◌else◌,
  Bytes, Slice, nil, buf, content, equal, Argv, ℤ, pos, take, suc, length,
}
use dragon_cluster_resp_prox.Resp.Prefix

-- `value type str int values raw null`.
mutual
  pub data Value : Type 0 where
    value : ℕ → Slice → ℤ → Values → Slice → Bool → Value

  pub data Values : Type 0 where
    end : Values
    item : Value → Values → Values

abbrev pub type_of : Value → ℕ
type_of (value t s n vs r z) = t

abbrev pub str : Value → Slice
str (value t s n vs r z) = s

abbrev pub int : Value → ℤ
int (value t s n vs r z) = n

abbrev pub values : Value → Values
values (value t s n vs r z) = vs

abbrev pub raw : Value → Slice
raw (value t s n vs r z) = r

abbrev pub is_null : Value → Bool
is_null (value t s n vs r z) = z

abbrev pub to_list : Values → List Value
to_list end = []
to_list (item v vs) = v ∷ to_list vs

abbrev pub of_list : List Value → Values
of_list [] = end
of_list (v ∷ vs) = item v (of_list vs)

abbrev pub count : Values → ℕ
count end = 0
count (item v vs) = suc (count vs)

pub to_list-of_list : (vs : List Value) → to_list (of_list vs) ≡ vs
to_list-of_list [] = refl
to_list-of_list (v ∷ vs) = cc (to_list-of_list vs)

pub count-of_list : (vs : List Value) → count (of_list vs) ≡ length vs
count-of_list [] = refl
count-of_list (v ∷ vs) = cc (count-of_list vs)

-- The zero value of the struct.
abbrev pub zero_value : Value
zero_value = value 0 nil (pos 0) end nil false

abbrev pub is_error : Value → Bool
is_error v = type_of v == Prefix.error || type_of v == Prefix.blob_error

-- `bytes.IndexByte`.
unfoldable pub index_byte : Bytes → ℕ → Option ℕ
index_byte [] b = none
index_byte (c ∷ s) b =
    if c == b then some 0 else elim (index_byte s b) [ none ↦ none | some i ↦ some (suc i) ]

unfoldable pub error_kind : Value → Bytes
unfolding index_byte
error_kind v =
    if is_error v
    then elim (index_byte (content (str v)) b' ') [
      | none ↦ content (str v)
      | some i ↦ take i (content (str v))
    ]
    else []

unfoldable pub equal_kind : Value → Bytes → Bool
unfolding error_kind equal
equal_kind v name = equal (error_kind v) name

abbrev pub bulk_string : Slice → Value
bulk_string nil = value Prefix.bulk_string nil (pos 0) end nil true
bulk_string (buf s) = value Prefix.bulk_string (buf s) (pos 0) end nil false

-- The payload as bytes of a string literal: `[]byte(s)` is never nil.
abbrev pub simple_string : Bytes → Value
simple_string s = value Prefix.simple_string (buf s) (pos 0) end nil false

abbrev pub error : Bytes → Value
error s = value Prefix.error (buf s) (pos 0) end nil false

abbrev pub integer : ℤ → Value
integer n = value Prefix.integer nil n end nil false

abbrev pub array : List Value → Value
array items = value Prefix.array nil (pos 0) (of_list items) nil false

abbrev pub null_array : Value
null_array = value Prefix.array nil (pos 0) end nil true

abbrev pub null_bulk : Value
null_bulk = value Prefix.bulk_string nil (pos 0) end nil true

-- One bulk string for each argument, in order.
abbrev pub bulk_strings : Argv → Values
bulk_strings [] = end
bulk_strings (a ∷ argv) = item (bulk_string a) (bulk_strings argv)

abbrev pub command_array : Argv → Value
command_array argv = value Prefix.array nil (pos 0) (bulk_strings argv) nil false
