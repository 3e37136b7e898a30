-- ===== src/Resp/Prefix.antt =====
-- internal/resp/value.go: the type prefixes, each the byte that stands on the wire.
use dragon_cluster_resp_prox.Base.{ℕ}

abbrev pub simple_string : ℕ
simple_string = b'+'

abbrev pub error : ℕ
error = b'-'

abbrev pub integer : ℕ
integer = b':'

abbrev pub bulk_string : ℕ
bulk_string = b'$'

abbrev pub array : ℕ
array = b'*'

abbrev pub null : ℕ
null = b'_'

abbrev pub boolean : ℕ
boolean = b'#'

abbrev pub double : ℕ
double = b','

abbrev pub big_number : ℕ
big_number = b'('

abbrev pub blob_error : ℕ
blob_error = b'!'

abbrev pub verbatim : ℕ
verbatim = b'='

abbrev pub map : ℕ
map = b'%'

abbrev pub set : ℕ
set = b'~'

abbrev pub push : ℕ
push = b'>'

abbrev pub attribute : ℕ
attribute = b'|'
