-- ===== src/Examples/OnWire.antt =====
-- internal/resp at concrete inputs.
use dragon_cluster_resp_prox.Base.{
  ◌^◌, ◌≡◌, refl, inl, arith, [], ◌∷◌, ◌++◌, codes, buf, fresh, pos, negsuc, some, length, ok, err,
}
use dragon_cluster_resp_prox.Resp.Prefix
use dragon_cluster_resp_prox.Resp.Decimal.{append_int, parse_int64, parse_int64-append_int}
use dragon_cluster_resp_prox.Resp.Value.{Value, array, bulk_string, integer}
use dragon_cluster_resp_prox.Resp.Encode.{encode}
use dragon_cluster_resp_prox.Resp.Reader.{read_message, crashed, with_raw}
use dragon_cluster_resp_prox.Resp.Reader.RoundTrip.{
  IsWire, end_wire, item_wire, line, read_message-encode,
}
use dragon_cluster_resp_prox.Resp.Reader.Fuel.{Returns, read_message_total}
use dragon_cluster_resp_prox.Resp.Reader.Refuses.{read_message-crashed}

parse_int64-append_int_example : parse_int64 (append_int (negsuc 41)) ≡ some (negsuc 41)
parse_int64-append_int_example = parse_int64-append_int (negsuc 41) (omega arith)

abbrev two_items : Value
two_items = array (bulk_string (buf (codes "a\r\n")) ∷ integer (negsuc 6) ∷ [])

two_items_IsWire : IsWire two_items
two_items_IsWire = IsWire.array _ (omega arith) (
    item_wire (IsWire.bulk (codes "a\r\n") (omega arith))
      (item_wire (IsWire.integer (negsuc 6) (omega arith)) end_wire))

read_message-encode_example :
    read_message (encode [] two_items ++ codes "PING\r\n")
    ≡ ok (with_raw two_items (fresh (encode [] two_items)), codes "PING\r\n")
read_message-encode_example = read_message-encode (codes "PING\r\n") two_items_IsWire

read_message_total_example : Returns (length (codes "*1\r\n$2")) (read_message (codes "*1\r\n$2"))
read_message_total_example = read_message_total (codes "*1\r\n$2")

read_message-crashed_example :
    read_message (line Prefix.map (append_int (pos (2 ^ 62))) ++ []) ≡ err crashed
read_message-crashed_example =
    read_message-crashed Prefix.map (2 ^ 62) [] (inl refl) (omega arith) (omega arith)
