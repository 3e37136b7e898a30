-- ===== src/Resp.antt =====
-- internal/resp: RESP values, their encoding and the reader of a connection.
pub mod Prefix
pub mod Value
pub mod Decimal
pub mod Encode
pub mod Reader
pub mod Ascii
