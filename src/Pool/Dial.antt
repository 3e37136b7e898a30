-- ===== src/Pool/Dial.antt =====
-- internal/pool/pool.go: what is sent on a connection and read from it, and how one is dialled. The
-- sockets and TLS are a parameter. A read that fails leaves the bytes on the connection, which its
-- callers close. The counter of dials is in Pool.
pub mod Greeted
use dragon_cluster_resp_prox.Base.{
  ℕ, ℤ, pos, ltb_ℤ, Bool, true, false, List, [], ◌∷◌, ◌++◌, Bytes, codes, equal, buf, Argv, Option,
  none, some, Result, ok, err, Go, Panic, panic, ◌>>=◌, if◌then◌else◌, content,
}
use dragon_cluster_resp_prox.Resp.Value.{Value, is_error, str}
use dragon_cluster_resp_prox.Resp.Encode.{encode_command}
use dragon_cluster_resp_prox.Resp.Reader.{
  ReadError, protocol, io, crashed, out_of_fuel, read_message,
}

-- A socket: `unread` is what it still delivers before the deadline, and `advance` leaves the bytes
-- behind a value. `error_text` is the text of an error of the reader.
pub record Link (C W : Type 0) : Type 0 where
  pub connect : Bytes → ℤ → W → Result Bytes C × W
  pub secure : C → ℤ → W → Result Bytes C × W
  pub write_deadline : C → ℤ → W → Option Bytes × W
  pub read_deadline : C → ℤ → W → Option Bytes × W
  pub write : C → Bytes → W → Option Bytes × W
  pub unread : C → W → Bytes
  pub advance : C → Bytes → W → W
  pub shut : C → W → W
  pub error_text : ReadError → Bytes

pub record Options : Type 0 where
  pub addr : Bytes
  pub dial_timeout : ℤ
  pub read_timeout : ℤ
  pub write_timeout : ℤ
  pub tls : Bool
  pub username : Bytes
  pub password : Bytes
  pub read_only : Bool

-- A call that fails ends with its error, and another one goes on.
abbrev pub unless_failed :
    {A W : Type 0} → Option Bytes × W → (W → Go (Result Bytes A × W)) → Go (Result Bytes A × W)
unless_failed (some e, w) next = ok (err e, w)
unless_failed (none, w) next = next w

-- What `New` makes of a timeout, in nanoseconds.
abbrev pub with_defaults : Options → Options
with_defaults o =
    if ltb_ℤ (pos 0) o.dial_timeout then o else record o { dial_timeout = pos 3000000000 }

abbrev pub auth_argv : Bytes → Bytes → Argv
auth_argv user pass =
    if equal user []
    then buf (codes "AUTH") ∷ buf pass ∷ []
    else buf (codes "AUTH") ∷ buf user ∷ buf pass ∷ []

abbrev pub read_only_argv : Argv
read_only_argv = buf (codes "READONLY") ∷ []

-- The error of a round trip, if there is one.
abbrev pub refusal : Result Bytes Value → Option Bytes
refusal (err e) = some e
refusal (ok v) = if is_error v then some (codes "backend: " ++ content (str v)) else none

module _ {C W : Type 0} (link : Link C W) where
  abbrev received : C → W → Result ReadError (Value × Bytes) → Go (Result Bytes Value × W)
  received c w (ok p) = ok (ok p.0, link.advance c p.1 w)
  received c w (err crashed) = err panic
  received c w (err protocol) = ok (err (link.error_text protocol), w)
  received c w (err io) = ok (err (link.error_text io), w)
  received c w (err out_of_fuel) = ok (err (link.error_text out_of_fuel), w)

  -- `ReadValue` on a connection.
  unfoldable pub receive : C → W → Go (Result Bytes Value × W)
  unfolding read_message
  receive c w = received c w (read_message (link.unread c w))

  unfoldable pub read : C → ℤ → W → Go (Result Bytes Value × W)
  unfolding receive
  read c read_to w = unless_failed (link.read_deadline c read_to w) (λ u. receive c u)

  unfoldable pub do_raw : C → Bytes → ℤ → ℤ → W → Go (Result Bytes Value × W)
  unfolding read
  do_raw c frame write_to read_to w =
      unless_failed (link.write_deadline c write_to w)
        (λ u. unless_failed (link.write c frame u) (λ x. read c read_to x))

  unfoldable pub do_command : C → Argv → ℤ → ℤ → W → Go (Result Bytes Value × W)
  unfolding do_raw encode_command
  do_command c argv write_to read_to w = do_raw c (encode_command [] argv) write_to read_to w

  unfoldable pub write_raw : C → Bytes → ℤ → W → Option Bytes × W
  write_raw c frame write_to w =
      let (failed, after) = link.write_deadline c write_to w in
      elim failed [ some e ↦ (some e, after) | none ↦ link.write c frame after ]

  unfoldable pub round_trip : C → Argv → ℤ → ℤ → W → Go (Option Bytes × W)
  unfolding do_command
  round_trip c argv write_to read_to w =
      do_command c argv write_to read_to w >>= λ out. ok (refusal out.0, out.1)

  unfoldable pub auth : Options → C → W → Go (Option Bytes × W)
  unfolding round_trip
  auth o c w = round_trip c (auth_argv o.username o.password) o.write_timeout o.read_timeout w

  -- AUTH, if there is a password.
  unfoldable pub log_in : Options → C → W → Go (Option Bytes × W)
  unfolding auth
  log_in o c w = if equal o.password [] then ok (none, w) else auth o c w

  -- READONLY, on a connection to a replica.
  unfoldable pub become_read_only : Options → C → W → Go (Option Bytes × W)
  unfolding round_trip
  become_read_only o c w =
      if o.read_only
      then round_trip c read_only_argv o.write_timeout o.read_timeout w
      else ok (none, w)

  -- A connection whose greeting fails is closed.
  abbrev pub unless_refused :
      C → Option Bytes × W → (W → Go (Result Bytes C × W)) → Go (Result Bytes C × W)
  unless_refused c (some e, w) next = ok (err e, link.shut c w)
  unless_refused c (none, w) next = next w

  unfoldable pub greet : Options → C → W → Go (Result Bytes C × W)
  unfolding log_in become_read_only
  greet o c w = log_in o c w >>= λ out.
      unless_refused c out
        (λ u. become_read_only o c u >>= λ end. unless_refused c end (λ x. ok (ok c, x)))

  -- With TLS, the connection after the handshake.
  unfoldable pub secured : Options → C → Result Bytes C × W → Go (Result Bytes C × W)
  unfolding greet
  secured o c (err e, w) = ok (err e, link.shut c w)
  secured o c (ok s, w) = greet o s w

  unfoldable pub connected : Options → Result Bytes C × W → Go (Result Bytes C × W)
  unfolding secured greet
  connected o (err e, w) = ok (err (codes "dial " ++ o.addr ++ codes ": " ++ e), w)
  connected o (ok c, w) =
      if o.tls then secured o c (link.secure c o.dial_timeout w) else greet o c w

  unfoldable pub dial : Options → W → Go (Result Bytes C × W)
  unfolding connected
  dial o w = connected o (link.connect o.addr o.dial_timeout w)
