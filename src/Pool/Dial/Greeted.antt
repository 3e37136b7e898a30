-- ===== src/Pool/Dial/Greeted.antt =====
-- internal/pool/pool.go: a connection that a dial gives has been greeted, and a dial that fails leaves
-- no socket open.
use dragon_cluster_resp_prox.Base.{
  ℕ, suc, ◌≡◌, ◌-◌, sym, ◌∙◌, ap, arith, ℤ, Bool, true, false, [], ◌++◌, Bytes, codes, content,
  equal, Argv, Option, none, some, Result, ok, err, Go, ◌>>=◌, Holds, Holds-bind, if◌then◌else◌,
  if_both, append-nil,
}
use dragon_cluster_resp_prox.Resp.Value.{Value, is_error, str}
use dragon_cluster_resp_prox.Resp.Encode.{encode_command}
use dragon_cluster_resp_prox.Resp.Reader.{
  ReadError, protocol, io, crashed, out_of_fuel, read_message,
}
use dragon_cluster_resp_prox.Pool.Dial.{
  Link, Options, unless_failed, auth_argv, read_only_argv, refusal, received, receive, read, do_raw,
  do_command, round_trip, auth, log_in, become_read_only, unless_refused, greet, secured, connected,
  dial,
}

-- What a call that can fail leaves, when it fails and when it does not.
abbrev pub After : {E W : Type 0} → (W → Type 0) → (W → Type 0) → Option E × W → Type 0
After P Failed (none, w) = P w
After P Failed (some e, w) = Failed w

abbrev pub Gives : {A W : Type 0} → (A → W → Type 0) → (W → Type 0) → Result Bytes A × W → Type 0
Gives P Failed (ok a, w) = P a w
Gives P Failed (err e, w) = Failed w

-- The sockets that are open, and what was written on each: on a socket, and on what TLS makes of it,
-- nothing at first.
pub record Sockets {C W : Type 0} (link : Link C W) : Type 0 where
  pub alive : W → ℕ
  pub sent : C → W → Bytes
  pub connects :
      (a : Bytes) (t : ℤ) (w : W)
      → Gives
          (λ c u. (alive u ≡ suc (alive w)) × (sent c u ≡ []))
          (λ u. alive u ≡ alive w)
          (link.connect a t w)
  pub secures :
      (c : C) (t : ℤ) (w : W)
      → Gives
          (λ s u. (alive u ≡ alive w) × (sent s u ≡ []))
          (λ u. alive u ≡ alive w)
          (link.secure c t w)
  pub write_waits :
      (c : C) (t : ℤ) (w : W)
      → After
          (λ u. (alive u ≡ alive w) × (sent c u ≡ sent c w))
          (λ u. alive u ≡ alive w)
          (link.write_deadline c t w)
  pub read_waits :
      (c : C) (t : ℤ) (w : W)
      → After
          (λ u. (alive u ≡ alive w) × (sent c u ≡ sent c w))
          (λ u. alive u ≡ alive w)
          (link.read_deadline c t w)
  pub writes :
      (c : C) (frame : Bytes) (w : W)
      → After
          (λ u. (alive u ≡ alive w) × (sent c u ≡ sent c w ++ frame))
          (λ u. alive u ≡ alive w)
          (link.write c frame w)
  pub advances :
      (c : C) (rest : Bytes) (w : W)
      → (alive (link.advance c rest w) ≡ alive w) × (sent c (link.advance c rest w) ≡ sent c w)
  pub shuts : (c : C) (w : W) → alive (link.shut c w) ≡ alive w - 1

Holds-unless_failed :
    {A W : Type 0} (P Failed : W → Type 0) (Q : Result Bytes A × W → Type 0) (m : Option Bytes × W)
    (next : W → Go (Result Bytes A × W))
    → After P Failed m
    → ((u : W) → P u → Holds Q (next u))
    → ((e : Bytes) (u : W) → Failed u → Q (err e, u))
    → Holds Q (unless_failed m next)
Holds-unless_failed P Failed Q (none, w) next h k bad = k w h
Holds-unless_failed P Failed Q (some e, w) next h k bad = bad e w h

-- What a connection is sent before it is used.
abbrev greeting : Options → Bytes
greeting o =
    (if equal o.password [] then [] else encode_command [] (auth_argv o.username o.password))
    ++ (if o.read_only then encode_command [] read_only_argv else [])

module _ {C W : Type 0} (link : Link C W) (s : Sockets link) where
  -- `n` sockets are open, and this was written on `c`.
  abbrev Now : C → ℕ → Bytes → W → Type 0
  Now c n text w = (s.alive w ≡ n) × (s.sent c w ≡ text)

  abbrev Alive : ℕ → W → Type 0
  Alive n w = s.alive w ≡ n

  received-Now :
      (c : C) (n : ℕ) (text : Bytes) (w : W) (r : Result ReadError (Value × Bytes))
      → Now c n text w
      → Holds (Gives (λ v. Now c n text) (Alive n)) (received link c w r)
  received-Now c n text w (ok p) h = let law = s.advances c p.1 w in (law.0 ∙ h.0, law.1 ∙ h.1)
  received-Now c n text w (err crashed) h = tt
  received-Now c n text w (err protocol) h = h.0
  received-Now c n text w (err io) h = h.0
  received-Now c n text w (err out_of_fuel) h = h.0

  waits :
      (c : C) (n : ℕ) (text : Bytes) (w : W) (m : Option Bytes × W)
      → Now c n text w
      → After
          (λ u. (s.alive u ≡ s.alive w) × (s.sent c u ≡ s.sent c w))
          (λ u. s.alive u ≡ s.alive w)
          m
      → After (Now c n text) (Alive n) m
  waits c n text w (none, u) h law = (law.0 ∙ h.0, law.1 ∙ h.1)
  waits c n text w (some e, u) h law = law ∙ h.0

  written :
      (c : C) (n : ℕ) (text frame : Bytes) (w : W) (m : Option Bytes × W)
      → Now c n text w
      → After
          (λ u. (s.alive u ≡ s.alive w) × (s.sent c u ≡ s.sent c w ++ frame))
          (λ u. s.alive u ≡ s.alive w)
          m
      → After (Now c n (text ++ frame)) (Alive n) m
  written c n text frame w (none, u) h law = (law.0 ∙ h.0, law.1 ∙ ap (λ t. t ++ frame) h.1)
  written c n text frame w (some e, u) h law = law ∙ h.0

  do_raw-Now :
      (c : C) (n : ℕ) (text frame : Bytes) (write_to read_to : ℤ) (w : W)
      → Now c n text w
      → Holds
          (Gives (λ v. Now c n (text ++ frame)) (Alive n))
          (do_raw link c frame write_to read_to w)
  unfolding do_raw read receive
  do_raw-Now c n text frame write_to read_to w h =
      let Q : Result Bytes Value × W → Type 0 = Gives (λ v. Now c n (text ++ frame)) (Alive n) in
      Holds-unless_failed (Now c n text) (Alive n) Q (link.write_deadline c write_to w)
        (λ u. unless_failed (link.write c frame u) (λ x. read link c read_to x))
        (waits c n text w (link.write_deadline c write_to w) h (s.write_waits c write_to w))
        (λ u k.
          Holds-unless_failed (Now c n (text ++ frame)) (Alive n) Q (link.write c frame u)
            (λ x. read link c read_to x)
            (written c n text frame u (link.write c frame u) k (s.writes c frame u))
            (λ x l.
              Holds-unless_failed (Now c n (text ++ frame)) (Alive n) Q
                (link.read_deadline c read_to x) (λ y. receive link c y)
                (waits c n (text ++ frame) x (link.read_deadline c read_to x) l
                  (s.read_waits c read_to x))
                (λ y. received-Now c n (text ++ frame) y (read_message (link.unread c y)))
                (λ e y bad. bad))
            (λ e x bad. bad))
        (λ e u bad. bad)

  refused-After :
      (P Failed : W → Type 0)
      → ((w : W) → P w → Failed w)
      → (b : Bool) (e : Bytes) (w : W) → P w
      → After P Failed (if b then some e else none, w)
  refused-After P Failed weaker true e w h = weaker w h
  refused-After P Failed weaker false e w h = h

  refusal-After :
      (P Failed : W → Type 0)
      → ((w : W) → P w → Failed w)
      → (out : Result Bytes Value × W) → Gives (λ v. P) Failed out
      → After P Failed (refusal out.0, out.1)
  refusal-After P Failed weaker (err e, w) h = h
  refusal-After P Failed weaker (ok v, w) h =
      refused-After P Failed weaker (is_error v) (codes "backend: " ++ content (str v)) w h

  round_trip-Now :
      (c : C) (n : ℕ) (text : Bytes) (argv : Argv) (write_to read_to : ℤ) (w : W)
      → Now c n text w
      → Holds
          (After (Now c n (text ++ encode_command [] argv)) (Alive n))
          (round_trip link c argv write_to read_to w)
  unfolding round_trip do_command
  round_trip-Now c n text argv write_to read_to w h =
      let said : Bytes = text ++ encode_command [] argv in
      Holds-bind (Gives (λ v. Now c n said) (Alive n)) (After (Now c n said) (Alive n))
        (do_command link c argv write_to read_to w) (λ out. ok (refusal out.0, out.1))
        (do_raw-Now c n text (encode_command [] argv) write_to read_to w h)
        (refusal-After (Now c n said) (Alive n) (λ u k. k.0))

  -- An optional round trip.
  part-Now :
      (b : Bool) (c : C) (n : ℕ) (text : Bytes) (argv : Argv) (write_to read_to : ℤ) (w : W)
      → Now c n text w
      → Holds
          (After (Now c n (text ++ (if b then encode_command [] argv else []))) (Alive n))
          (if b then round_trip link c argv write_to read_to w else ok (none, w))
  part-Now true c n text argv write_to read_to w h =
      round_trip-Now c n text argv write_to read_to w h
  part-Now false c n text argv write_to read_to w h = (h.0, h.1 ∙ sym (append-nil text))

  part-unless-Now :
      (b : Bool) (c : C) (n : ℕ) (text : Bytes) (argv : Argv) (write_to read_to : ℤ) (w : W)
      → Now c n text w
      → Holds
          (After (Now c n (text ++ (if b then [] else encode_command [] argv))) (Alive n))
          (if b then ok (none, w) else round_trip link c argv write_to read_to w)
  part-unless-Now false c n text argv write_to read_to w h =
      round_trip-Now c n text argv write_to read_to w h
  part-unless-Now true c n text argv write_to read_to w h = (h.0, h.1 ∙ sym (append-nil text))

  -- `n` sockets are open beside a connection that a dial gives, to which the greeting and nothing else
  -- was written.
  abbrev pub Dialled : Options → ℕ → Result Bytes C × W → Type 0
  Dialled o n = Gives (λ c. Now c (suc n) (greeting o)) (Alive n)

  Holds-unless_refused :
      (c : C) (o : Options) (n : ℕ) (text : Bytes) (m : Option Bytes × W)
      (next : W → Go (Result Bytes C × W))
      → After (Now c (suc n) text) (Alive (suc n)) m
      → ((u : W) → Now c (suc n) text u → Holds (Dialled o n) (next u))
      → Holds (Dialled o n) (unless_refused link c m next)
  Holds-unless_refused c o n text (none, w) next h k = k w h
  Holds-unless_refused c o n text (some e, w) next h k =
      let law = s.shuts c w in omega (arith, law, h)

  greet-Dialled :
      (o : Options) (c : C) (n : ℕ) (w : W)
      → Now c (suc n) [] w
      → Holds (Dialled o n) (greet link o c w)
  unfolding greet log_in auth become_read_only
  greet-Dialled o c n w h =
      let name : Bytes =
        if equal o.password [] then [] else encode_command [] (auth_argv o.username o.password) in
      Holds-bind (After (Now c (suc n) name) (Alive (suc n))) (Dialled o n) (log_in link o c w)
        (λ out. unless_refused link c out (λ u.
          become_read_only link o c u >>= λ end. unless_refused link c end (λ x. ok (ok c, x))))
        (part-unless-Now (equal o.password []) c (suc n) [] (auth_argv o.username o.password)
          o.write_timeout o.read_timeout w h)
        (λ out k.
          Holds-unless_refused c o n name out
            (λ u.
              become_read_only link o c u >>= λ end. unless_refused link c end (λ x. ok (ok c, x)))
            k
            (λ u l.
              Holds-bind (After (Now c (suc n) (greeting o)) (Alive (suc n))) (Dialled o n)
                (become_read_only link o c u) (λ end. unless_refused link c end (λ x. ok (ok c, x)))
                (part-Now o.read_only c (suc n) name read_only_argv o.write_timeout o.read_timeout u
                  l)
                (λ end e.
                  Holds-unless_refused c o n (greeting o) end (λ x. ok (ok c, x)) e (λ x y. y))))

  secured-Dialled :
      (o : Options) (c : C) (n : ℕ) (m : Result Bytes C × W)
      → Gives (λ d u. (s.alive u ≡ suc n) × (s.sent d u ≡ [])) (Alive (suc n)) m
      → Holds (Dialled o n) (secured link o c m)
  unfolding secured
  secured-Dialled o c n (ok d, w) h = greet-Dialled o d n w h
  secured-Dialled o c n (err e, w) h = let law = s.shuts c w in omega (arith, law, h)

  after_secure :
      (n : ℕ) (w : W) (m : Result Bytes C × W)
      → s.alive w ≡ n
      → Gives (λ d u. (s.alive u ≡ s.alive w) × (s.sent d u ≡ [])) (λ u. s.alive u ≡ s.alive w) m
      → Gives (λ d u. (s.alive u ≡ n) × (s.sent d u ≡ [])) (Alive n) m
  after_secure n w (ok d, u) h law = (law.0 ∙ h, law.1)
  after_secure n w (err e, u) h law = law ∙ h

  connected-Dialled :
      (o : Options) (n : ℕ) (m : Result Bytes C × W)
      → Gives (λ c u. (s.alive u ≡ suc n) × (s.sent c u ≡ [])) (Alive n) m
      → Holds (Dialled o n) (connected link o m)
  unfolding connected
  connected-Dialled o n (err e, w) h = h
  connected-Dialled o n (ok c, w) h =
      if_both (Holds (Dialled o n)) o.tls
        (secured-Dialled o c n (link.secure c o.dial_timeout w) (
          after_secure (suc n) w (link.secure c o.dial_timeout w) h.0
            (s.secures c o.dial_timeout w)))
        (greet-Dialled o c n w h)

  -- Whatever the node answers, if the reader does not panic: a connection that a dial gives was sent
  -- AUTH, if there is a password, then READONLY, if replicas are read, and nothing else, and a dial that
  -- fails leaves no socket open.
  pub dial-Dialled : (o : Options) (w : W) → Holds (Dialled o (s.alive w)) (dial link o w)
  unfolding dial
  dial-Dialled o w =
      connected-Dialled o (s.alive w) (link.connect o.addr o.dial_timeout w)
        (s.connects o.addr o.dial_timeout w)
