-- ===== src/Egress/Wire.antt =====
-- crates/fabric-egress/src/lib.rs, the messages of the SOCKS5 proxy: the socket is what the client
-- sends before it stops, and the messages written to it so far; a read is short when the client
-- has stopped.
use forgewire_fabric.Prelude.{
  ℕ, zero, suc, ◌+◌, ◌*◌, Bool, not, ◌||◌, Option, none, some, List, [], ◌∷◌, ◌++◌, Text, text,
  decimal, any, ◌==◌, if◌then◌else◌,
}
use forgewire_fabric.Prelude.Utf8.{from_utf8}
use forgewire_fabric.Prelude.Results.{Result, err, okay, and_then, ok_or}
use forgewire_fabric.Egress.{Net}

abbrev pub Bytes : Type 0
Bytes = List ℕ

abbrev pub socks_version : ℕ
socks_version = 5

abbrev pub socks_no_auth : ℕ
socks_no_auth = 0

abbrev pub socks_connect : ℕ
socks_connect = 1

abbrev pub reply_succeeded : ℕ
reply_succeeded = 0

abbrev pub reply_policy_denied : ℕ
reply_policy_denied = 2

abbrev pub reply_host_unreachable : ℕ
reply_host_unreachable = 4

abbrev pub reply_command_unsupported : ℕ
reply_command_unsupported = 7

abbrev pub reply_address_unsupported : ℕ
reply_address_unsupported = 8

pub record Target : Type 0 where
  pub host : Text
  pub port : ℕ

pub record EgressDenial : Type 0 where
  pub task_id : ℕ
  pub protocol : Text
  pub command : Text
  pub reason : Text
  pub destination : Option Text
  pub port : Option ℕ

-- The client's side of a connection: bytes still to be read, messages written, writes tried.
pub record Conn : Type 0 where
  pub incoming : Bytes
  pub sent : List Bytes
  pub writes : ℕ

abbrev pub take_exact : ℕ → Bytes → Option (Bytes × Bytes)
take_exact zero s = some ([], s)
take_exact (suc n) [] = none
take_exact (suc n) (b ∷ s) = elim (take_exact n s) [ none ↦ none | some p ↦ some (b ∷ p.0, p.1) ]

-- `read_exact(..).await.map_err(|_| e)`
abbrev pub read_exact {ℓ} : {E : Type ℓ} → ℕ → E → Bytes → Result E (Bytes × Bytes)
read_exact n e s = ok_or e (take_exact n s)

-- `header[i]`
abbrev pub byte_at : Bytes → ℕ → ℕ
byte_at [] i = 0
byte_at (b ∷ s) zero = b
byte_at (b ∷ s) (suc i) = byte_at s i

abbrev pub ipv4_text : Bytes → Text
ipv4_text octets =
    decimal (byte_at octets 0)
    ++ b'.' ∷ decimal (byte_at octets 1)
    ++ b'.' ∷ decimal (byte_at octets 2)
    ++ b'.' ∷ decimal (byte_at octets 3)

abbrev pub Refusal : Type 0
Refusal = ℕ × Text

abbrev pub unsupported : Text → Refusal
unsupported reason = (reply_address_unsupported, reason)

module _ {Ip : Type 0} (net : Net Ip) where
  open net use {parse_ip, ipv6_text, lookup_host, connect, write_succeeds}

  -- `write_all`: whether it succeeds, and the connection after it.
  abbrev pub write_all : Bytes → Conn → Bool × Conn
  write_all message conn =
      let succeeds = write_succeeds conn.writes in
      (
        succeeds,
        record {
          incoming = conn.incoming;
          sent = if succeeds then conn.sent ++ message ∷ [] else conn.sent;
          writes = conn.writes + 1;
        },
      )

  abbrev pub send_reply : ℕ → Conn → Bool × Conn
  send_reply reply = write_all (socks_version ∷ reply ∷ 0 ∷ 1 ∷ 0 ∷ 0 ∷ 0 ∷ 0 ∷ 0 ∷ 0 ∷ [])

  -- The version and the methods offered, with what follows them.
  unfoldable pub read_greeting : Bytes → Result Text (Bytes × Bytes)
  read_greeting s = and_then (read_exact 2 (text "incomplete_greeting") s) (λ read.
      if not (byte_at read.0 0 == socks_version)
      then err (text "unsupported_socks_version")
      else read_exact (byte_at read.0 1) (text "incomplete_greeting") read.1)

  abbrev answer_greeting : Result Text (Bytes × Bytes) → Conn → Result {0, 0} Text Unit × Conn
  answer_greeting (err reason) conn = (err reason, conn)
  answer_greeting (okay (methods, rest)) conn =
      let conn' : Conn = record { incoming = rest; sent = conn.sent; writes = conn.writes } in
      if not (any (λ m. m == socks_no_auth) methods)
      then (err (text "no_supported_auth_method"), (write_all (socks_version ∷ 0xff ∷ []) conn').1)
      else (let written = write_all (socks_version ∷ socks_no_auth ∷ []) conn' in
          ((if written.0 then okay tt else err (text "greeting_reply_failed")), written.1))

  unfoldable pub negotiate_no_auth : Conn → Result {0, 0} Text Unit × Conn
  unfolding read_greeting
  negotiate_no_auth conn = answer_greeting (read_greeting conn.incoming) conn

  unfoldable pub read_domain : Bytes → Result Refusal (Text × Bytes)
  read_domain s = and_then (read_exact 1 (unsupported (text "missing_domain_length")) s) (λ read.
      if byte_at read.0 0 == 0
      then err (unsupported (text "empty_domain"))
      else and_then (read_exact (byte_at read.0 0) (unsupported (text "incomplete_domain")) read.1)
          (λ bytes.
            and_then (ok_or (unsupported (text "non_utf8_domain")) (from_utf8 bytes.0))
              (λ domain. okay (domain, bytes.1))))

  unfoldable pub read_address : ℕ → Bytes → Result Refusal (Text × Bytes)
  unfolding read_domain
  read_address kind s =
      if kind == 1
      then and_then (read_exact 4 (unsupported (text "incomplete_ipv4")) s)
          (λ octets. okay (ipv4_text octets.0, octets.1))
      else if kind == 3
      then read_domain s
      else if kind == 4
      then and_then (read_exact 16 (unsupported (text "incomplete_ipv6")) s)
          (λ octets. okay (ipv6_text octets.0, octets.1))
      else err (unsupported (text "address_type_unsupported"))

  unfoldable pub read_request : Bytes → Result Refusal (ℕ × Target)
  unfolding read_address
  read_request s = and_then (read_exact 4 (unsupported (text "incomplete_request")) s) (λ header.
      if not (byte_at header.0 0 == socks_version) || not (byte_at header.0 2 == 0)
      then err (unsupported (text "malformed_request"))
      else and_then (read_address (byte_at header.0 3) header.1) (λ host.
        and_then (read_exact 2 (unsupported (text "missing_port")) host.1) (λ port. okay (
          byte_at header.0 1,
          record { host = host.0; port = byte_at port.0 0 * 256 + byte_at port.0 1 },
        ))))
