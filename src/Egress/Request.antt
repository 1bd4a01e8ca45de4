-- ===== src/Egress/Request.antt =====
-- crates/fabric-egress/src/lib.rs, the messages of a client that asks for a host by name.
use forgewire_fabric.Prelude.{
  ℕ, ◌+◌, ◌*◌, ◌≡◌, ◌≢◌, refl, inl, inr, true, false, Bool-cases, Option-cases, not, none, some,
  List, [], ◌∷◌, ◌++◌, arith, Text, length, ◌==◌, if◌then◌else◌,
}
use forgewire_fabric.Prelude.Utf8.{from_utf8}
use forgewire_fabric.Prelude.Results.{okay}
use forgewire_fabric.Egress.{Net, EgressPolicy, allows, is_some}
use forgewire_fabric.Egress.Wire.{
  Bytes, Target, EgressDenial, Conn, socks_connect, reply_succeeded, reply_policy_denied,
  reply_host_unreachable, take_exact, read_greeting, negotiate_no_auth, read_domain, read_address,
  read_request,
}
use forgewire_fabric.Egress.Socks.{connect_target, open_tunnel, serve_request, serve_connection}

take_exact-append : (s t : Bytes) → take_exact (length s) (s ++ t) ≡ some (s, t)
take_exact-append [] t = refl
take_exact-append (b ∷ s) t = rw (take_exact-append s t) refl

module _ {Ip : Type 0} (net : Net Ip) (name : Bytes) (domain : Text) (high low : ℕ) where
  abbrev pub target : Target
  target = record { host = domain; port = high * 256 + low }

  abbrev pub request : Bytes
  request = 5 ∷ 1 ∷ 0 ∷ 3 ∷ length name ∷ (name ++ high ∷ low ∷ [])

  -- The request of RFC 1928 for a name and a port is read as that target.
  pub read_request_domain :
      name ≢ []
      → from_utf8 name ≡ some domain
      → read_request net request ≡ okay (socks_connect, target)
  unfolding read_request read_address read_domain
  read_request_domain nonempty decoded =
      rw (nonzero name nonempty, take_exact-append name (high ∷ low ∷ []), decoded) refl
    where
      nonzero : (s : Bytes) → s ≢ [] → (length s == 0) ≡ false
      nonzero [] h = absurd (h refl)
      nonzero (b ∷ s) h = ground arith

  -- The client greets with the one method of no authentication, then sends the request.
  abbrev pub client : Conn
  client = record { incoming = 5 ∷ 1 ∷ 0 ∷ request; sent = []; writes = 0 }

  abbrev pub answer : EgressPolicy → ℕ
  answer policy =
      if not (allows net policy domain)
      then reply_policy_denied
      else if is_some (connect_target net target)
      then reply_succeeded
      else reply_host_unreachable

  -- A client that greets without authentication and asks for a name, which is not empty and decodes
  -- as UTF-8, gets a tunnel to it exactly if the policy allows the name and a connection can be
  -- made, and the two answers of the protocol say which, if every write to the client succeeds.
  pub serve_connection_domain :
      (task_id : ℕ) (policy : EgressPolicy) (denials : List EgressDenial)
      → name ≢ []
      → from_utf8 name ≡ some domain
      → ((n : ℕ) → net.write_succeeds n ≡ true)
      → ((serve_connection net task_id policy denials client).tunnel
          ≡ (if allows net policy domain then connect_target net target else none))
        × ((serve_connection net task_id policy denials client).conn.sent
            ≡ (5 ∷ 0 ∷ []) ∷ (5 ∷ answer policy ∷ 0 ∷ 1 ∷ 0 ∷ 0 ∷ 0 ∷ 0 ∷ 0 ∷ 0 ∷ []) ∷ [])
  unfolding serve_connection negotiate_no_auth read_greeting serve_request open_tunnel
  serve_connection_domain task_id policy denials nonempty decoded writes =
      elim (Bool-cases (allows net policy domain)) [
        | inr a ↦
            rw
              (
                serve_connection,
                serve_request,
                writes 0,
                read_request_domain nonempty decoded,
                a,
                writes 1,
              )
              (refl, rw (writes 0) refl)
        | inl a ↦ elim (Option-cases (connect_target net target)) [
          | inl c ↦
              rw
                (
                  serve_connection,
                  serve_request,
                  open_tunnel,
                  writes 0,
                  read_request_domain nonempty decoded,
                  a,
                  c,
                  writes 1,
                )
                (refl, rw (writes 0) refl)
          | inr (address, c) ↦
              rw
                (
                  serve_connection,
                  serve_request,
                  open_tunnel,
                  writes 0,
                  read_request_domain nonempty decoded,
                  a,
                  c,
                  writes 1,
                )
                (refl, rw (writes 0) refl)
        ]
      ]
