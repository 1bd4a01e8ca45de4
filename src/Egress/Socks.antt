-- ===== src/Egress/Socks.antt =====
-- crates/fabric-egress/src/lib.rs, the SOCKS5 proxy: one connection of a client from the greeting
-- to the tunnel, and the start of the proxy of a task.
use forgewire_fabric.Prelude.{
  ℕ, not, Option, none, some, List, [], ◌∷◌, ◌++◌, Text, text, ◌==◌, if◌then◌else◌,
}
use mathlib.Core.Option
use forgewire_fabric.Prelude.Results.{Result, err, okay, and_then}
use forgewire_fabric.Prelude.Json.{Json, null, scalar}
use forgewire_fabric.Egress.{Net, EgressPolicy, EgressError, bind, allows, from_value}
use forgewire_fabric.Egress.Wire.{
  Conn, Target, EgressDenial, socks_connect, reply_succeeded, reply_policy_denied,
  reply_host_unreachable, reply_command_unsupported, send_reply, negotiate_no_auth, read_request,
}

module _ {Ip : Type 0} (net : Net Ip) where
  open net use {parse_ip, lookup_host, connect}

  -- The first of the addresses that can be connected to.
  abbrev first_connected : List (Ip × ℕ) → Option (Ip × ℕ)
  first_connected [] = none
  first_connected (address ∷ addresses) =
      if connect address then some address else first_connected addresses

  pub connect_target : Target → Option (Ip × ℕ)
  connect_target target = elim (parse_ip target.host) [
    | some ip ↦ if connect (ip, target.port) then some (ip, target.port) else none
    | none ↦ elim (lookup_host target.host target.port) [
      | none ↦ none
      | some addresses ↦ first_connected addresses
    ]
  ]

  -- What a connection leaves: the client's side, the denials of the task, and the address that a
  -- tunnel was opened to.
  pub record Served : Type 0 where
    pub conn : Conn
    pub denials : List EgressDenial
    pub tunnel : Option (Ip × ℕ)

  abbrev pub denied : Conn → List EgressDenial → EgressDenial → Served
  denied conn denials denial = record {
    conn = conn;
    denials = denials ++ denial ∷ [];
    tunnel = none;
  }

  abbrev pub denial_of : ℕ → Text → Text → Option Target → EgressDenial
  denial_of task_id command reason target = record {
    task_id = task_id;
    protocol = text "socks5";
    command = command;
    reason = reason;
    destination = Option.map (λ t. t.host) target;
    port = Option.map (λ t. t.port) target;
  }

  -- The part behind the check of the policy.
  unfoldable pub open_tunnel : Target → Conn → List EgressDenial → Served
  unfolding connect_target
  open_tunnel target conn denials = elim (connect_target target) [
    | none ↦ record {
      conn = (send_reply net reply_host_unreachable conn).1;
      denials = denials;
      tunnel = none;
    }
    | some address ↦
        let written = send_reply net reply_succeeded conn in
        record {
          conn = written.1;
          denials = denials;
          tunnel = if written.0 then some address else none;
        }
  ]

  unfoldable pub serve_request : ℕ → EgressPolicy → List EgressDenial → Conn → Served
  unfolding read_request open_tunnel
  serve_request task_id policy denials conn = elim (read_request net conn.incoming) [
    | err (reply, reason) ↦
        denied (send_reply net reply conn).1 denials
          (denial_of task_id (text "CONNECT") reason none)
    | okay (command, target) ↦
        if not (command == socks_connect)
        then denied (send_reply net reply_command_unsupported conn).1 denials
            (denial_of task_id (text "UNSUPPORTED") (text "command_not_connect") (some target))
        else if not (allows net policy target.host)
        then denied (send_reply net reply_policy_denied conn).1 denials
            (denial_of task_id (text "CONNECT") (text "host_not_allowed") (some target))
        else open_tunnel target conn denials
  ]

  unfoldable pub serve_connection : ℕ → EgressPolicy → List EgressDenial → Conn → Served
  unfolding negotiate_no_auth serve_request
  serve_connection task_id policy denials conn =
      let negotiated = negotiate_no_auth net conn in
      elim negotiated.0 [
        | err reason ↦
            denied negotiated.1 denials (denial_of task_id (text "NEGOTIATE") reason none)
        | okay done ↦ serve_request task_id policy denials negotiated.1
      ]

  -- A proxy is started with its policy if its socket can be bound.
  pub start : EgressPolicy → Result EgressError EgressPolicy
  start policy = elim net.bind_error [ some error ↦ err (bind error) | none ↦ okay policy ]

  -- No proxy for no policy or `null`, otherwise one with the policy parsed.
  pub start_for_task : Option (Json Text) → Result EgressError (Option EgressPolicy)
  unfolding start
  start_for_task none = okay none
  start_for_task (some (scalar null)) = okay none
  start_for_task (some value) =
      and_then (from_value net value)
        (λ policy. and_then (start policy) (λ proxy. okay (some proxy)))
