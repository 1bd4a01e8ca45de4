-- ===== src/Egress/Proxy.antt =====
-- crates/fabric-egress/src/lib.rs, serve_connection: which connections open a tunnel, and what is
-- recorded and answered of the others.
use forgewire_fabric.Prelude.{
  ℕ, ◌≡◌, ◌⊎◌, refl, ap, ◌∙◌, inl, inr, true, Bool-cases, Option-cases, none, List, [], ◌∷◌, ◌++◌,
  ==_iff, ◌==◌,
}
use forgewire_fabric.Prelude.Results.{Result-cases, okay}
use forgewire_fabric.Egress.{Net, EgressPolicy, allows}
use forgewire_fabric.Egress.Wire.{
  Target, EgressDenial, Conn, socks_connect, negotiate_no_auth, read_request,
}
use forgewire_fabric.Egress.Socks.{
  Served, connect_target, open_tunnel, serve_request, serve_connection,
}

module _ {Ip : Type 0} (net : Net Ip) (task_id : ℕ) (policy : EgressPolicy)
    (denials : List EgressDenial) (conn : Conn) where
  -- The client greets without authentication and asks to connect to an allowed target.
  abbrev pub Asks : Target → Type 0
  Asks target =
      ((negotiate_no_auth net conn).0 ≡ okay tt)
      × (read_request net (negotiate_no_auth net conn).1.incoming ≡ okay (socks_connect, target))
      × (allows net policy target.host ≡ true)

  -- The connection was refused with one denial, of this task, behind those before.
  abbrev pub IsRefused : Served net → Type 0
  IsRefused served =
      (denial : EgressDenial) × (served.denials ≡ denials ++ denial ∷ [])
      × (denial.task_id ≡ task_id)
      × (served.tunnel ≡ none)

  -- What became of a connection: an allowed request with its tunnel, if the connection to the
  -- target and the answer succeeded, or a refusal.
  abbrev pub IsAccounted : Served net → Type 0
  IsAccounted served =
      ((target : Target) × Asks target
        × (served.denials ≡ denials)
        × ((served.tunnel ≡ none) ⊎ (served.tunnel ≡ connect_target net target)))
      ⊎ IsRefused served

  open_tunnel_lem :
      (target : Target) (c : Conn)
      → ((open_tunnel net target c denials).denials ≡ denials)
        × (((open_tunnel net target c denials).tunnel ≡ none)
            ⊎ ((open_tunnel net target c denials).tunnel ≡ connect_target net target))
  unfolding open_tunnel
  open_tunnel_lem target c = elim (Option-cases (connect_target net target)) [
    | inl e ↦ rw (open_tunnel, e) (refl, inl refl)
    | inr (address, e) ↦ elim (Bool-cases (net.write_succeeds c.writes)) [
      | inl w ↦ rw (open_tunnel, e, w) (refl, inr refl)
      | inr w ↦ rw (open_tunnel, e, w) (refl, inl refl)
    ]
  ]

  abbrev Served_by : Conn → Served net
  Served_by c = serve_request net task_id policy denials c

  serve_request_lem :
      (c : Conn)
      → ((target : Target) × (read_request net c.incoming ≡ okay (socks_connect, target))
          × (allows net policy target.host ≡ true)
          × (Served_by c ≡ open_tunnel net target c denials))
        ⊎ IsRefused (Served_by c)
  unfolding serve_request
  serve_request_lem c = elim (Result-cases (read_request net c.incoming)) [
    | inl (refusal, e) ↦ inr (rw (serve_request, e) (_, refl, refl, refl))
    | inr ((command, target), e) ↦ elim (Bool-cases (command == socks_connect)) [
      | inr k ↦ inr (rw (serve_request, e, k) (_, refl, refl, refl))
      | inl k ↦ elim (Bool-cases (allows net policy target.host)) [
        | inr a ↦ inr (rw (serve_request, e, k, a) (_, refl, refl, refl))
        | inl a ↦ inl (
          target,
          e ∙ ap (λ n. okay (n, target)) ((==_iff command socks_connect).0 k),
          a,
          rw (serve_request, e, k, a) refl,
        )
      ]
    ]
  ]

  opened :
      (target : Target) (c : Conn)
      → Served_by c ≡ open_tunnel net target c denials
      → ((Served_by c).denials ≡ denials)
        × (((Served_by c).tunnel ≡ none) ⊎ ((Served_by c).tunnel ≡ connect_target net target))
  opened target c s =
      let (kept, tunnel) = open_tunnel_lem target c in
      (
        ap (λ v. v.denials) s ∙ kept,
        elim tunnel [
          | inl t ↦ inl (ap (λ v. v.tunnel) s ∙ t)
          | inr t ↦ inr (ap (λ v. v.tunnel) s ∙ t)
        ],
      )

  -- Either the client of a connection asked to CONNECT to a target that the
  -- policy allows, no denial is recorded, and a tunnel, if one is opened, goes to what
  -- `connect_target` gives for that target; or no tunnel is opened and exactly one denial, of this
  -- task, is recorded behind the ones before.
  pub serve_connection-IsAccounted : IsAccounted (serve_connection net task_id policy denials conn)
  unfolding serve_connection
  serve_connection-IsAccounted = elim (Result-cases (negotiate_no_auth net conn).0) [
    | inl (reason, e) ↦ inr (rw (serve_connection, e) (_, refl, refl, refl))
    | inr (done, e) ↦
        rw (serve_connection, e)
          (elim (serve_request_lem (negotiate_no_auth net conn).1) [
            | inl (target, r, a, s) ↦
                let o = opened target (negotiate_no_auth net conn).1 s in
                inl (target, (refl, r, a), o.0, o.1)
            | inr refused ↦ inr refused
          ])
  ]
