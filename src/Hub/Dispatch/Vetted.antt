-- ===== src/Hub/Dispatch/Vetted.antt =====
-- crates/fabric-hub/src/routes/tasks.rs: what a signed dispatch that passes was checked for.
use mathlib.Core.Path.{subst}
use forgewire_fabric.Prelude.{
  All, ◌≡◌, refl, sym, ap, ◌∙◌, ◌⊎◌, inl, inr, Bool, true, false, not, ◌&&◌, ◌||◌, Option, none,
  some, List, [], Text, text, text_eq, text_eq_iff, Bool-cases, is_empty, arith,
}
use forgewire_fabric.Prelude.Int.{pos}
use forgewire_fabric.Prelude.Results.{
  map_err, map_err-okay, Result, err, okay, and_then-okay, okay-injective,
}
use forgewire_fabric.Prelude.Json.{Json}
use forgewire_fabric.Policy.{BudgetPolicy, PolicyDecision, DispatchRequest}
use forgewire_fabric.Policy.Engine.Dispatch.{Permits}
use forgewire_fabric.Policy.Budget.{is_some}
use forgewire_fabric.Policy.Gate.{DispatchGate, gate_dispatch}
use forgewire_fabric.Policy.Gate.Decisions.{gate_dispatch_allowed_iff, gate-IsDecision, IsDecision}
use forgewire_fabric.Hub.Store.{
  StoreError, not_found, conflict, permission_denied, schema, backend, DispatcherRow,
}
use forgewire_fabric.Prelude.Json.{object}
use forgewire_fabric.Protocol.{write_canonical}
use forgewire_fabric.Hub.Signed.Verified.{IsSigned, verify_sig-IsSigned}
use forgewire_fabric.Hub.Dispatch.Signing.{
  HasField, signed_parts, SignsCommand, envelope_parts, envelope-SignsCommand,
}
use forgewire_fabric.Hub.Signed.{check_skew, verify_sig}
use forgewire_fabric.Hub.Dispatch.{
  SignedDispatchPayload, DispatchCalls, DispatchLibraries, object_of, string_fields, is_command,
  has_signed_command, dispatch_envelope,
}
use forgewire_fabric.Hub.Dispatch.Checks.{
  Halt, fails, demand, dispatcher_of, digest_matches, checked,
}

module _ {W N E K : Type 0} (libraries : DispatchLibraries N E K)
    (calls : DispatchCalls W N libraries.float.F) (gate : DispatchGate libraries.float.F)
    (caps : BudgetPolicy libraries.float.F) (attribution : Json N)
    (p : SignedDispatchPayload N libraries.float.F) where
  open libraries use {crates, print_hex, hex_sha256}
  open calls use {unix_secs, get_dispatcher}

  -- SHA-256 over the canonical bytes of the environment's members that are strings.
  abbrev pub digest_of_env : Text
  digest_of_env =
      hex_sha256 (write_canonical crates (object (string_fields (object_of p.base.env))))

  -- The dispatcher signed an envelope with all parts of the request, in time; of a command also its
  -- argv, its directory, and the names and the digest of its environment.
  pub record IsVetted (w : W) (dispatcher : DispatcherRow N) : Type 0 where
    in_time : check_skew p.timestamp (unix_secs w) ≡ okay tt
    is_kind : (p.base.kind ≡ text "agent") ⊎ (p.base.kind ≡ text "command")
    is_dispatcher : get_dispatcher p.dispatcher_id w ≡ okay dispatcher
    envelope : Json N
    is_signed : IsSigned crates print_hex dispatcher.public_key envelope p.signature
    is_covered : All (HasField libraries p envelope) (signed_parts libraries p)
    is_whole :
        p.base.kind ≡ text "command"
        → (argv : List Text) × (p.base.command ≡ some argv)
          × (p.base.loom_env_digest ≡ some digest_of_env)
          × SignsCommand libraries p envelope argv digest_of_env

  demanded : (b : Bool) (halt : Halt N) → demand b halt ≡ okay tt → b ≡ true
  demanded true halt h = refl
  demanded false halt h = cc

  read :
      (r : Result StoreError (DispatcherRow N)) (d : DispatcherRow N)
      → dispatcher_of r ≡ okay d
      → r ≡ okay d
  read (okay r) d h = ap okay (okay-injective r d h)
  read (err (not_found e)) d h = cc
  read (err (conflict e)) d h = cc
  read (err (permission_denied e)) d h = cc
  read (err (schema e)) d h = cc
  read (err (backend e)) d h = cc

  both :
      (c : Bool) {o : Option (List Text)} {g : Option Text} (argv : List Text) (d : Text)
      → c ≡ true
      → o ≡ some argv
      → g ≡ some d
      → (c && is_some o && is_some g) ≡ true
  both c argv d k i j = rw (k, i, j) refl

  -- A command is whole: its argv and its digest are there, and the digest matches.
  parts :
      (c : Bool) (o : Option (List Text)) (g : Option Text) (matches : Option Text → Bool)
      → c ≡ true
      → not (c && not (c && is_some o && is_some g)) ≡ true
      → (not (c && is_some o && is_some g) || matches g) ≡ true
      → (argv : List Text) × (o ≡ some argv) × (d : Text) × (g ≡ some d) × (matches (some d) ≡ true)
  parts false o g matches k a b = cc
  parts true none g matches k a b = cc
  parts true (some argv) none matches k a b = cc
  parts true (some argv) (some d) matches k a b = (argv, refl, d, refl, b)

  kinds :
      (kind : Text)
      → (text_eq kind (text "agent") || text_eq kind (text "command")) ≡ true
      → (kind ≡ text "agent") ⊎ (kind ≡ text "command")
  kinds kind h = elim (Bool-cases (text_eq kind (text "agent"))) [
    | inl agent ↦ inl ((text_eq_iff kind (text "agent")).0 agent)
    | inr other ↦ inr ((text_eq_iff kind (text "command")).0 (ground arith))
  ]

  pub checked-IsVetted :
      (w : W) (dispatcher : DispatcherRow N)
      → checked libraries calls gate caps attribution p w ≡ okay dispatcher
      → IsVetted w dispatcher
  unfolding checked
  checked-IsVetted w dispatcher h =
      let (u, t, h1) =
        and_then-okay (map_err (fails 422) (check_skew p.timestamp (unix_secs w))) _ dispatcher h in
      let (x, e, h2) = and_then-okay (demand (not (is_empty p.base.kind)) _) _ dispatcher h1 in
      let (y, k, h3) =
        and_then-okay
          (demand (text_eq p.base.kind (text "agent") || text_eq p.base.kind (text "command")) _) _
          dispatcher h2 in
      let (d, g, h4) =
        and_then-okay (dispatcher_of (get_dispatcher p.dispatcher_id w)) _ dispatcher h3 in
      let (v, s, h5) =
        and_then-okay
          (map_err (fails 403)
            (verify_sig crates print_hex d.public_key (dispatch_envelope libraries p) p.signature))
          _ dispatcher h4 in
      let (a, q, h6) =
        and_then-okay
          (demand (not (is_command libraries p && not (has_signed_command libraries p))) _) _
          dispatcher h5 in
      let (b, m, h7) =
        and_then-okay
          (demand
            (not (has_signed_command libraries p)
              || digest_matches libraries calls gate caps attribution p p.base.loom_env_digest)
            _)
          _ dispatcher h6 in
      subst (IsVetted w) (okay-injective d dispatcher h7) (record {
        in_time = map_err-okay (fails 422) _ tt t;
        is_kind = kinds p.base.kind (demanded _ _ k);
        is_dispatcher = read _ d g;
        envelope = dispatch_envelope libraries p;
        is_signed =
            verify_sig-IsSigned crates print_hex d.public_key p.signature _
              (map_err-okay (fails 403) _ tt s);
        is_covered = envelope_parts libraries p;
        is_whole = λ c.
            let (argv, is, digest, here, same) =
              parts (is_command libraries p) p.base.command p.base.loom_env_digest
                (digest_matches libraries calls gate caps attribution p)
                ((text_eq_iff p.base.kind (text "command")).1 c) (demanded _ _ q)
                (demanded _ _ m) in
            let digest_is = here ∙ ap some (sym ((text_eq_iff _ digest).0 same)) in
            (
              argv,
              is,
              digest_is,
              envelope-SignsCommand libraries p argv digest_of_env
                  (both (is_command libraries p) argv digest_of_env
                    ((text_eq_iff p.base.kind (text "command")).1 c) is digest_is)
                  is digest_is,
            );
      })

  -- What the gate neither denies nor holds, the policy permits.
  pub passes-Permits :
      (req : DispatchRequest)
      → (gate_dispatch gate req).denied ≡ false
      → (gate_dispatch gate req).needs_approval ≡ false
      → Permits gate.engine req
  passes-Permits req d n =
      ((gate_dispatch_allowed_iff gate req).0.0 (
        allows (gate_dispatch gate req)
          (gate-IsDecision gate req
            (record { task_id = []; changed_paths = []; diff_lines = pos 0 }) []).0
          d n)).1
    where
      allows :
          (x : PolicyDecision)
          → IsDecision x
          → x.denied ≡ false
          → x.needs_approval ≡ false
          → x.allowed ≡ true
      allows x (inl e) d n = rw e refl
      allows x (inr (r, inl e)) d n = cc (ap (λ (x : PolicyDecision). x.denied) e)
      allows x (inr (r, inr e)) d n = cc (ap (λ (x : PolicyDecision). x.needs_approval) e)
