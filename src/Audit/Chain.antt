-- ===== src/Audit/Chain.antt =====
-- What the verification of a chain accepts, and what it reports.
use mathlib.Core.Path.{subst}
use forgewire_fabric.Prelude.{
  ℕ, suc, ◌+◌, ◌≡◌, ◌≢◌, refl, ◌↔◌, inl, inr, true, false, Option, none, some, List, [], ◌∷◌, arith,
  get_elem?, take, text_eq, text_eq_iff, text_eq_sound, text_eq_self, Bool-cases,
}
use forgewire_fabric.Audit.{
  Bytes, Crates, AuditEvent, Verdict, ok, chain_break, hash_mismatch, audit_event_hash, breaks,
  expected_of, verify_from, verify_chain,
}

module _ {N : Type 0} (crates : Crates N) where
  -- The stored hash of an event is the hash of its own fields.
  abbrev pub IsHashed : AuditEvent N → Type 0
  IsHashed e = audit_event_hash crates e.prev_event_id_hash e.kind e.payload ≡ e.event_id_hash

  -- Where a hash is known to come before, an event follows it.
  abbrev pub Follows : Option Bytes → AuditEvent N → Type 0
  Follows none e = Unit
  Follows (some h) e = e.prev_event_id_hash ≡ h

  abbrev pub IsChain : Option Bytes → List (AuditEvent N) → Type 0
  IsChain prev [] = Unit
  IsChain prev (e ∷ es) = Follows prev e × IsHashed e × IsChain (some e.event_id_hash) es

  -- The hash before the events that come next.
  abbrev pub last_hash : Option Bytes → List (AuditEvent N) → Option Bytes
  last_hash prev [] = prev
  last_hash prev (e ∷ es) = last_hash (some e.event_id_hash) es

  -- What a verdict says of events numbered from `base`: all is well, or the first event at fault and
  -- what is wrong with it.
  abbrev pub Says : ℕ → Option Bytes → List (AuditEvent N) → Verdict → Type 0
  Says base prev es ok = IsChain prev es
  Says base prev es (chain_break at expected found) =
      (i : ℕ) × (e : AuditEvent N) × (at ≡ base + i)
      × (get_elem? es i ≡ some e)
      × IsChain prev (take i es)
      × (last_hash prev (take i es) ≡ some expected)
      × (e.prev_event_id_hash ≡ found)
      × (found ≢ expected)
  Says base prev es (hash_mismatch at stored recomputed) =
      (i : ℕ) × (e : AuditEvent N) × (at ≡ base + i)
      × (get_elem? es i ≡ some e)
      × IsChain prev (take i es)
      × Follows (last_hash prev (take i es)) e
      × (e.event_id_hash ≡ stored)
      × (audit_event_hash crates e.prev_event_id_hash e.kind e.payload ≡ recomputed)
      × (recomputed ≢ stored)

  Follows-iff :
      (prev : Option Bytes) (e : AuditEvent N) → (breaks crates prev e ≡ false) ↔ Follows prev e
  Follows-iff none e = (λ h. tt, λ h. refl)
  Follows-iff (some expected) e = (
    λ h. text_eq_sound e.prev_event_id_hash expected (ground arith),
    λ h. rw (h, text_eq_self expected),
  )

  Says-later :
      (base : ℕ) (prev : Option Bytes) (e : AuditEvent N) (es : List (AuditEvent N)) (v : Verdict)
      → Follows prev e
      → IsHashed e
      → Says (base + 1) (some e.event_id_hash) es v
      → Says base prev (e ∷ es) v
  Says-later base prev e es ok f h s = (f, h, s)
  Says-later base prev e es (chain_break at x y) f h (i, d, n, found, chain, last, eq, ne) =
      (suc i, d, omega arith, found, (f, h, chain), last, eq, ne)
  Says-later base prev e es (hash_mismatch at x y) f h (i, d, n, found, chain, fol, eq, re, ne) =
      (suc i, d, omega arith, found, (f, h, chain), fol, eq, re, ne)

  Says-break :
      (base : ℕ) (prev : Option Bytes) (e : AuditEvent N) (es : List (AuditEvent N))
      → breaks crates prev e ≡ true
      → Says base prev (e ∷ es) (chain_break base (expected_of crates prev) e.prev_event_id_hash)
  Says-break base none e es h = cc
  Says-break base (some x) e es h = (
    0,
    e,
    omega arith,
    refl,
    tt,
    refl,
    refl,
    λ same. cc (h, (text_eq_iff e.prev_event_id_hash x).1 same),
  )

  verify_from-Says :
      (base : ℕ) (prev : Option Bytes) (es : List (AuditEvent N))
      → Says base prev es (verify_from crates prev base es)
  unfolding verify_from
  verify_from-Says base prev [] = tt
  verify_from-Says base prev (e ∷ es) =
      let recomputed = audit_event_hash crates e.prev_event_id_hash e.kind e.payload in
      elim (Bool-cases (breaks crates prev e)) [
        | inl broken ↦ rw broken (Says-break base prev e es broken)
        | inr fits ↦ elim (Bool-cases (text_eq recomputed e.event_id_hash)) [
          | inl hashed ↦
              rw (fits, hashed)
                (Says-later base prev e es _ ((Follows-iff prev e).0 fits)
                  (text_eq_sound recomputed e.event_id_hash hashed)
                  (verify_from-Says (base + 1) (some e.event_id_hash) es))
          | inr differs ↦
              rw (fits, differs)
                (
                  0,
                  e,
                  omega arith,
                  refl,
                  tt,
                  (Follows-iff prev e).0 fits,
                  refl,
                  refl,
                  λ same. cc (differs, (text_eq_iff recomputed e.event_id_hash).1 same),
                )
        ]
      ]

  -- `verify_chain` accepts only chains in which every stored hash is that of its event and every event
  -- after the first names the hash before it; otherwise it reports the first event at fault,
  -- with the two hashes that differ.
  pub verify_chain-Says :
      (events : List (AuditEvent N)) → Says 0 none events (verify_chain crates events)
  unfolding verify_chain
  verify_chain-Says events = verify_from-Says 0 none events

  chain_accepted :
      (base : ℕ) (prev : Option Bytes) (es : List (AuditEvent N))
      → IsChain prev es
      → verify_from crates prev base es ≡ ok
  unfolding verify_from
  chain_accepted base prev [] h = refl
  chain_accepted base prev (e ∷ es) (f, h, rest) =
      let fits = (Follows-iff prev e).1 f in
      let hashed =
        (text_eq_iff (audit_event_hash crates e.prev_event_id_hash e.kind e.payload)
            e.event_id_hash).1
          h in
      rw (fits, hashed) (chain_accepted (base + 1) (some e.event_id_hash) es rest)

  -- A sequence of events is accepted exactly if it is a chain.
  pub verify_chain_iff :
      (events : List (AuditEvent N)) → (verify_chain crates events ≡ ok) ↔ IsChain none events
  unfolding verify_chain
  verify_chain_iff events = (
    λ h. subst (Says 0 none events) h (verify_from-Says 0 none events),
    chain_accepted 0 none events,
  )
