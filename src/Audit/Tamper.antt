-- ===== src/Audit/Tamper.antt =====
-- Two chains that end in the same hash are the same, unless SHA-256 collides.
use forgewire_fabric.Prelude.{
  ℕ, ◌≡◌, refl, sym, ◌∙◌, Bool, none, some, List, [], ◌∷◌, ◌++◌, arith, Without, All, length, ◌==◌,
}
use forgewire_fabric.Audit.{
  Bytes, Crates, separator, AuditEvent, audit_canonical_json, audit_event_hash, verify_chain, ok,
}
use forgewire_fabric.Audit.Chain.{IsHashed, IsChain, last_hash, verify_chain_iff}

abbrev pub is_separator : ℕ → Bool
is_separator c = c == separator

-- What stands before the first separator, and what behind it, is determined.
cut_first :
    (a b x y : Bytes)
    → Without is_separator a
    → Without is_separator b
    → a ++ separator ∷ x ≡ b ++ separator ∷ y
    → (a ≡ b) × (x ≡ y)
cut_first [] [] x y h k e = (refl, cc)
cut_first [] (d ∷ b) x y h k e = absurd (ground arith)
cut_first (c ∷ a) [] x y h k e = absurd (ground arith)
cut_first (c ∷ a) (d ∷ b) x y h k e =
    let ih = cut_first a b x y h.1 k.1 (cc e) in let head : c ≡ d = cc e in (cc (head, ih.0), ih.1)

module _ {N : Type 0} (crates : Crates N) where
  -- Two events with equal fields, the payloads as far as their canonical JSON goes.
  pub record SameEvent (e f : AuditEvent N) : Type 0 where
    pub event_id_hash : e.event_id_hash ≡ f.event_id_hash
    pub prev_event_id_hash : e.prev_event_id_hash ≡ f.prev_event_id_hash
    pub kind : e.kind ≡ f.kind
    pub payload : audit_canonical_json crates e.payload ≡ audit_canonical_json crates f.payload

  abbrev pub SameEvents : List (AuditEvent N) → List (AuditEvent N) → Type 0
  SameEvents [] [] = Unit
  SameEvents (e ∷ es) (f ∷ fs) = SameEvent e f × SameEvents es fs
  SameEvents [] (f ∷ fs) = ⊥
  SameEvents (e ∷ es) [] = ⊥

  -- Neither the kind nor the hash before holds the separator.
  abbrev pub IsPlain : AuditEvent N → Type 0
  IsPlain e = Without is_separator e.prev_event_id_hash × Without is_separator e.kind

  module _ (injective : (x y : Bytes) → crates.hex_sha256 x ≡ crates.hex_sha256 y → x ≡ y) where
    same_hash :
        (e f : AuditEvent N)
        → IsPlain e
        → IsPlain f
        → audit_event_hash crates e.prev_event_id_hash e.kind e.payload
          ≡ audit_event_hash crates f.prev_event_id_hash f.kind f.payload
        → (e.prev_event_id_hash ≡ f.prev_event_id_hash)
          × (e.kind ≡ f.kind)
          × (audit_canonical_json crates e.payload ≡ audit_canonical_json crates f.payload)
    unfolding audit_event_hash
    same_hash e f p q h =
        let outer =
          cut_first e.prev_event_id_hash f.prev_event_id_hash _ _ p.0 q.0 (injective _ _ h) in
        let inner = cut_first e.kind f.kind _ _ p.1 q.1 outer.1 in (outer.0, inner.0, inner.1)

    same_event :
        (e f : AuditEvent N)
        → IsPlain e
        → IsPlain f
        → IsHashed crates e
        → IsHashed crates f
        → e.event_id_hash ≡ f.event_id_hash
        → SameEvent e f
    same_event e f p q he hf h =
        let parts = same_hash e f p q (he ∙ h ∙ sym hf) in
        record {
          event_id_hash = h;
          prev_event_id_hash = parts.0;
          kind = parts.1;
          payload = parts.2;
        }

    -- Going back from the last hash, the hashes before two linked chains agree, and so do the events.
    linked :
        (h h' : Bytes) (es fs : List (AuditEvent N))
        → length es ≡ length fs
        → All IsPlain es
        → All IsPlain fs
        → IsChain crates (some h) es
        → IsChain crates (some h') fs
        → last_hash crates (some h) es ≡ last_hash crates (some h') fs
        → (h ≡ h') × SameEvents es fs
    linked h h' [] [] n p q c d last = (cc, tt)
    linked h h' [] (f ∷ fs) n p q c d last = absurd (omega arith)
    linked h h' (e ∷ es) [] n p q c d last = absurd (omega arith)
    linked h h' (e ∷ es) (f ∷ fs) n p q c d last =
        let later =
          linked e.event_id_hash f.event_id_hash es fs (omega arith) p.1 q.1 c.2 d.2 last in
        let here = same_event e f p.0 q.0 c.1 d.1 later.0 in
        (sym c.0 ∙ here.prev_event_id_hash ∙ d.0, (here, later.1))

    chains_agree :
        (es fs : List (AuditEvent N))
        → length es ≡ length fs
        → All IsPlain es
        → All IsPlain fs
        → IsChain crates none es
        → IsChain crates none fs
        → last_hash crates none es ≡ last_hash crates none fs
        → SameEvents es fs
    chains_agree [] [] n p q c d last = tt
    chains_agree [] (f ∷ fs) n p q c d last = absurd (omega arith)
    chains_agree (e ∷ es) [] n p q c d last = absurd (omega arith)
    chains_agree (e ∷ es) (f ∷ fs) n p q c d last =
        let later =
          linked e.event_id_hash f.event_id_hash es fs (omega arith) p.1 q.1 c.2 d.2 last in
        (same_event e f p.0 q.0 c.1 d.1 later.0, later.1)

    -- If SHA-256 does not collide, the last hash of an accepted chain fixes its whole history: two
    -- accepted chains of one length that end in the same hash have the same hashes, kinds and
    -- canonical payloads throughout, provided no kind and no hash before holds the separator.
    pub verify_chain_tamper_evident :
        (es fs : List (AuditEvent N))
        → verify_chain crates es ≡ ok
        → verify_chain crates fs ≡ ok
        → length es ≡ length fs
        → All IsPlain es
        → All IsPlain fs
        → last_hash crates none es ≡ last_hash crates none fs
        → SameEvents es fs
    verify_chain_tamper_evident es fs he hf n p q last =
        chains_agree es fs n p q ((verify_chain_iff crates es).0 he)
          ((verify_chain_iff crates fs).0 hf) last
