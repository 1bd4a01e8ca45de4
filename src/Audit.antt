-- ===== src/Audit.antt =====
-- crates/fabric-audit/src/lib.rs: the hash chain of audit events. The code looks at texts only as
-- bytes, so a text is its UTF-8 bytes here. Three functions of other crates are parameters: the
-- print of a scalar by serde_json, and SHA-256 with its print in hex.
pub mod Order
pub mod Chain
pub mod Tamper
mod Tests
use forgewire_fabric.Prelude.{
  ℕ, suc, ◌+◌, Bool, true, false, not, Option, none, some, List, [], ◌∷◌, ◌++◌, map, Text, text,
  text_eq, ltb, ◌==◌, if◌then◌else◌,
}
use forgewire_fabric.Prelude.Json.{
  Scalar, string, Json, scalar, arr, obj, Items, nil, cons, Fields, end, field,
}

abbrev pub Bytes : Type 0
Bytes = List ℕ

pub record Crates (N : Type 0) : Type 0 where
  pub scalar_json : Scalar N → Bytes
  pub hex_sha256 : Bytes → Bytes

abbrev pub separator : ℕ
separator = b'|'

-- The order of `String`: byte by byte.
abbrev pub text_leb : Bytes → Bytes → Bool
text_leb [] t = true
text_leb (c ∷ s) [] = false
text_leb (c ∷ s) (d ∷ t) = if ltb c d then true else if ltb d c then false else text_leb s t

abbrev pub Entry : Type 0
Entry = Bytes × Bytes

-- `entries.sort_by_key(|(k, _)| *k)`, a stable sort.
pub insert_entry : Entry → List Entry → List Entry
insert_entry e [] = e ∷ []
insert_entry e (f ∷ fs) = if text_leb e.0 f.0 then e ∷ f ∷ fs else f ∷ insert_entry e fs

pub sort_entries : List Entry → List Entry
sort_entries [] = []
sort_entries (e ∷ es) = insert_entry e (sort_entries es)

-- The pieces with a comma before each but the first.
abbrev pub joined : List Bytes → Bytes
joined [] = []
joined (p ∷ []) = p
joined (p ∷ q ∷ ps) = p ++ b',' ∷ joined (q ∷ ps)

module _ {N : Type 0} (crates : Crates N) where
  open crates use {scalar_json, hex_sha256}

  write_entry : Entry → Bytes
  write_entry e = scalar_json (string e.0) ++ b':' ∷ e.1

  -- An object's values are written first and the entries sorted afterwards, which gives the same
  -- bytes as writing them in sorted order.
  unfoldable mutual
    unfolding sort_entries write_entry

    pub write_canonical : Json N → Bytes
    write_canonical (scalar s) = scalar_json s
    write_canonical (arr xs) = (b'[' ∷ joined (write_items xs)) ++ b']' ∷ []
    write_canonical (obj fs) =
        (b'{' ∷ joined (map write_entry (sort_entries (write_fields fs)))) ++ b'}' ∷ []

    pub write_items : Items N → List Bytes
    write_items nil = []
    write_items (cons x xs) = write_canonical x ∷ write_items xs

    pub write_fields : Fields N → List Entry
    write_fields end = []
    write_fields (field k v fs) = (k, write_canonical v) ∷ write_fields fs

  pub audit_canonical_json : Json N → Bytes
  audit_canonical_json payload = write_canonical payload

  pub audit_event_hash : Bytes → Bytes → Json N → Bytes
  audit_event_hash prev_hash kind payload =
      hex_sha256 (prev_hash ++ separator ∷ (kind ++ separator ∷ audit_canonical_json payload))

pub record AuditEvent (N : Type 0) : Type 0 where
  pub event_id_hash : Bytes
  pub prev_event_id_hash : Bytes
  pub kind : Bytes
  pub payload : Json N

pub data Verdict : Type 0 where
  ok : Verdict
  chain_break : ℕ → Bytes → Bytes → Verdict
  hash_mismatch : ℕ → Bytes → Bytes → Verdict

module _ {N : Type 0} (crates : Crates N) where
  abbrev breaks : Option Bytes → AuditEvent N → Bool
  breaks none event = false
  breaks (some expected) event = not (text_eq event.prev_event_id_hash expected)

  abbrev expected_of : Option Bytes → Bytes
  expected_of none = []
  expected_of (some expected) = expected

  -- The loop, with the hash before and the index.
  pub verify_from : Option Bytes → ℕ → List (AuditEvent N) → Verdict
  verify_from prev i [] = ok
  verify_from prev i (event ∷ events) =
      let recomputed = audit_event_hash crates event.prev_event_id_hash event.kind event.payload in
      let rest = verify_from (some event.event_id_hash) (i + 1) events in
      if breaks prev event
      then chain_break i (expected_of prev) event.prev_event_id_hash
      else if not (text_eq recomputed event.event_id_hash)
      then hash_mismatch i event.event_id_hash recomputed
      else rest

  pub verify_chain : List (AuditEvent N) → Verdict
  unfolding verify_from
  verify_chain events = verify_from none 0 events
