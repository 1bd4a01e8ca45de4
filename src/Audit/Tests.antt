-- ===== src/Audit/Tests.antt =====
-- Runs of the audit chain, with a stand-in for SHA-256 that shifts every byte and so never collides.
use forgewire_fabric.Prelude.{
  ◌+◌, ◌≡◌, ◌≢◌, refl, true, false, none, List, [], ◌∷◌, ◌++◌, map, arith, Text, text, All,
  run_Without, text_eq_iff,
}
use forgewire_fabric.Prelude.Json.{
  Scalar, null, bool, number, string, Json, scalar, arr, obj, nil, cons, end, field,
}
use forgewire_fabric.Audit.{
  Bytes, Crates, AuditEvent, ok, audit_canonical_json, insert_entry, write_canonical,
  audit_event_hash, verify_chain,
}
use forgewire_fabric.Audit.Chain.{Says, verify_chain-Says, verify_chain_iff}
use forgewire_fabric.Audit.Tamper.{is_separator, IsPlain, SameEvents, verify_chain_tamper_evident}

abbrev print : Scalar Text → Bytes
print null = text "null"
print (bool true) = text "true"
print (bool false) = text "false"
print (number n) = n
print (string s) = (b'"' ∷ s) ++ b'"' ∷ []

abbrev shift : Bytes → Bytes
shift = map (λ c. c + 125)

abbrev crates : Crates Text
crates = record { scalar_json = print; hex_sha256 = shift }

shift-injective : (x y : Bytes) → shift x ≡ shift y → x ≡ y
shift-injective [] [] h = refl
shift-injective [] (d ∷ y) h = cc
shift-injective (c ∷ x) [] h = cc
shift-injective (c ∷ x) (d ∷ y) h = ground (arith, shift-injective x y)

abbrev one : Json Text
one = scalar (number (text "1"))

payload_sorted :
    audit_canonical_json crates
      (obj (field (text "z") one (field (text "a") (arr (cons one (cons one nil))) end)))
    ≡ text "{\"a\":[1,1],\"z\":1}"
unfolding audit_canonical_json write_canonical insert_entry
payload_sorted = refl

abbrev genesis : Bytes
genesis = text "00"

first : AuditEvent Text
unfolding audit_event_hash
first = record {
  event_id_hash = audit_event_hash crates genesis (text "dispatch") one;
  prev_event_id_hash = genesis;
  kind = text "dispatch";
  payload = one;
}

abbrev events : List (AuditEvent Text)
events = first ∷ []

first_hashed : verify_chain crates events ≡ ok
first_hashed = (verify_chain_iff crates events).1 (unfold first in (tt, refl, tt))

z_not_a : text "z" ≢ text "a"
z_not_a e = cc ((text_eq_iff (text "z") (text "a")).1 e)

verify_chain-Says_example : Says crates 0 none events (verify_chain crates events)
verify_chain-Says_example = verify_chain-Says crates events

plain : All (IsPlain crates) events
unfolding first
plain =
    ((run_Without is_separator genesis refl, run_Without is_separator (text "dispatch") refl), tt)

verify_chain_tamper_evident_example : SameEvents crates events events
verify_chain_tamper_evident_example =
    verify_chain_tamper_evident crates shift-injective events events first_hashed first_hashed refl
      plain plain refl
