-- ===== src/Hub/Signed/Verified.antt =====
-- crates/fabric-hub/src/utils.rs: what a signature that passes was checked for.
use forgewire_fabric.Prelude.{
  ◌≡◌, refl, ap, Bool, true, false, Option, none, some, Text, length, ◌==◌, if◌then◌else◌,
}
use forgewire_fabric.Prelude.Results.{Result, err, okay, and_then-okay, ok_or, okay-injective}
use forgewire_fabric.Prelude.Json.{Json}
use forgewire_fabric.Protocol.{
  Bytes, Crates, ProtocolError, public_key, write_canonical, decoded, fixed_key, decode_public_key,
  verify_signature_hex, verify_envelope_hex,
}
use forgewire_fabric.Hub.Signed.{verdict, verify_sig}

module _ {N E K : Type 0} (crates : Crates N E K) (print_hex : E → Text) where
  open crates use {decode, key_from_bytes, verify}

  -- The key and the signature are hex, and the library verifies the signature, under the key, over the
  -- canonical bytes of the envelope.
  pub record IsSigned (key : Text) (envelope : Json N) (signature : Text) : Type 0 where
    raw_key : Bytes
    parsed_key : K
    raw_signature : Bytes
    is_hex_key : decode key ≡ okay raw_key
    is_key : key_from_bytes raw_key ≡ some parsed_key
    is_hex_signature : decode signature ≡ okay raw_signature
    is_verified : verify parsed_key (write_canonical crates envelope) raw_signature ≡ true

  -- A test that guards a result against an error has held.
  if_okay {ℓ} :
      {A : Type ℓ} (t : Bool) (x : Result (ProtocolError E) A) (e : ProtocolError E) (a : A)
      → (if t then x else err e) ≡ okay a
      → x ≡ okay a
  if_okay true x e a h = h
  if_okay false x e a h = cc

  passed :
      (r : Result (ProtocolError E) Bool) → verdict crates print_hex r ≡ okay tt → r ≡ okay true
  passed (okay true) h = refl
  passed (okay false) h = cc
  passed (err e) h = cc

  hex_read : (r : Result E Bytes) (b : Bytes) → decoded crates r ≡ okay b → r ≡ okay b
  hex_read (err e) b h = cc
  hex_read (okay c) b h = ap okay (okay-injective c b h)

  key_read :
      (s : Text) (r : Result E Bytes) (b : Bytes) → fixed_key crates s r ≡ okay b → r ≡ okay b
  key_read s (err e) b h = cc
  key_read s (okay c) b h = ap okay (okay-injective c b (if_okay (length c == 32) _ _ b h))

  found : (o : Option K) (k : K) → ok_or {E = ProtocolError E} public_key o ≡ okay k → o ≡ some k
  found none k h = cc
  found (some j) k h = ap some (okay-injective j k h)

  pub verify_sig-IsSigned :
      (key signature : Text) (envelope : Json N)
      → verify_sig crates print_hex key envelope signature ≡ okay tt
      → IsSigned key envelope signature
  unfolding verify_sig verify_envelope_hex verify_signature_hex
  verify_sig-IsSigned key signature envelope h =
      let (pk, k, h1) = and_then-okay (decode_public_key crates key) _ true (passed _ h) in
      let (sig, s, h2) = and_then-okay (decoded crates (decode signature)) _ true h1 in
      let (parsed, f, h3) =
        and_then-okay (ok_or public_key (key_from_bytes pk)) _ true
          (if_okay (length sig == 64) _ _ true h2) in
      record {
        raw_key = pk;
        parsed_key = parsed;
        raw_signature = sig;
        is_hex_key = key_read key (decode key) pk k;
        is_key = found (key_from_bytes pk) parsed f;
        is_hex_signature = hex_read (decode signature) sig s;
        is_verified = okay-injective _ true h3;
      }
