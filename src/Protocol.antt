-- ===== src/Protocol.antt =====
-- crates/fabric-protocol/src/lib.rs: the canonical bytes of an envelope, and the signatures over them
-- in hex. Parameters are the print of a number by serde_json, which does not fail on a vector, the
-- hex codec, and Ed25519.
pub mod Reading
pub mod Strings
pub mod Printable
mod Tests
use forgewire_fabric.Prelude.{
  ℕ, ◌+◌, ◌-◌, ◌*◌, ◌/◌, ◌%◌, Bool, true, false, not, ◌&&◌, Option, none, some, List, [], ◌∷◌, ◌++◌,
  map, Text, text, byte_len, length, ltb, leb, ◌==◌, if◌then◌else◌,
}
use forgewire_fabric.Prelude.Results.{Result, err, okay, and_then, ok_or}
use forgewire_fabric.Prelude.Json.{
  Scalar, null, bool, number, string, Json, scalar, arr, obj, Items, nil, cons, Fields, end, field,
  text_ltb,
}

abbrev pub Bytes : Type 0
Bytes = List ℕ

abbrev pub nibble : ℕ → ℕ
nibble n = if ltb n 10 then b'0' + n else b'a' + (n - 10)

-- The four hex digits of a code unit.
abbrev pub nibbles : ℕ → Bytes
nibbles cp =
    nibble (cp / 4096 % 16) ∷ nibble (cp / 256 % 16) ∷ nibble (cp / 16 % 16) ∷ nibble (cp % 16) ∷ []

abbrev pub write_unicode_escape : ℕ → Bytes
write_unicode_escape cp = b'\\' ∷ b'u' ∷ nibbles cp

abbrev pub write_wide : ℕ → Bytes
write_wide v = write_unicode_escape (0xd800 + v / 1024) ++ write_unicode_escape (0xdc00 + v % 1024)

-- One character of a string.
unfoldable pub write_char : ℕ → Bytes
write_char c =
    if c == b'"'
    then b'\\' ∷ b'"' ∷ []
    else if c == b'\\'
    then b'\\' ∷ b'\\' ∷ []
    else if c == 8
    then b'\\' ∷ b'b' ∷ []
    else if c == 9
    then b'\\' ∷ b't' ∷ []
    else if c == 10
    then b'\\' ∷ b'n' ∷ []
    else if c == 12
    then b'\\' ∷ b'f' ∷ []
    else if c == 13
    then b'\\' ∷ b'r' ∷ []
    else if ltb c 0x20
    then write_unicode_escape c
    else if ltb c 0x7f
    then c ∷ []
    else if leb c 0xffff
    then write_unicode_escape c
    else write_wide (c - 0x10000)

unfoldable pub write_chars : Text → Bytes
write_chars [] = []
write_chars (c ∷ s) = write_char c ++ write_chars s

unfoldable pub write_ascii_string : Text → Bytes
write_ascii_string s = b'"' ∷ (write_chars s ++ b'"' ∷ [])

abbrev joined : List Bytes → Bytes
joined [] = []
joined (p ∷ []) = p
joined (p ∷ q ∷ ps) = p ++ b',' ∷ joined (q ∷ ps)

-- `sort_object`, with the values written: a stable sort by keys.
abbrev pub Entry : Type 0
Entry = Text × Bytes

abbrev insert_entry : Entry → List Entry → List Entry
insert_entry e [] = e ∷ []
insert_entry e (f ∷ fs) =
    let rest = insert_entry e fs in if text_ltb f.0 e.0 then f ∷ rest else e ∷ f ∷ fs

abbrev pub sort_object : List Entry → List Entry
sort_object [] = []
sort_object (e ∷ es) = insert_entry e (sort_object es)

abbrev write_entry : Entry → Bytes
write_entry e = write_ascii_string e.0 ++ b':' ∷ e.1

pub record Crates (N E K : Type 0) : Type 0 where
  pub number_json : N → Bytes
  pub decode : Text → Result E Bytes
  pub encode : Bytes → Text
  pub key_from_bytes : Bytes → Option K
  pub verify : K → Bytes → Bytes → Bool
  pub sign : Bytes → Bytes → Bytes

pub data ProtocolError (E : Type 0) : Type 0 where
  hex : E → ProtocolError E
  public_key_length : ℕ → ProtocolError E
  private_key_length : ℕ → ProtocolError E
  signature_length : ℕ → ProtocolError E
  public_key : ProtocolError E

module _ {N E K : Type 0} (crates : Crates N E K) where
  open crates use {number_json, decode, encode, key_from_bytes, verify, sign}

  abbrev write_scalar : Scalar N → Bytes
  write_scalar null = text "null"
  write_scalar (bool true) = text "true"
  write_scalar (bool false) = text "false"
  write_scalar (number n) = number_json n
  write_scalar (string s) = write_ascii_string s

  unfoldable mutual
    pub write_canonical : Json N → Bytes
    write_canonical (scalar s) = write_scalar s
    write_canonical (arr xs) = b'[' ∷ (joined (write_items xs) ++ b']' ∷ [])
    write_canonical (obj fs) =
        b'{' ∷ (joined (map write_entry (sort_object (write_fields fs))) ++ b'}' ∷ [])

    pub write_items : Items N → List Bytes
    write_items nil = []
    write_items (cons x xs) = write_canonical x ∷ write_items xs

    pub write_fields : Fields N → List Entry
    write_fields end = []
    write_fields (field k v fs) = (k, write_canonical v) ∷ write_fields fs

  abbrev pub canonicalize : Json N → Result (ProtocolError E) Bytes
  canonicalize value = okay (write_canonical value)

  -- `hex::decode(s)?`
  abbrev pub decoded : Result E Bytes → Result (ProtocolError E) Bytes
  decoded (err e) = err (hex e)
  decoded (okay raw) = okay raw

  -- `decode_hex_fixed::<32>` with the error that its caller maps all errors to
  abbrev pub fixed_key : Text → Result E Bytes → Result (ProtocolError E) Bytes
  fixed_key s (err e) = err (public_key_length (byte_len s / 2))
  fixed_key s (okay raw) =
      if length raw == 32 then okay raw else err (public_key_length (byte_len s / 2))

  abbrev pub decode_public_key : Text → Result (ProtocolError E) Bytes
  decode_public_key s = fixed_key s (decode s)

  unfoldable pub verify_signature_hex : Text → Bytes → Text → Result (ProtocolError E) Bool
  verify_signature_hex public_key_hex payload signature_hex =
      and_then (decode_public_key public_key_hex) (λ pk_bytes.
        and_then (decoded (decode signature_hex)) (λ sig_bytes.
          if length sig_bytes == 64
          then and_then (ok_or public_key (key_from_bytes pk_bytes))
              (λ pk. okay (verify pk payload sig_bytes))
          else err (signature_length (length sig_bytes))))

  unfoldable pub sign_payload_hex : Text → Bytes → Result (ProtocolError E) Text
  sign_payload_hex secret_key_hex payload = and_then (decoded (decode secret_key_hex)) (λ sk_bytes.
      if length sk_bytes == 32
      then okay (encode (sign sk_bytes payload))
      else err (private_key_length (length sk_bytes)))

  unfoldable pub verify_envelope_hex : Text → Json N → Text → Result (ProtocolError E) Bool
  verify_envelope_hex public_key_hex envelope signature_hex =
      and_then (canonicalize envelope)
        (λ canonical. verify_signature_hex public_key_hex canonical signature_hex)

  unfoldable pub sign_envelope_hex : Text → Json N → Result (ProtocolError E) Text
  sign_envelope_hex secret_key_hex envelope =
      and_then (canonicalize envelope) (λ canonical. sign_payload_hex secret_key_hex canonical)
