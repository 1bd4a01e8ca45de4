-- ===== src/Protocol/Tests.antt =====
-- The canonical bytes of the tests of the crate, with stand-ins for the hex codec and Ed25519.
use forgewire_fabric.Prelude.{ℕ, zero, suc, ◌≡◌, refl, true, some, [], ◌∷◌, ◌++◌, Text, text, all}
use forgewire_fabric.Prelude.Results.{okay}
use forgewire_fabric.Prelude.Json.{number, string, scalar, Json, obj, end, field}
use forgewire_fabric.Protocol.{
  Bytes, Crates, write_canonical, write_ascii_string, write_chars, write_char,
}
use forgewire_fabric.Protocol.Reading.{read_string}
use forgewire_fabric.Protocol.Printable.{printable, write_ascii_string-printable}
use forgewire_fabric.Protocol.Strings.{read-write_ascii_string}

abbrev rocket : Text
rocket = b'h' ∷ 0xe9 ∷ 0x1f680 ∷ []

escapes : write_ascii_string rocket ≡ text "\"h\\u00e9\\ud83d\\ude80\""
unfolding write_ascii_string write_chars write_char
escapes = refl

read-write_ascii_string_example :
    read_string (write_ascii_string rocket ++ text ",") ≡ some (rocket, text ",")
read-write_ascii_string_example = read-write_ascii_string rocket (text ",") refl

write_ascii_string-printable_example : all printable (write_ascii_string rocket) ≡ true
write_ascii_string-printable_example = write_ascii_string-printable rocket

-- Hex is the identity, a signature is 64 bytes of the key, and one key verifies all of them.
abbrev zeros : ℕ → Bytes
zeros zero = []
zeros (suc n) = 0 ∷ zeros n

abbrev crates : Crates Text (Unit {0}) (Unit {0})
crates = record {
  number_json = λ n. n;
  decode = λ s. okay s;
  encode = λ b. b;
  key_from_bytes = λ b. some tt;
  verify = λ k m s. true;
  sign = λ sk m. zeros 64;
}

abbrev envelope : Json Text
envelope = obj (
    field (text "op") (scalar (string (text "register")))
      (field (text "b") (scalar (number (text "1"))) end))

sorts_keys : write_canonical crates envelope ≡ text "{\"b\":1,\"op\":\"register\"}"
unfolding write_canonical write_ascii_string write_chars write_char
sorts_keys = refl
