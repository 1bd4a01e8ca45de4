-- ===== src/Protocol/Reading.antt =====
-- A reader of JSON strings as RFC 8259 describes them, byte by byte: a quotation mark, a backslash
-- and the control characters below 0x20 stand only behind a backslash. An independent description of
-- what the escapes of crates/fabric-protocol/src/lib.rs stand for.
use forgewire_fabric.Prelude.{
  ℕ, ◌+◌, ◌-◌, ◌*◌, ◌&&◌, Option, none, some, [], ◌∷◌, Text, ltb, leb, ◌==◌, if◌then◌else◌,
}

-- Between two bytes: in plain text, behind a backslash, in a code unit with so many digits to come
-- and maybe a high surrogate before it, and behind a high surrogate.
pub data Reader : Type 0 where
  plain : Reader
  escaped : Reader
  in_unit : ℕ → ℕ → Option ℕ → Reader
  behind_high : ℕ → Reader
  behind_slash : ℕ → Reader

-- What a byte leads to: a refusal, the end of the string, or a reader with a character maybe.
pub data Move : Type 0 where
  refused : Move
  ended : Move
  moved : Option ℕ → Reader → Move

abbrev pub hex_value : ℕ → Option ℕ
hex_value b =
    if leb b'0' b && leb b b'9'
    then some (b - b'0')
    else if leb b'a' b && leb b b'f'
    then some (b - b'a' + 10)
    else none

abbrev pub unescape : ℕ → Option ℕ
unescape b =
    if b == b'"'
    then some b'"'
    else if b == b'\\'
    then some b'\\'
    else if b == b'b'
    then some 8
    else if b == b't'
    then some 9
    else if b == b'n'
    then some 10
    else if b == b'f'
    then some 12
    else if b == b'r'
    then some 13
    else none

-- A code unit that is complete.
abbrev pub unit_read : ℕ → Option ℕ → Move
unit_read n none =
    if leb 0xd800 n && ltb n 0xdc00 then moved none (behind_high n) else moved (some n) plain
unit_read n (some high) =
    if leb 0xdc00 n && ltb n 0xe000
    then moved (some (0x10000 + (high - 0xd800) * 1024 + (n - 0xdc00))) plain
    else refused

abbrev pub digit_read : ℕ → ℕ → Option ℕ → Option ℕ → Move
digit_read left n high none = refused
digit_read left n high (some d) =
    if left == 1
    then unit_read (n * 16 + d) high
    else moved none (in_unit (left - 1) (n * 16 + d) high)

abbrev simple : Option ℕ → Move
simple none = refused
simple (some c) = moved (some c) plain

abbrev pub read_byte : Reader → ℕ → Move
read_byte plain b =
    if b == b'"'
    then ended
    else if b == b'\\'
    then moved none escaped
    else if ltb b 0x20
    then refused
    else moved (some b) plain
read_byte escaped b = if b == b'u' then moved none (in_unit 4 0 none) else simple (unescape b)
read_byte (in_unit left n high) b = digit_read left n high (hex_value b)
read_byte (behind_high high) b = if b == b'\\' then moved none (behind_slash high) else refused
read_byte (behind_slash high) b =
    if b == b'u' then moved none (in_unit 4 0 (some high)) else refused

abbrev pub with_char : Option ℕ → Option (Text × Text) → Option (Text × Text)
with_char none r = r
with_char (some c) none = none
with_char (some c) (some (s, rest)) = some (c ∷ s, rest)

abbrev pub go_on : Move → (Reader → Option (Text × Text)) → Text → Option (Text × Text)
go_on refused more rest = none
go_on ended more rest = some ([], rest)
go_on (moved c r) more rest = with_char c (more r)

-- The text up to the closing quote, with the bytes behind it.
unfoldable pub read_from : Reader → Text → Option (Text × Text)
read_from r [] = none
read_from r (b ∷ bytes) = go_on (read_byte r b) (λ r'. read_from r' bytes) bytes

unfoldable pub read_string : Text → Option (Text × Text)
unfolding read_from
read_string [] = none
read_string (b ∷ bytes) = if b == b'"' then read_from plain bytes else none
