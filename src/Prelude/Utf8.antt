-- ===== src/Prelude/Utf8.antt =====
-- UTF-8: the bytes of a text (`as_bytes`) and the text of bytes (`String::from_utf8`).
use Prim.Native.Nat.{ℕ, ◌+◌, ◌-◌, ◌*◌, ◌/◌, ◌%◌}
use mathlib.Core.Path.{◌≡◌, refl}
use mathlib.Core.Bool.{Bool, true, ◌&&◌}
use mathlib.Core.Option.{Option, none, some}
use mathlib.Core.List.{List, [], ◌∷◌, ◌++◌}
use native.Mathlib.Omega.{arith}
use forgewire_fabric.Prelude.Tests.{ltb, leb, ◌==◌, if◌then◌else◌}
use forgewire_fabric.Prelude.Lists.{all}
use forgewire_fabric.Prelude.Strings.{Text}

abbrev pub encode_char : ℕ → List ℕ
encode_char c =
    if ltb c 0x80
    then c ∷ []
    else if ltb c 0x800
    then (0xC0 + c / 64) ∷ (0x80 + c % 64) ∷ []
    else if ltb c 0x10000
    then (0xE0 + c / 4096) ∷ (0x80 + c / 64 % 64) ∷ (0x80 + c % 64) ∷ []
    else (0xF0 + c / 262144) ∷ (0x80 + c / 4096 % 64) ∷ (0x80 + c / 64 % 64) ∷ (0x80 + c % 64) ∷ []

abbrev pub as_bytes : Text → List ℕ
as_bytes [] = []
as_bytes (c ∷ s) = encode_char c ++ as_bytes s

-- The decoder between two bytes: at the start of a character, or with so many more bytes to come,
-- the first of them in a range, behind the bits read.
pub data Decoder : Type 0 where
  start : Decoder
  within : ℕ → ℕ → ℕ → ℕ → Decoder

-- One byte: refused, or the next state with a character that is complete.
abbrev pub decode_byte : Decoder → ℕ → Option (Option ℕ × Decoder)
decode_byte start b =
    if ltb b 0x80
    then some (some b, start)
    else if leb 0xC2 b && leb b 0xDF
    then some (none, within 1 (b - 0xC0) 0x80 0xBF)
    else if b == 0xE0
    then some (none, within 2 0 0xA0 0xBF)
    else if b == 0xED
    then some (none, within 2 13 0x80 0x9F)
    else if leb 0xE1 b && leb b 0xEF
    then some (none, within 2 (b - 0xE0) 0x80 0xBF)
    else if b == 0xF0
    then some (none, within 3 0 0x90 0xBF)
    else if b == 0xF4
    then some (none, within 3 4 0x80 0x8F)
    else if leb 0xF1 b && leb b 0xF3
    then some (none, within 3 (b - 0xF0) 0x80 0xBF)
    else none
decode_byte (within more bits low high) b =
    let bits' = bits * 64 + (b - 0x80) in
    if leb low b && leb b high
    then (if leb more 1
        then some (some bits', start)
        else some (none, within (more - 1) bits' 0x80 0xBF))
    else none

abbrev pub push_char : Option ℕ → Option Text → Option Text
push_char out none = none
push_char none (some s) = some s
push_char (some c) (some s) = some (c ∷ s)

abbrev pub decode_from : Decoder → List ℕ → Option Text
decode_from start [] = some []
decode_from (within more bits low high) [] = none
decode_from d (b ∷ bytes) = elim (decode_byte d b) [
  | none ↦ none
  | some step ↦ push_char step.0 (decode_from step.1 bytes)
]

-- `String::from_utf8`
abbrev pub from_utf8 : List ℕ → Option Text
from_utf8 bytes = decode_from start bytes

abbrev pub is_ascii : Text → Bool
is_ascii = all (λ c. ltb c 0x80)

-- A text in ASCII is its own bytes.
pub as_bytes-ascii : (s : Text) → is_ascii s ≡ true → as_bytes s ≡ s
as_bytes-ascii [] h = refl
as_bytes-ascii (c ∷ s) h =
    let k : ltb c 0x80 ≡ true = ground arith in rw (k, as_bytes-ascii s (ground arith)) refl
