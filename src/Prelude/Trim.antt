-- ===== src/Prelude/Trim.antt =====
-- `str::trim` and `trim_end_matches` with a character, and what lower case leaves of them.
use Prim.Native.Nat.{ℕ}
use mathlib.Core.Bool.{Bool, true, false, ◌&&◌, ◌||◌}
use mathlib.Core.List.{[], ◌∷◌, reverse}
use forgewire_fabric.Prelude.Tests.{leb, ◌==◌}
use forgewire_fabric.Prelude.Strings.{Text}

abbrev pub drop_while : (ℕ → Bool) → Text → Text
drop_while f [] = []
drop_while f (c ∷ s) = elim (f c) [ true ↦ drop_while f s | false ↦ c ∷ s ]

abbrev pub drop_end_while : (ℕ → Bool) → Text → Text
drop_end_while f s = reverse (drop_while f (reverse s))

-- `char::is_whitespace`: the Unicode property White_Space.
abbrev pub is_whitespace : ℕ → Bool
is_whitespace c =
    (leb 9 c && leb c 13)
    || c == 0x20
    || c == 0x85
    || c == 0xA0
    || c == 0x1680
    || (leb 0x2000 c && leb c 0x200A)
    || c == 0x2028
    || c == 0x2029
    || c == 0x202F
    || c == 0x205F
    || c == 0x3000

-- `s.trim()` and `s.trim_end_matches(c)`
abbrev pub trim : Text → Text
trim s = drop_end_while is_whitespace (drop_while is_whitespace s)

abbrev pub trim_end_char : ℕ → Text → Text
trim_end_char c = drop_end_while (λ d. d == c)
