-- ===== src/Prelude/Strings.antt =====
-- Text as the list of its characters (Unicode scalar values), with the methods of Rust's `str` that
-- the program calls. `byte_len` is the length in UTF-8, which is what `len()` counts.
use Prim.Native.Nat.{◌/◌, ◌%◌, ℕ, zero, suc, ◌+◌}
use Prim.Native.Char.{code}
use Prim.Native.String.{String}
use mathlib.Core.Path.{◌≡◌, refl, ap}
use mathlib.Core.Logic.{◌↔◌}
use mathlib.Core.Bool.{Bool, true, false, ◌&&◌, ◌||◌}
use mathlib.Core.List.{List, [], ◌∷◌, ◌++◌, map, reverse}
use mathlib.Core.Option.{Option, none, some}
use native.Mathlib.Omega.{arith}
use forgewire_fabric.Prelude.Tests.{ltb, leb, ◌==◌, if◌then◌else◌}
use forgewire_fabric.Prelude.Lists.{length}

abbrev pub Text : Type 0
Text = List ℕ

-- The text of a literal.
abbrev pub text : String → Text
text String.[] = []
text (String.◌∷◌ c s) = code c ∷ text s

-- `len_utf8` of a character, and `len` of a text.
abbrev pub char_len : ℕ → ℕ
char_len c = if ltb c 0x80 then 1 else if ltb c 0x800 then 2 else if ltb c 0x10000 then 3 else 4

abbrev pub byte_len : Text → ℕ
byte_len [] = 0
byte_len (c ∷ s) = char_len c + byte_len s

abbrev pub text_eq : Text → Text → Bool
text_eq [] [] = true
text_eq [] (d ∷ t) = false
text_eq (c ∷ s) [] = false
text_eq (c ∷ s) (d ∷ t) = c == d && text_eq s t

-- `s.starts_with(p)`
abbrev pub starts_with : Text → Text → Bool
starts_with s [] = true
starts_with [] (d ∷ p) = false
starts_with (c ∷ s) (d ∷ p) = c == d && starts_with s p

-- `s.strip_prefix(p)`
abbrev pub strip_prefix : Text → Text → Option Text
strip_prefix s [] = some s
strip_prefix [] (d ∷ p) = none
strip_prefix (c ∷ s) (d ∷ p) = if c == d then strip_prefix s p else none

-- `s.ends_with(p)` and `s.strip_suffix(p)`
abbrev pub ends_with : Text → Text → Bool
ends_with s p = starts_with (reverse s) (reverse p)

abbrev pub strip_suffix : Text → Text → Option Text
strip_suffix s p = elim (strip_prefix (reverse s) (reverse p)) [
  | none ↦ none
  | some r ↦ some (reverse r)
]

-- `s.contains(c)`
abbrev pub contains_char : ℕ → Text → Bool
contains_char c [] = false
contains_char c (d ∷ s) = c == d || contains_char c s

-- `s.contains(p)`
abbrev pub contains_text : Text → Text → Bool
contains_text [] p = starts_with [] p
contains_text (c ∷ s) p = starts_with (c ∷ s) p || contains_text s p

-- `s.find(f)` and `s.rfind(f)`, as positions in characters.
abbrev pub find_char : (ℕ → Bool) → Text → Option ℕ
find_char f [] = none
find_char f (c ∷ s) = elim (f c) [
  | true ↦ some 0
  | false ↦ elim (find_char f s) [ none ↦ none | some i ↦ some (suc i) ]
]

abbrev pub rfind_char : (ℕ → Bool) → Text → Option ℕ
rfind_char f [] = none
rfind_char f (c ∷ s) = elim (rfind_char f s) [
  | none ↦ if f c then some 0 else none
  | some i ↦ some (suc i)
]

-- `s.replace(from, to)` for single characters.
abbrev pub replace_char : ℕ → ℕ → Text → Text
replace_char from to = map (λ c. if c == from then to else c)

-- `s.split(sep)`: the pieces between the separators, at least one.
abbrev pub split_cons : ℕ → List Text → List Text
split_cons c [] = (c ∷ []) ∷ []
split_cons c (piece ∷ rest) = (c ∷ piece) ∷ rest

abbrev pub split : ℕ → Text → List Text
split sep [] = [] ∷ []
split sep (c ∷ s) = let rest = split sep s in if c == sep then [] ∷ rest else split_cons c rest

-- `trim_start_matches(p)` with fuel; every round but the last takes at least one character off.
abbrev pub strip_repeatedly : ℕ → Text → Text → Text
strip_repeatedly zero s p = s
strip_repeatedly (suc fuel) s p = elim (strip_prefix s p) [
  | none ↦ s
  | some r ↦ strip_repeatedly fuel r p
]

abbrev pub trim_start_matches : Text → Text → Text
trim_start_matches s p = strip_repeatedly (length s) s p

-- `trim_end_matches(p)`
abbrev pub trim_end_matches : Text → Text → Text
trim_end_matches s p = reverse (trim_start_matches (reverse s) (reverse p))

-- The decimal digits of a number; as many rounds as the number is large are more than enough.
abbrev pub decimal_onto : ℕ → ℕ → Text → Text
decimal_onto zero n digits = digits
decimal_onto (suc fuel) n digits = elim (n / 10 == 0) [
  | true ↦ (n % 10 + b'0') ∷ digits
  | false ↦ decimal_onto fuel (n / 10) ((n % 10 + b'0') ∷ digits)
]

abbrev pub decimal : ℕ → Text
decimal n = decimal_onto (suc n) n []

-- `to_ascii_lowercase` and `eq_ignore_ascii_case`
abbrev pub lower_char : ℕ → ℕ
lower_char c = if leb b'A' c && leb c b'Z' then c + 32 else c

abbrev pub to_ascii_lowercase : Text → Text
to_ascii_lowercase = map lower_char

abbrev pub eq_ignore_ascii_case : Text → Text → Bool
eq_ignore_ascii_case s t = text_eq (to_ascii_lowercase s) (to_ascii_lowercase t)

pub text_eq_self : (s : Text) → text_eq s s ≡ true
text_eq_self [] = refl
text_eq_self (c ∷ s) = ground (arith, text_eq_self s)

pub text_eq_sound : (s t : Text) → text_eq s t ≡ true → s ≡ t
text_eq_sound [] [] h = refl
text_eq_sound [] (d ∷ t) h = cc
text_eq_sound (c ∷ s) [] h = cc
text_eq_sound (c ∷ s) (d ∷ t) h = ground (arith, text_eq_sound s t)

pub text_eq_iff : (s t : Text) → (text_eq s t ≡ true) ↔ (s ≡ t)
text_eq_iff s t = (text_eq_sound s t, λ e. rw e (text_eq_self t))

-- `p` is a prefix of `s`.
abbrev pub IsPrefix : Text → Text → Type 0
IsPrefix p s = (rest : Text) × (s ≡ p ++ rest)

pub starts_with-append : (p rest : Text) → starts_with (p ++ rest) p ≡ true
starts_with-append [] [] = refl
starts_with-append [] (d ∷ rest) = refl
starts_with-append (c ∷ p) rest = ground (arith, starts_with-append p rest)

pub starts_with_sound : (s p : Text) → starts_with s p ≡ true → IsPrefix p s
starts_with_sound s [] h = (s, refl)
starts_with_sound [] (d ∷ p) h = cc
starts_with_sound (c ∷ s) (d ∷ p) h =
    let ih = starts_with_sound s p (ground arith) in
    let e : c ≡ d = ground arith in (ih.0, rw e (ap (λ l. d ∷ l) ih.1))

pub starts_with_iff : (s p : Text) → (starts_with s p ≡ true) ↔ IsPrefix p s
starts_with_iff s p = (starts_with_sound s p, λ h. rw (h.1) (starts_with-append p h.0))
