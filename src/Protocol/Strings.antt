-- ===== src/Protocol/Strings.antt =====
-- crates/fabric-protocol/src/lib.rs: a string is read back from its canonical bytes, which are ASCII.
use mathlib.Core.Path.{subst}
use mathlib.Core.List.{append_assoc}
use forgewire_fabric.Prelude.{
  ℕ, ◌+◌, ◌-◌, ◌*◌, ◌/◌, ◌%◌, ◌<◌, ◌≡◌, refl, sym, ap, ◌∙◌, Bool, true, false, ◌&&◌, ◌||◌, Option,
  none, some, [], ◌∷◌, ◌++◌, arith, Text, ltb, leb, ◌==◌, all, ==_iff, if◌then◌else◌,
}
use forgewire_fabric.Protocol.{
  Bytes, nibble, nibbles, write_unicode_escape, write_wide, write_char, write_chars,
  write_ascii_string,
}
use forgewire_fabric.Protocol.Reading.{
  plain, in_unit, behind_high, moved, hex_value, unit_read, with_char, go_on, read_from,
  read_string,
}

hex_value-nibble : (n : ℕ) → n < 16 → hex_value (nibble n) ≡ some n
hex_value-nibble n h = ground arith

together :
    (cp : ℕ)
    → cp < 65536
    → ((((0 * 16 + cp / 4096 % 16) * 16 + cp / 256 % 16) * 16 + cp / 16 % 16) * 16 + cp % 16) ≡ cp
together cp h = omega arith

-- The four digits of a code unit lead to the unit.
read-nibbles :
    (cp : ℕ) (high : Option ℕ) (rest : Text)
    → cp < 65536
    → read_from (in_unit 4 0 high) (nibbles cp ++ rest)
      ≡ go_on (unit_read cp high) (λ r. read_from r rest) rest
unfolding read_from
read-nibbles cp high rest h =
    rw
      (
        hex_value-nibble (cp / 4096 % 16) (omega arith),
        hex_value-nibble (cp / 256 % 16) (omega arith),
        hex_value-nibble (cp / 16 % 16) (omega arith),
        hex_value-nibble (cp % 16) (omega arith),
      )
      (ap (λ n. go_on (unit_read n high) (λ r. read_from r rest) rest) (together cp h))

-- A Unicode scalar value, which a `char` is.
abbrev pub is_scalar_value : ℕ → Bool
is_scalar_value c = ltb c 0xd800 || (leb 0xe000 c && ltb c 0x110000)

abbrev Reads : ℕ → Bytes → Text → Type 0
Reads c written rest = read_from plain (written ++ rest) ≡ with_char (some c) (read_from plain rest)

read-escape :
    (c : ℕ) (rest : Text)
    → is_scalar_value c ≡ true
    → c < 65536
    → Reads c (write_unicode_escape c) rest
unfolding read_from
read-escape c rest s h = read-nibbles c none rest h ∙ rw (unit c s) refl
  where
    unit : (c : ℕ) → is_scalar_value c ≡ true → unit_read c none ≡ moved (some c) plain
    unit c s = ground arith

read-wide : (v : ℕ) (rest : Text) → v < 0x100000 → Reads (v + 0x10000) (write_wide v) rest
unfolding read_from
read-wide v rest h =
    read-nibbles (0xd800 + v / 1024) none (write_unicode_escape (0xdc00 + v % 1024) ++ rest)
      (omega arith)
    ∙ rw (first v h) (
        read-nibbles (0xdc00 + v % 1024) (some (0xd800 + v / 1024)) rest (omega arith)
        ∙ rw (second v h) refl)
  where
    first :
        (v : ℕ)
        → v < 0x100000
        → unit_read (0xd800 + v / 1024) none ≡ moved none (behind_high (0xd800 + v / 1024))
    first v h = ground arith

    second :
        (v : ℕ)
        → v < 0x100000
        → unit_read (0xdc00 + v % 1024) (some (0xd800 + v / 1024))
          ≡ moved (some (v + 0x10000)) plain
    second v h = ground arith

pub either {ℓ} :
    {A : Type ℓ} (P : A → Type 0) (b : Bool) (x y : A)
    → (b ≡ true → P x)
    → (b ≡ false → P y)
    → P (if b then x else y)
either P true x y f g = f refl
either P false x y f g = g refl

-- The short escapes, and a character that stands for itself.
read-short :
    (c d : ℕ) (written : Bytes) (rest : Text)
    → Reads d written rest
    → (c == d) ≡ true
    → Reads c written rest
read-short c d written rest r e = subst (λ k. Reads k written rest) (sym ((==_iff c d).0 e)) r

read-itself :
    (c : ℕ) (rest : Text)
    → (c == b'"') ≡ false
    → (c == b'\\') ≡ false
    → ltb c 0x20 ≡ false
    → Reads c (c ∷ []) rest
unfolding read_from
read-itself c rest h k l = rw (h, k, l) refl

module _ (c : ℕ) (rest : Text) (s : is_scalar_value c ≡ true) where
  abbrev R : Bytes → Type 0
  R written = Reads c written rest

  read-wide_char : leb c 0xffff ≡ false → R (write_wide (c - 0x10000))
  read-wide_char h =
      subst (λ k. Reads k (write_wide (c - 0x10000)) rest) (same c h)
        (read-wide (c - 0x10000) rest (small c s))
    where
      same : (c : ℕ) → leb c 0xffff ≡ false → c - 0x10000 + 0x10000 ≡ c
      same c h = ground arith

      small : (c : ℕ) → is_scalar_value c ≡ true → c - 0x10000 < 0x100000
      small c s = ground arith

  read-char : R (write_char c)
  unfolding write_char read_from
  read-char = either R (c == b'"') _ _ (read-short c b'"' (b'\\' ∷ b'"' ∷ []) rest refl) (λ q.
      either R (c == b'\\') _ _ (read-short c b'\\' (b'\\' ∷ b'\\' ∷ []) rest refl) (λ b.
        either R (c == 8) _ _ (read-short c 8 (b'\\' ∷ b'b' ∷ []) rest refl) (λ h.
          either R (c == 9) _ _ (read-short c 9 (b'\\' ∷ b't' ∷ []) rest refl) (λ h.
            either R (c == 10) _ _ (read-short c 10 (b'\\' ∷ b'n' ∷ []) rest refl) (λ h.
              either R (c == 12) _ _ (read-short c 12 (b'\\' ∷ b'f' ∷ []) rest refl) (λ h.
                either R (c == 13) _ _ (read-short c 13 (b'\\' ∷ b'r' ∷ []) rest refl) (λ h.
                  either R (ltb c 0x20) _ _ (λ l. read-escape c rest s (ground arith))
                    (λ l.
                      either R (ltb c 0x7f) _ _ (λ p. read-itself c rest q b l)
                        (λ p.
                          either R (leb c 0xffff) _ _ (λ w. read-escape c rest s (ground arith))
                            read-wide_char)))))))))

read-chars :
    (s rest : Text)
    → all is_scalar_value s ≡ true
    → read_from plain (write_chars s ++ b'"' ∷ rest) ≡ some (s, rest)
unfolding write_chars read_from
read-chars [] rest h = refl
read-chars (c ∷ s) rest h =
    ap (read_from plain) (append_assoc (write_char c) (write_chars s) (b'"' ∷ rest))
    ∙ (read-char c (write_chars s ++ b'"' ∷ rest) (ground arith)
        ∙ ap (with_char (some c)) (read-chars s rest (ground arith)))

-- A text of Unicode characters is read back from its canonical bytes by a reader of JSON strings that
-- refuses control characters below 0x20 which are not escaped; whatever bytes follow are left over.
pub read-write_ascii_string :
    (s rest : Text)
    → all is_scalar_value s ≡ true
    → read_string (write_ascii_string s ++ rest) ≡ some (s, rest)
unfolding write_ascii_string read_string
read-write_ascii_string s rest h =
    ap (read_from plain) (append_assoc (write_chars s) (b'"' ∷ []) rest) ∙ read-chars s rest h
