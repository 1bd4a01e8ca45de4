-- ===== src/Protocol/Printable.antt =====
-- crates/fabric-protocol/src/lib.rs: the canonical bytes of a string are printable ASCII.
use forgewire_fabric.Prelude.{
  ℕ, ◌+◌, ◌-◌, ◌/◌, ◌%◌, ◌<◌, ◌≡◌, refl, Bool, true, ◌&&◌, [], ◌∷◌, ◌++◌, arith, Text, ltb, leb,
  ◌==◌, all,
}
use forgewire_fabric.Protocol.{
  Bytes, nibble, write_unicode_escape, write_wide, write_char, write_chars, write_ascii_string,
}
use forgewire_fabric.Protocol.Strings.{either}

abbrev pub printable : ℕ → Bool
printable b = leb 0x20 b && leb b 0x7e

abbrev Prints : Bytes → Type 0
Prints written = all printable written ≡ true

Prints-append : (s t : Bytes) → Prints s → Prints t → Prints (s ++ t)
Prints-append [] t h k = k
Prints-append (b ∷ s) t h k = ground (arith, Prints-append s t)

nibble-printable : (n : ℕ) → n < 16 → printable (nibble n) ≡ true
nibble-printable n h = ground arith

write_unicode_escape-Prints : (c : ℕ) → Prints (write_unicode_escape c)
write_unicode_escape-Prints c =
    rw
      (
        nibble-printable (c / 4096 % 16) (omega arith),
        nibble-printable (c / 256 % 16) (omega arith),
        nibble-printable (c / 16 % 16) (omega arith),
        nibble-printable (c % 16) (omega arith),
      )
      refl

write_wide-Prints : (v : ℕ) → Prints (write_wide v)
write_wide-Prints v =
    Prints-append (write_unicode_escape (0xd800 + v / 1024))
      (write_unicode_escape (0xdc00 + v % 1024)) (write_unicode_escape-Prints (0xd800 + v / 1024))
      (write_unicode_escape-Prints (0xdc00 + v % 1024))

write_char-Prints : (c : ℕ) → Prints (write_char c)
unfolding write_char
write_char-Prints c =
    either Prints (c == b'"') _ _ (λ h. refl)
      (λ h.
        either Prints (c == b'\\') _ _ (λ h. refl)
          (λ h.
            either Prints (c == 8) _ _ (λ h. refl)
              (λ h.
                either Prints (c == 9) _ _ (λ h. refl)
                  (λ h.
                    either Prints (c == 10) _ _ (λ h. refl)
                      (λ h.
                        either Prints (c == 12) _ _ (λ h. refl)
                          (λ h.
                            either Prints (c == 13) _ _ (λ h. refl)
                              (λ h.
                                either Prints (ltb c 0x20) _ _ (λ l. write_unicode_escape-Prints c)
                                  (λ l.
                                    either Prints (ltb c 0x7f) _ _ (λ p. ground arith)
                                      (λ p.
                                        either Prints (leb c 0xffff) _ _
                                          (λ w. write_unicode_escape-Prints c)
                                          (λ w. write_wide-Prints (c - 0x10000)))))))))))

write_chars-Prints : (s : Text) → Prints (write_chars s)
unfolding write_chars
write_chars-Prints [] = refl
write_chars-Prints (c ∷ s) =
    Prints-append (write_char c) (write_chars s) (write_char-Prints c) (write_chars-Prints s)

-- Every byte of a string's canonical form is a printable ASCII character, from the space to the
-- tilde, whatever the text.
pub write_ascii_string-printable : (s : Text) → all printable (write_ascii_string s) ≡ true
unfolding write_ascii_string
write_ascii_string-printable s =
    Prints-append (write_chars s) (b'"' ∷ []) (write_chars-Prints s) refl
