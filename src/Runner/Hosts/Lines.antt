-- ===== src/Runner/Hosts/Lines.antt =====
-- crates/fabric-runner/src/directory.rs: the lines of a text that was put together from lines.
use mathlib.Core.List.{reverse, reverse-append, append_assoc, append-nil}
use forgewire_fabric.Prelude.{
  ℕ, ◌≡◌, refl, sym, ap, ◌∙◌, Bool, true, false, not, ◌&&◌, inl, inr, List, [], ◌∷◌, ◌++◌, arith,
  Text, all, ◌==◌, Bool-cases,
}
use forgewire_fabric.Runner.Hosts.{unlines, strip_return, lines_from, lines}

-- A line has neither of the characters that end one.
abbrev pub clean_char : ℕ → Bool
clean_char c = not (c == b'\n') && not (c == b'\r')

abbrev pub is_line : Text → Bool
is_line = all clean_char

strip-clean : (back : Text) → is_line back ≡ true → strip_return back ≡ back
strip-clean [] h = refl
strip-clean (c ∷ back) h = ground arith

lines-line :
    (back line rest : Text)
    → is_line line ≡ true
    → is_line back ≡ true
    → lines_from back (line ++ b'\n' ∷ rest) ≡ (reverse back ++ line) ∷ lines rest
lines-line back [] rest h k =
    ap (λ l. l ∷ lines rest) (ap reverse (strip-clean back k) ∙ sym (append-nil (reverse back)))
lines-line back (c ∷ line) rest h k =
    let n : (c == b'\n') ≡ false = ground arith in
    rw n (
      lines-line (c ∷ back) line rest (ground arith) (ground arith)
      ∙ ap (λ l. l ∷ lines rest)
          (ap (λ r. r ++ line) (reverse-append (c ∷ []) back)
            ∙ append_assoc (reverse back) (c ∷ []) line))

-- Lines that were put together are found again.
pub lines-unlines :
    (ls : List Text) (rest : Text)
    → all is_line ls ≡ true
    → lines (unlines ls ++ rest) ≡ ls ++ lines rest
lines-unlines [] rest h = refl
lines-unlines (l ∷ ls) rest h =
    ap lines (append_assoc l (b'\n' ∷ unlines ls) rest)
    ∙ (lines-line [] l (unlines ls ++ rest) (ground arith) refl
        ∙ ap (λ m. l ∷ m) (lines-unlines ls rest (ground arith)))

pub all-append :
    {A : Type 0} (p : A → Bool) (xs ys : List A)
    → all p xs ≡ true
    → all p ys ≡ true
    → all p (xs ++ ys) ≡ true
all-append p [] ys h k = k
all-append p (x ∷ xs) ys h k = ground (arith, all-append p xs ys)

pub all-reverse :
    {A : Type 0} (p : A → Bool) (xs : List A) → all p xs ≡ true → all p (reverse xs) ≡ true
all-reverse p [] h = refl
all-reverse p (x ∷ xs) h =
    ap (all p) (reverse-append (x ∷ []) xs)
    ∙ all-append p (reverse xs) (x ∷ []) (all-reverse p xs (ground arith)) (ground arith)

-- The lines of a text without carriage returns have neither character.
pub lines-clean :
    (back s : Text)
    → is_line back ≡ true
    → all (λ c. not (c == b'\r')) s ≡ true
    → all is_line (lines_from back s) ≡ true
lines-clean [] [] h k = refl
lines-clean (c ∷ back) [] h k = ground (arith, all-reverse clean_char (c ∷ back) h)
lines-clean back (c ∷ s) h k = elim (Bool-cases (c == b'\n')) [
  | inl e ↦
      rw
        (e, strip-clean back h, all-reverse clean_char back h, lines-clean [] s refl (ground arith))
        refl
  | inr e ↦ rw e (lines-clean (c ∷ back) s (ground arith) (ground arith))
]
