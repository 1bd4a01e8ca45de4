-- ===== src/Prelude/Chars.antt =====
-- Texts in which no character passes a test.
use Prim.Native.Nat.{ℕ}
use mathlib.Core.Path.{◌≡◌, refl, sym, subst}
use mathlib.Core.Logic.{◌≢◌}
use mathlib.Core.Bool.{Bool, true, false}
use mathlib.Core.List.{List, [], ◌∷◌, ◌++◌, reverse, reverse-cons}
use native.Mathlib.Omega.{arith}
use forgewire_fabric.Prelude.Tests.{◌==◌, if◌then◌else◌}
use forgewire_fabric.Prelude.Lists.{All, any}
use forgewire_fabric.Prelude.Strings.{Text, contains_char, split, split_cons}

-- No character of the text passes the test.
abbrev pub Without : (ℕ → Bool) → Text → Type 0
Without f = All (λ c. f c ≡ false)

pub Without-append : (f : ℕ → Bool) (s t : Text) → Without f s → Without f t → Without f (s ++ t)
Without-append f [] t h k = k
Without-append f (c ∷ s) t h k = (h.0, Without-append f s t h.1 k)

pub Without-reverse : (f : ℕ → Bool) (s : Text) → Without f s → Without f (reverse s)
Without-reverse f [] h = tt
Without-reverse f (c ∷ s) h =
    subst (Without f) (sym (reverse-cons c s))
      (Without-append f (reverse s) (c ∷ []) (Without-reverse f s h.1) (h.0, tt))

-- For a text at hand the test can be run.
pub run_Without : (f : ℕ → Bool) (s : Text) → any f s ≡ false → Without f s
run_Without f [] h = tt
run_Without f (c ∷ s) h = (ground arith, run_Without f s (ground arith))

pub contains_none : (d : ℕ) (s : Text) → Without (λ c. c == d) s → contains_char d s ≡ false
contains_none d [] h = refl
contains_none d (c ∷ s) h = ground (arith, contains_none d s h.1)

join_pieces :
    (c sep : ℕ) (ps qs : List Text)
    → ps ≢ []
    → (if c == sep then [] ∷ (ps ++ qs) else split_cons c (ps ++ qs))
      ≡ (if c == sep then [] ∷ ps else split_cons c ps) ++ qs
join_pieces c sep [] qs h = absurd (h refl)
join_pieces c sep (p ∷ ps) qs h = ground arith

split_nonempty : (sep : ℕ) (s : Text) → split sep s ≢ []
split_nonempty sep [] h = cc
split_nonempty sep (c ∷ s) h = go (split sep s) (c == sep) h
  where
    go : (ps : List Text) (b : Bool) → (if b then [] ∷ ps else split_cons c ps) ≡ [] → ⊥
    go ps true e = cc
    go [] false e = cc
    go (p ∷ ps) false e = cc

-- The pieces of two texts joined by a separator are the pieces of each.
pub split-append : (sep : ℕ) (s t : Text) → split sep (s ++ sep ∷ t) ≡ split sep s ++ split sep t
split-append sep [] t = ground arith
split-append sep (c ∷ s) t =
    rw (split-append sep s t) (join_pieces c sep (split sep s) (split sep t) (split_nonempty sep s))
