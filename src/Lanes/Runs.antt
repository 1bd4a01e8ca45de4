-- ===== src/Lanes/Runs.antt =====
-- crates/fabric-compute-lanes/src/redact.rs, long_opaque_run: every long run of token characters
-- with a letter and a digit in it is found.
use forgewire_fabric.Prelude.{
  ℕ, ◌+◌, ◌≤◌, ◌≡◌, refl, ap, ◌∙◌, Bool, true, false, ◌||◌, some, [], ◌∷◌, ◌++◌, arith, Text, leb,
  if◌then◌else◌, any, all, length,
}
use forgewire_fabric.Lanes.Redact.{
  Run, no_run, count_char, break_run, run_over, is_token_char, is_ascii_digit, is_ascii_alphabetic,
  token_run_len, long_opaque_run,
}

run_over-append : (r : Run) (s t : Text) → run_over r (s ++ t) ≡ run_over (run_over r s) t
run_over-append r [] t = refl
run_over-append r (c ∷ s) t =
    run_over-append (if is_token_char c then count_char r c else break_run r) s t

step : Run → ℕ → Run
step r c = if is_token_char c then count_char r c else break_run r

longest_grows : (r : Run) (s : Text) → r.longest ≤ (run_over r s).longest
longest_grows r [] = omega arith
longest_grows r (c ∷ s) = omega (
  arith,
  grows_once (is_token_char c),
  longest_grows (if is_token_char c then count_char r c else break_run r) s,
)
  where
    grows_once : (b : Bool) → r.longest ≤ (if b then count_char r c else break_run r).longest
    grows_once true = ground arith
    grows_once false = omega arith

-- With a digit and a letter in the run so far, its length counts, and a count was noted.
abbrev IsSound : Run → Type 0
IsSound r =
    (r.has_digit ≡ true → r.has_alpha ≡ true → r.current ≤ r.longest)
    × (1 ≤ r.longest → r.run_had_both ≡ true)

count_char-IsSound : (r : Run) (c : ℕ) → IsSound r → IsSound (count_char r c)
count_char-IsSound r c h = (λ d a. ground arith, λ l. ground (arith, h.1))

run_over-IsSound : (r : Run) (s : Text) → IsSound r → IsSound (run_over r s)
run_over-IsSound r [] h = h
run_over-IsSound r (c ∷ s) h =
    run_over-IsSound (if is_token_char c then count_char r c else break_run r) s
      (once (is_token_char c))
  where
    once : (b : Bool) → IsSound (if b then count_char r c else break_run r)
    once true = count_char-IsSound r c h
    once false = (λ d a. cc, h.1)

-- Over token characters the run only grows, and sees their digits and letters.
counts :
    (r : Run) (s : Text)
    → all is_token_char s ≡ true
    → ((run_over r s).current ≡ r.current + length s)
      × ((r.has_digit || any is_ascii_digit s) ≡ true → (run_over r s).has_digit ≡ true)
      × ((r.has_alpha || any is_ascii_alphabetic s) ≡ true → (run_over r s).has_alpha ≡ true)
counts r [] h = (omega arith, λ d. ground arith, λ a. ground arith)
counts r (c ∷ s) h =
    let token : is_token_char c ≡ true = ground arith in
    let (current, digit, alpha) = counts (count_char r c) s (ground arith) in
    let opened : run_over r (c ∷ s) ≡ run_over (count_char r c) s =
      ap (λ b. run_over (if b then count_char r c else break_run r) s) token in
    (
      omega (arith, current, ap (λ q. q.current) opened),
      λ d. ap (λ q. q.has_digit) opened ∙ digit (ground arith),
      λ a. ap (λ q. q.has_alpha) opened ∙ alpha (ground arith),
    )

-- A run of at least 24 letters, digits and signs with a digit and a letter in it, wherever it
-- stands, is reported, with at least its length.
pub long_opaque_run_complete :
    (before run after : Text)
    → all is_token_char run ≡ true
    → any is_ascii_digit run ≡ true
    → any is_ascii_alphabetic run ≡ true
    → 24 ≤ length run
    → (n : ℕ) × (long_opaque_run (before ++ (run ++ after)) ≡ some n) × (length run ≤ n)
unfolding long_opaque_run
long_opaque_run_complete before run after tokens digit letter long =
    let start = run_over no_run before in
    let end = run_over start run in
    let sound =
      run_over-IsSound start run (run_over-IsSound no_run before (λ d a. cc, λ l. ground arith)) in
    let (current, has_digit, has_alpha) = counts start run tokens in
    let noted : end.current ≤ end.longest =
      sound.0 (has_digit (ground arith)) (has_alpha (ground arith)) in
    let grown = longest_grows end after in
    let final : run_over no_run (before ++ (run ++ after)) ≡ run_over end after =
      run_over-append no_run before (run ++ after) ∙ run_over-append start run after in
    let whole = run_over-IsSound end after sound in
    (
      (run_over end after).longest,
      reported _ final whole (omega (arith, current, noted, grown, long)),
      omega (arith, current, noted, grown),
    )
  where
    reported :
        (r : Run)
        → run_over no_run (before ++ (run ++ after)) ≡ r
        → IsSound r
        → 24 ≤ r.longest
        → long_opaque_run (before ++ (run ++ after)) ≡ some r.longest
    reported r e h l =
        let both : r.run_had_both ≡ true = h.1 (omega arith) in
        let reaches : leb token_run_len r.longest ≡ true = ground arith in
        rw (long_opaque_run, e, both, reaches) refl
