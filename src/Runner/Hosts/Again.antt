-- ===== src/Runner/Hosts/Again.antt =====
-- crates/fabric-runner/src/directory.rs: writing the managed block once more changes nothing.
use mathlib.Core.List.{reverse, reverse-reverse, append_assoc, append-nil}
use forgewire_fabric.Prelude.{
  ◌≡◌, refl, sym, ap, ◌∙◌, Bool, true, false, not, ◌&&◌, inl, inr, none, some, List, [], ◌∷◌, ◌++◌,
  map, arith, Text, text_eq, text_eq_self, all, ◌==◌, Bool-cases, if◌then◌else◌,
}
use forgewire_fabric.Runner.Directory.{NodeDirectory}
use forgewire_fabric.Runner.Hosts.{
  block_begin, block_end, HostLine, host_lines, render_line, unlines, render_block, lines,
  trim_start, begins_block, foreign, is_blank, drop_blanks, pop_blanks, join_lines, ended,
  splice_block, reconcile,
}
use forgewire_fabric.Runner.Hosts.Lines.{is_line, lines-unlines, all-reverse, lines-clean}

abbrev outside : Text → Bool
outside line = not (begins_block line)

-- What holds of all lines holds of those that are kept, and none of these begins a block.
kept_line :
    (p : Text → Bool) (b : Bool) (l : Text) (ls : List Text)
    → begins_block l ≡ false
    → all p (l ∷ ls) ≡ true
    → all (λ l. p l && outside l) (foreign true ls) ≡ true
    → all (λ l. p l && outside l) (foreign false ls) ≡ true
    → all
        (λ l. p l && outside l)
        (if b
          then (if text_eq (trim_start l) block_end then foreign false ls else foreign true ls)
          else l ∷ foreign false ls)
      ≡ true
kept_line p true l ls e h skip keep = elim (Bool-cases (text_eq (trim_start l) block_end)) [
  | inl f ↦ rw f keep
  | inr f ↦ rw f skip
]
kept_line p false l ls e h skip keep = rw (keep, e) (ground arith)

all-foreign :
    (p : Text → Bool) (b : Bool) (ls : List Text)
    → all p ls ≡ true
    → all (λ l. p l && outside l) (foreign b ls) ≡ true
all-foreign p b [] h = refl
all-foreign p b (l ∷ ls) h = elim (Bool-cases (begins_block l)) [
  | inl e ↦ rw e (all-foreign p true ls (ground arith))
  | inr e ↦ rw e (
      kept_line p b l ls e h (all-foreign p true ls (ground arith))
        (all-foreign p false ls (ground arith)))
]

all-drop_blanks :
    (p : Text → Bool) (ls : List Text) → all p ls ≡ true → all p (drop_blanks ls) ≡ true
all-drop_blanks p [] h = refl
all-drop_blanks p (l ∷ ls) h = elim (Bool-cases (is_blank l)) [
  | inl e ↦ rw e (all-drop_blanks p ls (ground arith))
  | inr e ↦ rw e h
]

all-pop_blanks : (p : Text → Bool) (ls : List Text) → all p ls ≡ true → all p (pop_blanks ls) ≡ true
all-pop_blanks p ls h =
    all-reverse p (drop_blanks (reverse ls)) (all-drop_blanks p (reverse ls) (all-reverse p ls h))

drop_blanks-drop_blanks : (ls : List Text) → drop_blanks (drop_blanks ls) ≡ drop_blanks ls
drop_blanks-drop_blanks [] = refl
drop_blanks-drop_blanks (l ∷ ls) = elim (Bool-cases (is_blank l)) [
  | inl e ↦ rw e (drop_blanks-drop_blanks ls)
  | inr e ↦ rw (e, e) refl
]

pop_blanks-pop_blanks : (ls : List Text) → pop_blanks (pop_blanks ls) ≡ pop_blanks ls
pop_blanks-pop_blanks ls =
    ap (λ m. reverse (drop_blanks m)) (reverse-reverse (drop_blanks (reverse ls)))
    ∙ ap reverse (drop_blanks-drop_blanks (reverse ls))

-- Lines that end in one that is not blank, joined and ended, are the lines with their line feeds.
join-unlines : (l : Text) (ls : List Text) → join_lines (l ∷ ls) ++ b'\n' ∷ [] ≡ unlines (l ∷ ls)
join-unlines l [] = refl
join-unlines l (m ∷ ls) =
    append_assoc l (b'\n' ∷ join_lines (m ∷ ls)) (b'\n' ∷ [])
    ∙ ap (λ t. l ++ b'\n' ∷ t) (join-unlines m ls)

ended-join : (ls : List Text) → pop_blanks ls ≡ ls → ended (join_lines ls) ≡ unlines ls
ended-join [] h = refl
ended-join ([] ∷ []) h = cc
ended-join ((c ∷ l) ∷ []) h = join-unlines (c ∷ l) []
ended-join ([] ∷ m ∷ ls) h = join-unlines [] (m ∷ ls)
ended-join ((c ∷ l) ∷ m ∷ ls) h = join-unlines (c ∷ l) (m ∷ ls)

-- Lines outside of blocks are kept as they are, and a block is passed over.
foreign-append :
    (ls rest : List Text)
    → all outside ls ≡ true
    → foreign false (ls ++ rest) ≡ ls ++ foreign false rest
foreign-append [] rest h = refl
foreign-append (l ∷ ls) rest h =
    let e : begins_block l ≡ false = ground arith in
    rw (e, foreign-append ls rest (ground arith)) refl

-- No line of the block but its last one ends it.
abbrev pub ends_nothing : HostLine → Bool
ends_nothing l = is_line (render_line l) && not (text_eq (trim_start (render_line l)) block_end)

either_way : (b : Bool) → Path (List Text) (if b then [] else []) []
either_way true = refl
either_way false = refl

foreign-hosts :
    (hosts : List HostLine)
    → all ends_nothing hosts ≡ true
    → foreign true (map render_line hosts ++ block_end ∷ []) ≡ []
foreign-hosts [] h = refl
foreign-hosts (l ∷ hosts) h =
    let e : text_eq (trim_start (render_line l)) block_end ≡ false = ground arith in
    rw (e, foreign-hosts hosts (ground arith)) (either_way (begins_block (render_line l)))

hosts-clean :
    (hosts : List HostLine)
    → all ends_nothing hosts ≡ true
    → all is_line (map render_line hosts ++ block_end ∷ []) ≡ true
hosts-clean [] h = refl
hosts-clean (l ∷ hosts) h = ground (arith, hosts-clean hosts)

module _ (p q : Text → Bool) where
  both_left : (ls : List Text) → all (λ l. p l && q l) ls ≡ true → all p ls ≡ true
  both_left [] h = refl
  both_left (l ∷ ls) h = ground (arith, both_left ls)

  both_right : (ls : List Text) → all (λ l. p l && q l) ls ≡ true → all q ls ≡ true
  both_right [] h = refl
  both_right (l ∷ ls) h = ground (arith, both_right ls)

module _ (existing : Text) (hosts : List HostLine)
    (plain : all (λ c. not (c == b'\r')) existing ≡ true)
    (harmless : all ends_nothing hosts ≡ true) where
  abbrev kept : List Text
  kept = pop_blanks (foreign false (lines existing))

  abbrev managed : List Text
  managed = block_begin ∷ (map render_line hosts ++ block_end ∷ [])

  kept-clean : all (λ l. is_line l && outside l) kept ≡ true
  kept-clean =
      all-pop_blanks (λ l. is_line l && outside l) (foreign false (lines existing))
        (all-foreign is_line false (lines existing) (lines-clean [] existing refl plain))

  spliced : splice_block existing (unlines managed) ≡ unlines kept ++ unlines managed
  unfolding splice_block
  spliced =
      ap (λ t. t ++ unlines managed)
        (ended-join kept (pop_blanks-pop_blanks (foreign false (lines existing))))

  lines_spliced : lines (splice_block existing (unlines managed)) ≡ kept ++ managed
  lines_spliced =
      ap lines spliced
      ∙ (lines-unlines kept (unlines managed) (both_left is_line outside kept kept-clean)
          ∙ ap (λ m. kept ++ m)
              (ap lines (sym (append-nil (unlines managed)))
                ∙ (lines-unlines managed [] (hosts-clean hosts harmless) ∙ append-nil managed)))

  kept_again : pop_blanks (foreign false (lines (splice_block existing (unlines managed)))) ≡ kept
  kept_again =
      ap (λ ls. pop_blanks (foreign false ls)) lines_spliced
      ∙ (ap pop_blanks (foreign-append kept managed (both_right is_line outside kept kept-clean))
          ∙ (ap (λ ls. pop_blanks (kept ++ ls)) (foreign-hosts hosts harmless)
              ∙ (ap pop_blanks (append-nil kept)
                  ∙ pop_blanks-pop_blanks (foreign false (lines existing)))))

-- Splicing the same block once more changes nothing, if the text has no carriage returns and no
-- rendered host has a line end or reads as the end of the block.
pub splice_block-again :
    (existing : Text) (hosts : List HostLine)
    → all (λ c. not (c == b'\r')) existing ≡ true
    → all ends_nothing hosts ≡ true
    → splice_block (splice_block existing (render_block hosts)) (render_block hosts)
      ≡ splice_block existing (render_block hosts)
unfolding splice_block render_block
splice_block-again existing hosts plain harmless =
    ap (λ ls. ended (join_lines ls) ++ render_block hosts)
      (kept_again existing hosts plain harmless)

-- After the hosts file has been brought up to date, doing so again writes nothing, if it had no
-- carriage returns and no host line of the directory has a line end or reads as the end of the
-- block.
pub reconcile_settles :
    (existing : Text) (directory : NodeDirectory)
    → all (λ c. not (c == b'\r')) existing ≡ true
    → all ends_nothing (host_lines directory) ≡ true
    → reconcile (splice_block existing (render_block (host_lines directory))) directory ≡ none
unfolding reconcile
reconcile_settles existing directory plain harmless =
    let block = render_block (host_lines directory) in
    ap (λ u. if text_eq u (splice_block existing block) then none else some u)
      (splice_block-again existing (host_lines directory) plain harmless)
    ∙ ap (λ b. if b then none else some (splice_block existing block))
        (text_eq_self (splice_block existing block))
