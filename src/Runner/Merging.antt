-- ===== src/Runner/Merging.antt =====
-- crates/fabric-runner/src/directory.rs: what a batch of records makes of the directory.
use forgewire_fabric.Prelude.{
  ℕ, ◌≡◌, refl, ap, ◌∙◌, ◌⊎◌, inl, inr, true, false, Option, none, some, List, [], ◌∷◌, arith, All,
  Exists, Text, text_eq, text_eq_sound, Bool-cases, if◌then◌else◌,
}
use forgewire_fabric.Prelude.TextMaps.{get, remove, get-insert, get-remove}
use forgewire_fabric.Runner.Directory.{
  DirectoryEntry, Observed, NodeDirectory, entry_of, Verdict, skipped, stored, judge, relevant,
  apply, merge, remove_all, expire, directory_tick,
}

-- Entries stand under their host names, are of other nodes, and have a source S.
abbrev pub IsKept : (DirectoryEntry → Type 0) → Text → Option DirectoryEntry → Text → Type 0
IsKept S self none h = Unit
IsKept S self (some e) h = (e.hostname ≡ h) × (text_eq e.node_id self ≡ false) × S e

abbrev pub IsSound : (DirectoryEntry → Type 0) → Text → NodeDirectory → Type 0
IsSound S self entries = (h : Text) → IsKept S self (get h entries) h

-- An entry that was there before, or that a record of the batch made whose signature holds.
abbrev pub HasSource : NodeDirectory → List Observed → DirectoryEntry → Type 0
HasSource before observed e =
    (get e.hostname before ≡ some e)
    ⊎ Exists (λ o. (o.sig_valid ≡ true) × (e ≡ entry_of o)) observed

module _ (S : DirectoryEntry → Type 0) (self : Text) where
  abbrev Sourced : List Observed → Type 0
  Sourced = All (λ o. o.sig_valid ≡ true → S (entry_of o))

  apply-IsSound :
      (o : Observed) (entries : NodeDirectory) (v : Verdict)
      → text_eq o.node_id self ≡ false
      → S (entry_of o)
      → IsSound S self entries
      → IsSound S self (apply v o entries)
  apply-IsSound o entries skipped r f s h = s h
  apply-IsSound o entries (stored b) r f s h =
      rw (get-insert o.hostname h (entry_of o) entries) (by_key (Bool-cases (text_eq o.hostname h)))
    where
      by_key :
          (text_eq o.hostname h ≡ true) ⊎ (text_eq o.hostname h ≡ false)
          → IsKept S self (if text_eq o.hostname h then some (entry_of o) else get h entries) h
      by_key (inl e) = rw e (text_eq_sound o.hostname h e, r, f)
      by_key (inr e) = rw e (s h)

  relevant_sound :
      (o : Observed)
      → relevant self o ≡ true
      → (o.sig_valid ≡ true) × (text_eq o.node_id self ≡ false)
  relevant_sound o h = (ground arith, ground arith)

  merge-IsSound :
      (observed : List Observed) (entries : NodeDirectory)
      → Sourced observed
      → IsSound S self entries
      → IsSound S self (merge entries observed self).0
  unfolding merge
  merge-IsSound [] entries f s = s
  merge-IsSound (o ∷ observed) entries f s = elim (Bool-cases (relevant self o)) [
    | inl e ↦
        let (signed, other) = relevant_sound o e in
        rw e (
          merge-IsSound observed (apply (judge (get o.hostname entries) o) o entries) f.1
            (apply-IsSound o entries (judge (get o.hostname entries) o) other (f.0 signed) s))
    | inr e ↦ rw e (merge-IsSound observed entries f.1 s)
  ]

  remove-IsSound :
      (k : Text) (entries : NodeDirectory)
      → IsSound S self entries
      → IsSound S self (remove k entries)
  remove-IsSound k entries s h = rw (get-remove k h entries) (by_key (Bool-cases (text_eq k h)))
    where
      by_key :
          (text_eq k h ≡ true) ⊎ (text_eq k h ≡ false)
          → IsKept S self (if text_eq k h then none else get h entries) h
      by_key (inl e) = rw e tt
      by_key (inr e) = rw e (s h)

  remove_all-IsSound :
      (dead : List Text) (entries : NodeDirectory)
      → IsSound S self entries
      → IsSound S self (remove_all dead entries)
  remove_all-IsSound [] entries s = s
  remove_all-IsSound (k ∷ dead) entries s =
      remove_all-IsSound dead (remove k entries) (remove-IsSound k entries s)

-- What a batch can be the source of.
batch_sources :
    (before : NodeDirectory) (observed : List Observed)
    → All (λ o. o.sig_valid ≡ true → HasSource before observed (entry_of o)) observed
batch_sources before observed = go observed (λ o h. h)
  where
    go :
        (rest : List Observed)
        → ((e : DirectoryEntry)
            → Exists (λ o. (o.sig_valid ≡ true) × (e ≡ entry_of o)) rest
            → Exists (λ o. (o.sig_valid ≡ true) × (e ≡ entry_of o)) observed)
        → All (λ o. o.sig_valid ≡ true → HasSource before observed (entry_of o)) rest
    go [] k = tt
    go (o ∷ rest) k = (λ s. inr (k (entry_of o) (inl (s, refl))), go rest (λ e x. k e (inr x)))

-- A directory whose entries stand under their names is a source of all of them.
kept_sources :
    (self : Text) (before : NodeDirectory) (observed : List Observed)
    → IsSound (λ e. Unit) self before
    → IsSound (HasSource before observed) self before
kept_sources self before observed s h = go (get h before) refl (s h)
  where
    go :
        (o : Option DirectoryEntry)
        → get h before ≡ o
        → IsKept (λ e. Unit) self o h
        → IsKept (HasSource before observed) self o h
    go none is k = tt
    go (some e) is k = (k.0, k.1, inl (ap (λ j. get j before) k.0 ∙ is))

-- If every host is looked up to an entry of its name and of another node than this one, a cycle of
-- the directory keeps it so, and each entry afterwards was there before, under its name, or was made
-- from a record of the batch whose signature holds.
pub directory_tick-IsSound :
    (self : Text) (observed : List Observed) (now cutoff : ℕ) (entries : NodeDirectory)
    → IsSound (λ e. Unit) self entries
    → IsSound (HasSource entries observed) self (directory_tick entries observed self now cutoff).0
unfolding directory_tick expire
directory_tick-IsSound self observed now cutoff entries s =
    let S = HasSource entries observed in
    remove_all-IsSound S self (expire now cutoff (merge entries observed self).0).1
      (merge entries observed self).0
      (merge-IsSound S self observed entries (batch_sources entries observed)
        (kept_sources self entries observed s))
