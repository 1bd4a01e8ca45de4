-- ===== src/Runner/Changes.antt =====
-- crates/fabric-runner/src/directory.rs: which records count, and which hosts are reported as changed.
use forgewire_fabric.Prelude.{
  filter-true, filter-false, ◌≡◌, refl, sym, ap, ◌∙◌, ◌⊎◌, inl, inr, true, false, Option, none,
  some, List, [], ◌∷◌, arith, Text, text_eq, text_eq_self, text_eq_sound, any, filter, Bool-cases,
  if◌then◌else◌,
}
use forgewire_fabric.Prelude.TextMaps.{get, get-insert}
use forgewire_fabric.Runner.Directory.{
  DirectoryEntry, Observed, NodeDirectory, entry_of, Verdict, skipped, stored, judge, relevant,
  apply, report, merge,
}

-- One step of the loop, for a record that counts and for one that does not.
abbrev after : Text → Observed → List Observed → NodeDirectory → NodeDirectory × List Text
after self o observed entries =
    let verdict = judge (get o.hostname entries) o in
    let rest = merge (apply verdict o entries) observed self in (rest.0, report verdict o rest.1)

pub merge-nil : (self : Text) (entries : NodeDirectory) → merge entries [] self ≡ (entries, [])
unfolding merge
merge-nil self entries = refl

pub merge-relevant :
    (self : Text) (o : Observed) (observed : List Observed) (entries : NodeDirectory)
    → relevant self o ≡ true
    → merge entries (o ∷ observed) self ≡ after self o observed entries
unfolding merge
merge-relevant self o observed entries e = rw e refl

merge-irrelevant :
    (self : Text) (o : Observed) (observed : List Observed) (entries : NodeDirectory)
    → relevant self o ≡ false
    → merge entries (o ∷ observed) self ≡ merge entries observed self
unfolding merge
merge-irrelevant self o observed entries e = rw e refl

-- Records that are not signed, or that are of the node itself, have no influence.
pub merge-filter :
    (self : Text) (observed : List Observed) (entries : NodeDirectory)
    → merge entries observed self ≡ merge entries (filter (relevant self) observed) self
merge-filter self [] entries = refl
merge-filter self (o ∷ observed) entries = elim (Bool-cases (relevant self o)) [
  | inl e ↦
      let verdict = judge (get o.hostname entries) o in
      merge-relevant self o observed entries e
      ∙ (ap (λ r. (r.0, report verdict o r.1))
            (merge-filter self observed (apply verdict o entries))
          ∙ (sym (merge-relevant self o (filter (relevant self) observed) entries e)
              ∙ ap (λ os. merge entries os self) (sym (filter-true (relevant self) o observed e))))
  | inr e ↦
      merge-irrelevant self o observed entries e
      ∙ (merge-filter self observed entries
          ∙ ap (λ os. merge entries os self) (sym (filter-false (relevant self) o observed e)))
]

abbrev pub address_in : Option DirectoryEntry → Option Text
address_in none = none
address_in (some e) = some e.ip

abbrev pub address : Text → NodeDirectory → Option Text
address h entries = address_in (get h entries)

kept_address :
    (o : Observed) (found : Option DirectoryEntry)
    → stored false ≡ judge found o
    → address_in found ≡ some o.source
kept_address o none same = cc
kept_address o (some e) same = elim (Bool-cases (text_eq e.ip o.source)) [
  | inl h ↦ ap some (text_eq_sound e.ip o.source h)
  | inr h ↦ ground arith
]

-- What a verdict does to the address of a host.
apply-address :
    (o : Observed) (entries : NodeDirectory) (h : Text) (v : Verdict)
    → v ≡ judge (get o.hostname entries) o
    → any (text_eq h) (report v o []) ≡ false
    → address h (apply v o entries) ≡ address h entries
apply-address o entries h skipped same quiet = refl
apply-address o entries h (stored true) same quiet =
    ap address_in (get-insert o.hostname h (entry_of o) entries)
    ∙ ap (λ b. address_in (if b then some (entry_of o) else get h entries))
        (differ (Bool-cases (text_eq o.hostname h)))
  where
    differ :
        (text_eq o.hostname h ≡ true) ⊎ (text_eq o.hostname h ≡ false)
        → text_eq o.hostname h ≡ false
    differ (inl e) =
        let back : text_eq h o.hostname ≡ true =
          ap (text_eq h) (text_eq_sound o.hostname h e) ∙ text_eq_self h in
        ground arith
    differ (inr e) = e
apply-address o entries h (stored false) same quiet =
    ap address_in (get-insert o.hostname h (entry_of o) entries)
    ∙ by_key (Bool-cases (text_eq o.hostname h))
  where
    by_key :
        (text_eq o.hostname h ≡ true) ⊎ (text_eq o.hostname h ≡ false)
        → address_in (if text_eq o.hostname h then some (entry_of o) else get h entries)
          ≡ address_in (get h entries)
    by_key (inl e) = rw e (
        sym (kept_address o (get o.hostname entries) same)
        ∙ ap (λ k. address_in (get k entries)) (text_eq_sound o.hostname h e))
    by_key (inr e) = rw e refl

report-quiet :
    (o : Observed) (h : Text) (v : Verdict) (changed : List Text)
    → any (text_eq h) (report v o changed) ≡ false
    → (any (text_eq h) (report v o []) ≡ false) × (any (text_eq h) changed ≡ false)
report-quiet o h skipped changed k = (refl, k)
report-quiet o h (stored true) changed k = (ground arith, ground arith)
report-quiet o h (stored false) changed k = (refl, k)

-- A host that is not reported as changed has the address it had.
pub merge_reports_changes :
    (self : Text) (observed : List Observed) (entries : NodeDirectory) (h : Text)
    → any (text_eq h) (merge entries observed self).1 ≡ false
    → address h (merge entries observed self).0 ≡ address h entries
merge_reports_changes self [] entries h k = ap (λ r. address h r.0) (merge-nil self entries)
merge_reports_changes self (o ∷ observed) entries h k = elim (Bool-cases (relevant self o)) [
  | inl e ↦
      let verdict = judge (get o.hostname entries) o in
      let quiet =
        report-quiet o h verdict (merge (apply verdict o entries) observed self).1
          (sym (ap (λ r. any (text_eq h) r.1) (merge-relevant self o observed entries e)) ∙ k) in
      ap (λ r. address h r.0) (merge-relevant self o observed entries e)
      ∙ (merge_reports_changes self observed (apply verdict o entries) h quiet.1
          ∙ apply-address o entries h verdict refl quiet.0)
  | inr e ↦
      ap (λ r. address h r.0) (merge-irrelevant self o observed entries e)
      ∙ merge_reports_changes self observed entries h
          (sym (ap (λ r. any (text_eq h) r.1) (merge-irrelevant self o observed entries e)) ∙ k)
]
