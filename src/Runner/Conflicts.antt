-- ===== src/Runner/Conflicts.antt =====
-- crates/fabric-runner/src/directory.rs: which of several addresses a host is left with.
use forgewire_fabric.Prelude.{
  ℕ, ◌≤◌, ◌<◌, ◌≡◌, refl, ap, ◌∙◌, Bool, true, false, not, ◌&&◌, some, List, [], ◌∷◌, arith, Text,
  text_eq, text_eq_self, ltb, if◌then◌else◌,
}
use forgewire_fabric.Prelude.TextMaps.{get, insert, get-insert}
use forgewire_fabric.Runner.Directory.{
  DirectoryEntry, Observed, NodeDirectory, entry_of, stored, judge, relevant, apply, merge,
}
use forgewire_fabric.Runner.Changes.{merge-nil, merge-relevant, address, address_in}

-- A signed record of a node for a host.
abbrev pub seen : Text → Text → Text → ℕ → ℕ → Observed
seen node_id hostname source ts now = record {
  node_id = node_id;
  hostname = hostname;
  ts = ts;
  source = source;
  sig_valid = true;
  now = now;
}

-- Where a record is stored, the loop goes on with its entry.
settle :
    (self : Text) (o : Observed) (os : List Observed) (entries : NodeDirectory) (b : Bool)
    → relevant self o ≡ true
    → judge (get o.hostname entries) o ≡ stored b
    → (merge entries (o ∷ os) self).0 ≡ (merge (insert o.hostname (entry_of o) entries) os self).0
settle self o os entries b e j =
    ap (λ r. r.0) (merge-relevant self o os entries e)
    ∙ ap (λ v. (merge (apply v o entries) os self).0) j

get-inserted :
    (h : Text) (e : DirectoryEntry) (entries : NodeDirectory) → get h (insert h e entries) ≡ some e
get-inserted h e entries =
    get-insert h h e entries ∙ ap (λ b. if b then some e else get h entries) (text_eq_self h)

judged :
    (o : Observed) (e : DirectoryEntry) (entries : NodeDirectory)
    → judge (get o.hostname (insert o.hostname e entries)) o ≡ judge (some e) o
judged o e entries = ap (λ g. judge g o) (get-inserted o.hostname e entries)

-- A record may win over a newer one of another address: after records of one address with time
-- stamps `t1` and then `t2`, one of another address with a time stamp from `t2` on but before `t1`
-- moves the host there, if the records are not of the node itself.
pub older_record_moves :
    (self node h a b : Text) (t1 t2 t3 now : ℕ)
    → text_eq node self ≡ false
    → text_eq a b ≡ false
    → t2 ≤ t3
    → t3 < t1
    → address h
        (merge [] (seen node h a t1 now ∷ seen node h a t2 now ∷ seen node h b t3 now ∷ []) self).0
      ≡ some b
older_record_moves self node h a b t1 t2 t3 now n d l m =
    let first = seen node h a t1 now in
    let again = seen node h a t2 now in
    let moved = seen node h b t3 now in
    let counts : (true && not (text_eq node self)) ≡ true = rw n refl in
    let one : NodeDirectory = insert h (entry_of first) [] in
    let two : NodeDirectory = insert h (entry_of again) one in
    let three : NodeDirectory = insert h (entry_of moved) two in
    let same : judge (some (entry_of first)) again ≡ stored false = rw (text_eq_self a) refl in
    let newer : judge (some (entry_of again)) moved ≡ stored true =
      let late : ltb t3 t2 ≡ false = ground arith in rw (d, late) refl in
    ap (address h) (
      settle self first (again ∷ moved ∷ []) [] true counts refl
      ∙ (settle self again (moved ∷ []) one false counts (judged again (entry_of first) [] ∙ same)
          ∙ (settle self moved [] two true counts (judged moved (entry_of again) one ∙ newer)
              ∙ ap (λ r. r.0) (merge-nil self three))))
    ∙ ap address_in (get-inserted h (entry_of moved) two)
