-- ===== src/Settings/Changes.antt =====
-- crates/fabric-settings/src/lib.rs: the import of a document of the hub, with the list of changes.
use mathlib.Core.Path.{subst}
use forgewire_fabric.Prelude.{
  ◌≡◌, refl, sym, ap, ◌∙◌, Bool, true, false, Option, none, some, List, [], ◌∷◌, ◌++◌, map, Text,
  All, if◌then◌else◌,
}
use forgewire_fabric.Prelude.Int.{suc_i64}
use forgewire_fabric.Prelude.Results.{Result, okay, and_then, and_then-okay, okay-injective}
use forgewire_fabric.Prelude.Json.{
  null, Json, scalar, arr, obj, Fields, end, field, get_field, text_ltb, json_eq,
}
use forgewire_fabric.Settings.{SettingsError, or_null}
use forgewire_fabric.Settings.Validation.{Numbers, Documents, joined_path, sensitive_paths}
use forgewire_fabric.Settings.Snapshot.{SettingsSnapshot, is_in, new_snapshot}
use forgewire_fabric.Settings.Redaction.{mark, IsHidden, mark-IsHidden}

pub record SettingsChange (N : Type 0) : Type 0 where
  pub key : Text
  pub before : Json N
  pub after : Json N

-- What an import gives, if it does not panic.
abbrev pub Imported : Type 0 → Type 0
Imported N = Option (SettingsSnapshot N × List (SettingsChange N))

-- The changes below a key, which are reported in the order of the keys.
abbrev Keyed : Type 0 → Type 0
Keyed N = Text × List (SettingsChange N)

module _ {N : Type 0} where
  abbrev insert_keyed : Keyed N → List (Keyed N) → List (Keyed N)
  insert_keyed e [] = e ∷ []
  insert_keyed e (f ∷ fs) =
      let rest = insert_keyed e fs in if text_ltb f.0 e.0 then f ∷ rest else e ∷ f ∷ fs

  abbrev in_order : List (Keyed N) → List (Keyed N)
  in_order [] = []
  in_order (e ∷ es) = insert_keyed e (in_order es)

  abbrev all_changes : List (Keyed N) → List (SettingsChange N)
  all_changes [] = []
  all_changes (e ∷ es) = e.1 ++ all_changes es

module _ {N : Type 0} (num_eq : N → N → Bool) where
  -- A change at a path, where one of the values is not an object.
  abbrev leaf : Text → Json N → Json N → List (SettingsChange N)
  leaf prefix before after =
      if json_eq num_eq before after
      then []
      else record { key = prefix; before = before; after = after } ∷ []

  abbrev is_there : Option (Json N) → Bool
  is_there none = false
  is_there (some v) = true

  -- The keys that are only in the second object.
  abbrev added : Text → Fields N → Fields N → List (Keyed N)
  added prefix a end = []
  added prefix a (field k v b) =
      let rest = added prefix a b in
      if is_there (get_field k a)
      then rest
      else (k, leaf (joined_path prefix k) (scalar null) v) ∷ rest

  -- The recursion of `diff_values`, with the values as they are.
  unfoldable mutual
    pub diff : Text → Json N → Json N → List (SettingsChange N)
    diff prefix (scalar s) after = leaf prefix (scalar s) after
    diff prefix (arr xs) after = leaf prefix (arr xs) after
    diff prefix (obj a) (scalar s) = leaf prefix (obj a) (scalar s)
    diff prefix (obj a) (arr xs) = leaf prefix (obj a) (arr xs)
    diff prefix (obj a) (obj b) =
        let changes = all_changes (in_order (diff_fields prefix a b ++ added prefix a b)) in
        if json_eq num_eq (obj a) (obj b) then [] else changes

    pub diff_fields : Text → Fields N → Fields N → List (Keyed N)
    diff_fields prefix end b = []
    diff_fields prefix (field k v a) b =
        (k, diff (joined_path prefix k) v (or_null (get_field k b))) ∷ diff_fields prefix a b

module _ {N : Type 0} (numbers : Numbers N) (documents : Documents N) where
  -- A change as it is reported.
  abbrev pub hide : List Text → SettingsChange N → SettingsChange N
  hide paths c =
      if is_in numbers documents c.key paths
      then record { key = c.key; before = mark c.before; after = mark c.after }
      else c

  abbrev reported : List (SettingsChange N) → Result SettingsError (List (SettingsChange N))
  reported [] = okay []
  reported (c ∷ cs) =
      and_then (sensitive_paths numbers documents) (λ paths. okay (map (hide paths) (c ∷ cs)))

  -- Of two snapshots, of which the second may be a panic.
  abbrev with_changes :
      SettingsSnapshot N → Option (SettingsSnapshot N) → Result SettingsError (Imported N)
  with_changes x none = okay none
  with_changes x (some next) =
      and_then (reported (diff numbers.num_eq [] x.effective next.effective))
        (λ changes. okay (some (next, changes)))

  unfoldable pub import_hub : SettingsSnapshot N → Json N → Result SettingsError (Imported N)
  unfolding diff
  import_hub x hub =
      and_then (new_snapshot numbers documents (suc_i64 x.revision) hub x.repo) (with_changes x)

module _ {N : Type 0} (num_eq : N → N → Bool) where
  abbrev pub Differs : SettingsChange N → Type 0
  Differs c = json_eq num_eq c.before c.after ≡ false

  abbrev AllDiffer : List (Keyed N) → Type 0
  AllDiffer = All (λ e. All Differs e.1)

  both :
      (cs ds : List (SettingsChange N)) → All Differs cs → All Differs ds → All Differs (cs ++ ds)
  both [] ds h k = k
  both (c ∷ cs) ds h k = (h.0, both cs ds h.1 k)

  both_keyed : (es fs : List (Keyed N)) → AllDiffer es → AllDiffer fs → AllDiffer (es ++ fs)
  both_keyed [] fs h k = k
  both_keyed (e ∷ es) fs h k = (h.0, both_keyed es fs h.1 k)

  insert_keyed-AllDiffer :
      (e : Keyed N) (es : List (Keyed N))
      → All Differs e.1
      → AllDiffer es
      → AllDiffer (insert_keyed e es)
  insert_keyed-AllDiffer e [] h k = (h, tt)
  insert_keyed-AllDiffer e (f ∷ fs) h k =
      either (text_ltb f.0 e.0) (f ∷ insert_keyed e fs) (e ∷ f ∷ fs)
        (k.0, insert_keyed-AllDiffer e fs h k.1) (h, k)
    where
      either :
          (b : Bool) (es fs : List (Keyed N))
          → AllDiffer es
          → AllDiffer fs
          → AllDiffer (if b then es else fs)
      either true es fs h k = h
      either false es fs h k = k

  changes-AllDiffer : (es : List (Keyed N)) → AllDiffer es → All Differs (all_changes (in_order es))
  changes-AllDiffer es h = gathered (in_order es) (ordered es h)
    where
      ordered : (es : List (Keyed N)) → AllDiffer es → AllDiffer (in_order es)
      ordered [] h = tt
      ordered (e ∷ es) h = insert_keyed-AllDiffer e (in_order es) h.0 (ordered es h.1)

      gathered : (es : List (Keyed N)) → AllDiffer es → All Differs (all_changes es)
      gathered [] h = tt
      gathered (e ∷ es) h = both e.1 (all_changes es) h.0 (gathered es h.1)

  leaf-Differs : (prefix : Text) (v w : Json N) → All Differs (leaf num_eq prefix v w)
  leaf-Differs prefix v w = at (json_eq num_eq v w) refl
    where
      at :
          (b : Bool)
          → json_eq num_eq v w ≡ b
          → All Differs (if b then [] else record { key = prefix; before = v; after = w } ∷ [])
      at true e = tt
      at false e = (e, tt)

  unless_equal :
      (b : Bool) (cs : List (SettingsChange N))
      → All Differs cs
      → All Differs (if b then [] else cs)
  unless_equal true cs h = tt
  unless_equal false cs h = h

  added-AllDiffer : (prefix : Text) (a b : Fields N) → AllDiffer (added num_eq prefix a b)
  added-AllDiffer prefix a end = tt
  added-AllDiffer prefix a (field k v b) =
      either (is_there num_eq (get_field k a))
        (k, leaf num_eq (joined_path prefix k) (scalar null) v) (added num_eq prefix a b)
        (leaf-Differs (joined_path prefix k) (scalar null) v) (added-AllDiffer prefix a b)
    where
      either :
          (b : Bool) (e : Keyed N) (es : List (Keyed N))
          → All Differs e.1
          → AllDiffer es
          → AllDiffer (if b then es else e ∷ es)
      either true e es h k = k
      either false e es h k = (h, k)

  mutual
    unfolding diff

    diff-Differs : (prefix : Text) (v w : Json N) → All Differs (diff num_eq prefix v w)
    diff-Differs prefix (scalar s) w = leaf-Differs prefix (scalar s) w
    diff-Differs prefix (arr xs) w = leaf-Differs prefix (arr xs) w
    diff-Differs prefix (obj a) (scalar s) = leaf-Differs prefix (obj a) (scalar s)
    diff-Differs prefix (obj a) (arr xs) = leaf-Differs prefix (obj a) (arr xs)
    diff-Differs prefix (obj a) (obj b) =
        unless_equal (json_eq num_eq (obj a) (obj b))
          (all_changes (in_order (diff_fields num_eq prefix a b ++ added num_eq prefix a b)))
          (changes-AllDiffer (diff_fields num_eq prefix a b ++ added num_eq prefix a b) (
            both_keyed (diff_fields num_eq prefix a b) (added num_eq prefix a b)
              (diff_fields-AllDiffer prefix a b) (added-AllDiffer prefix a b)))

    diff_fields-AllDiffer :
        (prefix : Text) (a b : Fields N) → AllDiffer (diff_fields num_eq prefix a b)
    diff_fields-AllDiffer prefix end b = tt
    diff_fields-AllDiffer prefix (field k v a) b = (
      diff-Differs (joined_path prefix k) v (or_null (get_field k b)),
      diff_fields-AllDiffer prefix a b,
    )

module _ {N : Type 0} (numbers : Numbers N) (documents : Documents N) where
  -- A reported change is one of two different values, or of a sensitive setting, whose values are not
  -- shown.
  abbrev pub Reports : List Text → SettingsChange N → Type 0
  Reports paths c =
      (is_in numbers documents c.key paths ≡ false → Differs numbers.num_eq c)
      × (is_in numbers documents c.key paths ≡ true
          → IsHidden (some c.before) × IsHidden (some c.after))

  hide-Reports :
      (paths : List Text) (c : SettingsChange N)
      → Differs numbers.num_eq c
      → Reports paths (hide numbers documents paths c)
  hide-Reports paths c h = at (is_in numbers documents c.key paths) refl
    where
      at :
          (b : Bool)
          → is_in numbers documents c.key paths ≡ b
          → Reports paths (
              if b then record { key = c.key; before = mark c.before; after = mark c.after } else c)
      at true e = (λ f. cc, λ f. (mark-IsHidden c.before, mark-IsHidden c.after))
      at false e = (λ f. h, λ f. cc)

  hidden-Reports :
      (paths : List Text) (cs : List (SettingsChange N))
      → All (Differs numbers.num_eq) cs
      → All (Reports paths) (map (hide numbers documents paths) cs)
  hidden-Reports paths [] h = tt
  hidden-Reports paths (c ∷ cs) h = (hide-Reports paths c h.0, hidden-Reports paths cs h.1)

  reported-Reports :
      (paths : List Text) (cs ds : List (SettingsChange N))
      → sensitive_paths numbers documents ≡ okay paths
      → All (Differs numbers.num_eq) cs
      → reported numbers documents cs ≡ okay ds
      → All (Reports paths) ds
  reported-Reports paths [] ds p h l = subst (All (Reports paths)) (okay-injective [] ds l) tt
  reported-Reports paths (c ∷ cs) ds p h l =
      subst (All (Reports paths))
        (okay-injective (map (hide numbers documents paths) (c ∷ cs)) ds (
          sym (ap (λ o. and_then o (λ paths. okay (map (hide numbers documents paths) (c ∷ cs)))) p)
          ∙ l))
        (hidden-Reports paths (c ∷ cs) h)

  changes_of :
      (y next : SettingsSnapshot N) (cs ds : List (SettingsChange N))
      → Path (Result SettingsError (Imported N)) (okay (some (y, cs))) (okay (some (next, ds)))
      → cs ≡ ds
  changes_of y next cs ds h = cc

  with_changes-Reports :
      (x : SettingsSnapshot N) (o : Option (SettingsSnapshot N)) (next : SettingsSnapshot N)
      (paths : List Text) (changes : List (SettingsChange N))
      → sensitive_paths numbers documents ≡ okay paths
      → with_changes numbers documents x o ≡ okay (some (next, changes))
      → All (Reports paths) changes
  with_changes-Reports x none next paths changes p h = cc
  with_changes-Reports x (some y) next paths changes p h =
      let found = diff numbers.num_eq [] x.effective y.effective in
      let (cs, l, h1) =
        and_then-okay (reported numbers documents found) (λ cs. okay (some (y, cs)))
          (some (next, changes)) h in
      subst (All (Reports paths)) (changes_of y next cs changes h1) (
        reported-Reports paths found cs p (diff-Differs numbers.num_eq [] x.effective y.effective)
          l)

-- Of the changes that an import lists, those of sensitive settings show nothing but null or the
-- marker, and the two values of every other one differ.
pub import_hub-Reports :
    {N : Type 0} (numbers : Numbers N) (documents : Documents N) (x next : SettingsSnapshot N)
    (hub : Json N) (paths : List Text) (changes : List (SettingsChange N))
    → sensitive_paths numbers documents ≡ okay paths
    → import_hub numbers documents x hub ≡ okay (some (next, changes))
    → All (Reports numbers documents paths) changes
unfolding import_hub
import_hub-Reports numbers documents x next hub paths changes p h =
    let (o, made, h1) =
      and_then-okay (new_snapshot numbers documents (suc_i64 x.revision) hub x.repo)
        (with_changes numbers documents x) (some (next, changes)) h in
    with_changes-Reports numbers documents x o next paths changes p h1
