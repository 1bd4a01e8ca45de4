-- ===== src/Hub/Mutation/Tests.antt =====
-- A change of one setting over a register in memory.
use forgewire_fabric.Prelude.{
  ℕ, ◌≡◌, refl, ap, Bool, ◌&&◌, true, false, Option, some, Text, text, ==_iff, if◌then◌else◌,
}
use forgewire_fabric.Prelude.Int.{ℤ, pos, negsuc, suc_i64, ltb_ℤ, leb_ℤ}
use forgewire_fabric.Prelude.Results.{okay-injective, Result, err, okay}
use forgewire_fabric.Prelude.Json.{Json, number, scalar, obj, end, field, string_value}
use forgewire_fabric.Settings.{
  lookup, pointer, merge_value, merge_fields, set_pointer, assign, derive_read_only,
}
use forgewire_fabric.Settings.Validation.{
  Numbers, Documents, schema_for_path, validate_value, validate_overlay, validate_entries,
  validate_entry, schema_paths,
}
use forgewire_fabric.Settings.Snapshot.{SettingsSnapshot, new_snapshot, set_hub}
use forgewire_fabric.Settings.Changes.{diff, import_hub}
use forgewire_fabric.Hub.Store.{StoreError, conflict}
use forgewire_fabric.Hub.Mutation.{SettingsDocument, Calls, eq_ℤ, prepare, mutate}
use forgewire_fabric.Hub.Mutation.Atomic.{IsRegister, IsAtomic, mutate-IsAtomic}

abbrev numbers : Numbers ℤ
numbers = record {
  num_eq = λ a b. leb_ℤ a b && leb_ℤ b a;
  is_integer = λ n. true;
  num_ltb = ltb_ℤ;
  num_leb = leb_ℤ;
}

abbrev one : Text → Json ℤ → Json ℤ
one k v = obj (field k v end)

abbrev limit : ℤ → Json ℤ
limit n = one (text "limit") (scalar (number n))

abbrev documents : Documents ℤ
documents = record {
  defaults = okay (limit (pos 1));
  schema = okay (
      one (text "properties")
        (one (text "limit") (one (text "type") (string_value (text "integer")))));
}

abbrev World : Type 0
World = ℤ × Json ℤ

abbrev swapped : Bool → ℤ → Json ℤ → World → Result StoreError (SettingsDocument ℤ) × World
swapped true r v w = (okay (record { revision = suc_i64 r; value = v }), (suc_i64 r, v))
swapped false r v w = (err (conflict (text "revision")), w)

-- A register, with an audit log that takes entries or not.
abbrev calls : Bool → Calls World ℤ
calls takes = record {
  get_document = λ w. (okay (record { revision = w.0; value = w.1 }), w);
  put_document = λ r v actor now w. swapped (eq_ℤ w.0 r) r v w;
  append_audit = λ actor r changes w. ((if takes then okay tt else err (text "disk full")), w);
  utc_now = λ w. text "now";
}

eq_ℤ_sound : (a b : ℤ) → eq_ℤ a b ≡ true → a ≡ b
eq_ℤ_sound (pos m) (pos n) h = ap pos ((==_iff m n).0 h)
eq_ℤ_sound (pos m) (negsuc n) h = cc
eq_ℤ_sound (negsuc m) (pos n) h = cc
eq_ℤ_sound (negsuc m) (negsuc n) h = ap negsuc ((==_iff m n).0 h)

swapped_okay :
    (b : Bool) (r : ℤ) (v : Json ℤ) (w : World) (d : SettingsDocument ℤ)
    → (swapped b r v w).0 ≡ okay d
    → (b ≡ true) × ((swapped b r v w).1 ≡ (suc_i64 r, v))
swapped_okay true r v w d h = (refl, refl)
swapped_okay false r v w d h = cc

value_read :
    (w : World) (d : SettingsDocument ℤ)
    → Path
        (Result StoreError (SettingsDocument ℤ))
        (okay (record { revision = w.0; value = w.1 }))
        (okay d)
    → w.1 ≡ d.value
value_read w d h = ap (λ d. d.value) (okay-injective _ d h)

register : (takes : Bool) → IsRegister (calls takes) (λ w. w)
register takes = record {
  reads = λ w. refl;
  says = value_read;
  swaps = λ r v actor now w d h.
      let done = swapped_okay (eq_ℤ w.0 r) r v w d h in (eq_ℤ_sound w.0 r done.0, done.1);
  logs = λ actor r changes w. refl;
}

abbrev start : World
start = (pos 3, limit (pos 7))

abbrev change : Bool → World → Option (Result (ℕ × Text) (SettingsSnapshot ℤ)) × World
change takes =
    mutate numbers documents (calls takes) (text "ann") (text "limit") (pos 3)
      (some (scalar (number (pos 9))))

stored : (change true start).1 ≡ (pos 4, limit (pos 9))
unfolding mutate prepare new_snapshot validate_overlay validate_entries validate_entry
    validate_value schema_for_path schema_paths lookup pointer merge_value merge_fields
    derive_read_only assign set_hub set_pointer import_hub diff
stored = refl

rolled_back : (change false start).1 ≡ (pos 5, limit (pos 7))
unfolding mutate prepare new_snapshot validate_overlay validate_entries validate_entry
    validate_value schema_for_path schema_paths lookup pointer merge_value merge_fields
    derive_read_only assign set_hub set_pointer import_hub diff
rolled_back = refl

mutate-IsAtomic_example :
    IsAtomic numbers documents
      (calls true)
      (λ w. w)
      (text "ann")
      (text "limit")
      (pos 3)
      (some (scalar (number (pos 9))))
      start
      (change true start)
mutate-IsAtomic_example =
    mutate-IsAtomic numbers documents (calls true) (λ w. w) (text "ann") (text "limit") (pos 3)
      (some (scalar (number (pos 9)))) start (register true)
