-- ===== src/Audit/Order.antt =====
-- The bytes of an object do not depend on the order in which its entries were put in.
use forgewire_fabric.Prelude.{
  ◌≡◌, ◌≢◌, refl, ap, ◌∙◌, true, false, List, [], ◌∷◌, ◌++◌, map, arith, Text,
}
use forgewire_fabric.Prelude.Json.{Json, obj, Fields, field}
use forgewire_fabric.Audit.{
  Bytes, Crates, text_leb, Entry, insert_entry, sort_entries, joined, write_entry, write_canonical,
  write_fields, audit_canonical_json,
}

-- Two field lists that differ in the order of their entries only, where keys differ.
pub data Reordered {N : Type 0} : Fields N → Fields N → Type 0 where
  same : (fs : Fields N) → Reordered fs fs
  swap :
      (k l : Text) (v w : Json N) (fs : Fields N)
      → k ≢ l
      → Reordered (field k v (field l w fs)) (field l w (field k v fs))
  under :
      (k : Text) (v : Json N) {fs gs : Fields N}
      → Reordered fs gs
      → Reordered (field k v fs) (field k v gs)
  after : {fs gs hs : Fields N} → Reordered fs gs → Reordered gs hs → Reordered fs hs

leb_antisym : (s t : Bytes) → text_leb s t ≡ true → text_leb t s ≡ true → s ≡ t
leb_antisym [] [] h k = refl
leb_antisym [] (d ∷ t) h k = cc
leb_antisym (c ∷ s) [] h k = cc
leb_antisym (c ∷ s) (d ∷ t) h k = ground (arith, leb_antisym s t)

leb_total : (s t : Bytes) → text_leb s t ≡ false → text_leb t s ≡ true
leb_total [] t h = cc
leb_total (c ∷ s) [] h = refl
leb_total (c ∷ s) (d ∷ t) h = ground (arith, leb_total s t)

leb_trans : (s t u : Bytes) → text_leb s t ≡ true → text_leb t u ≡ true → text_leb s u ≡ true
leb_trans [] t u h k = refl
leb_trans (c ∷ s) [] u h k = cc
leb_trans (c ∷ s) (d ∷ t) [] h k = cc
leb_trans (c ∷ s) (d ∷ t) (e ∷ u) h k = ground (arith, leb_trans s t u)

-- Two entries with different keys may be inserted in either order.
insert_comm :
    (e f : Entry) (es : List Entry)
    → e.0 ≢ f.0
    → insert_entry e (insert_entry f es) ≡ insert_entry f (insert_entry e es)
unfolding insert_entry
insert_comm e f [] ne = ground (arith, leb_antisym e.0 f.0, leb_total e.0 f.0, leb_total f.0 e.0)
insert_comm e f (g ∷ es) ne = ground (
  arith,
  insert_comm e f es ne,
  leb_antisym e.0 f.0,
  leb_total e.0 f.0,
  leb_total f.0 e.0,
  leb_total e.0 g.0,
  leb_total f.0 g.0,
  leb_trans e.0 f.0 g.0,
  leb_trans f.0 e.0 g.0,
)

module _ {N : Type 0} (crates : Crates N) where
  sort-Reordered :
      {fs gs : Fields N}
      → Reordered fs gs
      → sort_entries (write_fields crates fs) ≡ sort_entries (write_fields crates gs)
  unfolding sort_entries write_fields
  sort-Reordered (same fs) = refl
  sort-Reordered (swap k l v w fs ne) = insert_comm _ _ (sort_entries (write_fields crates fs)) ne
  sort-Reordered (under k v r) = ap (insert_entry (k, write_canonical crates v)) (sort-Reordered r)
  sort-Reordered (after r s) = sort-Reordered r ∙ sort-Reordered s

  -- Two objects whose entries are the same up to their order have the same canonical JSON, if no key
  -- is moved past an equal one.
  pub audit_canonical_json-Reordered :
      {fs gs : Fields N}
      → Reordered fs gs
      → audit_canonical_json crates (obj fs) ≡ audit_canonical_json crates (obj gs)
  unfolding audit_canonical_json write_canonical
  audit_canonical_json-Reordered r =
      ap (λ es. (b'{' ∷ joined (map (write_entry crates) es)) ++ b'}' ∷ []) (sort-Reordered r)
