-- ===== src/Hub/Normal.antt =====
-- crates/fabric-hub/src/auth.rs: what normalize_roles makes of the roles of a new token.
use mathlib.Core.Path.{subst}
use forgewire_fabric.Prelude.{
  ◌≡◌, refl, sym, ap, ◌∙◌, ◌↔◌, inl, inr, ◌||◌, Bool, true, false, map, [], ◌∷◌, ◌++◌, arith, Text,
  text_eq, text_eq_iff, text_eq_self, text_eq_sound, Exists, any_iff, Bool-cases,
}
use forgewire_fabric.Prelude.Results.{
  Result, okay, and_then, Result-cases, okay-injective, err-okay,
}
use forgewire_fabric.Prelude.Json.{text_ltb}
use forgewire_fabric.Hub.Roles.{Roles, contains, valid_roles}
use forgewire_fabric.Hub.Authorities.{
  insert_text, sort_texts, normalize_role, unknown_role, collect_roles, normalize_roles,
}

abbrev pub Member : Text → Roles → Type 0
Member role = Exists (λ r. role ≡ r)

pub contains_iff : (role : Text) (roles : Roles) → (contains role roles ≡ true) ↔ Member role roles
contains_iff role = any_iff {P = λ r. role ≡ r} (text_eq role) (text_eq_iff role)

-- Each text stands before the next, so none is there twice.
abbrev below_first : Text → Roles → Bool
below_first role [] = true
below_first role (r ∷ roles) = text_ltb role r

abbrev pub Ascending : Roles → Type 0
Ascending [] = Unit
Ascending (role ∷ roles) = (below_first role roles ≡ true) × Ascending roles

ltb_total : (s t : Text) → text_ltb s t ≡ false → text_eq s t ≡ false → text_ltb t s ≡ true
ltb_total [] [] h ne = cc
ltb_total [] (d ∷ t) h ne = cc
ltb_total (c ∷ s) [] h ne = refl
ltb_total (c ∷ s) (d ∷ t) h ne = ground (arith, ltb_total s t)

below_first-insert :
    (x role : Text) (roles : Roles)
    → text_ltb x role ≡ true
    → below_first x roles ≡ true
    → below_first x (insert_text role roles) ≡ true
unfolding insert_text
below_first-insert x role [] h k = h
below_first-insert x role (r ∷ roles) h k = ground arith

insert-Ascending :
    (role : Text) (roles : Roles)
    → contains role roles ≡ false
    → Ascending roles
    → Ascending (insert_text role roles)
unfolding insert_text
insert-Ascending role [] h a = (refl, tt)
insert-Ascending role (r ∷ roles) h a = elim (Bool-cases (text_ltb role r)) [
  | inl e ↦ rw e (e, a)
  | inr e ↦ rw e (
    below_first-insert r role roles (ltb_total role r e (ground arith)) a.0,
    insert-Ascending role roles (ground arith) a.1,
  )
]

contains-insert :
    (x role : Text) (roles : Roles)
    → contains x (insert_text role roles) ≡ (text_eq x role || contains x roles)
unfolding insert_text
contains-insert x role [] = refl
contains-insert x role (r ∷ roles) = ground (arith, contains-insert x role roles)

pub contains-sort : (x : Text) (roles : Roles) → contains x (sort_texts roles) ≡ contains x roles
unfolding sort_texts
contains-sort x [] = refl
contains-sort x (role ∷ roles) =
    contains-insert x role (sort_texts roles)
    ∙ ap (λ b. text_eq x role || b) (contains-sort x roles)

abbrev Distinct : Roles → Type 0
Distinct [] = Unit
Distinct (role ∷ roles) = (contains role roles ≡ false) × Distinct roles

sort-Ascending : (roles : Roles) → Distinct roles → Ascending (sort_texts roles)
unfolding sort_texts
sort-Ascending [] d = tt
sort-Ascending (role ∷ roles) d =
    insert-Ascending role (sort_texts roles) (contains-sort role roles ∙ d.0)
      (sort-Ascending roles d.1)

pub contains-append :
    (x : Text) (a b : Roles) → contains x (a ++ b) ≡ (contains x a || contains x b)
contains-append x [] b = refl
contains-append x (r ∷ a) b = ground (arith, contains-append x a b)

Distinct-snoc :
    (role : Text) (roles : Roles)
    → contains role roles ≡ false
    → Distinct roles
    → Distinct (roles ++ role ∷ [])
Distinct-snoc role [] h d = (refl, tt)
Distinct-snoc role (r ∷ roles) h d = (
  contains-append r roles (role ∷ []) ∙ rw (d.0) (other r role h),
  Distinct-snoc role roles (ground arith) d.1,
)
  where
    other :
        (a b : Text) → (text_eq b a || contains b roles) ≡ false → (text_eq a b || false) ≡ false
    other a b h = elim (Bool-cases (text_eq a b)) [
      | inl e ↦ ground (arith, text_eq_self a, ap (text_eq b) (text_eq_sound a b e), text_eq_self b)
      | inr e ↦ ground arith
    ]

-- What the loop returns, from the roles it has kept and those still to come.
record Collected (kept raws out : Roles) : Type 0 where
  distinct : Distinct out
  members : (x : Text) → contains x out ≡ (contains x kept || contains x (map normalize_role raws))
  known : (x : Text) → contains x (map normalize_role raws) ≡ true → contains x valid_roles ≡ true

-- A role that equals one of a list stands there.
contains_same :
    (x y : Text) (roles : Roles)
    → text_eq x y ≡ true
    → contains y roles ≡ true
    → contains x roles ≡ true
contains_same x y roles e h = ap (λ z. contains z roles) (text_eq_sound x y e) ∙ h

module _ (kept : Roles) (raw : Text) (raws out : Roles)
    (valid : contains (normalize_role raw) valid_roles ≡ true) where
  met :
      contains (normalize_role raw) kept ≡ true
      → Collected kept raws out
      → Collected kept (raw ∷ raws) out
  met e c = record {
    distinct = c.distinct;
    members = λ x. ground (arith, c.members x, contains_same x (normalize_role raw) kept, e);
    known =
        λ x h. ground (arith, c.known x, contains_same x (normalize_role raw) valid_roles, valid);
  }

  added : Collected (kept ++ normalize_role raw ∷ []) raws out → Collected kept (raw ∷ raws) out
  added c = record {
    distinct = c.distinct;
    members = λ x. ground (arith, c.members x, contains-append x kept (normalize_role raw ∷ []));
    known =
        λ x h. ground (arith, c.known x, contains_same x (normalize_role raw) valid_roles, valid);
  }

collect-Collected :
    (debug : Text → Text) (kept raws out : Roles)
    → Distinct kept
    → collect_roles debug kept raws ≡ okay out
    → Collected kept raws out
unfolding collect_roles
collect-Collected debug kept [] out d h = record {
  distinct = subst Distinct same d;
  members = λ x. ground (arith, ap (contains x) same);
  known = λ x e. cc;
}
  where
    same : kept ≡ out
    same = okay-injective kept out h
collect-Collected debug kept (raw ∷ raws) out d h =
    let role = normalize_role raw in
    elim (Bool-cases (contains role valid_roles)) [
      | inl v ↦ elim (Bool-cases (contains role kept)) [
        | inl e ↦ met kept raw raws out v e (collect-Collected debug kept raws out d (ground arith))
        | inr e ↦ added kept raw raws out v (
            collect-Collected debug (kept ++ role ∷ []) raws out (Distinct-snoc role kept e d)
              (ground arith))
      ]
      | inr v ↦ elim (err-okay (unknown_role debug role) out (ground arith)) [ ]
    ]

-- What is accepted as the roles of a token: in order and each once, exactly those asked for after
-- trimming and lowering, and of the roles that a token may have only.
abbrev pub IsNormal : Roles → Roles → Type 0
IsNormal raws ns =
    Ascending ns
    × ((x : Text) → contains x ns ≡ contains x (map normalize_role raws))
    × ((x : Text) → contains x ns ≡ true → contains x valid_roles ≡ true)

of_Collected :
    (raws ns out : Roles) → sort_texts out ≡ ns → Collected [] raws out → IsNormal raws ns
of_Collected raws ns out same c = subst (IsNormal raws) same (
  sort-Ascending out c.distinct,
  λ x. contains-sort x out ∙ c.members x,
  λ x h. c.known x (sym (contains-sort x out ∙ c.members x) ∙ h),
)

-- Whenever normalize_roles succeeds, the roles returned are strictly ascending, are exactly the
-- trimmed and lowered roles asked for, and are all among the five roles that a token may have.
pub normalize_roles-IsNormal :
    (debug : Text → Text) (raws ns : Roles)
    → normalize_roles debug raws ≡ okay ns
    → IsNormal raws ns
unfolding normalize_roles
normalize_roles-IsNormal debug [] ns h = elim (err-okay _ ns h) [ ]
normalize_roles-IsNormal debug (raw ∷ raws) ns h =
    elim (Result-cases (collect_roles debug [] (raw ∷ raws))) [
      | inl (e, f) ↦ elim (err-okay e ns (sym (ap (λ o. and_then o sorted) f) ∙ h)) [ ]
      | inr (out, f) ↦
          of_Collected (raw ∷ raws) ns out
            (okay-injective (sort_texts out) ns (sym (ap (λ o. and_then o sorted) f) ∙ h))
            (collect-Collected debug [] (raw ∷ raws) out tt f)
    ]
  where
    sorted : Roles → Result Text Roles
    sorted out = okay (sort_texts out)
