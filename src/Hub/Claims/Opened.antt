-- ===== src/Hub/Claims/Opened.antt =====
-- crates/fabric-hub/src/routes/tasks.rs: which secrets the loop of a claim resolves.
use mathlib.Core.Path.{subst}
use forgewire_fabric.Prelude.{
  ◌≡◌, refl, sym, ap, ◌∙◌, ◌⊎◌, inl, inr, Option, none, some, List, [], ◌∷◌, Text, text_eq,
  text_eq_self, text_eq_sound, All, Exists, some-injective, if_ind,
}
use forgewire_fabric.Prelude.Results.{
  okay, and_then-okay, ok_or, map_err, map_err-okay, okay-injective,
}
use forgewire_fabric.Prelude.TextMaps.{TextMap, get, insert, get-insert}
use forgewire_fabric.Secrets.{missing_secret, provider_io, open_envelope}
use forgewire_fabric.Hub.Store.{store_text}
use forgewire_fabric.Hub.Claims.{ClaimCalls}
use forgewire_fabric.Hub.Claims.Routes.{Libraries, open_named, resolve_secrets}

module _ {W N E K : Type 0} (libraries : Libraries N E K) (calls : ClaimCalls W N) (w : W) where
  open libraries use {crypto}
  open calls use {secret_envelopes}

  -- The value is what the envelope of the name opens to.
  abbrev pub Opens : TextMap Text → Text → Text → Type 0
  Opens envelopes name value =
      (envelope : Text) × (get name envelopes ≡ some envelope)
      × (open_envelope crypto name envelope ≡ okay value)

  -- Each name that is requested stands for the value that its envelope in the store opens to, and no
  -- other name stands for anything.
  pub record AreOpened (requested : List Text) (secrets : TextMap Text) : Type 0 where
    envelopes : TextMap Text
    are_read : (requested ≡ []) ⊎ (secret_envelopes requested w ≡ okay envelopes)
    each :
        All
          (λ name. (value : Text) × Opens envelopes name value × (get name secrets ≡ some value))
          requested
    only : (name value : Text) → get name secrets ≡ some value → Exists (λ n. name ≡ n) requested

  same_value :
      (envelopes : TextMap Text) (name v v' : Text)
      → Opens envelopes name v
      → Opens envelopes name v'
      → v ≡ v'
  same_value envelopes name v v' (e, g, o) (e', g', o') =
      let same = some-injective (sym g ∙ g') in
      okay-injective v v' (sym o ∙ (ap (open_envelope crypto name) same ∙ o'))

  module _ (envelopes secrets : TextMap Text) where
    abbrev Ends : List Text → TextMap Text → Type 0
    Ends names resolved = open_named libraries calls envelopes names resolved ≡ okay secrets

    -- One round of the loop.
    round :
        (name : Text) (names : List Text) (resolved : TextMap Text)
        → Ends (name ∷ names) resolved
        → (value : Text) × Opens envelopes name value × Ends names (insert name value resolved)
    round name names resolved h =
        let (envelope, g, h1) =
          and_then-okay (ok_or (missing_secret name) (get name envelopes)) _ secrets h in
        let (value, o, h2) = and_then-okay (open_envelope crypto name envelope) _ secrets h1 in
        (value, (envelope, found (get name envelopes) envelope g, o), h2)
      where
        found : (o : Option Text) (e : Text) → ok_or (missing_secret name) o ≡ okay e → o ≡ some e
        found none e h = cc
        found (some d) e h = ap some (okay-injective d e h)

    stays :
        (names : List Text) (resolved : TextMap Text) (k v : Text)
        → Ends names resolved
        → Opens envelopes k v
        → get k resolved ≡ some v
        → get k secrets ≡ some v
    stays [] resolved k v h o g = ap (get k) (sym (okay-injective resolved secrets h)) ∙ g
    stays (name ∷ names) resolved k v h o g =
        let (value, opens, later) = round name names resolved h in
        stays names (insert name value resolved) k v later o (
          get-insert name k value resolved
          ∙ if_ind (λ x. x ≡ some v) (text_eq name k) _ _
              (λ e. ap some (
                same_value envelopes k value v
                  (subst (λ n. Opens envelopes n value) (text_eq_sound name k e) opens) o))
              (λ e. g))

    each_name :
        (names : List Text) (resolved : TextMap Text)
        → Ends names resolved
        → All
            (λ name. (value : Text) × Opens envelopes name value × (get name secrets ≡ some value))
            names
    each_name [] resolved h = tt
    each_name (name ∷ names) resolved h =
        let (value, opens, later) = round name names resolved h in
        (
          (
            value,
            opens,
            stays names (insert name value resolved) name value later opens
                (get-insert name name value resolved ∙ rw (text_eq_self name) refl),
          ),
          each_name names (insert name value resolved) later,
        )

    only_names :
        (names : List Text) (resolved : TextMap Text) (k v : Text)
        → Ends names resolved
        → get k secrets ≡ some v
        → (get k resolved ≡ some v) ⊎ Exists (λ n. k ≡ n) names
    only_names [] resolved k v h g = inl (ap (get k) (okay-injective resolved secrets h) ∙ g)
    only_names (name ∷ names) resolved k v h g =
        let (value, opens, later) = round name names resolved h in
        elim (only_names names (insert name value resolved) k v later g) [
          | inl here ↦
              if_ind
                (λ x.
                  x ≡ some v → (get k resolved ≡ some v) ⊎ ((k ≡ name) ⊎ Exists (λ n. k ≡ n) names))
                (text_eq name k) _ _ (λ e i. inr (inl (sym (text_eq_sound name k e))))
                (λ e i. inl i) (sym (get-insert name k value resolved) ∙ here)
          | inr there ↦ inr (inr there)
        ]

  no_entry :
      (k v : Text) (names : List Text)
      → Path (Option Text) none (some v) ⊎ Exists (λ n. k ≡ n) names
      → Exists (λ n. k ≡ n) names
  no_entry k v names (inl h) = cc
  no_entry k v names (inr h) = h

  pub resolve_secrets-AreOpened :
      (requested : List Text) (secrets : TextMap Text)
      → resolve_secrets libraries calls requested w ≡ okay secrets
      → AreOpened requested secrets
  unfolding resolve_secrets
  resolve_secrets-AreOpened [] secrets h = record {
    envelopes = [];
    are_read = inl refl;
    each = tt;
    only = λ k v g. no_entry k v [] (only_names [] secrets [] [] k v h g);
  }
  resolve_secrets-AreOpened (name ∷ names) secrets h =
      let (envelopes, r, later) =
        and_then-okay
          (map_err (λ e. provider_io (store_text e)) (secret_envelopes (name ∷ names) w)) _ secrets
          h in
      record {
        envelopes = envelopes;
        are_read = inr (map_err-okay _ _ envelopes r);
        each = each_name envelopes secrets (name ∷ names) [] later;
        only = λ k v g.
            no_entry k v (name ∷ names)
              (only_names envelopes secrets (name ∷ names) [] k v later g);
      }
