-- ===== src/Hub/Mutation/Atomic.antt =====
-- crates/fabric-hub/src/routes/settings.rs: a change is stored and recorded, or undone.
use mathlib.Core.Path.{subst}
use forgewire_fabric.Prelude.{
  ◌≡◌, refl, sym, ap, ◌∙◌, ◌⊎◌, inl, inr, Option, none, some, if_ind, List, Text, text,
}
use forgewire_fabric.Prelude.Int.{ℤ, suc_i64}
use forgewire_fabric.Prelude.Results.{Result, err, okay}
use forgewire_fabric.Prelude.Json.{Json}
use forgewire_fabric.Settings.{SettingsError}
use forgewire_fabric.Settings.Validation.{Numbers, Documents}
use forgewire_fabric.Settings.Snapshot.{SettingsSnapshot}
use forgewire_fabric.Settings.Changes.{SettingsChange}
use forgewire_fabric.Settings.Redaction.{safe, redact_value}
use forgewire_fabric.Hub.Mutation.Ready.{CanShow, IsReady, safe_hub, prepare-IsReady}
use forgewire_fabric.Hub.Store.{StoreError}
use forgewire_fabric.Hub.Mutation.{
  SettingsDocument, Failure, store_error, compensation_failed, Calls, Prepared, Answer, prepare,
  after_rollback, after_audit, after_put, after_prepare, after_get, body_of, mutate, eq_ℤ,
}

-- What the contract of the store promises: it holds a revision and a document, of which reads tell
-- and a write that succeeds was against the held revision, and set the next one and the document;
-- of a write that fails nothing is known. The audit log is kept apart.
pub record IsRegister {W N : Type 0} (calls : Calls W N) (held : W → ℤ × Json N) : Type 0 where
  pub reads : (w : W) → held (calls.get_document w).1 ≡ held w
  pub says :
      (w : W) (d : SettingsDocument N) → (calls.get_document w).0 ≡ okay d → (held w).1 ≡ d.value
  pub swaps :
      (r : ℤ) (v : Json N) (actor now : Text) (w : W) (d : SettingsDocument N)
      → (calls.put_document r v actor now w).0 ≡ okay d
      → ((held w).0 ≡ r) × (held (calls.put_document r v actor now w).1 ≡ (suc_i64 r, v))
  pub logs :
      (actor : Text) (r : ℤ) (changes : List (SettingsChange N)) (w : W)
      → held (calls.append_audit actor r changes w).1 ≡ held w

module _ {N : Type 0} (numbers : Numbers N) (documents : Documents N) where
  module _ {W : Type 0} (calls : Calls W N) (held : W → ℤ × Json N) (actor key : Text)
      (expected : ℤ) (value : Option (Json N)) (w : W) where
    abbrev before : ℤ × Json N
    before = held w

    -- The store answered the first write with an error, which is the answer; whether it had an effect
    -- is not known.
    pub record IsUnsure (f : Failure) (v : W) : Type 0 where
      error : StoreError
      document : Json N
      read : W
      was_read : read ≡ (calls.get_document w).1
      was_written :
          calls.put_document expected document actor (calls.utc_now read) read ≡ (err error, v)
      is_answer : f ≡ store_error error

    -- The audit log took the changes that were prepared from the document that was read, and this was
    -- the last call.
    pub record IsLogged (v : W) : Type 0 where
      read : SettingsDocument N
      prepared : Prepared N
      written : W
      was_read : (calls.get_document w).0 ≡ okay read
      was_prepared : prepare numbers documents read key value ≡ okay (some prepared)
      was_logged :
          calls.append_audit actor prepared.next.revision prepared.changes written ≡ (okay tt, v)

    -- What is stored at the end, by the answer.
    abbrev pub IsAtomic : Answer W N → Type 0
    IsAtomic (none, v) = (held v).1 ≡ before.1
    IsAtomic (some (err f), v) = ((held v).1 ≡ before.1) ⊎ (f ≡ compensation_failed) ⊎ IsUnsure f v
    IsAtomic (some (okay shown), v) =
        (before.0 ≡ expected)
        × ((held v).0 ≡ suc_i64 expected)
        × (redact_value numbers documents (held v).1 ≡ okay shown.hub)
        × IsLogged v

  module _ {W : Type 0} (calls : Calls W N) (held : W → ℤ × Json N)
      (register : IsRegister calls held) (actor key : Text) (expected : ℤ) (value : Option (Json N))
      (start : W) where
    abbrev was : ℤ × Json N
    was = held start

    abbrev Ends : Answer W N → Type 0
    Ends = IsAtomic calls held actor key expected value start

    abbrev Unsure : Failure → W → Type 0
    Unsure = IsUnsure calls held actor key expected value start

    abbrev Logged : W → Type 0
    Logged = IsLogged calls held actor key expected value start

    rollback-Ends :
        (c : Result StoreError (SettingsDocument N) × W)
        → ((d : SettingsDocument N) → c.0 ≡ okay d → (held c.1).1 ≡ was.1)
        → Ends (after_rollback numbers documents calls c)
    rollback-Ends (err e, w) h = inr (inl refl)
    rollback-Ends (okay d, w) h = inl (h d refl)

    shown-Ends :
        (p : Prepared N) (w : W) (r : Result SettingsError (SettingsSnapshot N))
        → was.0 ≡ expected
        → held w ≡ (suc_i64 expected, p.next.hub)
        → Logged w
        → (shown : SettingsSnapshot N) × (r ≡ okay shown)
        → ((shown : SettingsSnapshot N)
            → r ≡ okay shown
            → redact_value numbers documents p.next.hub ≡ okay shown.hub)
        → Ends (some (body_of numbers documents calls r), w)
    shown-Ends p w (err e) at stored logged (shown, h) shows = cc
    shown-Ends p w (okay shown) at stored logged any shows = (
      at,
      ap (λ h. h.0) stored,
      ap (λ h. redact_value numbers documents h.1) stored ∙ shows shown refl,
      logged,
    )

    audit-Ends :
        (p : Prepared N) (c : Result Text (Unit {0}) × W)
        → IsReady numbers documents was.1 p
        → was.0 ≡ expected
        → held c.1 ≡ (suc_i64 expected, p.next.hub)
        → (c.0 ≡ okay tt → Logged c.1)
        → Ends (after_audit numbers documents calls p c)
    unfolding IsReady CanShow
    audit-Ends p (err e, w) ready at stored logged =
        let now = calls.utc_now w in
        rollback-Ends
          (calls.put_document p.next.revision p.current.hub (text "system:audit-rollback") now w)
          (λ d h.
            ap (λ h. h.1)
              (register.swaps p.next.revision p.current.hub (text "system:audit-rollback") now w d
                h).1
            ∙ ready.0)
    audit-Ends p (okay u, w) ready at stored logged =
        shown-Ends p w (safe numbers documents p.next) at stored (logged refl) ready.1
          (safe_hub numbers documents p.next)

    put-Ends :
        (p : Prepared N) (c : Result StoreError (SettingsDocument N) × W)
        → IsReady numbers documents was.1 p
        → ((e : StoreError) → c.0 ≡ err e → Unsure (store_error e) c.1)
        → ((d : SettingsDocument N)
            → c.0 ≡ okay d
            → (was.0 ≡ expected) × (held c.1 ≡ (suc_i64 expected, p.next.hub)))
        → ((u v : W)
            → calls.append_audit actor p.next.revision p.changes u ≡ (okay tt, v)
            → Logged v)
        → Ends (after_put numbers documents calls actor p c)
    put-Ends p (err e, w) ready unsure swapped logged = inr (inr (unsure e refl))
    put-Ends p (okay d, w) ready unsure swapped logged =
        audit-Ends p (calls.append_audit actor p.next.revision p.changes w) ready (swapped d refl).0
          (register.logs actor p.next.revision p.changes w ∙ (swapped d refl).1)
          (λ h.
            logged w _ (ap (λ r. (r, (calls.append_audit actor p.next.revision p.changes w).1)) h))

    prepare-Ends :
        (d : SettingsDocument N) (o : Result SettingsError (Option (Prepared N))) (w : W)
        → (calls.get_document start).0 ≡ okay d
        → w ≡ (calls.get_document start).1
        → prepare numbers documents d key value ≡ o
        → ((p : Prepared N) → o ≡ okay (some p) → IsReady numbers documents was.1 p)
        → Ends (after_prepare numbers documents calls actor expected o w)
    prepare-Ends d (err e) w got same prepared ready =
        inl (ap (λ h. h.1) (ap held same ∙ register.reads start))
    prepare-Ends d (okay none) w got same prepared ready =
        ap (λ h. h.1) (ap held same ∙ register.reads start)
    prepare-Ends d (okay (some p)) w got same prepared ready =
        let now = calls.utc_now w in
        put-Ends p (calls.put_document expected p.next.hub actor now w) (ready p refl)
          (λ e h. record {
            error = e;
            document = p.next.hub;
            read = w;
            was_read = same;
            was_written = ap (λ r. (r, (calls.put_document expected p.next.hub actor now w).1)) h;
            is_answer = refl;
          })
          (λ d h.
            let swapped = register.swaps expected p.next.hub actor now w d h in
            (ap (λ h. h.0) (sym (ap held same ∙ register.reads start)) ∙ swapped.0, swapped.1))
          (λ u v h. record {
            read = d;
            prepared = p;
            written = u;
            was_read = got;
            was_prepared = prepared;
            was_logged = h;
          })

    get-Ends :
        (c : Result StoreError (SettingsDocument N) × W)
        → calls.get_document start ≡ c
        → Ends (after_get numbers documents calls actor key expected value c)
    get-Ends (err e, w) got =
        inl (ap (λ h. h.1) (ap (λ c. held c.1) (sym got) ∙ register.reads start))
    get-Ends (okay d, w) got =
        if_ind Ends (eq_ℤ d.revision expected) _ _
          (λ t.
            prepare-Ends d (prepare numbers documents d key value) w (ap (λ c. c.0) got)
              (ap (λ c. c.1) (sym got)) refl
              (λ p e.
                subst (λ v. IsReady numbers documents v p)
                  (sym (register.says start d (ap (λ c. c.0) got)))
                  (prepare-IsReady numbers documents d key value p e)))
          (λ f. inl (ap (λ h. h.1) (ap (λ c. held c.1) (sym got) ∙ register.reads start)))

-- A change of a setting is atomic, over a store that keeps its contract: if the route answers with
-- settings, the expected revision was held, the next one is, the answer shows the stored document of
-- the hub, redacted, and the audit log took the changes last; if it fails or panics, the document is
-- what it was, except where the route reports that it could not undo the change, and where the answer
-- is the store's own error at the first write, which may or may not have had an effect.
pub mutate-IsAtomic :
    {W N : Type 0} (numbers : Numbers N) (documents : Documents N) (calls : Calls W N)
    (held : W → ℤ × Json N) (actor key : Text) (expected : ℤ) (value : Option (Json N)) (w : W)
    → IsRegister calls held
    → IsAtomic numbers documents calls held actor key expected value w
        (mutate numbers documents calls actor key expected value w)
unfolding mutate
mutate-IsAtomic numbers documents calls held actor key expected value w register =
    get-Ends numbers documents calls held register actor key expected value w _ refl
