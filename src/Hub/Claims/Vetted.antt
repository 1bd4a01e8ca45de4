-- ===== src/Hub/Claims/Vetted.antt =====
-- crates/fabric-hub/src/routes/tasks.rs: what a claim was checked for, on every answer.
use mathlib.Core.Path.{subst}
use forgewire_fabric.Prelude.{
  ◌++◌, length, filter, ◌∷◌, some-injective, get_elem?-map, get_elem?-filter, ℕ, ◌≡◌, refl, sym, ap,
  ◌∙◌, Bool, true, false, not, Option, none, some, List, [], ◌∷◌, map, arith, Text, text, filter,
  get_elem?, take, All,
}
use forgewire_fabric.Prelude.Int.{ℤ, pos, ltb_ℤ}
use forgewire_fabric.Prelude.Results.{
  map_err, map_err-okay, Result, err, okay, and_then-okay, ok_or, okay-injective,
}
use forgewire_fabric.ClaimRouter.{pick_task}
use forgewire_fabric.ClaimRouter.Matches.{IsEligible}
use forgewire_fabric.ClaimRouter.Pick.{Picked, pick_task-Picked}
use forgewire_fabric.Hub.Store.{
  StoreError, not_found, conflict, permission_denied, schema, backend, TaskRow, RunnerRow,
}
use forgewire_fabric.Prelude.Json.{object, string_value, scalar, number}
use forgewire_fabric.Hub.Signed.Verified.{IsSigned, verify_sig-IsSigned}
use forgewire_fabric.Hub.Signed.{check_skew, verify_sig}
use forgewire_fabric.Hub.Claims.{
  unwrap_or_default, is_held_by, ClaimPayload, ClaimCalls, Stop, fails, answers, panics,
  server_error, build_candidate, has_kind, require, has_ram, registered, runner_row, at_index,
  chosen, view_of,
}
use forgewire_fabric.Hub.Claims.Routes.{Libraries, claim_envelope, load_of, admitted, choose}

module _ {W N E K : Type 0} (libraries : Libraries N E K) (calls : ClaimCalls W N)
    (p : ClaimPayload) (w : W) where
  open libraries use {crates, print_hex, from_i64}
  open calls use {unix_secs, utc_now, runner_public_key, get_runner, list_tasks, claim_task}

  -- The runner signed the request in time, is registered for the kind, and is neither draining nor
  -- loaded nor short of memory.
  pub record IsAdmitted (kind : Text) (runner : RunnerRow N) : Type 0 where
    in_time : check_skew p.timestamp (unix_secs w) ≡ okay tt
    key : Text
    is_key : runner_public_key p.runner_id w ≡ okay (some key)
    is_signed :
        IsSigned crates print_hex key
          (object (
            (text "op", string_value (text "claim"))
            ∷ (text "runner_id", string_value p.runner_id)
            ∷ (text "timestamp", scalar (number (from_i64 p.timestamp)))
            ∷ (text "nonce", string_value p.nonce)
            ∷ []))
          p.signature
    is_runner : get_runner p.runner_id w ≡ okay runner
    is_of_kind : has_kind kind runner.kinds ≡ true
    stays : runner.drain_requested ≡ false
    is_free :
        let claimed = unwrap_or_default (list_tasks (text "claimed") 200 w) in
        let running = unwrap_or_default (list_tasks (text "running") 200 w) in
        let own = filter (is_held_by p.runner_id) (claimed ++ running) in
        ltb_ℤ (pos (length own)) runner.max_concurrent ≡ true
    has_memory : (ram : ℤ) → p.ram_free_mb ≡ some ram → ltb_ℤ ram (pos 512) ≡ false

  -- The task is the first in the filtered queue that the runner is eligible for.
  pub record IsFirst (eligible : TaskRow N → Bool) (task : TaskRow N) : Type 0 where
    queued : List (TaskRow N)
    is_queued : list_tasks (text "queued") 50 w ≡ okay queued
    passes : eligible task ≡ true
    index : ℕ
    found : get_elem? (filter eligible queued) index ≡ some task
    fits : IsEligible (build_candidate task) (view_of p)
    earlier :
        All
          (λ t. ¬ (IsEligible t (view_of p)))
          (take index (map build_candidate (filter eligible queued)))

  required : (b : Bool) (stop : Stop) → require b stop ≡ okay tt → b ≡ true
  required true stop h = refl
  required false stop h = cc

  negated : (b : Bool) → not b ≡ true → b ≡ false
  negated true h = cc
  negated false h = refl

  memory :
      (o : Option ℤ) → has_ram o ≡ okay tt → (ram : ℤ) → o ≡ some ram → ltb_ℤ ram (pos 512) ≡ false
  memory none h ram e = cc
  memory (some r) h ram e =
      ap (λ r. ltb_ℤ r (pos 512)) (some-injective (sym e))
      ∙ negated (ltb_ℤ r (pos 512)) (required _ _ h)

  known :
      (r : Result StoreError (Option Text)) (key : Text)
      → registered r ≡ okay key
      → r ≡ okay (some key)
  known (err e) key h = cc
  known (okay none) key h = cc
  known (okay (some k)) key h = ap (λ k. okay (some k)) (okay-injective k key h)

  read :
      (r : Result StoreError (RunnerRow N)) (x : RunnerRow N) → runner_row r ≡ okay x → r ≡ okay x
  read (okay r) x h = ap okay (okay-injective r x h)
  read (err (not_found e)) x h = cc
  read (err (conflict e)) x h = cc
  read (err (permission_denied e)) x h = cc
  read (err (schema e)) x h = cc
  read (err (backend e)) x h = cc

  pub admitted-IsAdmitted :
      (kind refusal : Text) (runner : RunnerRow N)
      → admitted libraries calls kind refusal p w ≡ okay runner
      → IsAdmitted kind runner
  unfolding admitted
  admitted-IsAdmitted kind refusal runner h =
      let (u, t, h1) =
        and_then-okay (map_err (fails 422) (check_skew p.timestamp (unix_secs w))) _ runner h in
      let (key, k, h2) = and_then-okay (registered (runner_public_key p.runner_id w)) _ runner h1 in
      let (v, s, h3) =
        and_then-okay
          (map_err (fails 403)
            (verify_sig crates print_hex key (claim_envelope libraries calls p) p.signature))
          _ runner h2 in
      let (row, r, h4) = and_then-okay (runner_row (get_runner p.runner_id w)) _ runner h3 in
      let (x, a, h5) =
        and_then-okay (require (has_kind kind row.kinds) (fails 403 refusal)) _ runner h4 in
      let (y, d, h6) = and_then-okay (require (not row.drain_requested) _) _ runner h5 in
      let (z, l, h7) =
        and_then-okay
          (require (ltb_ℤ (pos (load_of libraries calls p.runner_id w)) row.max_concurrent) _) _
          runner h6 in
      let (m, g, h8) = and_then-okay (has_ram p.ram_free_mb) _ runner h7 in
      subst (IsAdmitted kind) (okay-injective row runner h8) (record {
        in_time = map_err-okay (fails 422) _ tt t;
        key = key;
        is_key = known _ key k;
        is_signed =
            verify_sig-IsSigned crates print_hex key p.signature _
              (map_err-okay (fails 403) _ tt s);
        is_runner = read _ row r;
        is_of_kind = required _ _ a;
        stays = negated _ (required _ _ d);
        is_free = required _ _ l;
        has_memory = memory p.ram_free_mb g;
      })

  -- What `pick_task` gives for a list of rows.
  unfoldable pub IsChosen : List (TaskRow N) → Result Stop (TaskRow N) → Type 0
  IsChosen tasks (err panics) = ⊥
  IsChosen tasks (err (fails status message)) = Unit
  IsChosen tasks (err (answers r)) = Unit
  IsChosen tasks (okay task) =
      (i : ℕ) × (get_elem? tasks i ≡ some task)
      × IsEligible (build_candidate task) (view_of p)
      × All (λ t. ¬ (IsEligible t (view_of p))) (take i (map build_candidate tasks))

  at_index-IsChosen :
      (tasks : List (TaskRow N)) (r : Option ℕ × ℕ)
      → Picked (view_of p) (map build_candidate tasks) 0 r
      → IsChosen tasks (at_index r tasks)
  unfolding IsChosen
  at_index-IsChosen tasks (none, seen) h = tt
  at_index-IsChosen tasks (some idx, seen) (i, at, count, c, found, fits, before) =
      let (task, is, same) = get_elem?-map build_candidate tasks i c found in
      let here : get_elem? tasks idx ≡ some task = ap (get_elem? tasks) (omega arith) ∙ is in
      subst (λ o. IsChosen tasks (ok_or panics o)) (sym here)
        (i, is, subst (λ c. IsEligible c (view_of p)) (sym same) fits, before)

  pub chosen-IsChosen : (tasks : List (TaskRow N)) → IsChosen tasks (chosen tasks (view_of p))
  unfolding IsChosen
  chosen-IsChosen [] = tt
  chosen-IsChosen (t ∷ tasks) =
      at_index-IsChosen (t ∷ tasks) (pick_task (map build_candidate (t ∷ tasks)) (view_of p))
        (pick_task-Picked (map build_candidate (t ∷ tasks)) (view_of p))

  is_chosen :
      (tasks : List (TaskRow N)) (task : TaskRow N)
      → chosen tasks (view_of p) ≡ okay task
      → (i : ℕ) × (get_elem? tasks i ≡ some task)
        × IsEligible (build_candidate task) (view_of p)
        × All (λ t. ¬ (IsEligible t (view_of p))) (take i (map build_candidate tasks))
  unfolding IsChosen
  is_chosen tasks task h = subst (IsChosen tasks) h (chosen-IsChosen tasks)

  pub choose-IsFirst :
      (eligible : TaskRow N → Bool) (runner r : RunnerRow N) (task : TaskRow N)
      → choose libraries calls eligible p runner w ≡ okay (task, r)
      → IsFirst eligible task × (r ≡ runner)
  unfolding choose
  choose-IsFirst eligible runner r task h =
      let (queued, q, h1) =
        and_then-okay (map_err server_error (list_tasks (text "queued") 50 w)) _ (task, r) h in
      let (t, c, h2) = and_then-okay (chosen (filter eligible queued) (view_of p)) _ (task, r) h1 in
      let same = okay-injective (t, runner) (task, r) h2 in
      let (i, found, fits, before) =
        is_chosen (filter eligible queued) task (c ∙ ap (λ s. okay s.0) same) in
      (
        record {
          queued = queued;
          is_queued = map_err-okay server_error _ queued q;
          passes = get_elem?-filter eligible queued i task found;
          index = i;
          found = found;
          fits = fits;
          earlier = before;
        },
        sym (ap (λ s. s.1) same),
      )
