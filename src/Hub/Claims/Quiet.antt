-- ===== src/Hub/Claims/Quiet.antt =====
-- crates/fabric-hub/src/routes/tasks.rs: no claim panics.
use forgewire_fabric.Prelude.{
  ℕ, Bool, true, false, not, Option, none, some, List, Text, text, filter,
}
use forgewire_fabric.Prelude.Int.{ℤ, pos, ltb_ℤ}
use forgewire_fabric.Prelude.Results.{map_err, Result, err, okay, and_then}
use forgewire_fabric.Prelude.Json.{Json}
use forgewire_fabric.Hub.Store.{
  StoreError, not_found, conflict, permission_denied, schema, backend, TaskRow, RunnerRow,
}
use forgewire_fabric.Hub.Signed.{check_skew, verify_sig}
use forgewire_fabric.Hub.Claims.{
  ClaimPayload, ClaimCalls, Refusal, drain, concurrency_cap, resource_gate, has_kind, Stop, fails,
  answers, panics, server_error, require, has_ram, registered, runner_row, chosen, view_of,
}
use forgewire_fabric.Hub.Claims.Routes.{Libraries, load_of, admitted, choose}
use forgewire_fabric.Hub.Claims.Vetted.{IsChosen, chosen-IsChosen}

-- It does not panic.
unfoldable pub Quiet {ℓ} : {A : Type ℓ} → Result Stop A → Type 0
Quiet (err panics) = ⊥
Quiet (err (fails status message)) = Unit
Quiet (err (answers r)) = Unit
Quiet (okay a) = Unit

pub Quiet-and_then {ℓ ℓ'} :
    {A : Type ℓ} {B : Type ℓ'} (m : Result Stop A) (f : A → Result Stop B)
    → Quiet m
    → ((a : A) → Quiet (f a))
    → Quiet (and_then m f)
unfolding Quiet
Quiet-and_then (err panics) f h k = h
Quiet-and_then (err (fails status message)) f h k = tt
Quiet-and_then (err (answers r)) f h k = tt
Quiet-and_then (okay a) f h k = k a

Quiet-okay {ℓ} : {A : Type ℓ} (a : A) → Quiet (okay a)
unfolding Quiet
Quiet-okay a = tt

Quiet-fails :
    {E A : Type 0} (f : E → ℕ × Text) (r : Result E A)
    → Quiet (map_err (λ e. fails (f e).0 (f e).1) r)
unfolding Quiet
Quiet-fails f (err e) = tt
Quiet-fails f (okay a) = tt

Quiet-require : (b : Bool) (r : Refusal) → Quiet (require b (answers r))
unfolding Quiet
Quiet-require true r = tt
Quiet-require false r = tt

Quiet-refuse : (b : Bool) (status : ℕ) (message : Text) → Quiet (require b (fails status message))
unfolding Quiet
Quiet-refuse true status message = tt
Quiet-refuse false status message = tt

Quiet-ram : (o : Option ℤ) → Quiet (has_ram o)
unfolding Quiet
Quiet-ram none = tt
Quiet-ram (some ram) = Quiet-require (not (ltb_ℤ ram (pos 512))) (resource_gate ram)

Quiet-registered : (r : Result StoreError (Option Text)) → Quiet (registered r)
unfolding Quiet
Quiet-registered (err e) = tt
Quiet-registered (okay none) = tt
Quiet-registered (okay (some key)) = tt

Quiet-runner_row : {N : Type 0} (r : Result StoreError (RunnerRow N)) → Quiet (runner_row r)
unfolding Quiet
Quiet-runner_row (okay r) = tt
Quiet-runner_row (err (not_found e)) = tt
Quiet-runner_row (err (conflict e)) = tt
Quiet-runner_row (err (permission_denied e)) = tt
Quiet-runner_row (err (schema e)) = tt
Quiet-runner_row (err (backend e)) = tt

module _ {W N E K : Type 0} (libraries : Libraries N E K) (calls : ClaimCalls W N)
    (attribution : Json N) (p : ClaimPayload) (w : W) where
  open calls use {
    utc_now, claim_task, list_tasks, runner_public_key, get_runner, unix_secs, append_audit,
    runner_capabilities,
  }

  pub admitted-Quiet : (kind refusal : Text) → Quiet (admitted libraries calls kind refusal p w)
  unfolding admitted
  admitted-Quiet kind refusal =
      Quiet-and_then _ _ (Quiet-fails (λ e. (422, e)) (check_skew p.timestamp (unix_secs w))) (λ u.
        Quiet-and_then _ _ (Quiet-registered (runner_public_key p.runner_id w)) (λ key.
          Quiet-and_then _ _
            (Quiet-fails (λ e. (403, e))
              (verify_sig libraries.crates libraries.print_hex key _ p.signature))
            (λ v. Quiet-and_then _ _ (Quiet-runner_row (get_runner p.runner_id w)) (λ runner.
              Quiet-and_then _ _ (Quiet-refuse (has_kind kind runner.kinds) 403 refusal) (λ x.
                Quiet-and_then _ _ (Quiet-require (not runner.drain_requested) drain) (λ y.
                  Quiet-and_then _ _
                    (Quiet-require
                      (ltb_ℤ (pos (load_of libraries calls p.runner_id w)) runner.max_concurrent)
                      (concurrency_cap (pos (load_of libraries calls p.runner_id w))
                        runner.max_concurrent))
                    (λ z.
                      Quiet-and_then _ _ (Quiet-ram p.ram_free_mb) (λ r. Quiet-okay runner))))))))

  chosen-Quiet : (tasks : List (TaskRow N)) → Quiet (chosen tasks (view_of p))
  unfolding IsChosen Quiet
  chosen-Quiet tasks = at (chosen tasks (view_of p)) (chosen-IsChosen libraries calls p w tasks)
    where
      at : (r : Result Stop (TaskRow N)) → IsChosen libraries calls p w tasks r → Quiet r
      at (err panics) h = h
      at (err (fails status message)) h = tt
      at (err (answers r)) h = tt
      at (okay t) h = tt

  pub choose-Quiet :
      (eligible : TaskRow N → Bool) (runner : RunnerRow N)
      → Quiet (choose libraries calls eligible p runner w)
  unfolding choose Quiet
  choose-Quiet eligible runner =
      Quiet-and_then _ _ (listed (list_tasks (text "queued") 50 w)) (λ queued.
        Quiet-and_then _ _ (chosen-Quiet (filter eligible queued))
          (λ task. Quiet-okay {A = TaskRow N × RunnerRow N} (task, runner)))
    where
      listed : (r : Result StoreError (List (TaskRow N))) → Quiet (map_err server_error r)
      listed (err e) = tt
      listed (okay ts) = tt
