-- ===== src/Hub/Claims/Outcomes.antt =====
-- crates/fabric-hub/src/routes/tasks.rs: what every answer to a claim says of the world.
use forgewire_fabric.Prelude.{[], ◌∷◌, ◌≡◌, ◌⊎◌, Bool, none, some, Text, text}
use forgewire_fabric.Prelude.Results.{Result, err, okay}
use forgewire_fabric.Prelude.TextMaps.{TextMap}
use forgewire_fabric.Prelude.Json.{Json}
use forgewire_fabric.Hub.Store.{
  StoreError, store_text, TaskRow, RunnerRow, ClaimResult, claimed, already_claimed,
}
use forgewire_fabric.Hub.Claims.{
  ClaimPayload, ClaimCalls, failed, secret, refused, lost_claim_race, won, texts_in,
}
use forgewire_fabric.Hub.Claims.Routes.{Libraries, Claim, resolve_secrets}
use forgewire_fabric.Prelude.TextMaps.{keys}
use forgewire_fabric.Prelude.Json.{number, scalar, string_value, object, array}
use forgewire_fabric.Hub.Authorities.{sort_texts}
use forgewire_fabric.Hub.Claims.Opened.{AreOpened, resolve_secrets-AreOpened}
use forgewire_fabric.Hub.Claims.Vetted.{IsAdmitted, IsFirst}
use forgewire_fabric.Hub.Claims.Quiet.{Quiet}

module _ {W N E K : Type 0} (libraries : Libraries N E K) (calls : ClaimCalls W N)
    (attribution : Json N) (p : ClaimPayload) (w : W) where
  open libraries use {from_i64}
  open calls use {
    utc_now, claim_task, list_tasks, runner_public_key, get_runner, unix_secs, append_audit,
    runner_capabilities,
  }

  -- A task that the runner may have, the secrets that it asks for, and the store's answer, which
  -- leaves the world u.
  pub record IsVetted (kind : Text) (eligible : TaskRow N → Bool) (secrets : TextMap Text)
      (r : Result StoreError (ClaimResult N)) (u : W) : Type 0 where
    pub runner : RunnerRow N
    task : TaskRow N
    is_admitted : IsAdmitted libraries calls p w kind runner
    is_first : IsFirst libraries calls p w eligible task
    are_opened : AreOpened libraries calls w (texts_in task.secrets_needed) secrets
    is_stored : claim_task task.id p.runner_id runner.hostname (utc_now w) w ≡ (r, u)

  -- The entry for a task that was won: of the secrets it has the names, in order.
  abbrev pub won_entry : Text → TaskRow N → TextMap Text → Json N
  won_entry hostname t secrets = object (
      (text "task_id", scalar (number (from_i64 t.id)))
      ∷ (text "worker_id", string_value p.runner_id)
      ∷ (text "hostname", string_value hostname)
      ∷ (text "secrets_dispatched", array string_value (sort_texts (keys secrets)))
      ∷ (text "attribution", attribution)
      ∷ [])

  -- What holds by the answer, and of the world v that it leaves.
  unfoldable pub IsSound : Text → (TaskRow N → Bool) → Claim W N → Type 0
  IsSound kind eligible (none, v) = ⊥
  IsSound kind eligible (some (err (secret e)), v) = v ≡ w
  IsSound kind eligible (some (err (failed status message)), v) =
      (v ≡ w)
      ⊎ ((e : StoreError) × (s : TextMap Text) × IsVetted kind eligible s (err e) v
          × (message ≡ store_text e))
  IsSound kind eligible (some (okay (refused r)), v) = v ≡ w
  IsSound kind eligible (some (okay lost_claim_race), v) =
      (s : TextMap Text) × IsVetted kind eligible s (okay already_claimed) v
  IsSound kind eligible (some (okay (won t secrets)), v) =
      (u : W) × (x : IsVetted kind eligible secrets (okay (claimed t)) u) × (v
        ≡ append_audit (text "claim") (some t.id) (won_entry x.runner.hostname t secrets) u)

  module _ (kind : Text) (eligible : TaskRow N → Bool) (task : TaskRow N) (runner : RunnerRow N)
      (a : IsAdmitted libraries calls p w kind runner)
      (f : IsFirst libraries calls p w eligible task) where
    abbrev vetted :
        (secrets : TextMap Text) (r : Result StoreError (ClaimResult N)) (u : W)
        → resolve_secrets libraries calls (texts_in task.secrets_needed) w ≡ okay secrets
        → claim_task task.id p.runner_id runner.hostname (utc_now w) w ≡ (r, u)
        → IsVetted kind eligible secrets r u
    vetted secrets r u h k = record {
      runner = runner;
      task = task;
      is_admitted = a;
      is_first = f;
      are_opened =
          resolve_secrets-AreOpened libraries calls w (texts_in task.secrets_needed) secrets h;
      is_stored = k;
    }
