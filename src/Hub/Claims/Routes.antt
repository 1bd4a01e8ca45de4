-- ===== src/Hub/Claims/Routes.antt =====
-- crates/fabric-hub/src/routes/tasks.rs: the routes for claims, and the claim itself. They read the
-- store, choose a task, and then write.
use forgewire_fabric.Prelude.{
  ℕ, Bool, not, ◌&&◌, Option, none, some, List, [], ◌∷◌, ◌++◌, Text, text, filter, is_empty, length,
  if◌then◌else◌,
}
use forgewire_fabric.Prelude.Int.{ℤ, pos, ltb_ℤ}
use forgewire_fabric.Prelude.Results.{map_err, Result, err, okay, and_then, ok_or, ◌>>=◌}
use forgewire_fabric.Prelude.TextMaps.{TextMap, get, insert, keys}
use forgewire_fabric.Prelude.Json.{number, Json, scalar, string_value, object, array}
use forgewire_fabric.Protocol.{Crates}
use forgewire_fabric.Secrets.{SecretError, missing_secret, provider_io, Crypto, open_envelope}
use forgewire_fabric.Hub.Authorities.{sort_texts}
use forgewire_fabric.Hub.Store.{
  StoreError, store_text, TaskRow, RunnerRow, ClaimResult, claimed, already_claimed,
}
use forgewire_fabric.Hub.Signed.{check_skew, verify_sig}
use forgewire_fabric.Hub.Claims.{
  ClaimPayload, ClaimCalls, ClaimError, failed, secret, ClaimAnswer, refused, drain,
  concurrency_cap, lost_claim_race, won, Stop, fails, answers, panics, unwrap_or_default, texts_in,
  has_kind, offered, is_capable, is_held_by, require, has_ram, server_error, registered, runner_row,
  chosen, view_of,
}

-- What the routes call besides the store: signatures, their errors' print, numbers and the cipher.
pub record Libraries (N E K : Type 0) : Type 0 where
  pub crates : Crates N E K
  pub print_hex : E → Text
  pub from_i64 : ℤ → N
  pub crypto : Crypto

-- An answer, or none after a panic.
abbrev pub Claim : Type 0 → Type 0 → Type 0
Claim W N = Option (Result ClaimError (ClaimAnswer N)) × W

module _ {W N E K : Type 0} (libraries : Libraries N E K) (calls : ClaimCalls W N) where
  open libraries use {crates, print_hex, from_i64, crypto}
  open calls use {
    unix_secs, utc_now, runner_public_key, get_runner, list_tasks, runner_capabilities,
    secret_envelopes, claim_task, append_audit,
  }

  abbrev pub claim_envelope : ClaimPayload → Json N
  claim_envelope p = object (
      (text "op", string_value (text "claim"))
      ∷ (text "runner_id", string_value p.runner_id)
      ∷ (text "timestamp", scalar (number (from_i64 p.timestamp)))
      ∷ (text "nonce", string_value p.nonce)
      ∷ [])

  abbrev pub load_of : Text → W → ℕ
  load_of runner_id w =
      let active = unwrap_or_default (list_tasks (text "claimed") 200 w) in
      let running = unwrap_or_default (list_tasks (text "running") 200 w) in
      length (filter (is_held_by runner_id) (active ++ running))

  -- The part that both routes begin with: the row of a runner that may claim tasks of a kind.
  unfoldable pub admitted : Text → Text → ClaimPayload → W → Result Stop (RunnerRow N)
  admitted kind refusal p w = do
    u ← map_err (fails 422) (check_skew p.timestamp (unix_secs w))
    key ← registered (runner_public_key p.runner_id w)
    v ← map_err (fails 403) (verify_sig crates print_hex key (claim_envelope p) p.signature)
    runner ← runner_row (get_runner p.runner_id w)
    x ← require (has_kind kind runner.kinds) (fails 403 refusal)
    y ← require (not runner.drain_requested) (answers drain)
    z ←
        require (ltb_ℤ (pos (load_of p.runner_id w)) runner.max_concurrent)
          (answers (concurrency_cap (pos (load_of p.runner_id w)) runner.max_concurrent))
    r ← has_ram p.ram_free_mb
    okay runner

  -- The task that a runner gets, from the queue behind a filter.
  unfoldable pub choose :
      (TaskRow N → Bool) → ClaimPayload → RunnerRow N → W → Result Stop (TaskRow N × RunnerRow N)
  choose eligible p runner w = do
    queued ← map_err server_error (list_tasks (text "queued") 50 w)
    task ← chosen (filter eligible queued) (view_of p)
    okay (task, runner)

  -- The loop over the names, with the values so far.
  abbrev pub open_named :
      TextMap Text → List Text → TextMap Text → Result SecretError (TextMap Text)
  open_named envelopes [] resolved = okay resolved
  open_named envelopes (name ∷ names) resolved =
      and_then (ok_or (missing_secret name) (get name envelopes)) (λ envelope.
        and_then (open_envelope crypto name envelope)
          (λ value. open_named envelopes names (insert name value resolved)))

  unfoldable pub resolve_secrets : List Text → W → Result SecretError (TextMap Text)
  resolve_secrets requested w =
      if is_empty requested
      then okay []
      else and_then (map_err (λ e. provider_io (store_text e)) (secret_envelopes requested w))
          (λ envelopes. open_named envelopes requested [])

  abbrev pub claim_audit : Json N → Text → Text → TaskRow N → TextMap Text → Json N
  claim_audit attribution runner_id hostname task resolved = object (
      (text "task_id", scalar (number (from_i64 task.id)))
      ∷ (text "worker_id", string_value runner_id)
      ∷ (text "hostname", string_value hostname)
      ∷ (text "secrets_dispatched", array string_value (sort_texts (keys resolved)))
      ∷ (text "attribution", attribution)
      ∷ [])

  abbrev pub after_claim :
      Json N → Text → Text → TextMap Text → Result StoreError (ClaimResult N) × W → Claim W N
  after_claim attribution runner_id hostname resolved (err e, w) =
      (some (err (failed 500 (store_text e))), w)
  after_claim attribution runner_id hostname resolved (okay already_claimed, w) =
      (some (okay lost_claim_race), w)
  after_claim attribution runner_id hostname resolved (okay (claimed t), w) = (
    some (okay (won t resolved)),
    append_audit (text "claim") (some t.id) (claim_audit attribution runner_id hostname t resolved)
        w,
  )

  abbrev pub with_secrets :
      Json N → TaskRow N → Text → Text → Result SecretError (TextMap Text) → W → Claim W N
  with_secrets attribution task runner_id hostname (err e) w = (some (err (secret e)), w)
  with_secrets attribution task runner_id hostname (okay resolved) w =
      after_claim attribution runner_id hostname resolved
        (claim_task task.id runner_id hostname (utc_now w) w)

  unfoldable pub do_claim : Json N → TaskRow N → Text → Text → W → Claim W N
  do_claim attribution task runner_id hostname w =
      with_secrets attribution task runner_id hostname
        (resolve_secrets (texts_in task.secrets_needed) w) w

  abbrev pub claim_chosen : Json N → Text → Result Stop (TaskRow N × RunnerRow N) → W → Claim W N
  claim_chosen attribution runner_id (err (fails status message)) w =
      (some (err (failed status message)), w)
  claim_chosen attribution runner_id (err (answers r)) w = (some (okay (refused r)), w)
  claim_chosen attribution runner_id (err panics) w = (none, w)
  claim_chosen attribution runner_id (okay (task, runner)) w =
      do_claim attribution task runner_id runner.hostname w

  unfoldable pub claim_task_loom : Json N → ClaimPayload → W → Claim W N
  claim_task_loom attribution p w =
      claim_chosen attribution p.runner_id
        (and_then
          (admitted (text "command") (text "runner is not registered as a Loom (command) runner") p
            w)
          (λ runner. choose (offered (text "command")) p runner w))
        w

  unfoldable pub claim_task_fabric : Json N → ClaimPayload → W → Claim W N
  claim_task_fabric attribution p w =
      let caps = unwrap_or_default (runner_capabilities p.runner_id w) in
      claim_chosen attribution p.runner_id
        (and_then
          (admitted (text "agent") (text "runner is not registered as a Fabric (agent) runner") p w)
          (λ runner. choose (λ t. offered (text "agent") t && is_capable caps t) p runner w))
        w
