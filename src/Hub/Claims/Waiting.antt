-- ===== src/Hub/Claims/Waiting.antt =====
-- crates/fabric-hub/src/routes/tasks.rs: the list of queued tasks whose capabilities no online runner
-- has, and the unsigned claim, which takes no task that asks for capabilities.
use forgewire_fabric.Prelude.{
  Bool, true, false, not, ◌&&◌, ◌||◌, Option, none, some, List, [], ◌∷◌, ◌++◌, map, Text, text,
  text_eq, filter, is_empty, if◌then◌else◌,
}
use forgewire_fabric.Prelude.Int.{ℤ}
use forgewire_fabric.Prelude.Results.{Result, err, okay, and_then, ok_or, map_err, ◌>>=◌}
use forgewire_fabric.Prelude.Json.{
  null, bool, Json, scalar, arr, obj, nil, cons, Fields, end, insert_field, string_value, array,
  object,
}
use forgewire_fabric.Hub.Capabilities.{Numbers}
use forgewire_fabric.Hub.Capabilities.Matching.{match_required}
use forgewire_fabric.Hub.Store.{StoreError, store_text, TaskRow, RunnerRow}
use forgewire_fabric.Hub.Claims.{
  ClaimCalls, failed, refused, queue_empty, Stop, panics, server_error,
}
use forgewire_fabric.Hub.Claims.Routes.{Libraries, Claim, do_claim}

pub record WaitingTask (N : Type 0) : Type 0 where
  pub task_id : ℤ
  pub title : Text
  pub branch : Text
  pub required_capabilities : Json N
  pub missing_per_runner : Fields N

module _ {N : Type 0} where
  abbrev pub is_online : RunnerRow N → Bool
  is_online r =
      (text_eq r.state (text "online") || text_eq r.state (text "degraded"))
      && not r.drain_requested

  -- Requirements that are an array with an item.
  abbrev pub asked_for : Option (Json N) → Option (Json N)
  asked_for (some (arr (cons x xs))) = some (arr (cons x xs))
  asked_for (some (arr nil)) = none
  asked_for (some (scalar s)) = none
  asked_for (some (obj fs)) = none
  asked_for none = none

  abbrev pub waiting_task : TaskRow N → Json N → List Text × Fields N → Option (WaitingTask N)
  waiting_task t required v =
      if is_empty v.0
      then some (record {
        task_id = t.id;
        title = t.title;
        branch = t.branch;
        required_capabilities = required;
        missing_per_runner = v.1;
      })
      else none

  abbrev pub push_some : Option (WaitingTask N) → List (WaitingTask N) → List (WaitingTask N)
  push_some none waiting = waiting
  push_some (some x) waiting = x ∷ waiting

module _ {N : Type 0} (numbers : Numbers N) where
  -- The loop over the runners, with those that satisfy a task and what the others miss.
  unfoldable pub scan :
      Json N → List (RunnerRow N) → List Text → Fields N → Result Stop (List Text × Fields N)
  scan required [] satisfied missing = okay (satisfied, missing)
  scan required (r ∷ rs) satisfied missing =
      and_then (ok_or panics (match_required numbers required r.capabilities)) (λ v.
        scan required rs (if v.0 then satisfied ++ r.runner_id ∷ [] else satisfied)
          (if v.0 then missing else insert_field r.runner_id (array string_value v.1) missing))

  abbrev pub entry_of :
      TaskRow N → List (RunnerRow N) → Option (Json N) → Result Stop (Option (WaitingTask N))
  entry_of t online none = okay none
  entry_of t online (some required) =
      and_then (scan required online [] end) (λ v. okay (waiting_task t required v))

  unfoldable pub collect_waiting :
      List (RunnerRow N) → List (TaskRow N) → Result Stop (List (WaitingTask N))
  collect_waiting online [] = okay []
  collect_waiting online (t ∷ ts) =
      and_then (entry_of t online (asked_for t.required_capabilities))
        (λ o. and_then (collect_waiting online ts) (λ rest. okay (push_some o rest)))

  unfoldable pub list_waiting_tasks :
      {W : Type 0}
      → ClaimCalls W N
      → (W → Result StoreError (List (RunnerRow N)))
      → W
      → Result Stop (List (WaitingTask N) × List Text)
  list_waiting_tasks calls list_runners w = do
    runners ← map_err server_error (list_runners w)
    tasks ← map_err server_error (calls.list_tasks (text "queued") 200 w)
    waiting ← collect_waiting (filter is_online runners) tasks
    okay (waiting, map (λ (r : RunnerRow N). r.runner_id) (filter is_online runners))

pub record LegacyClaimPayload (N : Type 0) : Type 0 where
  pub worker_id : Text
  pub hostname : Text
  pub capabilities : Json N

module _ {W N E K : Type 0} (libraries : Libraries N E K) (calls : ClaimCalls W N) where
  open calls use {list_tasks, append_audit}

  -- `as_array().is_none_or(Vec::is_empty)`
  abbrev is_free : Option (Json N) → Bool
  is_free (some (arr (cons x xs))) = false
  is_free v = true

  abbrev pub is_unsigned : TaskRow N → Bool
  is_unsigned t =
      text_eq t.kind (text "agent") && not t.cancel_requested && is_free t.required_capabilities

  abbrev find_task : List (TaskRow N) → Option (TaskRow N)
  find_task [] = none
  find_task (t ∷ ts) = if is_unsigned t then some t else find_task ts

  abbrev is_given : Json N → Bool
  is_given (scalar null) = false
  is_given v = true

  abbrev degraded_audit : Json N → LegacyClaimPayload N → Json N
  degraded_audit attribution p = object (
      (text "worker_id", string_value p.worker_id)
      ∷ (text "hostname", string_value p.hostname)
      ∷ (text "supplied_capabilities_ignored", scalar (bool (is_given p.capabilities)))
      ∷ (text "posture", string_value (text "degraded"))
      ∷ (text "attribution", attribution)
      ∷ [])

  abbrev claim_found : Json N → LegacyClaimPayload N → Option (TaskRow N) → W → Claim W N
  claim_found attribution p none w = (
    some (okay (refused queue_empty)),
    append_audit (text "legacy_claim_degraded") none (degraded_audit attribution p) w,
  )
  claim_found attribution p (some t) w =
      do_claim libraries calls attribution t p.worker_id p.hostname
        (append_audit (text "legacy_claim_degraded") (some t.id) (degraded_audit attribution p) w)

  abbrev claim_listed :
      Json N → LegacyClaimPayload N → Result StoreError (List (TaskRow N)) → W → Claim W N
  claim_listed attribution p (err e) w = (some (err (failed 500 (store_text e))), w)
  claim_listed attribution p (okay tasks) w = claim_found attribution p (find_task tasks) w

  -- The answer also gets a header and a mark that the claim is degraded.
  unfoldable pub claim_task_legacy : Json N → LegacyClaimPayload N → W → Claim W N
  claim_task_legacy attribution p w =
      claim_listed attribution p (list_tasks (text "queued") 200 w) w
