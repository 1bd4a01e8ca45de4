-- ===== src/Hub/Claims/Unmet.antt =====
-- crates/fabric-hub/src/routes/tasks.rs: which tasks are listed as waiting.
use mathlib.Core.Path.{subst}
use forgewire_fabric.Prelude.{
  ◌≡◌, refl, sym, ap, ◌∙◌, ◌↔◌, Bool, true, false, Option, none, some, List, [], ◌∷◌, ◌++◌, map,
  Text, text, All, filter, is_empty, if◌then◌else◌, iff_trans, some-injective, if_ind, if_ind,
}
use forgewire_fabric.Prelude.Results.{
  Result, okay, ok_or, map_err, map_err-okay, and_then-okay, okay-injective,
}
use forgewire_fabric.Prelude.Json.{Json, Fields, end}
use forgewire_fabric.Hub.Capabilities.{Numbers}
use forgewire_fabric.Hub.Capabilities.Matching.{match_required, required_items}
use forgewire_fabric.Hub.Capabilities.Resolve.{as_str}
use forgewire_fabric.Hub.Capabilities.Matching.Panics.{Meets, match_required_verdict}
use forgewire_fabric.Hub.Store.{StoreError, TaskRow, RunnerRow}
use forgewire_fabric.Hub.Claims.{ClaimCalls, panics, server_error}
use forgewire_fabric.Hub.Claims.Waiting.{
  WaitingTask, is_online, asked_for, scan, waiting_task, entry_of, push_some, collect_waiting,
  list_waiting_tasks,
}

module _ {N : Type 0} (numbers : Numbers N) where
  abbrev pub Satisfies : Json N → RunnerRow N → Type 0
  Satisfies required r =
      All (λ v. Meets numbers r.capabilities (as_str v)) (required_items numbers required)

  -- A task with requirements that none of the runners satisfies.
  abbrev pub IsWaiting : List (RunnerRow N) → TaskRow N → Type 0
  IsWaiting online t =
      (required : Json N) × (asked_for t.required_capabilities ≡ some required)
      × All (λ r. ¬ Satisfies required r) online

  -- The entries are those of the waiting tasks, in the order of the tasks.
  pub data Lists (online : List (RunnerRow N))
      : List (TaskRow N) → List (WaitingTask N) → Type 0 where
    done : Lists online [] []
    listed :
        {t : TaskRow N} {x : WaitingTask N} {ts : List (TaskRow N)} {xs : List (WaitingTask N)}
        → IsWaiting online t
        → x.task_id ≡ t.id
        → asked_for t.required_capabilities ≡ some x.required_capabilities
        → Lists online ts xs
        → Lists online (t ∷ ts) (x ∷ xs)
    passed :
        {t : TaskRow N} {ts : List (TaskRow N)} {xs : List (WaitingTask N)}
        → ¬ IsWaiting online t
        → Lists online ts xs
        → Lists online (t ∷ ts) xs

  ok_or-okay : {A : Type 0} (o : Option A) (a : A) → ok_or panics o ≡ okay a → o ≡ some a
  ok_or-okay none a h = cc
  ok_or-okay (some b) a h = ap some (okay-injective b a h)

  stepped :
      {P Q : Type 0} (b : Bool) (s : List Text) (id : Text)
      → (b ≡ true) ↔ P
      → ((is_empty (if b then s ++ id ∷ [] else s) ≡ true) × Q)
        ↔ ((is_empty s ≡ true) × ((¬ P) × Q))
  stepped true [] id i = (λ h. cc, λ h. absurd (h.1.0 (i.0 refl)))
  stepped true (t ∷ s) id i = (λ h. cc, λ h. cc)
  stepped false s id i = (λ h. (h.0, (λ p. cc (i.1 p), h.1)), λ h. (h.0, h.1.1))

  -- How a satisfied runner shows in the list of them.
  scan_satisfied :
      (required : Json N) (rs : List (RunnerRow N)) (s : List Text) (m : Fields N)
      (out : List Text × Fields N)
      → scan numbers required rs s m ≡ okay out
      → (is_empty out.0 ≡ true) ↔ ((is_empty s ≡ true) × All (λ r. ¬ Satisfies required r) rs)
  unfolding scan
  scan_satisfied required [] s m out h =
      let same = ap (λ (o : List Text × Fields N). is_empty o.0) (okay-injective (s, m) out h) in
      (λ e. (same ∙ e, tt), λ e. sym same ∙ e.0)
  scan_satisfied required (r ∷ rs) s m out h =
      let (v, is, later) =
        and_then-okay (ok_or panics (match_required numbers required r.capabilities)) _ out h in
      let meets = match_required_verdict numbers required r.capabilities v (ok_or-okay _ v is) in
      iff_trans (scan_satisfied required rs _ _ out later) (stepped v.0 s r.runner_id meets)

  -- What an entry says of its task.
  IsEntry : List (RunnerRow N) → TaskRow N → Option (WaitingTask N) → Type 0
  IsEntry online t none = ¬ IsWaiting online t
  IsEntry online t (some x) =
      IsWaiting online t
      × (x.task_id ≡ t.id)
      × (asked_for t.required_capabilities ≡ some x.required_capabilities)

  asked-IsEntry :
      (online : List (RunnerRow N)) (t : TaskRow N) (required : Json N) (v : List Text × Fields N)
      → asked_for t.required_capabilities ≡ some required
      → (is_empty v.0 ≡ true) ↔ All (λ r. ¬ Satisfies required r) online
      → IsEntry online t (waiting_task t required v)
  unfolding IsEntry
  asked-IsEntry online t required v asked i =
      if_ind (IsEntry online t) (is_empty v.0) _ _ (λ e. ((required, asked, i.0 e), refl, asked))
        (λ e h.
          let (r, is, unmet) = h in
          let same = some-injective (sym asked ∙ is) in
          cc (e, i.1 (subst (λ r. All (λ x. ¬ Satisfies r x) online) (sym same) unmet)))

  entry_of-IsEntry :
      (online : List (RunnerRow N)) (t : TaskRow N) (a : Option (Json N))
      (o : Option (WaitingTask N))
      → asked_for t.required_capabilities ≡ a
      → entry_of numbers t online a ≡ okay o
      → IsEntry online t o
  entry_of-IsEntry online t none o asked h =
      subst (IsEntry online t) (okay-injective none o h) (unfold IsEntry in (λ w. cc (asked, w.1)))
  entry_of-IsEntry online t (some required) o asked h =
      let (v, scanned, is) = and_then-okay (scan numbers required online [] end) _ o h in
      let s = scan_satisfied required online [] end v scanned in
      subst (IsEntry online t) (okay-injective _ o is)
        (asked-IsEntry online t required v asked (λ e. (s.0 e).1, λ u. s.1 (refl, u)))

  push-Lists :
      (online : List (RunnerRow N)) (t : TaskRow N) (ts : List (TaskRow N))
      (o : Option (WaitingTask N)) (xs : List (WaitingTask N))
      → IsEntry online t o
      → Lists online ts xs
      → Lists online (t ∷ ts) (push_some o xs)
  unfolding IsEntry
  push-Lists online t ts none xs e l = passed e l
  push-Lists online t ts (some x) xs e l = listed e.0 e.1 e.2 l

  collect_waiting-Lists :
      (online : List (RunnerRow N)) (ts : List (TaskRow N)) (xs : List (WaitingTask N))
      → collect_waiting numbers online ts ≡ okay xs
      → Lists online ts xs
  unfolding collect_waiting
  collect_waiting-Lists online [] xs h = subst (Lists online []) (okay-injective [] xs h) done
  collect_waiting-Lists online (t ∷ ts) xs h =
      let (o, e, h1) =
        and_then-okay (entry_of numbers t online (asked_for t.required_capabilities)) _ xs h in
      let (rest, c, h2) = and_then-okay (collect_waiting numbers online ts) _ xs h1 in
      subst (Lists online (t ∷ ts)) (okay-injective (push_some o rest) xs h2) (
        push-Lists online t ts o rest (entry_of-IsEntry online t _ o refl e)
          (collect_waiting-Lists online ts rest c))

  -- When the list of waiting tasks is answered, it has an entry, in the order of the queue, for
  -- exactly the tasks that ask for capabilities in a list with an item and are satisfied by no
  -- runner that is online or degraded and not draining; and the answer names these runners.
  pub list_waiting_tasks-Lists :
      {W : Type 0} (calls : ClaimCalls W N)
      (list_runners : W → Result StoreError (List (RunnerRow N))) (w : W)
      (xs : List (WaitingTask N)) (ids : List Text)
      → list_waiting_tasks numbers calls list_runners w ≡ okay (xs, ids)
      → (runners : List (RunnerRow N)) × (tasks : List (TaskRow N)) × (list_runners w
          ≡ okay runners)
        × (calls.list_tasks (text "queued") 200 w ≡ okay tasks)
        × Lists (filter is_online runners) tasks xs
        × (ids ≡ map (λ (r : RunnerRow N). r.runner_id) (filter is_online runners))
  unfolding list_waiting_tasks
  list_waiting_tasks-Lists calls list_runners w xs ids h =
      let (runners, r, h1) = and_then-okay (map_err server_error (list_runners w)) _ (xs, ids) h in
      let (tasks, t, h2) =
        and_then-okay (map_err server_error (calls.list_tasks (text "queued") 200 w)) _ (xs, ids)
          h1 in
      let (waiting, c, h3) =
        and_then-okay (collect_waiting numbers (filter is_online runners) tasks) _ (xs, ids) h2 in
      let same = okay-injective _ (xs, ids) h3 in
      (
        runners,
        tasks,
        map_err-okay server_error _ runners r,
        map_err-okay server_error _ tasks t,
        subst (Lists (filter is_online runners) tasks) (ap (λ s. s.0) same)
            (collect_waiting-Lists (filter is_online runners) tasks waiting c),
        sym (ap (λ s. s.1) same),
      )
