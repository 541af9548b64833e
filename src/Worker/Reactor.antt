-- ===== src/Worker/Reactor.antt =====
-- The handlers of events of backend/substrapp/events/reactor.py and handler_compute_engine.py.
pub mod Outputs
pub mod Queued
pub mod Deleting
use substra_backend.Prelude.{
  ℕ, String, Bool, true, false, ◌+◌, ◌==◌, ◌&&◌, ◌||◌, not, str_eq, Option, none, some, List, [],
  ◌∷◌, ◌++◌, any, if◌then◌else◌, Result, ok, err,
}
use substra_backend.Worker.{
  OrcTaskStatus, status_done, status_canceled, status_failed, status_waiting_for_executor_slot,
  OrcTaskInput, OrcTask, Failure, type_error, key_error, Attempt, raised, returned, OrcClient,
}
use substra_backend.Worker.Queueing.{
  Engine, apply_async, queue_compute_task, queue_delete_cp_pod_and_dirs, remove_transient_outputs,
  remove_model_from_buffers, remove_model_from_db, build_and_save_image,
}

-- EventKind
pub data EngineEventKind : Type 0 where
  event_unknown : EngineEventKind
  event_asset_created : EngineEventKind
  event_asset_updated : EngineEventKind
  event_asset_disabled : EngineEventKind

-- The event, by the kind of its asset.
pub data EnginePayload : Type 0 where
  compute_task : OrcTask → EnginePayload
  model : (key : ℕ) (owner : String) → EnginePayload
  function : (key : ℕ) (owner : String) → EnginePayload
  other_asset : EnginePayload

abbrev pub is_finished : OrcTaskStatus → Bool
is_finished status_done = true
is_finished status_canceled = true
is_finished status_failed = true
is_finished _ = false

abbrev pub waits_for_executor : OrcTaskStatus → Bool
waits_for_executor status_waiting_for_executor_slot = true
waits_for_executor _ = false

abbrev pub creates_or_updates : EngineEventKind → Bool
creates_or_updates event_asset_created = true
creates_or_updates event_asset_updated = true
creates_or_updates _ = false

abbrev pub creates : EngineEventKind → Bool
creates event_asset_created = true
creates _ = false

abbrev pub disables : EngineEventKind → Bool
disables event_asset_disabled = true
disables _ = false

-- task.outputs[identifier].transient, which raises on a missing identifier
abbrev pub transient_of : String → List (String × Bool) → Option Bool
transient_of identifier [] = none
transient_of identifier ((i, transient) ∷ outputs) =
    if str_eq i identifier then some transient else transient_of identifier outputs

-- One element of `outputs` before those of the inputs that follow, if it is to be yielded.
abbrev yield : Bool → String × ℕ → List (String × ℕ) → List (String × ℕ)
yield true output rest = output ∷ rest
yield false output rest = rest

module _ (client : OrcClient) (my_organization : String) where
  -- The filters of `_filter_outputs_generated_by_worker` and `_filter_transient_outputs`.
  abbrev pub deletable : String → OrcTask → Attempt Bool
  deletable identifier parent =
      if str_eq parent.worker my_organization
      then elim (transient_of identifier parent.outputs) [
        | none ↦ raised key_error
        | some transient ↦ returned transient
      ]
      else returned false

  -- The producer of an input, by `_map_producer_to_input`.
  abbrev pub producer : ℕ → Option String → Attempt (String × OrcTask)
  producer parent none = raised type_error
  producer parent (some identifier) = elim (client.query_task parent) [
    | raised e ↦ raised e
    | returned t ↦ returned (identifier, t)
  ]

  abbrev cons_deletable :
      Attempt (String × OrcTask) → Attempt (List (String × ℕ)) → Attempt (List (String × ℕ))
  cons_deletable (raised e) rest = raised e
  cons_deletable (returned (identifier, parent)) rest = elim (deletable identifier parent) [
    | raised e ↦ raised e
    | returned wanted ↦ elim rest [
      | raised e ↦ raised e
      | returned outputs ↦ returned (yield wanted (identifier, parent.key) outputs)
    ]
  ]

  -- The chain of the four generators runs input by input.
  unfoldable pub get_deletable_task_outputs : List OrcTaskInput → Attempt (List (String × ℕ))
  get_deletable_task_outputs [] = returned []
  get_deletable_task_outputs (i ∷ is) =
      let rest = get_deletable_task_outputs is in
      elim i.parent_task_key [
        | none ↦ rest
        | some parent ↦ cons_deletable (producer parent i.parent_task_output_identifier) rest
      ]

  unfoldable pub handle_finished_task : OrcTask → Engine → Attempt Engine
  handle_finished_task task s = elim (get_deletable_task_outputs task.inputs) [
    | raised e ↦ raised e
    | returned outputs ↦ returned (apply_async (remove_transient_outputs outputs) s)
  ]

  -- The first `if` of `on_computetask_event`.
  unfoldable pub clean_up : (debug_keep_pod_and_dirs : Bool) → OrcTask → Engine → Attempt Engine
  clean_up debug_keep_pod_and_dirs task s =
      if is_finished task.status
      then elim (handle_finished_task task s) [
        | raised e ↦ raised e
        | returned after ↦ elim (client.is_compute_plan_running task.compute_plan_key) [
          | raised e ↦ raised e
          | returned running ↦
              if running
              then returned after
              else returned
                  (queue_delete_cp_pod_and_dirs debug_keep_pod_and_dirs task.compute_plan_key after)
        ]
      ]
      else returned s

  unfoldable pub on_computetask_event :
      (debug_keep_pod_and_dirs : Bool) (num_workers : ℕ)
      → EngineEventKind
      → OrcTask
      → Engine
      → Attempt Engine
  on_computetask_event debug_keep_pod_and_dirs num_workers kind task s =
      elim (clean_up debug_keep_pod_and_dirs task s) [
        | raised e ↦ raised e
        | returned after ↦
            if not (waits_for_executor task.status)
            then returned after
            else if not (creates_or_updates kind)
            then returned after
            else if not (str_eq task.worker my_organization)
            then returned after
            else queue_compute_task client num_workers task after
      ]

  -- on_function_event, and handle_disabled_model by on_model_event
  unfoldable pub on_function_event : EngineEventKind → ℕ → (owner : String) → Engine → Engine
  on_function_event kind key owner s =
      if creates kind
      then (if str_eq owner my_organization then apply_async (build_and_save_image key) s else s)
      else s

  unfoldable pub on_model_event : EngineEventKind → ℕ → (owner : String) → Engine → Engine
  on_model_event kind key owner s =
      if disables kind
      then (let removed = apply_async (remove_model_from_buffers key) s in
          if str_eq owner my_organization
          then apply_async (remove_model_from_db key) removed
          else removed)
      else s

  unfoldable pub on_message_compute_engine :
      (debug_keep_pod_and_dirs : Bool) (num_workers : ℕ)
      → EngineEventKind
      → EnginePayload
      → Engine
      → Attempt Engine
  on_message_compute_engine debug num_workers kind (compute_task task) s =
      on_computetask_event debug num_workers kind task s
  on_message_compute_engine debug num_workers kind (model key owner) s =
      returned (on_model_event kind key owner s)
  on_message_compute_engine debug num_workers kind (function key owner) s =
      returned (on_function_event kind key owner s)
  on_message_compute_engine debug num_workers kind other_asset s = returned s
