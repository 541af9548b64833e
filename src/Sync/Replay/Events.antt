-- ===== src/Sync/Replay/Events.antt =====
-- A second delivery of an event, at the level of `sync_on_event_message`.
use substra_backend.Prelude.{◌≡◌, refl, ok}
use substra_backend.Models.{Db, Date}
use substra_backend.Sync.Events.{
  Env, Event, EventKind, event_asset_created, event_asset_updated, event_asset_disabled, Payload,
  organization, function, compute_plan, compute_task, compute_task_output_asset, data_manager,
  data_sample, performance, model, failure_report, profiling_step,
}
use substra_backend.Sync.Assets.{
  create_function, update_function, create_computeplan, create_datamanager, update_datamanager,
  create_datasample, update_datasample, create_model, disable_model, get_or_create_external_user,
  known_data_managers,
}
use substra_backend.Sync.Dispatch.{callback, tagged, sync_on_event_message}
use substra_backend.Sync.Replay.Assets.{
  create_function-replay, update_function-replay, create_datamanager-replay,
  update_datamanager-replay, create_datasample-replay, update_datasample-replay,
  create_model-replay, disable_model-replay,
}
use substra_backend.Sync.Replay.Plans.{create_computeplan-replay, update_computeplan-replay}
use substra_backend.Sync.Replay.Tasks.{at_time, on_update_computetask-replay}
use substra_backend.Sync.Replay.Creation.{on_create_computetask-replay}

-- Every event but the creation of an organization, of an output asset, of a performance, of a
-- failure report and of a profiling step.
abbrev pub IsReplayable : EventKind → Payload → Type 0
IsReplayable event_asset_created (organization _) = ⊥
IsReplayable event_asset_created (compute_task_output_asset _) = ⊥
IsReplayable event_asset_created (performance _) = ⊥
IsReplayable event_asset_created (failure_report _) = ⊥
IsReplayable event_asset_created (profiling_step _) = ⊥
IsReplayable _ _ = Unit

module _ (env : Env) (later : Date) (e : Event) (db db' : Db) where
  callback-replay :
      (kind : EventKind) (p : Payload)
      → IsReplayable kind p
      → callback env e kind p db ≡ ok db'
      → callback (at_time env later) e kind p db' ≡ ok db'
  unfolding callback create_function create_computeplan create_datamanager create_datasample
      create_model get_or_create_external_user update_function update_datamanager update_datasample
      known_data_managers disable_model
  callback-replay event_asset_created (compute_plan d) r h =
      create_computeplan-replay env e.channel d db db' h
  callback-replay event_asset_updated (compute_plan d) r h =
      update_computeplan-replay env (at_time env later) e.asset_key d db db' h
  callback-replay event_asset_created (function d) r h =
      create_function-replay env e.channel d db db' h
  callback-replay event_asset_updated (function d) r h =
      update_function-replay env e.asset_key d db db' h
  callback-replay event_asset_created (compute_task d) r h =
      on_create_computetask-replay env later e.channel d db db' h
  callback-replay event_asset_updated (compute_task d) r h =
      on_update_computetask-replay env later e.timestamp d db db' h
  callback-replay event_asset_created (data_manager d) r h =
      create_datamanager-replay env e.channel d db db' h
  callback-replay event_asset_updated (data_manager d) r h =
      update_datamanager-replay env e.asset_key d db db' h
  callback-replay event_asset_created (data_sample d) r h =
      create_datasample-replay env e.channel d db db' h
  callback-replay event_asset_updated (data_sample d) r h =
      update_datasample-replay env e.asset_key d.data_manager_keys db db' h
  callback-replay event_asset_created (model d) r h = create_model-replay env e.channel d db db' h
  callback-replay event_asset_disabled (model d) r h = disable_model-replay env e.asset_key db db' h
  callback-replay event_asset_created (organization d) r h = absurd r
  callback-replay event_asset_created (performance d) r h = absurd r
  callback-replay event_asset_created (failure_report d) r h = absurd r
  callback-replay event_asset_created (profiling_step d) r h = absurd r
  callback-replay event_asset_created (compute_task_output_asset d) r h = absurd r
  callback-replay _ _ r h = refl

  tagged-IsReplayable :
      (kind : EventKind) (p : Payload) → IsReplayable kind p → IsReplayable kind (tagged p)
  tagged-IsReplayable event_asset_created (compute_task d) r = tt
  tagged-IsReplayable _ _ r = r

  -- An event of a kind that can be delivered again, handled with success and delivered again at
  -- whatever time, is handled with success again and changes nothing.
  pub sync_on_event_message-replay :
      IsReplayable e.event_kind e.payload
      → sync_on_event_message env e db ≡ ok db'
      → sync_on_event_message (at_time env later) e db' ≡ ok db'
  unfolding sync_on_event_message
  sync_on_event_message-replay r h =
      callback-replay e.event_kind (tagged e.payload) (tagged-IsReplayable e.event_kind e.payload r)
        h
