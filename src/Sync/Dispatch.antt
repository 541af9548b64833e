-- ===== src/Sync/Dispatch.antt =====
-- EVENT_CALLBACKS and `sync_on_event_message` of backend/api/events/sync.py, and the loop of
-- backend/api/events/reactor.py that consumes the events of a channel.
use substra_backend.Prelude.{String, Option, none, some, List, [], ◌∷◌, Result, ok, err, Error}
use substra_backend.Models.{Db}
use substra_backend.Sync.Events.{
  Env, Event, EventKind, event_asset_created, event_asset_updated, event_asset_disabled, Payload,
  organization, function, compute_plan, compute_task, compute_task_output_asset, data_manager,
  data_sample, performance, model, failure_report, profiling_step,
}
use substra_backend.Sync.Assets.{
  create_organization, create_function, update_function, create_computeplan, update_computeplan,
  create_datamanager, update_datamanager, create_datasample, update_datasample, create_model,
  disable_model, create_profiling_step,
}
use substra_backend.Sync.Tasks.{
  add_tag_from_metadata, on_create_computetask, on_update_computetask, on_create_failure_report,
}
use substra_backend.Sync.Outputs.{create_computetask_output_asset, create_performance}

-- EVENT_CALLBACKS.get(asset_kind, {}).get(event_kind)(event); a pair that is not in the table
-- writes nothing.
unfoldable pub callback : Env → Event → EventKind → Payload → Db → Result Db
callback env e event_asset_created (compute_plan d) = create_computeplan env e.channel d
callback env e event_asset_updated (compute_plan d) = update_computeplan env e.asset_key d
callback env e event_asset_created (function d) = create_function env e.channel d
callback env e event_asset_updated (function d) = update_function env e.asset_key d
callback env e event_asset_created (compute_task d) = on_create_computetask env e.channel d
callback env e event_asset_updated (compute_task d) = on_update_computetask env e.timestamp d
callback env e event_asset_created (compute_task_output_asset d) =
    create_computetask_output_asset e.channel d
callback env e event_asset_created (data_manager d) = create_datamanager env e.channel d
callback env e event_asset_updated (data_manager d) = update_datamanager env e.asset_key d
callback env e event_asset_created (data_sample d) = create_datasample env e.channel d
callback env e event_asset_updated (data_sample d) =
    update_datasample env e.asset_key d.data_manager_keys
callback env e event_asset_created (model d) = create_model env e.channel d
callback env e event_asset_disabled (model d) = disable_model env e.asset_key
callback env e event_asset_created (organization d) = create_organization env e.channel d
callback env e event_asset_created (performance d) = create_performance env e.channel d
callback env e event_asset_created (failure_report d) = on_create_failure_report env e.asset_key d
callback env e event_asset_created (profiling_step d) = create_profiling_step env e.asset_key d
callback env e _ _ = λ db. ok db

abbrev pub tagged : Payload → Payload
tagged (compute_task d) = compute_task (add_tag_from_metadata d)
tagged p = p

unfoldable pub sync_on_event_message : Env → Event → Db → Result Db
sync_on_event_message env e = callback env e e.event_kind (tagged e.payload)

-- The state that a consumer of a channel leaves: the database, and the id of the last event that it
-- has handled.
pub record Consumer : Type 0 where
  pub db : Db
  pub last_event : String

-- `for event in ...: on_event(event); last_event.event_id = event["id"]; last_event.save()`. Each
-- event is handled in an environment of its own. An exception rolls back the writes of its event
-- (`transaction.atomic`) and ends the loop.
unfoldable pub consume_channel : List (Env × Event) → Consumer → Consumer × Option Error
consume_channel [] c = (c, none)
consume_channel ((env, e) ∷ events) c = elim (sync_on_event_message env e c.db) [
  | ok db ↦ consume_channel events (record { db = db; last_event = e.id })
  | err error ↦ (c, some error)
]
