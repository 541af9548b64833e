-- ===== src/Sync/Replay/Plans.antt =====
-- The handlers for compute plans, called twice.
use substra_backend.Prelude.{
  ℕ, String, ◌≡◌, refl, sym, ◌∙◌, ap, some, List, Result, ok, or_raise-eq-ok, ok-injective,
  does_not_exist, inl, inr, arith,
}
use substra_backend.Models.{Db, Date, ComputePlan, ComputeTask}
use substra_backend.Store.{get?, save, exists}
use substra_backend.Store.Laws.{save-save, exists-save_self, get?-save_edited, save-save_self}
use substra_backend.Sync.Events.{Env, PlanData, compute_plan}
use substra_backend.Sync.Assets.{
  plan_key, get_or_create_external_user, create_computeplan, update_computeplan, plan_row,
}
use substra_backend.Sync.Replay.Saved.{insert-replay, attempt, saved-eq-ok}
use substra_backend.Sync.Refresh.{
  refreshed, refreshed-IsSettled, key-refreshed, key-update_end_date,
}
use substra_backend.ComputePlan.{update_end_date}
use substra_backend.ComputePlan.Status.{update_status-settled}
use substra_backend.ComputePlan.EndDate.{update_end_date-next}

module _ (env : Env) where
  known_external_user :
      (db : Db) (user : ℕ)
      → db.external_user ≡ some user
      → get_or_create_external_user env db ≡ (user, db)
  unfolding get_or_create_external_user
  known_external_user db user e = ground arith

  creates_external_user :
      (db : Db)
      → (get_or_create_external_user env db).1.external_user
        ≡ some (get_or_create_external_user env db).0
  unfolding get_or_create_external_user
  creates_external_user db = ground arith

  abbrev insert_plan : String → ℕ → PlanData → Db → Db
  insert_plan channel user p b = record b {
    plans = save plan_key (plan_row channel user p) b.plans;
  }

  -- The part of `create_computeplan` that follows `get_or_create_external_user`.
  abbrev attempt_plan : String → ℕ → PlanData → Db → Result Db
  attempt_plan channel user p =
      attempt (λ b. exists plan_key p.key b.plans) (λ _. env.field_errors (compute_plan p))
        (λ b. ok (insert_plan channel user p b))

  external_user-attempt_plan :
      (channel : String) (user : ℕ) (p : PlanData) (db db' : Db)
      → attempt_plan channel user p db ≡ ok db'
      → db'.external_user ≡ db.external_user
  external_user-attempt_plan channel user p db db' h =
      elim (saved-eq-ok _ _ (ok (insert_plan channel user p db)) db db' h).1 [
        | inl (same, _) ↦ ap (λ (b : Db). b.external_user) same
        | inr new ↦ ap (λ (b : Db). b.external_user) (sym (ok-injective _ _ new))
      ]

  pub create_computeplan-replay :
      (channel : String) (p : PlanData) (db db' : Db)
      → create_computeplan env channel p db ≡ ok db'
      → create_computeplan env channel p db' ≡ ok db'
  unfolding create_computeplan
  create_computeplan-replay channel p db db' h =
      let user = (get_or_create_external_user env db).0 in
      let before = (get_or_create_external_user env db).1 in
      let known =
        external_user-attempt_plan channel user p before db' h ∙ creates_external_user db in
      rw (known_external_user db' user known) (
        insert-replay (λ b. exists plan_key p.key b.plans) (λ _. env.field_errors (compute_plan p))
          (insert_plan channel user p) before db'
          (exists-save_self plan_key (plan_row channel user p) before.plans) (λ z. z) h)

-- The fields that `_update_computeplan` sets.
abbrev renamed : PlanData → ComputePlan → ComputePlan
renamed p plan = record plan { cancelation_date = p.cancelation_date; name = p.name }

renamed-refreshed :
    (now : Date) (p : PlanData) (plan : ComputePlan) (tasks : List ComputeTask)
    → renamed p (refreshed now (renamed p plan) tasks) ≡ refreshed now (renamed p plan) tasks
renamed-refreshed now p plan tasks =
    rw (update_end_date-next (renamed p plan) tasks, update_status-settled now) refl

-- What `update_computeplan` did, if it did not raise.
update_computeplan-eq-ok :
    (env : Env) (key : ℕ) (p : PlanData) (db db' : Db)
    → update_computeplan env key p db ≡ ok db'
    → (plan : ComputePlan) × (get? plan_key key db.plans ≡ some plan)
      × (db' ≡ record db {
        plans = save plan_key (refreshed env.now (renamed p plan) db.tasks) db.plans;
      })
unfolding update_computeplan
update_computeplan-eq-ok env key p db db' h =
    let (plan, found, e) = or_raise-eq-ok does_not_exist (get? plan_key key db.plans) _ h in
    let ended = update_end_date (renamed p plan) db.tasks in
    (
      plan,
      found,
      sym (ok-injective _ _ e)
          ∙ ap (λ (ps : List ComputePlan). record db { plans = ps })
              (ap
                  (λ (ps : List ComputePlan).
                    save plan_key (refreshed env.now (renamed p plan) db.tasks) ps)
                  (save-save plan_key (renamed p plan) ended db.plans
                    (key-update_end_date (renamed p plan) db.tasks))
                ∙ save-save plan_key ended (refreshed env.now (renamed p plan) db.tasks) db.plans (
                    key-refreshed env.now (renamed p plan) db.tasks
                    ∙ sym (key-update_end_date (renamed p plan) db.tasks))),
    )

-- A second update, at whatever time, changes nothing.
pub update_computeplan-replay :
    (env later : Env) (key : ℕ) (p : PlanData) (db db' : Db)
    → update_computeplan env key p db ≡ ok db'
    → update_computeplan later key p db' ≡ ok db'
unfolding update_computeplan
update_computeplan-replay env later key p db db' h =
    let (plan, found, e) = update_computeplan-eq-ok env key p db db' h in
    let row = refreshed env.now (renamed p plan) db.tasks in
    let settled = refreshed-IsSettled env.now (renamed p plan) db.tasks in
    let same = save-save_self plan_key row db.plans in
    rw e (
      rw
        (
          get?-save_edited plan_key key plan row db.plans found
              (key-refreshed env.now (renamed p plan) db.tasks),
          renamed-refreshed env.now p plan db.tasks,
          settled.end_date_fixed,
          settled.status_fixed later.now,
          same,
          same,
          same,
        )
        refl)
