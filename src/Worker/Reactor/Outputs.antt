-- ===== src/Worker/Reactor/Outputs.antt =====
-- Which outputs of parent tasks a finished task lets go, in
-- backend/substrapp/events/handler_compute_engine.py.
use substra_backend.Prelude.{
  ℕ, String, Bool, false, ◌&&◌, ◌==◌, str_eq, ◌≡◌, refl, none, some, List, [], ◌∷◌, any, arith,
}
use substra_backend.Worker.{OrcTaskInput, OrcTask, Attempt, raised, returned, OrcClient}
use substra_backend.Worker.Reactor.{transient_of, get_deletable_task_outputs}

-- The pair is this output.
abbrev pub is_output : String → ℕ → String × ℕ → Bool
is_output identifier key (i, k) = str_eq i identifier && (k == key)

-- The parent's output is transient, and the parent ran here.
abbrev pub lets_go_parent :
    (my_organization : String) → String → Attempt OrcTask → String → ℕ → Bool
lets_go_parent my i (raised e) identifier key = false
lets_go_parent my i (returned parent) identifier key =
    elim (transient_of i parent.outputs) [ none ↦ false | some transient ↦ transient ]
    && str_eq parent.worker my
    && is_output identifier key (i, parent.key)

-- The input refers to this output, which is transient, of a task that ran in this organization.
abbrev pub lets_go : OrcClient → (my_organization : String) → String → ℕ → OrcTaskInput → Bool
lets_go client my identifier key i = elim i.parent_task_key [
  | none ↦ false
  | some parent ↦ elim i.parent_task_output_identifier [
    | none ↦ false
    | some o ↦ lets_go_parent my o (client.query_task parent) identifier key
  ]
]

-- When the list is returned, it has exactly the outputs that an input refers to, that are transient
-- and were produced in this organization.
pub get_deletable_task_outputs-lets_go :
    (client : OrcClient) (my : String) (inputs : List OrcTaskInput) (outputs : List (String × ℕ))
    (identifier : String) (key : ℕ)
    → get_deletable_task_outputs client my inputs ≡ returned outputs
    → any (is_output identifier key) outputs ≡ any (lets_go client my identifier key) inputs
unfolding get_deletable_task_outputs
get_deletable_task_outputs-lets_go client my [] outputs identifier key h = ground arith
get_deletable_task_outputs-lets_go client my (i ∷ is) outputs identifier key h =
    step (get_deletable_task_outputs client my is) refl
      (λ later. get_deletable_task_outputs-lets_go client my is later identifier key)
  where
    step :
        (r : Attempt (List (String × ℕ)))
        → get_deletable_task_outputs client my is ≡ r
        → ((later : List (String × ℕ))
            → get_deletable_task_outputs client my is ≡ returned later
            → any (is_output identifier key) later ≡ any (lets_go client my identifier key) is)
        → any (is_output identifier key) outputs ≡ any (lets_go client my identifier key) (i ∷ is)
    step (raised e) q ih = ground arith
    step (returned later) q ih = ground (arith, ih later)
