-- ===== src/Job/Spec.antt =====
-- flowgency/jobs/models.py: the checks of a job's specification and of the ticket it works on. The
-- fields have their types here, so the TypeErrors have no counterpart.
pub mod Targets
mod Examples
use flowgency.Common.{
  ℕ, String, ◌≡◌, ◌≢◌, refl, sym, subst, ◌⊎◌, inl, inr, Bool, true, false, not, ◌&&◌, ◌||◌, Option,
  none, some, List, [], ◌∷◌, ◌==◌, ltb, num_eq, if◌then◌else◌, is_blank, contains, Outcome, ok,
  raise, ◌>>=◌, ◌>>◌, require, require-eq-ok, >>=-eq-ok, Bool-cases, Option-cases, arith, eq_iff,
}
use flowgency.Ticket.Models.{TicketRef}
use flowgency.GitEvidence.Refs.{is_object_id}

-- The ValueErrors, one for each `raise`.
pub data SpecError : Type 0 where
  binding_differs target_team_differs workflow_differs : SpecError
  blank_assigned_agent blank_assignment bad_context_digest : SpecError
  bad_version bad_trigger no_job_id no_team_key no_agent_name blank_prompt : SpecError
  skill_set arguments_set old_target stray_target no_prompt_source no_routine stray_routine :
      SpecError
  old_ticket_job no_target no_ticket_prompt other_team other_agent : SpecError

abbrev pub SpecCheck : Type 0
SpecCheck = Outcome SpecError (Unit {0})

-- The identity of a StorageBinding; its id is a digest.
pub record BindingIdentity : Type 0 where
  pub binding_id : String
  pub team_id : String
  pub workflow_id : String

pub record TicketJobTarget : Type 0 where
  pub binding : BindingIdentity
  pub ref : TicketRef
  pub assigned_agent : String
  pub assignment_event_id : String
  pub context_digest : String

-- TicketJobTarget.__post_init__
unfoldable pub check_target : TicketJobTarget → SpecCheck
check_target t = do
  require (t.ref.binding_id == t.binding.binding_id) binding_differs
  require (t.ref.team_id == t.binding.team_id) target_team_differs
  require (t.ref.workflow_id == t.binding.workflow_id) workflow_differs
  require (not (is_blank t.assigned_agent)) blank_assigned_agent
  require (not (is_blank t.assignment_event_id)) blank_assignment
  require (is_object_id t.context_digest 64) bad_context_digest

-- What the checks read of a prompt source: its type, when that is a text.
pub record PromptSource : Type 0 where
  pub type : Option String

-- The fields that the checks read.
pub record SpecFields : Type 0 where
  pub schema_version : ℕ
  pub job_id : String
  pub team_key : String
  pub agent_name : String
  pub trigger : String
  pub routine_id : Option String
  pub skill : Option String
  pub skill_arguments : List String
  pub task_input : String
  pub prompt_source : Option PromptSource
  pub ticket_target : Option TicketJobTarget

abbrev pub is_set {ℓ} : {A : Type ℓ} → Option A → Bool
is_set none = false
is_set (some a) = true

abbrev pub valid_triggers : List String
valid_triggers =
    "scheduled_prompt" ∷ "manual_prompt" ∷ "decision" ∷ "decision_retry" ∷ "ticket" ∷ []

abbrev pub no_arguments : List String → Bool
no_arguments [] = true
no_arguments (a ∷ as_) = false

-- not routine_id
abbrev pub names_routine : Option String → Bool
names_routine none = false
names_routine (some r) = not (r == "")

unfoldable pub check_prompt : SpecFields → SpecCheck
check_prompt s =
    if s.trigger == "scheduled_prompt" || s.trigger == "manual_prompt"
    then require (is_set s.prompt_source) no_prompt_source
      >> require (not (s.trigger == "scheduled_prompt") || names_routine s.routine_id) no_routine
    else ok tt

unfoldable pub check_decision : SpecFields → SpecCheck
check_decision s =
    require
      (not ((s.trigger == "decision" || s.trigger == "decision_retry") && is_set s.routine_id))
      stray_routine

abbrev pub is_ticket_prompt : Option PromptSource → Bool
is_ticket_prompt none = false
is_ticket_prompt (some source) = elim source.type [ none ↦ false | some text ↦ text == "ticket" ]

unfoldable pub check_ticket_target : SpecFields → Option TicketJobTarget → SpecCheck
check_ticket_target s none = raise no_target
check_ticket_target s (some target) = do
  require (is_ticket_prompt s.prompt_source) no_ticket_prompt
  require (target.ref.team_id == s.team_key) other_team
  require (target.assigned_agent == s.agent_name) other_agent

unfoldable pub check_ticket : SpecFields → SpecCheck
unfolding check_ticket_target
check_ticket s =
    if s.trigger == "ticket"
    then require (not (ltb s.schema_version 6)) old_ticket_job
      >> check_ticket_target s s.ticket_target
    else ok tt

-- JobSpec._validate_trigger_contract
unfoldable pub validate_trigger_contract : SpecFields → SpecCheck
unfolding check_prompt check_decision check_ticket
validate_trigger_contract s = do
  require (not (is_set s.skill)) skill_set
  require (no_arguments s.skill_arguments) arguments_set
  require (not (num_eq s.schema_version 5 && is_set s.ticket_target)) old_target
  require (s.trigger == "ticket" || not (is_set s.ticket_target)) stray_target
  check_prompt s
  check_decision s
  check_ticket s

-- JobSpec.validate
unfoldable pub validate_spec : SpecFields → SpecCheck
unfolding validate_trigger_contract
validate_spec s = do
  require (num_eq s.schema_version 5 || num_eq s.schema_version 6) bad_version
  require (contains s.trigger valid_triggers) bad_trigger
  require (not (is_blank s.job_id)) no_job_id
  require (not (is_blank s.team_key)) no_team_key
  require (not (is_blank s.agent_name)) no_agent_name
  require (not (is_blank s.task_input)) blank_prompt
  validate_trigger_contract s
