-- ===== src/Job/Spec/Targets.antt =====
-- The ticket that a valid job works on.
use flowgency.Common.{
  ◌≡◌, ◌≢◌, refl, ◌⊎◌, inl, inr, true, false, not, ◌&&◌, ◌||◌, Option, none, some, ◌==◌, ltb,
  num_eq, is_blank, contains, ok, raise, ◌>>◌, require, require-eq-ok, Bool-cases, arith, eq_iff,
}
use flowgency.Job.Spec.{
  SpecCheck, TicketJobTarget, SpecFields, check_target, check_prompt, check_decision,
  check_ticket_target, check_ticket, validate_trigger_contract, validate_spec, is_set, bad_version,
  bad_trigger, no_job_id, no_team_key, no_agent_name, blank_prompt, skill_set, arguments_set,
  old_target, stray_target, old_ticket_job, valid_triggers, no_arguments,
}

-- A ticket job has a target of its own team and agent, and the newer version of the schema.
pub record IsTicketJob (s : SpecFields) : Type 0 where
  pub target : TicketJobTarget
  pub stored : s.ticket_target ≡ some target
  pub version : s.schema_version ≡ 6
  pub same_team : target.ref.team_id ≡ s.team_key
  pub bound_team : target.binding.team_id ≡ s.team_key
  pub same_agent : target.assigned_agent ≡ s.agent_name
  pub assigned : is_blank target.assignment_event_id ≡ false

-- The targets of a specification, of which there is at most one.
abbrev pub CheckedTarget : Option TicketJobTarget → Type 0
CheckedTarget none = Unit
CheckedTarget (some target) = check_target target ≡ ok tt

target_facts :
    (s : SpecFields) (target : TicketJobTarget)
    → s.schema_version ≡ 6
    → s.ticket_target ≡ some target
    → check_target target ≡ ok tt
    → check_ticket_target s (some target) ≡ ok tt
    → IsTicketJob s
unfolding check_target check_ticket_target
target_facts s target version stored checked fits = record {
  target = target;
  stored = stored;
  version = version;
  same_team = ground (arith, eq_iff target.ref.team_id s.team_key);
  bound_team = ground (
    arith,
    eq_iff target.ref.team_id s.team_key,
    eq_iff target.ref.team_id target.binding.team_id,
  );
  same_agent = ground (arith, eq_iff target.assigned_agent s.agent_name);
  assigned = ground arith;
}

then_ok : (m k : SpecCheck) → m >> k ≡ ok tt → (m ≡ ok tt) × (k ≡ ok tt)
then_ok (ok tt) k h = (refl, h)
then_ok (raise e) k h = cc

contract_facts :
    (s : SpecFields)
    → validate_trigger_contract s ≡ ok tt
    → ((s.trigger == "ticket" || not (is_set s.ticket_target)) ≡ true) × (check_ticket s ≡ ok tt)
unfolding validate_trigger_contract
contract_facts s h =
    let (_, a) = then_ok (require (not (is_set s.skill)) skill_set) _ h in
    let (_, b) = then_ok (require (no_arguments s.skill_arguments) arguments_set) _ a in
    let (_, c) =
      then_ok (require (not (num_eq s.schema_version 5 && is_set s.ticket_target)) old_target) _
        b in
    let (stray, d) =
      then_ok (require (s.trigger == "ticket" || not (is_set s.ticket_target)) stray_target) _ c in
    let (_, e) = then_ok (check_prompt s) _ d in
    let (_, last) = then_ok (check_decision s) _ e in (require-eq-ok _ stray_target stray, last)

spec_facts :
    (s : SpecFields)
    → validate_spec s ≡ ok tt
    → ((num_eq s.schema_version 5 || num_eq s.schema_version 6) ≡ true)
      × (validate_trigger_contract s ≡ ok tt)
unfolding validate_spec
spec_facts s h =
    let (version, a) =
      then_ok (require (num_eq s.schema_version 5 || num_eq s.schema_version 6) bad_version) _ h in
    let (_, b) = then_ok (require (contains s.trigger valid_triggers) bad_trigger) _ a in
    let (_, c) = then_ok (require (not (is_blank s.job_id)) no_job_id) _ b in
    let (_, d) = then_ok (require (not (is_blank s.team_key)) no_team_key) _ c in
    let (_, e) = then_ok (require (not (is_blank s.agent_name)) no_agent_name) _ d in
    let (_, contract) = then_ok (require (not (is_blank s.task_input)) blank_prompt) _ e in
    (require-eq-ok _ bad_version version, contract)

ticket_facts :
    (s : SpecFields) (o : Option TicketJobTarget)
    → s.ticket_target ≡ o
    → s.schema_version ≡ 6
    → CheckedTarget o
    → check_ticket_target s o ≡ ok tt
    → IsTicketJob s
unfolding check_ticket_target
ticket_facts s none stored version checked fits = cc
ticket_facts s (some target) stored version checked fits =
    target_facts s target version stored checked fits

-- A valid specification whose target passed its own checks is either of a ticket job, with a target
-- of the job's team in both its ref and its binding, of the job's agent, and of a named assignment,
-- or of another trigger and without a target.
pub validate_spec-IsTicketJob :
    (s : SpecFields)
    → CheckedTarget s.ticket_target
    → validate_spec s ≡ ok tt
    → ((s.trigger ≡ "ticket") × IsTicketJob s) ⊎ ((s.trigger ≢ "ticket") × (s.ticket_target ≡ none))
unfolding check_ticket
validate_spec-IsTicketJob s checked h =
    let (version, contract) = spec_facts s h in
    let (stray, last) = contract_facts s contract in
    elim (Bool-cases (s.trigger == "ticket")) [
      | inl same ↦
          let (new, fits) =
            then_ok (require (not (ltb s.schema_version 6)) old_ticket_job) _ (rw same at last) in
          let current : s.schema_version ≡ 6 = ground (arith, require-eq-ok _ old_ticket_job new) in
          inl (
            (eq_iff s.trigger "ticket").0 same,
            ticket_facts s s.ticket_target refl current checked fits,
          )
      | inr other ↦ inr (λ e. ground (arith, eq_iff s.trigger "ticket"), ground (arith, stray))
    ]
