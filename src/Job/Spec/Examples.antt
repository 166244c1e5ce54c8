-- ===== src/Job/Spec/Examples.antt =====
-- The specification of a job for a ticket.
use flowgency.Common.{◌≡◌, ◌≢◌, refl, ◌⊎◌, none, some, [], ok, contains, is_blank}
use flowgency.GitEvidence.Refs.{is_object_id}
use flowgency.Job.Spec.{TicketJobTarget, SpecFields, check_target, validate_spec}
use flowgency.Job.Spec.Targets.{IsTicketJob, validate_spec-IsTicketJob}

abbrev aim : TicketJobTarget
aim = record {
  binding = record { binding_id = "binding"; team_id = "team"; workflow_id = "review" };
  ref = record {
    binding_id = "binding";
    team_id = "team";
    workflow_id = "review";
    ticket_id = "ticket-1";
  };
  assigned_agent = "ada";
  assignment_event_id = "assigned-1";
  context_digest = "0123456789abcdef0123456789abcdef0123456789abcdef0123456789abcdef";
}

abbrev wanted : SpecFields
wanted = record {
  schema_version = 6;
  job_id = "job";
  team_key = "team";
  agent_name = "ada";
  trigger = "ticket";
  routine_id = none;
  skill = none;
  skill_arguments = [];
  task_input = "Work on it";
  prompt_source = some (record { type = some "ticket" });
  ticket_target = some aim;
}

aim_fits : check_target aim ≡ ok tt
unfolding check_target is_blank is_object_id
aim_fits = refl

wanted_fits : validate_spec wanted ≡ ok tt
unfolding validate_spec contains is_blank
wanted_fits = refl

validate_spec-IsTicketJob_example :
    ((wanted.trigger ≡ "ticket") × IsTicketJob wanted)
    ⊎ ((wanted.trigger ≢ "ticket") × (wanted.ticket_target ≡ none))
validate_spec-IsTicketJob_example = validate_spec-IsTicketJob wanted aim_fits wanted_fits
