-- ===== src/Lib.antt =====
-- Flowgency runs teams of agents on tickets. This library models the core of it: the contract of a
-- workflow and the rules of its transitions (flowgency/workflows), the durable tickets with their
-- storage and the changes of the ticket service (flowgency/tickets), the records of jobs with the queue
-- that starts them (flowgency/jobs), the cycle that submits the routines that are due
-- (flowgency/dispatch), and the proof that captured Git content is published (flowgency/git_evidence).
--
-- A workflow definition is validated once and then read by the rules: `evaluate_transition` decides
-- whether a request may move a ticket. The ticket service hands one function of a record to the
-- storage, `change` in this library, and the storage's `apply` runs it under the ticket's lock, checks
-- that the identity and the history are kept, seals a receipt into the ledger and writes the document.
--
-- Files, with the code's paths below flowgency/:
--   Common.antt and Common/     tests, lists, dictionaries in insertion order, and results that raise.
--   Workflow/Values.antt        field kinds and values, `_kind_matches_value` (workflows/models.py) and
--                               `validate_field_value` (workflows/rules.py).
--   Workflow/Definition.antt    the records of a definition, their validators in pydantic's order, and
--                               the look-ups by id (workflows/models.py); Workflow/Validity.antt says
--                               what a valid definition is, Workflow/Lookup.antt what is found in one.
--   Workflow/Editing.antt       the commands of workflows/editing.py; Workflow/Editing/ has what they keep
--                               and the moves of a state, Ticket/Typing/Edits.antt the tickets under them.
--   Workflow/Library.antt       the reads and publications of WorkflowLibrary (workflows/library.py);
--                               Workflow/Library/Published.antt has its abstract view.
--   Workflow/Rules.antt         `evaluate_transition` (workflows/rules.py), one function for each loop;
--                               proofs in Workflow/Rules/.
--   Ticket/Models.antt          tickets, events, receipts and commits (tickets/models.py, errors.py).
--   Ticket/Storage.antt         `read`, `receipt`, `create` and `apply` of LocalTicketStorage
--                               (tickets/storages/local.py); proofs in Ticket/Storage/.
--   Ticket/Changes.antt and     `_assign_record`, `_start_work_record`, `_end_work_record`,
--   Ticket/Progress.antt        `_sign_off_record`, `_update_record`, `_transition_record`,
--                               `_report_record` and the cleanup of TicketService (tickets/service.py),
--                               transition_event and report_event (tickets/transitions.py), and the
--                               evidence of a stopped run (jobs/processes.py).
--   Ticket/Service.antt         `_mutate` with the checks around a change, and the record that `create`
--                               opens (tickets/service.py); proofs in Ticket/Service/.
--   Ticket/Cleanup.antt         `_cleanup_job_target` (tickets/service.py).
--   Ticket/Change.antt          the changes as one type; proofs in Ticket/Change/.
--   Ticket/Typing.antt          `require_compatible` (workflows/configuration.py).
--   Job/Store.antt              the record of a job, `transition_job`, `cancel_job`, `claim_job`, and which
--                               jobs hold a slot (jobs/store.py, models.py); Job/Progression.antt has the
--                               writes of jobs/execution.py to ended records, and runs of all of these.
--   Job/Queue.antt              `queue_snapshot`, `_start` and `drain` (jobs/queue.py); proofs in
--                               Job/Pool.antt, Job/Claims.antt and Job/Waiting.antt.
--   Job/Spec.antt               `JobSpec.validate` and the checks of TicketJobTarget (jobs/models.py);
--                               proofs in Job/Spec/Targets.antt.
--   Dispatch/Schedule.antt      periods, bounds and occurrences (dispatch/schedule.py, health.py).
--   Dispatch/Lost.antt          `lost_occurrences` (dispatch/run.py).
--   Dispatch/Run.antt           the markers, `_due_occurrence` and the loop of `run_dispatch_cycle`
--                               (dispatch/schedule.py, run.py); proofs below each in its folder.
--   GitEvidence/Refs.antt       the names of refs and the allowlist (git_evidence/models.py).
--   GitEvidence/Publication.antt  `verify_publication` and what it calls (git_evidence/publication.py).
--   Workflow/Examples.antt,     sample data, and each theorem applied to it.
--   Ticket/Examples.antt,
--   Job/Examples.antt,
--   Ticket/Service/Examples.antt, and the other files of that name
--
-- State and errors. A function that raises returns an Outcome: `ok` of a result or `raise` of an error
-- class and reason; message texts are left out. The storage is a function from team and workflow to a
-- board: the documents by ticket id, and the number in `.sequence`. A lock makes each call one step, so
-- concurrent calls are sequences of steps. Loops are recursion on the list that the code walks over;
-- there is no fuel. A Python int is an integer without bounds, a datetime a number of microseconds, a
-- float a multiple of 2^-1074 with a sign.
--
-- Parameters stand for what is not in the repository or is input and output: what a written document
-- reads back as (YAML and pydantic), its encoded size, whether its write fails, before or after the file
-- is replaced, links in the file system, uuid4, pydantic's validation of a ticket, reading an artifact
-- and the check of its Git evidence; the digest of a job, the clock's text, the liveness of processes,
-- the launcher with what is done to a job's file between a launch, that may fail, and the queue's own
-- update, and the reconciliation that a drain begins with; sha256 and the links of a blueprint; strptime,
-- the value of a digit and the time that a marker's float reads back as, and whether a request is accepted
-- when it is submitted; the links, files and commands of Git.
--
-- The document format does not keep three dashes inside the front matter, nor white space around a
-- description. A theorem asks of the one document that it is about that it reads back, or of all that
-- those that can be read keep their number and ledger, and says so.
--
-- Not modelled: transport, web pages, integrations, the worker that executes a job but for those writes, the capture of Git
-- content, memory, prompts and the YAML configuration.
pub mod Common
pub mod Dispatch
pub mod GitEvidence
pub mod Job
pub mod Ticket
pub mod Workflow
