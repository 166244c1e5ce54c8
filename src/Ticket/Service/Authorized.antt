-- ===== src/Ticket/Service/Authorized.antt =====
-- Who may change a ticket through the service, and under which versions.
use flowgency.Common.{
  String, ◌≡◌, refl, ap, ◌∙◌, true, Option, none, some, arith, ◌==◌, eq_iff, In, contains→In, ok,
  require, or_raise, >>=-eq-ok, require-eq-ok, Outcome-cases, inl, inr,
}
use flowgency.Workflow.Definition.{WorkflowDefinition}
use flowgency.Ticket.Models.{
  Instant, Attempt, TicketActor, agent_actor, user_actor, TicketRecord, TicketOperation,
  TicketMutationResult,
}
use flowgency.Ticket.Changes.{Team, Context}
use flowgency.Ticket.Storage.{StorageEnv, Storage, apply}
use flowgency.Ticket.Service.{
  TicketVersion, WorkflowBinding, Snapshot, Observed, Resolved, team_of, validate_actor,
  require_team_access, require_configured_agent, resolve_binding, resolve_definition,
  require_current_version, resolve, mutate, mutate_current_record, context_of,
}

-- An agent was authorized at entry, and is configured in its team in the snapshot.
abbrev pub MayAct : Observed → Snapshot → TicketActor → Type 0
MayAct o s (agent_actor a) =
    (o.authorized_at_entry a ≡ true)
    × (team : Team) × (s.team_for a.team_id ≡ some team)
    × In a.agent_name team.agents
MayAct o s (user_actor u) = Unit

-- What `resolve` has established: about the actor at entry, and about the snapshot under the locks.
pub record Authorized (o : Observed) (actor : TicketActor) (v : TicketVersion) : Type 0 where
  pub snapshot : Snapshot
  pub binding : WorkflowBinding
  pub definition : WorkflowDefinition
  pub held : o.locked ≡ ok snapshot
  pub own_team : team_of actor ≡ v.ref.team_id
  pub may_act : MayAct o snapshot actor
  pub bound : snapshot.binding_for v.ref.team_id v.ref.workflow_id ≡ some binding
  pub same_binding : binding.binding_id ≡ v.ref.binding_id
  pub same_context : binding.context_digest ≡ v.context_digest
  pub same_workflow :
      snapshot.definition_for binding.blueprint_id ≡ some (definition, v.workflow_digest)

or_raise-ok : {E A : Type 0} (m : Option A) (e : E) {a : A} → or_raise m e ≡ ok a → m ≡ some a
or_raise-ok none e h = cc
or_raise-ok (some b) e h = ground arith

digest_named :
    (found : Option (WorkflowDefinition × String)) (pair : WorkflowDefinition × String)
    (digest : String)
    → found ≡ some pair
    → pair.1 ≡ digest
    → found ≡ some (pair.0, digest)
digest_named found pair digest h e = h ∙ ap (λ x. some (pair.0, x)) e

may_act :
    (o : Observed) (s : Snapshot) (actor : TicketActor)
    → validate_actor o actor ≡ ok tt
    → require_configured_agent s actor ≡ ok tt
    → MayAct o s actor
unfolding validate_actor require_configured_agent
may_act o s (agent_actor a) valid configured =
    let (team, found, listed) = >>=-eq-ok (or_raise (s.team_for a.team_id) _) _ configured in
    (
      require-eq-ok (o.authorized_at_entry a) _ valid,
      team,
      or_raise-ok (s.team_for a.team_id) _ found,
      contains→In a.agent_name team.agents (require-eq-ok _ _ listed),
    )
may_act o s (user_actor u) valid configured = tt

resolve-Authorized :
    (o : Observed) (actor : TicketActor) (v : TicketVersion) (r : Resolved)
    → resolve o actor v ≡ ok r
    → Authorized o actor v
unfolding resolve require_team_access require_current_version resolve_definition
resolve-Authorized o actor v r h =
    let (u₁, valid, h₁) = >>=-eq-ok (validate_actor o actor) _ h in
    let (u₂, access, h₂) = >>=-eq-ok (require_team_access actor v.ref.team_id) _ h₁ in
    let (first, _, h₃) =
      >>=-eq-ok (resolve_binding o.initial v.ref.team_id v.ref.workflow_id) _ h₂ in
    let (snapshot, held, h₄) = >>=-eq-ok o.locked _ h₃ in
    let (binding, bound, h₅) =
      >>=-eq-ok (or_raise (snapshot.binding_for v.ref.team_id v.ref.workflow_id) _) _ h₄ in
    let (u₆, _, h₆) = >>=-eq-ok (require (binding.blueprint_id == first.blueprint_id) _) _ h₅ in
    let (u₇, configured, h₇) = >>=-eq-ok (require_configured_agent snapshot actor) _ h₆ in
    let (u₈, current, h₈) = >>=-eq-ok (require_current_version binding v) _ h₇ in
    let (found, defined, h₉) = >>=-eq-ok (resolve_definition snapshot binding) _ h₈ in
    let (u₁₀, digested, h₁₀) = >>=-eq-ok (require (found.1 == v.workflow_digest) _) _ h₉ in
    let (u₁₁, bound_id, context) =
      >>=-eq-ok (require (binding.binding_id == v.ref.binding_id) _) _ current in
    let digest = (eq_iff found.1 v.workflow_digest).0 (require-eq-ok _ _ digested) in
    record {
      snapshot = snapshot;
      binding = binding;
      definition = found.0;
      held = held;
      own_team = (eq_iff (team_of actor) v.ref.team_id).0 (require-eq-ok _ _ access);
      may_act = may_act o snapshot actor valid configured;
      bound = or_raise-ok (snapshot.binding_for v.ref.team_id v.ref.workflow_id) _ bound;
      same_binding = (eq_iff binding.binding_id v.ref.binding_id).0 (require-eq-ok _ _ bound_id);
      same_context = (eq_iff binding.context_digest v.context_digest).0 (require-eq-ok _ _ context);
      same_workflow =
          digest_named (snapshot.definition_for binding.blueprint_id) found v.workflow_digest
            (or_raise-ok (snapshot.definition_for binding.blueprint_id) _ defined) digest;
    }

-- A call that resolves is a call of `apply`.
pub mutate-resolved :
    (env : StorageEnv) (clock : Instant) (st : Storage) (o : Observed) (actor : TicketActor)
    (v : TicketVersion) (operation : TicketOperation)
    (mutation : Context → TicketRecord → Attempt TicketRecord) (r : Resolved)
    → resolve o actor v ≡ ok r
    → mutate env clock st o actor v operation mutation
      ≡ apply env clock st v.ref v.revision operation
          (mutate_current_record o r (context_of o r v operation) mutation)
unfolding mutate
mutate-resolved env clock st o actor v operation mutation r h = rw (mutate, h) refl

-- A call of `_mutate` that returns a result has found, before it took its locks: the actor in the team
-- of the ticket, and an agent authorized. Under its locks it has found: an agent configured in that
-- team, and the workflow bound to the storage, in the context and with the definition that the
-- caller's version names. This holds of replays too.
pub mutate-Authorized :
    (env : StorageEnv) (clock : Instant) (st : Storage) (o : Observed) (actor : TicketActor)
    (v : TicketVersion) (operation : TicketOperation)
    (mutation : Context → TicketRecord → Attempt TicketRecord) (result : TicketMutationResult)
    → (mutate env clock st o actor v operation mutation).0 ≡ ok result
    → Authorized o actor v
unfolding mutate
mutate-Authorized env clock st o actor v operation mutation result h =
    elim (Outcome-cases (resolve o actor v)) [
      | inl (r, resolved) ↦ resolve-Authorized o actor v r resolved
      | inr (e, refused) ↦ absurd (ground arith)
    ]
