-- ===== src/Ticket/Storage/Ledger.antt =====
-- What one accepted operation does to a ticket's history and to its ledger of receipts.
use flowgency.Common.{
  ℕ, ◌+◌, String, ◌⊎◌, ◌≡◌, refl, sym, subst, ◌∙◌, ap, Bool, true, false, ◌&&◌, none, List, [], ◌∷◌,
  ◌++◌, map, arith, ◌==◌, eq_iff, num_eq, num_eq_iff, holds, length, length-append, take, drop, In,
  here, there, In-cons, Distinct, ok, require, >>=-eq-ok, require-eq-ok, inl, inr, ℕ_discrete,
}
use flowgency.Ticket.Models.{
  Instant, Attempt, TicketEvent, TicketReceipt, TicketRecord, TicketOperation, TicketMutationResult,
  Runtime, load_snapshot, find_receipt, finalize_new, finalize_events, seal_operation,
  commit_operation, events_discrete, receipts_discrete, ref_discrete,
}
use flowgency.Ticket.Storage.{StorageEnv, same_identity, advance}

holds→proof {ℓ} : {A : Type ℓ} (d : Dec A) → holds d ≡ true → A
holds→proof (yes a) h = a
holds→proof (no n) h = cc

-- Prior events stay as they are: the finalized list is the history with new events behind it.
pub finalize_events-extends :
    (rt : Runtime) (now : Instant) (current candidate : List TicketEvent)
    {final : List TicketEvent × String}
    → finalize_events rt now current candidate ≡ ok final
    → final.0 ≡ current ++ finalize_new rt now 0 (drop (length current) candidate)
unfolding finalize_events
finalize_events-extends rt now current candidate h =
    let (u, e, rest) =
      >>=-eq-ok (require (holds (events_discrete (take (length current) candidate) current)) _) _
        h in
    ground arith

-- The record that an operation leaves, beside the one that it found.
pub record Advanced (rt : Runtime) (operation : TicketOperation) (current updated : TicketRecord)
    (result : TicketMutationResult) : Type 0 where
  pub news : List TicketEvent
  pub receipt : TicketReceipt
  pub history : updated.events ≡ current.events ++ news
  pub next_revision : updated.revision ≡ current.revision + 1
  pub ledger : updated.receipts ≡ current.receipts ++ (receipt ∷ [])
  pub named : receipt.operation_id ≡ operation.operation_id
  pub digested : receipt.request_digest ≡ operation.request_digest
  pub snapped : receipt.snapshot ≡ updated.body
  pub evented : receipt.event_id ≡ result.event_id
  pub loaded : load_snapshot rt updated.body ≡ ok result.ticket
  pub first_run : result.replayed ≡ false
  pub same_id : updated.id ≡ current.id
  pub same_number : updated.number ≡ current.number
  pub same_creation : updated.created_at ≡ current.created_at
  pub same_ref : updated.ref ≡ current.ref

-- The fields that a mutation may not change.
pub record SameIdentity (current candidate : TicketRecord) : Type 0 where
  pub id_kept : candidate.id ≡ current.id
  pub number_kept : candidate.number ≡ current.number
  pub creation_kept : candidate.created_at ≡ current.created_at
  pub ref_kept : candidate.ref ≡ current.ref
  pub revision_kept : candidate.revision ≡ current.revision
  pub receipts_kept : candidate.receipts ≡ current.receipts

&&-both : (a b : Bool) → (a && b) ≡ true → (a ≡ true) × (b ≡ true)
&&-both a b h = ground arith

pub same_identity-SameIdentity :
    (current candidate : TicketRecord)
    → same_identity current candidate ≡ true
    → SameIdentity current candidate
unfolding same_identity
same_identity-SameIdentity current candidate h =
    let (i, h₁) = &&-both (candidate.id == current.id) _ h in
    let (n, h₂) = &&-both (holds (ℕ_discrete candidate.number current.number)) _ h₁ in
    let (c, h₃) = &&-both (holds (ℕ_discrete candidate.created_at current.created_at)) _ h₂ in
    let (r, h₄) = &&-both (holds (ref_discrete candidate.ref current.ref)) _ h₃ in
    let (v, l) = &&-both (holds (ℕ_discrete candidate.revision current.revision)) _ h₄ in
    record {
      id_kept = (eq_iff candidate.id current.id).0 i;
      number_kept = holds→proof (ℕ_discrete candidate.number current.number) n;
      creation_kept = holds→proof (ℕ_discrete candidate.created_at current.created_at) c;
      ref_kept = holds→proof (ref_discrete candidate.ref current.ref) r;
      revision_kept = holds→proof (ℕ_discrete candidate.revision current.revision) v;
      receipts_kept = holds→proof (receipts_discrete candidate.receipts current.receipts) l;
    }

abbrev pub receipt_of : TicketRecord → TicketOperation → Instant → String → TicketReceipt
receipt_of r operation now event_id = record {
  operation_id = operation.operation_id;
  request_digest = operation.request_digest;
  at = now;
  event_id = event_id;
  snapshot = r.body;
}

-- Sealing adds one receipt, whose snapshot is the record.
pub seal_operation_lem :
    (rt : Runtime) (r updated : TicketRecord) (operation : TicketOperation) (now : Instant)
    (event_id : String) (result : TicketMutationResult)
    → seal_operation rt r operation now event_id ≡ ok (updated, result)
    → (updated ≡ record r { receipts = r.receipts ++ (receipt_of r operation now event_id ∷ []) })
      × (load_snapshot rt r.body ≡ ok result.ticket)
      × (result.replayed ≡ false)
      × (result.event_id ≡ event_id)
unfolding seal_operation
seal_operation_lem rt r updated operation now event_id result h =
    let (loaded, e, rest) = >>=-eq-ok (load_snapshot rt r.body) _ h in
    (ground arith, ground arith, ground arith, ground arith)

abbrev pub committed : TicketRecord → TicketRecord → Instant → List TicketEvent → TicketRecord
committed candidate current now events = record candidate {
  body = record candidate.body {
    revision = current.revision + 1;
    updated_at = now;
    events = events;
  };
}

pub commit_operation-Advanced :
    (rt : Runtime) (current candidate updated : TicketRecord) (operation : TicketOperation)
    (now : Instant) (result : TicketMutationResult)
    → SameIdentity current candidate
    → commit_operation rt candidate current operation now ≡ ok (updated, result)
    → Advanced rt operation current updated result
unfolding commit_operation
commit_operation-Advanced rt current candidate updated operation now result same h =
    let (final, e₁, h₁) = >>=-eq-ok (finalize_events rt now current.events candidate.events) _ h in
    let extends = finalize_events-extends rt now current.events candidate.events e₁ in
    let sealed = committed candidate current now final.0 in
    let (same_record, loads, first, event) =
      seal_operation_lem rt sealed updated operation now final.1 result h₁ in
    record {
      news = finalize_new rt now 0 (drop (length current.events) candidate.events);
      receipt = receipt_of sealed operation now final.1;
      history = ap (λ (t : TicketRecord). t.events) same_record ∙ extends;
      next_revision = ap (λ (t : TicketRecord). t.revision) same_record;
      ledger =
          ap (λ (t : TicketRecord). t.receipts) same_record
          ∙ ap (λ rs. rs ++ (receipt_of sealed operation now final.1 ∷ [])) same.receipts_kept;
      named = refl;
      digested = refl;
      snapped = sym (ap (λ (t : TicketRecord). t.body) same_record);
      evented = sym event;
      loaded = rw (ap (λ (t : TicketRecord). t.body) same_record) loads;
      first_run = first;
      same_id = ap (λ (t : TicketRecord). t.id) same_record ∙ same.id_kept;
      same_number = ap (λ (t : TicketRecord). t.number) same_record ∙ same.number_kept;
      same_creation = ap (λ (t : TicketRecord). t.created_at) same_record ∙ same.creation_kept;
      same_ref = ap (λ (t : TicketRecord). t.ref) same_record ∙ same.ref_kept;
    }

-- A step that `apply` writes found the revision that the caller expected, kept the identity and the
-- history of the ticket, and put one receipt into its ledger.
pub advance-Advanced :
    (env : StorageEnv) (now : Instant) (current : TicketRecord) (expected : ℕ)
    (operation : TicketOperation) (mutate : TicketRecord → Attempt TicketRecord)
    (updated : TicketRecord) (result : TicketMutationResult)
    → advance env now current expected operation mutate ≡ ok (updated, result)
    → (current.revision ≡ expected) × Advanced env.runtime operation current updated result
unfolding advance
advance-Advanced env now current expected operation mutate updated result h =
    let (u₁, e₁, h₁) = >>=-eq-ok (require (num_eq current.revision expected) _) _ h in
    let (changed, e₂, h₂) = >>=-eq-ok (mutate current) _ h₁ in
    let (body, e₃, h₃) = >>=-eq-ok (env.runtime.revalidate changed.body) _ h₂ in
    let candidate : TicketRecord = record { body = body; receipts = changed.receipts } in
    let (u₄, e₄, h₄) = >>=-eq-ok (require (same_identity current candidate) _) _ h₃ in
    (
      (num_eq_iff current.revision expected).0 (require-eq-ok _ _ e₁),
      commit_operation-Advanced env.runtime current candidate updated operation now result
          (same_identity-SameIdentity current candidate (require-eq-ok _ _ e₄)) h₄,
    )

-- The ledger has one receipt for each revision, and no operation twice.
pub record IsLedger (t : TicketRecord) : Type 0 where
  pub counted : t.revision ≡ length t.receipts
  pub distinct : Distinct (map (λ r. r.operation_id) t.receipts)

find_receipt-In :
    (i : String) (rs : List TicketReceipt)
    → find_receipt i rs ≡ none
    → ¬ In i (map (λ r. r.operation_id) rs)
unfolding find_receipt
find_receipt-In i [] h j = elim j [ ]
find_receipt-In i (r ∷ rs) h j = elim (In-cons j) [
  | inl same ↦ ground (arith, eq_iff r.operation_id i)
  | inr later ↦ find_receipt-In i rs (ground arith) later
]

In-append : {x : String} (xs ys : List String) → In x (xs ++ ys) → In x xs ⊎ In x ys
In-append [] ys i = inr i
In-append (z ∷ xs) ys i = elim (In-cons i) [
  | inl e ↦ inl (subst (λ w. In w (z ∷ xs)) (sym e) here)
  | inr later ↦ elim (In-append xs ys later) [ inl j ↦ inl (there j) | inr j ↦ inr j ]
]

Distinct-append_one :
    (xs : List String) (x : String) → Distinct xs → (¬ In x xs) → Distinct (xs ++ (x ∷ []))
Distinct-append_one [] x d new = (λ i. elim i [ ], tt)
Distinct-append_one (y ∷ ys) x d new = (
  λ i. elim (In-append ys (x ∷ []) i) [
    | inl j ↦ d.0 j
    | inr j ↦ elim (In-cons j) [
      | inl e ↦ new (subst (λ w. In x (w ∷ ys)) (sym e) here)
      | inr k ↦ elim k [ ]
    ]
  ],
  Distinct-append_one ys x d.1 (λ i. new (there i)),
)

map-append_one :
    (rs : List TicketReceipt) (r : TicketReceipt)
    → map (λ r. r.operation_id) (rs ++ (r ∷ []))
      ≡ map (λ r. r.operation_id) rs ++ (r.operation_id ∷ [])
map-append_one [] r = refl
map-append_one (x ∷ xs) r = ap (◌∷◌ x.operation_id) (map-append_one xs r)

-- An operation that the ledger does not hold keeps it in order.
pub Advanced-IsLedger :
    (rt : Runtime) (operation : TicketOperation) (current updated : TicketRecord)
    (result : TicketMutationResult)
    → find_receipt operation.operation_id current.receipts ≡ none
    → Advanced rt operation current updated result
    → IsLedger current
    → IsLedger updated
Advanced-IsLedger rt operation current updated result new a l = record {
  counted = omega (
    arith,
    ap length a.ledger,
    length-append current.receipts (a.receipt ∷ []),
    l.counted,
    a.next_revision,
  );
  distinct =
      rw (a.ledger, map-append_one, a.named)
        (Distinct-append_one _ operation.operation_id l.distinct
          (find_receipt-In operation.operation_id current.receipts new));
}
