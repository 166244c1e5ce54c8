-- ===== src/Ticket/Storage/Numbers.antt =====
-- Ticket numbers and ledgers on a board (tickets/storages/local.py).
use Prim.Native.Nat.{◌≤◌, ◌<◌}
use flowgency.Common.{
  ℕ, String, ◌⊎◌, ◌≡◌, refl, sym, ◌∙◌, ap, some, [], ◌∷◌, ◌++◌, map, arith, ◌==◌, eq_iff, ok,
  >>=-eq-ok, Bool-cases, Outcome-cases, inl, inr, length,
}
use flowgency.Common.Dict.{lookup, insert, has_key, lookup-insert}
use flowgency.Ticket.Models.{
  Instant, Attempt, TicketRef, TicketReceipt, TicketRecord, TicketOperation, TicketMutationResult,
  Runtime, finalize_events, commit_creation,
}
use flowgency.Ticket.Storage.{
  Board, Document, stored, StorageEnv, require_safe_metadata, sequence_file, next_number,
  open_record, create_locked,
}
use flowgency.Ticket.Storage.Ledger.{IsLedger, Advanced-IsLedger, seal_operation_lem, receipt_of}
use flowgency.Ticket.Storage.Replay.{
  KeepsLedger, read_document-stored, Steps, Applied, failed, replayed, unconfirmed, written,
  save_cases,
}

-- The readable tickets of a board have ledgers in order and numbers of their own, none beyond the
-- board's sequence.
pub record IsSound (b : Board) : Type 0 where
  pub ledgers :
      (i : String) (t : TicketRecord) → lookup i b.documents ≡ some (stored t) → IsLedger t
  pub numbered :
      (i : String) (t : TicketRecord)
      → lookup i b.documents ≡ some (stored t)
      → (n : ℕ) × (b.sequence ≡ some n) × (t.number ≤ n)
  pub distinct :
      (i j : String) (t u : TicketRecord)
      → lookup i b.documents ≡ some (stored t)
      → lookup j b.documents ≡ some (stored u)
      → t.number ≡ u.number
      → i ≡ j

abbrev put_document : Board → String → Document → Board
put_document b i document = record b { documents = insert i document b.documents }

-- A look-up after a write finds the new document at its key, and the old ones elsewhere.
lookup_put :
    (b : Board) (k i : String) (document : Document) (t : TicketRecord)
    → lookup i (insert k document b.documents) ≡ some (stored t)
    → ((k ≡ i) × (document ≡ stored t)) ⊎ (lookup i b.documents ≡ some (stored t))
lookup_put b k i document t h = elim (Bool-cases (k == i)) [
  | inl same ↦ inl ((eq_iff k i).0 same, ground (arith, lookup-insert k i document b.documents))
  | inr other ↦ inr (ground (arith, lookup-insert k i document b.documents))
]

-- A document whose ledger is in order, and whose number is its own, keeps the board sound.
put-IsSound :
    (b : Board) (k : String) (document : Document)
    → ((t : TicketRecord)
        → document ≡ stored t
        → IsLedger t
          × ((n : ℕ) × (b.sequence ≡ some n) × (t.number ≤ n))
          × ((j : String) (u : TicketRecord)
              → lookup j b.documents ≡ some (stored u)
              → t.number ≡ u.number
              → k ≡ j))
    → IsSound b
    → IsSound (put_document b k document)
put-IsSound b k document new s = record {
  ledgers = λ i t h. elim (lookup_put b k i document t h) [
    | inl (at, e) ↦ (new t e).0
    | inr old ↦ s.ledgers i t old
  ];
  numbered = λ i t h. elim (lookup_put b k i document t h) [
    | inl (at, e) ↦ (new t e).1
    | inr old ↦ s.numbered i t old
  ];
  distinct = λ i j t u h g same. elim (lookup_put b k i document t h) [
    | inl (at, e) ↦ elim (lookup_put b k j document u g) [
      | inl (at', e') ↦ sym at ∙ at'
      | inr old ↦ sym at ∙ (new t e).2 j u old same
    ]
    | inr old ↦ elim (lookup_put b k j document u g) [
      | inl (at', e') ↦ sym ((new u e').2 i t old (sym same)) ∙ at'
      | inr old' ↦ s.distinct i j t u old old' same
    ]
  ];
}

IsLedger-carried :
    (t u : TicketRecord)
    → t.revision ≡ u.revision
    → t.receipts ≡ u.receipts
    → IsLedger t
    → IsLedger u
IsLedger-carried t u v r l = record {
  counted = sym v ∙ l.counted ∙ ap length r;
  distinct = rw r at l.distinct;
}

-- The document of a step keeps the board sound.
Steps-IsSound :
    (env : StorageEnv) (ref : TicketRef) (expected : ℕ) (operation : TicketOperation) (b : Board)
    (current updated : TicketRecord) (result : TicketMutationResult)
    → KeepsLedger env
    → Steps env ref expected operation b current updated result
    → IsSound b
    → IsSound (put_document b ref.ticket_id (env.persisted updated))
Steps-IsSound env ref expected operation b current updated result keeps x s =
    put-IsSound b ref.ticket_id (env.persisted updated)
      (λ t e.
        let (number, revision, receipts) = keeps updated t e in
        let (before, at, n, v, r) = read_document-stored b ref current x.found in
        let same_number = number ∙ x.advanced.same_number ∙ sym n in
        let (last, sequence, within) = s.numbered ref.ticket_id before at in
        (
          IsLedger-carried updated t (sym revision) (sym receipts) (
              Advanced-IsLedger env.runtime operation current updated result x.new x.advanced
                (IsLedger-carried before current v r (s.ledgers ref.ticket_id before at))),
          (last, sequence, omega arith),
          λ j u there_too equal.
              s.distinct ref.ticket_id j before u at there_too (sym same_number ∙ equal),
        ))
      s

-- A step of `apply` keeps the board sound.
pub Applied-IsSound :
    (env : StorageEnv) (ref : TicketRef) (expected : ℕ) (operation : TicketOperation) (b : Board)
    (answer : Attempt TicketMutationResult × Board)
    → KeepsLedger env
    → Applied env ref expected operation b answer
    → IsSound b
    → IsSound answer.1
Applied-IsSound env ref expected operation b answer keeps (failed e same) s =
    rw (ap (λ (p : Attempt TicketMutationResult × Board). p.1) same) s
Applied-IsSound env ref expected operation b answer keeps (replayed current previous found old same)
      s =
    rw (ap (λ (p : Attempt TicketMutationResult × Board). p.1) same) s
Applied-IsSound env ref expected operation b answer keeps
      (unconfirmed current updated result x late same) s =
    rw (ap (λ (p : Attempt TicketMutationResult × Board). p.1) same)
      (Steps-IsSound env ref expected operation b current updated result keeps x s)
Applied-IsSound env ref expected operation b answer keeps (written current updated result x same)
      s =
    rw (ap (λ (p : Attempt TicketMutationResult × Board). p.1) same)
      (Steps-IsSound env ref expected operation b current updated result keeps x s)

-- Creation gives the next number, and the first revision with one receipt.
commit_creation_lem :
    (rt : Runtime) (r : TicketRecord) (operation : TicketOperation) (now : Instant)
    (sealed : TicketRecord) (result : TicketMutationResult)
    → r.receipts ≡ []
    → commit_creation rt r operation now ≡ ok (sealed, result)
    → (sealed.number ≡ r.number)
      × (sealed.revision ≡ r.revision)
      × (length sealed.receipts ≡ 1)
      × (map (λ (x : TicketReceipt). x.operation_id) sealed.receipts ≡ operation.operation_id ∷ [])
unfolding commit_creation
commit_creation_lem rt r operation now sealed result empty h =
    let (final, e, rest) = >>=-eq-ok (finalize_events rt now [] r.events) _ h in
    let with_events : TicketRecord = record r { body = record r.body { events = final.0 } } in
    let (same, _, _, _) =
      seal_operation_lem rt with_events sealed operation now final.1 result rest in
    let ledger =
      ap (λ (t : TicketRecord). t.receipts) same
      ∙ ap (λ rs. rs ++ (receipt_of with_events operation now final.1 ∷ [])) empty in
    (
      ap (λ (t : TicketRecord). t.number) same,
      ap (λ (t : TicketRecord). t.revision) same,
      ap length ledger,
      ap (map (λ (x : TicketReceipt). x.operation_id)) ledger,
    )

-- The next number is beyond those in use.
next_number_fresh :
    (env : StorageEnv) (b : Board) (ref : TicketRef) (n : ℕ)
    → next_number env b ref ≡ ok n
    → IsSound b
    → (i : String) (t : TicketRecord) → lookup i b.documents ≡ some (stored t)
    → t.number < n
unfolding next_number
next_number_fresh env b ref n h s i t found =
    let (u, e, rest) = >>=-eq-ok (require_safe_metadata env ref sequence_file) _ h in
    let (last, sequence, within) = s.numbered i t found in ground arith

renumbered-IsSound :
    (b : Board) (n : ℕ)
    → ((i : String) (t : TicketRecord) → lookup i b.documents ≡ some (stored t) → t.number < n)
    → IsSound b
    → IsSound (record b { sequence = some n })
renumbered-IsSound b n below s = record {
  ledgers = s.ledgers;
  numbered = λ i t h. (n, refl, omega (arith, below i t h));
  distinct = s.distinct;
}

-- A creation keeps the board sound.
pub create_locked-IsSound :
    (env : StorageEnv) (now : Instant) (b : Board) (ref : TicketRef) (t : TicketRecord)
    (operation : TicketOperation)
    → KeepsLedger env
    → t.receipts ≡ []
    → IsSound b
    → IsSound (create_locked env now b ref t operation).1
unfolding create_locked
create_locked-IsSound env now b ref t operation keeps empty s =
    elim (Bool-cases (has_key ref.ticket_id b.documents)) [
      | inl taken ↦ rw taken s
      | inr free ↦ elim (Outcome-cases (next_number env b ref)) [
        | inr (e, unnumbered) ↦ rw (free, unnumbered) s
        | inl (n, numbered) ↦
            let below = next_number_fresh env b ref n numbered s in
            let s' = renumbered-IsSound b n below s in
            let b' : Board = record b { sequence = some n } in
            elim (Outcome-cases (commit_creation env.runtime (open_record t n now) operation now)) [
              | inr (e, refused) ↦ rw (free, numbered, refused) s'
              | inl ((sealed, result), made) ↦ elim (save_cases env b' ref sealed result) [
                | inl (e, unsaved) ↦ rw (free, numbered, made, unsaved) s'
                | inr (inl (late, unsure)) ↦
                    rw (free, numbered, made, unsure) (written_sound n sealed result made s' below)
                | inr (inr saved) ↦
                    rw (free, numbered, made, saved) (written_sound n sealed result made s' below)
              ]
            ]
      ]
    ]
  where
    written_sound :
        (n : ℕ) (sealed : TicketRecord) (result : TicketMutationResult)
        → commit_creation env.runtime (open_record t n now) operation now ≡ ok (sealed, result)
        → IsSound (record b { sequence = some n })
        → ((i : String) (u : TicketRecord) → lookup i b.documents ≡ some (stored u) → u.number < n)
        → IsSound
            (put_document (record b { sequence = some n }) ref.ticket_id (env.persisted sealed))
    written_sound n sealed result made s' below =
        let (number, revision, one, names) =
          commit_creation_lem env.runtime (open_record t n now) operation now sealed result empty
            made in
        put-IsSound (record b { sequence = some n }) ref.ticket_id (env.persisted sealed)
          (λ u e.
            let (same_number, same_revision, same_receipts) = keeps sealed u e in
            (
              record {
                counted = same_revision ∙ revision ∙ sym one ∙ ap length (sym same_receipts);
                distinct = rw (same_receipts, names) ((λ i. elim i [ ]), tt);
              },
              (n, refl, omega (arith, same_number, number)),
              λ j v found equal. absurd (omega (arith, below j v found, same_number, number)),
            ))
          s'
