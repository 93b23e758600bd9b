-- ===== src/Sync/Refusals.antt =====
-- Lemmas on the parsers of server/src/transport/http/sync.rs: their refusals and acceptances.
use ledgerly.Prelude.{
  ◌⊎◌, Bool, String, true, false, not, ◌≡◌, inl, inr, List, Option, none, some, ◌==◌, Bool-cases,
  Option-cases, Result, ok, err, Result-cases, arith, ◌&&◌, ◌||◌,
}
use ledgerly.Json.{Value, null, bool, number, float, string, array, object, get}
use ledgerly.Text.{concat}
use ledgerly.Domain.{EntryDraft, validate_balanced}
use ledgerly.Contracts.{SyncMutationDto, MutationReceiptDto}
use ledgerly.State.{TimeLib}
use ledgerly.Sync.Receipt.{rejected_receipt}
use ledgerly.Sync.Parse.{
  or_reject, is_scoped, parse_account_payload, array_at, parse_entries, validate_or_reject,
  balance_receipt, read_instant, occurred_at_of, parse_occurred_at, ledger_code,
}
use ledgerly.Sync.Transaction.{parse_transaction}

-- The receipt refuses the mutation and reports no version.
abbrev pub Refuses : SyncMutationDto → MutationReceiptDto → Type 0
Refuses m r = (code : String) × (r ≡ rejected_receipt m code none)

or_reject-Refuses :
    {A : Type 0} (m : SyncMutationDto) (x : Result A (Unit {0})) {r : MutationReceiptDto}
    → or_reject m x ≡ err r
    → Refuses m r
or_reject-Refuses m (ok a) h = cc
or_reject-Refuses m (err e) h = ("INVALID_PAYLOAD", cc)

pub parse_account_payload-Refuses :
    (book_id : String) (m : SyncMutationDto) {r : MutationReceiptDto}
    → parse_account_payload book_id m ≡ err r
    → Refuses m r
unfolding parse_account_payload
parse_account_payload-Refuses book_id m h =
    elim (Bool-cases (not (m.operation == "create") && not (m.operation == "update"))) [
      | inl other ↦ ("UNSUPPORTED_MUTATION", cc (rw other at h))
      | inr known ↦ elim (Bool-cases (is_scoped (concat book_id ":") m.entity_id)) [
        | inr foreign ↦ ("INVALID_PAYLOAD", cc (rw (known, foreign) at h))
        | inl scoped ↦ or_reject-Refuses m _ (rw (known, scoped) at h)
      ]
    ]

parse_entries-Refuses :
    (m : SyncMutationDto) {r : MutationReceiptDto} → parse_entries m ≡ err r → Refuses m r
unfolding parse_entries
parse_entries-Refuses m h = elim (Option-cases (array_at "entries" m.payload)) [
  | inl missing ↦ ("INVALID_PAYLOAD", cc (rw (missing, parse_entries) at h))
  | inr (es, e) ↦ absurd (cc (rw (e, parse_entries) at h))
]

balance_receipt-Refuses :
    (m : SyncMutationDto) (x : Result (Unit {0}) _) {r : MutationReceiptDto}
    → balance_receipt m x ≡ some r
    → Refuses m r
balance_receipt-Refuses m (ok a) h = cc
balance_receipt-Refuses m (err e) h = (ledger_code e, cc)

validate_or_reject-Refuses :
    (m : SyncMutationDto) (drafts : List EntryDraft) {r : MutationReceiptDto}
    → validate_or_reject m drafts ≡ some r
    → Refuses m r
unfolding validate_or_reject
validate_or_reject-Refuses m drafts {r} h =
    pick (Bool-cases known) (Bool-cases (m.operation == "delete"))
  where
    known : Bool
    known =
        not (m.entity_type == "transaction")
        || (not (m.operation == "create")
            && not (m.operation == "update")
            && not (m.operation == "delete"))

    pick :
        (known ≡ true) ⊎ (known ≡ false)
        → ((m.operation == "delete") ≡ true) ⊎ ((m.operation == "delete") ≡ false)
        → Refuses m r
    pick (inl other) d = ("UNSUPPORTED_MUTATION", cc (rw other at h))
    pick (inr e) (inl delete) = absurd (cc (rw (e, delete) at h))
    pick (inr e) (inr other) =
        balance_receipt-Refuses m (validate_balanced drafts) (rw (e, other) at h)

-- What is accepted and is no deletion balances.
pub validate_or_reject-balanced :
    (m : SyncMutationDto) (drafts : List EntryDraft)
    → (m.operation == "delete") ≡ false
    → validate_or_reject m drafts ≡ none
    → validate_balanced drafts ≡ ok tt
unfolding validate_or_reject
validate_or_reject-balanced m drafts other h = elim (Result-cases (validate_balanced drafts)) [
  | inl (a, e) ↦ e
  | inr (e, bad) ↦ ground arith
]

module _ {T : Type 0} (time : TimeLib T) where
  read_instant-Refuses :
      (m : SyncMutationDto) (o : Option T) {r : MutationReceiptDto}
      → read_instant time m o ≡ err r
      → Refuses m r
  unfolding read_instant
  read_instant-Refuses m none h = ("INVALID_PAYLOAD", cc)
  read_instant-Refuses m (some t) h = cc

  occurred_at_of-Refuses :
      (m : SyncMutationDto) (o : Option Value) {r : MutationReceiptDto}
      → occurred_at_of time m o ≡ err r
      → Refuses m r
  unfolding occurred_at_of
  occurred_at_of-Refuses m none h = cc
  occurred_at_of-Refuses m (some (string raw)) h = read_instant-Refuses m (time.parse_rfc3339 raw) h
  occurred_at_of-Refuses m (some null) h = ("INVALID_PAYLOAD", cc)
  occurred_at_of-Refuses m (some (bool b)) h = ("INVALID_PAYLOAD", cc)
  occurred_at_of-Refuses m (some (number n)) h = ("INVALID_PAYLOAD", cc)
  occurred_at_of-Refuses m (some (float n)) h = ("INVALID_PAYLOAD", cc)
  occurred_at_of-Refuses m (some (array vs)) h = ("INVALID_PAYLOAD", cc)
  occurred_at_of-Refuses m (some (object fs)) h = ("INVALID_PAYLOAD", cc)

  -- Every refusal before the write lock is a `rejected` receipt with no version.
  pub parse_transaction-Refuses :
      (m : SyncMutationDto) {r : MutationReceiptDto}
      → parse_transaction time m ≡ err r
      → Refuses m r
  unfolding parse_transaction parse_occurred_at
  parse_transaction-Refuses m h = elim (Result-cases (parse_occurred_at time m)) [
    | inr (x, bad) ↦
        let (code, e) = occurred_at_of-Refuses m (get "occurredAt" m.payload) bad in
        (code, cc (rw (bad, parse_transaction) at h, e))
    | inl (at, e) ↦ elim (Result-cases (parse_entries m)) [
      | inr (x, bad) ↦
          let (code, e') = parse_entries-Refuses m bad in
          (code, cc (rw (e, bad, parse_transaction) at h, e'))
      | inl (drafts, e') ↦ elim (Option-cases (validate_or_reject m drafts)) [
        | inl passed ↦ absurd (cc (rw (e, e', passed, parse_transaction) at h))
        | inr (x, bad) ↦
            let (code, e'') = validate_or_reject-Refuses m drafts bad in
            (code, cc (rw (e, e', bad, parse_transaction) at h, e''))
      ]
    ]
  ]

  -- What is parsed has passed `validate_balanced`.
  pub parse_transaction-balanced :
      (m : SyncMutationDto) {requested : Option T} {drafts : List EntryDraft}
      → (m.operation == "delete") ≡ false
      → parse_transaction time m ≡ ok (requested, drafts)
      → validate_balanced drafts ≡ ok tt
  unfolding parse_transaction
  parse_transaction-balanced m {requested} {drafts} other h =
      validate_or_reject-balanced m drafts other (grind arith)

  pub parse_transaction-entries :
      (m : SyncMutationDto) {requested : Option T} {drafts : List EntryDraft}
      → parse_transaction time m ≡ ok (requested, drafts)
      → parse_entries m ≡ ok drafts
  unfolding parse_transaction
  parse_transaction-entries m {requested} {drafts} h = grind arith
