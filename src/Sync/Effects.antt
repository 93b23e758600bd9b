-- ===== src/Sync/Effects.antt =====
-- The ends of `process_mutation_mem` of server/src/transport/http/sync.rs as a step relation: what it
-- answers, what it has checked, and what the store is afterwards. The other proofs go through it.
use ledgerly.Prelude.{
  ◌&&◌, String, true, false, not, ◌≡◌, refl, ◌≢◌, inl, inr, ◌⊎◌, List, Option, none, some, all,
  ◌==◌, string_eq, Bool-cases, Option-cases, ok, Result-cases, arith, eq_iff,
}
use ledgerly.Prelude.Int.{ℤ, pos, add_i64, eqb_ℤ, eqb_ℤ_iff}
use ledgerly.Prelude.Dict.{lookup}
use ledgerly.Domain.{EntryDraft, validate_balanced}
use ledgerly.Contracts.{SyncMutationDto, MutationReceiptDto}
use ledgerly.State.{TimeLib, Fresh, MemoryStore, AccountRecord, TxRecord}
use ledgerly.Sync.Receipt.{rejected_receipt, applied_receipt, deduped_receipt}
use ledgerly.Sync.Parse.{AccountPayload, parse_account_payload, parse_entries}
use ledgerly.Sync.Account.{
  flatten, keep_or, new_account, renamed_account, valid_account_parent_mem, write_account,
  create_account, update_account, write_parsed, process_account_mutation_mem,
}
use ledgerly.Sync.Refusals.{
  parse_account_payload-Refuses, parse_transaction-Refuses, parse_transaction-balanced,
  parse_transaction-entries,
}
use ledgerly.Sync.Transaction.{
  owns_account, version_conflict, find_duplicate, write_transaction, upsert_mem, delete_found,
  deleted_store, process_delete_mem, parse_transaction, process_mutation_mem,
}

module _ {T : Type 0} (time : TimeLib T) (s : MemoryStore T) (fresh : Fresh T) (book_id : String)
    (m : SyncMutationDto) where
  pub data Effect (r : MutationReceiptDto) (s' : MemoryStore T) : Type 0 where
    refused : (code : String) (v : Option ℤ) → r ≡ rejected_receipt m code v → s' ≡ s → Effect r s'
    deduped :
        (t : TxRecord T)
        → find_duplicate s book_id m (lookup m.entity_id s.transactions) ≡ some t
        → r ≡ deduped_receipt m t.version
        → s' ≡ s
        → Effect r s'
    account_created :
        (p : AccountPayload)
        → m.entity_type ≡ "account"
        → lookup m.entity_id s.accounts ≡ none
        → valid_account_parent_mem s book_id m.entity_id p.account_type
            (flatten p.parent_account_id)
          ≡ true
        → r ≡ applied_receipt m (pos 1)
        → s' ≡ write_account s fresh.uuid book_id m.entity_id (new_account m.entity_id book_id p)
        → Effect r s'
    account_updated :
        (p : AccountPayload) (a : AccountRecord)
        → m.entity_type ≡ "account"
        → lookup m.entity_id s.accounts ≡ some a
        → a.book_id ≡ book_id
        → valid_account_parent_mem s book_id m.entity_id a.account_type
            (keep_or p.parent_account_id a.parent_account_id)
          ≡ true
        → r ≡ applied_receipt m (add_i64 a.version (pos 1))
        → s' ≡ write_account s fresh.uuid book_id m.entity_id (renamed_account a p)
        → Effect r s'
    transaction_written :
        (requested : Option T) (drafts : List EntryDraft)
        → m.entity_type ≡ "transaction"
        → m.operation ≢ "delete"
        → parse_entries m ≡ ok drafts
        → validate_balanced drafts ≡ ok tt
        → all (λ d. owns_account s book_id d.account_id) drafts ≡ true
        → version_conflict m (lookup m.entity_id s.transactions) ≡ none
        → find_duplicate s book_id m (lookup m.entity_id s.transactions) ≡ none
        → r
          ≡ (write_transaction time s fresh book_id m requested drafts
              (lookup m.entity_id s.transactions)).0
        → s'
          ≡ (write_transaction time s fresh book_id m requested drafts
              (lookup m.entity_id s.transactions)).1
        → Effect r s'
    transaction_deleted :
        (t : TxRecord T)
        → m.entity_type ≡ "transaction"
        → m.operation ≡ "delete"
        → lookup m.entity_id s.transactions ≡ some t
        → t.book_id ≡ book_id
        → (m.base_version ≡ pos 0) ⊎ (m.base_version ≡ t.version)
        → r ≡ applied_receipt m (add_i64 t.version (pos 1))
        → s' ≡ deleted_store s fresh.uuid book_id m t
        → Effect r s'

  abbrev Ends : MutationReceiptDto × MemoryStore T → Type 0
  Ends o = Effect o.0 o.1

  create_account-Effect :
      (kind : m.entity_type ≡ "account") (p : AccountPayload) (o : Option AccountRecord)
      → lookup m.entity_id s.accounts ≡ o
      → Ends (create_account s fresh.uuid book_id m p o)
  unfolding create_account
  create_account-Effect kind p (some a) e =
      refused "LEDGER_VERSION_CONFLICT" (some a.version) refl refl
  create_account-Effect kind p none e =
      elim (Bool-cases (
        valid_account_parent_mem s book_id m.entity_id p.account_type
          (flatten p.parent_account_id))) [
            | inl valid ↦ rw valid (account_created p kind e valid refl refl)
            | inr invalid ↦ rw invalid (refused "INVALID_CATEGORY_PARENT" none refl refl)
          ]

  update_account-Effect :
      (kind : m.entity_type ≡ "account") (p : AccountPayload) (o : Option AccountRecord)
      → lookup m.entity_id s.accounts ≡ o
      → Ends (update_account s fresh.uuid book_id m p o)
  unfolding update_account
  update_account-Effect kind p none e = refused "ACCOUNT_NOT_FOUND" none refl refl
  update_account-Effect kind p (some a) e = elim (Bool-cases (a.book_id == book_id)) [
    | inr foreign ↦ rw foreign (refused "ACCOUNT_NOT_FOUND" none refl refl)
    | inl own ↦
        elim (Bool-cases (
          valid_account_parent_mem s book_id m.entity_id a.account_type
            (keep_or p.parent_account_id a.parent_account_id))) [
              | inl valid ↦
                  rw (own, valid)
                    (account_updated p a kind e ((eq_iff a.book_id book_id).0 own) valid refl refl)
              | inr invalid ↦ rw (own, invalid) (refused "INVALID_CATEGORY_PARENT" none refl refl)
            ]
  ]

  process_account_mutation_mem-Effect :
      m.entity_type ≡ "account" → Ends (process_account_mutation_mem s fresh.uuid book_id m)
  unfolding process_account_mutation_mem write_parsed
  process_account_mutation_mem-Effect kind = elim (Result-cases (parse_account_payload book_id m)) [
    | inr (x, bad) ↦
        let (code, e) = parse_account_payload-Refuses book_id m bad in
        rw (bad, write_parsed) (refused code none e refl)
    | inl (p, e) ↦ rw (e, write_parsed) (parsed p)
  ]
    where
      parsed : (p : AccountPayload) → Ends (write_parsed s fresh.uuid book_id m (ok p))
      parsed p = elim (Bool-cases (m.operation == "create")) [
        | inl create ↦ rw create (create_account-Effect kind p _ refl)
        | inr update ↦ rw update (update_account-Effect kind p _ refl)
      ]

  delete_found-Effect :
      (kind : m.entity_type ≡ "transaction") (op : m.operation ≡ "delete") (o : Option (TxRecord T))
      → lookup m.entity_id s.transactions ≡ o
      → Ends (delete_found s fresh.uuid book_id m o)
  unfolding delete_found
  delete_found-Effect kind op none e = refused "NOT_FOUND" none refl refl
  delete_found-Effect kind op (some t) e = elim (Bool-cases (t.book_id == book_id)) [
    | inr foreign ↦ rw foreign (refused "NOT_FOUND" none refl refl)
    | inl own ↦
        elim (Bool-cases
          (not (eqb_ℤ m.base_version (pos 0)) && not (eqb_ℤ m.base_version t.version))) [
            | inl stale ↦
                rw (own, stale) (refused "LEDGER_VERSION_CONFLICT" (some t.version) refl refl)
            | inr based ↦
                rw (own, based)
                  (transaction_deleted t kind op e ((eq_iff t.book_id book_id).0 own) (base based)
                    refl refl)
          ]
  ]
    where
      base :
          (not (eqb_ℤ m.base_version (pos 0)) && not (eqb_ℤ m.base_version t.version)) ≡ false
          → (m.base_version ≡ pos 0) ⊎ (m.base_version ≡ t.version)
      base h = ground (arith, eqb_ℤ_iff m.base_version (pos 0), eqb_ℤ_iff m.base_version t.version)

  upsert_mem-Effect :
      (kind : m.entity_type ≡ "transaction") (op : m.operation ≢ "delete") (requested : Option T)
      (drafts : List EntryDraft)
      → parse_entries m ≡ ok drafts
      → validate_balanced drafts ≡ ok tt
      → Ends (upsert_mem time s fresh book_id m requested drafts)
  unfolding upsert_mem
  upsert_mem-Effect kind op requested drafts read balanced =
      elim (Bool-cases (all (λ d. owns_account s book_id d.account_id) drafts)) [
        | inr foreign ↦ rw foreign (refused "ACCOUNT_NOT_FOUND" none refl refl)
        | inl own ↦ elim (Option-cases (version_conflict m existing)) [
          | inr (v, stale) ↦
              rw (own, stale, upsert_mem) (refused "LEDGER_VERSION_CONFLICT" (some v) refl refl)
          | inl based ↦ elim (Option-cases (find_duplicate s book_id m existing)) [
            | inr (t, found) ↦ rw (own, based, found, upsert_mem) (deduped t found refl refl)
            | inl new ↦
                rw (own, based, new, upsert_mem)
                  (transaction_written requested drafts kind op read balanced own based new refl
                    refl)
          ]
        ]
      ]
    where
      existing : Option (TxRecord T)
      existing = lookup m.entity_id s.transactions

  -- `process_mutation_mem` ends in one of these ways.
  pub process_mutation_mem-Effect : Ends (process_mutation_mem time s fresh book_id m)
  unfolding process_mutation_mem process_delete_mem
  process_mutation_mem-Effect = elim (Bool-cases (m.entity_type == "account")) [
    | inl account ↦
        rw account
          (process_account_mutation_mem-Effect ((eq_iff m.entity_type "account").0 account))
    | inr other ↦ elim (Bool-cases (m.entity_type == "transaction")) [
      | inr unknown ↦ rw (other, unknown) (refused "UNSUPPORTED_MUTATION" none refl refl)
      | inl transaction ↦ elim (Bool-cases (m.operation == "delete")) [
        | inl delete ↦
            rw (other, transaction, delete)
              (delete_found-Effect ((eq_iff m.entity_type "transaction").0 transaction)
                ((eq_iff m.operation "delete").0 delete) _ refl)
        | inr write ↦ elim (Result-cases (parse_transaction time m)) [
          | inr (x, bad) ↦
              let (code, e) = parse_transaction-Refuses time m bad in
              rw (other, transaction, write, bad, process_mutation_mem) (refused code none e refl)
          | inl (p, parsed) ↦
              rw (other, transaction, write, parsed, process_mutation_mem)
                (upsert_mem-Effect ((eq_iff m.entity_type "transaction").0 transaction)
                  (λ d. ground (arith, eq_iff m.operation "delete")) p.0 p.1
                  (parse_transaction-entries time m parsed)
                  (parse_transaction-balanced time m write parsed))
        ]
      ]
    ]
  ]
