-- ===== src/Sync/References.antt =====
-- Referential integrity between transactions and accounts, for `push` of
-- server/src/transport/http/sync.rs.
use ledgerly.Prelude.{
  ◌≡◌, ◌∙◌, sym, ap, String, true, List, [], ◌∷◌, some, map, All, all, ◌==◌, eq_iff, string_eq,
  arith, Bool-cases, Option-cases, inl, inr,
}
use ledgerly.Prelude.Int.{ℤ}
use ledgerly.Prelude.Dict.{values, lookup, lookup-All, insert-All, insert, lookup-insert}
use ledgerly.Domain.{EntryDraft}
use ledgerly.Contracts.{SyncMutationDto, MutationReceiptDto}
use ledgerly.State.{TimeLib, Fresh, MemoryStore, AccountRecord, TxRecord, ChangeRecord}
use ledgerly.Sync.Account.{write_account, new_account, renamed_account}
use ledgerly.Sync.Transaction.{
  entry_tuple, owns_account, upserted, write_transaction, deleted_store,
}
use ledgerly.Sync.Push.{push_all}
use ledgerly.Sync.Effects.{
  Effect, refused, deduped, account_created, account_updated, transaction_written,
  transaction_deleted, process_mutation_mem-Effect,
}
use ledgerly.Sync.Invariant.{push_all-preserves}

module _ {T : Type 0} where
  -- Every entry names an account of the transaction's book.
  abbrev pub IsReferenced : MemoryStore T → Type 0
  IsReferenced s =
      All (λ t. All (λ e. owns_account s t.book_id e.0 ≡ true) t.entries) (values s.transactions)

  owned_entries :
      (s : MemoryStore T) (book_id : String) (ds : List EntryDraft)
      → all (λ d. owns_account s book_id d.account_id) ds ≡ true
      → All (λ e. owns_account s book_id e.0 ≡ true) (map entry_tuple ds)
  owned_entries s book_id [] h = tt
  owned_entries s book_id (d ∷ ds) h = (ground arith, owned_entries s book_id ds (ground arith))

  -- An account that is written under its book, where none was or one of that book, takes no account
  -- away from any book.
  owns_account-insert :
      (s : MemoryStore T) (k : String) (a : AccountRecord) (cs : List ChangeRecord)
      (book_id id : String)
      → ((old : AccountRecord) → lookup k s.accounts ≡ some old → a.book_id ≡ old.book_id)
      → owns_account s book_id id ≡ true
      → owns_account (record s { accounts = insert k a s.accounts; changes = cs }) book_id id ≡ true
  unfolding owns_account
  owns_account-insert s k a cs book_id id same h = elim (Option-cases (lookup id s.accounts)) [
    | inl missing ↦ absurd (ground arith)
    | inr (old, found) ↦ elim (Bool-cases (k == id)) [
      | inr other ↦ rw (owns_account, lookup-insert, other) h
      | inl here ↦
          let e : k ≡ id = (eq_iff k id).0 here in
          let book = same old (ap (λ x. lookup x s.accounts) e ∙ found) in
          rw (owns_account, lookup-insert, here, book) (ground arith)
    ]
  ]

  entries-insert :
      (s : MemoryStore T) (k : String) (a : AccountRecord) (cs : List ChangeRecord)
      (book_id : String) (es : List (String × ℤ × String))
      → ((old : AccountRecord) → lookup k s.accounts ≡ some old → a.book_id ≡ old.book_id)
      → All (λ e. owns_account s book_id e.0 ≡ true) es
      → All
          (λ e.
            owns_account (record s { accounts = insert k a s.accounts; changes = cs }) book_id e.0
            ≡ true)
          es
  entries-insert s k a cs book_id [] same h = tt
  entries-insert s k a cs book_id (e ∷ es) same h = (
    owns_account-insert s k a cs book_id e.0 same h.0,
    entries-insert s k a cs book_id es same h.1,
  )

  All-insert :
      (s : MemoryStore T) (k : String) (a : AccountRecord) (cs : List ChangeRecord)
      (ts : List (TxRecord T))
      → ((old : AccountRecord) → lookup k s.accounts ≡ some old → a.book_id ≡ old.book_id)
      → All (λ t. All (λ e. owns_account s t.book_id e.0 ≡ true) t.entries) ts
      → All
          (λ t.
            All
              (λ e.
                owns_account
                  (record s { accounts = insert k a s.accounts; changes = cs })
                  t.book_id
                  e.0
                ≡ true)
              t.entries)
          ts
  All-insert s k a cs [] same h = tt
  All-insert s k a cs (t ∷ ts) same h =
      (entries-insert s k a cs t.book_id t.entries same h.0, All-insert s k a cs ts same h.1)

module _ {T : Type 0} (time : TimeLib T) where
  Effect-IsReferenced :
      (s : MemoryStore T) (fresh : Fresh T) (book_id : String) (m : SyncMutationDto)
      (r : MutationReceiptDto) (s' : MemoryStore T)
      → Effect time s fresh book_id m r s'
      → IsReferenced s
      → IsReferenced s'
  unfolding write_account write_transaction deleted_store upserted owns_account
  Effect-IsReferenced s fresh book_id m r s' (refused code v a b) h = rw b h
  Effect-IsReferenced s fresh book_id m r s' (deduped t f a b) h = rw b h
  Effect-IsReferenced s fresh book_id m r s' (account_created p i e v a b) h = rw b (
      All-insert s m.entity_id (new_account m.entity_id book_id p)
        (write_account s fresh.uuid book_id m.entity_id (new_account m.entity_id book_id p)).changes
        (values s.transactions) (λ old f. absurd (cc (sym e ∙ f))) h)
  Effect-IsReferenced s fresh book_id m r s' (account_updated p x i e o v a b) h = rw b (
      All-insert s m.entity_id (renamed_account x p)
        (write_account s fresh.uuid book_id m.entity_id (renamed_account x p)).changes
        (values s.transactions)
        (λ old f. let same : x ≡ old = ground (arith, sym e ∙ f) in ap (λ y. y.book_id) same) h)
  Effect-IsReferenced s fresh book_id m r s' (transaction_written q d i j l c g w f a b) h = rw b (
      insert-All (λ t. All (λ e. owns_account s t.book_id e.0 ≡ true) t.entries) m.entity_id _
        s.transactions (owned_entries s book_id d g) h)
  Effect-IsReferenced s fresh book_id m r s' (transaction_deleted t i j l o c a b) h = rw b (
      insert-All (λ t. All (λ e. owns_account s t.book_id e.0 ≡ true) t.entries) m.entity_id _
        s.transactions
        (lookup-All (λ t. All (λ e. owns_account s t.book_id e.0 ≡ true) t.entries) m.entity_id
          s.transactions t h l)
        h)

  -- A batch keeps the references: every entry of every stored transaction names an account that
  -- exists and belongs to the transaction's book.
  pub push_all-IsReferenced :
      (s : MemoryStore T) (book_id device_id : String) (ms : List (Fresh T × SyncMutationDto))
      → IsReferenced s
      → IsReferenced (push_all time s book_id device_id ms).1
  unfolding owns_account
  push_all-IsReferenced s book_id device_id ms h =
      push_all-preserves time book_id device_id IsReferenced (λ m. Unit {0})
        (λ s fresh m q i.
          Effect-IsReferenced s fresh book_id m _ _
            (process_mutation_mem-Effect time s fresh book_id m) i)
        (λ s d i. i) ms s (trivial ms) h
    where
      trivial : (ms : List (Fresh T × SyncMutationDto)) → All (λ b. Unit {0}) ms
      trivial [] = tt
      trivial (b ∷ bs) = (tt, trivial bs)
