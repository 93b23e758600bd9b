-- ===== src/Sync/Frame.antt =====
-- On the parts of the store that `process_mutation_mem` of server/src/transport/http/sync.rs is not
-- about.
use ledgerly.Prelude.{List, ◌≡◌, ◌≢◌, refl, String, string_eq}
use ledgerly.Prelude.Dict.{Dict, lookup, lookup-insert_ne}
use ledgerly.Contracts.{SyncMutationDto, MutationReceiptDto}
use ledgerly.State.{TxRecord, AccountRecord, ChangeRecord, TimeLib, Fresh, MemoryStore}
use ledgerly.Sync.Account.{write_account}
use ledgerly.Sync.Transaction.{write_transaction, deleted_store, process_mutation_mem}
use ledgerly.Sync.Effects.{
  Effect, refused, deduped, account_created, account_updated, transaction_written,
  transaction_deleted, process_mutation_mem-Effect,
}

-- The two stores agree on the entity `id`, and on users, sessions, books and plans.
pub record SameElsewhere {T : Type 0} (id : String) (s s' : MemoryStore T) : Type 0 where
  pub transaction : lookup id s'.transactions ≡ lookup id s.transactions
  pub account : lookup id s'.accounts ≡ lookup id s.accounts
  pub users : s'.users ≡ s.users
  pub sessions : s'.sessions ≡ s.sessions
  pub books : s'.books ≡ s.books
  pub subscriptions : s'.subscriptions ≡ s.subscriptions

module _ {T : Type 0} where
  agrees :
      {id : String} {s : MemoryStore T} {d : Dict String (TxRecord T)}
      {e : Dict String AccountRecord} {cs : List ChangeRecord}
      → lookup id d ≡ lookup id s.transactions
      → lookup id e ≡ lookup id s.accounts
      → SameElsewhere id s (record s { transactions = d; accounts = e; changes = cs })
  agrees t a = record {
    transaction = t;
    account = a;
    users = refl;
    sessions = refl;
    books = refl;
    subscriptions = refl;
  }

module _ {T : Type 0} (time : TimeLib T) where
  Effect-frame :
      (s : MemoryStore T) (fresh : Fresh T) (book_id : String) (m : SyncMutationDto)
      (r : MutationReceiptDto) (s' : MemoryStore T) (id : String)
      → Effect time s fresh book_id m r s'
      → m.entity_id ≢ id
      → SameElsewhere id s s'
  unfolding write_account write_transaction deleted_store
  Effect-frame s fresh book_id m r s' id (refused code v a b) ne = rw b (agrees refl refl)
  Effect-frame s fresh book_id m r s' id (deduped t f a b) ne = rw b (agrees refl refl)
  Effect-frame s fresh book_id m r s' id (account_created p i e v a b) ne =
      rw b (agrees refl (lookup-insert_ne m.entity_id id _ s.accounts ne))
  Effect-frame s fresh book_id m r s' id (account_updated p x i e o v a b) ne =
      rw b (agrees refl (lookup-insert_ne m.entity_id id _ s.accounts ne))
  Effect-frame s fresh book_id m r s' id (transaction_written q d i j l c g w f a b) ne =
      rw b (agrees (lookup-insert_ne m.entity_id id _ s.transactions ne) refl)
  Effect-frame s fresh book_id m r s' id (transaction_deleted t i j l o c a b) ne =
      rw b (agrees (lookup-insert_ne m.entity_id id _ s.transactions ne) refl)

  -- A mutation changes no transaction and no account but the one it names, and never users, sessions,
  -- books or plans.
  pub process_mutation_mem-frame :
      (s : MemoryStore T) (fresh : Fresh T) (book_id : String) (m : SyncMutationDto) (id : String)
      → m.entity_id ≢ id
      → SameElsewhere id s (process_mutation_mem time s fresh book_id m).1
  process_mutation_mem-frame s fresh book_id m id ne =
      Effect-frame s fresh book_id m _ _ id (process_mutation_mem-Effect time s fresh book_id m) ne
