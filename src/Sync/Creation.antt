-- ===== src/Sync/Creation.antt =====
-- On `process_mutation_mem` of server/src/transport/http/sync.rs for a transaction that is not stored
-- yet.
use ledgerly.Prelude.{
  ◌≤◌, ◌≡◌, ◌∙◌, refl, sym, ap, String, false, List, none, some, map, ◌⊎◌, inl, inr, ok, text_ne,
  string_eq,
}
use ledgerly.Prelude.Int.{pos, i64_half}
use ledgerly.Prelude.Dict.{lookup, lookup-insert_self}
use ledgerly.Domain.{EntryDraft}
use ledgerly.Domain.Balance.{IsBalanced, currency_of, validate_balanced-IsBalanced}
use ledgerly.Contracts.{SyncMutationDto, MutationReceiptDto}
use ledgerly.State.{TimeLib, Fresh, MemoryStore, TxRecord}
use ledgerly.Sync.Receipt.{applied_receipt}
use ledgerly.Sync.Parse.{parse_entries}
use ledgerly.Sync.Transaction.{upserted, write_transaction, process_mutation_mem}
use ledgerly.Sync.Effects.{
  Effect, refused, deduped, account_created, account_updated, transaction_written,
  transaction_deleted, process_mutation_mem-Effect,
}
use ledgerly.Sync.DoubleEntry.{entry_draft, entry_count, entry_draft-entry_tuple}

module _ {T : Type 0} where
  -- The record that is stored, and how it relates to the mutation.
  pub record Creates (book_id : String) (m : SyncMutationDto) (r : MutationReceiptDto)
      (s' : MemoryStore T) : Type 0 where
    pub drafts : List EntryDraft
    pub read : parse_entries m ≡ ok drafts
    pub balanced : IsBalanced drafts
    pub t : TxRecord T
    pub stored : lookup m.entity_id s'.transactions ≡ some t
    pub entries : map entry_draft t.entries ≡ drafts
    pub book : t.book_id ≡ book_id
    pub version : t.version ≡ pos 1
    pub live : t.deleted ≡ false
    pub receipt : r ≡ applied_receipt m (pos 1)

module _ {T : Type 0} (time : TimeLib T) where
  Effect-Creates :
      (s : MemoryStore T) (fresh : Fresh T) (book_id : String) (m : SyncMutationDto)
      (r : MutationReceiptDto) (s' : MemoryStore T)
      → Effect time s fresh book_id m r s'
      → m.entity_type ≡ "transaction"
      → lookup m.entity_id s.transactions ≡ none
      → entry_count m ≤ i64_half
      → (s' ≡ s) ⊎ Creates book_id m r s'
  unfolding write_transaction upserted
  Effect-Creates s fresh book_id m r s' (refused code v a b) kind new small = inl b
  Effect-Creates s fresh book_id m r s' (deduped t f a b) kind new small = inl b
  Effect-Creates s fresh book_id m r s' (account_created p i e v a b) kind new small =
      absurd (text_ne refl (sym i ∙ kind))
  Effect-Creates s fresh book_id m r s' (account_updated p x i e o v a b) kind new small =
      absurd (text_ne refl (sym i ∙ kind))
  Effect-Creates s fresh book_id m r s' (transaction_written q d i j l c g w f a b) kind new small =
      let balanced = (validate_balanced-IsBalanced d (rw l at small)).0 c in
      inr (record {
        drafts = d;
        read = l;
        balanced = balanced;
        t = _;
        stored = ap (λ x. lookup m.entity_id x.transactions) b ∙ lookup-insert_self _ _ _;
        entries = entry_draft-entry_tuple (currency_of d) d balanced.posted;
        book = refl;
        version = rw new refl;
        live = refl;
        receipt = rw new at a;
      })
  Effect-Creates s fresh book_id m r s' (transaction_deleted t i j l o c a b) kind new small =
      absurd (cc (sym new ∙ l))

  -- A mutation with at most 2 ^ 63 entries for a transaction that is not stored yet either changes
  -- nothing, or its entries are balanced and are stored as they were sent, amount by amount, as
  -- version 1 of a live transaction of the book, which the receipt reports.
  pub process_mutation_mem-Creates :
      (s : MemoryStore T) (fresh : Fresh T) (book_id : String) (m : SyncMutationDto)
      → m.entity_type ≡ "transaction"
      → lookup m.entity_id s.transactions ≡ none
      → entry_count m ≤ i64_half
      → ((process_mutation_mem time s fresh book_id m).1 ≡ s)
        ⊎ Creates book_id m
            (process_mutation_mem time s fresh book_id m).0
            (process_mutation_mem time s fresh book_id m).1
  process_mutation_mem-Creates s fresh book_id m kind new small =
      Effect-Creates s fresh book_id m _ _ (process_mutation_mem-Effect time s fresh book_id m) kind
        new small
