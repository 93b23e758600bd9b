-- ===== src/Sync/Capture.antt =====
-- On `find_duplicate` in `process_mutation_mem` of server/src/transport/http/sync.rs: events that
-- several devices capture.
use ledgerly.Prelude.{
  ◌≡◌, ◌∙◌, refl, sym, ap, String, Bool, true, false, List, [], ◌∷◌, none, some, any, find, text_ne,
  string_eq, Bool-cases, inl, inr, ◌⊎◌,
}
use ledgerly.Prelude.Dict.{lookup, values, lookup_not_any}
use ledgerly.Contracts.{SyncMutationDto, MutationReceiptDto}
use ledgerly.State.{TimeLib, Fresh, MemoryStore, TxRecord}
use ledgerly.Sync.Parse.{parse_source, parse_source_event_fingerprint}
use ledgerly.Sync.Transaction.{is_duplicate, find_duplicate, process_mutation_mem}
use ledgerly.Sync.Effects.{
  Effect, refused, deduped, account_created, account_updated, transaction_written,
  transaction_deleted, process_mutation_mem-Effect,
}

find-none :
    {T : Type 0} (p : TxRecord T → Bool) (ts : List (TxRecord T))
    → find p ts ≡ none
    → any p ts ≡ false
find-none p [] h = refl
find-none p (t ∷ ts) h = elim (Bool-cases (p t)) [
  | inl hit ↦ absurd (cc (rw hit at h))
  | inr miss ↦ rw miss (find-none p ts (rw miss at h))
]

module _ {T : Type 0} where
  duplicate_found :
      (s : MemoryStore T) (book_id id fingerprint : String) (m : SyncMutationDto) (t : TxRecord T)
      → lookup id s.transactions ≡ some t
      → is_duplicate book_id fingerprint t ≡ true
      → parse_source_event_fingerprint m ≡ some fingerprint
      → parse_source m ≡ some "auto_ledger"
      → find_duplicate s book_id m none ≡ none
      → ⊥
  unfolding find_duplicate
  duplicate_found s book_id id fingerprint m t known live printed source h =
      let missed =
        find-none (is_duplicate book_id fingerprint) (values s.transactions)
          (rw (printed, find_duplicate, source) at h) in
      let no = lookup_not_any (is_duplicate book_id fingerprint) id s.transactions t missed known in
      cc

module _ {T : Type 0} (time : TimeLib T) where
  Effect-captured :
      (s : MemoryStore T) (fresh : Fresh T) (book_id : String) (m : SyncMutationDto)
      (r : MutationReceiptDto) (s' : MemoryStore T) (id fingerprint : String) (t : TxRecord T)
      → Effect time s fresh book_id m r s'
      → m.entity_type ≡ "transaction"
      → lookup m.entity_id s.transactions ≡ none
      → lookup id s.transactions ≡ some t
      → is_duplicate book_id fingerprint t ≡ true
      → parse_source_event_fingerprint m ≡ some fingerprint
      → parse_source m ≡ some "auto_ledger"
      → ((r.status ≡ "rejected") ⊎ (r.result_code ≡ "AUTO_LEDGER_DEDUPED")) × (s' ≡ s)
  Effect-captured s fresh book_id m r s' id f t (refused code v a b) kind new known live p q =
      (inl (ap (λ x. x.status) a), b)
  Effect-captured s fresh book_id m r s' id f t (deduped u x a b) kind new known live p q =
      (inr (ap (λ x. x.result_code) a), b)
  Effect-captured s fresh book_id m r s' id f t (account_created x i e v a b) kind new known live p
        q =
      absurd (text_ne refl (sym i ∙ kind))
  Effect-captured s fresh book_id m r s' id f t (account_updated y x i e o v a b) kind new known
        live p q =
      absurd (text_ne refl (sym i ∙ kind))
  Effect-captured s fresh book_id m r s' id f t (transaction_written y d i j l c g w x a b) kind new
        known live p q =
      absurd (duplicate_found s book_id id f m t known live p q (rw new at x))
  Effect-captured s fresh book_id m r s' id f t (transaction_deleted u i j l o c a b) kind new known
        live p q =
      absurd (cc (sym new ∙ l))

  -- When the book holds a live `auto_ledger` transaction with some fingerprint, a mutation with the
  -- same tag and fingerprint for a transaction that is not stored yet changes nothing: it is answered
  -- `AUTO_LEDGER_DEDUPED`, unless it is rejected.
  pub captured-once :
      (s : MemoryStore T) (fresh : Fresh T) (book_id : String) (m : SyncMutationDto)
      (id fingerprint : String) (t : TxRecord T)
      → m.entity_type ≡ "transaction"
      → lookup m.entity_id s.transactions ≡ none
      → lookup id s.transactions ≡ some t
      → is_duplicate book_id fingerprint t ≡ true
      → parse_source_event_fingerprint m ≡ some fingerprint
      → parse_source m ≡ some "auto_ledger"
      → (((process_mutation_mem time s fresh book_id m).0.status ≡ "rejected")
          ⊎ ((process_mutation_mem time s fresh book_id m).0.result_code ≡ "AUTO_LEDGER_DEDUPED"))
        × ((process_mutation_mem time s fresh book_id m).1 ≡ s)
  captured-once s fresh book_id m id f t kind new known live p q =
      Effect-captured s fresh book_id m _ _ id f t
        (process_mutation_mem-Effect time s fresh book_id m) kind new known live p q
