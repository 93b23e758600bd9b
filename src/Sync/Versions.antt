-- ===== src/Sync/Versions.antt =====
-- Optimistic concurrency in `process_mutation_mem` of server/src/transport/http/sync.rs: base versions
-- and stored versions.
use ledgerly.Prelude.{
  ◌+◌, ◌<◌, ◌≡◌, ◌≢◌, ◌∙◌, refl, sym, ap, String, none, some, ◌⊎◌, inl, inr, text_ne, string_eq,
  arith,
}
use ledgerly.Prelude.Int.{
  ℤ, pos, ◌+ℤ◌, i64_half, add_i64, eqb_ℤ_iff, wrap_of_Fits, pos_part, neg_part,
}
use ledgerly.Prelude.Dict.{lookup, lookup-insert_self}
use ledgerly.Contracts.{SyncMutationDto, MutationReceiptDto}
use ledgerly.State.{TimeLib, Fresh, MemoryStore, TxRecord}
use ledgerly.Sync.Receipt.{applied_receipt}
use ledgerly.Sync.Transaction.{
  version_conflict, find_duplicate, upserted, write_transaction, deleted_store,
  process_mutation_mem,
}
use ledgerly.Sync.Effects.{
  Effect, refused, deduped, account_created, account_updated, transaction_written,
  transaction_deleted, process_mutation_mem-Effect,
}

-- The next version differs from the old one.
next_ne : (v : ℤ) → pos_part v + 1 < i64_half → neg_part v < i64_half → v ≢ add_i64 v (pos 1)
unfolding ◌+ℤ◌
next_ne v small low e =
    let exact : add_i64 v (pos 1) ≡ v +ℤ pos 1 =
      wrap_of_Fits i64_half (v +ℤ pos 1) (ground arith) in
    let clash : v ≡ v +ℤ pos 1 = e ∙ exact in ground arith

module _ {T : Type 0} where
  version_conflict-none :
      (m : SyncMutationDto) (t : TxRecord T)
      → version_conflict m (some t) ≡ none
      → m.base_version ≡ t.version
  unfolding version_conflict
  version_conflict-none m t h = ground (arith, eqb_ℤ_iff m.base_version t.version)

  find_duplicate-some :
      (s : MemoryStore T) (book_id : String) (m : SyncMutationDto) (t : TxRecord T)
      → find_duplicate s book_id m (some t) ≡ none
  unfolding find_duplicate
  find_duplicate-some s book_id m t = refl

module _ {T : Type 0} (time : TimeLib T) where
  -- What an accepted transaction mutation on a stored record `t` was based on, and what is stored.
  pub record Advances (s : MemoryStore T) (m : SyncMutationDto) (t : TxRecord T)
      (r : MutationReceiptDto) (s' : MemoryStore T) : Type 0 where
    pub based : (m.base_version ≡ t.version) ⊎ ((m.operation ≡ "delete") × (m.base_version ≡ pos 0))
    pub next : TxRecord T
    pub stored : lookup m.entity_id s'.transactions ≡ some next
    pub version : next.version ≡ add_i64 t.version (pos 1)
    pub receipt : r ≡ applied_receipt m next.version

  Effect-Advances :
      (s : MemoryStore T) (fresh : Fresh T) (book_id : String) (m : SyncMutationDto)
      (r : MutationReceiptDto) (s' : MemoryStore T) (t : TxRecord T)
      → Effect time s fresh book_id m r s'
      → m.entity_type ≡ "transaction"
      → lookup m.entity_id s.transactions ≡ some t
      → ((r.status ≡ "rejected") × (s' ≡ s)) ⊎ Advances s m t r s'
  unfolding write_transaction deleted_store upserted
  Effect-Advances s fresh book_id m r s' t (refused code v a b) kind known =
      inl (ap (λ x. x.status) a, b)
  Effect-Advances s fresh book_id m r s' t (deduped u f a b) kind known =
      absurd (cc (find_duplicate-some s book_id m t, rw known at f))
  Effect-Advances s fresh book_id m r s' t (account_created p i e v a b) kind known =
      absurd (text_ne refl (sym i ∙ kind))
  Effect-Advances s fresh book_id m r s' t (account_updated p x i e o v a b) kind known =
      absurd (text_ne refl (sym i ∙ kind))
  Effect-Advances s fresh book_id m r s' t (transaction_written q d i j l c g w f a b) kind known =
      inr (record {
        based = inl (version_conflict-none m t (rw known at w));
        next = _;
        stored = ap (λ x. lookup m.entity_id x.transactions) b ∙ lookup-insert_self _ _ _;
        version = rw known refl;
        receipt = a;
      })
  Effect-Advances s fresh book_id m r s' t (transaction_deleted u i j l o c a b) kind known =
      let same : u ≡ t = ground arith in
      inr (record {
        based = ground arith;
        next = _;
        stored = ap (λ x. lookup m.entity_id x.transactions) b ∙ lookup-insert_self _ _ _;
        version = ap (λ x. add_i64 x.version (pos 1)) same;
        receipt = a;
      })

  -- A transaction mutation on a stored record is either rejected and changes nothing, or it was based
  -- on the stored version (a deletion may also be based on 0), and then the stored version is the next
  -- one, which the receipt reports.
  pub process_mutation_mem-Advances :
      (s : MemoryStore T) (fresh : Fresh T) (book_id : String) (m : SyncMutationDto)
      (t : TxRecord T)
      → m.entity_type ≡ "transaction"
      → lookup m.entity_id s.transactions ≡ some t
      → (((process_mutation_mem time s fresh book_id m).0.status ≡ "rejected")
          × ((process_mutation_mem time s fresh book_id m).1 ≡ s))
        ⊎ Advances s m t
            (process_mutation_mem time s fresh book_id m).0
            (process_mutation_mem time s fresh book_id m).1
  process_mutation_mem-Advances s fresh book_id m t kind known =
      Effect-Advances s fresh book_id m _ _ t (process_mutation_mem-Effect time s fresh book_id m)
        kind known

  -- No lost update: when a first transaction mutation on a stored record was applied, a second one, no
  -- deletion, of the same record and based on the version that was stored before is rejected and
  -- changes nothing. That version must be neither the greatest nor the least `i64`.
  pub second_writer-refused :
      (s : MemoryStore T) (first second : Fresh T) (book_id other_book : String)
      (m n : SyncMutationDto) (t : TxRecord T)
      → m.entity_type ≡ "transaction"
      → n.entity_type ≡ "transaction"
      → n.operation ≢ "delete"
      → lookup m.entity_id s.transactions ≡ some t
      → n.entity_id ≡ m.entity_id
      → n.base_version ≡ t.version
      → pos_part t.version + 1 < i64_half
      → neg_part t.version < i64_half
      → (process_mutation_mem time s first book_id m).0.status ≡ "applied"
      → ((process_mutation_mem time
            (process_mutation_mem time s first book_id m).1
            second
            other_book
            n).0.status
          ≡ "rejected")
        × ((process_mutation_mem time
              (process_mutation_mem time s first book_id m).1
              second
              other_book
              n).1
            ≡ (process_mutation_mem time s first book_id m).1)
  second_writer-refused s first second book_id other_book m n t km kn op known same base small low
        applied =
      elim (process_mutation_mem-Advances s first book_id m t km known) [
        | inl (rejected, e) ↦ absurd (text_ne refl (sym applied ∙ rejected))
        | inr step ↦
            elim (process_mutation_mem-Advances (process_mutation_mem time s first book_id m).1
              second other_book n step.next kn
              (ap (λ i. lookup i (process_mutation_mem time s first book_id m).1.transactions) same
                ∙ step.stored)) [ inl done ↦ done | inr again ↦ absurd (stale step again.based) ]
      ]
    where
      stale :
          {s' : MemoryStore T} {r : MutationReceiptDto} (step : Advances s m t r s')
          → (n.base_version ≡ step.next.version)
            ⊎ ((n.operation ≡ "delete") × (n.base_version ≡ pos 0))
          → ⊥
      stale step (inl e) = next_ne t.version small low (sym base ∙ e ∙ step.version)
      stale step (inr (d, z)) = op d
