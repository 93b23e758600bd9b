-- ===== src/Sync/Hierarchy.antt =====
-- The account tree: `valid_account_parent_mem` and `process_account_mutation_mem` of
-- server/src/transport/http/sync.rs.
use ledgerly.Prelude.{
  ◌≡◌, ◌≢◌, ◌∙◌, refl, sym, ap, String, Bool, true, false, ◌&&◌, List, [], ◌∷◌, Option, none, some,
  All, any, ◌==◌, eq_iff, is_text, string_eq, arith, Bool-cases, Option-cases, inl, inr, ◌⊎◌,
}
use ledgerly.Prelude.Dict.{
  Dict, values, lookup, insert-All, insert, lookup-insert, lookup-insert_ne,
}
use ledgerly.Contracts.{SyncMutationDto, MutationReceiptDto}
use ledgerly.State.{TimeLib, Fresh, MemoryStore, AccountRecord}
use ledgerly.Sync.Account.{
  has_no_parent, new_account, renamed_account, valid_parent_of, valid_account_parent_mem,
  write_account,
}
use ledgerly.Sync.Transaction.{write_transaction, deleted_store}
use ledgerly.Sync.Push.{push_all}
use ledgerly.Sync.Effects.{
  Effect, refused, deduped, account_created, account_updated, transaction_written,
  transaction_deleted, process_mutation_mem-Effect,
}
use ledgerly.Sync.Invariant.{push_all-preserves}

-- The account that is named as the parent fits below as a root.
abbrev pub fits_below : AccountRecord → Option AccountRecord → Bool
fits_below a none = false
fits_below a (some p) =
    (p.book_id == a.book_id) && (p.account_type == a.account_type) && has_no_parent p

-- The account is a root, or its parent exists, is a root, and has its book and type.
unfoldable pub is_placed : Dict String AccountRecord → Option String → AccountRecord → Bool
is_placed d none a = true
is_placed d (some p) a = fits_below a (lookup p d)

abbrev pub IsPlaced : Dict String AccountRecord → AccountRecord → Type 0
IsPlaced d a = is_placed d a.parent_account_id a ≡ true

module _ {T : Type 0} where
  abbrev pub IsTree : MemoryStore T → Type 0
  IsTree s = All (IsPlaced s.accounts) (values s.accounts)

module _ (d : Dict String AccountRecord) (k : String) (b : AccountRecord) where
  -- Nothing hangs below an account that does not exist yet.
  placed_new :
      (o : Option String) (a : AccountRecord)
      → lookup k d ≡ none
      → is_placed d o a ≡ true
      → is_placed (insert k b d) o a ≡ true
  unfolding is_placed
  placed_new none a new h = refl
  placed_new (some p) a new h = elim (Bool-cases (k == p)) [
    | inl same ↦ let e : k ≡ p = (eq_iff k p).0 same in absurd (cc (ap (λ x. lookup x d) e))
    | inr other ↦ rw (lookup-insert, other) h
  ]

  -- What hangs below an account stays below it as long as it stays a root of its book and type.
  placed_root :
      (o : Option String) (a old : AccountRecord)
      → lookup k d ≡ some old
      → b.book_id ≡ old.book_id
      → b.account_type ≡ old.account_type
      → has_no_parent b ≡ true
      → is_placed d o a ≡ true
      → is_placed (insert k b d) o a ≡ true
  unfolding is_placed
  placed_root none a old known book kind root h = refl
  placed_root (some p) a old known book kind root h = elim (Bool-cases (k == p)) [
    | inl same ↦
        let e : k ≡ p = (eq_iff k p).0 same in
        let here : lookup p d ≡ some old = ap (λ x. lookup x d) (sym e) ∙ known in
        let below : fits_below a (some old) ≡ true = rw here at h in
        rw (lookup-insert, same, book, kind, root) (ground arith)
    | inr other ↦ rw (lookup-insert, other) h
  ]

  -- Nothing changes for an account that does not hang below `k`.
  placed_else :
      (o : Option String) (a : AccountRecord)
      → is_text k o ≡ false
      → is_placed d o a ≡ true
      → is_placed (insert k b d) o a ≡ true
  unfolding is_placed
  placed_else none a ne h = refl
  placed_else (some p) a ne h =
      let other : k ≢ p = λ e. ground (arith, eq_iff p k) in rw (lookup-insert_ne k p b d other) h

-- A step for each value.
All-map :
    (P Q : AccountRecord → Type 0) (xs : List AccountRecord)
    → ((a : AccountRecord) → P a → Q a)
    → All P xs
    → All Q xs
All-map P Q [] f h = tt
All-map P Q (x ∷ xs) f h = (f x h.0, All-map P Q xs f h.1)

All-not_any :
    (d d' : Dict String AccountRecord) (k : String) (xs : List AccountRecord)
    → ((a : AccountRecord) → is_text k a.parent_account_id ≡ false → IsPlaced d a → IsPlaced d' a)
    → any (λ a. is_text k a.parent_account_id) xs ≡ false
    → All (IsPlaced d) xs
    → All (IsPlaced d') xs
All-not_any d d' k [] f e h = tt
All-not_any d d' k (x ∷ xs) f e h =
    (f x (ground arith) h.0, All-not_any d d' k xs f (ground arith) h.1)

module _ {T : Type 0} where
  -- What `valid_account_parent_mem` has checked.
  valid_placed :
      (s : MemoryStore T) (book_id k kind : String) (o : Option String) (a : AccountRecord)
      → valid_account_parent_mem s book_id k kind o ≡ true
      → a.book_id ≡ book_id
      → a.account_type ≡ kind
      → (is_placed s.accounts o a ≡ true) × (is_text k o ≡ false)
  unfolding valid_account_parent_mem valid_parent_of is_placed
  valid_placed s book_id k kind none a h b t = (refl, refl)
  valid_placed s book_id k kind (some p) a h b t = elim (Option-cases (lookup p s.accounts)) [
    | inl missing ↦ absurd (ground arith)
    | inr (x, found) ↦ rw found (ground arith)
  ]

  valid_leaf :
      (s : MemoryStore T) (book_id k kind p : String)
      → valid_account_parent_mem s book_id k kind (some p) ≡ true
      → any (λ a. is_text k a.parent_account_id) (values s.accounts) ≡ false
  unfolding valid_account_parent_mem valid_parent_of
  valid_leaf s book_id k kind p h = elim (Option-cases (lookup p s.accounts)) [
    | inl missing ↦ absurd (ground arith)
    | inr (x, found) ↦ ground arith
  ]

  created-IsTree :
      (s : MemoryStore T) (k : String) (a : AccountRecord)
      → lookup k s.accounts ≡ none
      → valid_account_parent_mem s a.book_id k a.account_type a.parent_account_id ≡ true
      → IsTree s
      → All (IsPlaced (insert k a s.accounts)) (values (insert k a s.accounts))
  created-IsTree s k a new valid h =
      let (placed, apart) =
        valid_placed s a.book_id k a.account_type a.parent_account_id a valid refl refl in
      insert-All (IsPlaced (insert k a s.accounts)) k a s.accounts
        (placed_else s.accounts k a a.parent_account_id a apart placed)
        (All-map (IsPlaced s.accounts) _ (values s.accounts)
          (λ c i. placed_new s.accounts k a c.parent_account_id c new i) h)

  updated-IsTree :
      (s : MemoryStore T) (k : String) (old a : AccountRecord)
      → lookup k s.accounts ≡ some old
      → a.book_id ≡ old.book_id
      → a.account_type ≡ old.account_type
      → valid_account_parent_mem s old.book_id k old.account_type a.parent_account_id ≡ true
      → IsTree s
      → All (IsPlaced (insert k a s.accounts)) (values (insert k a s.accounts))
  updated-IsTree s k old a known book kind valid h =
      insert-All (IsPlaced (insert k a s.accounts)) k a s.accounts
        (placed_else s.accounts k a a.parent_account_id a own.1 own.0)
        (others (Option-cases a.parent_account_id))
    where
      own :
          (is_placed s.accounts a.parent_account_id a ≡ true)
          × (is_text k a.parent_account_id ≡ false)
      own = valid_placed s old.book_id k old.account_type a.parent_account_id a valid book kind

      others :
          (a.parent_account_id ≡ none) ⊎ ((p : String) × (a.parent_account_id ≡ some p))
          → All (IsPlaced (insert k a s.accounts)) (values s.accounts)
      others (inl root) =
          All-map (IsPlaced s.accounts) _ (values s.accounts)
            (λ c i.
              placed_root s.accounts k a c.parent_account_id c old known book kind (rw root refl) i)
            h
      others (inr (p, below)) =
          All-not_any s.accounts (insert k a s.accounts) k (values s.accounts)
            (λ c apart i. placed_else s.accounts k a c.parent_account_id c apart i)
            (valid_leaf s old.book_id k old.account_type p (rw below at valid)) h

module _ {T : Type 0} (time : TimeLib T) where
  Effect-IsTree :
      (s : MemoryStore T) (fresh : Fresh T) (book_id : String) (m : SyncMutationDto)
      (r : MutationReceiptDto) (s' : MemoryStore T)
      → Effect time s fresh book_id m r s'
      → IsTree s
      → IsTree s'
  unfolding write_account write_transaction deleted_store
  Effect-IsTree s fresh book_id m r s' (refused code v a b) h = rw b h
  Effect-IsTree s fresh book_id m r s' (deduped t f a b) h = rw b h
  Effect-IsTree s fresh book_id m r s' (account_created p i e v a b) h =
      rw b (created-IsTree s m.entity_id (new_account m.entity_id book_id p) e v h)
  Effect-IsTree s fresh book_id m r s' (account_updated p x i e o v a b) h =
      rw b (updated-IsTree s m.entity_id x (renamed_account x p) e refl refl (rw o v) h)
  Effect-IsTree s fresh book_id m r s' (transaction_written q d i j l c g w f a b) h = rw b h
  Effect-IsTree s fresh book_id m r s' (transaction_deleted t i j l o c a b) h = rw b h

  -- A batch keeps the account tree: every account is a root, or its parent exists, is a root itself,
  -- and has the account's book and type.
  pub push_all-IsTree :
      (s : MemoryStore T) (book_id device_id : String) (ms : List (Fresh T × SyncMutationDto))
      → IsTree s
      → IsTree (push_all time s book_id device_id ms).1
  push_all-IsTree s book_id device_id ms h =
      push_all-preserves time book_id device_id IsTree (λ m. Unit {0})
        (λ s fresh m q i.
          Effect-IsTree s fresh book_id m _ _ (process_mutation_mem-Effect time s fresh book_id m)
            i)
        (λ s d i. i) ms s (trivial ms) h
    where
      trivial : (ms : List (Fresh T × SyncMutationDto)) → All (λ b. Unit {0}) ms
      trivial [] = tt
      trivial (b ∷ bs) = (tt, trivial bs)
