-- ===== src/Books/Opening.antt =====
-- On the book that `create_book` of server/src/transport/http/books.rs opens, and the plan that
-- `dev_upgrade` of server/src/transport/http/billing.rs sets.
use ledgerly.Prelude.{
  ◌≡◌, ◌≢◌, ◌⊎◌, refl, ap, inl, inr, String, Bool, true, false, some, Result, ok, err, Bool-cases,
  arith, eq_iff, string_eq,
}
use ledgerly.Prelude.Dict.{lookup, lookup-insert_self, lookup-insert_ne}
use ledgerly.Json.{Value}
use ledgerly.ApiError.{ApiError}
use ledgerly.Audit.{Recorder, note_event, record_memory}
use ledgerly.State.{MemoryStore, scoped_account_id}
use ledgerly.Authz.{require_book_member, user_plan, plan_or_free}
use ledgerly.Books.{opening_account, is_plan, dev_upgrade}

-- The book is the user's, and has its two accounts.
pub record IsOpened {T : Type 0} (s s' : MemoryStore T) (book_id user_id currency : String)
    : Type 0 where
  pub member : require_book_member s' user_id book_id ≡ ok tt
  pub cash :
      lookup (scoped_account_id book_id "acc_cash") s'.accounts
      ≡ some (opening_account book_id "acc_cash" "Cash" currency)
  pub bank :
      lookup (scoped_account_id book_id "acc_bank") s'.accounts
      ≡ some (opening_account book_id "acc_bank" "Bank" currency)
  pub other_books :
      (other : String) → book_id ≢ other → lookup other s'.books ≡ lookup other s.books

is_plan_inv :
    (plan : String) → is_plan plan ≡ true → (plan ≡ "free") ⊎ (plan ≡ "plus") ⊎ (plan ≡ "family")
is_plan_inv plan h = ground (arith, eq_iff plan "free", eq_iff plan "plus", eq_iff plan "family")

module _ {T : Type 0} where
  -- What `dev_upgrade` sets where it is allowed, or leaves.
  abbrev pub Upgrades :
      MemoryStore T
      → Bool
      → String
      → String
      → String
      → Result Value ApiError × MemoryStore T
      → Type 0
  Upgrades s is_production user_id plan other (answer, s') =
      ((v : Value) × (answer ≡ ok v)
        × (is_production ≡ false)
        × (user_plan s' user_id ≡ plan)
        × ((plan ≡ "free") ⊎ (plan ≡ "plus") ⊎ (plan ≡ "family"))
        × (user_plan s' other ≡ user_plan s other))
      ⊎ ((e : ApiError) × (answer ≡ err e) × (s'.subscriptions ≡ s.subscriptions))

  -- `dev_upgrade` either succeeds, and then the server does not run in production, the plan is one of
  -- the three and is the user's plan now, and every other user keeps theirs; or it fails, and all
  -- plans stay.
  pub dev_upgrade-sets :
      (a : Recorder T) (s : MemoryStore T) (is_production : Bool) (user_id plan other : String)
      → user_id ≢ other
      → Upgrades s is_production user_id plan other (dev_upgrade a s is_production user_id plan)
  unfolding dev_upgrade user_plan note_event record_memory
  dev_upgrade-sets a s is_production user_id plan other ne = elim (Bool-cases is_production) [
    | inl on ↦ rw (on, dev_upgrade) (inr (_, refl, refl))
    | inr off ↦ elim (Bool-cases (is_plan plan)) [
      | inr unknown ↦ rw (off, dev_upgrade, unknown) (inr (_, refl, refl))
      | inl known ↦
          rw (off, dev_upgrade, known)
            (inl (
              _,
              refl,
              refl,
              ap plan_or_free (lookup-insert_self user_id plan s.subscriptions),
              is_plan_inv plan known,
              ap plan_or_free (lookup-insert_ne user_id other plan s.subscriptions ne),
            ))
    ]
  ]
