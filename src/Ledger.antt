-- ===== src/Ledger.antt =====
-- `create_transaction` of server/src/transport/http/ledger.rs, which works on the in-memory store.
pub mod Posting
use ledgerly.Prelude.{
  ◌++◌, String, false, List, [], ◌∷◌, Option, none, some, map, string_eq, if◌then◌else◌, not,
  Result, ok, err,
}
use ledgerly.Prelude.Int.{ℤ, pos}
use ledgerly.Prelude.Dict.{insert, contains}
use ledgerly.Json.{Value, string, number, array, object, of_fields, of_items, of_option}
use ledgerly.Text.{parse_i128}
use ledgerly.Domain.{
  EntryDraft, DomainError, zero_amount, invalid_currency, amount_out_of_range, too_few_entries,
  unbalanced, currency_mismatch, validate_balanced,
}
use ledgerly.Contracts.{EntryDto, CreateTransactionRequest, CreateTransactionResponse}
use ledgerly.ApiError.{ApiError, api_error}
use ledgerly.Authz.{require_book_member}
use ledgerly.State.{TimeLib, MemoryStore, next_sequence}
use ledgerly.Sync.Parse.{canonical_transaction_payload}
use ledgerly.Sync.Transaction.{entry_tuple}

unfoldable pub draft_of : EntryDto → Option ℤ → Result EntryDraft ApiError
draft_of e none = err (api_error 400 "INVALID_AMOUNT" "bad amountMinor")
draft_of e (some amount) =
    ok (record { account_id = e.account_id; amount_minor = amount; currency = e.currency })

unfoldable pub add_draft :
    Result EntryDraft ApiError
    → Result (List EntryDraft) ApiError
    → Result (List EntryDraft) ApiError
add_draft (err e) rest = err e
add_draft (ok d) (err e) = err e
add_draft (ok d) (ok ds) = ok (d ∷ ds)

-- The drafts of the request, or the first amount that is no `i128`.
unfoldable pub drafts_of : List EntryDto → Result (List EntryDraft) ApiError
unfolding draft_of add_draft
drafts_of [] = ok []
drafts_of (e ∷ es) = add_draft (draft_of e (parse_i128 e.amount_minor)) (drafts_of es)

-- `other.to_string()` of a `DomainError`
abbrev pub domain_message : DomainError → String
domain_message zero_amount = "amount must be non-zero"
domain_message invalid_currency = "invalid currency"
domain_message amount_out_of_range = "amount out of BIGINT range"
domain_message too_few_entries = "transaction requires at least two entries"
domain_message unbalanced = "entries are unbalanced"
domain_message currency_mismatch = "currency mismatch"

abbrev pub ledger_error : DomainError → ApiError
ledger_error unbalanced = api_error 422 "LEDGER_UNBALANCED" "entries do not sum to zero"
ledger_error other = api_error 400 "LEDGER_INVALID" (domain_message other)

-- `json!` of a tuple is an array.
abbrev pub tuple_json : String × ℤ × String → Value
tuple_json (account_id, amount, currency) =
    array (of_items (string account_id ∷ number amount ∷ string currency ∷ []))

abbrev pub request_payload : Option String → List (String × ℤ × String) → Value
request_payload description entries = object (
    of_fields (
      ("description", of_option description)
      ∷ ("entries", array (of_items (map tuple_json entries)))
      ∷ []))

module _ {T : Type 0} (time : TimeLib T) where
  -- The part under the write lock.
  unfoldable pub store_transaction :
      MemoryStore T
      → T
      → String
      → String
      → CreateTransactionRequest
      → List (String × ℤ × String)
      → Result CreateTransactionResponse ApiError × MemoryStore T
  store_transaction s now tx_id commit_id req entries =
      if not (contains req.book_id s.books)
      then (err (api_error 404 "BOOK_NOT_FOUND" "book missing"), s)
      else (
        ok (record { transaction_id = tx_id; version = pos 1 }),
        record s {
          transactions =
              insert tx_id
                (record {
                  id = tx_id;
                  book_id = req.book_id;
                  occurred_at = now;
                  description = req.description;
                  version = pos 1;
                  deleted = false;
                  entries = entries;
                  source = none;
                  source_event_fingerprint = none;
                })
                s.transactions;
          changes =
              s.changes
              ++ record {
                sequence = next_sequence s.changes;
                book_id = req.book_id;
                commit_id = commit_id;
                entity_type = "transaction";
                entity_id = tx_id;
                operation = "upsert";
                entity_version = pos 1;
                payload =
                    canonical_transaction_payload time (request_payload req.description entries)
                      now;
              }
                ∷ [];
        },
      )

  -- The checks before the write lock.
  unfoldable pub checked_drafts :
      MemoryStore T → String → CreateTransactionRequest → Result (List EntryDraft) ApiError
  unfolding drafts_of
  checked_drafts s user_id req = elim (require_book_member s user_id req.book_id) [
    | err e ↦ err e
    | ok _ ↦ elim (drafts_of req.entries) [
      | err e ↦ err e
      | ok drafts ↦ elim (validate_balanced drafts) [
        | err e ↦ err (ledger_error e)
        | ok _ ↦ ok drafts
      ]
    ]
  ]

  -- `create_transaction`; the ids are new UUIDs.
  unfoldable pub create_transaction :
      MemoryStore T
      → T
      → String
      → String
      → String
      → CreateTransactionRequest
      → Result CreateTransactionResponse ApiError × MemoryStore T
  unfolding checked_drafts store_transaction
  create_transaction s now tx_id commit_id user_id req = elim (checked_drafts s user_id req) [
    | err e ↦ (err e, s)
    | ok drafts ↦ store_transaction s now tx_id commit_id req (map entry_tuple drafts)
  ]
