-- ===== src/Reports/Rates.antt =====
-- The exchange rates of server/src/transport/http/reports.rs on the in-memory store: `list_fx` and
-- `upsert_fx`. `fx_rates` is the field of the store of that name (server/src/state.rs).
use ledgerly.Prelude.{
  String, Bool, ◌&&◌, List, [], ◌∷◌, map, filter, ◌==◌, if◌then◌else◌, Result, ok, err, refuse_if,
  ◌>>◌, string_eq,
}
use ledgerly.Json.{Value, string, array, object, of_fields, of_items}
use ledgerly.ApiError.{ApiError, api_error}
use ledgerly.State.{MemoryStore}
use ledgerly.Authz.{require_book_member}
use ledgerly.Reports.{Floats}

pub record FxRateRecord (F : Type 0) : Type 0 where
  pub book_id : String
  pub base_currency : String
  pub quote_currency : String
  pub rate : F

module _ {F : Type 0} where
  -- The predicate of `find` in `upsert_fx`.
  abbrev pub is_rate : String → String → String → FxRateRecord F → Bool
  is_rate book_id base quote r =
      (r.book_id == book_id) && (r.base_currency == base) && (r.quote_currency == quote)

  -- `if let Some(existing) = find(..) { existing.rate = rate } else { push(..) }`
  unfoldable pub put_rate :
      String → String → String → F → List (FxRateRecord F) → List (FxRateRecord F)
  put_rate book_id base quote rate [] =
      record { book_id = book_id; base_currency = base; quote_currency = quote; rate = rate } ∷ []
  put_rate book_id base quote rate (r ∷ rs) =
      let rest = put_rate book_id base quote rate rs in
      if is_rate book_id base quote r then record r { rate = rate } ∷ rs else r ∷ rest

module _ {F : Type 0} (to_json : F → Value) where
  abbrev pub rate_json : String → String → F → Value
  rate_json base quote rate = object (
      of_fields (
        ("baseCurrency", string base)
        ∷ ("quoteCurrency", string quote)
        ∷ ("rate", to_json rate)
        ∷ []))

module _ {T F : Type 0} (floats : Floats F) (to_json : F → Value) where
  unfoldable pub list_fx :
      MemoryStore T → List (FxRateRecord F) → String → String → Result Value ApiError
  list_fx s fx_rates user_id book_id = do
    require_book_member s user_id book_id
    ok (
        object (
          of_fields (
            (
              "rates",
              array (
                  of_items (
                    map (λ r. rate_json to_json r.base_currency r.quote_currency r.rate)
                      (filter (λ r. r.book_id == book_id) fx_rates))),
            )
            ∷ [])))

  unfoldable pub checked_rate : MemoryStore T → String → String → F → Result (Unit {0}) ApiError
  checked_rate s user_id book_id rate = do
    require_book_member s user_id book_id
    refuse_if (floats.is_not_positive rate) (api_error 400 "INVALID_RATE" "rate must be > 0")

  unfoldable pub upsert_fx :
      MemoryStore T
      → List (FxRateRecord F)
      → String
      → String
      → String
      → String
      → F
      → Result Value ApiError × List (FxRateRecord F)
  unfolding checked_rate put_rate
  upsert_fx s fx_rates user_id book_id base quote rate =
      elim (checked_rate s user_id book_id rate) [
        | err e ↦ (err e, fx_rates)
        | ok _ ↦ (ok (rate_json to_json base quote rate), put_rate book_id base quote rate fx_rates)
      ]
