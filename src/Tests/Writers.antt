-- ===== src/Tests/Writers.antt =====
-- Two devices that correct the same transaction from the same version.
use ledgerly.Prelude.{◌≡◌, refl, text_ne, arith}
use ledgerly.Prelude.Dict.{lookup}
use ledgerly.Json.{get, get_str, get_field, of_fields, insert, insert_field, of_items, items}
use ledgerly.Sync.Transaction.{
  process_mutation_mem, parse_transaction, upsert_mem, owns_account, version_conflict,
  find_duplicate, is_duplicate, carry_source, upserted, write_transaction,
}
use ledgerly.Sync.Parse.{
  parse_occurred_at, occurred_at_of, read_instant, parse_entries, parse_entry, parse_amount,
  validate_or_reject, parse_source_event_fingerprint, fingerprint_of, parse_source, source_tag,
  canonical_transaction_payload, format_occurred_at,
}
use ledgerly.Domain.{validate_balanced, sum_entries, finish_sum, new_money, is_currency}
use ledgerly.Text.{
  trim, is_whitespace, all_chars, parse_int, magnitude, digits, below_half, down_to_half,
}
use ledgerly.State.{next_sequence}
use ledgerly.Prelude.Int.{wrap, ◌+ℤ◌}
use ledgerly.Sync.Versions.{second_writer-refused}
use ledgerly.Tests.{clock, at, held, snack, correction, late_correction}

correction_applied : (process_mutation_mem clock held (at "c1") "b" correction).0.status ≡ "applied"
unfolding lookup get get_str get_field of_fields insert insert_field of_items items
    process_mutation_mem parse_transaction upsert_mem owns_account version_conflict find_duplicate
    is_duplicate carry_source upserted write_transaction parse_occurred_at occurred_at_of
    read_instant parse_entries parse_entry parse_amount validate_or_reject
    parse_source_event_fingerprint fingerprint_of parse_source source_tag
    canonical_transaction_payload format_occurred_at validate_balanced sum_entries finish_sum
    new_money is_currency trim is_whitespace all_chars parse_int magnitude digits below_half
    down_to_half next_sequence wrap ◌+ℤ◌
correction_applied = refl

second_writer-refused_example :
    ((process_mutation_mem clock
        (process_mutation_mem clock held (at "c1") "b" correction).1
        (at "c2")
        "b"
        late_correction).0.status
      ≡ "rejected")
    × ((process_mutation_mem clock
          (process_mutation_mem clock held (at "c1") "b" correction).1
          (at "c2")
          "b"
          late_correction).1
        ≡ (process_mutation_mem clock held (at "c1") "b" correction).1)
unfolding lookup
second_writer-refused_example =
    second_writer-refused clock held (at "c1") (at "c2") "b" "b" correction late_correction snack
      refl refl (text_ne refl) refl refl refl (omega arith) (omega arith) correction_applied
