-- ===== src/Ledger/Tests.antt =====
-- The ledger at a concrete order.
use qift_platform.Prelude.{◌≡◌, refl, arith, not, none, some, []}
use qift_platform.Prelude.Int.{pos, ◌+ℤ◌}
use qift_platform.Prelude.Outcome.{ok, err}
use qift_platform.Prelude.Text.{is_empty, trim, to_upper}
use qift_platform.Money.{CurrencyCode, to_minor}
use qift_platform.Ledger.{
  Ledger, PaidOrder, build_order_ledger_entries, record_all, record_entry, validated, append_row,
  holds_key, is_lifecycle_marker, reason_taken, paid_posting, order_reason_taken,
}
use qift_platform.Ledger.Idempotence.{record_all_idem}
use qift_platform.Ledger.OrderPostings.{
  build_order_ledger_entries_replay, build_order_ledger_entries_allocate, minor_of, is_captured,
  build_order-Keyed,
}

abbrev paid_order : PaidOrder
paid_order = record {
  id = 1;
  user_id = 2;
  store_id = some 7;
  product_price = pos 299_500_000;
  service_fee = pos 9_000_000;
  delivery_fee = pos 15_000_000;
  total_amount = pos 323_500_000;
  currency = "SAR";
  payment_provider = "moyasar";
}

-- The ledger of the order's four entries.
abbrev posted_ledger : Ledger
posted_ledger = build_order_ledger_entries paid_order (some 3)

posted_once : record_all (build_order_ledger_entries paid_order (some 3)) [] ≡ ok posted_ledger
unfolding record_all record_entry validated append_row holds_key build_order_ledger_entries is_empty
    trim to_upper is_lifecycle_marker
posted_once = refl

-- The paid entry again, without its key: the order has an entry of that reason.
keyless_is_refused :
    record_entry
      (record (paid_posting paid_order (some 3)) { idempotency_key = none })
      posted_ledger
    ≡ err order_reason_taken
unfolding record_entry validated append_row reason_taken build_order_ledger_entries paid_posting
    is_empty trim to_upper is_lifecycle_marker
keyless_is_refused = refl

build_order_ledger_entries_replay_example :
    record_all (build_order_ledger_entries paid_order (some 3)) posted_ledger ≡ ok posted_ledger
build_order_ledger_entries_replay_example =
    build_order_ledger_entries_replay paid_order (some 3) [] posted_ledger posted_once

record_all_idem_example :
    record_all (build_order_ledger_entries paid_order (some 3)) posted_ledger ≡ ok posted_ledger
record_all_idem_example =
    record_all_idem (build_order_ledger_entries paid_order (some 3)) [] posted_ledger
      (build_order-Keyed paid_order (some 3)) posted_once

total_adds_up :
    to_minor CurrencyCode.sar (pos 323_500_000)
    ≡ to_minor CurrencyCode.sar (pos 299_500_000)
      +ℤ (to_minor CurrencyCode.sar (pos 15_000_000) +ℤ to_minor CurrencyCode.sar (pos 9_000_000))
unfolding to_minor ◌+ℤ◌
total_adds_up = refl

build_order_ledger_entries_allocate_example :
    minor_of is_captured (build_order_ledger_entries paid_order (some 3))
    ≡ minor_of (λ e. not (is_captured e)) (build_order_ledger_entries paid_order (some 3))
build_order_ledger_entries_allocate_example =
    build_order_ledger_entries_allocate paid_order (some 3) (λ h. cc) (omega arith) (omega arith)
      (omega arith) total_adds_up
