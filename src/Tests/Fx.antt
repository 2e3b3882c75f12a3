-- ===== src/Tests/Fx.antt =====
-- Runs of internal/fx/service.go.
use grey_backend_assessment.Prelude.{◌≡◌, ◌⊎◌, ◌^◌, refl, true, ◌&&◌, not}
use grey_backend_assessment.Prelude.Int.{pos, leb_ℤ, ◌≤ℤ◌, ◌<ℤ◌, ◌+ℤ◌}
use grey_backend_assessment.Domain.{usd, eur, is_valid, same_currency}
use grey_backend_assessment.Session.{ok}
use grey_backend_assessment.Fx.{
  Conversion, lookup, pair_key, new_rate_service, quote_pair, get_rate, rounded, at_least_one,
  at_least_zero, convert_at, convert,
}
use grey_backend_assessment.Prelude.Int.{sub64, ◌-ℤ◌}
use grey_backend_assessment.Fx.Laws.{is_ok, convert-is_ok, convert_bounds, convert_split}
use grey_backend_assessment.Tests.{micro, rates}

-- A thousand dollar cents at the rate of 0.92 less one percent.
abbrev thousand : Conversion micro.D
thousand = record {
  source_amount = pos 1000;
  dest_amount = pos 911;
  fee_amount = pos 9;
  exchange_rate = 910800;
  mid_market_rate = 920000;
}

run : convert micro rates (pos 1000) usd eur ≡ ok thousand
unfolding convert convert_at get_rate quote_pair lookup pair_key rounded at_least_one at_least_zero
    new_rate_service sub64 ◌-ℤ◌
run = refl

convert-is_ok_example :
    is_ok (convert micro (new_rate_service micro 10000) (pos 1000) usd eur)
    ≡ (not (leb_ℤ (pos 1000) (pos 0)) && is_valid usd && is_valid eur)
convert-is_ok_example = convert-is_ok micro 10000 (pos 1000) usd eur

convert_bounds_example :
    (thousand.source_amount ≡ pos 1000)
    × (pos 1 ≤ℤ thousand.dest_amount)
    × (pos 0 ≤ℤ thousand.fee_amount)
    × (same_currency usd eur ≡ true
        → (thousand.dest_amount ≡ pos 1000) × (thousand.fee_amount ≡ pos 0))
convert_bounds_example = convert_bounds micro rates (pos 1000) usd eur run

convert_split_example :
    let mid = rounded micro (pos 1000) thousand.mid_market_rate in
    ((thousand.dest_amount ≤ℤ mid) × (thousand.dest_amount +ℤ thousand.fee_amount ≡ mid))
    ⊎ (((mid <ℤ thousand.dest_amount)
          × (thousand.dest_amount ≤ℤ mid +ℤ pos (2 ^ 63))
          × (thousand.fee_amount ≡ pos 0))
        ⊎ ((mid +ℤ pos (2 ^ 63) <ℤ thousand.dest_amount)
            × (thousand.dest_amount +ℤ thousand.fee_amount ≡ mid +ℤ pos (2 ^ 64))))
convert_split_example = convert_split micro rates (pos 1000) usd eur run refl
