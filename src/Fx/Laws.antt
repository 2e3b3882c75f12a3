-- ===== src/Fx/Laws.antt =====
-- internal/fx/service.go: which conversions succeed, and the bounds of what they give.
use grey_backend_assessment.Prelude.{
  ◌≡◌, ◌⊎◌, ℕ, ◌+◌, ◌-◌, ◌^◌, ◌≤◌, ◌<◌, ltb, if◌then◌else◌, refl, Bool, true, false, ◌&&◌, not,
  arith, inl, inr, Bool-cases, Option, none, some,
}
use grey_backend_assessment.Prelude.Int.{
  ℤ, pos, leb_ℤ, ◌≤ℤ◌, ◌<ℤ◌, ◌+ℤ◌, ◌-ℤ◌, sub64, InInt64, sub64-of_nonneg, negsuc,
}
use grey_backend_assessment.Domain.{Currency, usd, eur, gbp, other, is_valid, same_currency}
use grey_backend_assessment.Session.{Result, ok, err}
use grey_backend_assessment.Session.Panics.{panics}
use grey_backend_assessment.Fx.{
  Decimal, Conversion, Quote, RateService, lookup, pair_key, new_rate_service, quote_pair, get_rate,
  rounded, at_least_one, at_least_zero, convert_at, convert,
}

abbrev pub is_ok : {A : Type 0} → Result A → Bool
is_ok (ok a) = true
is_ok (err e) = false

-- A conversion that fails has an error of the domain.
module _ (decimal : Decimal) (s : RateService decimal.D) where
  quote_pair-panics :
      (from to : Currency) (o : Option decimal.D) → panics (quote_pair decimal s from to o) ≡ false
  unfolding quote_pair
  quote_pair-panics from to none = refl
  quote_pair-panics from to (some mid) = refl

  get_rate-panics : (from to : Currency) → panics (get_rate decimal s from to) ≡ false
  unfolding get_rate
  get_rate-panics from to =
      ground (arith, quote_pair-panics from to (lookup (pair_key from to) s.rates))

  convert_at-panics :
      (amount : ℤ) (from to : Currency) (r : Result (Quote decimal.D))
      → panics r ≡ false
      → panics (convert_at decimal amount from to r) ≡ false
  unfolding convert_at
  convert_at-panics amount from to (err e) h = h
  convert_at-panics amount from to (ok quote) h = ground arith

  pub convert-panics :
      (amount : ℤ) (from to : Currency) → panics (convert decimal s amount from to) ≡ false
  unfolding convert
  convert-panics amount from to = ground (
    arith,
    convert_at-panics amount from to (get_rate decimal s from to) (get_rate-panics from to),
  )

module _ (decimal : Decimal) (spread : decimal.Float) where
  -- Every pair of the three currencies has a rate in the table.
  pub get_rate-is_ok :
      (from to : Currency)
      → is_ok (get_rate decimal (new_rate_service decimal spread) from to)
        ≡ (is_valid from && is_valid to)
  unfolding get_rate quote_pair lookup pair_key new_rate_service
  get_rate-is_ok usd usd = refl
  get_rate-is_ok usd eur = refl
  get_rate-is_ok usd gbp = refl
  get_rate-is_ok eur usd = refl
  get_rate-is_ok eur eur = refl
  get_rate-is_ok eur gbp = refl
  get_rate-is_ok gbp usd = refl
  get_rate-is_ok gbp eur = refl
  get_rate-is_ok gbp gbp = refl
  get_rate-is_ok (other s) to = refl
  get_rate-is_ok usd (other t) = refl
  get_rate-is_ok eur (other t) = refl
  get_rate-is_ok gbp (other t) = refl

  -- A conversion succeeds exactly for a positive amount between two of the three currencies.
  pub convert-is_ok :
      (amount : ℤ) (from to : Currency)
      → is_ok (convert decimal (new_rate_service decimal spread) amount from to)
        ≡ (not (leb_ℤ amount (pos 0)) && is_valid from && is_valid to)
  unfolding convert convert_at
  convert-is_ok amount from to = ground (arith, get_rate-is_ok from to)

at_least_one-InInt64 : (a : ℤ) → InInt64 a → InInt64 (at_least_one a) × (pos 1 ≤ℤ at_least_one a)
unfolding at_least_one
at_least_one-InInt64 a h = ground arith

-- What of the value at the mid-market rate is the fee. An int64 from 1 on is taken off an int64; the
-- difference wraps where it is below the smallest int64.
abbrev pub IsSplit : (mid dest fee : ℤ) → Type 0
IsSplit mid dest fee =
    ((dest ≤ℤ mid) × (dest +ℤ fee ≡ mid))
    ⊎ (((mid <ℤ dest) × (dest ≤ℤ mid +ℤ pos (2 ^ 63)) × (fee ≡ pos 0))
        ⊎ ((mid +ℤ pos (2 ^ 63) <ℤ dest) × (dest +ℤ fee ≡ mid +ℤ pos (2 ^ 64))))

-- Below zero, the difference is the number -(m + d + 1), which wraps from 2 ^ 63 on.
sub64-of_negsuc :
    (m d : ℕ)
    → m < 2 ^ 63
    → d < 2 ^ 63
    → sub64 (negsuc m) (pos d)
      ≡ (if ltb (m + d) (2 ^ 63) then negsuc (m + d) else pos (2 ^ 64 - 1 - (m + d)))
unfolding sub64 ◌-ℤ◌
sub64-of_negsuc m d hm hd = ground arith

fee-IsSplit :
    (mid dest : ℤ)
    → InInt64 mid
    → InInt64 dest
    → pos 1 ≤ℤ dest
    → IsSplit mid dest (at_least_zero (sub64 mid dest))
unfolding at_least_zero ◌+ℤ◌ ◌-ℤ◌
fee-IsSplit (pos m) (pos d) hm hd pd =
    rw (sub64-of_nonneg (pos m) (pos d) hm hd (omega arith) (omega arith))
      (from_zero m d (omega arith) (omega arith))
  where
    from_zero :
        (m d : ℕ) → d < 2 ^ 63 → 1 ≤ d → IsSplit (pos m) (pos d) (at_least_zero (pos m -ℤ pos d))
    from_zero m d hd pd = ground arith
fee-IsSplit (negsuc m) (pos d) hm hd pd =
    rw (sub64-of_negsuc m d (omega arith) (omega arith))
      (below_zero m d (omega arith) (omega arith))
  where
    below_zero :
        (m d : ℕ)
        → m < 2 ^ 63
        → d < 2 ^ 63
        → IsSplit (negsuc m) (pos d) (
            at_least_zero
              (if ltb (m + d) (2 ^ 63) then negsuc (m + d) else pos (2 ^ 64 - 1 - (m + d))))
    below_zero m d hm hd = ground arith
fee-IsSplit mid (negsuc d) hm hd pd = absurd (omega arith)

module _ (decimal : Decimal) (s : RateService decimal.D) where
  -- The recipient gets at least one minor unit and the fee is never negative. Within one currency
  -- the amount goes over whole, with no fee.
  pub convert_bounds :
      (amount : ℤ) (from to : Currency) {c : Conversion decimal.D}
      → convert decimal s amount from to ≡ ok c
      → (c.source_amount ≡ amount)
        × (pos 1 ≤ℤ c.dest_amount)
        × (pos 0 ≤ℤ c.fee_amount)
        × (same_currency from to ≡ true → (c.dest_amount ≡ amount) × (c.fee_amount ≡ pos 0))
  unfolding convert convert_at at_least_one at_least_zero
  convert_bounds amount from to h = ground arith

  convert_cross :
      (amount : ℤ) (from to : Currency) {c : Conversion decimal.D}
      → convert decimal s amount from to ≡ ok c
      → same_currency from to ≡ false
      → (c.dest_amount ≡ at_least_one (rounded decimal amount c.exchange_rate))
        × (c.fee_amount
            ≡ at_least_zero (sub64 (rounded decimal amount c.mid_market_rate) c.dest_amount))
  unfolding convert convert_at
  convert_cross amount from to h ne = ground arith

  -- Between two currencies, one of three holds of the value at the mid-market rate, an int64 that is
  -- kept whole or has wrapped: it is no less than what the recipient gets, and what the recipient gets
  -- and the fee make it up; or it is less, by 2 ^ 63 at most, and the fee is zero; or it is less by
  -- more than that, and the fee has wrapped, so that the two make up the value and 2 ^ 64.
  pub convert_split :
      (amount : ℤ) (from to : Currency) {c : Conversion decimal.D}
      → convert decimal s amount from to ≡ ok c
      → same_currency from to ≡ false
      → let mid = rounded decimal amount c.mid_market_rate in
        ((c.dest_amount ≤ℤ mid) × (c.dest_amount +ℤ c.fee_amount ≡ mid))
        ⊎ (((mid <ℤ c.dest_amount)
              × (c.dest_amount ≤ℤ mid +ℤ pos (2 ^ 63))
              × (c.fee_amount ≡ pos 0))
            ⊎ ((mid +ℤ pos (2 ^ 63) <ℤ c.dest_amount)
                × (c.dest_amount +ℤ c.fee_amount ≡ mid +ℤ pos (2 ^ 64))))
  unfolding rounded
  convert_split amount from to {c} h ne =
      let (dest, fee) = convert_cross amount from to h ne in
      let (fits, positive) =
        at_least_one-InInt64 (rounded decimal amount c.exchange_rate)
          (decimal.int_part-InInt64 _) in
      rw fee (
        fee-IsSplit (rounded decimal amount c.mid_market_rate) c.dest_amount
          (decimal.int_part-InInt64 _) (rw dest fits) (rw dest positive))

  -- What a conversion of an int64 gives is an int64 from zero on.
  pub convert-InInt64 :
      (amount : ℤ) (from to : Currency) {c : Conversion decimal.D}
      → InInt64 amount
      → convert decimal s amount from to ≡ ok c
      → (pos 0 ≤ℤ c.dest_amount) × InInt64 c.dest_amount
  unfolding rounded
  convert-InInt64 amount from to {c} fits h =
      let (_, one, _, whole) = convert_bounds amount from to h in
      let positive : pos 0 ≤ℤ c.dest_amount = omega (arith, one) in
      elim (Bool-cases (same_currency from to)) [
        | inl same ↦ (positive, rw (← (whole same).0) at fits)
        | inr ne ↦ (
          positive,
          rw ((convert_cross amount from to h ne).0)
              (at_least_one-InInt64 _ (decimal.int_part-InInt64 _)).0,
        )
      ]
