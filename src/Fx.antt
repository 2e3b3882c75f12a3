-- ===== src/Fx.antt =====
-- internal/fx/service.go: rates, quotes and conversions. github.com/shopspring/decimal is not part
-- of the repository: its type and the operations that are called come as a parameter.
pub mod Laws
use Prim.Native.String.{◌++◌}
use grey_backend_assessment.Prelude.{
  ℕ, String, Bool, true, false, not, ◌||◌, Option, none, some, List, [], ◌∷◌, if◌then◌else◌, str_eq,
}
use grey_backend_assessment.Prelude.Int.{ℤ, pos, ltb_ℤ, leb_ℤ, sub64, InInt64}
use grey_backend_assessment.Domain.{
  Currency, currency_string, is_valid, same_currency, Error, invalid_currency, invalid_amount,
}
use grey_backend_assessment.Session.{Result, ok, err}

-- What the program calls of the decimal library. `literal m k` is the float64 that the source
-- writes for m / 10^k.
pub record Decimal : Type 1 where
  pub D : Type 0
  pub Float : Type 0
  pub literal : ℕ → ℕ → Float
  pub new_from_float : Float → D
  pub new_from_int : ℤ → D
  pub zero_decimal : D
  pub mul : D → D → D
  pub sub : D → D → D
  pub round_to_integer : D → D
  pub int_part : D → ℤ
  -- its type is int64
  pub int_part-InInt64 : (d : D) → InInt64 (int_part d)

pub record Quote (D : Type 0) : Type 0 where
  pub from_currency : Currency
  pub to_currency : Currency
  pub mid_market_rate : D
  pub effective_rate : D
  pub spread_pct : D

pub record Conversion (D : Type 0) : Type 0 where
  pub source_amount : ℤ
  pub dest_amount : ℤ
  pub fee_amount : ℤ
  pub exchange_rate : D
  pub mid_market_rate : D

pub record RateService (D : Type 0) : Type 0 where
  pub rates : List (String × D)
  pub spread_pct : D

-- s.rates[key]
unfoldable pub lookup : {D : Type 0} → String → List (String × D) → Option D
lookup key [] = none
lookup key ((k, d) ∷ rates) = if str_eq k key then some d else lookup key rates

unfoldable pub pair_key : Currency → Currency → String
pair_key from to = (currency_string from ++ "_") ++ currency_string to

-- if destAmount < 1 { destAmount = 1 }
unfoldable pub at_least_one : ℤ → ℤ
at_least_one a = if ltb_ℤ a (pos 1) then pos 1 else a

-- if fee < 0 { fee = 0 }
unfoldable pub at_least_zero : ℤ → ℤ
at_least_zero a = if ltb_ℤ a (pos 0) then pos 0 else a

module _ (decimal : Decimal) where
  open decimal use {
    D, Float, literal, new_from_float, new_from_int, zero_decimal, mul, sub, round_to_integer,
    int_part,
  }

  unfoldable pub new_rate_service : Float → RateService D
  new_rate_service spread = record {
    spread_pct = new_from_float spread;
    rates =
        ("USD_EUR", new_from_float (literal 92 2))
        ∷ ("EUR_USD", new_from_float (literal 1087 3))
        ∷ ("USD_GBP", new_from_float (literal 79 2))
        ∷ ("GBP_USD", new_from_float (literal 1266 3))
        ∷ ("EUR_GBP", new_from_float (literal 858 3))
        ∷ ("GBP_EUR", new_from_float (literal 1166 3))
        ∷ [];
  }

  -- The rate of a pair with the spread taken off it.
  unfoldable pub quote_pair : RateService D → Currency → Currency → Option D → Result (Quote D)
  quote_pair s from to none = err invalid_currency
  quote_pair s from to (some mid) = ok (record {
    from_currency = from;
    to_currency = to;
    mid_market_rate = mid;
    effective_rate = mul mid (sub (new_from_int (pos 1)) s.spread_pct);
    spread_pct = s.spread_pct;
  })

  unfoldable pub get_rate : RateService D → Currency → Currency → Result (Quote D)
  get_rate s from to =
      if not (is_valid from) || not (is_valid to)
      then err invalid_currency
      else if same_currency from to
      then ok (record {
        from_currency = from;
        to_currency = to;
        mid_market_rate = new_from_int (pos 1);
        effective_rate = new_from_int (pos 1);
        spread_pct = zero_decimal;
      })
      else quote_pair s from to (lookup (pair_key from to) s.rates)

  -- src.Mul(rate).Round(0).IntPart()
  unfoldable pub rounded : ℤ → D → ℤ
  rounded amount rate = int_part (round_to_integer (mul (new_from_int amount) rate))

  unfoldable pub convert_at : ℤ → Currency → Currency → Result (Quote D) → Result (Conversion D)
  convert_at amount from to (err e) = err e
  convert_at amount from to (ok quote) =
      if same_currency from to
      then ok (record {
        source_amount = amount;
        dest_amount = amount;
        fee_amount = pos 0;
        exchange_rate = quote.effective_rate;
        mid_market_rate = quote.mid_market_rate;
      })
      else let dest = at_least_one (rounded amount quote.effective_rate) in
        let fee = at_least_zero (sub64 (rounded amount quote.mid_market_rate) dest) in
        ok (record {
          source_amount = amount;
          dest_amount = dest;
          fee_amount = fee;
          exchange_rate = quote.effective_rate;
          mid_market_rate = quote.mid_market_rate;
        })

  unfoldable pub convert : RateService D → ℤ → Currency → Currency → Result (Conversion D)
  convert s amount from to =
      if leb_ℤ amount (pos 0)
      then err invalid_amount
      else convert_at amount from to (get_rate s from to)
