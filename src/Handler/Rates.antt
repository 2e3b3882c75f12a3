-- ===== src/Handler/Rates.antt =====
-- internal/handler/fx.go: the rate between two currencies. The rate service is an interface, which
-- `Fx.get_rate` implements; the text of a decimal and of a time come as arguments.
use grey_backend_assessment.Prelude.{String, List, ◌++◌}
use grey_backend_assessment.Domain.{Time, Currency, currency_of, currency_string}
use grey_backend_assessment.Session.{Result, Session, now, pure, ◌>>=◌, err, ok}
use grey_backend_assessment.Fx.{Quote}
use grey_backend_assessment.Handler.Http.{
  Request, Response, FieldError, FxRateResponse, rate_payload, HttpCodec, currency_field,
  respond_success, respond_domain_error, if_valid,
}

unfoldable pub validate_fx_rate_params : String → String → List FieldError
validate_fx_rate_params from to = currency_field "from" from ++ currency_field "to" to

module _ {D : Type 0} (codec : HttpCodec D) (decimal_string : D → String)
    (rfc3339 : Time → String) where
  abbrev pub rate_response : Quote D → Time → FxRateResponse
  rate_response quote at = record {
    from_currency = currency_string quote.from_currency;
    to_currency = currency_string quote.to_currency;
    mid_market_rate = decimal_string quote.mid_market_rate;
    effective_rate = decimal_string quote.effective_rate;
    spread_pct = decimal_string quote.spread_pct;
    timestamp = rfc3339 at;
  }

  unfoldable pub respond_quote : Result (Quote D) → Session D Response
  respond_quote (err e) = pure (respond_domain_error codec e)
  respond_quote (ok quote) = do
    at ← now
    pure (respond_success codec 200 (rate_payload (rate_response quote at)))

  unfoldable pub get_rate : (Currency → Currency → Result (Quote D)) → Request → Session D Response
  get_rate rate r =
      let from = r.query "from" in
      let to = r.query "to" in
      if_valid codec (validate_fx_rate_params from to)
        (respond_quote (rate (currency_of from) (currency_of to)))
