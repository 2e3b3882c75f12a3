-- ===== src/Tests/Provider.antt =====
-- A run of a payout that is sent to the mock provider.
use grey_backend_assessment.Prelude.{true, some, refl}
use grey_backend_assessment.Prelude.Int.{pos}
use grey_backend_assessment.Domain.{usd}
use grey_backend_assessment.Session.{ProviderRequest}
use grey_backend_assessment.Handler.Receiver.{ReceiverCodec}
use grey_backend_assessment.Provider.{ClientCodec, ProviderClient}
use grey_backend_assessment.Provider.Mock.{MockCodec, Draws}
use grey_backend_assessment.Provider.Wire.{Agree}
use grey_backend_assessment.Provider.Reports.{Reported, submit_payment-Reported}
use grey_backend_assessment.Tests.{start}
use grey_backend_assessment.Tests.Middleware.{strokes, count_strokes}

abbrev client : ClientCodec
client = record { marshal = λ p. some p.payment_id; is_url = λ url. true; uuid_string = strokes }

abbrev provider : ProviderClient
provider = record { base_url = "http://provider"; callback_url = "http://app" }

-- 100 cents go out.
abbrev asked : ProviderRequest
asked = record {
  payment_id = 5;
  amount = pos 100;
  currency = usd;
  dest_iban = "DE1";
  dest_bank_name = "Bank";
}

abbrev draws : Draws
draws = record { event_id = "xxx"; timestamp = "now"; roll = 80; ref = 1 }

-- Only the identifier of the payment is written out; the rest is always the same.
abbrev mock : MockCodec
mock = record {
  decode = λ body. some (record {
    payment_id = body;
    amount = pos 100;
    currency = "USD";
    dest_iban = "DE1";
    dest_bank_name = "Bank";
    callback_url = "http://app";
  });
  marshal = λ p. some p.payment_id;
  encode_status = λ status. status;
  is_url = λ url. true;
  hmac = λ secret body. "signed";
  decimal = λ n. "1";
}

abbrev receiver : ReceiverCodec
receiver = record {
  unmarshal = λ body. some (record {
    event_id = "xxx";
    payment_id = body;
    status = "failed";
    provider_ref = "";
    reason = "Insufficient funds at destination bank";
    timestamp = "now";
  });
  parse_uuid = λ text. some (count_strokes text);
  hmac = λ secret body. "signed";
}

agree : Agree client mock receiver provider asked draws 3
unfolding strokes count_strokes
agree = record {
  request = ("xxxxx", refl, refl);
  callback = ("xxxxx", refl, refl);
  payment_uuid = record { read = refl; given = refl };
  event_uuid = record { read = refl; given = refl };
  one_hash = λ secret body. refl;
  hash_given = λ secret body. refl;
}

submit_payment-Reported_example :
    Reported client mock receiver provider asked draws 3 agree "key" start
unfolding strokes
submit_payment-Reported_example =
    submit_payment-Reported client mock receiver provider asked draws 3 agree "key" start refl refl
      refl refl refl refl refl
