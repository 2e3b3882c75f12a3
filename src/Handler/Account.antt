-- ===== src/Handler/Account.antt =====
-- internal/handler/account.go: opening an account of one's own, and listing one's accounts.
pub mod Laws
pub mod Opens
use grey_backend_assessment.Prelude.{String, Option, List, map}
use grey_backend_assessment.Domain.{Uuid, currency_of, currency_string, Account}
use grey_backend_assessment.Session.{Result, Session}
use grey_backend_assessment.AccountService.{create_account, get_user_accounts}
use grey_backend_assessment.Handler.Http.{
  Request, Response, FieldError, AccountDto, account_payload, accounts_payload, HttpCodec,
  currency_field, decode_body, respond_success, with_body, if_valid, respond_with,
  account_status_string,
}
use grey_backend_assessment.Handler.Ownership.{with_owner}

pub record CreateAccountRequest : Type 0 where
  pub currency : String

unfoldable pub validate_account : CreateAccountRequest → List FieldError
validate_account r = currency_field "currency" r.currency

unfoldable pub to_account_dto : Account → AccountDto
to_account_dto a = record {
  id = a.id;
  user_id = a.user_id;
  currency = currency_string a.currency;
  balance = a.balance;
  account_number = a.account_number;
  iban = a.iban;
  status = account_status_string a.status;
  created_at = a.created_at;
}

module _ {D : Type 0} (codec : HttpCodec D) where
  -- `digits` is the account number that generateAccountNumber draws.
  unfoldable pub create :
      (String → Option CreateAccountRequest) → Result String → Request → Session D Response
  create decode digits r = with_owner codec r λ user_id.
      with_body codec (decode_body decode r.body) λ req. if_valid codec (validate_account req) (
        respond_with codec (create_account digits user_id (currency_of req.currency))
          λ a. respond_success codec 201 (account_payload (to_account_dto a)))

  unfoldable pub list : Request → Session D Response
  list r = with_owner codec r λ user_id.
      respond_with codec (get_user_accounts user_id)
        λ accounts. respond_success codec 200 (accounts_payload (map to_account_dto accounts))
