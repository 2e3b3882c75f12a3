-- ===== src/Domain.antt =====
-- internal/domain: the types of the program and its sentinel errors. A Go string type with a
-- closed set of constants that only the code writes is an enumeration; `Currency`, which a client
-- writes, keeps a constructor for any other text. A pointer that may be nil is an `Option`.
pub mod Laws
use grey_backend_assessment.Prelude.{ℕ, String, Bool, true, false, Option, str_eq, if◌then◌else◌}
use grey_backend_assessment.Prelude.Int.{ℤ}

-- uuid.UUID, as the number that its 16 bytes spell.
abbrev pub Uuid : Type 0
Uuid = ℕ

-- time.Time, as a count of ticks.
abbrev pub Time : Type 0
Time = ℕ

pub data Currency : Type 0 where
  usd eur gbp : Currency
  other : String → Currency

-- domain.Currency(s): the constant that spells `s`, if there is one
abbrev pub currency_of : String → Currency
currency_of s =
    if str_eq s "USD"
    then usd
    else if str_eq s "EUR"
    then eur
    else if str_eq s "GBP"
    then gbp
    else other s

-- string(c)
abbrev pub currency_string : Currency → String
currency_string usd = "USD"
currency_string eur = "EUR"
currency_string gbp = "GBP"
currency_string (other s) = s

abbrev pub is_valid : Currency → Bool
is_valid usd = true
is_valid eur = true
is_valid gbp = true
is_valid (other s) = false

-- a == b, on currencies
abbrev pub same_currency : Currency → Currency → Bool
same_currency usd usd = true
same_currency eur eur = true
same_currency gbp gbp = true
same_currency (other s) (other t) = str_eq s t
same_currency _ _ = false

pub data AccountType : Type 0 where
  user fx_pool outgoing : AccountType

abbrev pub same_account_type : AccountType → AccountType → Bool
same_account_type user user = true
same_account_type fx_pool fx_pool = true
same_account_type outgoing outgoing = true
same_account_type _ _ = false

pub data AccountStatus : Type 0 where
  pending active frozen closed : AccountStatus

abbrev pub is_frozen : AccountStatus → Bool
is_frozen frozen = true
is_frozen _ = false

abbrev pub is_active : AccountStatus → Bool
is_active active = true
is_active _ = false

pub record Account : Type 0 where
  pub id : Uuid
  pub user_id : Uuid
  pub currency : Currency
  pub account_type : AccountType
  pub balance : ℤ
  pub version : ℤ
  pub account_number : Option String
  pub routing_number : Option String
  pub iban : Option String
  pub swift_bic : Option String
  pub provider : Option String
  pub provider_ref : Option String
  pub status : AccountStatus
  pub created_at : Time

pub data PaymentType : Type 0 where
  internal_transfer external_payout : PaymentType

pub data PaymentStatus : Type 0 where
  pending processing completed failed reversed : PaymentStatus

-- `D` is the type of decimals, which a library outside the repository defines.
pub record Payment (D : Type 0) : Type 0 where
  pub id : Uuid
  pub idempotency_key : String
  pub payment_type : PaymentType
  pub status : PaymentStatus
  pub source_account_id : Uuid
  pub dest_account_id : Option Uuid
  pub dest_account_number : Option String
  pub dest_iban : Option String
  pub dest_swift_bic : Option String
  pub dest_bank_name : Option String
  pub source_amount : ℤ
  pub source_currency : Currency
  pub dest_amount : ℤ
  pub dest_currency : Currency
  pub exchange_rate : Option D
  pub fee_amount : ℤ
  pub fee_currency : Option Currency
  pub provider : Option String
  pub provider_ref : Option String
  pub failure_reason : Option String
  pub metadata : Option String
  pub created_at : Time
  pub updated_at : Time
  pub completed_at : Option Time

pub data EntryType : Type 0 where
  debit credit : EntryType

pub record LedgerEntry : Type 0 where
  pub id : Uuid
  pub payment_id : Uuid
  pub account_id : Uuid
  pub entry_type : EntryType
  pub amount : ℤ
  pub currency : Currency
  pub balance_before : ℤ
  pub balance_after : ℤ
  pub created_at : Time

pub data PaymentEventType : Type 0 where
  created processing completed failed reversed : PaymentEventType

-- Who acted: fmt.Sprintf("user:%s", id), or "system".
pub data Actor : Type 0 where
  user_actor : Uuid → Actor
  system : Actor

pub record PaymentEvent : Type 0 where
  pub id : Uuid
  pub payment_id : Uuid
  pub event_type : PaymentEventType
  pub actor : Actor
  pub payload : Option String
  pub created_at : Time

pub data WebhookEventStatus : Type 0 where
  pending dispatched failed : WebhookEventStatus

pub data WebhookEventType : Type 0 where
  payment_completed payment_failed : WebhookEventType

pub record WebhookEvent : Type 0 where
  pub id : Uuid
  pub idempotency_key : String
  pub event_type : WebhookEventType
  pub payload : String
  pub status : WebhookEventStatus
  pub attempts : ℕ
  pub last_attempt : Option Time
  pub created_at : Time

pub data UserStatus : Type 0 where
  active suspended closed : UserStatus

pub record User : Type 0 where
  pub id : Uuid
  pub email : String
  pub name : String
  pub password_hash : String
  pub unique_name : Option String
  pub status : UserStatus
  pub created_at : Time

-- The sentinels of errors.go, and what else a call can end with: from the database driver a violated
-- unique index, by its name (code 23505), or any other failure; or a panic on a nil pointer.
pub data Error : Type 0 where
  not_found insufficient_funds account_frozen duplicate_payment self_transfer : Error
  invalid_currency invalid_amount recipient_not_found account_not_found limit_exceeded : Error
  account_exists account_closed currency_mismatch version_conflict invalid_request : Error
  payment_terminal duplicate_idempotency_key : Error
  unique_violation : String → Error
  driver_error nil_dereference : Error

-- errors.Is(err, ErrNotFound); wrapping by `%w` keeps the sentinel, so the wrappers are left out
abbrev pub is_not_found : Error → Bool
is_not_found Error.not_found = true
is_not_found _ = false

abbrev pub is_payment_terminal : Error → Bool
is_payment_terminal Error.payment_terminal = true
is_payment_terminal _ = false

abbrev pub is_duplicate_idempotency_key : Error → Bool
is_duplicate_idempotency_key Error.duplicate_idempotency_key = true
is_duplicate_idempotency_key _ = false
