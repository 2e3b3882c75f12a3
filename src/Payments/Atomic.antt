-- ===== src/Payments/Atomic.antt =====
-- internal/service/payment: a payment that was refused has changed nothing.
use grey_backend_assessment.Prelude.{◌≡◌, refl, Bool-cases, inl, inr}
use grey_backend_assessment.Domain.{Uuid, Currency, AccountType, Payment, Error, same_currency}
use grey_backend_assessment.Session.{World, err, ◌>>=◌, pure}
use grey_backend_assessment.Session.Atomic.{
  Reads, Atomic, Total, Reads-bind, Reads-query, Reads-pure, Reads-lift, Reads-or_not_found,
  Reads-map_error, Atomic-bind, Atomic-then, Atomic-map_error, Atomic-transact, Atomic-elim,
}
use grey_backend_assessment.Repository.Accounts.{get_by_user_and_currency}
use grey_backend_assessment.Repository.Users.{get_by_unique_name}
use grey_backend_assessment.Payments.Service.{Service, get_system_account}
use grey_backend_assessment.Payments.Transfer.{
  InternalTransferRequest, resolve_transfer_accounts, execute_same_currency_transfer,
  execute_cross_currency_transfer, execute_transfer, create_internal_transfer,
}
use grey_backend_assessment.Payments.Payout.{
  ExternalPayoutRequest, execute_same_currency_payout, execute_cross_currency_payout,
  execute_external_payout, submit_to_provider, create_external_payout,
}

module _ {D : Type 0} where
  Reads-get_by_user_and_currency :
      (user_id : Uuid) (c : Currency) (t : AccountType)
      → Reads {D = D} (get_by_user_and_currency user_id c t)
  unfolding get_by_user_and_currency
  Reads-get_by_user_and_currency user_id c t =
      Reads-bind (Reads-query _) λ row. Reads-or_not_found row

  Reads-get_system_account :
      (t : AccountType) (c : Currency) → Reads {D = D} (get_system_account t c)
  unfolding get_system_account
  Reads-get_system_account t c = Reads-get_by_user_and_currency _ c t

module _ {D : Type 0} (s : Service D) (req : InternalTransferRequest) where
  Reads-resolve_transfer_accounts : Reads {D = D} (resolve_transfer_accounts req)
  unfolding resolve_transfer_accounts get_by_unique_name
  Reads-resolve_transfer_accounts =
      Reads-bind (Reads-map_error _ (Reads-bind (Reads-query _) λ row. Reads-or_not_found row))
        λ recipient.
          Reads-bind (Reads-map_error _ (Reads-get_by_user_and_currency _ _ _)) λ recipient_acct.
            Reads-bind (Reads-map_error _ (Reads-get_by_user_and_currency _ _ _))
              λ sender_acct. Reads-pure _

  Atomic-execute_transfer : (a b : Uuid) → Atomic (execute_transfer s req a b)
  unfolding execute_transfer execute_same_currency_transfer execute_cross_currency_transfer
  Atomic-execute_transfer a b =
      elim (Bool-cases (same_currency req.source_currency req.dest_currency)) [
        | inl same ↦ rw same (Atomic-transact _)
        | inr ne ↦ rw ne (
            Atomic-bind (Reads-lift _) λ conversion.
              Atomic-bind (Reads-get_system_account _ _) λ fx_source.
                Atomic-bind (Reads-get_system_account _ _) λ fx_dest. Atomic-transact _)
      ]

  Atomic-create_internal_transfer : Atomic (create_internal_transfer s req)
  unfolding create_internal_transfer
  Atomic-create_internal_transfer =
      Atomic-bind Reads-resolve_transfer_accounts
        λ accounts. Atomic-bind (Reads-lift _) λ _. Atomic-map_error _ (Atomic-execute_transfer _ _)

  -- A transfer that ends in an error, whatever the error and whichever call of the driver failed,
  -- leaves every table as it was.
  pub create_internal_transfer_error :
      (w w' : World D) (e : Error) → create_internal_transfer s req w ≡ (err e, w') → w'.db ≡ w.db
  create_internal_transfer_error w w' e h = Atomic-elim Atomic-create_internal_transfer h

module _ {D : Type 0} (s : Service D) (req : ExternalPayoutRequest) where
  Atomic-execute_external_payout : (a : Uuid) → Atomic (execute_external_payout s req a)
  unfolding execute_external_payout execute_same_currency_payout execute_cross_currency_payout
  Atomic-execute_external_payout a =
      elim (Bool-cases (same_currency req.source_currency req.dest_currency)) [
        | inl same ↦
            rw same (Atomic-bind (Reads-get_system_account _ _) λ outgoing. Atomic-transact _)
        | inr ne ↦ rw ne (
            Atomic-bind (Reads-lift _) λ conversion.
              Atomic-bind (Reads-get_system_account _ _) λ fx_source.
                Atomic-bind (Reads-get_system_account _ _) λ fx_dest.
                  Atomic-bind (Reads-get_system_account _ _) λ outgoing. Atomic-transact _)
      ]

  Total-submit : (p : Payment D) → Total (submit_to_provider s p >>= λ _. pure p)
  unfolding submit_to_provider ◌>>=◌ pure
  Total-submit p = record {
    at = λ w. elim (Bool-cases s.has_provider) [ inl h ↦ (p, rw h refl) | inr h ↦ (p, rw h refl) ];
  }

  Atomic-create_external_payout : Atomic (create_external_payout s req)
  unfolding create_external_payout
  Atomic-create_external_payout =
      Atomic-bind (Reads-map_error _ (Reads-get_by_user_and_currency _ _ _)) λ sender.
        Atomic-bind (Reads-lift _)
          λ _. Atomic-then (Atomic-map_error _ (Atomic-execute_external_payout _)) Total-submit

  -- A payout that ends in an error, whatever the error and whichever call of the driver failed,
  -- leaves every table as it was.
  pub create_external_payout_error :
      (w w' : World D) (e : Error) → create_external_payout s req w ≡ (err e, w') → w'.db ≡ w.db
  create_external_payout_error w w' e h = Atomic-elim Atomic-create_external_payout h
