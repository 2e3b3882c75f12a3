-- ===== src/Payments/Panics/Flows.antt =====
-- internal/service/payment: the four flows, and the two services, never panic.
use grey_backend_assessment.Prelude.{◌≡◌, refl, false, inl, inr, Bool-cases, arith}
use grey_backend_assessment.Prelude.Int.{ℤ}
use grey_backend_assessment.Domain.{Uuid, Currency, Payment, Account, same_currency}
use grey_backend_assessment.Session.Panics.{
  panics, NeverPanics, NeverPanics-pure, NeverPanics-lift, NeverPanics-or_not_found,
  NeverPanics-bind, NeverPanics-bind_deref, NeverPanics-raise_if, NeverPanics-new_uuid,
  NeverPanics-now, NeverPanics-query, NeverPanics-transact,
}
use grey_backend_assessment.Repository.Users.{get_by_unique_name}
use grey_backend_assessment.Fx.{Conversion}
use grey_backend_assessment.Payments.Service.{Service}
use grey_backend_assessment.Payments.Entries.{
  write_ledger_entries, write_cross_currency_ledger_entries, write_external_ledger_entries,
  write_cross_currency_external_ledger_entries,
}
use grey_backend_assessment.Payments.Transfer.{
  InternalTransferRequest, validate_transfer, resolve_transfer_accounts, same_currency_body,
  cross_currency_body, execute_same_currency_transfer, execute_cross_currency_transfer,
  execute_transfer, create_internal_transfer,
}
use grey_backend_assessment.Payments.Payout.{
  ExternalPayoutRequest, validate_external_payout, same_currency_payout_body,
  cross_currency_payout_body, execute_same_currency_payout, execute_cross_currency_payout,
  execute_external_payout, submit_to_provider, create_external_payout,
}
use grey_backend_assessment.Payments.Panics.{
  NeverPanics-lock, NeverPanics-create_payment, NeverPanics-write_entries,
  NeverPanics-write_postings, NeverPanics-two_entries, NeverPanics-write_payment_event,
  NeverPanics-then_update, NeverPanics-get_account, NeverPanics-get_system_account,
  NeverPanics-if_not_found, NeverPanics-if_duplicate, verify_account_active-panics,
}

-- A conversion gives its errors as errors.
abbrev pub ConvertsCalmly : {D : Type 0} → Service D → Type 0
ConvertsCalmly s = (n : ℤ) (from to : Currency) → panics (s.convert n from to) ≡ false

module _ {D : Type 0} (s : Service D) (calm : ConvertsCalmly s)
    (req : InternalTransferRequest) where
  NeverPanics-resolve_transfer_accounts : NeverPanics {D = D} (resolve_transfer_accounts req)
  unfolding resolve_transfer_accounts get_by_unique_name
  NeverPanics-resolve_transfer_accounts =
      NeverPanics-bind
        (NeverPanics-if_not_found _ refl
          (NeverPanics-bind (NeverPanics-query _) λ row. NeverPanics-or_not_found row))
        λ recipient.
          NeverPanics-bind (NeverPanics-if_not_found _ refl (NeverPanics-get_account _ _ _))
            λ recipient_acct.
              NeverPanics-bind (NeverPanics-if_not_found _ refl (NeverPanics-get_account _ _ _))
                λ sender_acct. NeverPanics-pure _

  validate_transfer-panics : (a b : Account) → panics (validate_transfer s req a b) ≡ false
  unfolding validate_transfer
  validate_transfer-panics a b = ground arith

  NeverPanics-same_currency_body : (a b : Uuid) → NeverPanics {D = D} (same_currency_body req a b)
  unfolding same_currency_body write_ledger_entries
  NeverPanics-same_currency_body a b = NeverPanics-lock _ λ locked has.
      NeverPanics-bind_deref _ (has a (ground arith)) λ sender.
        NeverPanics-bind_deref _ (has b (ground arith)) λ recipient.
          NeverPanics-bind (NeverPanics-lift _ (verify_account_active-panics _)) λ _.
            NeverPanics-bind (NeverPanics-lift _ (verify_account_active-panics _)) λ _.
              NeverPanics-bind (NeverPanics-raise_if _ _ refl) λ _.
                NeverPanics-bind NeverPanics-now λ at. NeverPanics-bind NeverPanics-new_uuid λ id.
                  NeverPanics-bind (NeverPanics-create_payment _) λ _.
                    NeverPanics-bind (NeverPanics-two_entries _ _ _ _ _ _) λ _.
                      NeverPanics-bind (NeverPanics-write_payment_event _ _ _ _) λ _.
                        NeverPanics-then_update _ _ _
                          (NeverPanics-then_update _ _ _ (NeverPanics-pure _))

  NeverPanics-cross_currency_body :
      (a b : Uuid) (c : Conversion D) (f g : Uuid) → NeverPanics (cross_currency_body req a b c f g)
  unfolding cross_currency_body write_cross_currency_ledger_entries
  NeverPanics-cross_currency_body a b c f g = NeverPanics-lock _ λ locked has.
      NeverPanics-bind_deref _ (has a (ground arith)) λ sender.
        NeverPanics-bind_deref _ (has b (ground arith)) λ recipient.
          NeverPanics-bind_deref _ (has f (ground arith)) λ fx_src.
            NeverPanics-bind_deref _ (has g (ground arith)) λ fx_dst.
              NeverPanics-bind (NeverPanics-lift _ (verify_account_active-panics _)) λ _.
                NeverPanics-bind (NeverPanics-lift _ (verify_account_active-panics _)) λ _.
                  NeverPanics-bind (NeverPanics-raise_if _ _ refl) λ _.
                    NeverPanics-bind (NeverPanics-raise_if _ _ refl) λ _.
                      NeverPanics-bind NeverPanics-now λ at.
                        NeverPanics-bind NeverPanics-new_uuid λ id.
                          NeverPanics-bind (NeverPanics-create_payment _) λ _.
                            NeverPanics-bind (NeverPanics-write_entries _ _ _) λ _.
                              NeverPanics-bind (NeverPanics-write_payment_event _ _ _ _) λ _.
                                NeverPanics-then_update _ _ _ (
                                  NeverPanics-then_update _ _ _ (
                                    NeverPanics-then_update _ _ _
                                      (NeverPanics-then_update _ _ _ (NeverPanics-pure _))))

  NeverPanics-execute_transfer : (a b : Uuid) → NeverPanics (execute_transfer s req a b)
  unfolding execute_transfer execute_same_currency_transfer execute_cross_currency_transfer
  NeverPanics-execute_transfer a b =
      elim (Bool-cases (same_currency req.source_currency req.dest_currency)) [
        | inl same ↦ rw same (NeverPanics-transact (NeverPanics-same_currency_body a b))
        | inr ne ↦ rw ne (
            NeverPanics-bind (NeverPanics-lift _ (calm _ _ _)) λ c.
              NeverPanics-bind (NeverPanics-get_system_account _ _) λ f.
                NeverPanics-bind (NeverPanics-get_system_account _ _)
                  λ g. NeverPanics-transact (NeverPanics-cross_currency_body a b c _ _))
      ]

  pub NeverPanics-create_internal_transfer : NeverPanics (create_internal_transfer s req)
  unfolding create_internal_transfer
  NeverPanics-create_internal_transfer =
      NeverPanics-bind NeverPanics-resolve_transfer_accounts λ accounts.
        NeverPanics-bind (NeverPanics-lift _ (validate_transfer-panics _ _))
          λ _. NeverPanics-if_duplicate (NeverPanics-execute_transfer _ _)

module _ {D : Type 0} (s : Service D) (calm : ConvertsCalmly s) (req : ExternalPayoutRequest) where
  validate_external_payout-panics :
      (a : Account) → panics (validate_external_payout s req a) ≡ false
  unfolding validate_external_payout
  validate_external_payout-panics a = ground arith

  NeverPanics-same_currency_payout :
      (a o : Uuid) → NeverPanics {D = D} (same_currency_payout_body req a o)
  unfolding same_currency_payout_body write_external_ledger_entries
  NeverPanics-same_currency_payout a o = NeverPanics-lock _ λ locked has.
      NeverPanics-bind_deref _ (has a (ground arith)) λ sender.
        NeverPanics-bind (NeverPanics-lift _ (verify_account_active-panics _)) λ _.
          NeverPanics-bind (NeverPanics-raise_if _ _ refl) λ _.
            NeverPanics-bind NeverPanics-now λ at. NeverPanics-bind NeverPanics-new_uuid λ id.
              NeverPanics-bind (NeverPanics-create_payment _) λ _.
                NeverPanics-bind_deref _ (has o (ground arith)) λ outgoing.
                  NeverPanics-bind (NeverPanics-two_entries _ _ _ _ _ _) λ _.
                    NeverPanics-bind (NeverPanics-write_payment_event _ _ _ _) λ _.
                      NeverPanics-then_update _ _ _
                        (NeverPanics-then_update _ _ _ (NeverPanics-pure _))

  NeverPanics-cross_currency_payout :
      (a : Uuid) (c : Conversion D) (f g o : Uuid)
      → NeverPanics (cross_currency_payout_body req a c f g o)
  unfolding cross_currency_payout_body write_cross_currency_external_ledger_entries
  NeverPanics-cross_currency_payout a c f g o = NeverPanics-lock _ λ locked has.
      NeverPanics-bind_deref _ (has a (ground arith)) λ sender.
        NeverPanics-bind (NeverPanics-lift _ (verify_account_active-panics _)) λ _.
          NeverPanics-bind (NeverPanics-raise_if _ _ refl) λ _.
            NeverPanics-bind_deref _ (has g (ground arith)) λ fx_dst.
              NeverPanics-bind (NeverPanics-raise_if _ _ refl) λ _.
                NeverPanics-bind NeverPanics-now λ at. NeverPanics-bind NeverPanics-new_uuid λ id.
                  NeverPanics-bind (NeverPanics-create_payment _) λ _.
                    NeverPanics-bind_deref _ (has f (ground arith)) λ fx_src.
                      NeverPanics-bind_deref _ (has o (ground arith)) λ outgoing.
                        NeverPanics-bind (NeverPanics-write_postings _ _ _) λ _.
                          NeverPanics-bind (NeverPanics-write_payment_event _ _ _ _) λ _.
                            NeverPanics-then_update _ _ _ (
                              NeverPanics-then_update _ _ _ (
                                NeverPanics-then_update _ _ _
                                  (NeverPanics-then_update _ _ _ (NeverPanics-pure _))))

  NeverPanics-execute_external_payout : (a : Uuid) → NeverPanics (execute_external_payout s req a)
  unfolding execute_external_payout execute_same_currency_payout execute_cross_currency_payout
  NeverPanics-execute_external_payout a =
      elim (Bool-cases (same_currency req.source_currency req.dest_currency)) [
        | inl same ↦ rw same (
            NeverPanics-bind (NeverPanics-get_system_account _ _)
              λ o. NeverPanics-transact (NeverPanics-same_currency_payout a _))
        | inr ne ↦ rw ne (
            NeverPanics-bind (NeverPanics-lift _ (calm _ _ _)) λ c.
              NeverPanics-bind (NeverPanics-get_system_account _ _) λ f.
                NeverPanics-bind (NeverPanics-get_system_account _ _) λ g.
                  NeverPanics-bind (NeverPanics-get_system_account _ _)
                    λ o. NeverPanics-transact (NeverPanics-cross_currency_payout a c _ _ _))
      ]

  NeverPanics-submit_to_provider : (p : Payment D) → NeverPanics (submit_to_provider s p)
  unfolding submit_to_provider
  NeverPanics-submit_to_provider p = elim (Bool-cases s.has_provider) [
    | inl h ↦ record { at = λ w. rw h refl }
    | inr h ↦ record { at = λ w. rw h refl }
  ]

  pub NeverPanics-create_external_payout : NeverPanics (create_external_payout s req)
  unfolding create_external_payout
  NeverPanics-create_external_payout =
      NeverPanics-bind (NeverPanics-if_not_found _ refl (NeverPanics-get_account _ _ _)) λ sender.
        NeverPanics-bind (NeverPanics-lift _ (validate_external_payout-panics _)) λ _.
          NeverPanics-bind (NeverPanics-if_duplicate (NeverPanics-execute_external_payout _))
            λ p. NeverPanics-bind (NeverPanics-submit_to_provider p) λ _. NeverPanics-pure p
