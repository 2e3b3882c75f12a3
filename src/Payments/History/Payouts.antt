-- ===== src/Payments/History/Payouts.antt =====
-- internal/service/payment: payouts keep the history of the tables.
use grey_backend_assessment.Prelude.{Bool-cases, inl, inr}
use grey_backend_assessment.Domain.{Uuid, Payment, same_currency}
use grey_backend_assessment.Session.{World}
use grey_backend_assessment.Session.Preserves.{
  Preserves, Preserves-bind, Preserves-pure, Preserves-lift, Preserves-deref, Preserves-map_error,
  Preserves-raise_if, Preserves-now, Preserves-new_uuid, Preserves-transact,
}
use grey_backend_assessment.Repository.History.{History, history, History-create_payment}
use grey_backend_assessment.Repository.History.Statements.{History-get_account}
use grey_backend_assessment.Fx.{Conversion}
use grey_backend_assessment.Payments.Service.{Service}
use grey_backend_assessment.Payments.Entries.{
  write_external_ledger_entries, write_cross_currency_external_ledger_entries,
}
use grey_backend_assessment.Payments.Payout.{
  ExternalPayoutRequest, same_currency_payout_body, cross_currency_payout_body,
  execute_same_currency_payout, execute_cross_currency_payout, execute_external_payout,
  submit_to_provider, create_external_payout,
}
use grey_backend_assessment.Payments.History.{
  History-lock_accounts_in_order, History-write_entry, History-write_postings,
  History-write_payment_event, History-get_system_account, History-then_update,
}

module _ {D : Type 0} (s : Service D) (req : ExternalPayoutRequest) where
  History-same_currency_payout :
      (a o : Uuid) → Preserves (history {D = D}) (same_currency_payout_body req a o)
  unfolding same_currency_payout_body write_external_ledger_entries
  History-same_currency_payout a o =
      Preserves-bind history (History-lock_accounts_in_order _) λ locked.
        Preserves-bind history (Preserves-deref history _) λ sender.
          Preserves-bind history (Preserves-lift history _) λ _.
            Preserves-bind history (Preserves-raise_if history _ _) λ _.
              Preserves-bind history (Preserves-now history) λ at.
                Preserves-bind history (Preserves-new_uuid history) λ id.
                  Preserves-bind history (History-create_payment _) λ _.
                    Preserves-bind history (Preserves-deref history _) λ outgoing.
                      Preserves-bind history
                        (Preserves-bind history (History-write_entry _ _ _ _)
                          λ _. History-write_entry _ _ _ _)
                        λ _. Preserves-bind history (History-write_payment_event _ _ _ _) λ _.
                          History-then_update _ _ _
                            (History-then_update _ _ _ (Preserves-pure history _))

  History-cross_currency_payout :
      (a : Uuid) (c : Conversion D) (f g o : Uuid)
      → Preserves history (cross_currency_payout_body req a c f g o)
  unfolding cross_currency_payout_body write_cross_currency_external_ledger_entries
  History-cross_currency_payout a c f g o =
      Preserves-bind history (History-lock_accounts_in_order _) λ locked.
        Preserves-bind history (Preserves-deref history _) λ sender.
          Preserves-bind history (Preserves-lift history _) λ _.
            Preserves-bind history (Preserves-raise_if history _ _) λ _.
              Preserves-bind history (Preserves-deref history _) λ fx_dst.
                Preserves-bind history (Preserves-raise_if history _ _) λ _.
                  Preserves-bind history (Preserves-now history) λ at.
                    Preserves-bind history (Preserves-new_uuid history) λ id.
                      Preserves-bind history (History-create_payment _) λ _.
                        Preserves-bind history (Preserves-deref history _) λ fx_src.
                          Preserves-bind history (Preserves-deref history _) λ outgoing.
                            Preserves-bind history (History-write_postings _ _ _) λ _.
                              Preserves-bind history (History-write_payment_event _ _ _ _) λ _.
                                History-then_update _ _ _ (
                                  History-then_update _ _ _ (
                                    History-then_update _ _ _
                                      (History-then_update _ _ _ (Preserves-pure history _))))

  History-execute_external_payout : (a : Uuid) → Preserves history (execute_external_payout s req a)
  unfolding execute_external_payout execute_same_currency_payout execute_cross_currency_payout
  History-execute_external_payout a =
      elim (Bool-cases (same_currency req.source_currency req.dest_currency)) [
        | inl same ↦ rw same (
            Preserves-bind history (History-get_system_account _ _)
              λ o. Preserves-transact history (History-same_currency_payout a _))
        | inr ne ↦ rw ne (
            Preserves-bind history (Preserves-lift history _) λ c.
              Preserves-bind history (History-get_system_account _ _) λ f.
                Preserves-bind history (History-get_system_account _ _) λ g.
                  Preserves-bind history (History-get_system_account _ _)
                    λ o. Preserves-transact history (History-cross_currency_payout a c _ _ _))
      ]

  History-submit_to_provider : (p : Payment D) → Preserves history (submit_to_provider s p)
  unfolding submit_to_provider
  History-submit_to_provider p = elim (Bool-cases s.has_provider) [
    | inl h ↦ record { at = λ w. rw h (history.reflexive w.db) }
    | inr h ↦ record { at = λ w. rw h (history.reflexive w.db) }
  ]

  -- Whatever a payout ends with, a payment in a final state stays as it is, entries and events are
  -- only added, and the idempotency cache is not touched.
  pub create_external_payout-History :
      (w : World D) → History w.db (create_external_payout s req w).1.db
  unfolding create_external_payout
  create_external_payout-History w =
      (Preserves-bind history (Preserves-map_error history _ (History-get_account _ _ _)) λ sender.
          Preserves-bind history (Preserves-lift history _) λ _.
            Preserves-bind history
              (Preserves-map_error history _ (History-execute_external_payout _))
              λ p.
                Preserves-bind history (History-submit_to_provider p)
                  λ _. Preserves-pure history p).at
        w
