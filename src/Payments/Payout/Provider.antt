-- ===== src/Payments/Payout/Provider.antt =====
-- internal/service/payment/external_payout.go: what the provider is Asked, and when.
use grey_backend_assessment.Prelude.{
  ◌≡◌, ◌∙◌, refl, List, [], ◌∷◌, Bool-cases, inl, inr, if◌then◌else◌,
}
use grey_backend_assessment.Prelude.Int.{ℤ}
use grey_backend_assessment.Domain.{
  Uuid, Time, Currency, AccountType, Payment, PaymentEventType, same_currency,
}
use grey_backend_assessment.Session.{World, Session, Result, ok, err, pure, ◌>>=◌, continue}
use grey_backend_assessment.Session.Sent.{
  KeepsSent, KeepsSent-pure, KeepsSent-lift, KeepsSent-gets, KeepsSent-or_not_found,
  KeepsSent-deref, KeepsSent-map_error, KeepsSent-bind, KeepsSent-skip, KeepsSent-raise_if,
  KeepsSent-driver_call, KeepsSent-new_uuid, KeepsSent-now, KeepsSent-statement, KeepsSent-query,
  KeepsSent-transact,
}
use grey_backend_assessment.Repository.Accounts.{
  get_by_user_and_currency, get_for_update, update_balance,
}
use grey_backend_assessment.Repository.Payments
use grey_backend_assessment.Repository.Ledger
use grey_backend_assessment.Repository.Events
use grey_backend_assessment.Fx.{Conversion}
use grey_backend_assessment.Payments.Service.{Service, get_system_account}
use grey_backend_assessment.Payments.Locks.{LockedAccounts, lock_each, lock_accounts_in_order}
use grey_backend_assessment.Payments.Entries.{
  Posting, write_entry, write_postings, write_external_ledger_entries,
  write_cross_currency_external_ledger_entries, write_payment_event,
}
use grey_backend_assessment.Payments.Payout.{
  ExternalPayoutRequest, provider_request, same_currency_payout_body, cross_currency_payout_body,
  execute_same_currency_payout, execute_cross_currency_payout, execute_external_payout,
  submit_to_provider, create_external_payout,
}

module _ {D : Type 0} where
  sent_get_account :
      (u : Uuid) (c : Currency) (t : AccountType)
      → KeepsSent {D = D} (get_by_user_and_currency u c t)
  unfolding get_by_user_and_currency
  sent_get_account u c t = KeepsSent-bind (KeepsSent-query _) λ row. KeepsSent-or_not_found row

  sent_system_account :
      (t : AccountType) (c : Currency) → KeepsSent {D = D} (get_system_account t c)
  unfolding get_system_account
  sent_system_account t c = sent_get_account _ c t

  sent_lock_each : (ids : List Uuid) (m : LockedAccounts) → KeepsSent {D = D} (lock_each ids m)
  unfolding lock_each get_for_update
  sent_lock_each [] m = KeepsSent-pure m
  sent_lock_each (id ∷ ids) m =
      KeepsSent-bind (KeepsSent-bind (KeepsSent-query _) λ row. KeepsSent-or_not_found row)
        λ a. sent_lock_each ids ((id, a) ∷ m)

  sent_lock : (ids : List Uuid) → KeepsSent {D = D} (lock_accounts_in_order ids)
  unfolding lock_accounts_in_order
  sent_lock ids = KeepsSent-bind (KeepsSent-gets _) λ sorted. sent_lock_each sorted []

  sent_write_entry :
      (id : Uuid) (at : Time) (q : Posting) (b : ℤ) → KeepsSent {D = D} (write_entry id at q b)
  unfolding write_entry Ledger.create
  sent_write_entry id at q b = KeepsSent-bind KeepsSent-new_uuid λ e. KeepsSent-statement _

  sent_write_postings :
      (id : Uuid) (at : Time) (qs : List Posting) → KeepsSent {D = D} (write_postings id at qs)
  unfolding write_postings
  sent_write_postings id at [] = KeepsSent-skip
  sent_write_postings id at (q ∷ qs) =
      KeepsSent-bind (sent_write_entry id at q _) λ _. sent_write_postings id at qs

  sent_write_event :
      (id : Uuid) (t : PaymentEventType) (u : Uuid) (at : Time)
      → KeepsSent {D = D} (write_payment_event id t u at)
  unfolding write_payment_event Events.create
  sent_write_event id t u at = KeepsSent-bind KeepsSent-new_uuid λ e. KeepsSent-statement _

  sent_create : (p : Payment D) → KeepsSent (Payments.create p)
  unfolding Payments.create
  sent_create p = KeepsSent-map_error _ (KeepsSent-statement _)

  sent_update : (id : Uuid) (b v : ℤ) → KeepsSent {D = D} (update_balance id b v)
  unfolding update_balance
  sent_update id b v =
      KeepsSent-bind (KeepsSent-statement _)
        λ rows. KeepsSent-bind KeepsSent-driver_call λ _. KeepsSent-raise_if _ _

module _ {D : Type 0} (s : Service D) (req : ExternalPayoutRequest) where
  sent_same_body : (a o : Uuid) → KeepsSent {D = D} (same_currency_payout_body req a o)
  unfolding same_currency_payout_body write_external_ledger_entries
  sent_same_body a o = KeepsSent-bind (sent_lock _) λ locked.
      KeepsSent-bind (KeepsSent-deref _) λ sender. KeepsSent-bind (KeepsSent-lift _) λ _.
        KeepsSent-bind (KeepsSent-raise_if _ _) λ _. KeepsSent-bind KeepsSent-now λ at.
          KeepsSent-bind KeepsSent-new_uuid λ id. KeepsSent-bind (sent_create _) λ _.
            KeepsSent-bind (KeepsSent-deref _) λ outgoing.
              KeepsSent-bind
                (KeepsSent-bind (sent_write_entry _ _ _ _) λ _. sent_write_entry _ _ _ _)
                λ _. KeepsSent-bind (sent_write_event _ _ _ _) λ _.
                  KeepsSent-bind (sent_update _ _ _)
                    λ _. KeepsSent-bind (sent_update _ _ _) λ _. KeepsSent-pure _

  sent_cross_body :
      (a : Uuid) (c : Conversion D) (f g o : Uuid)
      → KeepsSent (cross_currency_payout_body req a c f g o)
  unfolding cross_currency_payout_body write_cross_currency_external_ledger_entries
  sent_cross_body a c f g o = KeepsSent-bind (sent_lock _) λ locked.
      KeepsSent-bind (KeepsSent-deref _) λ sender. KeepsSent-bind (KeepsSent-lift _) λ _.
        KeepsSent-bind (KeepsSent-raise_if _ _) λ _. KeepsSent-bind (KeepsSent-deref _) λ fx_dst.
          KeepsSent-bind (KeepsSent-raise_if _ _) λ _. KeepsSent-bind KeepsSent-now λ at.
            KeepsSent-bind KeepsSent-new_uuid λ id. KeepsSent-bind (sent_create _) λ _.
              KeepsSent-bind (KeepsSent-deref _) λ fx_src.
                KeepsSent-bind (KeepsSent-deref _) λ outgoing.
                  KeepsSent-bind (sent_write_postings _ _ _) λ _.
                    KeepsSent-bind (sent_write_event _ _ _ _) λ _.
                      KeepsSent-bind (sent_update _ _ _) λ _.
                        KeepsSent-bind (sent_update _ _ _) λ _.
                          KeepsSent-bind (sent_update _ _ _)
                            λ _. KeepsSent-bind (sent_update _ _ _) λ _. KeepsSent-pure _

  sent_execute : (a : Uuid) → KeepsSent (execute_external_payout s req a)
  unfolding execute_external_payout execute_same_currency_payout execute_cross_currency_payout
  sent_execute a = elim (Bool-cases (same_currency req.source_currency req.dest_currency)) [
    | inl same ↦
        rw same
          (KeepsSent-bind (sent_system_account _ _) λ o. KeepsSent-transact (sent_same_body a _))
    | inr ne ↦ rw ne (
        KeepsSent-bind (KeepsSent-lift _) λ c. KeepsSent-bind (sent_system_account _ _) λ f.
          KeepsSent-bind (sent_system_account _ _) λ g.
            KeepsSent-bind (sent_system_account _ _)
              λ o. KeepsSent-transact (sent_cross_body a c _ _ _))
  ]

  -- What the provider has been asked once the run is over, by its result.
  abbrev pub Asked : World D → Result (Payment D) × World D → Type 0
  Asked w (ok p, w') = w'.sent ≡ (if s.has_provider then provider_request p ∷ w.sent else w.sent)
  Asked w (err e, w') = w'.sent ≡ w.sent

  Asked-continue :
      (w : World D) {A : Type 0} (x : Result A × World D) (f : A → Session D (Payment D))
      → x.1.sent ≡ w.sent
      → ((a : A) (v : World D) → v.sent ≡ w.sent → Asked w (f a v))
      → Asked w (continue x.0 f x.1)
  Asked-continue w (ok a, v) f e k = k a v e
  Asked-continue w (err x, v) f e k = e

  Asked-bind :
      (w v : World D) {A : Type 0} {m : Session D A} (f : A → Session D (Payment D))
      → KeepsSent m
      → v.sent ≡ w.sent
      → ((a : A) (u : World D) → u.sent ≡ w.sent → Asked w (f a u))
      → Asked w ((m >>= f) v)
  unfolding ◌>>=◌
  Asked-bind w v {m = m} f k e l = Asked-continue w (m v) f (k.at v ∙ e) l

  Asked-submit :
      (w : World D) (p : Payment D) (v : World D)
      → v.sent ≡ w.sent
      → Asked w ((submit_to_provider s p >>= λ _. pure p) v)
  unfolding ◌>>=◌ submit_to_provider pure
  Asked-submit w p v e = elim (Bool-cases s.has_provider) [
    | inl h ↦ rw h (λ i. provider_request p ∷ e i)
    | inr h ↦ rw h e
  ]

  -- A payout that returns has asked the provider exactly once where there is one, for the payment that
  -- it returns, and nothing where there is none. One that ends in an error, at whatever point that is,
  -- has asked nothing.
  pub create_external_payout-Asked : (w : World D) → Asked w (create_external_payout s req w)
  unfolding create_external_payout
  create_external_payout-Asked w =
      Asked-bind w w _ (KeepsSent-map_error _ (sent_get_account _ _ _)) refl λ sender v e.
        Asked-bind w v _ (KeepsSent-lift _) e λ _ u h.
          Asked-bind w u _ (KeepsSent-map_error _ (sent_execute _)) h λ p t k. Asked-submit w p t k
