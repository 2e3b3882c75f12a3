-- ===== src/Handler/Payment/Validates.antt =====
-- internal/handler/payment.go: which requests have no wrong field.
use grey_backend_assessment.Prelude.{
  ◌≡◌, ◌≢◌, ◌↔◌, refl, ◌⊎◌, inl, inr, String, List, [], ◌∷◌, ◌++◌, Bool-cases, str_eq, eq_iff,
  arith,
}
use grey_backend_assessment.Prelude.Int.{ℤ, pos, ◌<ℤ◌}
use grey_backend_assessment.Handler.Http.{currency_field, required_field, amount_field}
use grey_backend_assessment.Handler.Payment.{
  CreatePaymentRequest, CreateExternalPayoutRequest, validate_payment, validate_payout,
}

-- One of the three codes.
abbrev pub IsCurrencyCode : String → Type 0
IsCurrencyCode text = (text ≡ "USD") ⊎ ((text ≡ "EUR") ⊎ (text ≡ "GBP"))

append-eq-nil : {A : Type 0} (xs ys : List A) → (xs ++ ys ≡ []) ↔ ((xs ≡ []) × (ys ≡ []))
append-eq-nil [] ys = (λ h. (refl, h), λ h. h.1)
append-eq-nil (x ∷ xs) ys = (λ h. cc, λ h. cc)

required_field_lem : (field text : String) → (required_field field text ≡ []) ↔ (text ≢ "")
required_field_lem field text = elim (Bool-cases (str_eq text "")) [
  | inl e ↦ rw e (λ h. cc, λ h. absurd (h ((eq_iff text "").0 e)))
  | inr n ↦ rw n (λ h e. ground (arith, eq_iff text ""), λ h. refl)
]

amount_field_lem : (amount : ℤ) → (amount_field amount ≡ []) ↔ (pos 0 <ℤ amount)
amount_field_lem amount = (λ h. ground arith, λ h. ground arith)

currency_field_lem : (field text : String) → (currency_field field text ≡ []) ↔ IsCurrencyCode text
currency_field_lem field text = (
  λ h. ground (arith, eq_iff text "", eq_iff text "USD", eq_iff text "EUR", eq_iff text "GBP"),
  λ h. accepted h,
)
  where
    accepted : IsCurrencyCode text → currency_field field text ≡ []
    accepted (inl e) = rw e refl
    accepted (inr (inl e)) = rw e refl
    accepted (inr (inr e)) = rw e refl

-- Validate finds no wrong field in a request for a transfer exactly if it names a recipient, both
-- currencies are among the three codes, and the amount is positive.
pub validate_payment_lem :
    (r : CreatePaymentRequest)
    → (validate_payment r ≡ []) ↔ (
        (r.recipient_unique_name ≢ "")
        × IsCurrencyCode r.source_currency
        × IsCurrencyCode r.dest_currency
        × (pos 0 <ℤ r.amount))
unfolding validate_payment
validate_payment_lem r = (
  λ h.
      let (n, h1) = (append-eq-nil _ _).0 h in
      let (s, h2) = (append-eq-nil _ _).0 h1 in
      let (d, a) = (append-eq-nil _ _).0 h2 in
      (
        (required_field_lem _ _).0 n,
        (currency_field_lem _ _).0 s,
        (currency_field_lem _ _).0 d,
        (amount_field_lem _).0 a,
      ),
  λ (n, s, d, a). (append-eq-nil _ _).1 (
    (required_field_lem _ _).1 n,
    (append-eq-nil _ _).1 (
      (currency_field_lem _ _).1 s,
      (append-eq-nil _ _).1 ((currency_field_lem _ _).1 d, (amount_field_lem _).1 a),
    ),
  ),
)

-- Validate finds no wrong field in a request for a payout exactly if both currencies are among the
-- three codes, the amount is positive, and the bank and the account there are named.
pub validate_payout_lem :
    (r : CreateExternalPayoutRequest)
    → (validate_payout r ≡ []) ↔ (
        IsCurrencyCode r.source_currency
        × IsCurrencyCode r.dest_currency
        × (pos 0 <ℤ r.amount)
        × (r.dest_iban ≢ "")
        × (r.dest_bank_name ≢ ""))
unfolding validate_payout
validate_payout_lem r = (
  λ h.
      let (s, h1) = (append-eq-nil _ _).0 h in
      let (d, h2) = (append-eq-nil _ _).0 h1 in
      let (a, h3) = (append-eq-nil _ _).0 h2 in
      let (i, b) = (append-eq-nil _ _).0 h3 in
      (
        (currency_field_lem _ _).0 s,
        (currency_field_lem _ _).0 d,
        (amount_field_lem _).0 a,
        (required_field_lem _ _).0 i,
        (required_field_lem _ _).0 b,
      ),
  λ (s, d, a, i, b). (append-eq-nil _ _).1 (
    (currency_field_lem _ _).1 s,
    (append-eq-nil _ _).1 (
      (currency_field_lem _ _).1 d,
      (append-eq-nil _ _).1 (
        (amount_field_lem _).1 a,
        (append-eq-nil _ _).1 ((required_field_lem _ _).1 i, (required_field_lem _ _).1 b),
      ),
    ),
  ),
)
