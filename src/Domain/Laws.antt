-- ===== src/Domain/Laws.antt =====
-- internal/domain: equality of currencies and account types, and the texts of currencies.
use grey_backend_assessment.Prelude.{◌≡◌, refl, true, arith, eq_iff, eq_refl}
use grey_backend_assessment.Domain.{Currency, usd, eur, gbp, other, same_currency}

pub same_currency→eq : (a b : Currency) → same_currency a b ≡ true → a ≡ b
same_currency→eq usd b h = ground arith
same_currency→eq eur b h = ground arith
same_currency→eq gbp b h = ground arith
same_currency→eq (other s) (other t) h = ap_other ((eq_iff s t).0 h)
  where
    ap_other : s ≡ t → other s ≡ other t
    ap_other p = λ i. other (p i)
same_currency→eq (other s) b h = ground arith

pub same_currency_refl : (a : Currency) → same_currency a a ≡ true
same_currency_refl (other s) = eq_refl s
same_currency_refl _ = refl
