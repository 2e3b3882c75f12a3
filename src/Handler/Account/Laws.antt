-- ===== src/Handler/Account/Laws.antt =====
-- internal/handler/account.go: whose accounts are listed, and for whom one is opened.
use grey_backend_assessment.Prelude.{
  ◌≡◌, refl, ◌⊎◌, inl, inr, Bool, ◌&&◌, some, List, [], ◌∷◌, map, ◌==◌, ==→eq, filter, Bool-cases,
}
use grey_backend_assessment.Prelude.Sort.{insert, sort}
use grey_backend_assessment.Domain.{Uuid, Account, AccountType, same_account_type}
use grey_backend_assessment.Session.{World, Result, ok, query}
use grey_backend_assessment.Session.Atomic.{Reads-query}
use grey_backend_assessment.Session.Laws.{Ensures-elim}
use grey_backend_assessment.Session.Laws.Tables.{Ensures-query}
use grey_backend_assessment.Repository.Accounts.{get_by_user_id_and_type}
use grey_backend_assessment.AccountService.{get_user_accounts}
use grey_backend_assessment.Handler.Http.{
  Request, Response, HttpCodec, accounts_payload, respond_success,
}
use grey_backend_assessment.Handler.Http.Laws.{Fails, respond_with-world, respond_with-answers}
use grey_backend_assessment.Handler.Ownership.Laws.{with_owner-elim}
use grey_backend_assessment.Handler.Account.{to_account_dto, list}

-- Every account is the user's.
abbrev pub AllOwned : Uuid → List Account → Type 0
AllOwned user_id [] = Unit
AllOwned user_id (a ∷ accounts) = (a.user_id ≡ user_id) × AllOwned user_id accounts

module _ (user_id : Uuid) where
  AllOwned-insert :
      (less : Account → Account → Bool) (a : Account) (accounts : List Account)
      → a.user_id ≡ user_id
      → AllOwned user_id accounts
      → AllOwned user_id (insert less a accounts)
  unfolding insert
  AllOwned-insert less a [] o h = (o, tt)
  AllOwned-insert less a (b ∷ accounts) o h = elim (Bool-cases (less a b)) [
    | inl first ↦ rw (first, insert) (o, h)
    | inr later ↦ rw (later, insert) (h.0, AllOwned-insert less a accounts o h.1)
  ]

  AllOwned-sort :
      (less : Account → Account → Bool) (accounts : List Account)
      → AllOwned user_id accounts
      → AllOwned user_id (sort less accounts)
  unfolding sort
  AllOwned-sort less [] h = tt
  AllOwned-sort less (a ∷ accounts) h =
      AllOwned-insert less a (sort less accounts) h.0 (AllOwned-sort less accounts h.1)

  AllOwned-filter :
      (t : AccountType) (accounts : List Account)
      → AllOwned user_id
          (filter (λ a. a.user_id == user_id && same_account_type a.account_type t) accounts)
  AllOwned-filter t [] = tt
  AllOwned-filter t (a ∷ accounts) = elim (Bool-cases (a.user_id == user_id)) [
    | inl own ↦ elim (Bool-cases (same_account_type a.account_type t)) [
      | inl same ↦ rw (own, same) (==→eq _ _ own, AllOwned-filter t accounts)
      | inr other ↦ rw (own, other) (AllOwned-filter t accounts)
    ]
    | inr other ↦ rw other (AllOwned-filter t accounts)
  ]

module _ {D : Type 0} (codec : HttpCodec D) (r : Request) (w : World D) where
  -- The user who asks is the one in the path, and what is answered are accounts of that user.
  pub record Lists (x : Result Response × World D) : Type 0 where
    pub user_id : Uuid
    pub accounts : List Account
    pub asks : r.user_id ≡ some user_id
    pub named : codec.parse_uuid (r.path_value "id") ≡ some user_id
    pub own : AllOwned user_id accounts
    pub answered :
        x.0 ≡ ok (respond_success codec 200 (accounts_payload (map to_account_dto accounts)))

  Outcome : Result Response × World D → Type 0
  Outcome x = (x.1.db ≡ w.db) × (Fails codec x ⊎ Lists x)

  -- Listing accounts changes no table; either no data is answered, or the user who asks is the one in
  -- the path and every account in the answer is that user's.
  pub list-Lists :
      ((list codec r w).1.db ≡ w.db) × (Fails codec (list codec r w) ⊎ Lists (list codec r w))
  unfolding list Outcome get_user_accounts get_by_user_id_and_type
  list-Lists =
      with_owner-elim codec r w Outcome (λ e details. (refl, inl (inl (e, details, refl)))) _
        λ user_id a p. (
          rw (respond_with-world codec _ (query _) w) ((Reads-query _).at w),
          elim (respond_with-answers codec _ (query _) w) [
            | inl fails ↦ inl fails
            | inr (accounts, got, answered) ↦
                let (rows, _) = Ensures-elim (Ensures-query _) got in
                inr (record {
                  user_id = user_id;
                  accounts = accounts;
                  asks = a;
                  named = p;
                  own =
                      rw rows
                        (AllOwned-sort user_id _ _ (AllOwned-filter user_id AccountType.user _));
                  answered = answered;
                })
          ],
        )
