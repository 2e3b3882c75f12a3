-- ===== src/Payments/Transfer/Returns.antt =====
-- internal/service/payment/transfer.go: a transfer that nothing stands against is made.
use grey_backend_assessment.Prelude.{
  ◌≡◌, ◌∙◌, refl, ap, sym, ◌+◌, Bool, true, false, ◌&&◌, some, List, ◌==◌, ==→eq, find, any,
  Bool-cases, arith, inl, inr,
}
use grey_backend_assessment.Prelude.Int.{pos, ◌≤ℤ◌, InInt64, add64}
use grey_backend_assessment.Domain.{Uuid, Account, AccountType, Payment, User, same_currency}
use grey_backend_assessment.Session.{World, ok, pure, lift, map_error}
use grey_backend_assessment.Session.Runs.{
  Returns, IsCalm, Returns-bind, Returns-map_error, Returns-transact, bind-runs, lift-runs,
  map_error-runs, lookup-runs,
}
use grey_backend_assessment.Repository.Accounts.{has_id, belongs, get_by_user_and_currency}
use grey_backend_assessment.Repository.Payments
use grey_backend_assessment.Repository.Users.{is_named, get_by_unique_name}
use grey_backend_assessment.Payments.Service.{Service}
use grey_backend_assessment.Payments.Posting.{IsBook}
use grey_backend_assessment.Payments.Runs.Rows.{some_inj, find_by_id, funds_of_found}
use grey_backend_assessment.Payments.Transfer.{
  InternalTransferRequest, resolve_transfer_accounts, execute_same_currency_transfer,
  execute_transfer, create_internal_transfer,
}
use grey_backend_assessment.Payments.Transfer.Validates.{IsAllowed, validate_transfer_lem}
use grey_backend_assessment.Payments.Transfer.Writes.{
  HasFreshIds, at_tick, same_currency_body-Returns,
}

-- What a transfer within one currency needs: the two accounts, which validateTransfer lets through, a
-- balance that covers the amount, room for it at the recipient, and a key and identifiers that are new.
pub record CanTransfer {D : Type 0} (s : Service D) (req : InternalTransferRequest) (w : World D)
    : Type 0 where
  pub one_currency : same_currency req.source_currency req.dest_currency ≡ true
  pub user : User
  pub recipient : Account
  pub sender : Account
  pub named : find (λ u. is_named req.recipient_unique_name u.unique_name) w.db.users ≡ some user
  pub recipient_row :
      find (belongs user.id req.dest_currency AccountType.user) w.db.accounts ≡ some recipient
  pub sender_row :
      find (belongs req.sender_user_id req.source_currency AccountType.user) w.db.accounts
      ≡ some sender
  pub allowed : IsAllowed s req sender recipient
  pub amount_fits : InInt64 req.amount
  pub covered : req.amount ≤ℤ sender.balance
  pub room : pos 0 ≤ℤ add64 recipient.balance req.amount
  pub new_key : any (Payments.has_key req.idempotency_key sender.id) w.db.payments ≡ false

-- The rows of two users are different rows.
different_rows :
    (rows : List Account) (a b : Account)
    → find (has_id a.id) rows ≡ some a
    → find (has_id b.id) rows ≡ some b
    → (a.user_id == b.user_id) ≡ false
    → (a.id == b.id) ≡ false
different_rows rows a b ha hb ne = elim (Bool-cases (a.id == b.id)) [
  | inr other ↦ other
  | inl it ↦
      let e = some_inj a b (sym (under a.id b.id (==→eq a.id b.id it) ha) ∙ hb) in
      absurd (clash a b (ap (λ (x : Account). x.user_id) e) ne)
]
  where
    under : (i j : Uuid) → i ≡ j → find (has_id i) rows ≡ some a → find (has_id j) rows ≡ some a
    under i j e h = rw (← e) h

    clash : (a b : Account) → a.user_id ≡ b.user_id → (a.user_id == b.user_id) ≡ false → ⊥
    clash a b e n = ground arith

two_users :
    {D : Type 0} (s : Service D) (req : InternalTransferRequest) (a b : Account)
    → same_currency req.source_currency req.dest_currency ≡ true
    → IsAllowed s req a b
    → (a.user_id == b.user_id) ≡ false
two_users s req a b same allowed = both _ _ same allowed.between_two
  where
    both : (x y : Bool) → y ≡ true → (x && y) ≡ false → x ≡ false
    both true y e h = sym e ∙ h
    both false y e h = refl

module _ {D : Type 0} (s : Service D) (req : InternalTransferRequest) (w : World D)
    (calm : IsCalm w.env) (can : CanTransfer s req w) where
  resolve_transfer_accounts-runs :
      resolve_transfer_accounts req w
      ≡ (ok (can.sender, can.recipient), record w { tick = w.tick + 1 + 1 + 1 })
  unfolding resolve_transfer_accounts get_by_unique_name get_by_user_and_currency pure
  resolve_transfer_accounts-runs =
      bind-runs (map_error _ _) _ (map_error-runs _ _ (lookup-runs w calm _ can.named))
      ∙ bind-runs (map_error _ _) _ (map_error-runs _ _ (lookup-runs _ calm _ can.recipient_row))
      ∙ bind-runs (map_error _ _) _ (map_error-runs _ _ (lookup-runs _ calm _ can.sender_row))

  transfer-Returns :
      IsBook w.db.accounts → HasFreshIds w → Returns (create_internal_transfer s req) w
  unfolding create_internal_transfer execute_transfer execute_same_currency_transfer
  transfer-Returns book fresh =
      let sr = find_by_id _ w.db.accounts book.unique_ids can.sender_row in
      let rr = find_by_id _ w.db.accounts book.unique_ids can.recipient_row in
      let (pos_s, bal_s, ver_s) = funds_of_found _ w.db.accounts book.funds can.sender_row in
      let (pos_r, bal_r, ver_r) = funds_of_found _ w.db.accounts book.funds can.recipient_row in
      let ne =
        different_rows w.db.accounts can.sender can.recipient sr rr
          (two_users s req can.sender can.recipient can.one_currency can.allowed) in
      let t = w.tick + 1 + 1 + 1 in
      Returns-bind (resolve_transfer_accounts req) _ resolve_transfer_accounts-runs refl (
        Returns-bind (lift _) _
          (lift-runs _ ((validate_transfer_lem s req can.sender can.recipient).1 can.allowed)) refl
          (Returns-map_error _ (
            rw (can.one_currency) (
              Returns-transact (record w { tick = t }) calm _
                (same_currency_body-Returns s req can.sender can.recipient can.allowed
                  can.amount_fits (record w { tick = t + 1 }) calm (at_tick w (t + 1) fresh)
                  (record {
                    sender_row = sr;
                    recipient_row = rr;
                    differ = ne;
                    sender_version = ver_s;
                    recipient_version = ver_r;
                    balance_fits = bal_s;
                    balance_from_zero = pos_s;
                    covered = can.covered;
                    room = can.room;
                    new_key = can.new_key;
                  }))))))

  -- A transfer within one currency is made where nothing stands against it: no call of the driver
  -- fails, the accounts are a valid table, the two accounts exist and validateTransfer lets it through,
  -- the balance covers the amount, the recipient's balance has room for it, and the key and the
  -- identifiers that will be drawn are new.
  pub create_internal_transfer_returns :
      IsBook w.db.accounts
      → HasFreshIds w
      → (p : Payment D) × (w' : World D) × (create_internal_transfer s req w ≡ (ok p, w'))
  create_internal_transfer_returns book fresh =
      let r = transfer-Returns book fresh in (r.result, r.after, r.runs)
