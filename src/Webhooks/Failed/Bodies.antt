-- ===== src/Webhooks/Failed/Bodies.antt =====
-- internal/service/webhook_processor.go: handleFailed between BeginTx and Commit.
use grey_backend_assessment.Prelude.{String, ◌≡◌, none, some, List, [], ◌∷◌, find}
use grey_backend_assessment.Domain.{Uuid, Account, Payment}
use grey_backend_assessment.Session.{World}
use grey_backend_assessment.Session.Laws.{
  Ensures, Ensures-bind, Ensures-bind-now, Ensures-bind-new_uuid, Ensures-mono,
}
use grey_backend_assessment.Repository.Accounts.{has_id}
use grey_backend_assessment.Repository.Accounts.Laws.{find_own}
use grey_backend_assessment.Repository.Payments.Laws.{Ensures-update_status}
use grey_backend_assessment.Repository.Ledger.Laws.{Ensures-create_event}
use grey_backend_assessment.Payments.Locks.{
  locked_account, Ensures-lock_accounts_in_order, locked_account-of_IsSnapshot,
}
use grey_backend_assessment.Payments.Posting.Flow.{HasAmounts}
use grey_backend_assessment.Webhooks.{
  Codec, write_same_currency_reversal, write_cross_currency_reversal, handle_failed_body,
}
use grey_backend_assessment.Webhooks.Reversal.{
  Ensures-write_reversal_entries, two_reversals, four_reversals, same_currency_postings,
  cross_currency_postings,
}
use grey_backend_assessment.Webhooks.Failed.{GivenBack, GivenBack-intro}

-- The rows that two reversals are posted against, by their identifiers.
pub record TwoRows (rows : List Account) (source_id outgoing_id : Uuid) : Type 0 where
  pub sender : Account
  pub outgoing : Account
  pub sender_row : find (has_id source_id) rows ≡ some sender
  pub outgoing_row : find (has_id outgoing_id) rows ≡ some outgoing

pub record FourRows (rows : List Account) (source_id outgoing_id fx_source_id fx_dest_id : Uuid)
    : Type 0 where
  pub sender : Account
  pub outgoing : Account
  pub fx_src : Account
  pub fx_dst : Account
  pub sender_row : find (has_id source_id) rows ≡ some sender
  pub outgoing_row : find (has_id outgoing_id) rows ≡ some outgoing
  pub fx_src_row : find (has_id fx_source_id) rows ≡ some fx_src
  pub fx_dst_row : find (has_id fx_dest_id) rows ≡ some fx_dst

module _ {D : Type 0} (codec : Codec) (p : Payment D) (amounts : HasAmounts p)
    (reason : String) where
  pub Ensures-fail_same_currency :
      (outgoing_id : Uuid) (w : World D)
      → Ensures (handle_failed_body codec p reason outgoing_id none) w (λ _ w'.
        (r : TwoRows w.db.accounts p.source_account_id outgoing_id) × GivenBack codec p reason
          (two_reversals p r.sender r.outgoing)
          w.db
          w'.db)
  unfolding handle_failed_body write_same_currency_reversal
  Ensures-fail_same_currency outgoing_id w =
      Ensures-bind (Ensures-lock_accounts_in_order (p.source_account_id ∷ outgoing_id ∷ []))
        λ locked w1 (snap, s1). Ensures-bind-now λ at _.
          Ensures-bind (Ensures-update_status _ _ _ _ _) λ _ w2 (is_open, c2, _).
            Ensures-bind (Ensures-write_reversal_entries p.id at _) λ _ w3 (qs, of, posted).
              Ensures-bind-new_uuid λ id _. Ensures-mono (Ensures-create_event _) λ _ w4 (c4, _).
                let (outgoing, sender, eo, es, shape) =
                  same_currency_postings p locked outgoing_id qs of in
                let so =
                  locked_account-of_IsSnapshot w.db.accounts locked outgoing_id {a = outgoing} snap
                    eo in
                let ss =
                  locked_account-of_IsSnapshot w.db.accounts locked p.source_account_id {a = sender}
                    snap es in
                (
                  record {
                    sender = sender;
                    outgoing = outgoing;
                    sender_row = ss;
                    outgoing_row = so;
                  },
                  GivenBack-intro w.db w1.db w2.db w3.db w4.db id _ at s1.0 is_open c2
                      (
                        (
                          find_own outgoing_id w.db.accounts so,
                          amounts.dest_from_zero,
                          amounts.dest_fits,
                        ),
                        (
                          (
                            find_own p.source_account_id w.db.accounts ss,
                            amounts.source_from_zero,
                            amounts.source_fits,
                          ),
                          tt,
                        ),
                      )
                      (rw shape at posted) c4,
                )

  pub Ensures-fail_cross_currency :
      (o f g : Uuid) (w : World D)
      → Ensures (handle_failed_body codec p reason o (some (f, g))) w (λ _ w'.
        (r : FourRows w.db.accounts p.source_account_id o f g) × GivenBack codec p reason
          (four_reversals p r.sender r.fx_src r.fx_dst r.outgoing)
          w.db
          w'.db)
  unfolding handle_failed_body write_cross_currency_reversal
  Ensures-fail_cross_currency o f g w =
      Ensures-bind (Ensures-lock_accounts_in_order (p.source_account_id ∷ o ∷ f ∷ g ∷ []))
        λ locked w1 (snap, s1). Ensures-bind-now λ at _.
          Ensures-bind (Ensures-update_status _ _ _ _ _) λ _ w2 (is_open, c2, _).
            Ensures-bind (Ensures-write_reversal_entries p.id at _) λ _ w3 (qs, of, posted).
              Ensures-bind-new_uuid λ id _. Ensures-mono (Ensures-create_event _) λ _ w4 (c4, _).
                let (outgoing, fx_dst, fx_src, sender, eo, eg, ef, es, shape) =
                  cross_currency_postings p locked o f g qs of in
                let row = λ (i : Uuid). λ (a : Account). λ (e : locked_account i locked ≡ some a).
                  locked_account-of_IsSnapshot w.db.accounts locked i {a = a} snap e in
                let own = λ (i : Uuid). λ (a : Account). λ (e : locked_account i locked ≡ some a).
                  find_own i w.db.accounts {a = a} (row i a e) in
                (
                  record {
                    sender = sender;
                    outgoing = outgoing;
                    fx_src = fx_src;
                    fx_dst = fx_dst;
                    sender_row = row p.source_account_id sender es;
                    outgoing_row = row o outgoing eo;
                    fx_src_row = row f fx_src ef;
                    fx_dst_row = row g fx_dst eg;
                  },
                  GivenBack-intro w.db w1.db w2.db w3.db w4.db id _ at s1.0 is_open c2
                      (
                        (own o outgoing eo, amounts.dest_from_zero, amounts.dest_fits),
                        (
                          (own g fx_dst eg, amounts.dest_from_zero, amounts.dest_fits),
                          (
                            (own f fx_src ef, amounts.source_from_zero, amounts.source_fits),
                            (
                              (
                                own p.source_account_id sender es,
                                amounts.source_from_zero,
                                amounts.source_fits,
                              ),
                              tt,
                            ),
                          ),
                        ),
                      )
                      (rw shape at posted) c4,
                )
