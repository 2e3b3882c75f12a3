-- ===== src/Repository/Webhooks.antt =====
-- internal/repository/webhook_event.go
use grey_backend_assessment.Prelude.{
  ℕ, ◌+◌, String, Bool, true, false, some, List, ◌∷◌, ◌==◌, if◌then◌else◌, str_eq, ltb, any, filter,
  take, update_where, length,
}
use grey_backend_assessment.Prelude.Sort.{sort}
use grey_backend_assessment.Domain.{
  Uuid, Time, WebhookEvent, WebhookEventStatus, not_found, unique_violation,
}
use grey_backend_assessment.Session.{
  Db, Result, ok, err, Session, raise_if, ◌>>=◌, ◌>>◌, driver_call, now, statement, query,
}

abbrev pub has_id : Uuid → WebhookEvent → Bool
has_id id e = e.id == id

abbrev pub has_key : String → WebhookEvent → Bool
has_key key e = str_eq e.idempotency_key key

abbrev pub is_pending : WebhookEventStatus → Bool
is_pending WebhookEventStatus.pending = true
is_pending _ = false

-- SET status = $1, attempts = attempts + 1, last_attempt = now()
abbrev pub set_status : WebhookEventStatus → Time → WebhookEvent → WebhookEvent
set_status status t e = record e {
  status = status;
  attempts = e.attempts + 1;
  last_attempt = some t;
}

module _ {D : Type 0} where
  unfoldable pub insert_event : WebhookEvent → Db D → Result (Unit × Db D)
  insert_event e db =
      if any (has_id e.id) db.webhook_events
      then err (unique_violation "webhook_events_pkey")
      else if any (has_key e.idempotency_key) db.webhook_events
      then err (unique_violation "idx_webhook_events_idempotency_key")
      else ok (tt, record db { webhook_events = e ∷ db.webhook_events })

  unfoldable pub create : WebhookEvent → Session D Unit
  create e = statement (insert_event e)

  -- WHERE status = 'pending' ORDER BY created_at LIMIT $2
  unfoldable pub get_pending : ℕ → Session D (List WebhookEvent)
  get_pending limit = query λ db. take limit (
      sort (λ a b. ltb a.created_at b.created_at)
        (filter (λ e. is_pending e.status) db.webhook_events))

  unfoldable pub update_events : Uuid → (WebhookEvent → WebhookEvent) → Db D → Result (ℕ × Db D)
  update_events id change db = ok (
    length (filter (has_id id) db.webhook_events),
    record db { webhook_events = update_where (has_id id) change db.webhook_events },
  )

  unfoldable pub update_status : Uuid → WebhookEventStatus → Session D Unit
  update_status id status = do
    t ← now
    rows ← statement (update_events id (set_status status t))
    driver_call
    raise_if (rows == 0) not_found
