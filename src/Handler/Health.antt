-- ===== src/Handler/Health.antt =====
-- internal/handler/health.go: whether the program runs, and whether the database answers. The encoding
-- of the two flat objects and of a time come as arguments.
use grey_backend_assessment.Prelude.{ℕ, String, [], ◌∷◌}
use grey_backend_assessment.Domain.{Time}
use grey_backend_assessment.Session.{
  Result, ok, err, Session, attempt, driver_call, now, pure, ◌>>=◌,
}
use grey_backend_assessment.Handler.Http.{Response}

pub data Health : Type 0 where
  alive : (version timestamp : String) → Health
  ready : (status timestamp database : String) → Health

module _ (encode : Health → String) (rfc3339 : Time → String) where
  abbrev pub respond_health : ℕ → Health → Response
  respond_health status health = record {
    status = status;
    headers = ("Content-Type", "application/json") ∷ [];
    body = encode health;
  }

  unfoldable pub liveness : {D : Type 0} → Session D Response
  liveness = do at ← now; pure (respond_health 200 (alive "1.0.0" (rfc3339 at)))

  -- PingContext is one call of the driver.
  abbrev pub respond_ping : Result Unit → Time → Response
  respond_ping (ok _) at = respond_health 200 (ready "ok" (rfc3339 at) "ok")
  respond_ping (err e) at = respond_health 503 (ready "down" (rfc3339 at) "down")

  unfoldable pub readiness : {D : Type 0} → Session D Response
  readiness = do ping ← attempt driver_call; at ← now; pure (respond_ping ping at)
