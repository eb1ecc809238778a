-- ===== src/Orders/Metrics/Response.antt =====
-- When a first response is recorded, and that it is recorded once.
use request_system.Common.{ℕ, suc, String, true, Option, none, some, ◌≡◌, ◌≢◌, ◌⊎◌, arith}
use request_system.Entities.{Order, Status, Time}
use request_system.Orders.Metrics.{has_comment, elapsed_seconds, calculate_metrics}

module _ (find_status : ℕ → Option Status) (old new : Order) (comment : Option String)
    (actor_id : ℕ) (now : Time) where
  -- If the first response time changes, then none but a zero one was recorded before, the actor is
  -- the order's executor before or after the update, the actor changed the status, changed the
  -- executor or left a comment, and the time recorded is that since the order's creation.
  pub first_response_earned :
      (calculate_metrics find_status new old comment actor_id now).first_response_time_seconds
        ≢ new.first_response_time_seconds
      → ((old.first_response_time_seconds ≡ none) ⊎ (old.first_response_time_seconds ≡ some 0))
        × ((old.executor_id ≡ some actor_id) ⊎ (new.executor_id ≡ some actor_id))
        × ((new.status_id ≢ old.status_id)
            ⊎ (new.executor_id ≢ old.executor_id)
            ⊎ (has_comment comment ≡ true))
        × ((calculate_metrics find_status new old comment actor_id now).first_response_time_seconds
            ≡ some (elapsed_seconds old.created_at now))
  unfolding calculate_metrics
  first_response_earned h = ground arith

  -- A first response time that is not zero is not replaced, if the request leaves the field alone.
  pub first_response_once :
      (k : ℕ)
      → old.first_response_time_seconds ≡ some (suc k)
      → new.first_response_time_seconds ≡ some (suc k)
      → (calculate_metrics find_status new old comment actor_id now).first_response_time_seconds
        ≡ some (suc k)
  unfolding calculate_metrics
  first_response_once k h g = ground arith
