-- ===== src/Payments/Requests/Expiry.antt =====
-- What the expiry job does.
use kalam_network.Prelude.{ℕ, ◌≡◌, refl, Text, List, [], ◌∷◌, false, All, arith, if◌then◌else◌}
use mathlib.Core.Option
use kalam_network.Exec.{after}
use kalam_network.Repo.{find_key, update_where}
use kalam_network.Repo.Laws.{find_key-update_where}
use kalam_network.Payments.Types.{expired, status_eq, PaymentRequest, State, Env}
use kalam_network.Payments.Steps.{now}
use kalam_network.Payments.Requests.{is_stale, expire_pending_requests}

abbrev pub expire_at : ℕ → PaymentRequest → PaymentRequest
expire_at t r = if is_stale t r then record r { status = expired } else r

none_stale :
    (t : ℕ) (rows : List PaymentRequest)
    → All
        (λ r. is_stale t r ≡ false)
        (update_where (is_stale t) (λ r. record r { status = expired }) rows)
unfolding update_where status_eq
none_stale t [] = tt
none_stale t (r ∷ rows) = (ground arith, none_stale t rows)

-- After the expiry job no request is pending that was past its expiry when the job ran, and a
-- request is changed only if it was pending and past its expiry, and only in its status.
pub expire_pending_requests_lem :
    (env : Env) (s : State) (id : Text)
    → All
        (λ r. is_stale (env.clock s.readings) r ≡ false)
        (after (expire_pending_requests env) s).requests
      × (find_key PaymentRequest.id id (after (expire_pending_requests env) s).requests
          ≡ Option.map
              (expire_at (env.clock s.readings))
              (find_key PaymentRequest.id id s.requests))
unfolding expire_pending_requests now
expire_pending_requests_lem env s id = (
  none_stale (env.clock s.readings) s.requests,
  find_key-update_where PaymentRequest.id (is_stale (env.clock s.readings))
      (λ r. record r { status = expired }) (λ r. refl) id s.requests,
)
