-- ===== src/Server/Ticker.antt =====
-- src/gss-server/Ticker.hpp and Ticker.cpp: a timer that sends a message to every session. A time
-- is a number of seconds; a completion of the timer carries an error flag, which `tick` ignores.
pub mod Schedule
use gss.Base.{ℕ, ◌+◌, Bool, List, [], ◌∷◌}
use gss.Base.Text.{Text, codes}
use gss.Containers.Queue.{Queue}
use gss.Server.Libraries.{PosixTime}
use gss.Server.Task.{Task}
use gss.Server.SharedState.{SessionId, SharedState, send_all}

pub record Ticker : Type 0 where
  pub interval : ℕ
  pub expires_at : ℕ

pub data Action : Type 0 where
  post : SessionId → Text → Action
  async_wait : ℕ → Action

-- The constructor: `timer_{ioc, interval}` expires one interval from now.
unfoldable pub new_ticker : (now interval : ℕ) → Ticker
new_ticker now interval = record { interval = interval; expires_at = now + interval }

unfoldable pub run : Ticker → List Action
run t = async_wait t.expires_at ∷ []

unfoldable pub post_each : Text → List SessionId → List Action → List Action
post_each message [] actions = actions
post_each message (x ∷ xs) actions = post x message ∷ post_each message xs actions

module _ {time : PosixTime} (queue : Queue (Task time)) where
  unfoldable pub tick :
      (SessionId → Bool) → SharedState queue → (ec : Bool) → Ticker → Ticker × List Action
  unfolding post_each send_all
  tick alive s ec t =
      let expires_at : ℕ = t.expires_at + t.interval in
      (
        record t { expires_at = expires_at },
        post_each (codes "ticking.") (send_all queue alive s) (async_wait expires_at ∷ []),
      )
