-- ===== src/Server/Ticker/Schedule.antt =====
-- When the ticker of Ticker.cpp ticks, and what it sends.
use gss.Base.{ℕ, zero, suc, ◌+◌, ◌≡◌, refl, ap, ◌∙◌, Bool, length, List, [], ◌∷◌, ◌++◌}
use gss.Base.Text.{Text, codes}
use gss.Containers.Queue.{Queue}
use gss.Server.Libraries.{PosixTime}
use gss.Server.Task.{Task}
use gss.Server.SharedState.{SessionId, SharedState, send_all}
use gss.Server.Ticker.{Ticker, Action, post, async_wait, new_ticker, run, post_each, tick}

-- The times of the waits in a list of actions.
pub waits : List Action → List ℕ
waits [] = []
waits (async_wait at ∷ actions) = at ∷ waits actions
waits (post x message ∷ actions) = waits actions

-- `n` times from `from` on, `interval` apart.
pub every : (n interval from : ℕ) → List ℕ
every zero interval from = from ∷ []
every (suc n) interval from = from ∷ every n interval (from + interval)

module _ {time : PosixTime} (queue : Queue (Task time)) where
  -- All that the ticker does when its timer completes with the results `ecs`, while the shared
  -- state is the one of the list.
  pub ticking : (SessionId → Bool) → List (Bool × SharedState queue) → Ticker → List Action
  ticking alive [] t = []
  ticking alive ((ec, s) ∷ results) t =
      (tick queue alive s ec t).1 ++ ticking alive results (tick queue alive s ec t).0

  waits-post_each :
      (message : Text) (xs : List SessionId) (actions : List Action)
      → waits (post_each message xs actions) ≡ waits actions
  unfolding post_each waits
  waits-post_each message [] actions = refl
  waits-post_each message (x ∷ xs) actions = waits-post_each message xs actions

  waits-append : (xs ys : List Action) → waits (xs ++ ys) ≡ waits xs ++ waits ys
  unfolding waits
  waits-append [] ys = refl
  waits-append (async_wait at ∷ xs) ys = ap (◌∷◌ at) (waits-append xs ys)
  waits-append (post x message ∷ xs) ys = waits-append xs ys

  -- The waits of a ticker that is started at `now` end every `interval`, the first one an interval
  -- from now, whether the waits before them ended with an error or not and whatever sessions there
  -- are.
  pub ticking-every :
      (alive : SessionId → Bool) (now interval : ℕ) (results : List (Bool × SharedState queue))
      → waits (run (new_ticker now interval) ++ ticking alive results (new_ticker now interval))
        ≡ every (length results) interval (now + interval)
  unfolding run new_ticker every ticking tick waits
  ticking-every alive now interval results = from results (new_ticker now interval)
    where
      from :
          (results : List (Bool × SharedState queue)) (t : Ticker)
          → t.expires_at ∷ waits (ticking alive results t)
            ≡ every (length results) t.interval t.expires_at
      from [] t = refl
      from ((ec, s) ∷ results) t =
          let posted = send_all queue alive s in
          let next : ℕ = t.expires_at + t.interval in
          ap (◌∷◌ t.expires_at) (
            waits-append (post_each (codes "ticking.") posted (async_wait next ∷ [])) _
            ∙ ap (λ w. w ++ waits (ticking alive results (record t { expires_at = next })))
                (waits-post_each (codes "ticking.") posted (async_wait next ∷ []))
            ∙ from results (record t { expires_at = next }))
