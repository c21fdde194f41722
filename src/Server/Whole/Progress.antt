-- ===== src/Server/Whole/Progress.antt =====
-- How the whole server gets done with its tasks.
pub mod Finishing
use gss.Base.{
  ℕ, zero, suc, ◌^◌, ◌<◌, ◌≤◌, ◌≡◌, refl, sym, ap, ◌∙◌, ◌⊎◌, inl, inr, false, List, [], ◌∷◌, ◌++◌,
  append-nil, none, subst, arith, length, length-zero, List-cases,
}
use gss.Base.Text.{Text}
use gss.Base.Try.{returned}
use gss.Containers.Queue.{Queue}
use gss.Server.Libraries.{PosixTime}
use gss.Server.Task.{Task}
use gss.Server.SharedState.{SharedState, tasks, take_task, must_wait}
use gss.Server.Scheduler.{Worker, on_consumer, timing, on_io, held, running}
use gss.Server.Scheduler.Tasks.{take_task-cons, must_wait-cons}
use gss.Server.HttpSession.Handler.{Environment}
use gss.Server.Hub.{tell, timer, posts, post}
use gss.Server.Hub.Effect.{post-shared, tell_to-shared}
use gss.Server.Whole.{going, Server, launch, handle_timer, take}
use gss.Server.Whole.Steps.{Step, Reach, here, next, visits, starts, fires, resumes}
use gss.Server.Whole.Posts.{posted_tasks}
use gss.Server.Whole.Loop.{tasks-posted}
use gss.Server.Whole.Timer.{TimerFits, post-outbox_timer, tell-outbox}
use gss.Server.Whole.Sessions.{outbox-TimerFits}
use gss.Server.Whole.Still.{Still, Still-refl, Still-trans, post-Still, tell-Still, shared-Still}
use gss.Server.Whole.Arrival.{Reach-trans}

-- A worker that waits for a task, or will.
abbrev pub Waits : {time : PosixTime} → Worker time → Type 0
Waits worker = (worker ≡ on_consumer) ⊎ (worker ≡ on_io)

module _ (env : Environment) (queue : Queue (Task env.time)) (started : ℕ) where
  -- The timer has posted its message, if it had one.
  pub record Quiet (s s' : Server env queue) : Type 0 where
    pub path : Reach env queue started s s'
    pub quiet : s'.hub.outbox timer ≡ []
    pub shared : s'.hub.shared ≡ s.hub.shared
    pub still : Still queue s.hub s'.hub
    pub worker : s'.worker ≡ s.worker
    pub status : s'.status ≡ s.status
    pub requests : s'.requests ≡ s.requests

  pub quieted :
      (s : Server env queue)
      → s.status ≡ going
      → length (s.hub.outbox timer) ≤ 1
      → (s' : Server env queue) × Quiet s s'
  quieted s on one = elim (List-cases (s.hub.outbox timer)) [
    | inl nil ↦ (
      s,
      record {
        path = here;
        quiet = nil;
        shared = refl;
        still = Still-refl queue s.hub;
        worker = refl;
        status = refl;
        requests = refl;
      },
    )
    | inr ((y, m), rest, e) ↦ (
      record s { hub = post queue timer y m rest s.hub },
      record {
        path = next here (visits _ (posts timer y m rest e) on tt);
        quiet =
            post-outbox_timer queue y m rest s.hub
            ∙ length-zero rest (omega (arith, one, ap length e));
        shared = post-shared queue timer y m rest s.hub;
        still = post-Still queue y m rest s.hub;
        worker = refl;
        status = refl;
        requests = refl;
      },
    )
  ]

  pub waiting-Quiet :
      (s : Server env queue)
      → s.status ≡ going
      → Waits s.worker
      → TimerFits s.worker (s.hub.outbox timer)
      → (s' : Server env queue) × Quiet s s'
  waiting-Quiet s on (inl at) fits =
      quieted s on
        (omega (arith, ap length (subst (λ w. TimerFits w (s.hub.outbox timer)) at fits)))
  waiting-Quiet s on (inr at) fits =
      quieted s on (subst (λ w. TimerFits w (s.hub.outbox timer)) at fits)

  pub takes :
      (s : Server env queue) (t : Task env.time) (shared : SharedState queue)
      → s.status ≡ going
      → Waits s.worker
      → s.hub.outbox timer ≡ []
      → must_wait queue s.hub.shared ≡ false
      → take_task queue s.hub.shared ≡ returned (t, shared)
      → Step env queue started s (take env queue t shared s)
  takes s t shared on (inl at) quiet go e = starts t shared on at go e
  takes s t shared on (inr at) quiet go e = resumes t shared on at quiet go e

  -- One task is taken and its timer runs out.
  pub record Worked (t : Task env.time) (ts : List (Task env.time)) (s s' : Server env queue)
      : Type 0 where
    pub path : Reach env queue started s s'
    pub worker : s'.worker ≡ on_io
    pub left : tasks queue s'.hub.shared ≡ ts
    pub fits : length (s'.hub.outbox timer) ≤ 1
    pub still : Still queue s.hub s'.hub
    pub status : s'.status ≡ going
    pub requests : s'.requests ≡ s.requests

  pub works :
      (s : Server env queue) (t : Task env.time) (ts : List (Task env.time))
      → s.status ≡ going
      → Waits s.worker
      → s.hub.outbox timer ≡ []
      → tasks queue s.hub.shared ≡ t ∷ ts
      → length (tasks queue s.hub.shared) < 2 ^ 64
      → (s' : Server env queue) × Worked t ts s s'
  unfolding take handle_timer tell
  works s t ts on waits quiet cons fits =
      let (shared, e, taken) = take_task-cons s.hub.shared t ts cons in
      let s1 : Server env queue = take env queue t shared s in
      let go = must_wait-cons s.hub.shared t ts cons fits in
      (
        handle_timer env queue t s1,
        record {
          path =
              next (next here (takes s t shared on waits quiet go e))
                (fires t on refl (omega arith));
          worker = refl;
          left = ap (tasks queue) (tell_to-shared queue _ _ s1.hub) ∙ taken.left;
          fits = tell-outbox queue env.json t s1.hub quiet;
          still =
              Still-trans queue (shared-Still queue s.hub shared taken.same_sessions)
                (tell-Still queue env.json t s1.hub);
          status = on;
          requests = refl;
        },
      )

  pub Waits-cases :
      (worker : Worker env.time) → Waits worker ⊎ ((t : Task env.time) × (worker ≡ timing t))
  Waits-cases on_consumer = inl (inl refl)
  Waits-cases (timing t) = inr (t, refl)
  Waits-cases on_io = inl (inr refl)
