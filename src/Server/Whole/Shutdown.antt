-- ===== src/Server/Whole/Shutdown.antt =====
-- Whether `main` of main.cpp comes back from its I/O threads after a signal.
use gss.Base.{
  ℕ, ◌^◌, ◌<◌, ◌≡◌, ◌≢◌, ◌↔◌, refl, ap, ◌∙◌, inl, inr, List, [], ◌∷◌, subst, arith, length,
  length-zero, List-cases, ◌⊎◌,
}
use gss.Base.Text.{Text}
use gss.Containers.Queue.{Queue}
use gss.Server.Task.{Task}
use gss.Server.SharedState.{tasks, must_wait}
use gss.Server.Scheduler.{Worker, on_consumer, timing, on_io}
use gss.Server.Scheduler.Tasks.{take_task-cons, must_wait-cons}
use gss.Server.HttpSession.Handler.{Environment}
use gss.Server.Hub.{timer, post}
use gss.Server.Hub.Effect.{post-shared}
use gss.Server.Whole.{Server, launch, take}
use gss.Server.Whole.Steps.{Reach}
use gss.Server.Whole.Winding.{Wind, posts, starts, resumes, Winds, stopped, more}
use gss.Server.Whole.Timer.{TimerFits, post-outbox_timer}
use gss.Server.Whole.Sessions.{outbox-TimerFits}

module _ (env : Environment) (queue : Queue (Task env.time)) where
  -- The callback of a timer holds its I/O thread, which waits for a task that no one pushes.
  abbrev pub IsHeld : Server env queue → Type 0
  IsHeld s = (s.worker ≡ on_io) × (tasks queue s.hub.shared ≡ [])

  Wind-IsHeld :
      (s : Server env queue) {s' : Server env queue} → Wind env queue s s' → IsHeld s → IsHeld s'
  unfolding must_wait tasks
  Wind-IsHeld s (posts src y m rest e) (at, nil) =
      (at, ap (tasks queue) (post-shared queue src y m rest s.hub) ∙ nil)
  Wind-IsHeld s (starts t shared off go e) (at, nil) = cc (at, off)
  Wind-IsHeld s (resumes t shared off quiet go e) (at, nil) =
      cc (go, queue.empty-nil s.hub.shared.tasks_queue nil)

  Winds-IsHeld :
      (s : Server env queue) {s' : Server env queue} → Winds env queue s s' → IsHeld s → IsHeld s'
  Winds-IsHeld s stopped held = held
  Winds-IsHeld s (more {u} r w) held = Wind-IsHeld u w (Winds-IsHeld s r held)

  abbrev CanReturn : Server env queue → Type 0
  CanReturn s = (s' : Server env queue) × Winds env queue s s' × (s'.worker ≢ on_io)

  resumed :
      (s s0 : Server env queue) (t : Task env.time) (ts : List (Task env.time))
      → Winds env queue s0 s
      → s.worker ≡ on_io
      → s.hub.outbox timer ≡ []
      → tasks queue s.hub.shared ≡ t ∷ ts
      → length (tasks queue s.hub.shared) < 2 ^ 64
      → CanReturn s0
  unfolding take
  resumed s s0 t ts r at quiet cons few =
      let (shared, e, taken) = take_task-cons s.hub.shared t ts cons in
      (
        take env queue t shared s,
        more r (resumes t shared at quiet (must_wait-cons s.hub.shared t ts cons few) e),
        λ same. cc same,
      )

  callback-CanReturn :
      (s : Server env queue) (t : Task env.time) (ts : List (Task env.time))
      → s.worker ≡ on_io
      → TimerFits s.worker (s.hub.outbox timer)
      → tasks queue s.hub.shared ≡ t ∷ ts
      → length (tasks queue s.hub.shared) < 2 ^ 64
      → CanReturn s
  callback-CanReturn s t ts at fits cons few = elim (List-cases (s.hub.outbox timer)) [
    | inl nil ↦ resumed s s t ts stopped at nil cons few
    | inr ((y, m), rest, e) ↦
        let one = subst (λ w. TimerFits w (s.hub.outbox timer)) at fits in
        let same = ap (tasks queue) (post-shared queue timer y m rest s.hub) in
        resumed (record s { hub = post queue timer y m rest s.hub }) s t ts
          (more stopped (posts timer y m rest e)) at
          (post-outbox_timer queue y m rest s.hub
            ∙ length-zero rest (omega (arith, one, ap length e)))
          (same ∙ cons) (omega (arith, ap length same, few))
  ]

  on_io-cases : (worker : Worker env.time) → (worker ≡ on_io) ⊎ (worker ≢ on_io)
  on_io-cases on_consumer = inr (λ same. cc same)
  on_io-cases (timing t) = inr (λ same. cc same)
  on_io-cases on_io = inl refl

  -- In every state that the server can reach with fewer than 2^64 tasks in the queue: when a signal
  -- has stopped the I/O context there, what goes on can reach a state in which no callback of a
  -- timer holds an I/O thread, for which `main` waits, if and only if it is not so that there a
  -- callback holds one and the queue is empty.
  pub stop-IsHeld :
      (started : ℕ) (root : Text) (s : Server env queue)
      → Reach env queue started (launch env queue root) s
      → length (tasks queue s.hub.shared) < 2 ^ 64
      → ((s' : Server env queue) × Winds env queue s s' × (s'.worker ≢ on_io)) ↔ ¬ IsHeld s
  stop-IsHeld started root s r few = (
    λ (s', w, other) held. other (Winds-IsHeld s w held).0,
    λ free. elim (on_io-cases s.worker) [
      | inr other ↦ (s, stopped, other)
      | inl at ↦ elim (List-cases (tasks queue s.hub.shared)) [
        | inl nil ↦ absurd (free (at, nil))
        | inr (t, ts, cons) ↦
            callback-CanReturn s t ts at (outbox-TimerFits env queue root started s r) cons few
      ]
    ],
  )
