-- ===== src/Server/Whole/Queued.antt =====
-- The way of a task that waits in the queue of the whole server to the browser of its assignee.
use gss.Base.{
  ℕ, suc, ◌^◌, ◌<◌, ◌≡◌, refl, sym, ap, ◌∙◌, inl, inr, true, false, List, [], ◌∷◌, ◌++◌, subst,
  arith, length,
}
use gss.Base.Text.{Text}
use gss.Containers.Queue.{Queue}
use gss.Server.Task.{Task}
use gss.Server.SharedState.{SessionId, tasks, member, update_message}
use gss.Server.Scheduler.{timing, held}
use gss.Server.Scheduler.Tasks.{take_task-cons, must_wait-cons}
use gss.Server.HttpSession.Handler.{Environment}
use gss.Server.Hub.{session, timer, is_alive, tell, uid_in}
use gss.Server.Hub.Effect.{tell_to-shared}
use gss.Server.Hub.Log.{posts_to}
use gss.Server.Hub.Arrival.{texts}
use gss.Server.Whole.{going, Server, launch, handle_timer, take}
use gss.Server.Whole.Steps.{Reach, here, next, fires}
use gss.Server.Whole.Timer.{TimerFits, tell-outbox}
use gss.Server.Whole.Sessions.{outbox-TimerFits}
use gss.Server.Whole.Still.{Still, Still-trans, tell-Still, shared-Still}
use gss.Server.Whole.Arrival.{Reach-trans, update_arrives}
use gss.Server.Whole.Progress.{Waits, Waits-cases, waiting-Quiet, takes, works}

module _ (env : Environment) (queue : Queue (Task env.time)) (started : ℕ) where
  -- The timer of `t` is set, and the sessions are as they were.
  record Set (t : Task env.time) (s u : Server env queue) : Type 0 where
    path : Reach env queue started s u
    worker : u.worker ≡ timing t
    status : u.status ≡ going
    still : Still queue s.hub u.hub

  Set-later :
      (t : Task env.time) {s u v : Server env queue}
      → Reach env queue started s u
      → Still queue s.hub u.hub
      → Set t u v
      → Set t s v
  Set-later t r still d = record {
    path = Reach-trans env queue r d.path;
    worker = d.worker;
    status = d.status;
    still = Still-trans queue still d.still;
  }

  sets :
      (before : List (Task env.time)) (s : Server env queue) (t : Task env.time)
      (after : List (Task env.time))
      → s.status ≡ going
      → Waits s.worker
      → TimerFits s.worker (s.hub.outbox timer)
      → tasks queue s.hub.shared ≡ before ++ t ∷ after
      → length (tasks queue s.hub.shared) < 2 ^ 64
      → (u : Server env queue) × Set t s u
  unfolding take
  sets [] s t after on waits fits cons few =
      let (u, q) = waiting-Quiet env queue started s on waits fits in
      let same = ap (tasks queue) q.shared in
      let (shared, e, taken) = take_task-cons u.hub.shared t after (same ∙ cons) in
      let go =
        must_wait-cons u.hub.shared t after (same ∙ cons) (omega (arith, ap length same, few)) in
      (
        take env queue t shared u,
        record {
          path = next q.path (
              takes env queue started u t shared (q.status ∙ on) (subst Waits (sym q.worker) waits)
                q.quiet go e);
          worker = refl;
          status = q.status ∙ on;
          still = Still-trans queue q.still (shared-Still queue u.hub shared taken.same_sessions);
        },
      )
  sets (b ∷ before) s t after on waits fits cons few =
      let (u, q) = waiting-Quiet env queue started s on waits fits in
      let same = ap (tasks queue) q.shared in
      let (v, w) =
        works env queue started u b (before ++ t ∷ after) (q.status ∙ on)
          (subst Waits (sym q.worker) waits) q.quiet (same ∙ cons)
          (omega (arith, ap length same, few)) in
      let (k, d) =
        sets before v t after w.status (inr w.worker)
          (subst (λ k. TimerFits k (v.hub.outbox timer)) (sym w.worker) w.fits) w.left
          (omega (arith, ap length w.left, ap length cons, few)) in
      (k, Set-later t q.path q.still (Set-later t w.path w.still d))

  sets_now :
      (s : Server env queue) (before : List (Task env.time)) (t : Task env.time)
      (after : List (Task env.time))
      → s.status ≡ going
      → TimerFits s.worker (s.hub.outbox timer)
      → tasks queue s.hub.shared ≡ before ++ t ∷ after
      → length (tasks queue s.hub.shared) < 2 ^ 64
      → (u : Server env queue) × Set t s u
  unfolding handle_timer tell
  sets_now s before t after on fits cons few = elim (Waits-cases env queue started s.worker) [
    | inl waits ↦ sets before s t after on waits fits cons few
    | inr (t0, at) ↦
        let quiet = subst (λ w. TimerFits w (s.hub.outbox timer)) at fits in
        let same = ap (tasks queue) (tell_to-shared queue _ _ s.hub) in
        let (u, d) =
          sets before (handle_timer env queue t0 s) t after on (inr refl)
            (tell-outbox queue env.json t0 s.hub quiet) (same ∙ cons)
            (omega (arith, ap length same, few)) in
        let free : held s.worker < suc started = rw at (omega arith) in
        (u, Set-later t (next here (fires t0 on at free)) (tell-Still queue env.json t0 s.hub) d)
  ]

  -- With two I/O threads or more: when the server goes on and a task is in the queue, which has
  -- fewer than 2^64, while one session alone in the set has the name of its assignee, has not been
  -- dropped, none of its writes has failed, and its handler has nothing left to post, then steps of
  -- the server are possible after which the last message that the session has written is the update
  -- of the task.
  pub queued_update_arrives :
      (root : Text) (s : Server env queue) (y : SessionId) (before : List (Task env.time))
      (t : Task env.time) (after : List (Task env.time))
      → 0 < started
      → Reach env queue started (launch env queue root) s
      → s.status ≡ going
      → tasks queue s.hub.shared ≡ before ++ t ∷ after
      → length (tasks queue s.hub.shared) < 2 ^ 64
      → member y s.hub.shared.sessions ≡ true
      → uid_in queue s.hub y ≡ t.assignee
      → ((z : SessionId)
          → member z s.hub.shared.sessions ≡ true
          → uid_in queue s.hub z ≡ t.assignee
          → z ≡ y)
      → is_alive (s.hub.phase y) ≡ true
      → (s.hub.links y).broken ≡ false
      → s.hub.outbox (session y) ≡ []
      → (s' : Server env queue) × (earlier : List Text) × Reach env queue started s s'
        × ((s'.hub.links y).written ≡ earlier ++ update_message env.json t ∷ [])
  queued_update_arrives root s y before t after enough r on cons few inside named only alive sound
        own =
      let (u, d) =
        sets_now s before t after on (outbox-TimerFits env queue root started s r) cons few in
      let (s', later, written) =
        update_arrives env queue y started enough root u t (Reach-trans env queue r d.path) d.status
          d.worker (ap (member y) d.still.sessions ∙ inside)
          (ap (λ ls. (ls y).session.uid) d.still.links ∙ named)
          (λ z within is_t.
            only z (sym (ap (member z) d.still.sessions) ∙ within)
              (sym (ap (λ ls. (ls z).session.uid) d.still.links) ∙ is_t))
          (ap (λ ph. is_alive (ph y)) d.still.phase ∙ alive)
          (ap (λ ls. (ls y).broken) d.still.links ∙ sound) (d.still.outbox y ∙ own) in
      (s', texts (posts_to y u.hub.log), Reach-trans env queue d.path later, written)
