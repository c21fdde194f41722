-- ===== src/Server/Whole/Ends/Causes.antt =====
-- How the whole server comes to an end.
use gss.Base.{ℕ, ◌<◌, suc, ◌≢◌, ◌≡◌, refl, sym, ap, ◌∙◌, true, subst}
use gss.Base.Text.{Text}
use gss.Base.Try.{raised, Exception}
use gss.Containers.Queue.{Queue}
use gss.Server.Task.{Task}
use gss.Server.Task.Json.{task_of}
use gss.Server.SharedState.{SessionId}
use gss.Server.HttpSession.Handler.{Request, Environment}
use gss.Server.HttpSession.Requests.Effect.{is_task_post}
use gss.Server.WebsocketSession.{WebsocketSession}
use gss.Server.Hub
use gss.Server.Main.Escape.{IoThread, Ending, escape, exits}
use gss.Server.Main.Escape.Reads.{Understood}
use gss.Server.Whole.Calls.{perform_each-status, connected-Same, written-Same}
use gss.Server.Whole.{
  going, over, ConnectionId, Server, launch, reading, handle_request_read, handle_timer, take,
  stopping,
}
use gss.Server.Whole.Steps.{
  Step, Reach, here, next, connects, asks, ask_raises, answers, visits, visit_raises, starts, fires,
  resumes, stops, winds, returns,
}
use gss.Base.Int.{pos}
use gss.Server.Scheduler.{held}
use gss.Server.Whole.Winding
use gss.Server.Whole.Winding.{Wind, Winds, stopped, more, IsDown}
use gss.Server.Whole.Ends.{on_read-raises, message-raises}

module _ (env : Environment) (queue : Queue (Task env.time)) where
  -- A handler on some I/O thread raises: that of a POST whose body is no task, or that of a
  -- websocket message that is not understood.
  pub data Raised (started : ℕ) (s : Server env queue) : Ending → Type 0 where
    by_post :
        (c : ConnectionId) (req : Request) (thread : IoThread) (x : Exception)
        → s.stages c ≡ reading
        → is_task_post req ≡ true
        → task_of {time = env.time} env.json req.body ≡ raised x
        → Raised started s (escape started thread x)
    by_message :
        (y : SessionId) (buffer : Text) (thread : IoThread) (x : Exception)
        → s.hub.phase y ≡ Hub.reading
        → ((t : WebsocketSession) → ¬ Understood env.json buffer (s.hub.links y).session t)
        → Raised started s (escape started thread x)

  -- What ends the server: an exception; or a signal, whose handler runs on a free I/O thread, and
  -- the I/O threads return, after what they had begun.
  pub data Cause (started : ℕ) (s : Server env queue) : Ending → Type 0 where
    by_exception : {e : Ending} → Raised started s e → Cause started s e
    by_signal :
        (v : Server env queue)
        → held s.worker < suc started
        → Winds env queue (record s { status = stopping }) v
        → IsDown env queue v
        → Cause started s (exits (pos 0))

  -- What a step does to the status.
  data Turn (started : ℕ) (s : Server env queue) (s' : Server env queue) : Type 0 where
    goes : s'.status ≡ going → Turn started s s'
    raises :
        (e : Ending)
        → s.status ≡ going
        → s'.status ≡ over e
        → Raised started s e
        → Turn started s s'
    signalled :
        s.status ≡ going
        → held s.worker < suc started
        → s' ≡ record s { status = stopping }
        → Turn started s s'
    unwinds : s.status ≡ stopping → s'.status ≡ stopping → Wind env queue s s' → Turn started s s'
    done :
        s.status ≡ stopping
        → IsDown env queue s
        → s'.status ≡ over (exits (pos 0))
        → Turn started s s'

  Wind-status :
      (s : Server env queue) {s' : Server env queue} → Wind env queue s s' → s'.status ≡ s.status
  unfolding take
  Wind-status s (Winding.posts src y m rest e) = refl
  Wind-status s (Winding.starts t shared at go e) = refl
  Wind-status s (Winding.resumes t shared at quiet go e) = refl

  Step-Turn :
      (started : ℕ) (s : Server env queue) {s' : Server env queue}
      → Step env queue started s s'
      → Turn started s s'
  unfolding handle_timer take handle_request_read
  Step-Turn started s (connects c ec on free pending new) =
      goes ((connected-Same env queue c ec s).status ∙ on)
  Step-Turn started s (asks c ec is_upgrade req x shared actions on free at new e) =
      goes (perform_each-status env queue c x actions _ ∙ on)
  Step-Turn started s (ask_raises c ec is_upgrade req thread e on free at bad) =
      let (api, no_task) = on_read-raises env queue ec is_upgrade req s.hub.shared e bad in
      raises (escape started thread e) on refl (by_post c req thread e at api no_task)
  Step-Turn started s (answers c ec res on free at) =
      goes ((written-Same env queue c ec res.keep_alive s).status ∙ on)
  Step-Turn started s (visits g st on ok) = goes on
  Step-Turn started s (visit_raises x ec buffer thread e on free at idle bad) =
      raises (escape started thread e) on refl (
        by_message x buffer thread e at
          (message-raises env queue ec buffer (s.hub.links x).session e bad))
  Step-Turn started s (starts t shared on at go e) = goes on
  Step-Turn started s (fires t on at free) = goes on
  Step-Turn started s (resumes t shared on at quiet go e) = goes on
  Step-Turn started s (stops on free) = signalled on free refl
  Step-Turn started s (winds s' on w) = unwinds on (Wind-status s w ∙ on) w
  Step-Turn started s (returns on down) = done on down refl

  module _ (started : ℕ) (root : Text) where
    -- A state in which the handler of a signal has run, and what has happened since.
    abbrev Signalled : Server env queue → Type 0
    Signalled s =
        (u : Server env queue) × Reach env queue started (launch env queue root) u
        × (u.status ≡ going)
        × (held u.worker < suc started)
        × Winds env queue (record u { status = stopping }) s

    Reach-Signalled :
        (s : Server env queue)
        → Reach env queue started (launch env queue root) s
        → s.status ≡ stopping
        → Signalled s
    unfolding launch
    Reach-Signalled s here stop = cc stop
    Reach-Signalled s (next {u} r st) stop = elim (Step-Turn started u st) [
      | goes on ↦ cc (on, stop)
      | raises e on end bad ↦ cc (end, stop)
      | signalled on free same ↦ (
        u,
        r,
        on,
        free,
        subst (Winds env queue (record u { status = stopping })) (sym same) stopped,
      )
      | unwinds before after w ↦
          let (k, path, on, free, run) = Reach-Signalled u r before in
          (k, path, on, free, more run w)
      | done before down end ↦ cc (end, stop)
    ]

    -- When the server has come to an end, it was in a state in which it went on, and either a
    -- connection was read and got a POST to /api/tasks whose body is no task, or a websocket
    -- session was read and got a message that is not understood, and the exception of that ended
    -- it; or an I/O thread was free, on which the handler of a signal stopped the I/O context, what
    -- the threads had begun came to a state in which no I/O thread has anything left to do, and
    -- `main` returned 0.
    pub ended-Cause :
        (s : Server env queue) (e : Ending)
        → Reach env queue started (launch env queue root) s
        → s.status ≡ over e
        → (u : Server env queue) × Reach env queue started (launch env queue root) u
          × (u.status ≡ going)
          × Cause started u e
    unfolding launch
    ended-Cause s e here end = cc end
    ended-Cause s e (next {u} r st) end = elim (Step-Turn started u st) [
      | goes on ↦ cc (on, end)
      | raises e' on end' bad ↦
          (u, r, on, by_exception (subst (Raised started u) (cc (end, end')) bad))
      | signalled on free same ↦ absurd (never (sym (ap (λ k. k.status) same) ∙ end))
      | unwinds before after w ↦ cc (after, end)
      | done before down end' ↦
          let (k, path, on, free, run) = Reach-Signalled u r before in
          (k, path, on, subst (Cause started k) (cc (end, end')) (by_signal u free run down))
    ]
      where
        never : {e : Ending} → stopping ≢ over e
        never same = cc same
