-- ===== src/Server/Whole/Ends.antt =====
-- Which handlers of the whole server raise an exception.
pub mod Causes
use gss.Base.{
  ℕ, ◌≡◌, refl, sym, ap, ◌∙◌, ◌⊎◌, inl, inr, Bool, true, false, ◌&&◌, Bool-cases, none, some, subst,
}
use gss.Base.Text.{Text, codes, contains}
use gss.Base.Try.{Try, returned, raised, Exception, Try-cases}
use gss.Containers.Queue.{Queue}
use gss.Server.Task.{Task}
use gss.Server.Task.Json.{task_of}
use gss.Server.SharedState.{SessionId, SharedState}
use gss.Server.HttpSession.Handler.{
  Request, get, other, post, verb_eq, Environment, illegal_target, post_task, handle_request,
}
use gss.Server.HttpSession.Requests.{post_task-returned}
use gss.Server.HttpSession.Requests.Effect.{is_task_post}
use gss.Server.HttpSession.Connection
use gss.Server.WebsocketSession
use gss.Server.WebsocketSession.{WebsocketSession}
use gss.Server.Hub
use gss.Server.Main.Escape.{IoThread, of_main, Ending, escape, run_handler}
use gss.Server.Main.Escape.Posts.{task_of-named}
use gss.Server.Main.Escape.Reads.{Understood, on_read-ends_or_sends}
use gss.Server.Whole.Calls.{perform_each-status, connected-Same, written-Same}
use gss.Server.Whole.{
  going, over, ConnectionId, Server, launch, reading, handle_request_read, handle_timer, take,
}
use gss.Server.Whole.Steps.{
  Step, Reach, here, next, connects, asks, ask_raises, answers, visits, visit_raises, starts, fires,
  resumes,
}

module _ (env : Environment) (queue : Queue (Task env.time)) where
  not_raised : {A : Type 0} {a : A} {x : Exception} → ◌≡◌ {A = Try A} (returned a) (raised x) → ⊥
  not_raised e = cc e

  post_task-raises :
      (req : Request) (s : SharedState queue) (x : Exception)
      → post_task env queue req s ≡ raised x
      → task_of {time = env.time} env.json req.body ≡ raised x
  unfolding post_task
  post_task-raises req s x e = elim (Try-cases (task_of {time = env.time} env.json req.body)) [
    | inl (y, bad) ↦ bad ∙ ap raised (cc (rw bad at e))
    | inr (t, read) ↦
        let (p, name, parsed, named) = task_of-named env.json req.body t read in
        absurd
          (not_raised (sym (post_task-returned env queue req s t p name read parsed named) ∙ e))
  ]

  -- Only the POST of a body that is no task raises.
  pub handle_request-raises :
      (root : Text) (req : Request) (s : SharedState queue) (x : Exception)
      → handle_request env queue root req s ≡ raised x
      → (is_task_post req ≡ true) × (task_of {time = env.time} env.json req.body ≡ raised x)
  unfolding handle_request
  handle_request-raises root req s x e = elim (Bool-cases (verb_eq req.method other)) [
    | inl t ↦ absurd (not_raised (rw t at e))
    | inr known ↦ elim (Bool-cases (illegal_target req.target)) [
      | inl t ↦ absurd (not_raised (rw (known, t) at e))
      | inr legal ↦
          elim (Bool-cases (verb_eq req.method post && contains (codes "/api/tasks") req.target)) [
            | inl t ↦ (rw legal t, post_task-raises req s x (rw (known, legal, t) at e))
            | inr t ↦
                elim (Bool-cases
                  (verb_eq req.method get && contains (codes "/api/admin") req.target)) [
                    | inl u ↦ absurd (not_raised (rw (known, legal, t, u) at e))
                    | inr u ↦ absurd (not_raised (rw (known, legal, t, u) at e))
                  ]
          ]
    ]
  ]

  pub on_read-raises :
      (ec : Connection.ErrorCode) (is_upgrade : Bool) (req : Request) (s : SharedState queue)
      (x : Exception)
      → Connection.on_read env queue ec is_upgrade req s ≡ raised x
      → (is_task_post req ≡ true) × (task_of {time = env.time} env.json req.body ≡ raised x)
  unfolding Connection.on_read
  on_read-raises Connection.end_of_stream is_upgrade req s x e = absurd (not_raised e)
  on_read-raises Connection.operation_aborted is_upgrade req s x e = absurd (not_raised e)
  on_read-raises (Connection.failed message) is_upgrade req s x e = absurd (not_raised e)
  on_read-raises Connection.success true req s x e = absurd (not_raised e)
  on_read-raises Connection.success false req s x e =
      elim (Try-cases (handle_request env queue s.doc_root req s)) [
        | inl (y, bad) ↦
            handle_request-raises s.doc_root req s x (bad ∙ ap raised (cc (rw bad at e)))
        | inr (r, good) ↦ absurd (not_raised (rw good at e))
      ]

  pub message-raises :
      (ec : WebsocketSession.ErrorCode) (buffer : Text) (s : WebsocketSession) (x : Exception)
      → WebsocketSession.on_read env.json ec buffer s ≡ raised x
      → (s' : WebsocketSession) → ¬ Understood env.json buffer s s'
  unfolding run_handler WebsocketSession.on_read
  message-raises WebsocketSession.operation_aborted buffer s x e s' u = absurd (not_raised e)
  message-raises WebsocketSession.closed buffer s x e s' u = absurd (not_raised e)
  message-raises (WebsocketSession.failed message) buffer s x e s' u = absurd (not_raised e)
  message-raises WebsocketSession.success buffer s x e s' u =
      elim (on_read-ends_or_sends env.json buffer s 0 of_main) [
        | inl (t, v, on) ↦ cc (sym on ∙ ap (run_handler 0 of_main) e)
        | inr (never, bad) ↦ never s' u
      ]
