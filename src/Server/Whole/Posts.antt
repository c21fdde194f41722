-- ===== src/Server/Whole/Posts.antt =====
-- Which requests of the HTTP sessions push a task, and what a session's handler does to the shared
-- state.
use gss.Base.{
  ◌≡◌, refl, sym, ap, ◌∙◌, ◌⊎◌, inl, inr, Bool, true, false, List, [], ◌∷◌, ◌++◌, append_assoc,
  if◌then◌else◌,
}
use gss.Base.Text.{Text}
use gss.Base.Try.{Try, returned, raised, >>=-returned}
use gss.Containers.Queue.{Queue}
use gss.Server.Libraries.{PosixTime, JsonLibrary}
use gss.Server.Task.{Task}
use gss.Server.Task.Json.{task_of}
use gss.Server.SharedState.{SharedState, push_task}
use gss.Server.HttpSession.Handler.{Request, Response, Environment, handle_request}
use gss.Server.HttpSession.Requests.Effect.{is_task_post, handle_request-cases}
use gss.Server.HttpSession.Connection.{
  ErrorCode, success, end_of_stream, operation_aborted, failed, Action, on_read,
}
use gss.Server.Whole.{ConnectionId, heard}

-- The tasks of the requests whose body is made a task.
abbrev pub result {ℓ} : {A : Type ℓ} → Try A → List A
result (returned a) = a ∷ []
result (raised e) = []

abbrev pub posted_tasks :
    {time : PosixTime} → JsonLibrary → List (ConnectionId × Request) → List (Task time)
posted_tasks json [] = []
posted_tasks json ((c, req) ∷ reqs) =
    (if is_task_post req then result (task_of json req.body) else []) ++ posted_tasks json reqs

pub posted_tasks-append :
    {time : PosixTime} (json : JsonLibrary) (reqs more : List (ConnectionId × Request))
    → posted_tasks {time = time} json (reqs ++ more)
      ≡ posted_tasks json reqs ++ posted_tasks json more
posted_tasks-append json [] more = refl
posted_tasks-append json ((c, req) ∷ reqs) more =
    ap (λ ts. (if is_task_post req then result (task_of json req.body) else []) ++ ts)
      (posted_tasks-append json reqs more)
    ∙ sym (append_assoc _ (posted_tasks json reqs) (posted_tasks json more))

module _ (env : Environment) (queue : Queue (Task env.time)) where
  -- What a call of the read handler does to the queue is what it pushes.
  abbrev pub Pushed : List (ConnectionId × Request) → SharedState queue → SharedState queue → Type 0
  Pushed reqs s s' =
      ((s' ≡ s) × (posted_tasks {time = env.time} env.json reqs ≡ []))
      ⊎ ((t : Task env.time) × (s' ≡ push_task queue t s) × (posted_tasks env.json reqs ≡ t ∷ []))

  pub handle_request-Pushed :
      (c : ConnectionId) (root : Text) (req : Request) (s s' : SharedState queue) (res : Response)
      → handle_request env queue root req s ≡ returned (s', res)
      → Pushed ((c, req) ∷ []) s s'
  handle_request-Pushed c root req s s' res e =
      elim (handle_request-cases env queue root req s s' res e) [
        | inl (pure, same) ↦ inl (same, rw pure)
        | inr (api, (t, read, pushed)) ↦ inr (t, pushed, rw (api, read))
      ]

  pub on_read-Pushed :
      (c : ConnectionId) (ec : ErrorCode) (is_upgrade : Bool) (req : Request)
      (s s' : SharedState queue) (actions : List Action)
      → on_read env queue ec is_upgrade req s ≡ returned (s', actions)
      → Pushed (heard c ec is_upgrade req) s s'
  unfolding on_read
  on_read-Pushed c end_of_stream is_upgrade req s s' actions e = inl (cc e, refl)
  on_read-Pushed c operation_aborted is_upgrade req s s' actions e = inl (cc e, refl)
  on_read-Pushed c (failed message) is_upgrade req s s' actions e = inl (cc e, refl)
  on_read-Pushed c success true req s s' actions e = inl (cc e, refl)
  on_read-Pushed c success false req s s' actions e =
      let ((r, res), handled, e') = >>=-returned (handle_request env queue s.doc_root req s) _ e in
      handle_request-Pushed c s.doc_root req s s' res
        (handled ∙ ap (λ q. returned (q, res)) (cc e'))
