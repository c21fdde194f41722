-- ===== src/Server/HttpSession/Requests/Effect.antt =====
-- What a request of http_session.cpp does to the task loop.
use gss.Base.{ℕ, ◌<◌, ◌≡◌, refl, ◌⊎◌, inl, inr, Bool, true, false, not, ◌&&◌, Bool-cases}
use gss.Base.Text.{Text, codes, contains}
use gss.Base.Try.{returned, or_raise, parse_error, type_error, >>=-returned}
use gss.Containers.Queue.{Queue}
use gss.Server.Task.{Task}
use gss.Server.Task.Json.{task_of}
use gss.Server.SharedState.{SharedState, push_task}
use gss.Server.Scheduler.{System, held, pushing, Step, push}
use gss.Server.HttpSession.Handler.{
  Request, Response, Verb, get, head, other, post, verb_eq, Environment, illegal_target, post_task,
  handle_request,
}

-- The requests whose body is made a task.
abbrev pub is_task_post : Request → Bool
is_task_post req =
    verb_eq req.method post
    && (not (illegal_target req.target) && contains (codes "/api/tasks") req.target)

other_not_post : (m : Verb) → verb_eq m other ≡ true → verb_eq m post ≡ false
other_not_post get e = refl
other_not_post head e = refl
other_not_post post e = cc e
other_not_post other e = refl

and_false : (b : Bool) → (b && false) ≡ false
and_false true = refl
and_false false = refl

module _ (env : Environment) (queue : Queue (Task env.time)) where
  -- The body is a task, and the state has that task behind the others.
  abbrev pub Pushes : Request → SharedState queue → SharedState queue → Type 0
  Pushes req s s' =
      (t : Task env.time) × (task_of env.json req.body ≡ returned t) × (s' ≡ push_task queue t s)

  post_task-Pushes :
      (req : Request) (s s' : SharedState queue) (res : Response)
      → post_task env queue req s ≡ returned (s', res)
      → Pushes req s s'
  unfolding post_task
  post_task-Pushes req s s' res e =
      let (t, read, rest) = >>=-returned (task_of {time = env.time} env.json req.body) _ e in
      let (p, parsed, rest') =
        >>=-returned (or_raise parse_error (env.json.parse req.body)) _ rest in
      let (name, named, last) =
        >>=-returned (or_raise type_error (env.json.at p (codes "name"))) _ rest' in
      (t, read, cc last)

  -- A request that is answered pushes its task when it is a POST of one, and else does nothing.
  pub handle_request-cases :
      (root : Text) (req : Request) (s s' : SharedState queue) (res : Response)
      → handle_request env queue root req s ≡ returned (s', res)
      → ((is_task_post req ≡ false) × (s' ≡ s)) ⊎ ((is_task_post req ≡ true) × Pushes req s s')
  unfolding handle_request
  handle_request-cases root req s s' res e = elim (Bool-cases (verb_eq req.method other)) [
    | inl t ↦ inl (rw (other_not_post req.method t), cc (rw t at e))
    | inr known ↦ elim (Bool-cases (illegal_target req.target)) [
      | inl t ↦ inl (rw t (and_false (verb_eq req.method post)), cc (rw (known, t) at e))
      | inr legal ↦
          elim (Bool-cases (verb_eq req.method post && contains (codes "/api/tasks") req.target)) [
            | inl t ↦ inr (rw legal t, post_task-Pushes req s s' res (rw (known, legal, t) at e))
            | inr t ↦
                elim (Bool-cases
                  (verb_eq req.method get && contains (codes "/api/admin") req.target)) [
                    | inl u ↦ inl (rw legal t, cc (rw (known, legal, t, u) at e))
                    | inr u ↦ inl (rw legal t, cc (rw (known, legal, t, u) at e))
                  ]
          ]
    ]
  ]

  -- A request that is answered is for the task loop either no step, with the shared state as it
  -- was, or, when an I/O thread is free, the push of the task that its body is.
  pub handle_request-Step :
      (root : Text) (req : Request) (threads : ℕ) (s : System queue) (shared : SharedState queue)
      (res : Response)
      → held s.worker < threads
      → handle_request env queue root req s.shared ≡ returned (shared, res)
      → (shared ≡ s.shared)
        ⊎ ((t : Task env.time) × (task_of env.json req.body ≡ returned t)
            × Step queue env.json threads s (pushing queue t s)
            × (shared ≡ (pushing queue t s).shared))
  unfolding pushing
  handle_request-Step root req threads s shared res free e =
      elim (handle_request-cases root req s.shared shared res e) [
        | inl (pure, same) ↦ inl same
        | inr (api, (t, read, pushed)) ↦ inr (t, read, push t free, pushed)
      ]
