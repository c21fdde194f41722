-- ===== src/Server/HttpSession/Requests.antt =====
-- What `handle_request` answers, and what it does to the shared state.
pub mod Admin
pub mod Effect
pub mod Echoes
pub mod Refused
use gss.Base.{
  ℕ, ◌%◌, ◌^◌, ◌<◌, ◌≡◌, ◌≢◌, refl, inl, inr, true, false, ◌&&◌, [], ◌∷◌, ◌++◌, some, ap, ◌∙◌,
  Bool-cases,
}
use gss.Base.Int.{pos}
use gss.Base.Text.{Text, codes, contains}
use gss.Base.Try.{returned}
use gss.Containers.Queue.{Queue}
use gss.Server.Task.{Task, new_task, serialize}
use gss.Server.Task.Json.{task_of, task_of-serialize, at-serialize}
use gss.Server.SharedState.{SharedState, push_task, tasks}
use gss.Server.Scheduler.Tasks.{tasks-push_task}
use gss.Server.HttpSession.Names.{file_path}
use gss.Server.HttpSession.Handler.{
  get, post, other, verb_eq, Request, Response, file, Opened, opened, no_such_file, failed,
  Environment, json_response, serve_file, file_response, not_found, server_error, illegal_target,
  post_task, handle_request,
}

module _ (env : Environment) (queue : Queue (Task env.time)) where
  -- `post_task` keeps the version and the keep-alive of the request.
  abbrev pub Echoes : Request → Response → Type 0
  Echoes req res =
      (res.version ≡ req.version)
      × (res.keep_alive ≡ req.keep_alive)
      × (res.server ≡ env.server_name)

  file_response-Echoes :
      (root : Text) (req : Request) (o : Opened)
      → Echoes req (elim o [
        | opened size ↦ file_response env (file_path root req.target) size req
        | no_such_file ↦ not_found env req.target req
        | failed message ↦ server_error env message req
      ])
  unfolding file_response not_found server_error
  file_response-Echoes root req (opened size) = (refl, refl, refl)
  file_response-Echoes root req no_such_file = (refl, refl, refl)
  file_response-Echoes root req (failed message) = (refl, refl, refl)

  pub serve_file-Echoes : (root : Text) (req : Request) → Echoes req (serve_file env root req)
  unfolding serve_file
  serve_file-Echoes root req =
      file_response-Echoes root req (env.open_file (file_path root req.target))

  -- A request that is not a POST throws nothing and leaves the shared state as it is, and on every
  -- branch the answer has the version and the keep-alive of the request and the name of the
  -- server.
  pub handle_request-pure :
      (root : Text) (req : Request) (s : SharedState queue)
      → verb_eq req.method post ≡ false
      → (res : Response) × (handle_request env queue root req s ≡ returned (s, res))
        × Echoes req res
  unfolding handle_request
  handle_request-pure root req s not_post = elim (Bool-cases (verb_eq req.method other)) [
    | inl t ↦ rw t (_, refl, (refl, refl, refl))
    | inr known ↦ elim (Bool-cases (illegal_target req.target)) [
      | inl t ↦ rw (known, t) (_, refl, (refl, refl, refl))
      | inr legal ↦
          elim (Bool-cases (verb_eq req.method get && contains (codes "/api/admin") req.target)) [
            | inl t ↦ rw (known, legal, not_post, t) (_, refl, (refl, refl, refl))
            | inr t ↦
                rw (known, legal, not_post, t)
                  (serve_file env root req, refl, serve_file-Echoes root req)
          ]
    ]
  ]

  pub post_task-returned :
      (req : Request) (s : SharedState queue) (t : Task env.time) (p name : env.json.Json)
      → task_of env.json req.body ≡ returned t
      → env.json.parse req.body ≡ some p
      → env.json.at p (codes "name") ≡ some name
      → post_task env queue req s
        ≡ returned (
          push_task queue t s,
          json_response env (env.json.object ((codes "name", name) ∷ [])) req,
        )
  unfolding post_task
  post_task-returned req s t p name read parsed named = rw (read, parsed, named)

  -- A POST to a legal target with "/api/tasks" in it, whose body is the JSON of a task of `n`
  -- minutes, with `n` below 2^31 and all texts in UTF-8, pushes that task with the minutes of `n`
  -- past the full hour, behind the tasks that wait, and answers 200.
  pub handle_request-post :
      (root : Text) (req : Request) (s : SharedState queue) (name desc : Text) (n : ℕ)
      → req.method ≡ post
      → illegal_target req.target ≡ false
      → contains (codes "/api/tasks") req.target ≡ true
      → n < 2 ^ 31
      → env.json.IsUtf8 (serialize env.json (new_task {time = env.time} name desc (pos n)))
      → req.body ≡ env.json.dump (serialize env.json (new_task {time = env.time} name desc (pos n)))
      → (s' : SharedState queue) × (res : Response) × (handle_request env queue root req s
          ≡ returned (s', res))
        × (tasks queue s' ≡ tasks queue s ++ new_task name desc (pos (n % 60)) ∷ [])
        × (res.status ≡ 200)
  unfolding handle_request new_task
  handle_request-post root req s name desc n is_post legal api fits utf8 body =
      let json = env.json in
      let sent = serialize json (new_task {time = env.time} name desc (pos n)) in
      let parsed : json.parse req.body ≡ some sent =
        ap json.parse body ∙ json.parse-dump sent utf8 in
      let read =
        ap (task_of {time = env.time} json) body
        ∙ task_of-serialize env.time json name desc n fits utf8 in
      let known : verb_eq req.method other ≡ false = ap (λ m. verb_eq m other) is_post in
      let posted : verb_eq req.method post ≡ true = ap (λ m. verb_eq m post) is_post in
      (
        push_task queue (new_task name desc (pos (n % 60))) s,
        json_response env (json.object ((codes "name", json.string name) ∷ [])) req,
        rw (known, legal, posted, api)
            (post_task-returned req s _ sent (json.string name) read parsed
              (at-serialize json (new_task {time = env.time} name desc (pos n)))),
        tasks-push_task _ s,
        refl,
      )
