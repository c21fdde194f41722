-- ===== src/Server/HttpSession/Requests/Echoes.antt =====
-- What the answers of http_session.cpp have of their request.
use gss.Base.{◌≡◌, refl, inl, inr, ◌&&◌, Bool-cases, subst}
use gss.Base.Text.{Text, codes, contains}
use gss.Base.Try.{Try, returned, or_raise, parse_error, type_error, >>=-returned}
use gss.Containers.Queue.{Queue}
use gss.Server.Task.{Task}
use gss.Server.Task.Json.{task_of}
use gss.Server.SharedState.{SharedState}
use gss.Server.HttpSession.Handler.{
  Request, Response, get, other, post, verb_eq, Environment, illegal_target, post_task,
  handle_request,
}
use gss.Server.HttpSession.Requests.{Echoes, serve_file-Echoes}

module _ (env : Environment) (queue : Queue (Task env.time)) where
  answer_of :
      {s s' : SharedState queue} {res res' : Response}
      → ◌≡◌ {A = Try (SharedState queue × Response)} (returned (s, res)) (returned (s', res'))
      → res ≡ res'
  answer_of e = cc e

  post_task-Echoes :
      (req : Request) (s s' : SharedState queue) (res : Response)
      → post_task env queue req s ≡ returned (s', res)
      → Echoes env queue req res
  unfolding post_task
  post_task-Echoes req s s' res e =
      let (t, read, rest) = >>=-returned (task_of {time = env.time} env.json req.body) _ e in
      let (p, parsed, rest') =
        >>=-returned (or_raise parse_error (env.json.parse req.body)) _ rest in
      let (name, named, last) =
        >>=-returned (or_raise type_error (env.json.at p (codes "name"))) _ rest' in
      subst (Echoes env queue req) (answer_of last) (refl, refl, refl)

  -- Every answer, a POST's too, has the version and the keep-alive of its request and the name of
  -- the server.
  pub handle_request-Echoes :
      (root : Text) (req : Request) (s s' : SharedState queue) (res : Response)
      → handle_request env queue root req s ≡ returned (s', res)
      → Echoes env queue req res
  unfolding handle_request
  handle_request-Echoes root req s s' res e = elim (Bool-cases (verb_eq req.method other)) [
    | inl t ↦ subst (Echoes env queue req) (answer_of (rw t at e)) (refl, refl, refl)
    | inr known ↦ elim (Bool-cases (illegal_target req.target)) [
      | inl t ↦ subst (Echoes env queue req) (answer_of (rw (known, t) at e)) (refl, refl, refl)
      | inr legal ↦
          elim (Bool-cases (verb_eq req.method post && contains (codes "/api/tasks") req.target)) [
            | inl t ↦ post_task-Echoes req s s' res (rw (known, legal, t) at e)
            | inr t ↦
                elim (Bool-cases
                  (verb_eq req.method get && contains (codes "/api/admin") req.target)) [
                    | inl u ↦
                        subst (Echoes env queue req) (answer_of (rw (known, legal, t, u) at e))
                          (refl, refl, refl)
                    | inr u ↦
                        subst (Echoes env queue req) (answer_of (rw (known, legal, t, u) at e))
                          (serve_file-Echoes env queue root req)
                  ]
          ]
    ]
  ]
