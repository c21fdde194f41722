-- ===== src/Server/Main/Escape/Posts.antt =====
-- Which POST requests end the server.
use gss.Base.{ℕ, ◌≡◌, ap, ◌⊎◌, inl, inr, true, false, [], ◌∷◌, some}
use gss.Base.Text.{Text, codes, contains}
use gss.Base.Try.{
  returned, raised, Exception, or_raise, parse_error, type_error, >>=-returned, Try-cases,
  or_raise-returned,
}
use gss.Containers.Queue.{Queue}
use gss.Server.Libraries.{PosixTime, JsonLibrary}
use gss.Server.Task.{Task}
use gss.Server.Task.Json.{task_of, string_member}
use gss.Server.SharedState.{SharedState, push_task}
use gss.Server.HttpSession.Handler.{
  Request, Response, post, other, verb_eq, Environment, illegal_target, post_task, handle_request,
  json_response,
}
use gss.Server.HttpSession.Requests.{post_task-returned}
use gss.Server.HttpSession.Connection
use gss.Server.HttpSession.Connection.{Action, async_write}
use gss.Server.Main.Escape.{IoThread, goes_on, ended, escape, run_handler}

-- A body that is a task is JSON with a name.
pub task_of-named :
    {time : PosixTime} (json : JsonLibrary) (body : Text) (t : Task time)
    → task_of json body ≡ returned t
    → (p : json.Json) × (name : json.Json) × (json.parse body ≡ some p)
      × (json.at p (codes "name") ≡ some name)
unfolding task_of string_member
task_of-named json body t e =
    let (p, parsed, rest) = >>=-returned (or_raise parse_error (json.parse body)) _ e in
    let (name, read, _) = >>=-returned (string_member json p (codes "name")) _ rest in
    let (member, found, _) = >>=-returned (or_raise type_error (json.at p (codes "name"))) _ read in
    (p, member, or_raise-returned _ _ parsed, or_raise-returned _ _ found)

module _ (env : Environment) (queue : Queue (Task env.time)) where
  post_task-raised :
      (req : Request) (s : SharedState queue) (x : Exception)
      → task_of {time = env.time} env.json req.body ≡ raised x
      → post_task env queue req s ≡ raised x
  unfolding post_task
  post_task-raised req s x e = rw e

  -- A POST that is read without an error, is no upgrade, and has a legal target with "/api/tasks"
  -- in it: if its body is a task, the task is pushed and the write of one answer is started; if it
  -- is not, the exception ends the server, whichever I/O thread the handler runs on.
  pub on_read-ends_or_pushes :
      (req : Request) (s : SharedState queue) (started : ℕ) (thread : IoThread)
      → req.method ≡ post
      → illegal_target req.target ≡ false
      → contains (codes "/api/tasks") req.target ≡ true
      → ((x : Exception) × (task_of {time = env.time} env.json req.body ≡ raised x)
          × (run_handler started thread
                (Connection.on_read env queue Connection.success false req s)
              ≡ ended (escape started thread x)))
        ⊎ ((t : Task env.time) × (res : Response) × (task_of env.json req.body ≡ returned t)
            × (run_handler started thread
                  (Connection.on_read env queue Connection.success false req s)
                ≡ goes_on (push_task queue t s, async_write res ∷ [])))
  unfolding Connection.on_read handle_request run_handler
  on_read-ends_or_pushes req s started thread is_post legal api =
      let known : verb_eq req.method other ≡ false = ap (λ m. verb_eq m other) is_post in
      let posted : verb_eq req.method post ≡ true = ap (λ m. verb_eq m post) is_post in
      elim (Try-cases (task_of {time = env.time} env.json req.body)) [
        | inl (x, e) ↦ inl (x, e, rw (known, legal, posted, api, post_task-raised req s x e))
        | inr (t, e) ↦
            let (p, name, parsed, named) = task_of-named env.json req.body t e in
            inr (
              t,
              json_response env (env.json.object ((codes "name", name) ∷ [])) req,
              e,
              rw (
                known,
                legal,
                posted,
                api,
                post_task-returned env queue req s t p name e parsed named,
              ),
            )
      ]
