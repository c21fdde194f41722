-- ===== src/Server/HttpSession/Requests/Admin.antt =====
-- What a GET of /api/admin is answered in http_session.cpp.
use gss.Base.{◌≡◌, refl, ap, ◌∙◌, true, false, map, Option, none, some}
use gss.Base.Text.{Text, codes, contains, text_eq}
use gss.Base.Try.{returned}
use gss.Containers.Queue.{Queue}
use gss.Server.Task.{Task, serialize}
use gss.Server.SharedState.{SharedState, tasks, current}
use gss.Server.HttpSession.Handler.{
  Request, Response, text, get, other, post, verb_eq, Environment, json_response, admin_body,
  illegal_target, handle_request,
}

module _ (env : Environment) (queue : Queue (Task env.time)) where
  -- The JSON of the task in process, or null.
  abbrev pub processing : Option (Task env.time) → env.json.Json
  processing none = env.json.null
  processing (some t) = serialize env.json t

  -- The text is the JSON of an object with the task in process and the tasks that wait.
  pub record Reports (s : SharedState queue) (body : Text) : Type 0 where
    pub value : env.json.Json
    pub parsed : env.json.parse body ≡ some value
    pub now : env.json.at value (codes "processing") ≡ some (processing (current queue s))
    pub pending :
        env.json.at value (codes "pending")
        ≡ some (env.json.array (map (serialize env.json) (tasks queue s)))

  admin_body-Reports :
      (s : SharedState queue)
      → env.json.IsUtf8 (admin_body env queue s)
      → Reports s (env.json.dump (admin_body env queue s))
  unfolding admin_body text_eq
  admin_body-Reports s utf8 = record {
    value = admin_body env queue s;
    parsed = env.json.parse-dump _ utf8;
    now = env.json.at-object _ _ ∙ ap some (of_current (current queue s));
    pending = env.json.at-object _ _;
  }
    where
      of_current :
          (c : Option (Task env.time))
          → (elim c [ none ↦ env.json.null | some t ↦ serialize env.json t ]) ≡ processing c
      of_current none = refl
      of_current (some t) = refl

  -- A GET of a legal target with "/api/admin" in it, when all texts of the tasks are UTF-8, leaves
  -- the shared state as it is and is answered by 200 and a JSON object with the current task, or
  -- null, and all tasks that wait, in their order.
  pub handle_request-Reports :
      (root : Text) (req : Request) (s : SharedState queue)
      → req.method ≡ get
      → illegal_target req.target ≡ false
      → contains (codes "/api/admin") req.target ≡ true
      → env.json.IsUtf8 (admin_body env queue s)
      → (res : Response) × (body : Text) × (handle_request env queue root req s ≡ returned (s, res))
        × (res.status ≡ 200)
        × (res.body ≡ text body)
        × Reports s body
  unfolding handle_request
  handle_request-Reports root req s is_get legal api utf8 =
      let known : verb_eq req.method other ≡ false = ap (λ m. verb_eq m other) is_get in
      let not_post : verb_eq req.method post ≡ false = ap (λ m. verb_eq m post) is_get in
      let asked : verb_eq req.method get ≡ true = ap (λ m. verb_eq m get) is_get in
      (
        json_response env (admin_body env queue s) req,
        env.json.dump (admin_body env queue s),
        rw (known, legal, not_post, asked, api) refl,
        refl,
        refl,
        admin_body-Reports s utf8,
      )
