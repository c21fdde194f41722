-- ===== src/Server/HttpSession/Handler.antt =====
-- `handle_request` of src/gss-server/http_session.cpp.
use gss.Base.{
  ℕ, Bool, true, false, not, ◌&&◌, ◌||◌, [], ◌∷◌, ◌++◌, map, Option, none, some, ◌==◌,
  if◌then◌else◌,
}
use gss.Base.Text.{Text, codes, contains}
use gss.Base.Try.{Try, returned, or_raise, parse_error, type_error, ◌>>=◌}
use gss.Containers.Queue.{Queue}
use gss.Server.Libraries.{PosixTime, JsonLibrary}
use gss.Server.Task.{Task, serialize}
use gss.Server.Task.Json.{task_of}
use gss.Server.SharedState.{SharedState, push_task, tasks, current}
use gss.Server.HttpSession.Names.{Comparison, mime_type, file_path}

pub data Verb : Type 0 where
  get head post other : Verb

abbrev pub verb_eq : Verb → Verb → Bool
verb_eq get get = true
verb_eq head head = true
verb_eq post post = true
verb_eq other other = true
verb_eq _ _ = false

pub record Request : Type 0 where
  pub method : Verb
  pub target : Text
  pub version : ℕ
  pub keep_alive : Bool
  pub body : Text

-- `string_body`, `empty_body`, and `file_body` by the path of its file.
pub data Body : Type 0 where
  text : Text → Body
  no_body : Body
  file : Text → Body

-- `length` is what `content_length` was given, and nothing where `prepare_payload` sets it.
pub record Response : Type 0 where
  pub status : ℕ
  pub version : ℕ
  pub server : Text
  pub content_type : Text
  pub allow_origin : Option Text
  pub keep_alive : Bool
  pub body : Body
  pub length : Option ℕ

-- `body.open(path, ..., ec)`: the size of the file, or the error.
pub data Opened : Type 0 where
  opened : ℕ → Opened
  no_such_file : Opened
  failed : Text → Opened

-- The libraries, and the file system at the time of the request.
pub record Environment : Type 1 where
  pub time : PosixTime
  pub json : JsonLibrary
  pub comparison : Comparison
  pub server_name : Text
  pub open_file : Text → Opened

-- `req.target().empty() || req.target()[0] != '/' || req.target().find("..") != npos`
unfoldable pub illegal_target : Text → Bool
illegal_target [] = true
illegal_target (c ∷ rest) = not (c == b'/') || contains (codes "..") (c ∷ rest)

module _ (env : Environment) where
  open env use {time, json, comparison, server_name, open_file}

  unfoldable pub text_response : ℕ → Text → Option Text → Text → Request → Response
  text_response status content_type allow_origin body req = record {
    status = status;
    version = req.version;
    server = server_name;
    content_type = content_type;
    allow_origin = allow_origin;
    keep_alive = req.keep_alive;
    body = text body;
    length = none;
  }

  unfoldable pub bad_request : Text → Request → Response
  unfolding text_response
  bad_request why = text_response 400 (codes "text/html") none why

  unfoldable pub not_found : Text → Request → Response
  unfolding text_response
  not_found target =
      text_response 404 (codes "text/html") none
        (codes "The resource '" ++ (target ++ codes "' was not found."))

  unfoldable pub server_error : Text → Request → Response
  unfolding text_response
  server_error what =
      text_response 500 (codes "text/html") none
        (codes "An error occurred: '" ++ (what ++ codes "'"))

  unfoldable pub json_response : json.Json → Request → Response
  unfolding text_response
  json_response body =
      text_response 200 (codes "application/json") (some (codes "*")) (json.dump body)

  -- The answer to HEAD and GET for a file that was opened.
  unfoldable pub file_response : Text → ℕ → Request → Response
  file_response path size req = record {
    status = 200;
    version = req.version;
    server = server_name;
    content_type = mime_type comparison path;
    allow_origin = none;
    keep_alive = req.keep_alive;
    body = if verb_eq req.method head then no_body else file path;
    length = some size;
  }

  unfoldable pub serve_file : Text → Request → Response
  unfolding file_response not_found server_error
  serve_file doc_root req = elim (open_file (file_path doc_root req.target)) [
    | opened size ↦ file_response (file_path doc_root req.target) size req
    | no_such_file ↦ not_found req.target req
    | failed message ↦ server_error message req
  ]

  module _ (queue : Queue (Task time)) where
    -- `{{"processing", ...}, {"pending", tasks}}`
    unfoldable pub admin_body : SharedState queue → json.Json
    admin_body state = json.object (
        (
          codes "processing",
          elim (current queue state) [ none ↦ json.null | some t ↦ serialize json t ],
        )
        ∷ (codes "pending", json.array (map (serialize json) (tasks queue state)))
        ∷ [])

    unfoldable pub post_task : Request → SharedState queue → Try (SharedState queue × Response)
    unfolding json_response
    post_task req state = do
      t ← task_of {time = time} json req.body
      p ← or_raise parse_error (json.parse req.body)
      name ← or_raise type_error (json.at p (codes "name"))
      returned
          (push_task queue t state, json_response (json.object ((codes "name", name) ∷ [])) req)

    unfoldable pub handle_request :
        Text → Request → SharedState queue → Try (SharedState queue × Response)
    unfolding bad_request illegal_target post_task admin_body json_response serve_file
    handle_request doc_root req state =
        if verb_eq req.method other
        then returned (state, bad_request (codes "Unknown HTTP-method") req)
        else if illegal_target req.target
        then returned (state, bad_request (codes "Illegal request-target") req)
        else if verb_eq req.method post && contains (codes "/api/tasks") req.target
        then post_task req state
        else if verb_eq req.method get && contains (codes "/api/admin") req.target
        then returned (state, json_response (admin_body state) req)
        else returned (state, serve_file doc_root req)
