-- ===== src/Server/SharedState/Notices.antt =====
-- What the browser of an assignee gets when the timer of a task runs out.
use gss.Base.{◌≡◌, refl, ap, ◌∙◌, sym, true, false, List, [], ◌∷◌, map, some, Bool}
use gss.Base.Text.{Text, codes, text_eq}
use gss.Containers.Queue.{Queue}
use gss.Server.Libraries.{PosixTime, JsonLibrary}
use gss.Server.Task.{Task, serialize}
use gss.Server.SharedState.{SessionId, new_state, send_to, update_message, timer_sends}
use gss.Server.SharedState.Sessions.{Visit, joined, visits, send_to_unique}

-- The message is the JSON of the task with the type "update".
pub record IsUpdate {time : PosixTime} (json : JsonLibrary) (t : Task time) (message : Text)
    : Type 0 where
  pub value : json.Json
  pub parsed : json.parse message ≡ some value
  pub type : json.at value (codes "type") ≡ some (json.string (codes "update"))
  pub name : json.at value (codes "name") ≡ some (json.string t.assignee)
  pub description : json.at value (codes "description") ≡ some (json.string t.desc)
  pub duration : json.at value (codes "duration") ≡ some (json.number (time.minutes t.duration))

-- The JSON of the task with its type.
abbrev pub typed : {time : PosixTime} (json : JsonLibrary) → Task time → json.Json
typed json t = json.put (serialize json t) (codes "type") (json.string (codes "update"))

update_message-IsUpdate :
    {time : PosixTime} (json : JsonLibrary) (t : Task time)
    → json.IsUtf8 (typed json t)
    → IsUpdate json t (update_message json t)
unfolding update_message serialize text_eq
update_message-IsUpdate json t utf8 = record {
  value = typed json t;
  parsed = json.parse-dump _ utf8;
  type = json.at-put _ _ _;
  name = json.at-put_other _ _ _ _ refl;
  description = json.at-put_other _ _ _ _ refl;
  duration = json.at-put_other _ _ _ _ refl;
}

-- After any joins and leaves, if one session alone has the assignee's name among those that joined
-- and have not left since, and it is alive, then the timer posts one message, to that session. If
-- the texts of the task are UTF-8, it is JSON with the type "update" and the members of the task.
pub timer_sends-IsUpdate :
    {time : PosixTime} (queue : Queue (Task time)) (root : Text) (vs : List Visit)
    (alive : SessionId → Bool) (json : JsonLibrary) (uid : SessionId → Text) (x : SessionId)
    (t : Task time)
    → uid x ≡ t.assignee
    → joined x vs false ≡ true
    → alive x ≡ true
    → ((y : SessionId) → joined y vs false ≡ true → uid y ≡ uid x → y ≡ x)
    → json.IsUtf8 (typed json t)
    → (timer_sends queue json alive uid t (visits queue vs (new_state queue root))
        ≡ (x, update_message json t) ∷ [])
      × IsUpdate json t (update_message json t)
unfolding timer_sends
timer_sends-IsUpdate queue root vs alive json uid x t named here lives only utf8 =
    let to = send_to_unique queue root vs alive uid x here lives only in
    (
      ap
            (λ id.
              map (λ x. (x, update_message json t))
                (send_to queue alive uid id (visits queue vs (new_state queue root))))
            (sym named)
          ∙ ap (map λ x. (x, update_message json t)) to,
      update_message-IsUpdate json t utf8,
    )
