-- ===== src/Server/Hub/Members.antt =====
-- Who is in `sessions_` of shared_state.cpp, by the history.
use gss.Base.{◌≡◌, refl, ◌||◌, ◌&&◌, not, List, [], ◌∷◌, ◌==◌, arith, ap, ◌∙◌, Option, some, none}
use gss.Base.Text.{Text}
use gss.Containers.Queue.{Queue}
use gss.Server.Libraries.{PosixTime, JsonLibrary}
use gss.Server.Task.{Task}
use gss.Server.SharedState.{SessionId, member, join, leave}
use gss.Server.SharedState.Sessions.Members.{
  member-emplace, member-erase, Distinct, emplace-Distinct, erase-Distinct,
}
use gss.Server.WebsocketSession.{
  Action, async_accept, async_read, async_write, broadcast, report, on_accept, destroy,
}
use gss.Server.Hub.{
  Hub, Event, destroyed, Step, accepts, reads, posts, sends, wrote, failed, times_out, drops,
  destroys, Reach, here, next, new_hub, perform, perform_all, post, tell, tell_to, handle_accept,
  handle_read, handle_send, handle_destroy, set_phase,
}
use gss.Server.Hub.Log.{is_member}

pub record Members (sessions : List SessionId) (log : List Event) : Type 0 where
  pub same : (y : SessionId) → member y sessions ≡ is_member y log
  pub once : Distinct sessions

module _ {time : PosixTime} (queue : Queue (Task time)) where
  abbrev pub HasMembers : Hub queue → Type 0
  HasMembers h = Members h.shared.sessions h.log

  perform-Members :
      (x : SessionId) (a : Action) (h : Hub queue) → HasMembers h → HasMembers (perform queue x a h)
  unfolding perform join leave
  perform-Members x async_accept h m = m
  perform-Members x async_read h m = m
  perform-Members x Action.join h m = record {
    same = λ y. member-emplace x y h.shared.sessions ∙ ap (λ b. (x == y) || b) (m.same y);
    once = emplace-Distinct x h.shared.sessions m.once;
  }
  perform-Members x Action.leave h m = record {
    same = λ y. member-erase x y h.shared.sessions ∙ ap (λ b. not (x == y) && b) (m.same y);
    once = erase-Distinct x h.shared.sessions m.once;
  }
  perform-Members x (broadcast t) h m = record { same = m.same; once = m.once }
  perform-Members x (async_write t) h m = m
  perform-Members x (report what message) h m = m

  perform_all-Members :
      (x : SessionId) (actions : List Action) (h : Hub queue)
      → HasMembers h
      → HasMembers (perform_all queue x actions h)
  unfolding perform_all
  perform_all-Members x [] h m = m
  perform_all-Members x (a ∷ actions) h m =
      perform_all-Members x actions (perform queue x a h) (perform-Members x a h m)

  tell_to-Members :
      (found : Option SessionId) (t : Text) (h : Hub queue)
      → HasMembers h
      → HasMembers (tell_to queue found t h)
  unfolding tell_to
  tell_to-Members none t h m = m
  tell_to-Members (some y) t h m = record { same = m.same; once = m.once }

  pub Step-Members :
      (json : JsonLibrary) (h : Hub queue) {g : Hub queue}
      → Step queue json h g
      → HasMembers h
      → HasMembers g
  unfolding handle_accept handle_read handle_send handle_destroy post tell
  Step-Members json h (accepts x ec e) m = perform_all-Members x (on_accept ec) _ m
  Step-Members json h (reads x ec buffer s actions e done read) m =
      perform_all-Members x actions _ m
  Step-Members json h (posts src y t rest e) m = ground arith
  Step-Members json h (sends x t rest e own) m = m
  Step-Members json h (wrote x t others e own) m = m
  Step-Members json h (failed x ec t others err e own) m = m
  Step-Members json h (times_out t e) m = tell_to-Members _ _ h m
  Step-Members json h (drops x e empty flight quiet) m = m
  Step-Members json h (destroys x e) m =
      perform_all-Members x destroy (set_phase queue x destroyed h) m

  pub Reach-Members :
      (json : JsonLibrary) {h g : Hub queue} → Reach queue json h g → HasMembers h → HasMembers g
  Reach-Members json here m = m
  Reach-Members json (next {m = k} r st) m = Step-Members json k st (Reach-Members json r m)

  pub new_hub-Members : (root : Text) → HasMembers (new_hub queue root)
  unfolding new_hub member
  new_hub-Members root = record { same = λ y. refl; once = tt }
