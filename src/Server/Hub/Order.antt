-- ===== src/Server/Hub/Order.antt =====
-- What each source has posted to a session that is alive, and what it has still to post.
pub mod Posts
use gss.Base.{
  ◌≡◌, refl, sym, ap, ◌∙◌, Bool, true, false, ◌&&◌, List, [], ◌∷◌, ◌++◌, append_assoc, append-nil,
  Option, none, some, ◌==◌, inl, inr, Bool-cases, ==_iff, subst, arith,
}
use gss.Base.Text.{Text}
use gss.Base.Try.{returned}
use gss.Containers.Queue.{Queue}
use gss.Server.Libraries.{PosixTime, JsonLibrary}
use gss.Server.Task.{Task}
use gss.Server.SharedState.{SessionId, member}
use gss.Server.SharedState.Sessions.Members.{Distinct}
use gss.Server.WebsocketSession.{
  ErrorCode, success, operation_aborted, closed, Action, async_read, broadcast, fail, is_error,
  WebsocketSession, on_accept, on_read, destroy,
}
use gss.Server.WebsocketSession.Writes.{naming}
use gss.Server.Hub.{
  Hub, Phase, Source, session, timer, same_source, Event, posted, Step, accepts, reads, posts,
  sends, wrote, times_out, drops, destroys, Reach, here, next, new_hub, perform, perform_all, post,
  tell, tell_to, handle_accept, handle_read, handle_send, handle_destroy, set_phase, set_link,
  accepting, idle, reading, dropped, destroyed, is_alive, posts_of, set_source,
}
use gss.Server.Hub.Log.{posts_to, said_to, from, for, when}
use gss.Server.Hub.Members.{HasMembers, Reach-Members}
use gss.Server.Hub.Handlers.{on_read-cases}
use gss.Server.Hub.Order.Posts.{
  same_source_sound, for-posts_of, InOrder, InOrder-posted, InOrder-lost,
}

module _ {time : PosixTime} (queue : Queue (Task time)) where
  abbrev pub AllInOrder : Hub queue → Type 0
  AllInOrder h =
      (src : Source) (y : SessionId)
      → is_alive (h.phase y) ≡ true
      → InOrder src y (h.outbox src) h.log

  set_phase-AllInOrder :
      (x : SessionId) (p : Phase) (h : Hub queue)
      → (is_alive p ≡ true → is_alive (h.phase x) ≡ true)
      → AllInOrder h
      → AllInOrder (set_phase queue x p h)
  set_phase-AllInOrder x p h was g src y alive = elim (Bool-cases (x == y)) [
    | inl e ↦
        let at : x ≡ y = (==_iff x y).0 e in
        let now : is_alive p ≡ true = rw e at alive in
        g src y (subst (λ z. is_alive (h.phase z) ≡ true) at (was now))
    | inr e ↦ g src y (rw e at alive)
  ]

  -- When nothing is left to be posted, what was posted is all.
  drained :
      (src : Source) (y : SessionId) (h : Hub queue)
      → h.outbox src ≡ []
      → InOrder src y (h.outbox src) h.log
      → from src (posts_to y h.log) ≡ said_to src y h.log
  drained src y h empty g =
      sym (append-nil _) ∙ ap (λ q. from src (posts_to y h.log) ++ for y q) (sym empty) ∙ g

  broadcast-AllInOrder :
      (x : SessionId) (m : Text) (h : Hub queue)
      → h.outbox (session x) ≡ []
      → HasMembers queue h
      → AllInOrder h
      → AllInOrder (perform queue x (broadcast m) h)
  unfolding perform
  broadcast-AllInOrder x m h none_left members g src y alive =
      elim (Bool-cases (same_source (session x) src)) [
        | inl e ↦
            let at : session x ≡ src = same_source_sound (session x) src e in
            let before =
              drained src y h (subst (λ z. h.outbox z ≡ []) at none_left) (g src y alive) in
            rw (e, for-posts_of y m h.shared.sessions members.once, members.same y, before) refl
        | inr e ↦ rw (e, append-nil) (g src y alive)
      ]

  tell_to-AllInOrder :
      (found : Option SessionId) (m : Text) (h : Hub queue)
      → h.outbox timer ≡ []
      → AllInOrder h
      → AllInOrder (tell_to queue found m h)
  unfolding tell_to
  tell_to-AllInOrder none m h none_left g src y alive = g src y alive
  tell_to-AllInOrder (some x) m h none_left g (session z) y alive =
      g (session z) y alive ∙ sym (append-nil _)
  tell_to-AllInOrder (some x) m h none_left g timer y alive =
      ap (λ q. q ++ (when (x == y) m ++ [])) (drained timer y h none_left (g timer y alive))
      ∙ ap (λ q. said_to timer y h.log ++ q) (append-nil _)

  post-AllInOrder :
      (src : Source) (x : SessionId) (m : Text) (rest : List (SessionId × Text)) (h : Hub queue)
      → h.outbox src ≡ (x, m) ∷ rest
      → AllInOrder h
      → AllInOrder (post queue src x m rest h)
  unfolding post
  post-AllInOrder src x m rest h front g s y alive = elim (Bool-cases (is_alive (h.phase x))) [
    | inl lives ↦
        rw lives (InOrder-posted src s x y m rest h.outbox h.log front (g s y (rw lives at alive)))
    | inr gone ↦
        let was : is_alive (h.phase y) ≡ true = rw gone at alive in
        let other : (x == y) ≡ false = ground (arith, ==_iff x y, ap (λ z. is_alive (h.phase z))) in
        rw gone (InOrder-lost src s x y m rest h.outbox h.log front other (g s y was))
  ]

  perform_all-fail :
      (x : SessionId) (ec : ErrorCode) (what : Text) (h : Hub queue)
      → perform_all queue x (fail ec what) h ≡ h
  unfolding perform_all fail
  perform_all-fail x success what h = refl
  perform_all-fail x operation_aborted what h = refl
  perform_all-fail x closed what h = refl
  perform_all-fail x (ErrorCode.failed message) what h = refl

  -- A handler has begun, and the session has not been dropped.
  begun-AllInOrder :
      (x : SessionId) (p : Phase) (h : Hub queue)
      → h.phase x ≡ p
      → is_alive p ≡ true
      → AllInOrder h
      → AllInOrder (set_phase queue x idle h)
  begun-AllInOrder x p h at lives g = set_phase-AllInOrder x idle h (λ _. ap is_alive at ∙ lives) g

  read_on-AllInOrder :
      (x : SessionId) (h : Hub queue)
      → h.phase x ≡ idle
      → AllInOrder h
      → AllInOrder (perform queue x async_read h)
  unfolding perform
  read_on-AllInOrder x h at g = set_phase-AllInOrder x reading h (λ _. ap is_alive at) g

  is_idle : (x : SessionId) (h : Hub queue) → (set_phase queue x idle h).phase x ≡ idle
  is_idle x h = let e : (x == x) ≡ true = ground arith in rw e

  accept-AllInOrder :
      (x : SessionId) (ec : ErrorCode) (h : Hub queue)
      → h.phase x ≡ accepting
      → AllInOrder h
      → AllInOrder (handle_accept queue x ec h)
  unfolding handle_accept on_accept
  accept-AllInOrder x ec h at g =
      let began = begun-AllInOrder x accepting h at refl g in
      elim (Bool-cases (is_error ec)) [
        | inl bad ↦ rw (bad, perform_all-fail) began
        | inr good ↦
            rw (good, perform_all)
              (read_on-AllInOrder x (perform queue x Action.join (set_phase queue x idle h))
                (is_idle x h) began)
      ]

  read-AllInOrder :
      (json : JsonLibrary) (x : SessionId) (ec : ErrorCode) (buffer : Text) (s : WebsocketSession)
      (actions : List Action) (h : Hub queue)
      → h.phase x ≡ reading
      → h.outbox (session x) ≡ []
      → on_read json ec buffer (h.links x).session ≡ returned (s, actions)
      → HasMembers queue h
      → AllInOrder h
      → AllInOrder (handle_read queue x s actions h)
  unfolding handle_read
  read-AllInOrder json x ec buffer s actions h at none_left read members g =
      let began = begun-AllInOrder x reading h at refl g in
      let h1 = set_link queue x (naming s (h.links x)) (set_phase queue x idle h) in
      elim ((on_read-cases json ec buffer (h.links x).session read).1) [
        | inl quiet ↦ rw (quiet, perform_all-fail) began
        | inr spoken ↦
            rw (spoken, perform_all)
              (read_on-AllInOrder x (perform queue x (broadcast buffer) h1) (is_idle x h)
                (broadcast-AllInOrder x buffer h1 none_left members began))
      ]

  leave-AllInOrder :
      (x : SessionId) (h : Hub queue) → AllInOrder h → AllInOrder (handle_destroy queue x h)
  unfolding handle_destroy destroy perform_all
  leave-AllInOrder x h g = set_phase-AllInOrder x destroyed h (λ e. cc e) g

  Step-AllInOrder :
      (json : JsonLibrary) (h : Hub queue) {g : Hub queue}
      → Step queue json h g
      → HasMembers queue h
      → AllInOrder h
      → AllInOrder g
  unfolding handle_send tell
  Step-AllInOrder json h (accepts x ec e) m g = accept-AllInOrder x ec h e g
  Step-AllInOrder json h (reads x ec buffer s actions e done read) m g =
      read-AllInOrder json x ec buffer s actions h e done read m g
  Step-AllInOrder json h (posts src y t rest e) m g = post-AllInOrder src y t rest h e g
  Step-AllInOrder json h (sends x t rest e own) m g = g
  Step-AllInOrder json h (wrote x t others e own) m g = g
  Step-AllInOrder json h (Step.failed x ec t others err e own) m g = g
  Step-AllInOrder json h (times_out t e) m g = tell_to-AllInOrder _ _ h e g
  Step-AllInOrder json h (drops x e empty flight quiet) m g =
      set_phase-AllInOrder x dropped h (λ e. cc e) g
  Step-AllInOrder json h (destroys x e) m g = leave-AllInOrder x h g

  pub Reach-AllInOrder :
      (json : JsonLibrary) {h g : Hub queue}
      → Reach queue json h g
      → HasMembers queue h
      → AllInOrder h
      → AllInOrder g
  Reach-AllInOrder json here m o = o
  Reach-AllInOrder json (next {m = k} r st) m o =
      Step-AllInOrder json k st (Reach-Members queue json r m) (Reach-AllInOrder json r m o)

  pub new_hub-AllInOrder : (root : Text) → AllInOrder (new_hub queue root)
  unfolding new_hub
  new_hub-AllInOrder root src y alive = refl
