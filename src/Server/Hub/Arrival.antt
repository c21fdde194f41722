-- ===== src/Server/Hub/Arrival.antt =====
-- What was posted to a websocket session: in its inbox, its queue, or written.
use gss.Base.{
  ◌≡◌, refl, sym, ap, ◌∙◌, List, [], ◌∷◌, ◌++◌, map, map-append, append_assoc, append-nil, Option,
  none, some, ◌==◌, inl, inr, Bool-cases, ==_iff, subst,
}
use gss.Base.Text.{Text}
use gss.Containers.Queue.{Queue}
use gss.Server.Libraries.{PosixTime, JsonLibrary}
use gss.Server.Task.{Task}
use gss.Server.SharedState.{SessionId}
use gss.Server.WebsocketSession.{
  Action, async_accept, async_read, async_write, broadcast, report, on_accept, destroy,
}
use gss.Server.WebsocketSession.Writes
use gss.Server.WebsocketSession.Writes.{Link, new_link, naming, sending, writing, failing}
use gss.Server.Hub.{
  Hub, Source, Step, accepts, reads, posts, sends, wrote, failed, times_out, drops, destroys, Reach,
  here, next, new_hub, perform, perform_all, post, tell, tell_to, handle_accept, handle_read,
  handle_send, handle_destroy, set_phase, set_link, idle, destroyed, is_alive,
}
use gss.Server.Hub.Log.{posts_to}
use gss.Server.Hub.Handlers.{on_read-cases}

abbrev pub texts : List (Source × Text) → List Text
texts ms = map (λ (src, m). m) ms

-- What one session, its link and its inbox, has got from the posts in the history.
pub record Got (l : Link) (inbox : List Text) (posts : List (Source × Text)) : Type 0 where
  pub link : Writes.Reach new_link l
  pub all : l.sent ++ inbox ≡ texts posts

Got-step :
    {l m : Link} {inbox : List Text} {ps : List (Source × Text)}
    → Writes.Step l m
    → m.sent ≡ l.sent
    → Got l inbox ps
    → Got m inbox ps
Got-step {l} {m} {inbox} st same g = record {
  link = Writes.next g.link st;
  all = ap (λ q. q ++ inbox) same ∙ g.all;
}

Got-send :
    {l : Link} {m : Text} {rest : List Text} {ps : List (Source × Text)}
    → Got l (m ∷ rest) ps
    → Got (sending m l) rest ps
unfolding sending
Got-send {l} {m} {rest} g = record {
  link = Writes.next g.link (Writes.send m);
  all = append_assoc l.sent (m ∷ []) rest ∙ g.all;
}

Got-post :
    {l : Link} {inbox : List Text} {ps : List (Source × Text)} (src : Source) (m : Text)
    → Got l inbox ps
    → Got l (inbox ++ m ∷ []) (ps ++ (src, m) ∷ [])
Got-post {l} {inbox} {ps} src m g = record {
  link = g.link;
  all =
      sym (append_assoc l.sent inbox (m ∷ []))
      ∙ ap (λ q. q ++ m ∷ []) g.all
      ∙ sym (map-append _ ps ((src, m) ∷ []));
}

module _ {time : PosixTime} (queue : Queue (Task time)) where
  abbrev pub AllGot : Hub queue → Type 0
  AllGot h = (y : SessionId) → Got (h.links y) (h.inbox y) (posts_to y h.log)

  perform-AllGot :
      (x : SessionId) (a : Action) (h : Hub queue) → AllGot h → AllGot (perform queue x a h)
  unfolding perform
  perform-AllGot x async_accept h g = g
  perform-AllGot x async_read h g = g
  perform-AllGot x Action.join h g = g
  perform-AllGot x Action.leave h g = g
  perform-AllGot x (broadcast t) h g = g
  perform-AllGot x (async_write t) h g = g
  perform-AllGot x (report what message) h g = g

  perform_all-AllGot :
      (x : SessionId) (actions : List Action) (h : Hub queue)
      → AllGot h
      → AllGot (perform_all queue x actions h)
  unfolding perform_all
  perform_all-AllGot x [] h g = g
  perform_all-AllGot x (a ∷ actions) h g =
      perform_all-AllGot x actions (perform queue x a h) (perform-AllGot x a h g)

  tell_to-AllGot :
      (found : Option SessionId) (t : Text) (h : Hub queue)
      → AllGot h
      → AllGot (tell_to queue found t h)
  unfolding tell_to
  tell_to-AllGot none t h g = g
  tell_to-AllGot (some y) t h g = g

  -- One session's link takes a step in which nothing is sent.
  set_link-AllGot :
      (x : SessionId) {l : Link} (h : Hub queue)
      → Writes.Step (h.links x) l
      → l.sent ≡ (h.links x).sent
      → AllGot h
      → AllGot (set_link queue x l h)
  set_link-AllGot x h st same g y = elim (Bool-cases (x == y)) [
    | inl e ↦ let at : y ≡ x = sym ((==_iff x y).0 e) in rw (e, at) (Got-step st same (g x))
    | inr e ↦ rw e (g y)
  ]

  handle_send-AllGot :
      (x : SessionId) (m : Text) (rest : List Text) (h : Hub queue)
      → h.inbox x ≡ m ∷ rest
      → AllGot h
      → AllGot (handle_send queue x m rest h)
  unfolding handle_send
  handle_send-AllGot x m rest h front g y = elim (Bool-cases (x == y)) [
    | inl e ↦
        let at : y ≡ x = sym ((==_iff x y).0 e) in
        rw (e, at) (Got-send (subst (λ q. Got (h.links x) q (posts_to x h.log)) front (g x)))
    | inr e ↦ rw e (g y)
  ]

  post-AllGot :
      (src : Source) (x : SessionId) (m : Text) (rest : List (SessionId × Text)) (h : Hub queue)
      → AllGot h
      → AllGot (post queue src x m rest h)
  unfolding post
  post-AllGot src x m rest h g y = elim (Bool-cases (is_alive (h.phase x))) [
    | inl alive ↦ elim (Bool-cases (x == y)) [
      | inl e ↦
          let at : y ≡ x = sym ((==_iff x y).0 e) in
          rw (alive, e)
            (subst (λ z. Got (h.links z) (h.inbox x ++ m ∷ []) (posts_to z h.log ++ (src, m) ∷ []))
              (sym at) (Got-post src m (g x)))
      | inr e ↦ rw (alive, e, append-nil) (g y)
    ]
    | inr gone ↦ rw gone (g y)
  ]

  pub Step-AllGot :
      (json : JsonLibrary) (h : Hub queue) {g : Hub queue}
      → Step queue json h g
      → AllGot h
      → AllGot g
  unfolding handle_accept handle_read handle_destroy tell naming writing failing
  Step-AllGot json h (accepts x ec e) g =
      perform_all-AllGot x (on_accept ec) (set_phase queue x idle h) g
  Step-AllGot json h (reads x ec buffer s actions e done read) g = perform_all-AllGot x actions _ (
      set_link-AllGot x (set_phase queue x idle h)
        (Writes.named s (on_read-cases json ec buffer (h.links x).session read).0) refl g)
  Step-AllGot json h (posts src y t rest e) g = post-AllGot src y t rest h g
  Step-AllGot json h (sends x t rest e own) g = handle_send-AllGot x t rest h e g
  Step-AllGot json h (wrote x t others e own) g =
      set_link-AllGot x h (Writes.wrote t others e) refl g
  Step-AllGot json h (failed x ec t others err e own) g =
      set_link-AllGot x h (Writes.failed ec t others err e) refl g
  Step-AllGot json h (times_out t e) g = tell_to-AllGot _ _ h g
  Step-AllGot json h (drops x e empty flight quiet) g = g
  Step-AllGot json h (destroys x e) g =
      perform_all-AllGot x destroy (set_phase queue x destroyed h) g

  pub Reach-AllGot :
      (json : JsonLibrary) {h g : Hub queue} → Reach queue json h g → AllGot h → AllGot g
  Reach-AllGot json here all = all
  Reach-AllGot json (next {m = k} r st) all = Step-AllGot json k st (Reach-AllGot json r all)

  pub new_hub-AllGot : (root : Text) → AllGot (new_hub queue root)
  unfolding new_hub new_link
  new_hub-AllGot root y = record { link = Writes.here; all = refl }
