-- ===== src/Server/Whole/Known.antt =====
-- Which websocket sessions the whole server has: those that its HTTP sessions made.
use gss.Base.{
  ℕ, ◌≡◌, ◌≢◌, refl, sym, ◌∙◌, ◌⊎◌, Bool, true, false, Bool-cases, inl, inr, List, [], ◌∷◌, Option,
  none, some, ◌==◌, subst, ==_iff,
}
use gss.Base.Text.{Text}
use gss.Containers.Queue.{Queue}
use gss.Server.Libraries.{PosixTime, JsonLibrary}
use gss.Server.Task.{Task}
use gss.Server.SharedState.{SessionId, member, join, leave}
use gss.Server.SharedState.Sessions.Members.{member-emplace, member-erase}
use gss.Server.Scheduler.{Worker}
use gss.Server.WebsocketSession.{
  Action, async_accept, async_read, async_write, broadcast, report, on_accept, destroy,
}
use gss.Server.HttpSession.Handler.{Environment}
use gss.Server.Hub.{
  Hub, Phase, Step, accepting, idle, dropped, destroyed, accepts, reads, posts, sends, wrote,
  failed, times_out, drops, destroys, is_alive, post, tell, tell_to, perform, perform_all,
  handle_accept, handle_read, handle_send, handle_destroy, set_phase, Source,
}
use gss.Server.Whole.Steps.{Runs}

-- A session that no upgrade has made has not been accepted, and is not in the set.
abbrev pub Known : List SessionId → (SessionId → Phase) → List SessionId → Type 0
Known upgraded phase sessions =
    (y : SessionId)
    → ((phase y ≡ accepting) × (member y sessions ≡ false)) ⊎ (member y upgraded ≡ true)

pub made :
    (upgraded sessions : List SessionId) (phase : SessionId → Phase) (x : SessionId) {p : Phase}
    → Known upgraded phase sessions
    → phase x ≡ p
    → p ≢ accepting
    → member x upgraded ≡ true
made upgraded sessions phase x known at other = elim (known x) [
  | inl (new, outside) ↦ absurd (other (sym at ∙ new))
  | inr old ↦ old
]

module _ {time : PosixTime} (queue : Queue (Task time)) where
  abbrev pub HasKnown : List SessionId → Hub queue → Type 0
  HasKnown upgraded h = Known upgraded h.phase h.shared.sessions

  -- The phase and the membership of a session.
  abbrev status : SessionId → Hub queue → Phase × Bool
  status y h = (h.phase y, member y h.shared.sessions)

  perform-other :
      (x y : SessionId) (a : Action) (h : Hub queue)
      → (x == y) ≡ false
      → status y (perform queue x a h) ≡ status y h
  unfolding perform join leave
  perform-other x y async_accept h other = rw other
  perform-other x y async_read h other = rw other
  perform-other x y Action.join h other = rw (member-emplace x y h.shared.sessions, other)
  perform-other x y Action.leave h other = rw (member-erase x y h.shared.sessions, other)
  perform-other x y (broadcast m) h other = refl
  perform-other x y (async_write m) h other = refl
  perform-other x y (report what message) h other = refl

  perform_all-other :
      (x y : SessionId) (actions : List Action) (h : Hub queue)
      → (x == y) ≡ false
      → status y (perform_all queue x actions h) ≡ status y h
  unfolding perform_all
  perform_all-other x y [] h other = refl
  perform_all-other x y (a ∷ actions) h other =
      perform_all-other x y actions (perform queue x a h) other ∙ perform-other x y a h other

  -- A handler of a session that was made.
  handler-Known :
      (upgraded : List SessionId) (x : SessionId) (actions : List Action) (h k : Hub queue)
      → member x upgraded ≡ true
      → ((y : SessionId) → (x == y) ≡ false → status y k ≡ status y h)
      → HasKnown upgraded h
      → HasKnown upgraded (perform_all queue x actions k)
  handler-Known upgraded x actions h k old same known y = elim (Bool-cases (x == y)) [
    | inl here ↦ inr (subst (λ z. member z upgraded ≡ true) ((==_iff x y).0 here) old)
    | inr other ↦
        subst (λ st. ((st.0 ≡ accepting) × (st.1 ≡ false)) ⊎ (member y upgraded ≡ true))
          (sym (perform_all-other x y actions k other ∙ same y other)) (known y)
  ]

  post-status :
      (src : Source) (x : SessionId) (m : Text) (rest : List (SessionId × Text)) (h : Hub queue)
      → ((post queue src x m rest h).phase ≡ h.phase)
        × ((post queue src x m rest h).shared ≡ h.shared)
  unfolding post
  post-status src x m rest h = elim (Bool-cases (is_alive (h.phase x))) [
    | inl e ↦ (rw e, rw e)
    | inr e ↦ (rw e, rw e)
  ]

  pub post-Known :
      (upgraded : List SessionId) (src : Source) (x : SessionId) (m : Text)
      (rest : List (SessionId × Text)) (h : Hub queue)
      → HasKnown upgraded h
      → HasKnown upgraded (post queue src x m rest h)
  post-Known upgraded src x m rest h known =
      let (phase, shared) = post-status src x m rest h in rw (phase, shared) known

  tell_to-Known :
      (upgraded : List SessionId) (found : Option SessionId) (m : Text) (h : Hub queue)
      → HasKnown upgraded h
      → HasKnown upgraded (tell_to queue found m h)
  unfolding tell_to
  tell_to-Known upgraded none m h known = known
  tell_to-Known upgraded (some y) m h known = known

  pub tell-Known :
      (json : JsonLibrary) (upgraded : List SessionId) (t : Task time) (h : Hub queue)
      → HasKnown upgraded h
      → HasKnown upgraded (tell queue json t h)
  unfolding tell
  tell-Known json upgraded t h known = tell_to-Known upgraded _ _ h known

  set_phase-other :
      (x y : SessionId) (p : Phase) (h : Hub queue)
      → (x == y) ≡ false
      → status y (set_phase queue x p h) ≡ status y h
  set_phase-other x y p h other = rw other

module _ (env : Environment) (queue : Queue (Task env.time)) where
  pub Step-Known :
      (upgraded : List SessionId) (started : ℕ) (worker : Worker env.time) (h : Hub queue)
      {g : Hub queue} (st : Step queue env.json h g)
      → Runs env queue upgraded started worker st
      → HasKnown queue upgraded h
      → HasKnown queue upgraded g
  unfolding handle_accept handle_read handle_send handle_destroy perform_all
  Step-Known upgraded started worker h (accepts x ec e) ok known =
      handler-Known queue upgraded x (on_accept ec) h (set_phase queue x idle h) ok.0
        (λ y. set_phase-other queue x y idle h) known
  Step-Known upgraded started worker h (reads x ec buffer s actions e done read) ok known =
      handler-Known queue upgraded x actions h _
        (made upgraded h.shared.sessions h.phase x known e (λ same. cc same))
        (λ y. set_phase-other queue x y idle h) known
  Step-Known upgraded started worker h (posts src y m rest e) ok known =
      post-Known queue upgraded src y m rest h known
  Step-Known upgraded started worker h (sends x m rest e own) ok known = known
  Step-Known upgraded started worker h (wrote x m others e own) ok known = known
  Step-Known upgraded started worker h (failed x ec m others err e own) ok known = known
  Step-Known upgraded started worker h (times_out t e) ok known = absurd ok
  Step-Known upgraded started worker h (drops x e empty flight done) ok known =
      handler-Known queue upgraded x [] h (set_phase queue x dropped h)
        (made upgraded h.shared.sessions h.phase x known e (λ same. cc same))
        (λ y. set_phase-other queue x y dropped h) known
  Step-Known upgraded started worker h (destroys x e) ok known =
      handler-Known queue upgraded x destroy h (set_phase queue x destroyed h)
        (made upgraded h.shared.sessions h.phase x known e (λ same. cc same))
        (λ y. set_phase-other queue x y destroyed h) known
