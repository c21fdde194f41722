-- ===== src/Server/SharedState/Sessions.antt =====
-- The set of sessions, and who receives a message.
pub mod Members
pub mod Unordered
use gss.Base.{
  Option-cases, ◌≡◌, refl, ◌⊎◌, inl, inr, Bool, true, false, ◌&&◌, ◌||◌, not, List, [], ◌∷◌, Option,
  none, some, ◌==◌, if◌then◌else◌, arith, Bool-cases, subst, ap, sym, ==_iff, ==-of_ne, ◌∙◌,
}
use gss.Base.Text.{Text, text_eq, text_eq_iff}
use gss.Containers.Queue.{Queue}
use gss.Server.Libraries.{PosixTime}
use gss.Server.Task.{Task}
use gss.Server.SharedState.{
  SessionId, member, emplace, erase, receivers, find_session, deliver, SharedState, join, leave,
  send_all, send_to, new_state,
}
use gss.Server.SharedState.Sessions.Members.{
  member-head, member-emplace, member-erase, Distinct, emplace-Distinct, erase-Distinct,
  member-receivers, receivers-Distinct, find_session_sound, find_session-none, find_session_unique,
  deliver_sound,
}

-- The sessions that join and leave, in order.
pub data Visit : Type 0 where
  joins leaves : SessionId → Visit

-- Whether the last visit of `x` was to join.
unfoldable pub joined : SessionId → List Visit → Bool → Bool
joined x [] before = before
joined x (joins s ∷ vs) before = joined x vs (if s == x then true else before)
joined x (leaves s ∷ vs) before = joined x vs (if s == x then false else before)

module _ {time : PosixTime} (queue : Queue (Task time)) where
  pub visit : Visit → SharedState queue → SharedState queue
  visit (joins s) = join queue s
  visit (leaves s) = leave queue s

  pub visits : List Visit → SharedState queue → SharedState queue
  visits [] s = s
  visits (v ∷ vs) s = visits vs (visit v s)

  pub visits-member :
      (vs : List Visit) (x : SessionId) (s : SharedState queue)
      → member x (visits vs s).sessions ≡ joined x vs (member x s.sessions)
  unfolding visits visit joined join leave
  visits-member [] x s = refl
  visits-member (joins j ∷ vs) x s =
      visits-member vs x (join queue j s)
      ∙ ap (joined x vs) (member-emplace j x s.sessions ∙ ground arith)
  visits-member (leaves j ∷ vs) x s =
      visits-member vs x (leave queue j s)
      ∙ ap (joined x vs) (member-erase j x s.sessions ∙ ground arith)

  visits-Distinct :
      (vs : List Visit) (s : SharedState queue)
      → Distinct s.sessions
      → Distinct (visits vs s).sessions
  unfolding visits visit join leave
  visits-Distinct [] s d = d
  visits-Distinct (joins j ∷ vs) s d =
      visits-Distinct vs (join queue j s) (emplace-Distinct j s.sessions d)
  visits-Distinct (leaves j ∷ vs) s d =
      visits-Distinct vs (leave queue j s) (erase-Distinct j s.sessions d)

  module _ (root : Text) (vs : List Visit) (alive : SessionId → Bool) where
    abbrev state : SharedState queue
    state = visits vs (new_state queue root)

    sessions_of : (x : SessionId) → member x state.sessions ≡ joined x vs false
    unfolding new_state member
    sessions_of x = visits-member vs x (new_state queue root)

    -- After any joins and leaves, a message to all goes to exactly the sessions that joined, have
    -- not left since and are still alive, and to none of them twice.
    pub send_all-joined :
        ((x : SessionId) → member x (send_all queue alive state) ≡ (alive x && joined x vs false))
        × Distinct (send_all queue alive state)
    unfolding send_all new_state member
    send_all-joined = (
      λ x. member-receivers alive x state.sessions ∙ ap (λ b. alive x && b) (sessions_of x),
      receivers-Distinct alive state.sessions (visits-Distinct vs (new_state queue root) tt),
    )

    -- After any joins and leaves, a session that gets a message to `id` is the only one that gets
    -- it; it joined, has not left since, is still alive and has this name.
    pub send_to_sound :
        (uid : SessionId → Text) (id : Text) (x : SessionId)
        → member x (send_to queue alive uid id state) ≡ true
        → (send_to queue alive uid id state ≡ x ∷ [])
          × (alive x ≡ true)
          × (joined x vs false ≡ true)
          × (uid x ≡ id)
    unfolding send_to
    send_to_sound uid id x m =
        let found = find_session uid id state.sessions none in
        let (alone, lives, e) = deliver_sound alive found x m in
        elim (find_session_sound uid id state.sessions none e) [
          | inl before ↦ cc
          | inr (inside, named) ↦ (alone, lives, sym (sessions_of x) ∙ inside, named)
        ]

    -- After any joins and leaves, if one session alone has its name among those that joined and
    -- have not left since, and it is alive, then it alone gets a message to that name.
    pub send_to_unique :
        (uid : SessionId → Text) (x : SessionId)
        → joined x vs false ≡ true
        → alive x ≡ true
        → ((y : SessionId) → joined y vs false ≡ true → uid y ≡ uid x → y ≡ x)
        → send_to queue alive uid (uid x) state ≡ x ∷ []
    unfolding send_to
    send_to_unique uid x here lives only = rw (
      find_session_unique uid (uid x) state.sessions none x refl
          (λ y m. only y (sym (sessions_of y) ∙ m)) (inl (sessions_of x ∙ here)),
      send_to,
      lives,
    )

    -- After any joins and leaves, either no session that joined and has not left since has the name
    -- `id`, and a message to `id` goes to none, or there is one that has it, to which alone the
    -- message goes if this session is alive, and to none if it is not.
    pub send_to-joined :
        (uid : SessionId → Text) (id : Text)
        → (((y : SessionId) → (joined y vs false && text_eq (uid y) id) ≡ false)
            × (send_to queue alive uid id state ≡ []))
          ⊎ ((x : SessionId) × (joined x vs false ≡ true)
              × (uid x ≡ id)
              × (send_to queue alive uid id state ≡ (if alive x then x ∷ [] else [])))
    unfolding send_to deliver
    send_to-joined uid id = elim (Option-cases (find_session uid id state.sessions none)) [
      | inl e ↦
          let (_, nobody) = find_session-none uid id state.sessions none e in
          inl (
            λ y. ap (λ b. b && text_eq (uid y) id) (sym (sessions_of y)) ∙ nobody y,
            ap (deliver alive) e,
          )
      | inr (x, e) ↦ elim (find_session_sound uid id state.sessions none e) [
        | inl before ↦ cc
        | inr (inside, named) ↦ inr (x, sym (sessions_of x) ∙ inside, named, ap (deliver alive) e)
      ]
    ]
