-- ===== src/Server/WebsocketSession/Writes/Draining.antt =====
-- What the handlers of a session do to the number of messages that wait in its queue.
use gss.Base.{
  suc, ◌≡◌, refl, ◌⊎◌, inl, inr, false, List, [], ◌∷◌, length, length-append, arith, ap, subst,
}
use gss.Base.Text.{Text}
use gss.Server.WebsocketSession.{on_write}
use gss.Server.WebsocketSession.Writes.{
  Link, new_link, sending, writing, Reach, Reach-Inv, new_link-Inv, Flight, Flight-first,
  on_send-queue,
}

pub sending-queue :
    (m : Text) (l : Link) → length (sending m l).session.queue ≡ suc (length l.session.queue)
unfolding sending
sending-queue m l =
    omega (arith, ap length (on_send-queue m l.session), length-append l.session.queue (m ∷ []))

pub writing-queue :
    (m : Text) (others : List Text) (l : Link)
    → Reach new_link l
    → l.in_flight ≡ m ∷ others
    → suc (length (writing m others l).session.queue) ≡ length l.session.queue
unfolding writing on_write
writing-queue m others l r e =
    let (sound, none_else, front) =
      Flight-first l.broken l.session.queue l.in_flight m others (Reach-Inv new_link-Inv r).flight
        e in
    omega (arith, ap length front)

Flight-cases :
    (queue in_flight : List Text)
    → Flight false queue in_flight
    → (queue ≡ []) ⊎ ((m : Text) × (in_flight ≡ m ∷ []))
Flight-cases [] in_flight e = inl refl
Flight-cases (m ∷ queue) in_flight e = inr (m, e)

-- While no write has failed, the first message in the queue is being written.
pub unbroken-cases :
    (l : Link)
    → Reach new_link l
    → l.broken ≡ false
    → (l.session.queue ≡ []) ⊎ ((m : Text) × (l.in_flight ≡ m ∷ []))
unbroken-cases l r sound =
    Flight-cases l.session.queue l.in_flight
      (subst (λ b. Flight b l.session.queue l.in_flight) sound (Reach-Inv new_link-Inv r).flight)
