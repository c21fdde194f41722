-- ===== src/Server/WebsocketSession/Writes.antt =====
-- The outgoing messages of a websocket session.
pub mod Draining
pub mod Silent
use gss.Base.{
  suc, ◌≤◌, ◌≡◌, ◌≢◌, refl, Bool, true, false, List, [], ◌∷◌, ◌++◌, append_assoc, append-nil,
  list_laws, length, length-append, ltb, arith, ap, sym, subst, ◌∙◌,
}
use gss.Base.Text.{Text}
use gss.Server.WebsocketSession.{
  ErrorCode, success, operation_aborted, closed, WebsocketSession, Action, async_write, new_session,
  is_error, fail, on_send, on_write, write_front, erase_front,
}

-- The messages whose write an action starts.
abbrev pub started : List Action → List Text
started [] = []
started (async_write ss ∷ actions) = ss ∷ started actions
started (_ ∷ actions) = started actions

-- The session with the writes under way, and the history: the messages that were sent, those that
-- were written, and whether a write has failed.
pub record Link : Type 0 where
  pub session : WebsocketSession
  pub in_flight : List Text
  pub sent : List Text
  pub written : List Text
  pub broken : Bool

unfoldable pub new_link : Link
unfolding new_session
new_link = record { session = new_session; in_flight = []; sent = []; written = []; broken = false }

unfoldable pub sending : Text → Link → Link
sending ss l =
    let (s, actions) = on_send ss l.session in
    record l { session = s; in_flight = l.in_flight ++ started actions; sent = l.sent ++ ss ∷ [] }

-- The write of `ss`, the first under way, is done; `others` are the other writes under way.
unfoldable pub writing : Text → List Text → Link → Link
writing ss others l =
    let (s, actions) = on_write success l.session in
    record l { session = s; in_flight = others ++ started actions; written = l.written ++ ss ∷ [] }

unfoldable pub failing : ErrorCode → List Text → Link → Link
failing ec others l =
    let (s, actions) = on_write ec l.session in
    record l { session = s; in_flight = others ++ started actions; broken = true }

-- A handler that leaves the queue as it is, such as that of a read, which may name the session.
unfoldable pub naming : WebsocketSession → Link → Link
naming s l = record l { session = s }

pub data Step (l : Link) : Link → Type 0 where
  named : (s : WebsocketSession) → s.queue ≡ l.session.queue → Step l (naming s l)
  send : (ss : Text) → Step l (sending ss l)
  wrote :
      (ss : Text) (others : List Text) → l.in_flight ≡ ss ∷ others → Step l (writing ss others l)
  failed :
      (ec : ErrorCode) (ss : Text) (others : List Text)
      → is_error ec ≡ true
      → l.in_flight ≡ ss ∷ others
      → Step l (failing ec others l)

pub data Reach (l : Link) : Link → Type 0 where
  here : Reach l l
  next : {m n : Link} → Reach l m → Step m n → Reach l n

abbrev pub Flight : Bool → List Text → List Text → Type 0
Flight false queue in_flight = in_flight ≡ started (write_front queue)
Flight true queue in_flight = (queue ≢ []) × (in_flight ≡ [])

pub record Inv (l : Link) : Type 0 where
  pub flight : Flight l.broken l.session.queue l.in_flight
  pub kept : l.written ++ l.session.queue ≡ l.sent

pub on_send-queue : (ss : Text) (s : WebsocketSession) → (on_send ss s).0.queue ≡ s.queue ++ ss ∷ []
unfolding on_send
on_send-queue ss s = ground arith

-- A write is started exactly when the queue was empty.
abbrev first_write : List Text → Text → List Text
first_write [] ss = ss ∷ []
first_write (x ∷ queue) ss = []

pub on_send-started :
    (ss : Text) (s : WebsocketSession) (queue : List Text)
    → s.queue ≡ queue
    → started (on_send ss s).1 ≡ first_write queue ss
unfolding on_send
on_send-started ss s [] e = rw e
on_send-started ss s (x ∷ queue) e =
    let more : ltb 1 (suc (length (queue ++ ss ∷ []))) ≡ true =
      ground (arith, length-append queue (ss ∷ [])) in
    rw (e, more)

fail-started : (ec : ErrorCode) (what : Text) → started (fail ec what) ≡ []
unfolding fail
fail-started success what = refl
fail-started operation_aborted what = refl
fail-started closed what = refl
fail-started (ErrorCode.failed message) what = refl

-- What holds of the session and its writes when the first of them completes.
pub Flight-first :
    (broken : Bool) (queue in_flight : List Text) (ss : Text) (others : List Text)
    → Flight broken queue in_flight
    → in_flight ≡ ss ∷ others
    → (broken ≡ false) × (others ≡ []) × (queue ≡ ss ∷ erase_front queue)
Flight-first false [] in_flight ss others e f = cc
Flight-first false (x ∷ queue) in_flight ss others e f = (refl, cc, cc)
Flight-first true queue in_flight ss others e f = cc (e.1)

pub Flight-send :
    (broken : Bool) (queue in_flight : List Text) (ss : Text)
    → Flight broken queue in_flight
    → Flight broken (queue ++ ss ∷ []) (in_flight ++ first_write queue ss)
Flight-send false [] in_flight ss e = rw e
Flight-send false (x ∷ queue) in_flight ss e = append-nil in_flight ∙ e
Flight-send true [] in_flight ss e = absurd (e.0 refl)
Flight-send true (x ∷ queue) in_flight ss e = ((λ q. cc), append-nil in_flight ∙ e.1)

Step-Inv : (l : Link) {m : Link} → Step l m → Inv l → Inv m
unfolding naming sending writing failing on_write
Step-Inv l (named s e) inv = record { flight = rw e inv.flight; kept = rw e inv.kept }
Step-Inv l (send ss) inv = record {
  flight =
      rw (on_send-queue ss l.session, on_send-started ss l.session l.session.queue refl)
        (Flight-send l.broken l.session.queue l.in_flight ss inv.flight);
  kept = rw on_send-queue (rw (sym inv.kept) (simp list_laws));
}
Step-Inv l (wrote ss others e) inv =
    let queue = l.session.queue in
    let (sound, none_else, front) =
      Flight-first l.broken queue l.in_flight ss others inv.flight e in
    record {
      flight = rw (sound, none_else) refl;
      kept =
          append_assoc l.written (ss ∷ []) (erase_front queue)
          ∙ ap (λ q. l.written ++ q) (sym front)
          ∙ inv.kept;
    }
Step-Inv l (failed ec ss others err e) inv =
    let queue = l.session.queue in
    let (sound, none_else, front) =
      Flight-first l.broken queue l.in_flight ss others inv.flight e in
    record {
      flight = rw (err, fail-started, none_else) ((λ nil. cc), refl);
      kept = rw err inv.kept;
    }

pub new_link-Inv : Inv new_link
unfolding new_link
new_link-Inv = record { flight = refl; kept = refl }

pub Reach-Inv : {l m : Link} → Inv l → Reach l m → Inv m
Reach-Inv inv here = inv
Reach-Inv inv (next {m} r st) = Step-Inv m st (Reach-Inv inv r)

Flight-one :
    (broken : Bool) (queue in_flight : List Text)
    → Flight broken queue in_flight
    → length in_flight ≤ 1
Flight-one false [] in_flight e = omega (arith, ap length e)
Flight-one false (x ∷ queue) in_flight e = omega (arith, ap length e)
Flight-one true queue in_flight e = omega (arith, ap length e.1)

-- In every state that sends, reads, completed writes and failed writes can reach in any order, at
-- most one write is under way, and the messages that were written, followed by those in the queue,
-- are the messages that were sent, in order.
pub writes-in_order :
    (l : Link)
    → Reach new_link l
    → (length l.in_flight ≤ 1) × (l.written ++ l.session.queue ≡ l.sent)
writes-in_order l r =
    let inv = Reach-Inv new_link-Inv r in
    (Flight-one l.broken l.session.queue l.in_flight inv.flight, inv.kept)
