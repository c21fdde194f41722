-- ===== src/Server/Hub/Lifetime/Gone.antt =====
-- What is left of one session that is gone.
use gss.Base.{◌≡◌, ap, Bool, true, false, List, [], ◌∷◌, inl, inr, Bool-cases}
use gss.Base.Text.{Text}
use gss.Server.SharedState.{SessionId}
use gss.Server.Hub.{Phase, destroyed, is_alive}

-- A session that is gone has nothing to run, to write or to post, and once it is destroyed it is
-- not in the set.
pub record Safe (p : Phase) (inside : Bool) (inbox in_flight : List Text)
    (outbox : List (SessionId × Text)) : Type 0 where
  pub outside : p ≡ destroyed → inside ≡ false
  pub quiet : is_alive p ≡ false → (inbox ≡ []) × (in_flight ≡ []) × (outbox ≡ [])

module _ {p : Phase} {inside : Bool} {inbox in_flight : List Text}
    {outbox : List (SessionId × Text)} where
  pub Safe-alive : is_alive p ≡ true → Safe p inside inbox in_flight outbox
  Safe-alive e = record { outside = λ d. cc (e, ap is_alive d); quiet = λ d. cc (e, d) }

  -- A session with something to do is alive.
  pub alive-inbox :
      (m : Text) (rest : List Text)
      → Safe p inside inbox in_flight outbox
      → inbox ≡ m ∷ rest
      → is_alive p ≡ true
  alive-inbox m rest s e = elim (Bool-cases (is_alive p)) [
    | inl lives ↦ lives
    | inr gone ↦ cc (e, (s.quiet gone).0)
  ]

  pub alive-in_flight :
      (m : Text) (rest : List Text)
      → Safe p inside inbox in_flight outbox
      → in_flight ≡ m ∷ rest
      → is_alive p ≡ true
  alive-in_flight m rest s e = elim (Bool-cases (is_alive p)) [
    | inl lives ↦ lives
    | inr gone ↦ cc (e, (s.quiet gone).1)
  ]

  pub alive-outbox :
      (y : SessionId) (m : Text) (rest : List (SessionId × Text))
      → Safe p inside inbox in_flight outbox
      → outbox ≡ (y, m) ∷ rest
      → is_alive p ≡ true
  alive-outbox y m rest s e = elim (Bool-cases (is_alive p)) [
    | inl lives ↦ lives
    | inr gone ↦ cc (e, (s.quiet gone).2)
  ]
