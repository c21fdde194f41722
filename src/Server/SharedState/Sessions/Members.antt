-- ===== src/Server/SharedState/Sessions/Members.antt =====
-- The operations on the set of sessions in shared_state.cpp, by who is in it.
use gss.Base.{
  refl, ◌≡◌, ◌⊎◌, inl, inr, Bool, true, false, ◌&&◌, ◌||◌, not, List, [], ◌∷◌, Option, none, some,
  ◌==◌, arith, Bool-cases, subst, ap, ==_iff, ==-of_ne,
}
use gss.Base.Text.{Text, text_eq, text_eq_iff}
use gss.Server.SharedState.{SessionId, member, emplace, erase, receivers, find_session, deliver}

pub member-emplace :
    (s x : SessionId) (xs : List SessionId) → member x (emplace s xs) ≡ ((s == x) || member x xs)
unfolding member emplace
member-emplace s x xs = elim (Bool-cases (member s xs)) [
  | inl old ↦ rw old (elim (Bool-cases (s == x)) [
    | inl same ↦ rw same (subst (λ y. member y xs ≡ true) ((==_iff s x).0 same) old)
    | inr other ↦ rw other
  ])
  | inr new ↦ rw new (ground arith)
]

pub member-erase :
    (s x : SessionId) (xs : List SessionId) → member x (erase s xs) ≡ (not (s == x) && member x xs)
unfolding member erase
member-erase s x [] = ground arith
member-erase s x (y ∷ ys) = ground (arith, member-erase s x ys)

-- No session is in the set twice.
abbrev pub Distinct : List SessionId → Type 0
Distinct [] = Unit {0}
Distinct (x ∷ xs) = (member x xs ≡ false) × Distinct xs

pub emplace-Distinct : (s : SessionId) (xs : List SessionId) → Distinct xs → Distinct (emplace s xs)
unfolding emplace
emplace-Distinct s xs d = ground arith

pub erase-Distinct : (s : SessionId) (xs : List SessionId) → Distinct xs → Distinct (erase s xs)
unfolding erase
erase-Distinct s [] d = tt
erase-Distinct s (x ∷ xs) d = ground (arith, erase-Distinct s xs d.1, member-erase s x xs)

pub member-receivers :
    (alive : SessionId → Bool) (x : SessionId) (xs : List SessionId)
    → member x (receivers alive xs) ≡ (alive x && member x xs)
unfolding member receivers
member-receivers alive x [] = ground arith
member-receivers alive x (y ∷ ys) = elim (Bool-cases (y == x)) [
  | inl here ↦
      let e : y ≡ x = (==_iff y x).0 here in ground (arith, member-receivers alive x ys, ap alive e)
  | inr there ↦ ground (arith, member-receivers alive x ys)
]

pub receivers-Distinct :
    (alive : SessionId → Bool) (xs : List SessionId) → Distinct xs → Distinct (receivers alive xs)
unfolding receivers
receivers-Distinct alive [] d = tt
receivers-Distinct alive (x ∷ xs) d =
    ground (arith, receivers-Distinct alive xs d.1, member-receivers alive x xs)

pub member-head : (x : SessionId) (xs : List SessionId) → member x (x ∷ xs) ≡ true
unfolding member
member-head x xs = ground arith

pub member-skip :
    (x y : SessionId) (ys : List SessionId) → member x ys ≡ true → member x (y ∷ ys) ≡ true
unfolding member
member-skip x y ys m = ground arith

-- A session that is found has the name and is one of the set, or was found before.
pub find_session_sound :
    (uid : SessionId → Text) (id : Text) (xs : List SessionId) (found : Option SessionId)
    {x : SessionId}
    → find_session uid id xs found ≡ some x
    → (found ≡ some x) ⊎ ((member x xs ≡ true) × (uid x ≡ id))
unfolding find_session member
find_session_sound uid id [] found e = inl e
find_session_sound uid id (y ∷ ys) found {x} e = elim (Bool-cases (text_eq (uid y) id)) [
  | inl hit ↦ inr (last_hit hit (find_session_sound uid id ys (some y) (rw hit at e)))
  | inr miss ↦ elim (find_session_sound uid id ys found (rw miss at e)) [
    | inl old ↦ inl old
    | inr (m, named) ↦ inr (member-skip x y ys m, named)
  ]
]
  where
    last_hit :
        text_eq (uid y) id ≡ true
        → (some y ≡ some x) ⊎ ((member x ys ≡ true) × (uid x ≡ id))
        → (member x (y ∷ ys) ≡ true) × (uid x ≡ id)
    last_hit hit (inl here) =
        let same : y ≡ x = cc in
        (
          subst (λ z. member z (y ∷ ys) ≡ true) same (member-head y ys),
          subst (λ z. uid z ≡ id) same ((text_eq_iff (uid y) id).0 hit),
        )
    last_hit hit (inr (m, named)) = (member-skip x y ys m, named)

-- If none is found, none has the name.
pub find_session-none :
    (uid : SessionId → Text) (id : Text) (xs : List SessionId) (found : Option SessionId)
    → find_session uid id xs found ≡ none
    → (found ≡ none) × ((y : SessionId) → (member y xs && text_eq (uid y) id) ≡ false)
unfolding find_session member
find_session-none uid id [] found e = (e, λ y. refl)
find_session-none uid id (z ∷ zs) found e = elim (Bool-cases (text_eq (uid z) id)) [
  | inl hit ↦ cc ((find_session-none uid id zs (some z) (rw hit at e)).0)
  | inr miss ↦
      let (before, others) = find_session-none uid id zs found (rw miss at e) in
      (
        before,
        λ y. elim (Bool-cases (z == y)) [
          | inl same ↦ rw same (subst (λ w. text_eq (uid w) id ≡ false) ((==_iff z y).0 same) miss)
          | inr other ↦ rw other (others y)
        ],
      )
]

-- If `x` is the only one with the name, it is found.
pub find_session_unique :
    (uid : SessionId → Text) (id : Text) (xs : List SessionId) (found : Option SessionId)
    (x : SessionId)
    → uid x ≡ id
    → ((y : SessionId) → member y xs ≡ true → uid y ≡ id → y ≡ x)
    → (member x xs ≡ true) ⊎ (found ≡ some x)
    → find_session uid id xs found ≡ some x
unfolding find_session member
find_session_unique uid id [] found x named only (inl i) = cc
find_session_unique uid id [] found x named only (inr e) = e
find_session_unique uid id (y ∷ ys) found x named only i = elim (Bool-cases (text_eq (uid y) id)) [
  | inl hit ↦
      let same : y ≡ x = only y (member-head y ys) ((text_eq_iff (uid y) id).0 hit) in
      rw hit (find_session_unique uid id ys (some y) x named below (inr (ap some same)))
  | inr miss ↦ rw miss (find_session_unique uid id ys found x named below (rest miss i))
]
  where
    below : (z : SessionId) → member z ys ≡ true → uid z ≡ id → z ≡ x
    below z m = only z (member-skip z y ys m)

    rest :
        text_eq (uid y) id ≡ false
        → (member x (y ∷ ys) ≡ true) ⊎ (found ≡ some x)
        → (member x ys ≡ true) ⊎ (found ≡ some x)
    rest miss (inr e) = inr e
    rest miss (inl m) =
        let other : (y == x) ≡ false =
          ==-of_ne y x
            λ e. cc (miss, (text_eq_iff (uid x) id).1 named, ap (λ z. text_eq (uid z) id) e) in
        inl (rw other at m)

pub deliver_sound :
    (alive : SessionId → Bool) (found : Option SessionId) (x : SessionId)
    → member x (deliver alive found) ≡ true
    → (deliver alive found ≡ x ∷ []) × (alive x ≡ true) × (found ≡ some x)
unfolding deliver member
deliver_sound alive none x m = cc
deliver_sound alive (some z) x m = elim (Bool-cases (alive z)) [
  | inl lives ↦
      let same : z ≡ x = ground (arith, m, lives) in
      (rw lives (ap (λ y. y ∷ []) same), subst (λ y. alive y ≡ true) same lives, ap some same)
  | inr dead ↦ cc (rw dead at m)
]
