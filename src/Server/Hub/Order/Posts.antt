-- ===== src/Server/Hub/Order/Posts.antt =====
-- What one post does to what a source has posted and has still to post.
use gss.Base.{
  ◌≡◌, refl, sym, ap, ◌∙◌, Bool, true, false, ◌&&◌, List, [], ◌∷◌, ◌++◌, append_assoc, append-nil,
  ◌==◌, inl, inr, Bool-cases, ==_iff, subst, arith,
}
use gss.Base.Text.{Text}
use gss.Server.SharedState.{SessionId, member}
use gss.Server.SharedState.Sessions.Members.{Distinct}
use gss.Server.Hub.{Source, session, timer, same_source, Event, posted, posts_of, set_source}
use gss.Server.Hub.Log.{posts_to, said_to, from, for, when}

pub same_source_sound : (a b : Source) → same_source a b ≡ true → a ≡ b
same_source_sound (session x) (session y) e = ap session ((==_iff x y).0 e)
same_source_sound timer timer e = refl
same_source_sound (session x) timer e = cc e
same_source_sound timer (session y) e = cc e

from-append :
    (src : Source) (xs ys : List (Source × Text)) → from src (xs ++ ys) ≡ from src xs ++ from src ys
from-append src [] ys = refl
from-append src ((s, m) ∷ xs) ys = rw (from-append src xs ys, append_assoc)

-- One post more.
from-post :
    (s src : Source) (b : Bool) (m : Text) (ps : List (Source × Text))
    → from s (ps ++ when b (src, m)) ≡ from s ps ++ when (same_source src s && b) m
from-post s src true m ps =
    from-append s ps ((src, m) ∷ [])
    ∙ elim (Bool-cases (same_source src s)) [ inl e ↦ rw e | inr e ↦ rw e ]
from-post s src false m ps = elim (Bool-cases (same_source src s)) [
  | inl e ↦ rw e (simp append-nil)
  | inr e ↦ rw e (simp append-nil)
]

for-none :
    (y : SessionId) (m : Text) (xs : List SessionId)
    → member y xs ≡ false
    → for y (posts_of m xs) ≡ []
unfolding member
for-none y m [] out = refl
for-none y m (x ∷ xs) out = ground (arith, for-none y m xs)

-- A message to all is posted to each of them once.
pub for-posts_of :
    (y : SessionId) (m : Text) (xs : List SessionId)
    → Distinct xs
    → for y (posts_of m xs) ≡ when (member y xs) m
unfolding member
for-posts_of y m [] d = refl
for-posts_of y m (x ∷ xs) d = elim (Bool-cases (x == y)) [
  | inl e ↦
      let at : x ≡ y = (==_iff x y).0 e in
      rw (e, for-none y m xs (subst (λ z. member z xs ≡ false) at d.0)) refl
  | inr e ↦ rw e (for-posts_of y m xs d.1)
]

-- For a source `src` and a session `y`: what was posted and what has still to be posted, in order,
-- is what the source has sent to `y`.
abbrev pub InOrder : Source → SessionId → List (SessionId × Text) → List Event → Type 0
InOrder src y left log = from src (posts_to y log) ++ for y left ≡ said_to src y log

module _ (src s : Source) (x y : SessionId) (m : Text) (rest : List (SessionId × Text))
    (left : Source → List (SessionId × Text)) (log : List Event)
    (front : left src ≡ (x, m) ∷ rest) where
  pub InOrder-posted :
      InOrder s y (left s) log → InOrder s y (set_source left src rest s) (posted src x m ∷ log)
  InOrder-posted g = elim (Bool-cases (same_source src s)) [
    | inl e ↦
        let at : src ≡ s = same_source_sound src s e in
        let before = subst (λ z. left z ≡ (x, m) ∷ rest) at front in
        rw (from-post s src (x == y) m (posts_to y log), e)
          (append_assoc (from s (posts_to y log)) (when (x == y) m) (for y rest)
            ∙ ap (λ q. from s (posts_to y log) ++ for y q) (sym before)
            ∙ g)
    | inr e ↦ rw (from-post s src (x == y) m (posts_to y log), e, append-nil) g
  ]

  pub InOrder-lost :
      (x == y) ≡ false → InOrder s y (left s) log → InOrder s y (set_source left src rest s) log
  InOrder-lost other g = elim (Bool-cases (same_source src s)) [
    | inl e ↦
        let at : src ≡ s = same_source_sound src s e in
        let before = subst (λ z. left z ≡ (x, m) ∷ rest) at front in
        let skips : for y (left s) ≡ for y rest = rw (before, other) in
        rw e (ap (λ q. from s (posts_to y log) ++ q) (sym skips) ∙ g)
    | inr e ↦ rw e g
  ]
