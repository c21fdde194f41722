-- ===== src/Server/SharedState/Sessions/Unordered.antt =====
-- `sessions_` of shared_state.hpp is an `unordered_set`: what does not depend on its order.
use mathlib.Core.Quot
use mathlib.Core.Quot.{Quot, Quot-set}
use gss.Base.{
  ◌≡◌, sym, ap, ◌∙◌, inl, inr, Bool, true, not, ◌&&◌, List, [], ◌∷◌, ◌==◌, if◌then◌else◌, ==_iff,
  Bool-cases, arith,
}
use gss.Base.Text.{Text}
use gss.Containers.Queue.{Queue}
use gss.Server.Libraries.{PosixTime}
use gss.Server.Task.{Task}
use gss.Server.SharedState.{SessionId, member, SharedState}
use gss.Server.SharedState.Sessions.{Visit, joins, leaves}

abbrev pub SameMembers : List SessionId → List SessionId → Type 0
SameMembers xs ys = (x : SessionId) → member x xs ≡ member x ys

abbrev pub SessionSet : Type 0
SessionSet = Quot SameMembers

abbrev pub as_set : List SessionId → SessionSet
as_set xs = Quot.mk xs

-- The elements that satisfy a test.
pub keep : (SessionId → Bool) → List SessionId → List SessionId
keep p [] = []
keep p (x ∷ xs) = if p x then x ∷ keep p xs else keep p xs

member-keep :
    (p : SessionId → Bool) (x : SessionId) (xs : List SessionId)
    → member x (keep p xs) ≡ (p x && member x xs)
unfolding member keep
member-keep p x [] = ground arith
member-keep p x (y ∷ ys) = elim (Bool-cases (y == x)) [
  | inl same ↦ let e : y ≡ x = (==_iff y x).0 same in ground (arith, member-keep p x ys, ap p e)
  | inr other ↦ ground (arith, member-keep p x ys)
]

cons-SameMembers :
    (s : SessionId) (xs ys : List SessionId) → SameMembers xs ys → SameMembers (s ∷ xs) (s ∷ ys)
unfolding member
cons-SameMembers s xs ys e x = ap (λ b. if s == x then true else b) (e x)

keep-SameMembers :
    (p : SessionId → Bool) (xs ys : List SessionId)
    → SameMembers xs ys
    → SameMembers (keep p xs) (keep p ys)
keep-SameMembers p xs ys e x =
    member-keep p x xs ∙ ap (λ b. p x && b) (e x) ∙ sym (member-keep p x ys)

-- The operations of finite sets: one more element, and the elements that satisfy a test.
pub insert : SessionId → SessionSet → SessionSet
insert s =
    Quot.lift Quot-set (λ xs. Quot.mk (s ∷ xs)) λ xs ys e. Quot.sound (cons-SameMembers s xs ys e)

pub select : (SessionId → Bool) → SessionSet → SessionSet
select p =
    Quot.lift Quot-set (λ xs. Quot.mk (keep p xs))
      λ xs ys e. Quot.sound (keep-SameMembers p xs ys e)

abbrev pub remove : SessionId → SessionSet → SessionSet
remove s = select (λ x. not (s == x))

abbrev pub those_alive : (SessionId → Bool) → SessionSet → SessionSet
those_alive alive = select alive

pub changed : Visit → SessionSet → SessionSet
changed (joins s) xs = insert s xs
changed (leaves s) xs = remove s xs

pub changes : List Visit → SessionSet → SessionSet
changes [] xs = xs
changes (v ∷ vs) xs = changes vs (changed v xs)

module _ {time : PosixTime} (queue : Queue (Task time)) where
  abbrev pub view : SharedState queue → SessionSet
  view s = as_set s.sessions
