-- ===== src/Containers/Queue.antt =====
-- What the task queue of the server uses of src/containers/list.hpp: `list<task>` as a value with
-- its sequence of elements. The list over nodes fills it in LinkedQueue.
pub mod LinkedQueue
use gss.Base.{ℕ, ◌^◌, ◌<◌, ◌≡◌, Bool, true, false, List, [], ◌∷◌, ◌++◌, length}
use gss.Base.Try.{Exception, out_of_range, Try, returned, raised}

pub record Queue {ℓ} (T : Type ℓ) : Type (ℓ + 1) where
  pub Carrier : Type ℓ
  pub contents : Carrier → List T
  pub new_list : Carrier
  pub push_back : T → Carrier → Carrier
  pub pop_front : Carrier → Try Carrier
  pub front : Carrier → Try T
  pub empty : Carrier → Bool
  pub contents-new_list : contents new_list ≡ []
  pub contents-push_back : (v : T) (q : Carrier) → contents (push_back v q) ≡ contents q ++ v ∷ []
  pub pop_front-nil :
      (q : Carrier) → contents q ≡ [] → pop_front q ≡ raised (out_of_range "Empty list.")
  pub pop_front-cons :
      (q : Carrier) (v : T) (vs : List T)
      → contents q ≡ v ∷ vs
      → (r : Carrier) × (pop_front q ≡ returned r) × (contents r ≡ vs)
  pub front-nil : (q : Carrier) → contents q ≡ [] → front q ≡ raised (out_of_range "Empty list.")
  pub front-cons : (q : Carrier) (v : T) (vs : List T) → contents q ≡ v ∷ vs → front q ≡ returned v
  pub empty-nil : (q : Carrier) → contents q ≡ [] → empty q ≡ true
  -- `size_t` counts to 2 ^ 64.
  pub empty-cons :
      (q : Carrier) (v : T) (vs : List T)
      → contents q ≡ v ∷ vs
      → length (contents q) < 2 ^ 64
      → empty q ≡ false
