-- ===== src/Containers/LinkedList/Move.antt =====
-- `operator=(list<T> &&)` of list.hpp.
use gss.Base.{◌≡◌, false, true, [], ◌∷◌, ◌≢◌, none, arith, Bool-cases, inl, inr, ◌==◌, ==_iff, ap}
use gss.Containers.Memory.{Ptr, nullptr, Memory}
use gss.Containers.Memory.Chain.{Cells, has, Chain}
use gss.Containers.Memory.Returns.{Returns, returns}
use gss.Containers.LinkedList.{
  DList, empty_list, Name, left, right, same_name, Objects, move_assign,
}
use gss.Containers.LinkedList.Spec.{IsList, IsList-empty}

-- The address holds a node that was not deleted.
abbrev pub Allocated {ℓ} : {T : Type ℓ} → Memory T → Ptr → Type ℓ
Allocated h a = h.cell a ≢ none

module _ {ℓ} {T : Type ℓ} where
  Chain-Allocated :
      (h : Memory T) (before stop : Ptr) (xs : Cells T)
      → Chain h before stop xs
      → (a : Ptr) → has a xs ≡ true
      → Allocated h a
  Chain-Allocated h before stop [] c a i = cc
  Chain-Allocated h before stop ((p, v) ∷ xs) c a i = elim (Bool-cases (a == p)) [
    | inl here ↦ λ e. cc (c.0, e, ap h.cell ((==_iff a p).0 here))
    | inr there ↦ Chain-Allocated h p stop xs c.4 a (ground arith)
  ]

  empty_room : {h : Memory T} {l : DList} {xs : Cells T} → IsList h l xs → IsList h empty_list []
  empty_room is = IsList-empty (omega (arith, is.room))

  left_behind :
      (h : Memory T) (xs ys : Cells T)
      → Chain h nullptr nullptr ys
      → ((a : Ptr) → has a xs ≡ true → has a ys ≡ false)
      → (a : Ptr) → has a ys ≡ true
      → Allocated h a × (has a xs ≡ false)
  left_behind h xs ys c disjoint a i =
      (Chain-Allocated h nullptr nullptr ys c a i, ground (arith, disjoint a))

  -- The assignment between two different well-formed lists without a common node gives `this` the
  -- nodes of `other`, which is left empty, and deletes nothing: the nodes that `this` had are
  -- still allocated, at addresses that neither list has.
  pub move_assign-leaks :
      (h : Memory T) (o : Objects) (this other : Name) (xs ys : Cells T)
      → same_name this other ≡ false
      → IsList h (o other) xs
      → IsList h (o this) ys
      → ((a : Ptr) → has a xs ≡ true → has a ys ≡ false)
      → Returns
          (λ o' g.
            IsList g (o' this) xs
            × IsList g (o' other) []
            × ((a : Ptr) → has a ys ≡ true → Allocated g a × (has a xs ≡ false)))
          (move_assign this other o h)
  unfolding move_assign
  move_assign-leaks h o left left xs ys apart from to disjoint = cc
  move_assign-leaks h o right right xs ys apart from to disjoint = cc
  move_assign-leaks h o left right xs ys apart from to disjoint =
      returns (from, empty_room from, left_behind h xs ys to.chain disjoint)
  move_assign-leaks h o right left xs ys apart from to disjoint =
      returns (from, empty_room from, left_behind h xs ys to.chain disjoint)

  -- A well-formed list that is assigned to itself becomes empty, and all its nodes stay allocated.
  pub move_assign_self :
      (h : Memory T) (o : Objects) (this : Name) (xs : Cells T)
      → IsList h (o this) xs
      → Returns
          (λ o' g. IsList g (o' this) [] × ((a : Ptr) → has a xs ≡ true → Allocated g a))
          (move_assign this this o h)
  unfolding move_assign
  move_assign_self h o left xs is =
      returns (empty_room is, Chain-Allocated h nullptr nullptr xs is.chain)
  move_assign_self h o right xs is =
      returns (empty_room is, Chain-Allocated h nullptr nullptr xs is.chain)
