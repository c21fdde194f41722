-- ===== src/Containers/LinkedList/Deque/Refines.antt =====
-- Every history of calls of list.hpp keeps what the double-ended queue promises.
use gss.Base.{◌≡◌, refl, inl, inr, List, [], ◌∷◌, ◌++◌, Option, none, snoc_cases, subst, ap, ap₂}
use gss.Base.Try.{Exception}
use gss.Containers.Memory.{Memory, Run}
use gss.Containers.Memory.Chain.{Cells, values}
use gss.Containers.Memory.Ends.{values-append}
use gss.Containers.Memory.Returns.{Returns, returns, Returns-bind, Returns-mono}
use gss.Containers.LinkedList.{DList}
use gss.Containers.LinkedList.Spec.{IsList}
use gss.Containers.LinkedList.Push.{push_back-append, push_front_lem}
use gss.Containers.LinkedList.PopBack.{pop_back-nil, pop_back-Popped}
use gss.Containers.LinkedList.PopFront.{pop_front-nil, pop_front-Popped}
use gss.Containers.LinkedList.Erase.{erase_all-Erased}
use gss.Containers.LinkedList.Deque.{
  Op, push_back, push_front, pop_back, pop_front, erase_all, perform, caught, logged, run,
  drop_last, effect, effects, Holds, Does,
}

module _ {ℓ} {T : Type ℓ} where
  drop_last-append : (vs : List T) (v : T) → drop_last (vs ++ v ∷ []) ≡ vs
  unfolding drop_last
  drop_last-append [] v = refl
  drop_last-append (w ∷ []) v = refl
  drop_last-append (w ∷ u ∷ vs) v = ap (◌∷◌ w) (drop_last-append (u ∷ vs) v)

  effect-pop_back : (vs : List T) (v : T) → effect pop_back (vs ++ v ∷ []) ≡ (vs, none)
  unfolding effect
  effect-pop_back [] v = refl
  effect-pop_back (w ∷ vs) v = rw (drop_last-append (w ∷ vs) v)

  caught-ok :
      (l : DList) (vs : List T) {r : Run T DList}
      → Returns (Holds vs) r
      → Returns (Does (vs, none)) (caught l r)
  caught-ok l vs (returns p) = returns (p, refl)

  perform-pop_back :
      (xs : Cells T) (l : DList) (h : Memory T)
      → IsList h l xs
      → Returns (Does (effect pop_back (values xs))) (caught l (perform pop_back l h))
  unfolding perform effect
  perform-pop_back xs l h is = elim (snoc_cases xs) [
    | inl e ↦
        let is' = subst (IsList h l) e is in
        rw (e, pop_back-nil is')
          (returns (record { cells = []; is_list = is'; equal = refl }, refl))
    | inr (ys, (t, w), e) ↦
        let split = values-append ys ((t, w) ∷ []) in
        rw (e, split, effect-pop_back (values ys) w)
          (caught-ok l (values ys) (
            Returns-mono (pop_back-Popped ys t w (subst (IsList h l) e is))
              λ l' g p. record { cells = ys; is_list = p.0; equal = refl }))
  ]

  perform-cells :
      (op : Op T) (xs : Cells T) (l : DList) (h : Memory T)
      → IsList h l xs
      → Returns (Does (effect op (values xs))) (caught l (perform op l h))
  unfolding perform effect
  perform-cells (push_back v) xs l h is = caught-ok l (values xs ++ v ∷ []) (
      Returns-mono (push_back-append v xs is) λ l' g p. record {
        cells = xs ++ ((h.brk, v) ∷ []);
        is_list = p.0;
        equal = values-append xs ((h.brk, v) ∷ []);
      })
  perform-cells (push_front v) xs l h is = caught-ok l (v ∷ values xs) (
      Returns-mono (push_front_lem v xs is)
        λ l' g p. record { cells = (h.brk, v) ∷ xs; is_list = p.0; equal = refl })
  perform-cells pop_back xs l h is = perform-pop_back xs l h is
  perform-cells pop_front [] l h is =
      rw (pop_front-nil is) (returns (record { cells = []; is_list = is; equal = refl }, refl))
  perform-cells pop_front ((p, v) ∷ xs) l h is = caught-ok l (values xs) (
      Returns-mono (pop_front-Popped p v xs is)
        λ l' g p. record { cells = xs; is_list = p.0; equal = refl })
  perform-cells erase_all xs l h is = caught-ok l [] (
      Returns-mono (erase_all-Erased xs is)
        λ l' g p. record { cells = []; is_list = p.0; equal = refl })

  -- Every mutating call on a well-formed list returns or throws as promised, and leaves a
  -- well-formed list of the promised values.
  pub perform-effect :
      (op : Op T) (vs : List T) (l : DList) (h : Memory T)
      → Holds vs l h
      → Returns (Does (effect op vs)) (caught l (perform op l h))
  perform-effect op vs l h holds =
      subst (λ vs. Returns (Does (effect op vs)) (caught l (perform op l h))) holds.equal
        (perform-cells op holds.cells l h holds.is_list)

  abbrev pub AllDone :
      List T × List (Option Exception) → DList × List (Option Exception) → Memory T → Type ℓ
  AllDone (vs, es) (l, xs) h = Holds vs l h × (xs ≡ es)

  logged-AllDone :
      (vs : List T) (es : List (Option Exception)) (x e : Option Exception)
      {r : Run T (DList × List (Option Exception))}
      → x ≡ e
      → Returns (AllDone (vs, es)) r
      → Returns (AllDone (vs, e ∷ es)) (logged x r)
  logged-AllDone vs es x e same (returns (p, q)) = returns (p, ap₂ ◌∷◌ same q)

  -- From a well-formed list with the values `vs`, any history of the mutating calls, each
  -- exception caught, does what it promises on the sequence of values: it ends without a fault in
  -- a well-formed list of the promised values, and every call throws what is promised.
  pub run-effects :
      (ops : List (Op T)) (vs : List T) (l : DList) (h : Memory T)
      → Holds vs l h
      → Returns (AllDone (effects ops vs)) (run ops l h)
  unfolding run effects
  run-effects [] vs l h holds = returns (holds, refl)
  run-effects (op ∷ ops) vs l h holds =
      Returns-bind (perform-effect op vs l h holds) λ (l', x) g done.
        logged-AllDone _ _ x _ done.1 (run-effects ops (effect op vs).0 l' g done.0)
