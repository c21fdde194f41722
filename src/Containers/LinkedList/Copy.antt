-- ===== src/Containers/LinkedList/Copy.antt =====
-- The copy constructor of list.hpp.
use gss.Base.{
  ℕ, zero, suc, ◌+◌, ◌-◌, ◌<◌, ◌≤◌, ◌≡◌, refl, false, true, [], ◌∷◌, ◌++◌, length, arith,
  Bool-cases, inl, inr, ◌==◌, append_assoc, append-nil, subst, ap, sym, ◌∙◌,
}
use gss.Containers.Memory.{Ptr, nullptr, node, Memory, and_then, and_then_assoc}
use gss.Containers.Memory.Access.{Holds, not_null, load-ok}
use gss.Containers.Memory.Chain.{Cells, has, first, values, Chain, Chain-frame}
use gss.Containers.Memory.Ends.{Chain-below, has-append, has_self, has-skip, has-append-out}
use gss.Containers.Memory.Returns.{Returns, returns, Returns-bind, Returns-mono}
use gss.Containers.LinkedList.{
  DList, empty_list, dereference, advance, push_back, copy_loop, copy_rounds, copy,
}
use gss.Containers.LinkedList.Spec.{IsList, Frame, IsList-empty, IsList-Frame}
use gss.Containers.LinkedList.Push.{push_back-append}

module _ {ℓ} {T : Type ℓ} where
  -- `l` has grown from `ys` by new nodes `zs` with the values of `xs`.
  pub record Copied (h : Memory T) (ys xs : Cells T) (l : DList) (g : Memory T) : Type ℓ where
    pub added : Cells T
    pub is_list : IsList g l (ys ++ added)
    pub equal : values added ≡ values xs
    pub frame : Frame h g ys
    pub fresh : (a : Ptr) → has a added ≡ true → h.brk ≤ a

  Copied-cons :
      {h h1 g : Memory T} {l : DList} (ys xs : Cells T) (p : Ptr) (v : T)
      → Frame h h1 ys
      → Copied h1 (ys ++ ((h.brk, v) ∷ [])) xs l g
      → Copied h ys ((p, v) ∷ xs) l g
  Copied-cons {h} {h1} {g} {l} ys xs p v step rest = record {
    added = (h.brk, v) ∷ rest.added;
    is_list = subst (IsList g l) (append_assoc ys ((h.brk, v) ∷ []) rest.added) rest.is_list;
    equal = ap (◌∷◌ v) rest.equal;
    frame = record {
      grows = omega (arith, step.grows, rest.frame.grows);
      same = λ a below out.
          rest.frame.same a (omega (arith, step.grows))
            (ground (arith, has-append a ys ((h.brk, v) ∷ [])))
          ∙ step.same a below out;
    };
    fresh = λ a i. ground (arith, rest.fresh a, step.grows);
  }

  -- The loop is its first rounds and then the others.
  copy_loop-rounds :
      (n k : ℕ) (it : Ptr) (l : DList) (h : Memory T)
      → copy_loop (n + suc k) it l h
        ≡ and_then (copy_rounds n it l h) λ (it', l'). copy_loop (suc k) it' l'
  unfolding copy_loop copy_rounds
  copy_loop-rounds zero k it l h = let e : 0 + suc k ≡ suc k = omega arith in rw e refl
  copy_loop-rounds (suc n) k it l h =
      let e : suc n + suc k ≡ suc (n + suc k) = omega arith in
      rw e (elim (Bool-cases (it == nullptr)) [
        | inl t ↦ rw (t, copy_loop, t)
        | inr t ↦ rw t (
            and_then_assoc (dereference it h) _ _ λ elem h1.
              and_then_assoc (push_back elem l h1) _ _ λ l' h2.
                and_then_assoc (advance it h2) _ _ λ it' h3. copy_loop-rounds n k it' l' h3)
      ])

  -- The rounds over the first cells `xs` of a list leave the iterator at the node behind them.
  pub copy_rounds-Copied :
      (xs : Cells T) {h : Memory T} {l : DList} (before : Ptr) (rest ys : Cells T)
      → Chain h before nullptr (xs ++ rest)
      → IsList h l ys
      → ((a : Ptr) → has a (xs ++ rest) ≡ true → has a ys ≡ false)
      → Returns
          (λ (it, l') g. (it ≡ first rest nullptr) × Copied h ys xs l' g)
          (copy_rounds (length xs) (first (xs ++ rest) nullptr) l h)
  unfolding copy_rounds
  copy_rounds-Copied [] before rest ys c is apart = returns (
    refl,
    record {
      added = [];
      is_list = rw append-nil is;
      equal = refl;
      frame = record { grows = omega arith; same = λ a below out. refl };
      fresh = λ a i. cc;
    },
  )
  copy_rounds-Copied ((p, v) ∷ xs) {h} {l} before rest ys c is apart =
      let left : Cells T = xs ++ rest in
      let e : Holds h p (node v (first left nullptr) before) = record { pos = c.1; at = c.0 } in
      rw (not_null e, load-ok e)
        (Returns-bind (push_back-append v ys is) λ l1 h1 pushed.
          let step = pushed.1 in
          let still : Holds h1 p (node v (first left nullptr) before) = record {
            pos = c.1;
            at = step.same p c.2 (apart p (has_self p v left)) ∙ c.0;
          } in
          let below = λ (a : Ptr) (i : has a left ≡ true). Chain-below h p nullptr left c.4 a i in
          let c1 =
            Chain-frame h h1 p nullptr left c.4 step.grows
              λ a i. step.same a (below a i) (apart a (has-skip a p v left i)) in
          rw (load-ok still) (
            Returns-mono
              (copy_rounds-Copied xs p rest (ys ++ ((h.brk, v) ∷ [])) c1 pushed.0 λ a i.
                has-append-out a ys h.brk v (apart a (has-skip a p v left i))
                  (omega (arith, below a i)))
              λ (it, l2) g (at, made). (at, Copied-cons ys xs p v step made)))

  -- The whole loop, when there are rounds enough.
  copy_loop-Copied :
      (k : ℕ) {h : Memory T} {l : DList} (xs ys : Cells T)
      → Chain h nullptr nullptr xs
      → IsList h l ys
      → ((a : Ptr) → has a xs ≡ true → has a ys ≡ false)
      → length xs < k
      → Returns (Copied h ys xs) (copy_loop k (first xs nullptr) l h)
  unfolding copy_loop
  copy_loop-Copied k {h} {l} xs ys c is apart enough =
      let more : ℕ = k - length xs - 1 in
      let e : k ≡ length xs + suc more = omega arith in
      let all : xs ++ [] ≡ xs = append-nil xs in
      let rounds : Returns (λ (it, l') g. (it ≡ nullptr) × Copied h ys xs l' g)
          (copy_rounds (length xs) (first xs nullptr) l h) =
        subst
          (λ zs.
            Returns (λ (it, l') g. (it ≡ nullptr) × Copied h ys xs l' g)
              (copy_rounds (length xs) (first zs nullptr) l h))
          all (copy_rounds-Copied xs nullptr [] ys (rw append-nil c) is (rw append-nil apart)) in
      rw (e, copy_loop-rounds (length xs) more (first xs nullptr) l h)
        (Returns-bind rounds λ (it, l') g (at, made). rw (at, copy_loop) (returns made))

  abbrev pub Duplicate : Memory T → Cells T → DList → DList → Memory T → Type ℓ
  Duplicate h xs other l g = IsList g other xs × Copied h [] xs l g

  -- At a well-formed `other`, the copy constructor returns a well-formed list of new nodes with
  -- the values of `other`, and leaves `other` and every address in use as they were.
  pub copy-Copied :
      {h : Memory T} {other : DList} (xs : Cells T)
      → IsList h other xs
      → Returns (Duplicate h xs other) (copy other h)
  unfolding copy
  copy-Copied {h} {other} xs is =
      subst (λ p. Returns (Duplicate h xs other) (copy_loop h.brk p empty_list h)) (sym is.head)
        (Returns-mono
          (copy_loop-Copied h.brk xs [] is.chain (IsList-empty (omega (arith, is.room)))
            (λ a i. refl) is.room)
          λ l g c. (IsList-Frame xs [] is c.frame (λ a i. refl), c))
