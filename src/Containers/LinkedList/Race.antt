-- ===== src/Containers/LinkedList/Race.antt =====
-- `tasks()` of src/gss-server/shared_state.cpp copies the queue without the mutex, while
-- `process_tasks` removes tasks with `pop_front`: rounds of the copy with removals in between.
use gss.Base.{
  ℕ, zero, suc, ◌≡◌, ◌<◌, ◌==◌, refl, false, [], ◌∷◌, ◌++◌, length, none, arith, subst, sym,
}
use gss.Containers.Memory.{Ptr, nullptr, Memory, Cmd, pure, fault, load, ◌>>=◌}
use gss.Containers.Memory.Chain.{Cells, Chain, first}
use gss.Containers.Memory.Returns.{Returns, returns, Returns-bind, Returns-mono}
use gss.Containers.LinkedList.{DList, begin, empty_list, pop_front, copy_rounds, copy_loop}
use gss.Containers.LinkedList.Spec.{IsList, IsList-empty, IsList-Frame}
use gss.Containers.LinkedList.PopFront.{pop_front-Popped}
use gss.Containers.LinkedList.Copy.{Copied, copy_rounds-Copied}

module _ {ℓ} {T : Type ℓ} where
  -- `n` removals, one after the other.
  unfoldable pub pop_fronts : ℕ → DList → Cmd T DList
  unfolding pop_front
  pop_fronts zero l = pure l
  pop_fronts (suc n) l = do l' ← pop_front l; pop_fronts n l'

  -- The node behind the first `ys` is deleted by as many removals and one more.
  pop_fronts-deleted :
      (ys : Cells T) {h : Memory T} {l : DList} (p : Ptr) (v : T) (zs : Cells T)
      → IsList h l (ys ++ (p, v) ∷ zs)
      → Returns (λ _ g. g.cell p ≡ none) (pop_fronts (suc (length ys)) l h)
  unfolding pop_fronts
  pop_fronts-deleted [] p v zs is =
      Returns-bind (pop_front-Popped p v zs is) λ l' g popped. returns popped.2
  pop_fronts-deleted ((q, w) ∷ ys) p v zs is =
      Returns-bind (pop_front-Popped q w (ys ++ (p, v) ∷ zs) is)
        λ l' g popped. pop_fronts-deleted ys p v zs popped.0

  -- A node of a list is not at the null pointer.
  Chain-pos :
      (h : Memory T) (before : Ptr) (ys : Cells T) (p : Ptr) (v : T) (zs : Cells T)
      → Chain h before nullptr (ys ++ (p, v) ∷ zs)
      → 0 < p
  Chain-pos h before [] p v zs c = c.1
  Chain-pos h before ((q, _) ∷ ys) p v zs c = Chain-pos h q ys p v zs c.4

  -- Let a copy of a well-formed list run for as many rounds as the list has nodes before `p`, then
  -- let `pop_front` remove these nodes and `p`. Both return; and the next round of the copy, at any
  -- fuel, is undefined behaviour.
  pub copy_rounds-pop_fronts :
      {h : Memory T} {l : DList} (ys : Cells T) (p : Ptr) (v : T) (zs : Cells T) (k : ℕ)
      → IsList h l (ys ++ (p, v) ∷ zs)
      → Returns
          (λ (it, l1) g.
            Returns (λ _ g2. copy_loop (suc k) it l1 g2 ≡ fault) (pop_fronts (suc (length ys)) l g))
          (copy_rounds (length ys) (begin l) empty_list h)
  unfolding copy_loop load
  copy_rounds-pop_fronts {h} {l} ys p v zs k is =
      let reaches = λ (q : Ptr).
        Returns (λ (it, l1) g. (it ≡ p) × Copied h [] ys l1 g)
          (copy_rounds (length ys) q empty_list h) in
      let rounds : Returns (λ (it, l1) g. (it ≡ first ((p, v) ∷ zs) nullptr) × Copied h [] ys l1 g)
          (copy_rounds (length ys) (first (ys ++ (p, v) ∷ zs) nullptr) empty_list h) =
        copy_rounds-Copied ys nullptr ((p, v) ∷ zs) [] is.chain
          (IsList-empty (omega (arith, is.room))) (λ a i. refl) in
      let pos = Chain-pos h nullptr ys p v zs is.chain in
      let no : (p == nullptr) ≡ false = ground arith in
      Returns-mono (subst reaches (sym is.head) rounds) λ (it, l1) g (at, made).
        Returns-mono
          (pop_fronts-deleted ys p v zs
            (IsList-Frame (ys ++ (p, v) ∷ zs) [] is made.frame (λ a i. refl)))
          λ _ g2 gone. rw (at, no, gone, no)
