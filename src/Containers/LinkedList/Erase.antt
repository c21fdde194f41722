-- ===== src/Containers/LinkedList/Erase.antt =====
-- `erase_all` and the destructor of list.hpp.
use gss.Base.{
  ℕ, zero, suc, ◌<◌, ◌≡◌, refl, false, true, inl, inr, [], ◌∷◌, ◌++◌, length, length-append, arith,
  none, ◌==◌, ==-of_ne, ==_iff, Bool-cases, snoc_cases, subst, sym, ap, ◌∙◌,
}
use gss.Containers.Memory.{Ptr, nullptr, node, Memory, write, put, put_self, put-ne}
use gss.Containers.Memory.Access.{Holds, not_null, load-ok, delete-ok}
use gss.Containers.Memory.Chain.{Cells, has, has-ne, first, last, Chain, Chain-frame}
use gss.Containers.Memory.Ends.{
  Chain-unsnoc, last-append, has-append-ne, has-front, has-append, has_self, has-tail, has-cons-ne,
}
use gss.Containers.Memory.Returns.{Returns, returns, Returns-bind, Returns-mono}
use gss.Containers.LinkedList.{DList, empty_list, erase_loop, erase_all}
use gss.Containers.LinkedList.Spec.{IsList, IsList-empty}

-- From `h` to `g` the nodes `xs` are deleted and no other address has changed.
pub record Erased {ℓ} {T : Type ℓ} (h g : Memory T) (xs : Cells T) : Type ℓ where
  pub freed : (a : Ptr) → has a xs ≡ true → g.cell a ≡ none
  pub same : (a : Ptr) → has a xs ≡ false → g.cell a ≡ h.cell a
  pub brk : g.brk ≡ h.brk

module _ {ℓ} {T : Type ℓ} where
  Erased-snoc :
      {h g : Memory T} (ys : Cells T) (t : Ptr) (w : T)
      → Erased (write h t none) g ys
      → has t ys ≡ false
      → Erased h g (ys ++ ((t, w) ∷ []))
  Erased-snoc {h} {g} ys t w er out = record {
    freed = λ a i. elim (Bool-cases (has a ys)) [
      | inl old ↦ er.freed a old
      | inr new ↦
          let at_t : a ≡ t = ground (arith, has-append a ys ((t, w) ∷ [])) in
          subst (λ b. g.cell b ≡ none) (sym at_t) (er.same t out ∙ put_self h.cell t none)
    ];
    same =
        λ a o. er.same a (has-front a ys t w o) ∙ put-ne h.cell t none a (has-append-ne a ys t w o);
    brk = er.brk;
  }

  Erased-cons :
      {h g : Memory T} (p : Ptr) (v : T) (xs : Cells T)
      → Erased h g xs
      → Erased h (write g p none) ((p, v) ∷ xs)
  Erased-cons {h} {g} p v xs er = record {
    freed = λ a i. elim (Bool-cases (a == p)) [
      | inl here ↦
          subst (λ b. put g.cell p none b ≡ none) (sym ((==_iff a p).0 here))
            (put_self g.cell p none)
      | inr there ↦ put-ne g.cell p none a (λ q. ground arith) ∙ er.freed a (ground arith)
    ];
    same = λ a o. put-ne g.cell p none a (has-cons-ne a p v xs o) ∙ er.same a (has-tail a p v xs o);
    brk = er.brk;
  }

  -- The loop deletes the nodes behind the first, `(p, v)`.
  erase_loop-Erased :
      (k : ℕ) {h : Memory T} (p : Ptr) (v : T) (xs : Cells T) (stop : Ptr)
      → Chain h nullptr stop ((p, v) ∷ xs)
      → length xs < k
      → Returns (λ _ g. Erased h g xs) (erase_loop k p (last p xs) h)
  unfolding erase_loop
  erase_loop-Erased zero p v xs stop c fuel = absurd (omega arith)
  erase_loop-Erased (suc k) {h} p v xs stop c fuel = elim (snoc_cases xs) [
    | inl e ↦
        let here : (p == p) ≡ true = ground arith in
        rw (e, here) (returns (record { freed = λ a i. cc; same = λ a o. refl; brk = refl }))
    | inr (ys, (t, w), e) ↦
        let tip =
          Chain-unsnoc h nullptr stop ((p, v) ∷ ys) t w
            (subst (λ xs. Chain h nullptr stop ((p, v) ∷ xs)) e c) in
        let at_t = tip.holds in
        let apart : (p == t) ≡ false =
          ==-of_ne p t (has-ne ((p, v) ∷ ys) (has_self p v ys) tip.out) in
        let out : has t ys ≡ false = has-tail t p v ys tip.out in
        let front =
          Chain-frame h (write h t none) nullptr t ((p, v) ∷ ys) tip.front (omega arith)
            λ a i. put-ne h.cell t none a (has-ne ((p, v) ∷ ys) i tip.out) in
        let size = length-append {ℓ} ys ((t, w) ∷ []) in
        rw (e, last-append p ys t w, apart, load-ok at_t, delete-ok at_t)
          (Returns-mono (erase_loop-Erased k p v ys t front (omega (arith, ap length e, size)))
            λ _ g er. Erased-snoc ys t w er out)
  ]

  -- On a well-formed list, `erase_all` returns the empty list; it has deleted every node of the
  -- list and changed no other address.
  pub erase_all-Erased :
      {h : Memory T} {l : DList} (xs : Cells T)
      → IsList h l xs
      → Returns (λ l' g. IsList g l' [] × (l' ≡ empty_list) × Erased h g xs) (erase_all l h)
  unfolding erase_all
  erase_all-Erased {h} {l} [] is =
      let nil : l ≡ empty_list = λ i. record { head = is.head i; tail = is.tail i } in
      rw nil (
        returns (
          IsList-empty is.room,
          refl,
          record { freed = λ a i. cc; same = λ a o. refl; brk = refl },
        ))
  erase_all-Erased {h} ((p, v) ∷ xs) is =
      let c = is.chain in
      let e : Holds h p (node v (first xs nullptr) nullptr) = record { pos = c.1; at = c.0 } in
      rw (is.head, not_null e, is.tail)
        (Returns-bind (erase_loop-Erased h.brk p v xs nullptr c (omega (arith, is.room))) λ _ g er.
          let left : Holds g p (node v (first xs nullptr) nullptr) = record {
            pos = c.1;
            at = er.same p c.3 ∙ c.0;
          } in
          rw (delete-ok left)
            (returns (IsList-empty (omega (arith, er.brk, is.room)), refl, Erased-cons p v xs er)))
