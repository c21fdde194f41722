-- ===== src/Containers/LinkedList/PopBack.antt =====
-- `pop_back` and `back` of list.hpp.
use gss.Base.{
  ◌≡◌, ◌≢◌, refl, false, true, inl, inr, [], ◌∷◌, ◌++◌, length-append, arith, some, none, ◌==◌,
  snoc_cases, subst, sym, ◌∙◌,
}
use gss.Base.Try.{out_of_range}
use gss.Containers.Memory.{Ptr, nullptr, node, Memory, write, thrown, ok, put, put_self, put-ne}
use gss.Containers.Memory.Access.{Holds, not_null, load-ok, set_next-ok, delete-ok}
use gss.Containers.Memory.Chain.{Cells, has-ne, last, Chain-frame}
use gss.Containers.Memory.Ends.{
  Chain-unsnoc, Chain-snoc, first-append, last-append, has-append-ne, has-front, has-first,
  has-snoc,
}
use gss.Containers.Memory.Returns.{Returns, returns}
use gss.Containers.LinkedList.{DList, pop_back, back}
use gss.Containers.LinkedList.Spec.{IsList, Ends, Popped, IsList-Ends, IsList-empty}

module _ {ℓ} {T : Type ℓ} {h : Memory T} {l : DList} where
  -- On an empty list both throw, with these messages, and change nothing.
  pub pop_back-nil : IsList h l [] → pop_back l h ≡ thrown (out_of_range "Stack underflow.") h
  unfolding pop_back
  pop_back-nil is = rw is.head

  pub back-nil : IsList h l [] → back l h ≡ thrown (out_of_range "Empty list") h
  unfolding back
  back-nil is = rw is.tail

  pop_back-one :
      (t : Ptr) (w : T)
      → IsList h l ((t, w) ∷ [])
      → Returns (Popped h t ((t, w) ∷ []) []) (pop_back l h)
  unfolding pop_back
  pop_back-one t w is =
      let e : Holds h t (node w nullptr nullptr) = record { pos = is.chain.1; at = is.chain.0 } in
      let same : (t == t) ≡ true = ground arith in
      rw (is.head, is.tail, not_null e, same, delete-ok e)
        (returns (
          IsList-empty (omega (arith, is.room)),
          record {
            grows = omega arith;
            same = λ a below out. put-ne _ t _ a (has-append-ne a [] t w out);
          },
          put_self _ t _,
          refl,
        ))

  pop_back-snoc :
      (zs : Cells T) (p : Ptr) (u : T) (t : Ptr) (w : T)
      → IsList h l ((zs ++ ((p, u) ∷ [])) ++ ((t, w) ∷ []))
      → Ends h l (zs ++ ((p, u) ∷ [])) t w
      → Returns
          (Popped h t ((zs ++ ((p, u) ∷ [])) ++ ((t, w) ∷ [])) (zs ++ ((p, u) ∷ [])))
          (pop_back l h)
  unfolding pop_back
  pop_back-snoc zs p u t w is e =
      let tip = e.tip in
      let at_t : Holds h t (node w nullptr p) = rw (← last-append nullptr zs p u) tip.holds in
      let tip' = Chain-unsnoc h nullptr t zs p u tip.front in
      let p_ne_t : p ≢ t = has-ne (zs ++ ((p, u) ∷ [])) (has-snoc zs p u) tip.out in
      let head_ne : (t == l.head) ≡ false =
        let q = has-ne (zs ++ ((p, u) ∷ [])) (has-first zs p u t) tip.out in
        let eq = e.head_eq in ground arith in
      let cut : Holds (write h p (some (node u nullptr (last nullptr zs)))) t (node w nullptr p) =
        record { pos = at_t.pos; at = put-ne _ p _ t (λ q. p_ne_t (sym q)) ∙ at_t.at } in
      rw
        (
          not_null e.head_holds,
          e.tail_eq,
          head_ne,
          load-ok at_t,
          set_next-ok tip'.holds,
          delete-ok cut,
        )
        (returns (
          record {
            chain = Chain-snoc _ nullptr nullptr zs p u (record {
              front = Chain-frame h _ nullptr p zs tip'.front (omega arith) λ a i.
                  unlinked a (has-ne zs i tip'.out) (has-ne zs i (has-front t zs p u tip.out));
              holds = record { pos = tip'.holds.pos; at = put-ne _ t _ p p_ne_t ∙ put_self _ p _ };
              below = tip'.below;
              out = tip'.out;
            });
            head = e.head_eq ∙ first-append zs p u t ∙ sym (first-append zs p u nullptr);
            tail = sym (last-append nullptr zs p u);
            room = omega (arith, is.room, length-append {ℓ} (zs ++ ((p, u) ∷ [])) ((t, w) ∷ []));
          },
          record {
            grows = omega arith;
            same = λ a below out.
                unlinked a (has-append-ne a zs p u (has-front a (zs ++ ((p, u) ∷ [])) t w out))
                  (has-append-ne a (zs ++ ((p, u) ∷ [])) t w out);
          },
          put_self _ t _,
          refl,
        ))
    where
      unlinked :
          (a : Ptr)
          → a ≢ p
          → a ≢ t
          → put (put h.cell p (some (node u nullptr (last nullptr zs)))) t none a ≡ h.cell a
      unlinked a ne_p ne_t = put-ne _ t _ a ne_t ∙ put-ne _ p _ a ne_p

  -- On a well-formed list that is not empty, `pop_back` returns, has deleted the last node, and
  -- leaves a well-formed list of the others; no address outside the list has changed.
  pub pop_back-Popped :
      (ys : Cells T) (t : Ptr) (w : T)
      → IsList h l (ys ++ ((t, w) ∷ []))
      → Returns (Popped h t (ys ++ ((t, w) ∷ [])) ys) (pop_back l h)
  pop_back-Popped ys t w is = elim (snoc_cases ys) [
    | inl e ↦ rw e (pop_back-one t w (subst (λ ys. IsList h l (ys ++ ((t, w) ∷ []))) e is))
    | inr (zs, (p, u), e) ↦
        let is' = subst (λ ys. IsList h l (ys ++ ((t, w) ∷ []))) e is in
        rw e (pop_back-snoc zs p u t w is' (IsList-Ends (zs ++ ((p, u) ∷ [])) t w is'))
  ]

  -- `back` reads the last value and changes nothing.
  pub back-last :
      (ys : Cells T) (t : Ptr) (w : T) → IsList h l (ys ++ ((t, w) ∷ [])) → back l h ≡ ok w h
  unfolding back
  back-last ys t w is =
      let e = IsList-Ends ys t w is in rw (e.tail_eq, not_null e.tip.holds, load-ok e.tip.holds)
