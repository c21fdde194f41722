-- ===== src/Containers/LinkedList/Push.antt =====
-- `push_back` and `push_front` of list.hpp.
mod Growth
use gss.Base.{
  suc, ◌<◌, ◌≡◌, refl, true, inl, inr, [], ◌∷◌, ◌++◌, length-append, arith, some, ◌≢◌, snoc_cases,
  subst, ◌∙◌,
}
use gss.Containers.Memory.{Ptr, nullptr, Node, node, Memory, write, new, put, put_self, put-ne}
use gss.Containers.Memory.Access.{Holds, not_null, load-ok, set_next-ok, set_prev-ok}
use gss.Containers.Memory.Chain.{Cells, has, has-ne, first, last, Chain, Chain-frame}
use gss.Containers.Memory.Ends.{
  Tip, Chain-snoc, Chain-below, fresh-out, first-append, last-append, has-append, has-append-ne,
}
use gss.Containers.Memory.Returns.{Returns, returns}
use gss.Containers.LinkedList.{DList, check_ends, push_back, push_front}
use gss.Containers.LinkedList.Spec.{IsList, Frame, Ends, IsList-Ends, LastNode, IsList-last}
use gss.Containers.LinkedList.Push.Growth.{grown, fresh-Holds, grown-Holds, linked-Chain}

module _ {ℓ} {T : Type ℓ} {h : Memory T} (v : T) {l : DList} where
  push_back-nil :
      IsList h l []
      → Returns (λ l' g. IsList g l' ((h.brk, v) ∷ []) × Frame h g []) (push_back v l h)
  unfolding push_back new
  push_back-nil is = rw is.head (
      returns (
        record {
          chain = ((fresh-Holds h v (omega arith)).at, omega arith, omega arith, refl, tt);
          head = refl;
          tail = refl;
          room = omega arith;
        },
        record { grows = omega arith; same = λ a below out. put-ne _ _ _ a (omega arith) },
      ))

  push_front-nil :
      IsList h l []
      → Returns (λ l' g. IsList g l' ((h.brk, v) ∷ []) × Frame h g []) (push_front v l h)
  unfolding push_front new
  push_front-nil is = rw is.head (
      returns (
        record {
          chain = ((fresh-Holds h v (omega arith)).at, omega arith, omega arith, refl, tt);
          head = refl;
          tail = refl;
          room = omega arith;
        },
        record { grows = omega arith; same = λ a below out. put-ne _ _ _ a (omega arith) },
      ))

  push_back-snoc :
      (ys : Cells T) (t : Ptr) (w : T)
      → IsList h l (ys ++ ((t, w) ∷ []))
      → Ends h l ys t w
      → Returns
          (λ l' g.
            IsList g l' ((ys ++ ((t, w) ∷ [])) ++ ((h.brk, v) ∷ []))
            × Frame h g (ys ++ ((t, w) ∷ [])))
          (push_back v l h)
  unfolding push_back new check_ends
  push_back-snoc ys t w is e =
      let tip = e.tip in
      let fresh = fresh-Holds h v (omega (arith, is.room)) in
      let below = tip.below in
      let before = last nullptr ys in
      let f = h.brk in
      let linked : Holds (write (grown h v) f (some (node v nullptr t))) t (node w nullptr before) =
        record {
          pos = tip.holds.pos;
          at = put-ne _ f _ t (omega arith) ∙ put-ne _ f _ t (omega arith) ∙ tip.holds.at;
        } in
      rw
        (
          not_null e.head_holds,
          load-ok (grown-Holds v e.head_holds e.head_below),
          e.tail_eq,
          load-ok (grown-Holds v tip.holds below),
          e.head_prev,
          set_prev-ok fresh,
          set_next-ok linked,
        )
        (returns (
          record {
            chain =
                linked-Chain _ v ys t w tip (omega arith) (omega (arith, is.room)) (put_self _ t _)
                  (put-ne _ t _ f (omega arith) ∙ put_self _ f _)
                  λ a i.
                    relinked a (has-ne ys i tip.out)
                      (omega (arith, Chain-below h nullptr t ys tip.front a i));
            head = rw (first-append, first-append) e.head_eq;
            tail = rw last-append;
            room = omega (arith, is.room, length-append {ℓ} (ys ++ ((t, w) ∷ [])) ((f, v) ∷ []));
          },
          record {
            grows = omega arith;
            same = λ a new out. relinked a (has-append-ne a ys t w out) (omega arith);
          },
        ))
    where
      relinked :
          (a : Ptr)
          → a ≢ t
          → a ≢ h.brk
          → put
              (put
                (put h.cell h.brk (some (node v nullptr nullptr)))
                h.brk
                (some (node v nullptr t)))
              t
              (some (node w h.brk (last nullptr ys)))
              a
            ≡ h.cell a
      relinked a ne_t ne_f = put-ne _ t _ a ne_t ∙ put-ne _ _ _ a ne_f ∙ put-ne _ _ _ a ne_f

module _ {ℓ} {T : Type ℓ} {h : Memory T} (v : T) {l : DList} where
  -- On a well-formed list, `push_back` returns a well-formed list with a new node of the value, at
  -- the address that `new` gives, behind the others; no other address in use outside the list has
  -- changed.
  pub push_back-append :
      (xs : Cells T)
      → IsList h l xs
      → Returns (λ l' g. IsList g l' (xs ++ ((h.brk, v) ∷ [])) × Frame h g xs) (push_back v l h)
  push_back-append xs is = elim (snoc_cases xs) [
    | inl e ↦ rw e (push_back-nil v (subst (IsList h l) e is))
    | inr (ys, (t, w), e) ↦
        let is' = subst (IsList h l) e is in
        rw e (push_back-snoc v ys t w is' (IsList-Ends ys t w is'))
  ]

  push_front-cons :
      (p : Ptr) (w : T) (zs : Cells T)
      → IsList h l ((p, w) ∷ zs)
      → LastNode h l
      → Returns
          (λ l' g. IsList g l' ((h.brk, v) ∷ (p, w) ∷ zs) × Frame h g ((p, w) ∷ zs))
          (push_front v l h)
  unfolding push_front new check_ends
  push_front-cons p w zs is e =
      let f = h.brk in
      let after = first zs nullptr in
      let c = is.chain in
      let first_node : Holds h p (node w after nullptr) = record { pos = c.1; at = c.0 } in
      let fresh = fresh-Holds h v (omega (arith, is.room)) in
      let linked : Holds (write (grown h v) f (some (node v p nullptr))) p (node w after nullptr) =
        record {
          pos = c.1;
          at = put-ne _ f _ p (omega (arith, c.2)) ∙ put-ne _ f _ p (omega (arith, c.2)) ∙ c.0;
        } in
      rw
        (
          is.head,
          not_null first_node,
          load-ok (grown-Holds v first_node c.2),
          load-ok (grown-Holds v e.tail_holds e.tail_below),
          e.tail_next,
          set_next-ok fresh,
          set_prev-ok linked,
        )
        (returns (
          record {
            chain = (
              put-ne _ p _ f (omega (arith, c.2)) ∙ put_self _ f _,
              omega (arith, is.room),
              omega arith,
              fresh-out h nullptr nullptr ((p, w) ∷ zs) c,
              (
                put_self _ p _,
                c.1,
                omega (arith, c.2),
                c.3,
                Chain-frame h _ p nullptr zs c.4 (omega arith) λ a i.
                    relinked a (has-ne zs i c.3)
                      (omega (arith, Chain-below h p nullptr zs c.4 a i)),
              ),
            );
            head = refl;
            tail = is.tail;
            room = omega (arith, is.room);
          },
          record {
            grows = omega arith;
            same = λ a new out. relinked a (λ q. ground arith) (omega arith);
          },
        ))
    where
      relinked :
          (a : Ptr)
          → a ≢ p
          → a ≢ h.brk
          → put
              (put
                (put h.cell h.brk (some (node v nullptr nullptr)))
                h.brk
                (some (node v p nullptr)))
              p
              (some (node w (first zs nullptr) h.brk))
              a
            ≡ h.cell a
      relinked a ne_p ne_f = put-ne _ p _ a ne_p ∙ put-ne _ _ _ a ne_f ∙ put-ne _ _ _ a ne_f

  -- On a well-formed list, `push_front` returns a well-formed list with a new node of the value,
  -- at the address that `new` gives, before the others; no other address in use outside the list
  -- has changed.
  pub push_front_lem :
      (xs : Cells T)
      → IsList h l xs
      → Returns (λ l' g. IsList g l' ((h.brk, v) ∷ xs) × Frame h g xs) (push_front v l h)
  push_front_lem [] is = push_front-nil v is
  push_front_lem ((p, w) ∷ zs) is =
      push_front-cons p w zs is (IsList-last ((p, w) ∷ zs) (omega arith) is)
