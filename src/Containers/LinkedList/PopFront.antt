-- ===== src/Containers/LinkedList/PopFront.antt =====
-- `pop_front` and `front` of list.hpp.
use gss.Base.{◌≡◌, ◌≢◌, refl, false, true, [], ◌∷◌, arith, some, none, ◌==◌, sym, ◌∙◌}
use gss.Base.Try.{out_of_range}
use gss.Containers.Memory.{Ptr, nullptr, node, Memory, write, thrown, ok, put, put_self, put-ne}
use gss.Containers.Memory.Access.{Holds, not_null, load-ok, set_prev-ok, delete-ok}
use gss.Containers.Memory.Chain.{Cells, has-ne, first, last, Chain-frame}
use gss.Containers.Memory.Ends.{has-last}
use gss.Containers.Memory.Returns.{Returns, returns}
use gss.Containers.LinkedList.{DList, pop_front, front}
use gss.Containers.LinkedList.Spec.{IsList, Popped, IsList-empty}

module _ {ℓ} {T : Type ℓ} {h : Memory T} {l : DList} where
  -- On an empty list both throw, with this message, and change nothing.
  pub pop_front-nil : IsList h l [] → pop_front l h ≡ thrown (out_of_range "Empty list.") h
  unfolding pop_front
  pop_front-nil is = rw is.head

  pub front-nil : IsList h l [] → front l h ≡ thrown (out_of_range "Empty list.") h
  unfolding front
  front-nil is = rw is.head

  -- `front` reads the first value and changes nothing.
  pub front-first : (p : Ptr) (v : T) (xs : Cells T) → IsList h l ((p, v) ∷ xs) → front l h ≡ ok v h
  unfolding front
  front-first p v xs is =
      let e : Holds h p (node v (first xs nullptr) nullptr) = record {
        pos = is.chain.1;
        at = is.chain.0;
      } in
      rw (is.head, not_null e, load-ok e)

  pop_front-one :
      (p : Ptr) (v : T)
      → IsList h l ((p, v) ∷ [])
      → Returns (Popped h p ((p, v) ∷ []) []) (pop_front l h)
  unfolding pop_front
  pop_front-one p v is =
      let e : Holds h p (node v nullptr nullptr) = record { pos = is.chain.1; at = is.chain.0 } in
      let same : (p == p) ≡ true = ground arith in
      rw (is.head, is.tail, not_null e, same, delete-ok e)
        (returns (
          IsList-empty (omega (arith, is.room)),
          record { grows = omega arith; same = λ a below out. put-ne _ p _ a (λ q. ground arith) },
          put_self _ p _,
          refl,
        ))

  pop_front-more :
      (p : Ptr) (v : T) (q : Ptr) (w : T) (zs : Cells T)
      → IsList h l ((p, v) ∷ (q, w) ∷ zs)
      → Returns (Popped h p ((p, v) ∷ (q, w) ∷ zs) ((q, w) ∷ zs)) (pop_front l h)
  unfolding pop_front
  pop_front-more p v q w zs is =
      let rest : Cells T = (q, w) ∷ zs in
      let c = is.chain in
      let at_p : Holds h p (node v q nullptr) = record { pos = c.1; at = c.0 } in
      let at_q : Holds h q (node w (first zs nullptr) p) = record { pos = c.4.1; at = c.4.0 } in
      let q_ne_p : q ≢ p = has-ne rest (ground arith) c.3 in
      let tail_ne : (last p rest == p) ≡ false =
        let ne = has-ne rest (has-last p (q, w) zs) c.3 in ground arith in
      let cut : Holds (write h q (some (node w (first zs nullptr) nullptr))) p (node v q nullptr) =
        record { pos = c.1; at = put-ne _ q _ p (λ e. q_ne_p (sym e)) ∙ c.0 } in
      rw (is.head, not_null at_p, is.tail, tail_ne, load-ok at_p, set_prev-ok at_q, delete-ok cut)
        (returns (
          record {
            chain = (
              put-ne _ p _ q q_ne_p ∙ put_self _ q _,
              c.4.1,
              c.4.2,
              c.4.3,
              Chain-frame h _ q nullptr zs c.4.4 (omega arith)
                  λ a i. unlinked a (has-ne zs i c.4.3) (has-ne rest (ground arith) c.3),
            );
            head = refl;
            tail = refl;
            room = omega (arith, is.room);
          },
          record {
            grows = omega arith;
            same = λ a below out. unlinked a (λ e. ground arith) (λ e. ground arith);
          },
          put_self _ p _,
          refl,
        ))
    where
      unlinked :
          (a : Ptr)
          → a ≢ q
          → a ≢ p
          → put (put h.cell q (some (node w (first zs nullptr) nullptr))) p none a ≡ h.cell a
      unlinked a ne_q ne_p = put-ne _ p _ a ne_p ∙ put-ne _ q _ a ne_q

module _ {ℓ} {T : Type ℓ} {h : Memory T} {l : DList} where
  -- On a well-formed list that is not empty, `pop_front` returns, has deleted the first node, and
  -- leaves a well-formed list of the others; no address outside the list has changed.
  pub pop_front-Popped :
      (p : Ptr) (v : T) (xs : Cells T)
      → IsList h l ((p, v) ∷ xs)
      → Returns (Popped h p ((p, v) ∷ xs) xs) (pop_front l h)
  pop_front-Popped p v [] is = pop_front-one p v is
  pop_front-Popped p v ((q, w) ∷ zs) is = pop_front-more p v q w zs is
