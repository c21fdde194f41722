-- ===== src/Containers/LinkedList/Traverse.antt =====
-- `size`, `empty`, the iterator and `print` of list.hpp.
use gss.Base.{
  ℕ, zero, suc, ◌+◌, ◌%◌, ◌^◌, ◌<◌, ◌≡◌, false, true, List, [], ◌∷◌, ◌++◌, length, arith, ◌==◌,
  append-nil, list_laws, ap, ◌∙◌, ==-of_ne, sym,
}
use gss.Containers.Memory.{Ptr, nullptr, node, Memory, ok}
use gss.Containers.Memory.Access.{Holds, not_null, load-ok}
use gss.Containers.Memory.Chain.{Cells, has-ne, first, last, values, Chain}
use gss.Containers.Memory.Ends.{has-last}
use gss.Containers.LinkedList.{DList, size_loop, size, empty, iterate, print_loop, print}
use gss.Containers.LinkedList.Spec.{IsList}

-- What `print` writes: the values, with "->" between them.
pub arrows {ℓ} : {T : Type ℓ} → (T → List ℕ) → List T → List ℕ
arrows show [] = []
arrows show (v ∷ []) = show v
arrows show (v ∷ w ∷ vs) = show v ++ (b'-' ∷ b'>' ∷ []) ++ arrows show (w ∷ vs)

module _ {ℓ} {T : Type ℓ} {h : Memory T} where
  size_loop-length :
      (k : ℕ) (before : Ptr) (xs : Cells T) (count : ℕ)
      → Chain h before nullptr xs
      → length xs < k
      → count + length xs < 2 ^ 64
      → size_loop k (first xs nullptr) count h ≡ ok (count + length xs) h
  unfolding size_loop
  size_loop-length zero before xs count c fuel fits = absurd (omega arith)
  size_loop-length (suc k) before [] count c fuel fits = ap (λ n. ok n h) (omega arith)
  size_loop-length (suc k) before ((p, v) ∷ xs) count c fuel fits =
      let e : Holds h p (node v (first xs nullptr) before) = record { pos = c.1; at = c.0 } in
      let wrap : (count + 1) % 2 ^ 64 ≡ count + 1 = omega arith in
      rw (not_null e, load-ok e, wrap)
        (size_loop-length k p xs (count + 1) c.4 (omega arith) (omega arith)
          ∙ ap (λ n. ok n h) (omega arith))

  iterate-values :
      (k : ℕ) (before : Ptr) (xs : Cells T) (acc : List T)
      → Chain h before nullptr xs
      → length xs < k
      → iterate k (first xs nullptr) acc h ≡ ok (acc ++ values xs) h
  unfolding iterate
  iterate-values zero before xs acc c fuel = absurd (omega arith)
  iterate-values (suc k) before [] acc c fuel = rw append-nil
  iterate-values (suc k) before ((p, v) ∷ xs) acc c fuel =
      let e : Holds h p (node v (first xs nullptr) before) = record { pos = c.1; at = c.0 } in
      rw (not_null e, load-ok e)
        (rw (load-ok e) (
          iterate-values k p xs (acc ++ v ∷ []) c.4 (omega arith)
          ∙ ap (λ n. ok n h) (simp list_laws)))

  print_loop-arrows :
      (show : T → List ℕ) (k : ℕ) (before : Ptr) (xs : Cells T) (ss : List ℕ)
      → Chain h before nullptr xs
      → length xs < k
      → print_loop show k (last before xs) (first xs nullptr) ss h
        ≡ ok (ss ++ arrows show (values xs)) h
  unfolding print_loop arrows
  print_loop-arrows show zero before xs ss c fuel = absurd (omega arith)
  print_loop-arrows show (suc k) before [] ss c fuel = rw append-nil
  print_loop-arrows show (suc k) before ((p, v) ∷ []) ss c fuel =
      let e : Holds h p (node v nullptr before) = record { pos = c.1; at = c.0 } in
      let at_tail : (p == p) ≡ true = ground arith in
      rw (not_null e, load-ok e, at_tail)
        (print_loop-arrows show k p [] (ss ++ (show v ++ [])) c.4 (omega arith)
          ∙ ap (λ n. ok n h) (simp list_laws))
  print_loop-arrows show (suc k) before ((p, v) ∷ (q, w) ∷ xs) ss c fuel =
      let rest : Cells T = (q, w) ∷ xs in
      let e : Holds h p (node v q before) = record { pos = c.1; at = c.0 } in
      let inside : (p == last p rest) ≡ false =
        ==-of_ne p (last p rest) (λ o. has-ne rest (has-last p (q, w) xs) c.3 (sym o)) in
      rw (not_null e, load-ok e, inside)
        (print_loop-arrows show k p rest (ss ++ (show v ++ (b'-' ∷ b'>' ∷ []))) c.4 (omega arith)
          ∙ ap (λ n. ok n h) (simp list_laws))

module _ {ℓ} {T : Type ℓ} {h : Memory T} {l : DList} (xs : Cells T) (is : IsList h l xs) where
  -- On a well-formed list of fewer than 2^64 nodes, `size` returns their number and changes
  -- nothing.
  pub size-length : length xs < 2 ^ 64 → size l h ≡ ok (length xs) h
  unfolding size
  size-length fits = rw is.head (
      size_loop-length h.brk nullptr xs 0 is.chain is.room (omega arith)
      ∙ ap (λ n. ok n h) (omega arith))

  -- `empty` tells whether there is none.
  pub empty_lem : length xs < 2 ^ 64 → empty l h ≡ ok (length xs == 0) h
  unfolding empty
  empty_lem fits = rw (size-length fits)

  -- A range-based `for` over a well-formed list ends, visits the values in order, and changes
  -- nothing.
  pub iterate_lem : iterate h.brk l.head [] h ≡ ok (values xs) h
  iterate_lem = rw is.head (iterate-values h.brk nullptr xs [] is.chain is.room)

-- On a well-formed list, `print` writes the values with "->" between them, and nothing for an
-- empty list, and changes nothing.
pub print-arrows {ℓ} :
    {T : Type ℓ} {h : Memory T} {l : DList} (show : T → List ℕ) (xs : Cells T)
    → IsList h l xs
    → print show l h ≡ ok (arrows show (values xs)) h
unfolding print arrows
print-arrows show [] is = rw is.head
print-arrows {h} show ((a, v) ∷ xs) is =
    let c = is.chain in
    let e : Holds h a (node v (first xs nullptr) nullptr) = record { pos = c.1; at = c.0 } in
    rw (is.head, not_null e, is.tail)
      (print_loop-arrows show h.brk nullptr ((a, v) ∷ xs) [] c is.room)
