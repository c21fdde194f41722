-- ===== src/Containers/Queue/LinkedQueue.antt =====
-- The linked list of list.hpp fills the interface of the task queue.
use gss.Base.{
  suc, none, ◌^◌, ◌<◌, ◌≡◌, refl, Bool, true, false, List, [], ◌∷◌, ◌++◌, length, ap, sym, ◌∙◌,
  arith, ◌==◌,
}
use gss.Base.Try.{out_of_range, Try, returned, raised}
use gss.Containers.Memory.{Ptr, Memory, Run, ok, thrown}
use gss.Containers.Memory.Chain.{Cells, values}
use gss.Containers.Memory.Ends.{values-append}
use gss.Containers.Memory.Returns.{Returns, Returns-ok, Returns-mono}
use gss.Containers.LinkedList
use gss.Containers.LinkedList.{DList, empty_list}
use gss.Containers.LinkedList.Spec.{IsList, IsList-empty}
use gss.Containers.LinkedList.Push.{push_back-append}
use gss.Containers.LinkedList.PopFront.{pop_front-nil, pop_front-Popped, front-nil, front-first}
use gss.Containers.LinkedList.Traverse.{empty_lem}
use gss.Containers.Queue.{Queue}

-- A list object with its memory, well-formed.
pub record Linked {ℓ} (T : Type ℓ) : Type ℓ where
  pub list : DList
  pub memory : Memory T
  pub cells : Cells T
  pub is_list : IsList memory list cells

module _ {ℓ} {T : Type ℓ} where
  linked_of :
      {r : Run T DList} (xs : Cells T)
      → Returns (λ l h. IsList h l xs) r
      → (q : Linked T) × (r ≡ ok q.list q.memory) × (q.cells ≡ xs)
  linked_of xs run =
      let (l, h, e, is) = Returns-ok run in
      (record { list = l; memory = h; cells = xs; is_list = is }, e, refl)

  pub contents : Linked T → List T
  contents q = values q.cells

  pub pushed :
      (v : T) (q : Linked T)
      → (r : Linked T) × (LinkedList.push_back v q.list q.memory ≡ ok r.list r.memory)
        × (r.cells ≡ q.cells ++ ((q.memory.brk, v) ∷ []))
  pushed v q =
      linked_of (q.cells ++ ((q.memory.brk, v) ∷ []))
        (Returns-mono (push_back-append v q.cells q.is_list) λ l h p. p.0)

  abbrev pub as_run {κ} : {A : Type κ} → Try A → Memory T → Run T A
  as_run (returned a) h = ok a h
  as_run (raised e) h = thrown e h

  -- The value that the run of `front` gives, or what it throws.
  pub front_at : (xs : Cells T) (l : DList) (h : Memory T) → IsList h l xs → Try T
  front_at [] l h is = raised (out_of_range "Empty list.")
  front_at ((p, v) ∷ xs) l h is = returned v

  front_at-run :
      (xs : Cells T) (l : DList) (h : Memory T) (is : IsList h l xs)
      → LinkedList.front l h ≡ as_run (front_at xs l h is) h
  unfolding front_at
  front_at-run [] l h is = front-nil is
  front_at-run ((p, v) ∷ xs) l h is = front-first p v xs is

  popped :
      (p : Ptr) (v : T) (xs : Cells T) {l : DList} {h : Memory T}
      → IsList h l ((p, v) ∷ xs)
      → (r : Linked T) × (LinkedList.pop_front l h ≡ ok r.list r.memory) × (r.cells ≡ xs)
  popped p v xs is = linked_of xs (Returns-mono (pop_front-Popped p v xs is) λ l h p. p.0)

  pub pop_front_at : (xs : Cells T) (l : DList) (h : Memory T) → IsList h l xs → Try (Linked T)
  pop_front_at [] l h is = raised (out_of_range "Empty list.")
  pop_front_at ((p, v) ∷ xs) l h is = returned (popped p v xs is).0

  pub empty_of : Linked T → Bool
  empty_of q = elim (LinkedList.empty q.list q.memory) [ ok b h ↦ b | _ ↦ true ]

  empty_of_lem : (q : Linked T) → length q.cells < 2 ^ 64 → empty_of q ≡ (length q.cells == 0)
  unfolding empty_of
  empty_of_lem q fits = rw (empty_lem q.cells q.is_list fits, empty_of)

  length-values : (xs : Cells T) → length (values xs) ≡ length xs
  length-values [] = refl
  length-values ((_, v) ∷ xs) = ap suc (length-values xs)

  pub pop_front_at-nil :
      (xs : Cells T) (l : DList) (h : Memory T) (is : IsList h l xs)
      → values xs ≡ []
      → pop_front_at xs l h is ≡ raised (out_of_range "Empty list.")
  unfolding pop_front_at
  pop_front_at-nil [] l h is e = refl
  pop_front_at-nil ((p, v) ∷ xs) l h is e = cc

  pub pop_front_at-cons :
      (xs : Cells T) (l : DList) (h : Memory T) (is : IsList h l xs) (v : T) (vs : List T)
      → values xs ≡ v ∷ vs
      → (r : Linked T) × (pop_front_at xs l h is ≡ returned r) × (contents r ≡ vs)
  unfolding pop_front_at contents
  pop_front_at-cons [] l h is v vs e = cc
  pop_front_at-cons ((p, w) ∷ xs) l h is v vs e =
      ((popped p w xs is).0, refl, ap values (popped p w xs is).2 ∙ (cc))

  pub front_at-nil :
      (xs : Cells T) (l : DList) (h : Memory T) (is : IsList h l xs)
      → values xs ≡ []
      → front_at xs l h is ≡ raised (out_of_range "Empty list.")
  unfolding front_at
  front_at-nil [] l h is e = refl
  front_at-nil ((p, v) ∷ xs) l h is e = cc

  pub front_at-cons :
      (xs : Cells T) (l : DList) (h : Memory T) (is : IsList h l xs) (v : T) (vs : List T)
      → values xs ≡ v ∷ vs
      → front_at xs l h is ≡ returned v
  unfolding front_at
  front_at-cons [] l h is v vs e = cc
  front_at-cons ((p, w) ∷ xs) l h is v vs e = cc

  pub empty_of-nil : (q : Linked T) → contents q ≡ [] → empty_of q ≡ true
  unfolding contents
  empty_of-nil q e =
      let size : length q.cells ≡ 0 = sym (length-values q.cells) ∙ ap length e in
      empty_of_lem q (omega arith) ∙ rw size

  pub empty_of-cons :
      (q : Linked T) (v : T) (vs : List T)
      → contents q ≡ v ∷ vs
      → length (contents q) < 2 ^ 64
      → empty_of q ≡ false
  unfolding contents
  empty_of-cons q v vs e fits =
      let size : length q.cells ≡ suc (length vs) = sym (length-values q.cells) ∙ ap length e in
      empty_of_lem q (omega (arith, length-values q.cells)) ∙ rw size (ground arith)

  -- The memory of a new list: nothing is allocated, and the first address is 1.
  pub new_linked : Linked T
  new_linked = record {
    list = empty_list;
    memory = record { cell = λ a. none; brk = 1 };
    cells = [];
    is_list = IsList-empty (omega arith);
  }

  pub contents-new_linked : contents new_linked ≡ []
  unfolding contents new_linked
  contents-new_linked = refl

  pub contents-pushed : (v : T) (q : Linked T) → contents (pushed v q).0 ≡ contents q ++ v ∷ []
  unfolding contents
  contents-pushed v q = ap values (pushed v q).2 ∙ values-append q.cells ((q.memory.brk, v) ∷ [])

  -- Every operation is the one of the linked list, at the memory that the one before has left.
  unfoldable pub linked_queue : Queue T
  unfolding contents
  linked_queue = record {
    Carrier = Linked T;
    contents = contents;
    new_list = new_linked;
    push_back = λ v q. (pushed v q).0;
    pop_front = λ q. pop_front_at q.cells q.list q.memory q.is_list;
    front = λ q. front_at q.cells q.list q.memory q.is_list;
    empty = empty_of;
    contents-new_list = contents-new_linked;
    contents-push_back = contents-pushed;
    pop_front-nil = λ q. pop_front_at-nil q.cells q.list q.memory q.is_list;
    pop_front-cons = λ q. pop_front_at-cons q.cells q.list q.memory q.is_list;
    front-nil = λ q. front_at-nil q.cells q.list q.memory q.is_list;
    front-cons = λ q. front_at-cons q.cells q.list q.memory q.is_list;
    empty-nil = empty_of-nil;
    empty-cons = empty_of-cons;
  }

  abbrev pub as_list_run : Try (Linked T) → Memory T → Run T DList
  as_list_run (returned r) h = ok r.list r.memory
  as_list_run (raised e) h = thrown e h

  pop_front_at-run :
      (xs : Cells T) (l : DList) (h : Memory T) (is : IsList h l xs)
      → LinkedList.pop_front l h ≡ as_list_run (pop_front_at xs l h is) h
  unfolding pop_front_at
  pop_front_at-run [] l h is = pop_front-nil is
  pop_front_at-run ((p, v) ∷ xs) l h is = (popped p v xs is).1

  -- On a well-formed list in its memory, the queue operations are what `push_back`, `pop_front` and
  -- `front` of the linked list do there: the same list and memory, the same value, the same
  -- exception.
  pub linked_queue-runs :
      (v : T) (q : Linked T)
      → unfold linked_queue in
        ((LinkedList.push_back v q.list q.memory
            ≡ as_list_run (returned (linked_queue.push_back v q)) q.memory)
          × (LinkedList.pop_front q.list q.memory ≡ as_list_run (linked_queue.pop_front q) q.memory)
          × (LinkedList.front q.list q.memory ≡ as_run (linked_queue.front q) q.memory))
  unfolding linked_queue
  linked_queue-runs v q = (
    (pushed v q).1,
    pop_front_at-run q.cells q.list q.memory q.is_list,
    front_at-run q.cells q.list q.memory q.is_list,
  )
