-- ===== src/Tests/Lists.antt =====
-- The list of list.hpp at concrete memories.
use gss.Base.{ℕ, ◌≡◌, refl, ◌∷◌, [], List, none, some, arith, true, false, ◌==◌, if◌then◌else◌}
use gss.Containers.Memory.{Ptr, Memory, node, ok, fault}
use gss.Containers.Memory.Chain.{Cells, has}
use gss.Containers.Memory.Returns.{Returns}
use gss.Containers.LinkedList
use gss.Containers.LinkedList.{
  DList, begin, copy_rounds, copy_loop, empty_list, Name, left, right, Objects, move_assign,
}
use gss.Containers.LinkedList.Spec.{IsList}
use gss.Containers.LinkedList.Traverse.{size-length}
use gss.Containers.LinkedList.Erase.{Erased, erase_all-Erased}
use gss.Containers.LinkedList.Copy.{Duplicate, copy-Copied}
use gss.Containers.LinkedList.Race.{pop_fronts, copy_rounds-pop_fronts}
use gss.Containers.LinkedList.Move.{Allocated, move_assign-leaks}
use gss.Containers.LinkedList.Deque.{
  Op, push_back, push_front, pop_back, pop_front, erase_all, run, effects, Holds,
}
use gss.Containers.LinkedList.Deque.Refines.{AllDone, run-effects}

-- Two lists in one memory: 7 and 9 at the addresses 1 and 2, and 5 at 3.
abbrev memory : Memory ℕ
memory = record {
  cell = λ a.
      if a == 1
      then some (node 7 2 0)
      else if a == 2
      then some (node 9 0 1)
      else if a == 3
      then some (node 5 0 0)
      else none;
  brk = 4;
}

abbrev cells : Cells ℕ
cells = (1, 7) ∷ (2, 9) ∷ []

abbrev list : DList
list = record { head = 1; tail = 2 }

list-IsList : IsList memory list cells
list-IsList = record {
  chain = (refl, omega arith, omega arith, refl, (refl, omega arith, omega arith, refl, tt));
  head = refl;
  tail = refl;
  room = omega arith;
}

abbrev single : Cells ℕ
single = (3, 5) ∷ []

single-IsList : IsList memory (record { head = 3; tail = 3 }) single
single-IsList = record {
  chain = (refl, omega arith, omega arith, refl, tt);
  head = refl;
  tail = refl;
  room = omega arith;
}

size-length_example : LinkedList.size list memory ≡ ok 2 memory
size-length_example = size-length cells list-IsList (omega arith)

-- Values are written as one byte here.
abbrev show : ℕ → List ℕ
show v = v ∷ []

erase_all-Erased_example :
    Returns
      (λ l g. IsList g l [] × (l ≡ empty_list) × Erased memory g cells)
      (LinkedList.erase_all list memory)
erase_all-Erased_example = erase_all-Erased cells list-IsList

-- One round of a copy, two removals, and the next round.
copy_rounds-pop_fronts_example :
    Returns
      (λ (it, l1) g. Returns (λ _ g2. copy_loop 5 it l1 g2 ≡ fault) (pop_fronts 2 list g))
      (copy_rounds 1 (begin list) empty_list memory)
copy_rounds-pop_fronts_example = copy_rounds-pop_fronts ((1, 7) ∷ []) 2 9 [] 4 list-IsList

copy-Copied_example : Returns (Duplicate memory cells list) (LinkedList.copy list memory)
copy-Copied_example = copy-Copied cells list-IsList

abbrev objects : Objects
objects left = record { head = 3; tail = 3 }
objects right = list

apart : (a : Ptr) → has a cells ≡ true → has a single ≡ false
apart a i = ground arith

move_assign-leaks_example :
    Returns
      (λ o g.
        IsList g (o left) cells
        × IsList g (o right) []
        × ((a : Ptr) → has a single ≡ true → Allocated g a × (has a cells ≡ false)))
      (move_assign left right objects memory)
move_assign-leaks_example =
    move_assign-leaks memory objects left right cells single refl list-IsList single-IsList apart

abbrev history : List (Op ℕ)
history = push_front 6 ∷ pop_back ∷ pop_front ∷ pop_front ∷ pop_front ∷ push_back 1 ∷ erase_all ∷ []

list-Holds : Holds (7 ∷ 9 ∷ []) list memory
list-Holds = record { cells = cells; is_list = list-IsList; equal = refl }

run-effects_example : Returns (AllDone (effects history (7 ∷ 9 ∷ []))) (run history list memory)
run-effects_example = run-effects history (7 ∷ 9 ∷ []) list memory list-Holds
