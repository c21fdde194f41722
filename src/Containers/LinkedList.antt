-- ===== src/Containers/LinkedList.antt =====
-- src/containers/list.hpp: `list<T>` over nodes in memory. The object itself lives outside the
-- memory of the nodes, so a member function that assigns `head_` or `tail_` returns the new object.
-- A loop runs on fuel and is given `brk` rounds: a list never has that many nodes.
pub mod Copy
pub mod Deque
pub mod Erase
pub mod Move
pub mod PopBack
pub mod PopFront
pub mod Push
pub mod Race
pub mod Spec
pub mod Traverse
use gss.Base.{ℕ, zero, suc, ◌+◌, ◌%◌, ◌^◌, Bool, ◌&&◌, List, [], ◌∷◌, ◌++◌, ◌==◌, if◌then◌else◌}
use gss.Base.Try.{Exception, out_of_range}
use gss.Containers.Memory.{
  Ptr, nullptr, Memory, Run, out_of_fuel, Cmd, pure, throw, assert, ◌>>=◌, ◌>>◌, load, new,
  set_next, set_prev, delete,
}

pub record DList : Type 0 where
  pub head : Ptr
  pub tail : Ptr

-- `list()`
abbrev pub empty_list : DList
empty_list = record { head = nullptr; tail = nullptr }

-- An iterator is a pointer to a node: `begin()`, `end()` and `operator==`.
abbrev pub begin : DList → Ptr
begin l = l.head

abbrev pub end : Ptr
end = nullptr

abbrev pub same_place : Ptr → Ptr → Bool
same_place a b = a == b

module _ {ℓ} {T : Type ℓ} where
  -- `assert(!head_->prev_ && !tail_->next_)`
  unfoldable pub check_ends : DList → Cmd T (Unit {0})
  check_ends l = do
    h ← load l.head
    t ← load l.tail
    assert (h.prev == nullptr && t.next == nullptr)

  unfoldable pub push_back : T → DList → Cmd T DList
  unfolding check_ends
  push_back v l = do
    new_node ← new v
    if l.head == nullptr then pure (record { head = new_node; tail = new_node }) else do
      check_ends l
      set_prev new_node l.tail
      set_next l.tail new_node
      pure (record l { tail = new_node })

  unfoldable pub push_front : T → DList → Cmd T DList
  unfolding check_ends
  push_front v l = do
    new_node ← new v
    if l.head == nullptr then pure (record { head = new_node; tail = new_node }) else do
      check_ends l
      set_next new_node l.head
      set_prev l.head new_node
      pure (record l { head = new_node })

  unfoldable pub pop_back : DList → Cmd T DList
  pop_back l =
      if l.head == nullptr
      then throw (out_of_range "Stack underflow.")
      else if l.tail == l.head
      then (do delete l.head; pure empty_list)
      else do
        old_tail ← load l.tail
        set_next old_tail.prev nullptr
        delete l.tail
        pure (record l { tail = old_tail.prev })

  unfoldable pub back : DList → Cmd T T
  back l =
      if l.tail == nullptr
      then throw (out_of_range "Empty list")
      else do n ← load l.tail; pure n.value

  unfoldable pub pop_front : DList → Cmd T DList
  pop_front l =
      if l.head == nullptr
      then throw (out_of_range "Empty list.")
      else if l.tail == l.head
      then (do delete l.head; pure empty_list)
      else do
        old_head ← load l.head
        set_prev old_head.next nullptr
        delete l.head
        pure (record l { head = old_head.next })

  unfoldable pub front : DList → Cmd T T
  front l =
      if l.head == nullptr
      then throw (out_of_range "Empty list.")
      else do n ← load l.head; pure n.value

  -- `while (head_ != tail_)`: deletes from the tail down to the head, which stays.
  unfoldable pub erase_loop : ℕ → Ptr → Ptr → Cmd T (Unit {0})
  erase_loop zero head tail = λ _. out_of_fuel
  erase_loop (suc k) head tail =
      if head == tail
      then pure tt
      else do old_tail ← load tail; delete tail; erase_loop k head old_tail.prev

  -- Also the destructor.
  unfoldable pub erase_all : DList → Cmd T DList
  unfolding erase_loop
  erase_all l =
      if l.head == nullptr
      then pure l
      else do λ h. erase_loop h.brk l.head l.tail h; delete l.head; pure empty_list

  unfoldable pub size_loop : ℕ → Ptr → ℕ → Cmd T ℕ
  size_loop zero n count = λ _. out_of_fuel
  size_loop (suc k) n count =
      if n == nullptr then pure count else do c ← load n; size_loop k c.next ((count + 1) % 2 ^ 64)

  -- `size_t`
  unfoldable pub size : DList → Cmd T ℕ
  unfolding size_loop
  size l = λ h. size_loop h.brk l.head 0 h

  unfoldable pub empty : DList → Cmd T Bool
  unfolding size
  empty l = do n ← size l; pure (n == 0)

  -- `operator*` and the prefix `operator++`.
  abbrev pub dereference : Ptr → Cmd T T
  dereference it = do n ← load it; pure n.value

  abbrev pub advance : Ptr → Cmd T Ptr
  advance it = do n ← load it; pure n.next

  -- `for (T elem : other) push_back(elem);` with the iterator `it`, which is advanced after the
  -- body has run.
  unfoldable pub copy_loop : ℕ → Ptr → DList → Cmd T DList
  unfolding push_back
  copy_loop zero it l = λ _. out_of_fuel
  copy_loop (suc k) it l =
      if same_place it end
      then pure l
      else do elem ← dereference it; l' ← push_back elem l; it' ← advance it; copy_loop k it' l'

  -- The first rounds of that loop, and where it stands then.
  unfoldable pub copy_rounds : ℕ → Ptr → DList → Cmd T (Ptr × DList)
  unfolding push_back
  copy_rounds zero it l = pure (it, l)
  copy_rounds (suc n) it l =
      if same_place it end
      then pure (it, l)
      else do elem ← dereference it; l' ← push_back elem l; it' ← advance it; copy_rounds n it' l'

  -- `list(list<T> &other)`
  unfoldable pub copy : DList → Cmd T DList
  unfolding copy_loop
  copy other = λ h. copy_loop h.brk (begin other) empty_list h

  -- `for (auto elem : l) vec.emplace_back(elem);`, the use that the iterator is made for.
  unfoldable pub iterate : ℕ → Ptr → List T → Cmd T (List T)
  iterate zero it acc = λ _. out_of_fuel
  iterate (suc k) it acc =
      if same_place it end
      then pure acc
      else do elem ← dereference it; it' ← advance it; iterate k it' (acc ++ elem ∷ [])

  -- `show` is what `operator<<` writes for a value; a text is the list of its bytes.
  unfoldable pub print_loop : (T → List ℕ) → ℕ → Ptr → Ptr → List ℕ → Cmd T (List ℕ)
  print_loop show zero tail n ss = λ _. out_of_fuel
  print_loop show (suc k) tail n ss = if n == nullptr then pure ss else do
    c ← load n
    print_loop show k tail c.next
        (ss ++ (show c.value ++ (if n == tail then [] else b'-' ∷ b'>' ∷ [])))

  unfoldable pub print : (T → List ℕ) → DList → Cmd T (List ℕ)
  unfolding print_loop
  print show l =
      if l.head == nullptr then pure [] else λ h. print_loop show h.brk l.tail l.head [] h

-- Two list objects and the assignment between them. `*this` and `other` may be one object.
pub data Name : Type 0 where
  left right : Name

abbrev pub same_name : Name → Name → Bool
same_name left left = Bool.true
same_name right right = Bool.true
same_name _ _ = Bool.false

abbrev pub Objects : Type 0
Objects = Name → DList

abbrev pub assign_object : Objects → Name → DList → Objects
assign_object o x l y = if same_name x y then l else o y

-- `operator=(list<T> &&other)`: two reads, then two writes of null through `other`.
unfoldable pub move_assign {ℓ} : {T : Type ℓ} → Name → Name → Objects → Cmd T Objects
move_assign this other o = do
  let taken = assign_object o this (o other)
  pure (assign_object taken other empty_list)
