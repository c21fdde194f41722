-- ===== src/Tests/Queues.antt =====
-- The queue of a list in memory, with the numbers 4 and 6 in it.
use gss.Base.{ℕ, ◌≡◌}
use gss.Base.Try.{returned}
use gss.Containers.LinkedList
use gss.Containers.Queue.LinkedQueue.{Linked, linked_queue, as_run, as_list_run, linked_queue-runs}

abbrev two : Linked ℕ
unfolding linked_queue
two = linked_queue.push_back 6 (linked_queue.push_back 4 linked_queue.new_list)

linked_queue-runs_example :
    unfold linked_queue in
    ((LinkedList.push_back 9 two.list two.memory
        ≡ as_list_run (returned (linked_queue.push_back 9 two)) two.memory)
      × (LinkedList.pop_front two.list two.memory
          ≡ as_list_run (linked_queue.pop_front two) two.memory)
      × (LinkedList.front two.list two.memory ≡ as_run (linked_queue.front two) two.memory))
unfolding two
linked_queue-runs_example = linked_queue-runs 9 two
