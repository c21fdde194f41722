-- ===== src/Containers.antt =====
-- src/containers: the doubly linked list of list.hpp, the memory in which its nodes live, and the
-- queue that the server makes of it.
pub mod Memory
pub mod LinkedList
pub mod Queue
