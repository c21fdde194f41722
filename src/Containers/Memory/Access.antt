-- ===== src/Containers/Memory/Access.antt =====
-- Each command on an address that holds a node.
use gss.Base.{◌<◌, ◌≡◌, false, some, none, arith, ◌==◌}
use gss.Containers.Memory.{Ptr, nullptr, Node, Memory, write, ok, load, set_next, set_prev, delete}

-- `p` is a valid pointer to the node `n`.
pub record Holds {ℓ} {T : Type ℓ} (h : Memory T) (p : Ptr) (n : Node T) : Type ℓ where
  pub pos : 0 < p
  pub at : h.cell p ≡ some n

module _ {ℓ} {T : Type ℓ} {h : Memory T} {p : Ptr} {n : Node T} (e : Holds h p n) where
  pub not_null : (p == nullptr) ≡ false
  not_null = let q = e.pos in ground arith

  pub load-ok : load p h ≡ ok n h
  unfolding load
  load-ok = rw (not_null, e.at)

  pub set_next-ok : (q : Ptr) → set_next p q h ≡ ok tt (write h p (some (record n { next = q })))
  unfolding set_next
  set_next-ok q = rw load-ok

  pub set_prev-ok : (q : Ptr) → set_prev p q h ≡ ok tt (write h p (some (record n { prev = q })))
  unfolding set_prev
  set_prev-ok q = rw load-ok

  pub delete-ok : delete p h ≡ ok tt (write h p none)
  unfolding delete
  delete-ok = rw (not_null, load-ok)
