-- ===== src/Containers/Memory/Chain.antt =====
-- Doubly linked chains of nodes, and the addresses that they occupy.
use gss.Base.{◌<◌, ◌≤◌, ◌≡◌, Bool, true, false, ◌||◌, List, [], ◌∷◌, some, arith, ap, ◌≢◌, ◌==◌}
use gss.Containers.Memory.{Ptr, node, Memory}

-- What a list stands for: the address and the value of each node, in order.
abbrev pub Cells {ℓ} : Type ℓ → Type ℓ
Cells T = List (Ptr × T)

module _ {ℓ} {T : Type ℓ} where
  abbrev pub has : Ptr → Cells T → Bool
  has a [] = false
  has a ((p, _) ∷ xs) = (a == p) || has a xs

  abbrev pub values : Cells T → List T
  values [] = []
  values ((_, v) ∷ xs) = v ∷ values xs

  -- The address of the first node, or `stop`; that of the last one, or `before`.
  abbrev pub first : Cells T → Ptr → Ptr
  first [] stop = stop
  first ((p, _) ∷ xs) stop = p

  abbrev pub last : Ptr → Cells T → Ptr
  last before [] = before
  last before ((p, _) ∷ xs) = last p xs

  -- The nodes `xs` are linked both ways, lie at distinct addresses that were handed out, come
  -- after `before` and lead to `stop`.
  abbrev pub Chain : Memory T → Ptr → Ptr → Cells T → Type ℓ
  Chain h before stop [] = Unit {ℓ}
  Chain h before stop ((p, v) ∷ xs) =
      (h.cell p ≡ some (node v (first xs stop) before))
      × (0 < p)
      × (p < h.brk)
      × (has p xs ≡ false)
      × Chain h p stop xs

  pub has-ne : {a p : Ptr} (xs : Cells T) → has a xs ≡ true → has p xs ≡ false → a ≢ p
  has-ne xs i o e = cc (ap (λ q. has q xs) e)

  pub Chain-frame :
      (h g : Memory T) (before stop : Ptr) (xs : Cells T)
      → Chain h before stop xs
      → h.brk ≤ g.brk
      → ((a : Ptr) → has a xs ≡ true → g.cell a ≡ h.cell a)
      → Chain g before stop xs
  Chain-frame h g before stop [] c le same = tt
  Chain-frame h g before stop ((p, v) ∷ xs) c le same = (
    ground (arith, same p),
    c.1,
    omega arith,
    c.3,
    Chain-frame h g p stop xs c.4 le λ a i. same a (ground arith),
  )
