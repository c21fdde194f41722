-- ===== src/Containers/LinkedList/Spec.antt =====
-- What a list object and the memory of list.hpp stand for, and what an operation leaves alone.
use gss.Base.{
  ◌<◌, ◌≤◌, ◌≡◌, true, false, [], ◌∷◌, ◌++◌, length, arith, refl, none, ◌∙◌, snoc_cases, inl, inr,
  ap, subst,
}
use gss.Containers.Memory.{Ptr, nullptr, Memory, Node, node}
use gss.Containers.Memory.Access.{Holds}
use gss.Containers.Memory.Chain.{Cells, has, first, last, Chain, Chain-frame}
use gss.Containers.Memory.Ends.{Tip, Chain-below, Chain-unsnoc, last-append}
use gss.Containers.LinkedList.{DList, empty_list}

-- The object `l` is a well-formed list of the cells `xs`: linked both ways and ended by null at
-- both ends, with `head_` and `tail_` at its ends, and shorter than the memory used so far.
pub record IsList {ℓ} {T : Type ℓ} (h : Memory T) (l : DList) (xs : Cells T) : Type ℓ where
  pub chain : Chain h nullptr nullptr xs
  pub head : l.head ≡ first xs nullptr
  pub tail : l.tail ≡ last nullptr xs
  pub room : length xs < h.brk

-- From `h` to `g` only the cells `xs` and addresses that were still unused have changed.
pub record Frame {ℓ} {T : Type ℓ} (h g : Memory T) (xs : Cells T) : Type ℓ where
  pub grows : h.brk ≤ g.brk
  pub same : (a : Ptr) → a < h.brk → has a xs ≡ false → g.cell a ≡ h.cell a

-- What changes elsewhere leaves a list as it was.
pub IsList-Frame {ℓ} :
    {T : Type ℓ} {h g : Memory T} {l : DList} (xs ys : Cells T)
    → IsList h l xs
    → Frame h g ys
    → ((a : Ptr) → has a xs ≡ true → has a ys ≡ false)
    → IsList g l xs
IsList-Frame {h} {g} xs ys is frame apart = record {
  chain =
      Chain-frame h g nullptr nullptr xs is.chain frame.grows
        λ a i. frame.same a (Chain-below h nullptr nullptr xs is.chain a i) (apart a i);
  head = is.head;
  tail = is.tail;
  room = omega (arith, is.room, frame.grows);
}

-- The cell at `p` has been taken out of the list `xs`, its node is deleted, and `left` is left.
abbrev pub Popped {ℓ} :
    {T : Type ℓ} → Memory T → Ptr → Cells T → Cells T → DList → Memory T → Type ℓ
Popped h p xs left l g = IsList g l left × Frame h g xs × (g.cell p ≡ none) × (g.brk ≡ h.brk)

pub IsList-empty {ℓ} : {T : Type ℓ} {h : Memory T} → 0 < h.brk → IsList h empty_list []
IsList-empty pos = record { chain = tt; head = refl; tail = refl; room = pos }

-- The first and the last node of a list that is not empty.
pub record Ends {ℓ} {T : Type ℓ} (h : Memory T) (l : DList) (ys : Cells T) (t : Ptr) (w : T)
    : Type ℓ where
  pub head_node : Node T
  pub head_holds : Holds h l.head head_node
  pub head_prev : head_node.prev ≡ nullptr
  pub head_below : l.head < h.brk
  pub head_eq : l.head ≡ first ys t
  pub tail_eq : l.tail ≡ t
  pub tip : Tip h nullptr nullptr ys t w

pub IsList-Ends {ℓ} :
    {T : Type ℓ} {h : Memory T} {l : DList} (ys : Cells T) (t : Ptr) (w : T)
    → IsList h l (ys ++ ((t, w) ∷ []))
    → Ends h l ys t w
IsList-Ends {h} [] t w is = record {
  head_node = node w nullptr nullptr;
  head_holds = rw is.head (record { pos = is.chain.1; at = is.chain.0 });
  head_prev = refl;
  head_below = rw is.head is.chain.2;
  head_eq = is.head;
  tail_eq = is.tail;
  tip = Chain-unsnoc h nullptr nullptr [] t w is.chain;
}
IsList-Ends {h} ((p, v) ∷ ys) t w is = record {
  head_node = node v (first (ys ++ ((t, w) ∷ [])) nullptr) nullptr;
  head_holds = rw is.head (record { pos = is.chain.1; at = is.chain.0 });
  head_prev = refl;
  head_below = rw is.head is.chain.2;
  head_eq = is.head;
  tail_eq = is.tail ∙ last-append p ys t w;
  tip = Chain-unsnoc h nullptr nullptr ((p, v) ∷ ys) t w is.chain;
}

pub record LastNode {ℓ} {T : Type ℓ} (h : Memory T) (l : DList) : Type ℓ where
  pub tail_node : Node T
  pub tail_holds : Holds h l.tail tail_node
  pub tail_next : tail_node.next ≡ nullptr
  pub tail_below : l.tail < h.brk

pub IsList-last {ℓ} :
    {T : Type ℓ} {h : Memory T} {l : DList} (xs : Cells T)
    → 0 < length xs
    → IsList h l xs
    → LastNode h l
IsList-last {h} {l} xs some_cells is = elim (snoc_cases xs) [
  | inl e ↦ absurd (omega (arith, ap length e))
  | inr (ys, (t, w), e) ↦
      let ends = IsList-Ends ys t w (subst (IsList h l) e is) in
      record {
        tail_node = node w nullptr (last nullptr ys);
        tail_holds = rw ends.tail_eq ends.tip.holds;
        tail_next = refl;
        tail_below = rw ends.tail_eq ends.tip.below;
      }
]
