-- ===== src/Containers/LinkedList/Push/Growth.antt =====
-- A list in memory after `new node<T>(value)`, before and after the node is linked.
use gss.Base.{suc, ◌<◌, ◌≡◌, true, [], ◌∷◌, ◌++◌, arith, some, ◌∙◌}
use gss.Containers.Memory.{Ptr, nullptr, Node, node, Memory, write, put_self, put-ne}
use gss.Containers.Memory.Access.{Holds}
use gss.Containers.Memory.Chain.{Cells, has, last, Chain, Chain-frame}
use gss.Containers.Memory.Ends.{Tip, Chain-snoc, fresh-out, last-append, has-append}

-- Memory after `new node<T>(value)`.
abbrev pub grown {ℓ} : {T : Type ℓ} → Memory T → T → Memory T
grown h v = record (write h h.brk (some (node v nullptr nullptr))) { brk = suc h.brk }

pub fresh-Holds {ℓ} :
    {T : Type ℓ} (h : Memory T) (v : T)
    → 0 < h.brk
    → Holds (grown h v) h.brk (node v nullptr nullptr)
fresh-Holds h v pos = record { pos = pos; at = put_self _ _ _ }

pub grown-Holds {ℓ} :
    {T : Type ℓ} {h : Memory T} (v : T) {p : Ptr} {n : Node T}
    → Holds h p n
    → p < h.brk
    → Holds (grown h v) p n
grown-Holds v e below = record { pos = e.pos; at = put-ne _ _ _ _ (omega arith) ∙ e.at }

-- The cells of a list stay put when its last node is linked to a new one at `h.brk`.
pub linked-Chain {ℓ} :
    {T : Type ℓ} {h : Memory T} (g : Memory T) (v : T) (ys : Cells T) (t : Ptr) (w : T)
    → Tip h nullptr nullptr ys t w
    → h.brk < g.brk
    → 0 < h.brk
    → g.cell t ≡ some (node w h.brk (last nullptr ys))
    → g.cell h.brk ≡ some (node v nullptr t)
    → ((a : Ptr) → has a ys ≡ true → g.cell a ≡ h.cell a)
    → Chain g nullptr nullptr ((ys ++ ((t, w) ∷ [])) ++ ((h.brk, v) ∷ []))
linked-Chain {h} g v ys t w tip grows pos at_t at_f same =
    let front = Chain-frame h g nullptr t ys tip.front (omega arith) same in
    let old : Tip g nullptr h.brk ys t w = record {
      front = front;
      holds = record { pos = tip.holds.pos; at = at_t };
      below = omega (arith, tip.below);
      out = tip.out;
    } in
    Chain-snoc g nullptr nullptr (ys ++ ((t, w) ∷ [])) h.brk v (record {
      front = Chain-snoc g nullptr h.brk ys t w old;
      holds = record { pos = pos; at = rw last-append at_f };
      below = grows;
      out =
          let b = tip.below in
          ground (arith, has-append h.brk ys ((t, w) ∷ []), fresh-out h nullptr t ys tip.front);
    })
