-- ===== src/Containers/Memory/Ends.antt =====
-- Chains taken apart at their first and at their last node.
use gss.Base.{◌<◌, ◌≡◌, refl, false, true, ◌||◌, [], ◌∷◌, ◌++◌, arith, ap, ◌≢◌}
use mathlib.Core.Bool.{or_assoc}
use gss.Containers.Memory.{Ptr, node, Memory}
use gss.Containers.Memory.Access.{Holds}
use gss.Containers.Memory.Chain.{Cells, has, first, last, values, Chain}

module _ {ℓ} {T : Type ℓ} where
  pub has-append : (a : Ptr) (xs ys : Cells T) → has a (xs ++ ys) ≡ (has a xs || has a ys)
  has-append a [] ys = refl
  has-append a (x ∷ xs) ys = rw (has-append a xs ys, or_assoc)

  pub has_self : (p : Ptr) (v : T) (xs : Cells T) → has p ((p, v) ∷ xs) ≡ true
  has_self p v xs = ground arith

  pub has-skip : (a p : Ptr) (v : T) (xs : Cells T) → has a xs ≡ true → has a ((p, v) ∷ xs) ≡ true
  has-skip a p v xs i = ground arith

  pub has-tail : (a p : Ptr) (v : T) (xs : Cells T) → has a ((p, v) ∷ xs) ≡ false → has a xs ≡ false
  has-tail a p v xs out = ground arith

  pub has-cons-ne : (a p : Ptr) (v : T) (xs : Cells T) → has a ((p, v) ∷ xs) ≡ false → a ≢ p
  has-cons-ne a p v xs out e = ground arith

  pub has-append-ne :
      (a : Ptr) (ys : Cells T) (t : Ptr) (w : T) → has a (ys ++ ((t, w) ∷ [])) ≡ false → a ≢ t
  has-append-ne a ys t w out e = ground (arith, has-append a ys ((t, w) ∷ []))

  pub has-append-out :
      (a : Ptr) (ys : Cells T) (t : Ptr) (w : T)
      → has a ys ≡ false
      → a ≢ t
      → has a (ys ++ ((t, w) ∷ [])) ≡ false
  has-append-out a ys t w out ne = ground (arith, has-append a ys ((t, w) ∷ []))

  pub first-append :
      (xs : Cells T) (p : Ptr) (v : T) (stop : Ptr) → first (xs ++ (p, v) ∷ []) stop ≡ first xs p
  first-append [] p v stop = refl
  first-append (x ∷ xs) p v stop = refl

  pub last-append :
      (before : Ptr) (xs : Cells T) (p : Ptr) (v : T) → last before (xs ++ (p, v) ∷ []) ≡ p
  last-append before [] p v = refl
  last-append before ((a, _) ∷ xs) p v = last-append a xs p v

  pub has-snoc : (xs : Cells T) (p : Ptr) (v : T) → has p (xs ++ ((p, v) ∷ [])) ≡ true
  has-snoc [] p v = ground arith
  has-snoc (x ∷ xs) p v = ground (arith, has-snoc xs p v)

  -- An address outside a list with one more cell is outside the list.
  pub has-front :
      (a : Ptr) (ys : Cells T) (t : Ptr) (w : T)
      → has a (ys ++ ((t, w) ∷ [])) ≡ false
      → has a ys ≡ false
  has-front a ys t w out = ground (arith, has-append a ys ((t, w) ∷ []))

  pub has-first :
      (xs : Cells T) (p : Ptr) (v : T) (stop : Ptr)
      → has (first (xs ++ ((p, v) ∷ [])) stop) (xs ++ ((p, v) ∷ [])) ≡ true
  has-first [] p v stop = ground arith
  has-first ((a, w) ∷ xs) p v stop = ground arith

  pub has-last :
      (before : Ptr) (x : Ptr × T) (xs : Cells T) → has (last before (x ∷ xs)) (x ∷ xs) ≡ true
  has-last before (p, v) [] = ground arith
  has-last before (p, v) (y ∷ ys) = ground (arith, has-last p y ys)

  pub values-append : (xs ys : Cells T) → values (xs ++ ys) ≡ values xs ++ values ys
  values-append [] ys = refl
  values-append ((_, v) ∷ xs) ys = ap (◌∷◌ v) (values-append xs ys)

module _ {ℓ} {T : Type ℓ} (h : Memory T) where
  -- What the last node `(t, w)` of a chain adds to the nodes before it.
  pub record Tip (before stop : Ptr) (ys : Cells T) (t : Ptr) (w : T) : Type ℓ where
    pub front : Chain h before t ys
    pub holds : Holds h t (node w stop (last before ys))
    pub below : t < h.brk
    pub out : has t ys ≡ false

  pub Chain-unsnoc :
      (before stop : Ptr) (ys : Cells T) (t : Ptr) (w : T)
      → Chain h before stop (ys ++ (t, w) ∷ [])
      → Tip before stop ys t w
  Chain-unsnoc before stop [] t w c = record {
    front = tt;
    holds = record { pos = c.1; at = c.0 };
    below = c.2;
    out = refl;
  }
  Chain-unsnoc before stop ((p, v) ∷ ys) t w c =
      let tip = Chain-unsnoc p stop ys t w c.4 in
      let apart = has-append p ys ((t, w) ∷ []) in
      record {
        front =
            (rw (← first-append ys t w stop) c.0, c.1, c.2, ground (arith, apart, c.3), tip.front);
        holds = tip.holds;
        below = tip.below;
        out = ground (arith, apart, c.3, tip.out);
      }

  pub Chain-snoc :
      (before stop : Ptr) (ys : Cells T) (t : Ptr) (w : T)
      → Tip before stop ys t w
      → Chain h before stop (ys ++ (t, w) ∷ [])
  Chain-snoc before stop [] t w tip = (tip.holds.at, tip.holds.pos, tip.below, refl, tt)
  Chain-snoc before stop ((p, v) ∷ ys) t w tip =
      let c = tip.front in
      let apart = has-append p ys ((t, w) ∷ []) in
      (
        rw (first-append ys t w stop) c.0,
        c.1,
        c.2,
        ground (arith, apart, c.3, tip.out),
        Chain-snoc p stop ys t w (record {
          front = c.4;
          holds = tip.holds;
          below = tip.below;
          out = ground (arith, tip.out);
        }),
      )

  -- Every address of a chain was handed out, so the next fresh one is none of them.
  pub Chain-below :
      (before stop : Ptr) (xs : Cells T)
      → Chain h before stop xs
      → (a : Ptr) → has a xs ≡ true
      → a < h.brk
  Chain-below before stop [] c a i = cc
  Chain-below before stop ((p, v) ∷ xs) c a i = ground (arith, c.2, Chain-below p stop xs c.4 a)

  pub fresh-out : (before stop : Ptr) (xs : Cells T) → Chain h before stop xs → has h.brk xs ≡ false
  fresh-out before stop xs c = ground (arith, Chain-below before stop xs c h.brk)
