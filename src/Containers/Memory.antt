-- ===== src/Containers/Memory.antt =====
-- The memory behind src/containers/list.hpp: `node<T>` (lines 9 to 15) at addresses, `new` and
-- `delete`, reads and writes through a pointer, exceptions and failed assertions.
-- An address is a number and 0 is the null pointer. `new` hands out addresses in rising order, so
-- an address is not used twice. Undefined behaviour is `fault`.
pub mod Returns
pub mod Access
pub mod Chain
pub mod Ends
use gss.Base.Try.{Exception}
use gss.Base.{
  ℕ, suc, ◌≡◌, refl, ◌≢◌, Bool, true, false, arith, Option, none, some, ◌==◌, if◌then◌else◌,
}

abbrev pub Ptr : Type 0
Ptr = ℕ

abbrev pub nullptr : Ptr
nullptr = 0

pub record Node {ℓ} (T : Type ℓ) : Type ℓ where
  pub value : T
  pub next : Ptr
  pub prev : Ptr

abbrev pub node {ℓ} : {T : Type ℓ} → T → Ptr → Ptr → Node T
node v n p = record { value = v; next = n; prev = p }

-- `brk` is the next address that `new` returns.
pub record Memory {ℓ} (T : Type ℓ) : Type ℓ where
  pub cell : Ptr → Option (Node T)
  pub brk : Ptr

pub data Run {ℓ κ} (T : Type ℓ) (A : Type κ) : Type (ℓ ⊔ κ) where
  ok : A → Memory T → Run T A
  thrown : Exception → Memory T → Run T A
  fault : Run T A
  out_of_fuel : Run T A

abbrev pub Cmd {ℓ κ} : Type ℓ → Type κ → Type (ℓ ⊔ κ)
Cmd T A = Memory T → Run T A

module _ {ℓ} {T : Type ℓ} where
  unfoldable pub put : (Ptr → Option (Node T)) → Ptr → Option (Node T) → Ptr → Option (Node T)
  put f p c a = if a == p then c else f a

  abbrev pub write : Memory T → Ptr → Option (Node T) → Memory T
  write h p c = record h { cell = put h.cell p c }

  pub put_self : (f : Ptr → Option (Node T)) (p : Ptr) (c : Option (Node T)) → put f p c p ≡ c
  unfolding put
  put_self f p c = let e : (p == p) ≡ true = ground arith in rw e

  pub put-ne :
      (f : Ptr → Option (Node T)) (p : Ptr) (c : Option (Node T)) (a : Ptr)
      → a ≢ p
      → put f p c a ≡ f a
  unfolding put
  put-ne f p c a ne = let e : (a == p) ≡ false = ground arith in rw e

  abbrev pub pure {κ} : {A : Type κ} → A → Cmd T A
  pure = ok

  abbrev pub and_then {κ μ} : {A : Type κ} {B : Type μ} → Run T A → (A → Cmd T B) → Run T B
  and_then (ok a h) k = k a h
  and_then (thrown e h) k = thrown e h
  and_then fault k = fault
  and_then out_of_fuel k = out_of_fuel

  infixl 5 ◌>>=◌ ◌>>◌
  abbrev pub ◌>>=◌ {κ μ} : {A : Type κ} {B : Type μ} → Cmd T A → (A → Cmd T B) → Cmd T B
  m >>= k = λ h. and_then (m h) k

  abbrev pub ◌>>◌ {κ μ} : {A : Type κ} {B : Type μ} → Cmd T A → Cmd T B → Cmd T B
  m >> n = m >>= λ _. n

  abbrev pub throw {κ} : {A : Type κ} → Exception → Cmd T A
  throw = thrown

  -- A failed `assert` ends the program.
  abbrev pub assert : Bool → Cmd T (Unit {0})
  assert b = λ h. if b then ok tt h else fault

  -- `*p`: a fault at the null pointer and at an address that holds no node.
  unfoldable pub load : Ptr → Cmd T (Node T)
  load p h = if p == nullptr then fault else elim (h.cell p) [ none ↦ fault | some n ↦ ok n h ]

  -- `new node<T>(value)`: both links are null.
  unfoldable pub new : T → Cmd T Ptr
  new v h = ok h.brk (record (write h h.brk (some (node v nullptr nullptr))) { brk = suc h.brk })

  -- `p->next_ = q`
  unfoldable pub set_next : Ptr → Ptr → Cmd T (Unit {0})
  set_next p q = do n ← load p; λ h. ok tt (write h p (some (record n { next = q })))

  -- `p->prev_ = q`
  unfoldable pub set_prev : Ptr → Ptr → Cmd T (Unit {0})
  set_prev p q = do n ← load p; λ h. ok tt (write h p (some (record n { prev = q })))

  -- `delete p`: nothing at the null pointer, a fault at an address that holds no node.
  unfoldable pub delete : Ptr → Cmd T (Unit {0})
  delete p = if p == nullptr then pure tt else do n ← load p; λ h. ok tt (write h p none)

-- A step in front of two runs, the first of which goes on with `m`.
pub and_then_assoc {ℓ κ μ ν} :
    {T : Type ℓ} {A : Type κ} {B : Type μ} {C : Type ν} (r : Run T A) {k : A → Cmd T C}
    (k' : A → Cmd T B) (m : B → Cmd T C)
    → ((a : A) (h : Memory T) → k a h ≡ and_then (k' a h) m)
    → and_then r k ≡ and_then (and_then r k') m
and_then_assoc (ok a h) k' m e = e a h
and_then_assoc (thrown x h) k' m e = refl
and_then_assoc fault k' m e = refl
and_then_assoc out_of_fuel k' m e = refl
