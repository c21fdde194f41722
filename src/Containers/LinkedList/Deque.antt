-- ===== src/Containers/LinkedList/Deque.antt =====
-- list.hpp as a double-ended queue of values: what its mutating member functions promise,
-- and any history of calls against that promise.
pub mod Refines
use gss.Base.{◌≡◌, List, [], ◌∷◌, ◌++◌, Option, none, some}
use gss.Base.Try.{Exception, out_of_range}
use gss.Containers.Memory.{Memory, Run, ok, thrown, fault, out_of_fuel, Cmd, and_then}
use gss.Containers.Memory.Chain.{Cells, values}
use gss.Containers.LinkedList
use gss.Containers.LinkedList.{DList}
use gss.Containers.LinkedList.Spec.{IsList}

pub data Op {ℓ} (T : Type ℓ) : Type ℓ where
  push_back push_front : T → Op T
  pop_back pop_front erase_all : Op T

module _ {ℓ} {T : Type ℓ} where
  unfoldable pub perform : Op T → DList → Cmd T DList
  perform (push_back v) l = LinkedList.push_back v l
  perform (push_front v) l = LinkedList.push_front v l
  perform pop_back l = LinkedList.pop_back l
  perform pop_front l = LinkedList.pop_front l
  perform erase_all l = LinkedList.erase_all l

  -- The caller catches an exception and goes on with the object as it is.
  abbrev pub caught : DList → Run T DList → Run T (DList × Option Exception)
  caught l (ok l' h) = ok (l', none) h
  caught l (thrown e h) = ok (l, some e) h
  caught l fault = fault
  caught l out_of_fuel = out_of_fuel

  abbrev pub logged :
      Option Exception
      → Run T (DList × List (Option Exception))
      → Run T (DList × List (Option Exception))
  logged e (ok (l, es) h) = ok (l, e ∷ es) h
  logged e (thrown x h) = thrown x h
  logged e fault = fault
  logged e out_of_fuel = out_of_fuel

  -- The object after a history of calls, and what each call threw.
  unfoldable pub run : List (Op T) → DList → Cmd T (DList × List (Option Exception))
  unfolding perform
  run [] l h = ok (l, []) h
  run (op ∷ ops) l h = and_then (caught l (perform op l h)) λ (l', e) h'. logged e (run ops l' h')

  pub drop_last : List T → List T
  drop_last [] = []
  drop_last (v ∷ []) = []
  drop_last (v ∷ w ∷ vs) = v ∷ drop_last (w ∷ vs)

  -- The promise: a call on a sequence of values gives the new sequence, and the exception that it
  -- throws, if any.
  pub effect : Op T → List T → List T × Option Exception
  unfolding drop_last
  effect (push_back v) vs = (vs ++ v ∷ [], none)
  effect (push_front v) vs = (v ∷ vs, none)
  effect pop_back [] = ([], some (out_of_range "Stack underflow."))
  effect pop_back (v ∷ vs) = (drop_last (v ∷ vs), none)
  effect pop_front [] = ([], some (out_of_range "Empty list."))
  effect pop_front (v ∷ vs) = (vs, none)
  effect erase_all vs = ([], none)

  pub effects : List (Op T) → List T → List T × List (Option Exception)
  unfolding effect
  effects [] vs = (vs, [])
  effects (op ∷ ops) vs =
      let (vs', e) = effect op vs in let (end, es) = effects ops vs' in (end, e ∷ es)

  -- The object is a list of cells with these values.
  pub record Holds (vs : List T) (l : DList) (h : Memory T) : Type ℓ where
    pub cells : Cells T
    pub is_list : IsList h l cells
    pub equal : values cells ≡ vs

  -- The call has the effect `p`.
  abbrev pub Does : List T × Option Exception → DList × Option Exception → Memory T → Type ℓ
  Does (vs, e) (l, x) h = Holds vs l h × (x ≡ e)
