-- ===== src/Pair/Transitions/Values.antt =====
-- What the handlers of PairTransitions.h do to each variable.
use nvmordering.Base.{
  ℕ, Bool, true, false, ◌==◌, if◌then◌else◌, ◌≡◌, refl, [], ◌∷◌, lookup, get, get-insert, arith,
  Bool-cases, inl, inr, ==_iff,
}
use nvmordering.Pair.Lattice.{
  PairLattice, Dcl, Scl, write_dcl, flush, pfence, write_scl, vfence, default_lattice, has_dcl,
}
use nvmordering.Pair.StmtParser.{
  TransitionInfo, TransferFunction, write_func, flush_func, flush_fence_func, vfence_func,
  pfence_func, is_pfence,
}
use nvmordering.Pair.Reporter.{AbstractState, Reporter, update_last_location}
use nvmordering.Pair.Transitions.{fence_value, fence_all, flush_value, handle_flush}

abbrev pub value : AbstractState → ℕ → PairLattice
value state x = get default_lattice x state

-- The life of a field across cache lines, from the outside: a write makes it dirty, a flush of it
-- starts its way to memory, and a fence ends that way. A flush that is also a fence does both.
unfoldable pub dcl_after : Bool → TransferFunction → Dcl → Dcl
dcl_after true write_func d = write_dcl
dcl_after true flush_func write_dcl = flush
dcl_after true flush_fence_func write_dcl = pfence
dcl_after true flush_fence_func flush = pfence
dcl_after own pfence_func flush = pfence
dcl_after own f d = d

-- The same in one cache line, where any fence keeps the order of writes.
unfoldable pub scl_after : Bool → TransferFunction → Scl → Scl
scl_after true write_func c = write_scl
scl_after true flush_fence_func c = vfence
scl_after own vfence_func write_scl = vfence
scl_after own pfence_func write_scl = vfence
scl_after own f c = c

fence_value-default : (pf : Bool) → (fence_value pf default_lattice).0 ≡ default_lattice
unfolding fence_value default_lattice
fence_value-default pf = ground arith

pub value-fence_all :
    (s : ℕ) (pf : Bool) (state : AbstractState) (r : Reporter) (x : ℕ)
    → value (fence_all s pf state r).1 x ≡ (fence_value pf (value state x)).0
unfolding fence_all get lookup
value-fence_all s pf [] r x = rw (fence_value-default pf)
value-fence_all s pf ((var, lv) ∷ rest) r x =
    let r' = if (fence_value pf lv).1 then update_last_location var s r else r in
    elim (Bool-cases (var == x)) [
      | inl e ↦ rw e refl
      | inr e ↦ rw e (value-fence_all s pf rest r' x)
    ]

pub value-handle_flush :
    (s : ℕ) (ti : TransitionInfo) (state : AbstractState) (r : Reporter) (x : ℕ)
    → value (handle_flush s ti state r).1 x
      ≡ (if ti.var == x then (flush_value (is_pfence ti) (value state x)).0 else value state x)
unfolding handle_flush
value-handle_flush s ti state r x = ground (
  arith,
  get-insert default_lattice x ti.var
      (flush_value (is_pfence ti) (get default_lattice ti.var state)).0 state,
  ==_iff ti.var x,
)

pub fence_value-dcl :
    (f : TransferFunction) (lv : PairLattice)
    → has_dcl lv ≡ true
    → ((fence_value true lv).0.dcl ≡ dcl_after false pfence_func lv.dcl)
      × ((fence_value false lv).0.dcl ≡ lv.dcl)
unfolding fence_value dcl_after
fence_value-dcl f lv h = ground arith

pub flush_value-dcl :
    (lv : PairLattice)
    → has_dcl lv ≡ true
    → ((flush_value true lv).0.dcl ≡ dcl_after true flush_fence_func lv.dcl)
      × ((flush_value false lv).0.dcl ≡ dcl_after true flush_func lv.dcl)
unfolding flush_value dcl_after
flush_value-dcl lv h = ground arith

pub fence_value-type :
    (pf : Bool) (lv : PairLattice) → (fence_value pf lv).0.lattice_type ≡ lv.lattice_type
unfolding fence_value
fence_value-type pf lv = ground arith

pub flush_value-type :
    (pf : Bool) (lv : PairLattice) → (flush_value pf lv).0.lattice_type ≡ lv.lattice_type
unfolding flush_value
flush_value-type pf lv = ground arith
