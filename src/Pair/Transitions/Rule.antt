-- ===== src/Pair/Transitions/Rule.antt =====
-- lib/pairchecker/analyzer/PairTransitions.h: what one transition has to do, as a rule on the values
-- and the reports.
use nvmordering.Base.{
  ℕ, Bool, true, false, ◌||◌, ◌==◌, if◌then◌else◌, ◌≡◌, refl, [], ◌∷◌, insert, has_key,
  has_key-insert, arith, ◌∙◌, subst, sym,
}
use nvmordering.Pair.Lattice.{PairLattice, get_write, is_write_flush}
use nvmordering.Pair.Variables.{is_used_var}
use nvmordering.Pair.StmtParser.{
  Globals, TransitionInfo, TransferFunction, write_func, flush_func, flush_fence_func, vfence_func,
  pfence_func,
}
use nvmordering.Pair.Reporter.{AbstractState, BugData, Reporter, update_last_location}
use nvmordering.Pair.Reporter.Partners.{IsCached}
use nvmordering.Pair.Reporter.Checks.{IsLocated, is_new_bug, reported, uncommitted}
use nvmordering.Pair.Transitions.{Outcome, fence_value, fence_all, flush_value}
use nvmordering.Pair.Transitions.Values.{value}

-- What the reporter relies on between two transitions.
pub record IsSound (g : Globals) (unit : ℕ) (state : AbstractState) (r : Reporter) : Type 0 where
  pub located : IsLocated state r.last_location_map
  pub cached : IsCached g unit r.var_to_pair

-- The parser makes a write transition only for a used variable.
abbrev pub IsParsed : Globals → TransitionInfo → Type 0
IsParsed g ti = ti.transfer_func ≡ write_func → is_used_var g.variables ti.var ≡ true

-- What a transition makes of the value of `x`.
unfoldable pub value_after : TransferFunction → Bool → PairLattice → PairLattice
value_after write_func own v = if own then get_write v else v
value_after flush_func own v = if own then (flush_value false v).0 else v
value_after flush_fence_func own v = if own then (flush_value true v).0 else v
value_after vfence_func own v = (fence_value false v).0
value_after pfence_func own v = (fence_value true v).0
value_after _ own v = v

-- The reports that a transition has to add: those of a write.
unfoldable pub is_report :
    Globals → ℕ → ℕ → TransferFunction → ℕ → AbstractState → Reporter → BugData → Bool
is_report g unit s write_func x state r b =
    is_new_bug g unit x s (insert x (get_write (value state x)) state) (update_last_location x s r)
      b
is_report g unit s _ x state r b = false

pub record IsStep (g : Globals) (unit s : ℕ) (f : TransferFunction) (x : ℕ) (state : AbstractState)
    (r : Reporter) (out : Outcome) : Type 0 where
  pub sound : IsSound g unit out.1 out.2
  pub values : (j : ℕ) → value out.1 j ≡ value_after f (x == j) (value state j)
  pub reports :
      (b : BugData)
      → reported b out.2.bug_data_list
        ≡ (reported b r.bug_data_list || is_report g unit s f x state r b)

-- No fence and no flush makes a variable uncommitted.
pub fence-uncommitted :
    (pf : Bool) (v : PairLattice)
    → is_write_flush (fence_value pf v).0 ≡ true
    → is_write_flush v ≡ true
unfolding fence_value is_write_flush
fence-uncommitted pf v h = ground arith

pub flush-uncommitted :
    (pf : Bool) (v : PairLattice)
    → is_write_flush (flush_value pf v).0 ≡ true
    → is_write_flush v ≡ true
unfolding flush_value is_write_flush
flush-uncommitted pf v h = ground arith

-- The fields that a fence leaves alone, and the last locations, of which it loses none.
pub record KeepsReporter (r r' : Reporter) : Type 0 where
  pub cache : r'.var_to_pair ≡ r.var_to_pair
  pub bugs : r'.bug_data_list ≡ r.bug_data_list
  pub known : (y : ℕ) → has_key y r.last_location_map ≡ true → has_key y r'.last_location_map ≡ true

pub update-Keeps :
    (changed : Bool) (var s : ℕ) (r : Reporter)
    → KeepsReporter r (if changed then update_last_location var s r else r)
unfolding update_last_location
update-Keeps changed var s r = record {
  cache = ground arith;
  bugs = ground arith;
  known = λ y h. ground (arith, has_key-insert y var s r.last_location_map);
}

Keeps-trans :
    {r r' r'' : Reporter} → KeepsReporter r r' → KeepsReporter r' r'' → KeepsReporter r r''
Keeps-trans k k' = record {
  cache = k'.cache ∙ k.cache;
  bugs = k'.bugs ∙ k.bugs;
  known = λ y h. k'.known y (k.known y h);
}

pub fence_all-Keeps :
    (s : ℕ) (pf : Bool) (state : AbstractState) (r : Reporter)
    → KeepsReporter r (fence_all s pf state r).2
unfolding fence_all
fence_all-Keeps s pf [] r = record { cache = refl; bugs = refl; known = λ y h. h }
fence_all-Keeps s pf ((var, lv) ∷ rest) r =
    let r' = if (fence_value pf lv).1 then update_last_location var s r else r in
    Keeps-trans (update-Keeps (fence_value pf lv).1 var s r) (fence_all-Keeps s pf rest r')

pub Keeps-IsSound :
    {g : Globals} {unit : ℕ} {state state' : AbstractState} {r r' : Reporter}
    → KeepsReporter r r'
    → ((y : ℕ) → uncommitted state' y ≡ true → uncommitted state y ≡ true)
    → IsSound g unit state r
    → IsSound g unit state' r'
Keeps-IsSound {g} {unit} k fewer i = record {
  located = λ y u. k.known y (i.located y (fewer y u));
  cached = subst (IsCached g unit) (sym k.cache) i.cached;
}
