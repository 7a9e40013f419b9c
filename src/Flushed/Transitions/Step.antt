-- ===== src/Flushed/Transitions/Step.antt =====
-- One transition of FlushedTransitions.h: the values and the reports behind it.
use nvmordering.Base.{
  ℕ, Bool, true, false, ◌&&◌, ◌||◌, not, ◌==◌, if◌then◌else◌, ◌≡◌, refl, List, [], ◌∷◌, ◌++◌, get,
  lookup, get-insert, get-touch, member, arith, ◌⊎◌, Bool-cases, inl, inr,
}
use nvmordering.Flushed.Lattice.{
  Dcl, write, flush, pfence, dcl_no, new_lattice, get_write, get_flush, get_pfence,
}
use nvmordering.Flushed.StmtParser.{
  TransitionInfo, TransferFunction, AccessType, write_func, flush_func, flush_fence_func,
  pfence_func, callee_func, no_func, field_access, tracked_variable_access, no_access, is_pfence,
}
use nvmordering.Flushed.Reporter.{
  AbstractState, BugData, Reporter, add_as_bug, check_bug, get_last_location, update_last_location,
}
use nvmordering.Flushed.Transitions.{
  Outcome, handle_write, handle_flush, handle_fence, fence_all, dispatch, handle_transition,
}

abbrev pub same_bug : BugData → BugData → Bool
same_bug a b =
    a.field_stmt == b.field_stmt
    && (a.tracked_stmt == b.tracked_stmt
        && (a.field_var == b.field_var && a.tracked_var == b.tracked_var))

unfoldable pub reported : BugData → List BugData → Bool
reported b [] = false
reported b (a ∷ bugs) = same_bug a b || reported b bugs

reported-append :
    (b : BugData) (bugs cs : List BugData)
    → reported b (bugs ++ cs) ≡ (reported b bugs || reported b cs)
unfolding reported
reported-append b [] cs = refl
reported-append b (a ∷ bugs) cs = ground (arith, reported-append b bugs cs)

abbrev pub value : AbstractState → ℕ → Dcl
value state x = (get new_lattice x state).dcl

-- The life of a variable, from the outside: an assignment to it makes it dirty, a flush starts its
-- way to memory, and a fence ends that way. A flush that is also a fence does both.
unfoldable pub dcl_after : TransferFunction → AccessType → Bool → Dcl → Dcl
dcl_after write_func tracked_variable_access true d = write
dcl_after flush_func tracked_variable_access true d = flush
dcl_after flush_fence_func tracked_variable_access true d = pfence
dcl_after pfence_func a own flush = pfence
dcl_after f a own d = d

-- The report of a write of the variable `x` into a field.
abbrev pub bug_of : ℕ → ℕ → ℕ → BugData
bug_of s location x = record {
  field_stmt = s;
  tracked_stmt = location;
  field_var = x;
  tracked_var = x;
}

unfoldable pub is_report :
    TransferFunction → AccessType → ℕ → ℕ → AbstractState → Reporter → BugData → Bool
is_report write_func field_access s x state r b =
    not (member x r.bugged_vars)
    && (not (dcl_no (value state x) == dcl_no pfence)
        && same_bug (bug_of s (get_last_location x r) x) b)
is_report _ _ s x state r b = false

pub record IsFlushStep (s : ℕ) (ti : TransitionInfo) (state : AbstractState) (r : Reporter)
    (out : Outcome) : Type 0 where
  pub values :
      (j : ℕ)
      → value out.1 j
        ≡ dcl_after ti.transfer_func ti.access_type (ti.tracked_variable == j) (value state j)
  pub reports :
      (b : BugData)
      → reported b out.2.bug_data_list ≡ (
          reported b r.bug_data_list
          || is_report ti.transfer_func ti.access_type s ti.tracked_variable state r b)
  pub flagged : out.2.bugged_vars ≡ r.bugged_vars

fence_all-values :
    (s : ℕ) (state : AbstractState) (r : Reporter) (j : ℕ) (a : AccessType) (own : Bool)
    → value (fence_all s state r).1 j ≡ dcl_after pfence_func a own (value state j)
unfolding fence_all get lookup dcl_after
fence_all-values s [] r j a own = ground arith
fence_all-values s ((var, lv) ∷ rest) r j a own =
    let r' = if dcl_no lv.dcl == 1 then update_last_location var s r else r in
    elim (Bool-cases (var == j)) [
      | inl e ↦ rw (e, value) (ground arith)
      | inr e ↦ rw (e, value) (fence_all-values s rest r' j a own)
    ]

fence_all-reports :
    (s : ℕ) (state : AbstractState) (r : Reporter)
    → ((fence_all s state r).2.bug_data_list ≡ r.bug_data_list)
      × ((fence_all s state r).2.bugged_vars ≡ r.bugged_vars)
unfolding fence_all update_last_location
fence_all-reports s [] r = (refl, refl)
fence_all-reports s ((var, lv) ∷ rest) r =
    let r' = if dcl_no lv.dcl == 1 then update_last_location var s r else r in
    ground (arith, fence_all-reports s rest r')

write-Step :
    (a : AccessType) (s : ℕ) (ti : TransitionInfo) (state : AbstractState) (r : Reporter)
    → ti.transfer_func ≡ write_func
    → ti.access_type ≡ a
    → IsFlushStep s ti state r (handle_write s ti state r)
unfolding handle_write check_bug add_as_bug update_last_location is_report dcl_after reported
write-Step field_access s ti state r f e =
    rw (f, e)
      (record {
        values = λ j. ground (arith, get-touch new_lattice j ti.tracked_variable state);
        reports = λ b. ground (
          arith,
          reported-append b r.bug_data_list
              (bug_of s (get_last_location ti.tracked_variable r) ti.tracked_variable ∷ []),
        );
        flagged = ground arith;
      })
write-Step tracked_variable_access s ti state r f e =
    rw (f, e)
      (record {
        values = λ j.
            let x = ti.tracked_variable in
            ground (arith, get-insert new_lattice j x (get_write (get new_lattice x state)) state);
        reports = λ b. ground arith;
        flagged = ground arith;
      })
write-Step no_access s ti state r f e =
    rw (f, e) (record { values = λ j. ground arith; reports = λ b. ground arith; flagged = refl })

flush-Step :
    (a : AccessType) (f : TransferFunction) (s : ℕ) (ti : TransitionInfo) (state : AbstractState)
    (r : Reporter)
    → ti.transfer_func ≡ f
    → ti.access_type ≡ a
    → (f ≡ flush_func) ⊎ (f ≡ flush_fence_func)
    → IsFlushStep s ti state r (handle_flush s ti state r)
unfolding handle_flush is_pfence update_last_location is_report dcl_after
flush-Step tracked_variable_access f s ti state r e e' k =
    rw (e, e')
      (record {
        values = λ j.
            let x = ti.tracked_variable in
            ground (
              arith,
              get-insert new_lattice j x (get_flush (get new_lattice x state)) state,
              get-insert new_lattice j x (get_pfence (get new_lattice x state)) state,
              k,
            );
        reports = λ b. ground (arith, k);
        flagged = refl;
      })
flush-Step _ f s ti state r e e' k =
    rw (e, e')
      (record { values = λ j. ground (arith, k); reports = λ b. ground (arith, k); flagged = refl })

fence-Step :
    (s : ℕ) (ti : TransitionInfo) (state : AbstractState) (r : Reporter)
    → ti.transfer_func ≡ pfence_func
    → IsFlushStep s ti state r (handle_fence s ti state r)
unfolding handle_fence is_report
fence-Step s ti state r e = rw e (record {
  values = λ j. fence_all-values s state r j ti.access_type (ti.tracked_variable == j);
  reports = λ b. ground (arith, fence_all-reports s state r);
  flagged = (fence_all-reports s state r).1;
})

dispatch-Step :
    (f : TransferFunction) (s : ℕ) (ti : TransitionInfo) (state : AbstractState) (r : Reporter)
    → ti.transfer_func ≡ f
    → IsFlushStep s ti state r (dispatch f s ti state r)
unfolding dispatch is_report dcl_after
dispatch-Step write_func s ti state r e = write-Step ti.access_type s ti state r e refl
dispatch-Step flush_func s ti state r e =
    flush-Step ti.access_type flush_func s ti state r e refl (inl refl)
dispatch-Step flush_fence_func s ti state r e =
    flush-Step ti.access_type flush_fence_func s ti state r e refl (inr refl)
dispatch-Step pfence_func s ti state r e = fence-Step s ti state r e
dispatch-Step callee_func s ti state r e =
    rw e (record { values = λ j. ground arith; reports = λ b. ground arith; flagged = refl })
dispatch-Step no_func s ti state r e =
    rw e (record { values = λ j. ground arith; reports = λ b. ground arith; flagged = refl })

-- A transition changes the values as the lives of the variables say, reports the write of a variable
-- that is not committed into a field and nothing else, and flags nothing.
pub handle_transition-IsFlushStep :
    (s : ℕ) (ti : TransitionInfo) (state : AbstractState) (r : Reporter)
    → IsFlushStep s ti state r (handle_transition s ti state r)
unfolding handle_transition
handle_transition-IsFlushStep s ti state r = dispatch-Step ti.transfer_func s ti state r refl
