-- ===== src/Pair/Transitions/Step.antt =====
-- One transition of PairTransitions.h: it ends without a fault, keeps what the reporter relies on,
-- and changes each variable and the reports as it should.
use nvmordering.Base.{
  ℕ, Bool, true, false, ◌==◌, ==_iff, if◌then◌else◌, ◌≡◌, refl, ok, get-insert, insert, has_key,
  has_key-insert, arith, ◌∙◌, subst, sym,
}
use nvmordering.Pair.Lattice.{PairLattice, default_lattice, get_write, is_write_flush}
use nvmordering.Pair.Variables.{is_used_var}
use nvmordering.Pair.StmtParser.{
  Globals, TransitionInfo, TransferFunction, write_func, flush_func, flush_fence_func, vfence_func,
  pfence_func, callee_func, no_func, is_pfence,
}
use nvmordering.Pair.Reporter.{AbstractState, BugData, Reporter}
use nvmordering.Pair.Reporter.Partners.{IsCollected}
use nvmordering.Pair.Reporter.Checks.{IsLocated, uncommitted, update_and_check_lem}
use nvmordering.Pair.Transitions.{
  Outcome, fence_value, handle_fence, flush_value, handle_flush, handle_write, dispatch,
  handle_transition,
}
use nvmordering.Pair.Transitions.Values.{value, value-fence_all, value-handle_flush}
use nvmordering.Pair.Transitions.Rule.{
  IsSound, IsParsed, value_after, is_report, IsStep, fence-uncommitted, flush-uncommitted,
  update-Keeps, fence_all-Keeps, Keeps-IsSound,
}

module _ (g : Globals) (unit s : ℕ) (state : AbstractState) (r : Reporter)
    (i : IsSound g unit state r) where
  fence-IsStep :
      (f : TransferFunction) (ti : TransitionInfo)
      → ((own : Bool) (v : PairLattice) → value_after f own v ≡ (fence_value (is_pfence ti) v).0)
      → ((b : BugData) → is_report g unit s f ti.var state r b ≡ false)
      → IsStep g unit s f ti.var state r (handle_fence s ti state r)
  unfolding handle_fence uncommitted
  fence-IsStep f ti after quiet =
      let pf = is_pfence ti in
      let k = fence_all-Keeps s pf state r in
      let vals = value-fence_all s pf state r in
      record {
        sound =
            Keeps-IsSound k
              (λ y u.
                fence-uncommitted pf (value state y)
                  (subst (λ v. is_write_flush v ≡ true) (vals y) u))
              i;
        values = λ j. vals j ∙ sym (after (ti.var == j) (value state j));
        reports = λ b. rw (k.bugs, quiet b) (ground arith);
      }

  flush-IsStep :
      (f : TransferFunction) (ti : TransitionInfo)
      → ((own : Bool) (v : PairLattice)
          → value_after f own v ≡ (if own then (flush_value (is_pfence ti) v).0 else v))
      → ((b : BugData) → is_report g unit s f ti.var state r b ≡ false)
      → IsStep g unit s f ti.var state r (handle_flush s ti state r)
  unfolding handle_flush uncommitted
  flush-IsStep f ti after quiet =
      let vals = value-handle_flush s ti state r in
      let k = update-Keeps (flush_value (is_pfence ti) (value state ti.var)).1 ti.var s r in
      record {
        sound =
            Keeps-IsSound k
              (λ y u. ground (arith, vals y, flush-uncommitted (is_pfence ti) (value state y))) i;
        values = λ j. vals j ∙ sym (after (ti.var == j) (value state j));
        reports = λ b. rw (k.bugs, quiet b) (ground arith);
      }

module _ (g : Globals) (c : IsCollected g) (s : ℕ) (state : AbstractState) (r : Reporter)
    (i : IsSound g c.unit state r) where
  write-IsStep :
      (ti : TransitionInfo)
      → is_used_var g.variables ti.var ≡ true
      → (out : Outcome) × (handle_write g s ti state r ≡ ok out)
        × IsStep g c.unit s write_func ti.var state r out
  unfolding handle_write value_after is_report uncommitted
  write-IsStep ti used =
      let x = ti.var in
      let state' = insert x (get_write (value state x)) state in
      let located : IsLocated state' (insert x s r.last_location_map) = λ y u. ground (
        arith,
        get-insert default_lattice y x (get_write (value state x)) state,
        has_key-insert y x s r.last_location_map,
        i.located y,
      ) in
      let (out, runs, vals, locs, cached, law) =
        update_and_check_lem g c x s state' r used located i.cached in
      (
        (true, out.0, out.1),
        rw runs refl,
        record {
          sound = record {
            located = λ y u.
                subst (λ m. has_key y m ≡ true) (sym locs)
                  (located y (subst (λ v. is_write_flush v ≡ true) (vals y) u));
            cached = cached;
          };
          values = λ j. ground (
            arith,
            vals j,
            get-insert default_lattice j x (get_write (value state x)) state,
            ==_iff x j,
          );
          reports = law;
        },
      )

  idle-IsStep :
      (x : ℕ) (f : TransferFunction)
      → ((own : Bool) (v : PairLattice) → value_after f own v ≡ v)
      → ((b : BugData) → is_report g c.unit s f x state r b ≡ false)
      → IsStep g c.unit s f x state r (false, state, r)
  idle-IsStep x f after quiet = record {
    sound = i;
    values = λ j. sym (after (x == j) (value state j));
    reports = λ b. rw (quiet b) (ground arith);
  }

  dispatch-IsStep :
      (f : TransferFunction) (ti : TransitionInfo)
      → ti.transfer_func ≡ f
      → IsParsed g ti
      → (out : Outcome) × (dispatch g f s ti state r ≡ ok out)
        × IsStep g c.unit s f ti.var state r out
  unfolding dispatch value_after is_report is_pfence
  dispatch-IsStep write_func ti e p = write-IsStep ti (p e)
  dispatch-IsStep flush_func ti e p =
      (_, refl, flush-IsStep g c.unit s state r i _ ti (λ own v. rw e) (λ b. refl))
  dispatch-IsStep flush_fence_func ti e p =
      (_, refl, flush-IsStep g c.unit s state r i _ ti (λ own v. rw e) (λ b. refl))
  dispatch-IsStep vfence_func ti e p =
      (_, refl, fence-IsStep g c.unit s state r i _ ti (λ own v. rw e) (λ b. refl))
  dispatch-IsStep pfence_func ti e p =
      (_, refl, fence-IsStep g c.unit s state r i _ ti (λ own v. rw e) (λ b. refl))
  dispatch-IsStep callee_func ti e p =
      (_, refl, idle-IsStep ti.var callee_func (λ own v. refl) (λ b. refl))
  dispatch-IsStep no_func ti e p = (_, refl, idle-IsStep ti.var no_func (λ own v. refl) (λ b. refl))

  -- A transition never ends in a fault; what the reporter relies on still holds, each value changes
  -- as `value_after` says, and the new reports are those of `is_report`.
  pub handle_transition-IsStep :
      (ti : TransitionInfo)
      → IsParsed g ti
      → (out : Outcome) × (handle_transition g s ti state r ≡ ok out)
        × IsStep g c.unit s ti.transfer_func ti.var state r out
  unfolding handle_transition
  handle_transition-IsStep ti p = dispatch-IsStep ti.transfer_func ti refl p
