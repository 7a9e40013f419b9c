-- ===== src/LogX/Performs.antt =====
-- lib/logxchecker: what a callback does to the state of a path and what it reports, by the action that
-- it is about.
use nvmordering.Base.{
  ℕ, ◌+◌, ◌-◌, ◌%◌, Bool, false, List, ◌∷◌, none, some, lookup, ok, ◌≡◌, refl, arith, inl, inr,
  Bool-cases, insert, lookup-insert, ◌≢◌,
}
use nvmordering.Symbolic.Engine.{
  CheckerContext, Call, OneOf, successors, context_at, push, report_at_error_node,
}
use nvmordering.LogX.Functions.{LogFncs}
use nvmordering.LogX.State.{ProgramState, logged, u32_mod, write_data, log_data, check_tx}
use nvmordering.LogX.Checker.{at_field, handle_tx_beg, handle_tx_end}
use nvmordering.LogX.Actions.{
  Action, logs, writes, begins, ends, nothing, was_logged, count_begins, count_ends, IsStateOf,
  perform, promised,
}

module _ {Fnc : Type 0} (fncs : LogFncs Fnc) (gives : List (Call ProgramState) → Bool) where
  write_successor :
      (nd : ℕ) (m s : ProgramState) (c : CheckerContext ProgramState)
      → at_field fncs write_data nd (context_at gives false 0 m) ≡ ok c
      → OneOf s (successors c)
      → s ≡ m
  unfolding at_field write_data check_tx report_at_error_node push successors
  write_successor nd m s c e h = ground arith

  log_successor :
      (nd : ℕ) (m s : ProgramState) (c : CheckerContext ProgramState)
      → lookup nd m.log_map ≡ none
      → at_field fncs log_data nd (context_at gives false 0 m) ≡ ok c
      → OneOf s (successors c)
      → s ≡ record m { log_map = insert nd logged m.log_map }
  unfolding at_field log_data check_tx report_at_error_node push successors
  log_successor nd m s c new e h = ground arith

  -- After a double log there is no path.
  log_twice_stops :
      (nd : ℕ) (m s : ProgramState) (c : CheckerContext ProgramState)
      → lookup nd m.log_map ≡ some logged
      → at_field fncs log_data nd (context_at gives false 0 m) ≡ ok c
      → OneOf s (successors c)
      → ⊥
  unfolding at_field log_data check_tx report_at_error_node push successors
  log_twice_stops nd m s c old e h = ground arith

  begin_successor :
      (m s : ProgramState) (c : CheckerContext ProgramState)
      → ok (handle_tx_beg (context_at gives false 0 m)) ≡ ok c
      → OneOf s (successors c)
      → s ≡ record m { tx_counter = (m.tx_counter + 1) % u32_mod }
  unfolding handle_tx_beg push successors
  begin_successor m s c e h = ground arith

  end_successor :
      (m s : ProgramState) (c : CheckerContext ProgramState)
      → ok (handle_tx_end (context_at gives false 0 m)) ≡ ok c
      → OneOf s (successors c)
      → s ≡ record m { tx_counter = (m.tx_counter + u32_mod - 1) % u32_mod }
  unfolding handle_tx_end push successors
  end_successor m s c e h = ground arith

  nothing_successor :
      (m s : ProgramState) (c : CheckerContext ProgramState)
      → ok (context_at gives false 0 m) ≡ ok c
      → OneOf s (successors c)
      → s ≡ m
  unfolding successors
  nothing_successor m s c e h = ground arith

  pub perform_keeps :
      (acts : List Action) (a : Action) (m s : ProgramState) (c : CheckerContext ProgramState)
      → perform fncs a (context_at gives false 0 m) ≡ ok c
      → OneOf s (successors c)
      → IsStateOf acts m
      → IsStateOf (a ∷ acts) s
  unfolding perform was_logged count_begins count_ends
  perform_keeps acts (logs nd) m s c e h st = elim (Bool-cases (was_logged nd acts)) [
    | inl old ↦ absurd (log_twice_stops nd m s c (ground (arith, st.fields nd)) e h)
    | inr new ↦
        let same = log_successor nd m s c (ground (arith, st.fields nd)) e h in
        record {
          fields = λ j. rw same (ground (arith, st.fields j, lookup-insert j nd logged m.log_map));
          counter = rw same st.counter;
        }
  ]
  perform_keeps acts (writes nd) m s c e h st =
      let same = write_successor nd m s c e h in
      record { fields = λ j. rw same (st.fields j); counter = rw same st.counter }
  perform_keeps acts begins m s c e h st =
      let same = begin_successor m s c e h in
      record {
        fields = λ j. rw same (st.fields j);
        counter = rw same (rw (st.counter) (omega arith));
      }
  perform_keeps acts ends m s c e h st =
      let same = end_successor m s c e h in
      record {
        fields = λ j. rw same (st.fields j);
        counter = rw same (rw (st.counter) (omega arith));
      }
  perform_keeps acts nothing m s c e h st =
      let same = nothing_successor m s c e h in
      record { fields = λ j. rw same (st.fields j); counter = rw same st.counter }

  access_log :
      (acts : List Action) (nd : ℕ) (m : ProgramState)
      → IsStateOf acts m
      → at_field fncs log_data nd (context_at gives false 0 m)
        ≡ ok (promised fncs.use_tx (logs nd) acts (context_at gives false 0 m))
  unfolding at_field log_data check_tx promised
  access_log acts nd m st = ground (arith, st.fields nd, st.counter)

  access_write :
      (acts : List Action) (nd : ℕ) (m : ProgramState)
      → IsStateOf acts m
      → at_field fncs write_data nd (context_at gives false 0 m)
        ≡ ok (promised fncs.use_tx (writes nd) acts (context_at gives false 0 m))
  unfolding at_field write_data check_tx promised
  access_write acts nd m st = ground (arith, st.fields nd, st.counter)

  pub perform-promised :
      (acts : List Action) (a : Action) (m : ProgramState)
      → a ≢ nothing
      → IsStateOf acts m
      → perform fncs a (context_at gives false 0 m)
        ≡ ok (promised fncs.use_tx a acts (context_at gives false 0 m))
  unfolding perform promised
  perform-promised acts (logs nd) m h st = access_log acts nd m st
  perform-promised acts (writes nd) m h st = access_write acts nd m st
  perform-promised acts begins m h st = ground arith
  perform-promised acts ends m h st = ground arith
  perform-promised acts nothing m h st = absurd (h refl)
