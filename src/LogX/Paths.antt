-- ===== src/LogX/Paths.antt =====
-- lib/logxchecker: the paths that clang explores, as sequences of callbacks of LogChecker.cpp, and
-- what the log map and the transaction counter are at their ends.
use nvmordering.Base.{
  ℕ, Bool, false, List, [], ◌∷◌, lookup, ok, ◌≡◌, refl, arith, ok-injective, sym, ◌∙◌, ◌≢◌,
}
use nvmordering.Symbolic.Engine.{CheckerContext, Call, OneOf, successors, context_at, push}
use nvmordering.Symbolic.Memory.{Memory}
use nvmordering.Symbolic.Decls.{Decls}
use nvmordering.LogX.Identify.{Identify}
use nvmordering.LogX.Functions.{LogFncs}
use nvmordering.LogX.State.{ProgramState, initial_state}
use nvmordering.LogX.Checker.{
  CallEvent, check_begin_function, check_post_call, check_bind, handle_log,
}
use nvmordering.LogX.Actions.{
  Action, nothing, was_logged, count_begins, count_ends, IsStateOf, Callback, post_call, bind,
  begin_function, run_callback, call_action, log_call_action, action, perform, promised,
}
use nvmordering.LogX.Performs.{perform_keeps, perform-promised}

nothing_keeps :
    (acts : List Action) (a : Action) (m s : ProgramState)
    → s ≡ m
    → a ≡ nothing
    → IsStateOf acts m
    → IsStateOf (a ∷ acts) s
unfolding was_logged count_begins count_ends
nothing_keeps acts a m s same none_ st =
    rw none_ record { fields = λ j. rw same (st.fields j); counter = rw same st.counter }

module _ {Fnc Var : Type 0} (identify : Identify Fnc Var) (decls : Decls) (mem : Memory) (fuel : ℕ)
    (log_vars : Var) (fncs : LogFncs Fnc) (gives : List (Call ProgramState) → Bool) where
  -- The paths: each callback runs at a state that the one before it goes on with. The last action
  -- stands first.
  pub data Explored : List Action → ProgramState → Type 0 where
    start : Explored [] initial_state
    step :
        {acts : List Action} {a : Action} {m s : ProgramState} (cb : Callback)
        (c : CheckerContext ProgramState)
        → Explored acts m
        → action identify decls mem fuel log_vars fncs cb ≡ ok a
        → run_callback identify decls mem fuel log_vars fncs gives cb m ≡ ok c
        → OneOf s (successors c)
        → Explored (a ∷ acts) s

  call_perform :
      (call : CallEvent) (a : Action) (c : CheckerContext ProgramState)
      → call_action identify decls mem fuel log_vars fncs call ≡ ok a
      → check_post_call identify decls mem fuel log_vars fncs call c ≡ perform fncs a c
  unfolding check_post_call call_action log_call_action handle_log perform
  call_perform call a c e = ground arith

  bind_perform :
      (loc : ℕ) (a : Action) (c : CheckerContext ProgramState)
      → action identify decls mem fuel log_vars fncs (bind loc) ≡ ok a
      → check_bind identify decls mem fuel log_vars fncs loc c ≡ perform fncs a c
  unfolding check_bind action perform
  bind_perform loc a c e = ground arith

  begin_successor_state :
      (top : Bool) (d : ℕ) (a : Action) (m s : ProgramState) (c : CheckerContext ProgramState)
      → action identify decls mem fuel log_vars fncs (begin_function top d) ≡ ok a
      → run_callback identify decls mem fuel log_vars fncs gives (begin_function top d) m ≡ ok c
      → OneOf s (successors c)
      → (s ≡ m) × (a ≡ nothing)
  unfolding run_callback action check_begin_function push successors
  begin_successor_state top d a m s c e r h = ground arith

  -- Along every path the log map holds exactly the fields that were logged, all of them as
  -- `Logged`, and the counter is the number of beginnings less that of ends modulo 2 ^ 32.
  pub Explored-IsStateOf :
      (acts : List Action) (s : ProgramState) → Explored acts s → IsStateOf acts s
  unfolding was_logged count_begins count_ends lookup action run_callback
  Explored-IsStateOf _ _ start = record { fields = λ nd. refl; counter = refl }
  Explored-IsStateOf (a ∷ acts) s (step (post_call call) c p e r h) =
      perform_keeps fncs gives acts a _ s c (sym (call_perform call a _ e) ∙ r) h
        (Explored-IsStateOf acts _ p)
  Explored-IsStateOf (a ∷ acts) s (step (bind loc) c p e r h) =
      perform_keeps fncs gives acts a _ s c (sym (bind_perform loc a _ e) ∙ r) h
        (Explored-IsStateOf acts _ p)
  Explored-IsStateOf (a ∷ acts) s (step (begin_function top d) c p e r h) =
      let (same, none_) = begin_successor_state top d a _ s c e r h in
      nothing_keeps acts a _ s same none_ (Explored-IsStateOf acts _ p)

  -- A call or a bind at the end of a path, about an action other than nothing, returns and makes
  -- exactly the calls that the actions before it promise. In this order: a report of an access
  -- outside of every transaction, if the checker looks at these and the beginnings less the ends
  -- are 0 modulo 2 ^ 32; a report of a double log, at a log of a field that the path logged; a
  -- report of a missing log, at a write of one that it did not; and a transition for a first log
  -- and for the two ends of a transaction. Each report is made where clang gives an error node.
  pub run_callback-promised :
      (acts : List Action) (m : ProgramState) (cb : Callback) (a : Action)
      → Explored acts m
      → action identify decls mem fuel log_vars fncs cb ≡ ok a
      → a ≢ nothing
      → run_callback identify decls mem fuel log_vars fncs gives cb m
        ≡ ok (promised fncs.use_tx a acts (context_at gives false 0 m))
  unfolding run_callback action
  run_callback-promised acts m (post_call call) a p e h =
      call_perform call a (context_at gives false 0 m) e
      ∙ perform-promised fncs gives acts a m h (Explored-IsStateOf acts m p)
  run_callback-promised acts m (bind loc) a p e h =
      bind_perform loc a (context_at gives false 0 m) e
      ∙ perform-promised fncs gives acts a m h (Explored-IsStateOf acts m p)
  run_callback-promised acts m (begin_function top d) a p e h = absurd (h (sym (ok-injective e)))
