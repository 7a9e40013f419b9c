-- ===== src/Symbolic/Engine.antt =====
-- include/util/Graph.h and clang's CheckerContext. A callback of a path-sensitive checker reads the
-- program state of the node it runs at and calls the engine back. The context keeps those calls in
-- their order. Clang decides whether `generateErrorNode` gives a node: `gives_node` is its answer
-- after the calls made so far.
use Prim.Native.String.{String}
use nvmordering.Base.{
  ℕ, Bool, true, false, List, [], ◌∷◌, ◌++◌, ◌||◌, if◌then◌else◌, ◌≡◌, ◌⊎◌, refl, arith,
}

-- The bug types of the two reporters.
pub data BugType : Type 0 where
  double_log not_log_before_write access_outside_tx not_flush_bug : BugType

-- BugReportData, without the nodes and the state that clang prints; 0 is the null declaration.
pub record BugReportData : Type 0 where
  pub nd : ℕ
  pub msg : String
  pub bug_ptr : BugType

-- The calls of the engine: addTransition, generateErrorNode, and a report at an error node.
pub data Call (State : Type 0) : Type 0 where
  transition_call : State → Call State
  error_node_call : Call State
  report_call : BugReportData → Call State

pub record CheckerContext (State : Type 0) : Type 0 where
  pub state : State
  pub calls : List (Call State)
  pub gives_node : List (Call State) → Bool
  pub in_top_frame : Bool
  pub decl : ℕ

module _ {State : Type 0} where
  unfoldable pub push : Call State → CheckerContext State → CheckerContext State
  push call c = record c { calls = c.calls ++ (call ∷ []) }

  -- C.addTransition(State)
  unfoldable pub add_transition : State → CheckerContext State → CheckerContext State
  unfolding push
  add_transition s c = push (transition_call s) c

  -- if (ExplodedNode* EN = C.generateErrorNode()) { ... BR.report(BRData); }
  unfoldable pub report_at_error_node : BugReportData → CheckerContext State → CheckerContext State
  unfolding push
  report_at_error_node data_ c =
      let c' = push error_node_call c in
      if c.gives_node c.calls then push (report_call data_) c' else c'

  -- endExploration
  unfoldable pub end_exploration : CheckerContext State → CheckerContext State
  unfolding push
  end_exploration c = push error_node_call c

  -- addNewState; `same` is the comparison of two states.
  unfoldable pub add_new_state :
      (State → State → Bool) → State → State → CheckerContext State → CheckerContext State
  unfolding add_transition
  add_new_state same s s' c = if same s' s then c else add_transition s' c

  -- The states that the path goes on with after a callback: clang keeps the node of the callback
  -- unless a node was made of it, and no path leaves an error node.
  unfoldable pub transitions : List (Call State) → List State
  transitions [] = []
  transitions (transition_call s ∷ calls) = s ∷ transitions calls
  transitions (error_node_call ∷ calls) = transitions calls
  transitions (report_call d ∷ calls) = transitions calls

  unfoldable pub makes_node : List (Call State) → Bool
  makes_node [] = false
  makes_node (transition_call s ∷ calls) = true
  makes_node (error_node_call ∷ calls) = true
  makes_node (report_call d ∷ calls) = makes_node calls

  unfoldable pub successors : CheckerContext State → List State
  unfolding transitions makes_node
  successors c = if makes_node c.calls then transitions c.calls else c.state ∷ []

  -- One of the states.
  abbrev pub OneOf : State → List State → Type 0
  OneOf s [] = ⊥
  OneOf s (x ∷ xs) = (s ≡ x) ⊎ OneOf s xs

  -- The context of a callback at a node, before it calls anything.
  abbrev pub context_at : (List (Call State) → Bool) → Bool → ℕ → State → CheckerContext State
  context_at gives_node in_top_frame decl s = record {
    state = s;
    calls = [];
    gives_node = gives_node;
    in_top_frame = in_top_frame;
    decl = decl;
  }

  -- The reports of a callback.
  unfoldable pub reports : List (Call State) → List BugReportData
  reports [] = []
  reports (transition_call s ∷ calls) = reports calls
  reports (error_node_call ∷ calls) = reports calls
  reports (report_call d ∷ calls) = d ∷ reports calls

  pub transitions-append :
      (xs ys : List (Call State)) → transitions (xs ++ ys) ≡ transitions xs ++ transitions ys
  unfolding transitions
  transitions-append [] ys = refl
  transitions-append (transition_call s ∷ xs) ys = ground (arith, transitions-append xs ys)
  transitions-append (error_node_call ∷ xs) ys = transitions-append xs ys
  transitions-append (report_call d ∷ xs) ys = transitions-append xs ys

  pub makes_node-append :
      (xs ys : List (Call State)) → makes_node (xs ++ ys) ≡ (makes_node xs || makes_node ys)
  unfolding makes_node
  makes_node-append [] ys = refl
  makes_node-append (transition_call s ∷ xs) ys = refl
  makes_node-append (error_node_call ∷ xs) ys = refl
  makes_node-append (report_call d ∷ xs) ys = makes_node-append xs ys

  pub reports-append : (xs ys : List (Call State)) → reports (xs ++ ys) ≡ reports xs ++ reports ys
  unfolding reports
  reports-append [] ys = refl
  reports-append (transition_call s ∷ xs) ys = reports-append xs ys
  reports-append (error_node_call ∷ xs) ys = reports-append xs ys
  reports-append (report_call d ∷ xs) ys = ground (arith, reports-append xs ys)
