-- ===== src/Log/Functions.antt =====
-- lib/logchecker/preprocess/LogFunctions.h and LogVariables.h: the functions and the fields that
-- the log checker knows.
use nvmordering.Base.{
  ℕ, suc, Bool, false, ◌&&◌, ◌||◌, not, ◌==◌, Result, ok, err, null_deref, assert_failed, guard,
  ◌>>◌, [], ◌∷◌,
}
use nvmordering.Clang.{Ast}
use nvmordering.Globals.Functions.{AnnotFunction, BaseFunction, in_functions, insert_annotated}
use nvmordering.Globals.Functions.Named.{
  insert_named, log_function, tx_beg_function, tx_end_function,
}
use nvmordering.Globals.Variables.{AnnotVariable, insert_annot_variable, is_annot_variable}

pub record LogFunctions : Type 0 where
  pub analyzed_fnc : AnnotFunction
  pub skip_fnc : AnnotFunction
  pub log_fnc : BaseFunction
  pub tx_begin_fnc : BaseFunction
  pub tx_end_fnc : BaseFunction
  pub use_tx : Bool

-- The constructor: LOG_FNC and SKIP_FNC.
unfoldable pub new_log_functions : LogFunctions
new_log_functions = record {
  analyzed_fnc = record { annotation = "LogCode"; functions = [] };
  skip_fnc = record { annotation = "SkipCode"; functions = [] };
  log_fnc = [];
  tx_begin_fnc = [];
  tx_end_fnc = [];
  use_tx = false;
}

unfoldable pub is_log_function : LogFunctions → ℕ → Bool
unfolding in_functions
is_log_function l fd = in_functions l.log_fnc fd

unfoldable pub is_tx_begin_function : LogFunctions → ℕ → Bool
unfolding in_functions
is_tx_begin_function l fd = in_functions l.tx_begin_fnc fd

unfoldable pub is_tx_end_function : LogFunctions → ℕ → Bool
unfolding in_functions
is_tx_end_function l fd = in_functions l.tx_end_fnc fd

unfoldable pub is_skip_function : LogFunctions → ℕ → Bool
is_skip_function l fd =
    is_log_function l fd
    || (is_tx_begin_function l fd
        || (is_tx_end_function l fd || in_functions l.skip_fnc.functions fd))

unfoldable pub insert_function : Ast → ℕ → LogFunctions → LogFunctions
insert_function ast fd l = record l {
  analyzed_fnc = insert_annotated ast fd l.analyzed_fnc;
  skip_fnc = insert_annotated ast fd l.skip_fnc;
  log_fnc = insert_named ast log_function fd l.log_fnc;
  tx_begin_fnc = insert_named ast tx_beg_function fd l.tx_begin_fnc;
  tx_end_fnc = insert_named ast tx_end_function fd l.tx_end_fnc;
}

abbrev pub size : BaseFunction → ℕ
size [] = 0
size (fd ∷ fds) = suc (size fds)

unfoldable pub set_tx_mode : LogFunctions → Result LogFunctions
set_tx_mode l = do
  let use_tx = not (size l.tx_begin_fnc == 0) && not (size l.tx_end_fnc == 0)
  guard (not use_tx || (size l.tx_begin_fnc == 1 && size l.tx_end_fnc == 1)) assert_failed
  ok (record l { use_tx = use_tx })

-- `*txBeginFnc.begin()`, which an empty set does not have
unfoldable pub get_tx_function : LogFunctions → Result ℕ
get_tx_function l = elim l.tx_begin_fnc [ [] ↦ err null_deref | fd ∷ fds ↦ ok fd ]

pub record LogVariables : Type 0 where
  pub log_field : AnnotVariable

-- The constructor: LOG.
abbrev pub new_log_variables : LogVariables
new_log_variables = record { log_field = record { variable_set = []; special_annot = "LogField" } }

unfoldable pub is_used_var : LogVariables → ℕ → Bool
unfolding is_annot_variable
is_used_var v var = is_annot_variable v.log_field var

unfoldable pub insert_variable : Ast → ℕ → LogVariables → LogVariables
unfolding insert_annot_variable
insert_variable ast var v = record v { log_field = insert_annot_variable ast var v.log_field }
