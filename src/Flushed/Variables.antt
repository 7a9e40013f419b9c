-- ===== src/Flushed/Variables.antt =====
-- lib/flushedchecker/preprocess/FlushedVariables.h: the persistent pointer fields, and the variables
-- that are written into them.
use nvmordering.Base.{ℕ, Bool, [], PtrSet, add, member}
use nvmordering.Clang.{Ast}
use nvmordering.Globals.Variables.{AnnotVariable, insert_annot_variable, is_annot_variable}

pub record FlushedVariables : Type 0 where
  pub field_variables : AnnotVariable
  pub tracked_variables : PtrSet

-- The constructor: FLUSHED.
abbrev pub new_flushed_variables : FlushedVariables
new_flushed_variables = record {
  field_variables = record { variable_set = []; special_annot = "FlushedPtr" };
  tracked_variables = [];
}

unfoldable pub is_field_variable : FlushedVariables → ℕ → Bool
unfolding is_annot_variable
is_field_variable v var = is_annot_variable v.field_variables var

unfoldable pub is_tracked_variable : FlushedVariables → ℕ → Bool
unfolding member
is_tracked_variable v var = member var v.tracked_variables

unfoldable pub insert_field_variable : Ast → ℕ → FlushedVariables → FlushedVariables
unfolding insert_annot_variable
insert_field_variable ast var v = record v {
  field_variables = insert_annot_variable ast var v.field_variables;
}

unfoldable pub insert_tracked_variable : ℕ → FlushedVariables → FlushedVariables
unfolding add
insert_tracked_variable var v = record v { tracked_variables = add var v.tracked_variables }
