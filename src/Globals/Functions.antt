-- ===== src/Globals/Functions.antt =====
-- BaseFunction.h and AnnotFunction.h: sets of functions,
-- collected by annotation; the children have those by name and the
-- six sets together.
pub mod Named
pub mod Direct
use Prim.Native.String.{String}
use text.Mathlib.Text.{◌==◌ as str_eq}
use nvmordering.Base.{
  ℕ, Bool, true, false, ◌||◌, List, [], ◌∷◌, if◌then◌else◌, PtrSet, member, add, remove, ◌==◌, ◌&&◌,
  ◌≡◌, arith, member-add,
}
use nvmordering.Clang.{Ast}

-- BaseFunction: the set `functions`, with its observers.
abbrev pub BaseFunction : Type 0
BaseFunction = PtrSet

unfoldable pub in_functions : BaseFunction → ℕ → Bool
unfolding member
in_functions functions fd = member fd functions

-- AnnotFunction: the functions with an attribute `annotation`.
pub record AnnotFunction : Type 0 where
  pub annotation : String
  pub functions : BaseFunction

-- The loop over the attributes of a function.
unfoldable pub insert_if_annotated : String → ℕ → List String → BaseFunction → BaseFunction
unfolding add
insert_if_annotated annotation fd [] functions = functions
insert_if_annotated annotation fd (aa ∷ aas) functions =
    insert_if_annotated annotation fd aas
      (if str_eq aa annotation then add fd functions else functions)

-- AnnotFunction::insertFunction
unfoldable pub insert_annotated : Ast → ℕ → AnnotFunction → AnnotFunction
unfolding insert_if_annotated
insert_annotated ast fd a = record a {
  functions = insert_if_annotated a.annotation fd (ast.annotations fd) a.functions;
}

-- AnnotFunction::insertFunctionDirect
unfoldable pub insert_function_direct : ℕ → AnnotFunction → AnnotFunction
unfolding add
insert_function_direct fd a = record a { functions = add fd a.functions }

-- AnnotFunction::erase
unfoldable pub erase_function : ℕ → AnnotFunction → AnnotFunction
unfolding remove
erase_function fd a = record a { functions = remove fd a.functions }

-- Whether one of the attributes is the annotation: the test of `insertFunction`, on its own.
unfoldable pub has_annotation : String → List String → Bool
has_annotation annotation [] = false
has_annotation annotation (aa ∷ aas) = str_eq aa annotation || has_annotation annotation aas

pub in_functions-insert_if_annotated :
    (annotation : String) (g fd : ℕ) (aas : List String) (functions : BaseFunction)
    → in_functions (insert_if_annotated annotation fd aas functions) g
      ≡ (in_functions functions g || (has_annotation annotation aas && fd == g))
unfolding insert_if_annotated in_functions has_annotation
in_functions-insert_if_annotated annotation g fd [] functions = ground arith
in_functions-insert_if_annotated annotation g fd (aa ∷ aas) functions = ground (
  arith,
  in_functions-insert_if_annotated annotation g fd aas
      (if str_eq aa annotation then add fd functions else functions),
  member-add g fd functions,
)
