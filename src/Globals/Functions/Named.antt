-- ===== src/Globals/Functions/Named.antt =====
-- NamedFunctions.h: the functions of one of eight names. A subclass is a constructor, and the
-- virtual `checkName` is one function by clauses.
use Prim.Native.String.{String}
use text.Mathlib.Text.{◌==◌ as str_eq}
use nvmordering.Base.{
  ℕ, Bool, false, ◌||◌, ◌&&◌, Option, none, some, if◌then◌else◌, add, member-add, ◌==◌, ◌≡◌, arith,
}
use nvmordering.Clang.{Ast}
use nvmordering.Globals.Functions.{BaseFunction, in_functions}

pub data NamedFunction : Type 0 where
  flush_function nti_function pfence_function vfence_function flush_fence_function : NamedFunction
  log_function tx_beg_function tx_end_function : NamedFunction

-- The names of each class, `II->isStr(...)`.
unfoldable pub is_str : NamedFunction → String → Bool
is_str flush_function ii = str_eq ii "clflushopt" || str_eq ii "clwb"
is_str nti_function ii = str_eq ii "nti"
is_str pfence_function ii = str_eq ii "pfence"
is_str vfence_function ii = str_eq ii "vfence"
is_str flush_fence_function ii =
    str_eq ii "flush_range" || (str_eq ii "clflush" || str_eq ii "__pmem_persist")
is_str log_function ii = str_eq ii "log" || str_eq ii "log_range"
is_str tx_beg_function ii = str_eq ii "tx_begin"
is_str tx_end_function ii = str_eq ii "tx_end"

unfoldable pub check_name : NamedFunction → Option String → Bool
unfolding is_str
check_name c none = false
check_name c (some ii) = is_str c ii

-- NamedFunction::insertFunction
unfoldable pub insert_named : Ast → NamedFunction → ℕ → BaseFunction → BaseFunction
unfolding check_name add
insert_named ast c fd functions =
    if check_name c (ast.identifier fd) then add fd functions else functions

pub in_functions-insert_named :
    (ast : Ast) (c : NamedFunction) (g fd : ℕ) (functions : BaseFunction)
    → in_functions (insert_named ast c fd functions) g
      ≡ (in_functions functions g || (check_name c (ast.identifier fd) && fd == g))
unfolding insert_named in_functions
in_functions-insert_named ast c g fd functions = ground (arith, member-add g fd functions)
