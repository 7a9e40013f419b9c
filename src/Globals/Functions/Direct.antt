-- ===== src/Globals/Functions/Direct.antt =====
-- DirectFunctions.h: the functions that the pair checker and the flush checker know.
pub mod Skip
mod Tests
use nvmordering.Base.{ℕ, Bool, ◌||◌, [], ◌∷◌, PtrSet}
use nvmordering.Clang.{Ast}
use nvmordering.Globals.Functions.{
  AnnotFunction, BaseFunction, in_functions, insert_annotated, insert_function_direct,
  erase_function,
}
use nvmordering.Globals.Functions.Named.{
  insert_named, pfence_function, vfence_function, flush_function, flush_fence_function,
}

pub record DirectFunctions : Type 0 where
  pub analyzed_fnc : AnnotFunction
  pub skip_fnc : AnnotFunction
  pub pfence_fnc : BaseFunction
  pub vfence_fnc : BaseFunction
  pub flush_fnc : BaseFunction
  pub flush_fence_fnc : BaseFunction

-- The constructor: NVM_FNC and SKIP_FNC.
unfoldable pub new_direct_functions : DirectFunctions
new_direct_functions = record {
  analyzed_fnc = record { annotation = "NvmCode"; functions = [] };
  skip_fnc = record { annotation = "SkipCode"; functions = [] };
  pfence_fnc = [];
  vfence_fnc = [];
  flush_fnc = [];
  flush_fence_fnc = [];
}

unfoldable pub is_flush_fence_function : DirectFunctions → ℕ → Bool
unfolding in_functions
is_flush_fence_function d fd = in_functions d.flush_fence_fnc fd

unfoldable pub is_flush_opt_function : DirectFunctions → ℕ → Bool
unfolding in_functions
is_flush_opt_function d fd = in_functions d.flush_fnc fd

unfoldable pub is_vfence_function : DirectFunctions → ℕ → Bool
unfolding in_functions
is_vfence_function d fd = in_functions d.vfence_fnc fd

unfoldable pub is_pfence_function : DirectFunctions → ℕ → Bool
unfolding in_functions
is_pfence_function d fd = in_functions d.pfence_fnc fd

unfoldable pub is_analyzed_function : DirectFunctions → ℕ → Bool
unfolding in_functions
is_analyzed_function d fd = in_functions d.analyzed_fnc.functions fd

unfoldable pub is_skip_function : DirectFunctions → ℕ → Bool
unfolding is_flush_fence_function is_flush_opt_function is_vfence_function is_pfence_function
is_skip_function d fd =
    is_flush_fence_function d fd
    || (is_flush_opt_function d fd
        || (is_vfence_function d fd
            || (is_pfence_function d fd || in_functions d.skip_fnc.functions fd)))

unfoldable pub insert_analyze_function : ℕ → DirectFunctions → DirectFunctions
unfolding insert_function_direct
insert_analyze_function fd d = record d { analyzed_fnc = insert_function_direct fd d.analyzed_fnc }

unfoldable pub insert_function : Ast → ℕ → DirectFunctions → DirectFunctions
unfolding insert_annotated insert_named
insert_function ast fd d = record {
  analyzed_fnc = insert_annotated ast fd d.analyzed_fnc;
  skip_fnc = insert_annotated ast fd d.skip_fnc;
  pfence_fnc = insert_named ast pfence_function fd d.pfence_fnc;
  vfence_fnc = insert_named ast vfence_function fd d.vfence_fnc;
  flush_fnc = insert_named ast flush_function fd d.flush_fnc;
  flush_fence_fnc = insert_named ast flush_fence_function fd d.flush_fence_fnc;
}

-- The loop of `removeSkipFromAnalyze`.
unfoldable pub erase_all : PtrSet → AnnotFunction → AnnotFunction
unfolding erase_function
erase_all [] a = a
erase_all (fd ∷ fds) a = erase_all fds (erase_function fd a)

unfoldable pub remove_skip_from_analyze : DirectFunctions → DirectFunctions
unfolding erase_all
remove_skip_from_analyze d = record d {
  analyzed_fnc = erase_all d.skip_fnc.functions d.analyzed_fnc;
}
