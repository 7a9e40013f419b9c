-- ===== src/Globals/Functions/Direct/Skip.antt =====
-- Which functions DirectFunctions.h analyses.
use nvmordering.Base.{
  ℕ, ◌&&◌, not, ==_iff, ◌≡◌, refl, [], ◌∷◌, PtrSet, member, member-remove, arith,
}
use nvmordering.Globals.Functions.{AnnotFunction, in_functions, erase_function}
use nvmordering.Globals.Functions.Direct.{
  DirectFunctions, erase_all, is_analyzed_function, is_skip_function, remove_skip_from_analyze,
}

erase_all-member :
    (fds : PtrSet) (a : AnnotFunction) (f : ℕ)
    → member f (erase_all fds a).functions ≡ (member f a.functions && not (member f fds))
unfolding erase_all erase_function member
erase_all-member [] a f = ground arith
erase_all-member (fd ∷ fds) a f = ground (
  arith,
  erase_all-member fds (erase_function fd a) f,
  member-remove f fd a.functions,
  ==_iff fd f,
)

-- `removeSkipFromAnalyze` takes exactly the functions with the annotation for skipping from those to
-- analyse, and changes the answer of `isSkipFunction` for none.
pub remove_skip_from_analyze_lem :
    (d : DirectFunctions) (f : ℕ)
    → (is_analyzed_function (remove_skip_from_analyze d) f
        ≡ (is_analyzed_function d f && not (in_functions d.skip_fnc.functions f)))
      × (is_skip_function (remove_skip_from_analyze d) f ≡ is_skip_function d f)
unfolding remove_skip_from_analyze is_analyzed_function is_skip_function in_functions
remove_skip_from_analyze_lem d f = (erase_all-member d.skip_fnc.functions d.analyzed_fnc f, refl)
