-- ===== src/Globals/Functions/Direct/Tests.antt =====
-- The functions to analyse, with one among them that is to be skipped.
use nvmordering.Base.{[], ◌∷◌}
use nvmordering.Globals.Functions.Direct.{DirectFunctions}

abbrev one_skipped : DirectFunctions
one_skipped = record {
  analyzed_fnc = record { annotation = "NvmCode"; functions = 1 ∷ 2 ∷ [] };
  skip_fnc = record { annotation = "SkipCode"; functions = 2 ∷ [] };
  pfence_fnc = [];
  vfence_fnc = [];
  flush_fnc = [];
  flush_fence_fnc = [];
}
