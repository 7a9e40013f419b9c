-- ===== src/Pair/Tests/Units.antt =====
-- The walk of a unit of the pair checker: of the sample, and of a function that calls itself.
use nvmordering.Base.{
  ℕ, false, ◌==◌, if◌then◌else◌, ◌≡◌, refl, err, out_of_fuel, [], ◌∷◌, arith, member,
}
use nvmordering.Clang.{Ast, call_expr, other_stmt}
use nvmordering.Globals.Functions.{in_functions}
use nvmordering.Globals.Functions.Direct.{
  is_skip_function, is_flush_fence_function, is_flush_opt_function, is_pfence_function,
  is_vfence_function, new_direct_functions,
}
use nvmordering.Globals.Track.Laws.{IsRanked, Walks}
use nvmordering.Pair.Sample.{sample}
use nvmordering.Pair.GlobalParser.{no_globals, track_unit}
use nvmordering.Pair.GlobalParser.Units.{track_unit-Walks, track_unit-recursive}

abbrev rank : ℕ → ℕ
rank s =
    if s == 20
    then 4
    else (if s == 22
        then 3
        else (if s == 32
            then 2
            else (if s == 33 then 1 else (if s == 21 then 1 else (if s == 24 then 1 else 0)))))

sample-IsRanked : IsRanked sample rank
sample-IsRanked = record {
  children_below = λ s. ground arith;
  callee_known = λ s call. ground arith;
  body_below = λ s call has. ground arith;
}

track_unit-Walks_example : Walks 10 (track_unit sample 6 10 no_globals)
track_unit-Walks_example =
    track_unit-Walks sample rank sample-IsRanked 6 10 no_globals refl (omega arith)

-- The function 10 has a body, 20, that is a call of the function, 21.
abbrev self_call : Ast
self_call = record sample {
  kind = λ s. if s == 21 then call_expr else other_stmt;
  children = λ s. if s == 20 then 21 ∷ [] else [];
  direct_callee = λ s. 10;
}

self_call_kept : is_skip_function no_globals.functions 10 ≡ false
unfolding is_skip_function is_flush_fence_function is_flush_opt_function is_pfence_function
    is_vfence_function in_functions member new_direct_functions
self_call_kept = refl

track_unit-recursive_example : track_unit self_call 1000 10 no_globals ≡ err out_of_fuel
track_unit-recursive_example =
    track_unit-recursive self_call 10 21 [] no_globals refl refl self_call_kept refl refl refl refl
      refl refl 1000
