-- ===== src/PtrX/Tests.antt =====
-- The checker of persistent pointers on the sample memory: what a call returned is written, stored in
-- an annotated field, and flushed.
use nvmordering.Base.{true, false, [], ◌∷◌, member, ok, ◌>>=◌, ◌≡◌, inl, refl, arith, insert}
use nvmordering.Symbolic.Memory.{is_symbolic_region, is_symbol_derived}
use nvmordering.Symbolic.Sample.{sample_memory}
use nvmordering.PtrX.State.{
  PtrState, write_ptr_region, flush_ptr_region, strip_casts, write_partial_ptr, flush_ptr_symbol,
}
use nvmordering.PtrX.Written.{region, symbol, is_ptr_written}
use nvmordering.PtrX.Taint.{Written, Decides}
use nvmordering.PtrX.Decided.{is_ptr_written-Decides}
use nvmordering.PtrX.Laws.{flush_ptr_region-write_ptr_region}
use nvmordering.PtrX.Protocol.{IsPlain, is_ptr_written-write_flush, flush_keeps_parts}
use nvmordering.PtrX.Sample.{sample_rank, sample-IsRanked, empty_state, written_state}

is_ptr_written-Decides_example :
    Decides
      (Written sample_memory written_state (region 8))
      (is_ptr_written sample_memory 5 written_state (region 8))
is_ptr_written-Decides_example =
    is_ptr_written-Decides sample_memory written_state sample_rank sample-IsRanked 5 (region 8)
      (omega arith)

region_8_written : is_ptr_written sample_memory 5 written_state (region 8) ≡ ok true
unfolding is_ptr_written member
region_8_written = refl

IsPlain-21 : IsPlain sample_memory 21
IsPlain-21 = record { not_null = omega arith; kind = refl; alone = refl }

symbolic_8 : is_symbolic_region sample_memory 8 ≡ true
unfolding is_symbolic_region
symbolic_8 = refl

is_ptr_written-write_flush_example :
    ((write_ptr_region sample_memory 2 empty_state 8 >>= λ s'.
    is_ptr_written sample_memory 5 s' (region 8))
      ≡ ok true)
    × ((flush_ptr_region sample_memory 2 empty_state 8 >>= λ s'.
          is_ptr_written sample_memory 5 s' (region 8))
        ≡ ok false)
is_ptr_written-write_flush_example =
    is_ptr_written-write_flush sample_memory sample_rank sample-IsRanked 5 1 8 (omega arith)
      (omega arith) symbolic_8 IsPlain-21 empty_state

strip_20 : strip_casts sample_memory 2 (sample_memory.region_symbol 8) ≡ ok 21
unfolding strip_casts
strip_20 = refl

not_member_21 : member 21 empty_state.ptr_set ≡ false
unfolding member
not_member_21 = refl

flush_ptr_region-write_ptr_region_example :
    (write_ptr_region sample_memory 2 empty_state 8 >>= λ s'. flush_ptr_region sample_memory 2 s' 8)
    ≡ ok empty_state
flush_ptr_region-write_ptr_region_example =
    flush_ptr_region-write_ptr_region sample_memory 2 empty_state 8 21 strip_20 not_member_21

abbrev part_state : PtrState
part_state = record { ptr_set = []; derived_sym_ptr = (21, 4 ∷ []) ∷ [] }

partial_write : write_partial_ptr sample_memory 2 empty_state 21 4 ≡ ok part_state
unfolding write_partial_ptr member insert
partial_write = refl

whole_flush : flush_ptr_symbol sample_memory 2 part_state 21 ≡ ok part_state
unfolding flush_ptr_symbol
whole_flush = refl

derived_22 : is_symbol_derived sample_memory 22 ≡ true
unfolding is_symbol_derived
derived_22 = refl

flush_keeps_parts_example : Written sample_memory part_state (symbol 22)
flush_keeps_parts_example =
    flush_keeps_parts sample_memory 2 empty_state part_state part_state 21 22 4 not_member_21
      (omega arith) partial_write whole_flush (omega arith) (inl refl) derived_22 refl refl
