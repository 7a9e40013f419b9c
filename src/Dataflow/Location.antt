-- ===== src/Dataflow/Location.antt =====
-- include/dataflow_util/ProgramLocation.h: the keys of the results, and what an analysis in forward
-- direction reads of a control flow graph. A location is compared by its pointer alone.
use nvmordering.Base.{
  ℕ, Bool, ◌&&◌, ◌||◌, not, ◌==◌, ltb, if◌then◌else◌, Result, ok, err, assert_failed, fatal_error,
  null_deref, guard, ◌>>=◌, ◌>>◌, Option, none, some, List, [], ◌∷◌,
}
use nvmordering.Clang.{Cfg}

pub data PtrType : Type 0 where
  function_ptr cfg_block_ptr stmt_ptr none_ptr : PtrType

pub record ProgramLocation : Type 0 where
  pub ptr : ℕ
  pub ptr_type : PtrType

-- The constructors from a pointer, with the assertion of PtrPl.
unfoldable pub new_location : PtrType → ℕ → Result ProgramLocation
new_location type pl = do
  guard (not (pl == 0)) assert_failed
  ok (record { ptr = pl; ptr_type = type })

-- `operator<` and `operator==`
unfoldable pub lt_location : ProgramLocation → ProgramLocation → Bool
lt_location l x = ltb l.ptr x.ptr

unfoldable pub eq_location : ProgramLocation → ProgramLocation → Bool
eq_location l x = l.ptr == x.ptr

-- The last two calls that lead to a function.
pub record PlContext : Type 0 where
  pub caller : ℕ
  pub callee : ℕ

abbrev pub top_context : PlContext
top_context = record { caller = 0; callee = 0 }

-- PlContext(X, Callee)
unfoldable pub call_context : PlContext → ℕ → PlContext
call_context x ce = record { caller = x.callee; callee = ce }

unfoldable pub lt_context : PlContext → PlContext → Bool
lt_context c x = ltb c.caller x.caller || ltb c.callee x.callee

unfoldable pub eq_context : PlContext → PlContext → Bool
eq_context c x = c.caller == x.caller && c.callee == x.callee

module _ (cfg : Cfg) where
  unfoldable pub get_entry_block : ℕ → Result ProgramLocation
  unfolding new_location
  get_entry_block function = new_location cfg_block_ptr (cfg.entry function)

  unfoldable pub get_function_entry_key : ℕ → Result ProgramLocation
  unfolding new_location
  get_function_entry_key function = new_location function_ptr function

  unfoldable pub get_function_exit_key : ℕ → Result ProgramLocation
  unfolding new_location
  get_function_exit_key function = new_location cfg_block_ptr (cfg.exit function)

  unfoldable pub get_stmt_key : ℕ → Result ProgramLocation
  unfolding new_location
  get_stmt_key s = new_location stmt_ptr s

  unfoldable pub get_entry_key : ℕ → Result ProgramLocation
  unfolding new_location
  get_entry_key block = new_location cfg_block_ptr block

  -- reading the graph through a null block is a fault
  unfoldable pub is_entry_exit : ℕ → Result Bool
  is_entry_exit block =
      if block == 0
      then err null_deref
      else ok (cfg.graph_front block == block || cfg.graph_back block == block)

  -- `block->back()`; an empty block has no last element, and reading it is a fault
  abbrev last_element : List (Option ℕ) → Result (Option ℕ)
  last_element [] = err null_deref
  last_element (e ∷ []) = ok e
  last_element (e ∷ e' ∷ es) = last_element (e' ∷ es)

  unfoldable pub element_key : Option ℕ → Result ProgramLocation
  element_key none = err fatal_error
  element_key (some s) = new_location stmt_ptr s

  unfoldable pub get_exit_key : ℕ → Result ProgramLocation
  get_exit_key block = do
    at_end ← is_entry_exit block
    if at_end
        then new_location cfg_block_ptr block
        else (last_element (cfg.elements block) >>= element_key)
