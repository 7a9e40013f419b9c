-- ===== src/Symbolic/Tests.antt =====
-- include/util/Helper.h on the sample memory: the base of an element, the field behind a pointer that
-- was read from it, and the function around a statement.
use nvmordering.Base.{ℕ, ◌≡◌, ◌≢◌, refl, ok, err, arith, if◌then◌else◌, ◌==◌, fatal_error, ◌<◌}
use nvmordering.Symbolic.Sample.{sample_memory, sample_decls}
use nvmordering.Symbolic.Decls.{
  StmtOrDecl, stmt, decl, neither, get_func_decl_around, get_parent_stmt_or_decl, get_top_function,
}
use nvmordering.Symbolic.Regions.{get_top_base_mem_reg_unsafe, get_mem_field_decl_at}
use nvmordering.Symbolic.Lookups.{IsFunctionOrFatal, get_func_decl_around-IsFunctionOrFatal}

top_base_found : get_top_base_mem_reg_unsafe sample_memory 2 5 ≡ ok 3
unfolding get_top_base_mem_reg_unsafe
top_base_found = refl

field_found : get_mem_field_decl_at sample_memory sample_decls 3 7 ≡ ok 41
unfolding get_mem_field_decl_at
field_found = refl

abbrev node_depth : StmtOrDecl → ℕ
node_depth (stmt s) = if s == 60 then 2 else 1
node_depth (decl d) = 0
node_depth neither = 0

node_depth_smaller :
    (s p : StmtOrDecl)
    → s ≢ neither
    → get_parent_stmt_or_decl sample_decls s ≡ ok p
    → node_depth p < node_depth s
unfolding get_parent_stmt_or_decl
node_depth_smaller (stmt s) p h e = ground arith
node_depth_smaller (decl d) p h e = ground arith
node_depth_smaller neither p h e = absurd (h refl)

get_func_decl_around-IsFunctionOrFatal_example :
    IsFunctionOrFatal sample_decls (get_func_decl_around sample_decls 3 (stmt 60))
get_func_decl_around-IsFunctionOrFatal_example =
    get_func_decl_around-IsFunctionOrFatal sample_decls node_depth node_depth_smaller 3 (stmt 60)
      (omega arith)

function_found : get_func_decl_around sample_decls 3 (stmt 60) ≡ ok 50
unfolding get_func_decl_around
function_found = refl

-- Outside of every function the search stops.
no_function_found : get_func_decl_around sample_decls 3 (stmt 62) ≡ err fatal_error
unfolding get_func_decl_around
no_function_found = refl

top_function_found : get_top_function sample_decls 2 70 ≡ ok 50
unfolding get_top_function
top_function_found = refl
