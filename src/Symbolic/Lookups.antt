-- ===== src/Symbolic/Lookups.antt =====
-- That the recursive lookups of include/util/Helper.h end, and what they find.
use nvmordering.Base.{
  ℕ, zero, suc, ◌<◌, Bool, true, ◌==◌, Result, Fault, err, ok, fatal_error, ◌≡◌, ◌≢◌, refl, arith,
  Bool-cases, inl, inr, ◌⊎◌,
}
use nvmordering.Symbolic.Memory.{Memory, is_symbolic_region, is_field_region}
use nvmordering.Symbolic.Decls.{
  Decls, StmtOrDecl, stmt, decl, neither, cast_or_null, get_parent_stmt_or_decl, func_decl_at,
  get_func_decl_around, first_parent,
}
use nvmordering.Symbolic.Regions.{
  get_top_base_mem_region, get_top_base_mem_reg_unsafe, get_top_base_region, get_mem_field_decl,
}

-- A base region is its own base region, as clang documents it.
abbrev pub IsBaseIdempotent : Memory → Type 0
IsBaseIdempotent mem =
    (r : ℕ)
    → r ≢ 0
    → (mem.base_region r ≢ 0) × (mem.base_region (mem.base_region r) ≡ mem.base_region r)

module _ (mem : Memory) (idempotent : IsBaseIdempotent mem) where
  -- The recursive search for the top base of a value's region ends after at most two rounds and
  -- finds what one step up finds, for any fuel from two on.
  pub get_top_base_mem_reg_unsafe-get_top_base_region :
      (fuel loc : ℕ)
      → get_top_base_mem_reg_unsafe mem (suc (suc fuel)) loc ≡ ok (get_top_base_region mem loc)
  unfolding get_top_base_mem_reg_unsafe get_top_base_mem_region get_top_base_region
  get_top_base_mem_reg_unsafe-get_top_base_region fuel loc =
      ground (arith, idempotent (mem.as_region loc))

-- A null pointer or a field.
abbrev pub IsFieldOrNull : Decls → ℕ → Type 0
IsFieldOrNull decls d = (d ≡ 0) ⊎ (decls.is_field_decl d ≡ true)

pub cast_or_null_lem :
    (is_class : ℕ → Bool) (d : ℕ)
    → (cast_or_null is_class d ≡ 0) ⊎ (is_class (cast_or_null is_class d) ≡ true)
unfolding cast_or_null
cast_or_null_lem is_class d = elim (Bool-cases (d == 0)) [
  | inl e ↦ inl (rw e refl)
  | inr e ↦ rw e (elim (Bool-cases (is_class d)) [ inl f ↦ inr (rw f f) | inr f ↦ inl (rw f refl) ])
]

module _ (mem : Memory) (decls : Decls) (rank : ℕ → ℕ)
    (smaller : (r : ℕ)
      → r ≢ 0
      → is_symbolic_region mem r ≡ true
      → rank (mem.origin_region (mem.region_symbol r)) < rank r) where
  -- The chain of regions behind getMemFieldDecl ends where an origin has a smaller rank: with fuel
  -- above the rank of the region the call returns, a field or the null pointer.
  pub get_mem_field_decl_total :
      (fuel r : ℕ)
      → rank r < fuel
      → (d : ℕ) × (get_mem_field_decl mem decls fuel r ≡ ok d) × IsFieldOrNull decls d
  unfolding get_mem_field_decl
  get_mem_field_decl_total zero r h = elim h [ ]
  get_mem_field_decl_total (suc fuel) r h = elim (Bool-cases (r == 0)) [
    | inl null ↦ (0, rw null refl, inl refl)
    | inr valid ↦ rw valid (elim (Bool-cases (is_field_region mem r)) [
      | inl f ↦ (
        cast_or_null decls.is_field_decl (mem.region_decl r),
        rw f refl,
        cast_or_null_lem decls.is_field_decl (mem.region_decl r),
      )
      | inr f ↦ rw f (elim (Bool-cases (is_symbolic_region mem r)) [
        | inl y ↦ rw y (
            get_mem_field_decl_total fuel (mem.origin_region (mem.region_symbol r))
              (ground (arith, smaller r)))
        | inr n ↦ (0, rw n refl, inl refl)
      ])
    ])
  ]

stmt_ne_neither : (s : ℕ) → stmt s ≢ neither
stmt_ne_neither s e = cc

decl_ne_neither : (d : ℕ) → decl d ≢ neither
decl_ne_neither d e = cc

Result-cases {ℓ} :
    {A : Type ℓ} (r : Result A) → ((a : A) × (r ≡ ok a)) ⊎ ((e : Fault) × (r ≡ err e))
Result-cases (ok a) = inl (a, refl)
Result-cases (err e) = inr (e, refl)

-- Where `s` has a parent that is a node, `s` is a node.
get_parent_stmt_or_decl-ne_neither :
    (decls : Decls) (s p : StmtOrDecl)
    → p ≢ neither
    → get_parent_stmt_or_decl decls s ≡ ok p
    → s ≢ neither
unfolding get_parent_stmt_or_decl
get_parent_stmt_or_decl-ne_neither decls s p valid e null = valid (ground arith)

first_parent-IsFatal :
    (decls : Decls) (s : StmtOrDecl) (e : Fault)
    → get_parent_stmt_or_decl decls s ≡ err e
    → e ≡ fatal_error
unfolding get_parent_stmt_or_decl first_parent
first_parent-IsFatal decls (stmt s) e h = ground arith
first_parent-IsFatal decls (decl d) e h = ground arith
first_parent-IsFatal decls neither e h = cc

-- What getFuncDecl may end with: a function, or the fatal error for a node outside of all.
abbrev pub IsFunctionOrFatal : Decls → Result ℕ → Type 0
IsFunctionOrFatal decls (ok f) = (f ≢ 0) × (decls.is_function_decl f ≡ true)
IsFunctionOrFatal decls (err e) = e ≡ fatal_error

func_decl_at-IsFunctionOrFatal :
    (decls : Decls) (recur : StmtOrDecl → Result ℕ) (p : StmtOrDecl)
    → (p ≢ neither → IsFunctionOrFatal decls (recur p))
    → IsFunctionOrFatal decls (func_decl_at decls recur p)
unfolding func_decl_at cast_or_null
func_decl_at-IsFunctionOrFatal decls recur (stmt s) h = h (λ e. stmt_ne_neither s e)
func_decl_at-IsFunctionOrFatal decls recur (decl d) h = elim (Bool-cases (d == 0)) [
  | inl e ↦ rw e (h (λ e. decl_ne_neither d e))
  | inr e ↦ rw e (elim (Bool-cases (decls.is_function_decl d)) [
    | inl f ↦ rw (f, e) (ground arith)
    | inr f ↦ rw f (h (λ e. decl_ne_neither d e))
  ])
]
func_decl_at-IsFunctionOrFatal decls recur neither h = refl

module _ (decls : Decls) (depth : StmtOrDecl → ℕ)
    (climbs : (s p : StmtOrDecl)
      → s ≢ neither
      → get_parent_stmt_or_decl decls s ≡ ok p
      → depth p < depth s) where
  -- Climbing from a statement or a declaration ends where a parent has a smaller depth: with fuel
  -- above the depth, getFuncDecl returns a function or stops with its fatal error.
  pub get_func_decl_around-IsFunctionOrFatal :
      (fuel : ℕ) (s : StmtOrDecl)
      → depth s < fuel
      → IsFunctionOrFatal decls (get_func_decl_around decls fuel s)
  unfolding get_func_decl_around
  get_func_decl_around-IsFunctionOrFatal zero s h = elim h [ ]
  get_func_decl_around-IsFunctionOrFatal (suc fuel) s h =
      elim (Result-cases (get_parent_stmt_or_decl decls s)) [
        | inl (p, e) ↦ rw e (
            func_decl_at-IsFunctionOrFatal decls (get_func_decl_around decls fuel) p (λ valid.
              get_func_decl_around-IsFunctionOrFatal fuel p (
                omega
                  (arith, climbs s p (get_parent_stmt_or_decl-ne_neither decls s p valid e) e))))
        | inr (e, h) ↦ rw h (first_parent-IsFatal decls s e h)
      ]
