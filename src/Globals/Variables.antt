-- ===== src/Globals/Variables.antt =====
-- include/global_util/AnnotVariable.h: the declarations with an annotation that contains a word.
use Prim.Native.String.{String}
use nvmordering.Base.{ℕ, Bool, List, [], ◌∷◌, if◌then◌else◌, PtrSet, add, member}
use nvmordering.Clang.{Ast}

pub record AnnotVariable : Type 0 where
  pub variable_set : PtrSet
  pub special_annot : String

-- The loop over the attributes of a declaration: `annotation.contains(specialAnnot)`.
unfoldable pub insert_annotation : Ast → String → ℕ → List String → PtrSet → PtrSet
insert_annotation ast word nd [] vs = vs
insert_annotation ast word nd (aa ∷ aas) vs =
    insert_annotation ast word nd aas (if ast.contains aa word then add nd vs else vs)

-- AnnotVariable::insertVariable
unfoldable pub insert_annot_variable : Ast → ℕ → AnnotVariable → AnnotVariable
unfolding insert_annotation
insert_annot_variable ast nd a = record a {
  variable_set = insert_annotation ast a.special_annot nd (ast.annotations nd) a.variable_set;
}

-- AnnotVariable::isUsedVar, and `count`
unfoldable pub is_annot_variable : AnnotVariable → ℕ → Bool
unfolding member
is_annot_variable a nd = member nd a.variable_set
