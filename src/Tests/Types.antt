-- ===== src/Tests/Types.antt =====
-- Examples of the types.
use compilador.Prelude.{ℕ, ◌≡◌, refl, true, false, [], ◌∷◌, Option, none, some}
use compilador.CType.{
  CType, Builtin, TagKind, builtin, pointer, fn, tagged, end, param, type_equal, type_clone,
  type_is_integral,
}
use compilador.CType.Equal.{plain, type_clone_lem}

abbrev int_type : CType
int_type = builtin Builtin.int 0

-- `struct s` with the declaration at `d`.
abbrev struct_s : Option ℕ → CType
struct_s d = tagged TagKind.struct_tag (some (115 ∷ [])) d 0

-- `int (struct s *, int)`
abbrev fn_type : CType
fn_type = fn int_type (param (pointer (struct_s (some 4)) 0) (param int_type end)) 0 0

type_clone_lem_example :
    (type_equal (type_clone fn_type) fn_type ≡ true)
    × (type_equal fn_type (type_clone fn_type) ≡ true)
    × (type_is_integral (type_clone fn_type) ≡ type_is_integral fn_type)
type_clone_lem_example = type_clone_lem fn_type (unfold plain in refl)

-- Equality is not transitive: a type without a declaration is equal to both others.
not_transitive :
    (type_equal (struct_s (some 4)) (struct_s none) ≡ true)
    × (type_equal (struct_s none) (struct_s (some 5)) ≡ true)
    × (type_equal (struct_s (some 4)) (struct_s (some 5)) ≡ false)
unfolding type_equal
not_transitive = (refl, refl, refl)
