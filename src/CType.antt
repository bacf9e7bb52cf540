-- ===== src/CType.antt =====
-- The types of Semantic/type.c. A component type is never NULL; a tag and the address of a
-- declaration may be. The arena gives memory whenever it is asked. Where the code first compares the
-- addresses of two types, the fields of a type at one address are the same.
pub mod Equal
use compilador.Prelude.{
  ℕ, suc, Bool, true, false, ◌&&◌, ◌||◌, List, [], ◌∷◌, Option, none, some, ◌==◌, bytes_eq,
}

-- `builtin_type_t`
pub data Builtin : Type 0 where
  char short int long float double long_double string void : Builtin

pub data TagKind : Type 0 where
  struct_tag union_tag enum_tag : TagKind

-- Every type ends with its qualifiers. An array has its size and `is_known_size`, a function
-- `is_variadic`, and a tagged type its tag and the address of its declaration.
mutual
  pub data CType : Type 0 where
    invalid : ℕ → CType
    builtin : Builtin → ℕ → CType
    pointer : CType → ℕ → CType
    array : CType → ℕ → ℕ → ℕ → CType
    fn : CType → Params → ℕ → ℕ → CType
    tagged : TagKind → Option (List ℕ) → Option ℕ → ℕ → CType

  pub data Params : Type 0 where
    end : Params
    param : CType → Params → Params

abbrev pub builtin_code : Builtin → ℕ
builtin_code char = 0
builtin_code short = 1
builtin_code int = 2
builtin_code long = 3
builtin_code float = 4
builtin_code double = 5
builtin_code long_double = 6
builtin_code string = 7
builtin_code void = 8

-- The kind of a tagged type, as its number in `type_kind_t`.
abbrev pub tag_code : TagKind → ℕ
tag_code struct_tag = 5
tag_code union_tag = 6
tag_code enum_tag = 7

abbrev pub param_count : Params → ℕ
param_count end = 0
param_count (param t ps) = suc (param_count ps)

-- NULL is equal to NULL only; otherwise `strcmp(a, b) == 0`.
abbrev pub same_tag : Option (List ℕ) → Option (List ℕ) → Bool
same_tag none none = true
same_tag none (some b) = false
same_tag (some a) none = false
same_tag (some a) (some b) = bytes_eq a b

-- The declarations decide where both are known, else the tags.
abbrev pub same_aggregate : Option (List ℕ) → Option ℕ → Option (List ℕ) → Option ℕ → Bool
same_aggregate a (some d) b (some e) = d == e
same_aggregate a (some d) b none = same_tag a b
same_aggregate a none b e = same_tag a b

unfoldable mutual
  pub type_equal : CType → CType → Bool
  type_equal (invalid q) (invalid r) = q == r
  type_equal (builtin k q) (builtin l r) = q == r && builtin_code k == builtin_code l
  type_equal (pointer a q) (pointer b r) = q == r && type_equal a b
  type_equal (array a n k q) (array b m l r) = q == r && (n == m && (k == l && type_equal a b))
  type_equal (fn a ps v q) (fn b qs w r) =
      q == r
      && ((param_count ps == param_count qs && (v == w && type_equal a b)) && params_equal ps qs)
  type_equal (tagged k a d q) (tagged l b e r) =
      (tag_code k == tag_code l && q == r) && same_aggregate a d b e
  type_equal _ _ = false

  -- The loop over the parameters of the first type.
  pub params_equal : Params → Params → Bool
  params_equal end qs = true
  params_equal (param a ps) end = false
  params_equal (param a ps) (param b qs) = type_equal a b && params_equal ps qs

abbrev pub type_new_invalid : CType
type_new_invalid = invalid 0

-- A tagged type is made with its tag, and then given its declaration.
unfoldable mutual
  pub type_clone : CType → CType
  type_clone (invalid q) = type_new_invalid
  type_clone (builtin k q) = builtin k q
  type_clone (pointer a q) = pointer (type_clone a) q
  type_clone (array a n k q) = array (type_clone a) n k q
  type_clone (fn a ps v q) = fn (type_clone a) (params_clone ps) v q
  type_clone (tagged k a d q) = tagged k a d q

  pub params_clone : Params → Params
  params_clone end = end
  params_clone (param a ps) = param (type_clone a) (params_clone ps)

-- An enumeration, or one of the four integer types.
unfoldable pub type_is_integral : CType → Bool
type_is_integral (tagged enum_tag a d q) = true
type_is_integral (builtin char q) = true
type_is_integral (builtin short q) = true
type_is_integral (builtin int q) = true
type_is_integral (builtin long q) = true
type_is_integral _ = false
