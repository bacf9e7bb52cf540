-- ===== src/CType/Equal.antt =====
-- `type_equal` and `type_clone` of Semantic/type.c: a type against itself and against its clone.
use compilador.Prelude.{
  ℕ, ◌≡◌, refl, ◌∙◌, ap, Bool, true, ◌&&◌, List, Option, none, some, arith, ◌==◌, ==_iff,
  bytes_eq_iff,
}
use compilador.CType.{
  CType, Params, invalid, builtin, pointer, array, fn, tagged, end, param, builtin_code, tag_code,
  param_count, same_tag, same_aggregate, type_equal, params_equal, type_clone, params_clone,
  type_is_integral,
}

same_tag_refl : (a : Option (List ℕ)) → same_tag a a ≡ true
same_tag_refl none = refl
same_tag_refl (some a) = (bytes_eq_iff a a).1 refl

same_aggregate_refl : (a : Option (List ℕ)) (d : Option ℕ) → same_aggregate a d a d ≡ true
same_aggregate_refl a none = same_tag_refl a
same_aggregate_refl a (some d) = (==_iff d d).1 refl

==_refl : (a : ℕ) → (a == a) ≡ true
==_refl a = ground arith

mutual
  unfolding type_equal

  equal_self : (t : CType) → type_equal t t ≡ true
  equal_self (invalid q) = ==_refl q
  equal_self (builtin k q) = rw (==_refl q, ==_refl (builtin_code k)) refl
  equal_self (pointer a q) = rw (==_refl q, equal_self a) refl
  equal_self (array a n k q) = rw (==_refl q, ==_refl n, ==_refl k, equal_self a) refl
  equal_self (fn a ps v q) =
      rw (==_refl q, ==_refl (param_count ps), ==_refl v, equal_self a, equal_params_self ps) refl
  equal_self (tagged k a d q) = rw (==_refl q, ==_refl (tag_code k), same_aggregate_refl a d) refl

  equal_params_self : (ps : Params) → params_equal ps ps ≡ true
  equal_params_self end = refl
  equal_params_self (param a ps) = rw (equal_self a, equal_params_self ps) refl

-- Every type is equal to itself, so that the test of the addresses only saves work.
pub type_equal_refl : (t : CType) → type_equal t t ≡ true
type_equal_refl t = equal_self t

unfoldable mutual
  -- No invalid type inside has qualifiers; `type_new_invalid` gives none.
  pub plain : CType → Bool
  plain (invalid q) = q == 0
  plain (builtin k q) = true
  plain (pointer a q) = plain a
  plain (array a n k q) = plain a
  plain (fn a ps v q) = plain a && plain_params ps
  plain (tagged k a d q) = true

  pub plain_params : Params → Bool
  plain_params end = true
  plain_params (param a ps) = plain a && plain_params ps

and_left : (a b : Bool) → (a && b) ≡ true → a ≡ true
and_left a b h = ground arith

and_right : (a b : Bool) → (a && b) ≡ true → b ≡ true
and_right a b h = ground arith

mutual
  unfolding type_clone plain

  clone_same : (t : CType) → plain t ≡ true → type_clone t ≡ t
  clone_same (invalid q) h = ap invalid (ground arith)
  clone_same (builtin k q) h = refl
  clone_same (pointer a q) h = ap (λ s. pointer s q) (clone_same a h)
  clone_same (array a n k q) h = ap (λ s. array s n k q) (clone_same a h)
  clone_same (fn a ps v q) h =
      ap (λ s. fn s (params_clone ps) v q) (clone_same a (and_left _ _ h))
      ∙ ap (λ s. fn a s v q) (clone_params_same ps (and_right _ _ h))
  clone_same (tagged k a d q) h = refl

  clone_params_same : (ps : Params) → plain_params ps ≡ true → params_clone ps ≡ ps
  clone_params_same end h = refl
  clone_params_same (param a ps) h =
      ap (λ s. param s (params_clone ps)) (clone_same a (and_left _ _ h))
      ∙ ap (param a) (clone_params_same ps (and_right _ _ h))

-- A clone is equal to what it copies, in both orders of the comparison, and is integral where that
-- is, provided that no invalid type inside has qualifiers.
pub type_clone_lem :
    (t : CType)
    → plain t ≡ true
    → (type_equal (type_clone t) t ≡ true)
      × (type_equal t (type_clone t) ≡ true)
      × (type_is_integral (type_clone t) ≡ type_is_integral t)
type_clone_lem t h = rw (clone_same t h) (type_equal_refl t, type_equal_refl t, refl)
