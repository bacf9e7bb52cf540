-- ===== src/Scope/Depth.antt =====
-- Ids and depths along the stack of scopes.
use compilador.Prelude.{
  ℕ, ◌+◌, ◌^◌, ◌≤◌, ◌<◌, ◌≡◌, refl, ap, if_either, List, [], ◌∷◌, arith, length, not,
}
use compilador.Scope.{Scope, ScopeStack, depth_under, scope_push, scope_pop, drop_current, Status}

-- The depth of a scope is the number of scopes around it, and the ids fall outwards from `next`.
abbrev pub IsNested : ℕ → List Scope → Type 0
IsNested next [] = Unit
IsNested next (scope ∷ parents) =
    (scope.depth ≡ length parents) × (scope.id < next) × IsNested scope.id parents

IsNested-weaken :
    (low high : ℕ) (scopes : List Scope) → low ≤ high → IsNested low scopes → IsNested high scopes
IsNested-weaken low high [] le z = tt
IsNested-weaken low high (scope ∷ parents) le (d, i, rest) = (d, omega arith, rest)

depth_under-eq :
    (next : ℕ) (scopes : List Scope)
    → IsNested next scopes
    → length scopes < 2 ^ 64
    → depth_under scopes ≡ length scopes
unfolding depth_under
depth_under-eq next [] z small = refl
depth_under-eq next (parent ∷ scopes) (d, i, rest) small = omega (arith, d)

-- While the ids and the depths fit `size_t`, a new scope gets the next id and the number of scopes
-- around it as its depth, so that ids and depths stay in order.
pub scope_push-IsNested :
    (stack : ScopeStack)
    → IsNested stack.next_scope_id stack.current
    → stack.next_scope_id + 1 < 2 ^ 64
    → length stack.current < 2 ^ 64
    → IsNested (scope_push stack).0.next_scope_id (scope_push stack).0.current
unfolding scope_push
scope_push-IsNested stack z room deep =
    if_either (λ (r : ScopeStack × Status). IsNested r.0.next_scope_id r.0.current)
      (not stack.has_arena) (λ _. z)
      (λ _. (depth_under-eq stack.next_scope_id stack.current z deep, omega arith, z))

drop_current-IsNested :
    (stack : ScopeStack) (scopes : List Scope)
    → IsNested stack.next_scope_id stack.current
    → IsNested stack.next_scope_id scopes
    → IsNested (drop_current stack scopes).0.next_scope_id (drop_current stack scopes).0.current
unfolding drop_current
drop_current-IsNested stack [] whole z = whole
drop_current-IsNested stack (scope ∷ parents) whole (d, i, rest) =
    IsNested-weaken scope.id stack.next_scope_id parents (omega arith) rest

-- Leaving a scope keeps ids and depths in order; on the empty stack it fails with -EINVAL and changes
-- nothing.
pub scope_pop-IsNested :
    (stack : ScopeStack)
    → IsNested stack.next_scope_id stack.current
    → IsNested (scope_pop stack).0.next_scope_id (scope_pop stack).0.current
      × (stack.current ≡ [] → scope_pop stack ≡ (stack, Status.einval))
unfolding scope_pop
scope_pop-IsNested stack z =
    (drop_current-IsNested stack stack.current z z, λ e. ap (drop_current stack) e)
