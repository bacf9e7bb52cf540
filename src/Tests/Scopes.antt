-- ===== src/Tests/Scopes.antt =====
-- Examples of the scopes.
use compilador.Prelude.{ℕ, ◌≡◌, refl, true, List, [], ◌∷◌, none, some, replicate}
use compilador.Scope.{
  Symbol, SymbolKind, Scope, ScopeStack, Status, scope_bucket_count, hash_name, symbol_new,
  scope_push, scope_pop, find_symbol, symbol_lookup_current, symbol_lookup_visible, placed,
  symbol_insert,
}
use compilador.Scope.Lookup.{symbol_insert-twice, push_pop, symbol_insert-visible}

abbrev x_name : List ℕ
x_name = 120 ∷ []

abbrev x_symbol : Symbol
x_symbol = symbol_new x_name SymbolKind.object none 3 7

abbrev empty_scope : Scope
empty_scope = record { id = 0; depth = 0; buckets = replicate scope_bucket_count [] }

abbrev one_scope : ScopeStack
one_scope = record { current = empty_scope ∷ []; next_scope_id = 1; has_arena = true }

x_hash : hash_name x_name ≡ 81
unfolding hash_name
x_hash = refl

no_x : symbol_lookup_current empty_scope x_name ≡ none
unfolding symbol_lookup_current hash_name find_symbol
no_x = refl

-- The same symbol a second time.
symbol_insert-twice_example :
    ((symbol_insert (symbol_insert empty_scope x_symbol).0 x_symbol).1 ≡ Status.eexist)
    × ((symbol_insert (symbol_insert empty_scope x_symbol).0 x_symbol).0
        ≡ (symbol_insert empty_scope x_symbol).0)
symbol_insert-twice_example = symbol_insert-twice empty_scope x_symbol x_symbol refl

push_pop_example :
    ((scope_pop (scope_push one_scope).0).0.current ≡ one_scope.current)
    × ((scope_pop (scope_push one_scope).0).1 ≡ Status.ok)
    × (symbol_lookup_visible (scope_push one_scope).0.current x_name
        ≡ symbol_lookup_visible one_scope.current x_name)
push_pop_example = push_pop one_scope x_name refl

symbol_insert-visible_example :
    symbol_lookup_visible ((symbol_insert empty_scope x_symbol).0 ∷ empty_scope ∷ []) x_name
    ≡ some (placed empty_scope x_symbol)
symbol_insert-visible_example =
    symbol_insert-visible empty_scope (empty_scope ∷ []) x_symbol x_name refl no_x
