-- ===== src/Scope/Lookup.antt =====
-- Lookup after insertion, push and pop.
use compilador.Prelude.{
  Option, Option-cases, sym, ℕ, ◌<◌, ◌≡◌, refl, ◌∙◌, ap, true, false, List, [], ◌∷◌, none, some,
  arith, ◌==◌, ==_iff, if◌then◌else◌, get_or, set, length, length-set, get_or-set, get_or-replicate,
  bytes_eq, bytes_eq_iff, Bool-cases, inl, inr,
}
use compilador.Scope.{
  Symbol, Scope, ScopeStack, Status, scope_bucket_count, hash_name, scope_push, scope_pop,
  find_symbol, symbol_lookup_current, symbol_lookup_visible, placed, symbol_insert,
}

-- A scope with all its buckets.
abbrev pub IsScope : Scope → Type 0
IsScope scope = length scope.buckets ≡ scope_bucket_count

hash_name-lt : (name : List ℕ) → hash_name name < scope_bucket_count
unfolding hash_name
hash_name-lt name = omega arith

insert-read :
    (buckets : List (List Symbol)) (sym' : Symbol) (name : List ℕ)
    → length buckets ≡ scope_bucket_count
    → find_symbol
        (get_or
          (set buckets (hash_name sym'.name) (sym' ∷ get_or buckets (hash_name sym'.name) []))
          (hash_name name)
          [])
        name
      ≡ (if bytes_eq sym'.name name
          then some sym'
          else find_symbol (get_or buckets (hash_name name) []) name)
unfolding find_symbol
insert-read buckets sym' name len =
    let read =
      get_or-set buckets (hash_name sym'.name) (hash_name name)
        (sym' ∷ get_or buckets (hash_name sym'.name) []) []
        (omega (arith, len, hash_name-lt sym'.name)) in
    elim (Bool-cases (bytes_eq sym'.name name)) [
      | inl same ↦
          let e = (bytes_eq_iff sym'.name name).0 same in
          let hit : (hash_name sym'.name == hash_name name) ≡ true =
            (==_iff _ _).1 (ap hash_name e) in
          rw (read, hit, same) refl
      | inr differ ↦ elim (Bool-cases (hash_name sym'.name == hash_name name)) [
        | inl hit ↦
            let h = (==_iff (hash_name sym'.name) (hash_name name)).0 hit in
            rw (read, hit, differ) (ap (λ k. find_symbol (get_or buckets k []) name) h)
        | inr miss ↦ rw (read, miss, differ) refl
      ]
    ]

-- In a scope with all its buckets: the insertion of a name that is not there succeeds, keeps the
-- buckets, and from then on lookup in the scope finds the symbol under its name, with the id and the
-- depth of the scope, and what it found before under every other name.
pub symbol_insert-new :
    (scope : Scope) (symbol : Symbol)
    → IsScope scope
    → symbol_lookup_current scope symbol.name ≡ none
    → IsScope (symbol_insert scope symbol).0
      × ((symbol_insert scope symbol).1 ≡ Status.ok)
      × ((name : List ℕ)
          → symbol_lookup_current (symbol_insert scope symbol).0 name ≡ (
              if bytes_eq symbol.name name
              then some (placed scope symbol)
              else symbol_lookup_current scope name))
unfolding symbol_insert
symbol_insert-new scope symbol len free = rw free (
  length-set scope.buckets (hash_name symbol.name) _ ∙ len,
  refl,
  λ name. unfold symbol_lookup_current in insert-read scope.buckets (placed scope symbol) name len,
)

-- The insertion of a name that is there fails with -EEXIST and leaves the scope as it is.
symbol_insert-taken :
    (scope : Scope) (symbol old : Symbol)
    → symbol_lookup_current scope symbol.name ≡ some old
    → symbol_insert scope symbol ≡ (scope, Status.eexist)
unfolding symbol_insert
symbol_insert-taken scope symbol old taken = rw taken refl

-- The status says whether the name was free.
abbrev status_of : {A : Type 0} → Option A → Status
status_of none = Status.ok
status_of (some x) = Status.eexist

symbol_insert-status :
    (scope : Scope) (symbol : Symbol)
    → (symbol_insert scope symbol).1 ≡ status_of (symbol_lookup_current scope symbol.name)
unfolding symbol_insert
symbol_insert-status scope symbol = elim (Option-cases (symbol_lookup_current scope symbol.name)) [
  | inl free ↦ rw free refl
  | inr held ↦ rw held.1 refl
]

-- After an insertion its name is there, and what another name finds is as before.
lookup-same :
    (scope : Scope) (first second : Symbol)
    → IsScope scope
    → bytes_eq first.name second.name ≡ true
    → (old : Symbol) × (symbol_lookup_current (symbol_insert scope first).0 second.name ≡ some old)
lookup-same scope first second len same =
    elim (Option-cases (symbol_lookup_current scope first.name)) [
      | inl free ↦ (
        placed scope first,
        (symbol_insert-new scope first len free).2 second.name ∙ rw same refl,
      )
      | inr held ↦
          let stays = ap (λ r. r.0) (symbol_insert-taken scope first held.0 held.1) in
          let e = (bytes_eq_iff first.name second.name).0 same in
          (held.0, rw stays (ap (symbol_lookup_current scope) (sym e) ∙ held.1))
    ]

lookup-other :
    (scope : Scope) (first second : Symbol)
    → IsScope scope
    → bytes_eq first.name second.name ≡ false
    → symbol_lookup_current (symbol_insert scope first).0 second.name
      ≡ symbol_lookup_current scope second.name
lookup-other scope first second len differ =
    elim (Option-cases (symbol_lookup_current scope first.name)) [
      | inl free ↦ (symbol_insert-new scope first len free).2 second.name ∙ rw differ refl
      | inr held ↦ rw (ap (λ r. r.0) (symbol_insert-taken scope first held.0 held.1)) refl
    ]

-- In a scope with all its buckets, after an insertion that succeeded or failed: the insertion of a
-- second symbol under the same name fails with -EEXIST and leaves the scope as it is, and under
-- another name it has the status that it had before the first.
pub symbol_insert-twice :
    (scope : Scope) (first second : Symbol)
    → IsScope scope
    → ((symbol_insert (symbol_insert scope first).0 second).1 ≡ (
        if bytes_eq first.name second.name then Status.eexist else (symbol_insert scope second).1))
      × ((if bytes_eq first.name second.name
            then (symbol_insert (symbol_insert scope first).0 second).0
            else (symbol_insert scope first).0)
          ≡ (symbol_insert scope first).0)
symbol_insert-twice scope first second len = elim (Bool-cases (bytes_eq first.name second.name)) [
  | inl same ↦
      let (old, held) = lookup-same scope first second len same in
      let fails = symbol_insert-taken (symbol_insert scope first).0 second old held in
      rw same (ap (λ r. r.1) fails, ap (λ r. r.0) fails)
  | inr differ ↦ rw differ (
    symbol_insert-status (symbol_insert scope first).0 second
        ∙ ap status_of (lookup-other scope first second len differ)
        ∙ sym (symbol_insert-status scope second),
    refl,
  )
]

-- A new scope hides no name and has none of its own; leaving it restores the scopes before it.
pub push_pop :
    (stack : ScopeStack) (name : List ℕ)
    → stack.has_arena ≡ true
    → ((scope_pop (scope_push stack).0).0.current ≡ stack.current)
      × ((scope_pop (scope_push stack).0).1 ≡ Status.ok)
      × (symbol_lookup_visible (scope_push stack).0.current name
          ≡ symbol_lookup_visible stack.current name)
unfolding scope_push scope_pop symbol_lookup_visible
push_pop stack name arena = rw arena (
  refl,
  refl,
  unfold symbol_lookup_current find_symbol in
      rw (get_or-replicate {A = List Symbol} scope_bucket_count (hash_name name) []) refl,
)

-- A symbol that is inserted into the innermost scope is the one that is visible under its name; all
-- other names keep their meaning.
pub symbol_insert-visible :
    (scope : Scope) (parents : List Scope) (symbol : Symbol) (name : List ℕ)
    → IsScope scope
    → symbol_lookup_current scope symbol.name ≡ none
    → symbol_lookup_visible ((symbol_insert scope symbol).0 ∷ parents) name ≡ (
        if bytes_eq symbol.name name
        then some (placed scope symbol)
        else symbol_lookup_visible (scope ∷ parents) name)
unfolding symbol_lookup_visible
symbol_insert-visible scope parents symbol name len free =
    let found = (symbol_insert-new scope symbol len free).2 name in
    elim (Bool-cases (bytes_eq symbol.name name)) [
      | inl same ↦ rw (found, same) refl
      | inr differ ↦ rw (found, differ) refl
    ]
