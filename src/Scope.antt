-- ===== src/Scope.antt =====
-- The scopes and symbols of Semantic/symbol.c. The parents of a scope are the rest of the list that
-- it heads; a scope that was popped lives on in the arena, and is not kept here. The arena gives
-- memory whenever it is asked.
pub mod Lookup
pub mod Depth
use Prim.Native.Nat.{bit_xor}
use compilador.Prelude.{
  ℕ, ◌+◌, ◌*◌, ◌%◌, ◌^◌, Bool, true, false, not, List, [], ◌∷◌, Option, none, some, if◌then◌else◌,
  u32_mod, get_or, set, replicate, bytes_eq,
}

pub data SymbolKind : Type 0 where
  object function parameter tag_struct tag_union tag_enum enum_const field : SymbolKind

pub data StorageClass : Type 0 where
  storage_auto storage_static storage_extern storage_parameter : StorageClass

pub data MemoryClass : Type 0 where
  memory_none memory_global memory_stack memory_parameter : MemoryClass

-- 0, -EINVAL and -EEXIST
pub data Status : Type 0 where
  ok einval eexist : Status

-- `type` is the address of a type, none for NULL; `decl_scope` is the scope with the id `scope_id`,
-- and `next` is the rest of the bucket.
pub record Symbol : Type 0 where
  pub name : List ℕ
  pub kind : SymbolKind
  pub storage_class : StorageClass
  pub memory_class : MemoryClass
  pub qualifiers : ℕ
  pub type : Option ℕ
  pub decl_line : ℕ
  pub decl_col : ℕ
  pub scope_id : ℕ
  pub scope_depth : ℕ
  pub arity : ℕ
  pub is_defined : Bool

pub record Scope : Type 0 where
  pub id : ℕ
  pub depth : ℕ
  pub buckets : List (List Symbol)

pub record ScopeStack : Type 0 where
  pub current : List Scope
  pub next_scope_id : ℕ
  pub has_arena : Bool

abbrev pub scope_bucket_count : ℕ
scope_bucket_count = 127

-- FNV-1a over the bytes before the closing 0, on `uint32_t`
hash_bytes : ℕ → List ℕ → ℕ
hash_bytes hash [] = hash
hash_bytes hash (c ∷ cs) = hash_bytes (bit_xor hash c * 16777619 % u32_mod) cs

unfoldable pub hash_name : List ℕ → ℕ
unfolding hash_bytes
hash_name name = hash_bytes 2166136261 name % scope_bucket_count

abbrev pub scope_stack_init : Bool → ScopeStack
scope_stack_init has_arena = record { current = []; next_scope_id = 0; has_arena = has_arena }

-- `node->parent ? node->parent->depth + 1u : 0u`
unfoldable pub depth_under : List Scope → ℕ
depth_under [] = 0
depth_under (parent ∷ scopes) = (parent.depth + 1) % 2 ^ 64

unfoldable pub scope_push : ScopeStack → ScopeStack × Status
unfolding depth_under
scope_push stack = if not stack.has_arena then (stack, einval) else (
  record stack {
    current =
        record {
          id = stack.next_scope_id;
          depth = depth_under stack.current;
          buckets = replicate scope_bucket_count [];
        }
        ∷ stack.current;
    next_scope_id = (stack.next_scope_id + 1) % 2 ^ 64;
  },
  ok,
)

pub drop_current : ScopeStack → List Scope → ScopeStack × Status
drop_current stack [] = (stack, einval)
drop_current stack (scope ∷ parents) = (record stack { current = parents }, ok)

unfoldable pub scope_pop : ScopeStack → ScopeStack × Status
unfolding drop_current
scope_pop stack = drop_current stack stack.current

-- The zeros of `memset` and the five fields that are given.
abbrev pub symbol_new : List ℕ → SymbolKind → Option ℕ → ℕ → ℕ → Symbol
symbol_new name kind type decl_line decl_col = record {
  name = name;
  kind = kind;
  storage_class = storage_auto;
  memory_class = memory_none;
  qualifiers = 0;
  type = type;
  decl_line = decl_line;
  decl_col = decl_col;
  scope_id = 0;
  scope_depth = 0;
  arity = 0;
  is_defined = false;
}

unfoldable pub find_symbol : List Symbol → List ℕ → Option Symbol
find_symbol [] name = none
find_symbol (sym ∷ rest) name = if bytes_eq sym.name name then some sym else find_symbol rest name

unfoldable pub symbol_lookup_current : Scope → List ℕ → Option Symbol
unfolding find_symbol
symbol_lookup_current scope name = find_symbol (get_or scope.buckets (hash_name name) []) name

-- The first hit, or what the parents have.
pub or_else : Option Symbol → Option Symbol → Option Symbol
or_else none other = other
or_else (some sym) other = some sym

unfoldable pub symbol_lookup_visible : List Scope → List ℕ → Option Symbol
unfolding or_else
symbol_lookup_visible [] name = none
symbol_lookup_visible (scope ∷ parents) name =
    or_else (symbol_lookup_current scope name) (symbol_lookup_visible parents name)

-- The symbol as the scope holds it.
abbrev pub placed : Scope → Symbol → Symbol
placed scope symbol = record symbol { scope_id = scope.id; scope_depth = scope.depth }

pub insert_unless : Option Symbol → Scope → Symbol → Scope × Status
insert_unless (some old) scope symbol = (scope, eexist)
insert_unless none scope symbol =
    let bucket = hash_name symbol.name in
    (
      record scope {
        buckets = set scope.buckets bucket (placed scope symbol ∷ get_or scope.buckets bucket []);
      },
      ok,
    )

unfoldable pub symbol_insert : Scope → Symbol → Scope × Status
unfolding insert_unless
symbol_insert scope symbol = insert_unless (symbol_lookup_current scope symbol.name) scope symbol
