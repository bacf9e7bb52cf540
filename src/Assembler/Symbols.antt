-- ===== src/Assembler/Symbols.antt =====
-- assembler/Util/symbol_table.c: the symbols of the assembler, in an array with hash chains of indices.
pub mod Chains
pub mod Intern
use compilador.Prelude.{
  ℕ, zero, suc, ◌+◌, ◌*◌, ◌%◌, ◌^◌, Bool, true, false, List, [], ◌∷◌, ◌++◌, Option, none, some,
  if◌then◌else◌, ◌==◌, ltb, leb, get_or, set, replicate, length, bytes_eq, ◌>>=◌,
}
use compilador.Prelude.Int.{ℤ}

abbrev pub hash_table_size : ℕ
hash_table_size = 509

abbrev pub initial_size : ℕ
initial_size = 127

abbrev pub size_step : ℕ
size_step = 61

abbrev pub max_name_len : ℕ
max_name_len = 32

-- `int16_t value`, and `link`, an index where 0 is NULL_PTR
pub record SymbolEntry : Type 0 where
  pub name : List ℕ
  pub value : ℤ
  pub link : ℕ

-- What the array holds in a place that was never written; it is not read.
abbrev pub blank : SymbolEntry
blank = record { name = []; value = ℤ.pos 0; link = 0 }

pub record SymbolTable : Type 0 where
  pub ready : Bool
  pub tab_size : ℕ
  pub buckets : List ℕ
  pub next_free : ℕ
  pub entries : List SymbolEntry

abbrev pub entry_at : SymbolTable → ℕ → SymbolEntry
entry_at t i = get_or t.entries i blank

-- djb2, on names of 7-bit characters
hash_from : ℕ → List ℕ → ℕ
hash_from h [] = h
hash_from h (c ∷ cs) = hash_from (((h * 2 ^ 5) % 2 ^ 64 + h + c) % 2 ^ 64) cs

unfoldable pub hash : List ℕ → ℕ
unfolding hash_from
hash name = hash_from 5381 name % hash_table_size

-- The loop of `add_symbol` along the chain. The links go down, so the index bounds its length.
unfoldable pub find_from : ℕ → SymbolTable → List ℕ → ℕ → Option ℕ
find_from zero t name index = none
find_from (suc fuel) t name index =
    let rest = find_from fuel t name (entry_at t index).link in
    if index == 0 then none else if bytes_eq (entry_at t index).name name then some index else rest

abbrev pub find : SymbolTable → List ℕ → Option ℕ
find t name = find_from t.next_free t name (get_or t.buckets (hash name) 0)

-- The growth of the array, once `next_free` has moved.
unfoldable pub grow : SymbolTable → SymbolTable
grow t =
    if leb t.tab_size t.next_free
    then record t {
      tab_size = (t.tab_size + size_step) % 2 ^ 16;
      entries = t.entries ++ replicate size_step blank;
    }
    else t

-- `none`: the name does not fit the 32 bytes of its field.
unfoldable pub insert_symbol : SymbolTable → List ℕ → ℕ → Option (ℕ × SymbolTable)
unfolding grow
insert_symbol t name hash_value =
    let index = t.next_free in
    let room = grow (record t { next_free = (t.next_free + 1) % 2 ^ 16 }) in
    let entry : SymbolEntry = record {
      name = name;
      value = ℤ.negsuc 0;
      link = get_or t.buckets hash_value 0;
    } in
    if ltb (length name) max_name_len
    then some (
      index,
      record room {
        entries = set room.entries index entry;
        buckets = set room.buckets hash_value index;
      },
    )
    else none

pub found_or : Option ℕ → SymbolTable → Option (ℕ × SymbolTable) → Option (ℕ × SymbolTable)
found_or none t inserted = inserted
found_or (some index) t inserted = some (index, t)

-- `none` is `exit`, or a name that does not fit.
unfoldable pub add_symbol : SymbolTable → List ℕ → Option (ℕ × SymbolTable)
unfolding found_or
add_symbol t name =
    if t.ready then found_or (find t name) t (insert_symbol t name (hash name)) else none

-- The value is one of `int16_t`; the code only copies it.
unfoldable pub set_symbol_value : SymbolTable → ℕ → ℤ → Option (ℕ × SymbolTable)
set_symbol_value t index value =
    if t.ready
    then (if leb t.tab_size index
        then none
        else some (
          index,
          record t { entries = set t.entries index (record (entry_at t index) { value = value }) },
        ))
    else none

unfoldable pub get_symbol_value : SymbolTable → ℕ → ℤ
get_symbol_value t index = (entry_at t index).value

unfoldable pub get_symbol_name : SymbolTable → ℕ → List ℕ
get_symbol_name t index = (entry_at t index).name

-- The table before the symbol `"0"`, to which `sscanf` gives the value 0.
abbrev pub empty_table : SymbolTable
empty_table = record {
  ready = true;
  tab_size = initial_size;
  buckets = replicate hash_table_size 0;
  next_free = 1;
  entries = replicate initial_size blank;
}

unfoldable pub init_symbol_table : Option SymbolTable
unfolding add_symbol
init_symbol_table = do
  (zero_ptr, t) ← add_symbol empty_table (48 ∷ [])
  some (record t {
    entries = set t.entries zero_ptr (record (entry_at t zero_ptr) { value = ℤ.pos 0 });
  })
