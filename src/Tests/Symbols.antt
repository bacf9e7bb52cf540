-- ===== src/Tests/Symbols.antt =====
-- Symbols and statements of the assembler.
use compilador.Prelude.{
  ℕ, Bool, All, zero, suc, ◌≤◌, ◌<◌, ◌≡◌, refl, List, [], ◌∷◌, arith, ◌==◌, if◌then◌else◌, Returns,
  replicate, get_or, get_or-replicate, length-replicate,
}
use compilador.Prelude.Int.{ℤ}
use compilador.Assembler.Symbols.{
  SymbolTable, blank, empty_table, find, add_symbol, set_symbol_value, get_symbol_value,
  get_symbol_name, initial_size, hash_table_size,
}
use compilador.Assembler.Symbols.Chains.{IsTable}
use compilador.Assembler.Symbols.Intern.{IsInterned, add_symbol-Returns, set_symbol_value-Returns}
use compilador.Assembler.Statements.{Call, first_pass, init_statements_list}
use compilador.Assembler.Generate.{nop_image, place_all}
use compilador.Assembler.Counter.{IsCall, place_all-first_pass}

empty_table-IsTable : IsTable empty_table
empty_table-IsTable = record {
  ready = refl;
  size = length-replicate initial_size blank;
  width = length-replicate hash_table_size zero;
  first = omega arith;
  room = omega arith;
  heads = λ h. omega (arith, get_or-replicate hash_table_size h zero);
  links = λ i le lt. absurd (omega arith);
}

-- `"0"`, as `init_symbol_table` adds it
add_symbol-Returns_example :
    Returns (add_symbol empty_table (48 ∷ [])) λ r. IsInterned empty_table (48 ∷ []) r.0 r.1
add_symbol-Returns_example =
    add_symbol-Returns empty_table (48 ∷ []) empty_table-IsTable (omega arith) (omega arith)

-- Two symbols in one chain.
abbrev chained_table : SymbolTable
chained_table = record {
  ready = Bool.true;
  tab_size = 4;
  buckets = 2 ∷ replicate 508 0;
  next_free = 3;
  entries =
      blank
      ∷ record { name = 48 ∷ []; value = ℤ.pos 0; link = 0 }
      ∷ record { name = 97 ∷ []; value = ℤ.negsuc 0; link = 1 }
      ∷ blank
      ∷ [];
}

chained_table-IsTable : IsTable chained_table
chained_table-IsTable = record {
  ready = refl;
  size = refl;
  width = refl;
  first = omega arith;
  room = omega arith;
  heads = heads_below;
  links = links_below;
}
  where
    heads_below : (h : ℕ) → get_or chained_table.buckets h 0 < 3
    heads_below zero = omega arith
    heads_below (suc h) = omega (arith, get_or-replicate 508 h zero)

    links_below : (i : ℕ) → 1 ≤ i → i < 3 → (get_or chained_table.entries i blank).link < i
    links_below zero le lt = absurd (omega arith)
    links_below (suc zero) le lt = omega arith
    links_below (suc (suc zero)) le lt = omega arith
    links_below (suc (suc (suc i))) le lt = absurd (omega arith)

set_symbol_value-Returns_example : Returns (set_symbol_value chained_table 2 (ℤ.pos 64)) λ r.
    (r.0 ≡ 2)
    × IsTable r.1
    × ((i : ℕ)
        → get_symbol_value r.1 i ≡ (if 2 == i then ℤ.pos 64 else get_symbol_value chained_table i))
    × ((i : ℕ) → get_symbol_name r.1 i ≡ get_symbol_name chained_table i)
    × ((name : List ℕ) → find r.1 name ≡ find chained_table name)
set_symbol_value-Returns_example =
    set_symbol_value-Returns chained_table 2 (ℤ.pos 64) chained_table-IsTable (omega arith)

-- `.org 16`, an addition, a word and a branch
abbrev four_calls : List Call
four_calls = Call.directive 50 16 ∷ Call.rr 2 0 1 2 ∷ Call.directive 52 7 ∷ Call.br 9 0 1 2 ∷ []

four_calls-IsCall : All IsCall four_calls
four_calls-IsCall = (λ h. omega arith, (refl, (λ h. absurd cc, (refl, tt))))

place_all-first_pass_example :
    (place_all chained_table nop_image (first_pass init_statements_list four_calls).statements).lc
    ≡ (first_pass init_statements_list four_calls).location_counter
place_all-first_pass_example = place_all-first_pass chained_table four_calls four_calls-IsCall
