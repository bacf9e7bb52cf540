-- ===== src/Codegen/Module.antt =====
-- `codegen_emit_module`: the data section and the functions of a module. The name of the processor and
-- the types of the globals, which only comments mention, are left out.
use compilador.Prelude.{
  ℕ, ◌-◌, ◌<◌, ◌≡◌, Bool, true, false, List, [], ◌∷◌, Option, none, some, ◌==◌, if◌then◌else◌,
  ◌>>=◌, length, replicate, length-replicate, arith,
}
use compilador.Prelude.Int.{ℤ}
use compilador.Ir.Instr.{Function}
use compilador.Regalloc.Build.{Regalloc}
use compilador.Codegen.Asm.{Asm, word16}
use compilador.Codegen.Relax.{codegen_emit_function}

-- `ir_global_init_kind_t` with its payload
pub data GlobalInit : Type 0 where
  no_init : GlobalInit
  int_init : ℤ → GlobalInit
  string_init label_init : List ℕ → GlobalInit

pub record Global : Type 0 where
  pub name : List ℕ
  pub is_extern : Bool
  pub size_words : ℕ
  pub init : GlobalInit

pub record Module : Type 0 where
  pub globals : List Global
  pub functions : List Function

-- `.word`, with a number or a symbol, and `.asciz`
pub data Datum : Type 0 where
  word : ℕ → Datum
  word_symbol asciz : List ℕ → Datum

abbrev pub storage_words : Global → ℕ
storage_words g = if g.size_words == 0 then 1 else g.size_words

-- The directives after the name of a global of so many words.
unfoldable pub init_data : ℕ → GlobalInit → List Datum
init_data words (GlobalInit.int_init k) =
    Datum.word (word16 k) ∷ replicate (words - 1) (Datum.word 0)
init_data words (GlobalInit.string_init text) = Datum.asciz text ∷ []
init_data words (GlobalInit.label_init name) = Datum.word_symbol name ∷ []
init_data words GlobalInit.no_init = Datum.word 0 ∷ replicate (words - 1) (Datum.word 0)

-- The names with their directives; a global that is extern has none.
unfoldable pub emit_globals : List Global → List (List ℕ × List Datum)
unfolding init_data
emit_globals [] = []
emit_globals (g ∷ globals) =
    if g.is_extern
    then emit_globals globals
    else (g.name, init_data (storage_words g) g.init) ∷ emit_globals globals

-- Each function with the allocation at its place; a missing one is `none`.
unfoldable pub emit_functions : List Function → List Regalloc → Option (List (List Asm))
unfolding codegen_emit_function
emit_functions [] allocs = some []
emit_functions (func ∷ functions) [] = none
emit_functions (func ∷ functions) (ra ∷ allocs) = do
  lines ← codegen_emit_function func ra
  rest ← emit_functions functions allocs
  some (lines ∷ rest)

unfoldable pub codegen_emit_module :
    Module → List Regalloc → Option (List (List ℕ × List Datum) × List (List Asm))
unfolding emit_globals emit_functions
codegen_emit_module module_ir allocs = do
  functions ← emit_functions module_ir.functions allocs
  some (emit_globals module_ir.globals, functions)

abbrev pub is_numeric : GlobalInit → Bool
is_numeric GlobalInit.no_init = true
is_numeric (GlobalInit.int_init k) = true
is_numeric (GlobalInit.string_init text) = false
is_numeric (GlobalInit.label_init name) = false

-- A global without a string or a label gets a directive for each of its words, and at least one.
length-init_data :
    (words : ℕ) (init : GlobalInit)
    → is_numeric init ≡ true
    → 0 < words
    → length (init_data words init) ≡ words
unfolding init_data
length-init_data words GlobalInit.no_init h some_word =
    omega (arith, length-replicate (words - 1) (Datum.word 0))
length-init_data words (GlobalInit.int_init k) h some_word =
    omega (arith, length-replicate (words - 1) (Datum.word 0))
length-init_data words (GlobalInit.string_init text) h some_word = cc
length-init_data words (GlobalInit.label_init name) h some_word = cc
