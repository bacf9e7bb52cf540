-- ===== src/Assembler/Generate.antt =====
-- assembler/Step2/code_generator.c: the words of the statements, and the memory image of the second
-- pass, up to the file that it is printed to. A flag stands for `g_codegen_error`.
use compilador.Prelude.{
  ℕ, ◌+◌, ◌-◌, ◌*◌, ◌/◌, ◌%◌, ◌^◌, Bool, true, false, ◌||◌, List, [], ◌∷◌, if◌then◌else◌, ◌==◌, ltb,
  leb, bit_and, bit_or,
}
use compilador.Prelude.Int.{ℤ, pos, negsuc}
use compilador.Assembler.Symbols.{SymbolTable, get_symbol_value}
use compilador.Assembler.Statements.{
  Statement, StatementsList, fmt_rr, fmt_ri, fmt_rri, fmt_i12, fmt_br, fmt_fixed, dir_org, dir_equ,
  dir_word, dir_byte,
}

abbrev pub mem_size : ℕ
mem_size = 65536

-- `LABEL`
abbrev pub is_label : Statement → Bool
is_label s = s.misc == 2

-- The low `w` bits.
abbrev pub bits : ℕ → ℤ → ℕ
bits w (pos n) = n % 2 ^ w
bits w (negsuc n) = 2 ^ w - 1 - n % 2 ^ w

abbrev pub nibble : ℕ → ℕ → ℕ
nibble x k = bit_and x 15 * 2 ^ k

-- `a - lc`, and its half towards 0
abbrev pub minus : ℤ → ℕ → ℤ
minus (pos a) lc = if leb lc a then pos (a - lc) else negsuc (lc - a - 1)
minus (negsuc a) lc = negsuc (a + lc)

abbrev pub half : ℤ → ℤ
half (pos n) = pos (n / 2)
half (negsuc n) = if (n + 1) / 2 == 0 then pos 0 else negsuc ((n + 1) / 2 - 1)

-- `disp < -128 || disp > 127`
abbrev pub out_of_range : ℤ → Bool
out_of_range (pos n) = ltb 127 n
out_of_range (negsuc n) = leb 128 n

pub record Code : Type 0 where
  pub word : ℕ
  pub failed : Bool

abbrev pub good : ℕ → Code
good word = record { word = word; failed = false }

abbrev pub fixed_code : ℕ → Code
fixed_code opcode =
    if opcode == 11
    then good 45056
    else if opcode == 12
    then good 49152
    else if opcode == 15
    then good 61440
    else record { word = 0; failed = true }

abbrev pub branch_code : SymbolTable → Statement → ℕ → Code
branch_code t s lc =
    let disp = half (minus (get_symbol_value t (s.imm % 2 ^ 16)) lc) in
    record {
      word =
          bit_or (bit_or (nibble s.opcode 12) (nibble s.cond_code 8))
            (if is_label s then bits 8 disp else bit_and s.imm 255);
      failed = if is_label s then out_of_range disp else false;
    }

unfoldable pub encode_statement : SymbolTable → Statement → ℕ → Code
encode_statement t s lc =
    let value = get_symbol_value t (s.imm % 2 ^ 16) in
    let imm4 = if is_label s then bits 4 value else bit_and s.imm 15 in
    let imm12 = if is_label s then bits 16 value / 16 else bit_and s.imm 4095 in
    if s.format == fmt_rr
    then good (
        bit_or (bit_or (bit_or (nibble s.opcode 12) (nibble s.rd 8)) (nibble s.rs 4))
          (nibble s.fn 0))
    else if s.format == fmt_ri
    then good (bit_or (bit_or (bit_or (nibble s.opcode 12) (nibble s.rd 8)) (nibble s.fn 4)) imm4)
    else if s.format == fmt_rri
    then good (bit_or (bit_or (bit_or (nibble s.opcode 12) (nibble s.rd 8)) (nibble s.rs 4)) imm4)
    else if s.format == fmt_i12
    then good (bit_or (nibble s.opcode 12) imm12)
    else if s.format == fmt_br
    then branch_code t s lc
    else if s.format == fmt_fixed
    then fixed_code s.opcode
    else record { word = 0; failed = true }

pub record Image : Type 0 where
  pub mem : ℕ → ℕ
  pub lc : ℕ
  pub max_lc : ℕ
  pub error : Bool

-- Filled with NOP.
abbrev pub nop_image : Image
nop_image = record {
  mem = λ addr. if addr % 2 == 0 then 240 else 0;
  lc = 0;
  max_lc = 0;
  error = false;
}

abbrev pub write : (ℕ → ℕ) → ℕ → ℕ → ℕ → ℕ
write mem addr byte a = if a == addr then byte else mem a

-- The update of `max_lc` at the end of a round.
abbrev pub moved_to : Image → ℕ → Image
moved_to st lc = record st { lc = lc; max_lc = if ltb st.max_lc lc then lc else st.max_lc }

abbrev pub put_word : Image → ℕ → Image
put_word st v =
    if ltb ((st.lc + 3) % 2 ^ 32) mem_size
    then record st {
      mem =
          write
            (write (write (write st.mem st.lc (v / 2 ^ 24 % 256)) (st.lc + 1) (v / 2 ^ 16 % 256))
              (st.lc + 2) (v / 2 ^ 8 % 256))
            (st.lc + 3) (v % 256);
    }
    else record st { error = true }

abbrev pub put_byte : Image → ℕ → Image
put_byte st v =
    if ltb st.lc mem_size
    then record st { mem = write st.mem st.lc (v % 256) }
    else record st { error = true }

abbrev pub put_code : Image → Code → Image
put_code st code =
    let flagged = record st { error = st.error || code.failed } in
    if ltb ((st.lc + 1) % 2 ^ 32) mem_size
    then record flagged {
      mem = write (write st.mem st.lc (code.word / 2 ^ 8 % 256)) (st.lc + 1) (code.word % 256);
    }
    else record flagged { error = true }

-- One round of the walk over the list.
unfoldable pub place : SymbolTable → Image → Statement → Image
place t st s =
    if s.opcode == dir_org
    then record st { lc = s.imm % 2 ^ 16 }
    else if s.opcode == dir_equ
    then st
    else if s.opcode == dir_word
    then moved_to (put_word st s.imm) ((st.lc + 4) % 2 ^ 32)
    else if s.opcode == dir_byte
    then moved_to (put_byte st s.imm) ((st.lc + 1) % 2 ^ 32)
    else moved_to (put_code st (encode_statement t s st.lc)) ((st.lc + 2) % 2 ^ 32)

unfoldable pub place_all : SymbolTable → Image → List Statement → Image
unfolding place
place_all t st [] = st
place_all t st (s ∷ ss) = place_all t (place t st s) ss

-- The image that the file shows, of the words below `max_lc` rounded up to an even number.
unfoldable pub generate_image : SymbolTable → StatementsList → Image
unfolding place_all
generate_image t l =
    let st = place_all t nop_image l.statements in
    record st { max_lc = if st.max_lc % 2 == 1 then (st.max_lc + 1) % 2 ^ 32 else st.max_lc }
