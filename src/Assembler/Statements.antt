-- ===== src/Assembler/Statements.antt =====
-- assembler/Util/statements_list.c: the list of statements, with the location counter of the first
-- pass. An `int32_t` is kept as its 32 bits; `stmt_count` is the length of the list.
use compilador.Prelude.{
  ℕ, ◌+◌, ◌%◌, ◌^◌, List, [], ◌∷◌, ◌++◌, Option, none, some, if◌then◌else◌, ◌==◌, ltb, leb, length,
  get_or,
}

pub record Statement : Type 0 where
  pub opcode : ℕ
  pub fn : ℕ
  pub format : ℕ
  pub rd : ℕ
  pub rs : ℕ
  pub imm : ℕ
  pub cond_code : ℕ
  pub misc : ℕ
  pub line_num : ℕ

pub record StatementsList : Type 0 where
  pub statements : List Statement
  pub stmt_cap : ℕ
  pub location_counter : ℕ
  pub line_number : ℕ

abbrev pub fmt_rr : ℕ
fmt_rr = 82

abbrev pub fmt_ri : ℕ
fmt_ri = 73

abbrev pub fmt_rri : ℕ
fmt_rri = 77

abbrev pub fmt_i12 : ℕ
fmt_i12 = 74

abbrev pub fmt_br : ℕ
fmt_br = 66

abbrev pub fmt_fixed : ℕ
fmt_fixed = 70

abbrev pub dir_org : ℕ
dir_org = 50

abbrev pub dir_equ : ℕ
dir_equ = 51

abbrev pub dir_word : ℕ
dir_word = 52

abbrev pub dir_byte : ℕ
dir_byte = 53

unfoldable pub ensure_capacity : StatementsList → StatementsList
ensure_capacity l =
    if ltb (length l.statements) l.stmt_cap
    then l
    else record l { stmt_cap = (l.stmt_cap + 61) % 2 ^ 32 }

unfoldable pub commit_statement : StatementsList → Statement → StatementsList
unfolding ensure_capacity
commit_statement l s =
    let room = ensure_capacity l in
    record room { statements = room.statements ++ record s { line_num = room.line_number } ∷ [] }

-- The increment of `update_lc`.
abbrev pub advance : ℕ → ℕ → ℕ
advance opcode lc =
    if opcode == dir_org
    then lc
    else if opcode == dir_equ
    then lc
    else if opcode == dir_word
    then (lc + 4) % 2 ^ 32
    else if opcode == dir_byte
    then (lc + 1) % 2 ^ 32
    else (lc + 2) % 2 ^ 32

unfoldable pub update_lc : StatementsList → ℕ → StatementsList
update_lc l opcode = record l { location_counter = advance opcode l.location_counter }

abbrev pub init_statements_list : StatementsList
init_statements_list = record {
  statements = [];
  stmt_cap = 127;
  location_counter = 0;
  line_number = 1;
}

-- The designated fields; the others are 0.
abbrev pub statement : ℕ → ℕ → Statement
statement opcode format = record {
  opcode = opcode;
  fn = 0;
  format = format;
  rd = 0;
  rs = 0;
  imm = 0;
  cond_code = 0;
  misc = 0;
  line_num = 0;
}

abbrev pub add : StatementsList → Statement → StatementsList
add l s = update_lc (commit_statement l s) s.opcode

unfoldable pub add_statement_rr : StatementsList → ℕ → ℕ → ℕ → ℕ → StatementsList
add_statement_rr l opcode fn rd rs =
    add l (record (statement opcode fmt_rr) { fn = fn; rd = rd; rs = rs })

unfoldable pub add_statement_ri : StatementsList → ℕ → ℕ → ℕ → ℕ → ℕ → StatementsList
add_statement_ri l opcode fn rd imm misc =
    add l (record (statement opcode fmt_ri) { fn = fn; rd = rd; imm = imm; misc = misc })

unfoldable pub add_statement_rri : StatementsList → ℕ → ℕ → ℕ → ℕ → ℕ → StatementsList
add_statement_rri l opcode rd rs imm misc =
    add l (record (statement opcode fmt_rri) { rd = rd; rs = rs; imm = imm; misc = misc })

unfoldable pub add_statement_i12 : StatementsList → ℕ → ℕ → ℕ → StatementsList
add_statement_i12 l opcode imm misc =
    add l (record (statement opcode fmt_i12) { imm = imm; misc = misc })

unfoldable pub add_statement_br : StatementsList → ℕ → ℕ → ℕ → ℕ → StatementsList
add_statement_br l opcode cond disp misc =
    add l (record (statement opcode fmt_br) { cond_code = cond; imm = disp; misc = misc })

unfoldable pub add_statement_fixed : StatementsList → ℕ → StatementsList
add_statement_fixed l opcode = add l (statement opcode fmt_fixed)

unfoldable pub add_statement_directive : StatementsList → ℕ → ℕ → StatementsList
unfolding update_lc
add_statement_directive l opcode value =
    let next = commit_statement l (record (statement opcode fmt_fixed) { imm = value }) in
    if opcode == dir_org then record next { location_counter = value } else update_lc next opcode

unfoldable pub get_statement : StatementsList → ℕ → Option Statement
get_statement l index =
    if leb (length l.statements) index
    then none
    else some (get_or l.statements index (statement 0 0))

unfoldable pub increment_line_number : StatementsList → ℕ → StatementsList
increment_line_number l n = record l { line_number = (l.line_number + n) % 2 ^ 32 }

unfoldable pub set_line_number : StatementsList → ℕ → StatementsList
set_line_number l n = record l { line_number = n }

-- A call of the first pass.
pub data Call : Type 0 where
  rr : ℕ → ℕ → ℕ → ℕ → Call
  ri : ℕ → ℕ → ℕ → ℕ → ℕ → Call
  rri : ℕ → ℕ → ℕ → ℕ → ℕ → Call
  i12 : ℕ → ℕ → ℕ → Call
  br : ℕ → ℕ → ℕ → ℕ → Call
  fixed : ℕ → Call
  directive : ℕ → ℕ → Call
  next_lines line : ℕ → Call

unfoldable pub call : StatementsList → Call → StatementsList
call l (Call.rr opcode fn rd rs) = add_statement_rr l opcode fn rd rs
call l (Call.ri opcode fn rd imm misc) = add_statement_ri l opcode fn rd imm misc
call l (Call.rri opcode rd rs imm misc) = add_statement_rri l opcode rd rs imm misc
call l (Call.i12 opcode imm misc) = add_statement_i12 l opcode imm misc
call l (Call.br opcode cond disp misc) = add_statement_br l opcode cond disp misc
call l (Call.fixed opcode) = add_statement_fixed l opcode
call l (Call.directive opcode value) = add_statement_directive l opcode value
call l (Call.next_lines n) = increment_line_number l n
call l (Call.line n) = set_line_number l n

unfoldable pub first_pass : StatementsList → List Call → StatementsList
unfolding call
first_pass l [] = l
first_pass l (c ∷ cs) = first_pass (call l c) cs
