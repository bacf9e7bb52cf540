-- ===== src/Assembler/Counter.antt =====
-- The addresses of the two passes.
use compilador.Prelude.{
  ℕ, ◌%◌, ◌^◌, ◌<◌, ◌≡◌, refl, ◌∙◌, ap, sym, Bool, true, false, List, [], ◌∷◌, ◌++◌, arith,
  if◌then◌else◌, ◌==◌, ltb, length, Bool-cases, inl, inr, All,
}
use compilador.Assembler.Symbols.{SymbolTable}
use compilador.Assembler.Statements.{
  Statement, StatementsList, dir_org, dir_equ, dir_word, dir_byte, ensure_capacity,
  commit_statement, advance, update_lc, add, init_statements_list, add_statement_rr,
  add_statement_ri, add_statement_rri, add_statement_i12, add_statement_br, add_statement_fixed,
  add_statement_directive, increment_line_number, set_line_number, Call, call, first_pass,
  statement, fmt_fixed,
}
use compilador.Assembler.Generate.{Image, nop_image, place, place_all}

-- The directive ORG comes from `add_statement_directive` only, with an address of 16 bits.
abbrev pub IsCall : Call → Type 0
IsCall (Call.rr opcode fn rd rs) = (opcode == dir_org) ≡ false
IsCall (Call.ri opcode fn rd imm misc) = (opcode == dir_org) ≡ false
IsCall (Call.rri opcode rd rs imm misc) = (opcode == dir_org) ≡ false
IsCall (Call.i12 opcode imm misc) = (opcode == dir_org) ≡ false
IsCall (Call.br opcode cond disp misc) = (opcode == dir_org) ≡ false
IsCall (Call.fixed opcode) = (opcode == dir_org) ≡ false
IsCall (Call.directive opcode value) = (opcode == dir_org) ≡ true → value < 2 ^ 16
IsCall (Call.next_lines n) = Unit
IsCall (Call.line n) = Unit

place-lc :
    (t : SymbolTable) (st : Image) (s : Statement)
    → (place t st s).lc ≡ (if s.opcode == dir_org then s.imm % 2 ^ 16 else advance s.opcode st.lc)
unfolding place
place-lc t st s = elim (Bool-cases (s.opcode == dir_org)) [
  | inl org ↦ rw org refl
  | inr a ↦ elim (Bool-cases (s.opcode == dir_equ)) [
    | inl equ ↦ rw (a, equ) refl
    | inr b ↦ elim (Bool-cases (s.opcode == dir_word)) [
      | inl word ↦ rw (a, b, word) refl
      | inr c ↦ elim (Bool-cases (s.opcode == dir_byte)) [
        | inl byte ↦ rw (a, b, c, byte) refl
        | inr d ↦ rw (a, b, c, d) refl
      ]
    ]
  ]
]

place_all-append :
    (t : SymbolTable) (st : Image) (ss : List Statement) (s : Statement)
    → place_all t st (ss ++ s ∷ []) ≡ place t (place_all t st ss) s
unfolding place_all
place_all-append t st [] s = refl
place_all-append t st (x ∷ xs) s = place_all-append t (place t st x) xs s

-- The second pass over the list so far stands where the first pass does.
abbrev IsCounted : SymbolTable → StatementsList → Type 0
IsCounted t l = (place_all t nop_image l.statements).lc ≡ l.location_counter

ensure-statements : (l : StatementsList) → (ensure_capacity l).statements ≡ l.statements
unfolding ensure_capacity
ensure-statements l = elim (Bool-cases (ltb (length l.statements) l.stmt_cap)) [
  | inl room ↦ rw room refl
  | inr full ↦ rw full refl
]

ensure-counter : (l : StatementsList) → (ensure_capacity l).location_counter ≡ l.location_counter
unfolding ensure_capacity
ensure-counter l = elim (Bool-cases (ltb (length l.statements) l.stmt_cap)) [
  | inl room ↦ rw room refl
  | inr full ↦ rw full refl
]

commit-lc :
    (t : SymbolTable) (l : StatementsList) (s : Statement)
    → IsCounted t l
    → (place_all t nop_image (commit_statement l s).statements).lc
      ≡ (if s.opcode == dir_org then s.imm % 2 ^ 16 else advance s.opcode l.location_counter)
unfolding commit_statement
commit-lc t l s z =
    let numbered : Statement = record s { line_num = (ensure_capacity l).line_number } in
    ap (λ ss. (place_all t nop_image (ss ++ numbered ∷ [])).lc) (ensure-statements l)
    ∙ ap (λ (st : Image). st.lc) (place_all-append t nop_image l.statements numbered)
    ∙ place-lc t (place_all t nop_image l.statements) numbered
    ∙ ap (λ k. if s.opcode == dir_org then s.imm % 2 ^ 16 else advance s.opcode k) z

commit-counter :
    (l : StatementsList) (s : Statement)
    → (commit_statement l s).location_counter ≡ l.location_counter
unfolding commit_statement
commit-counter l s = ensure-counter l

add-IsCounted :
    (t : SymbolTable) (l : StatementsList) (s : Statement)
    → IsCounted t l
    → (s.opcode == dir_org) ≡ false
    → IsCounted t (add l s)
unfolding update_lc
add-IsCounted t l s z plain =
    commit-lc t l s z
    ∙ ap (λ b. if b then s.imm % 2 ^ 16 else advance s.opcode l.location_counter) plain
    ∙ ap (advance s.opcode) (sym (commit-counter l s))

directive-IsCounted :
    (t : SymbolTable) (l : StatementsList) (opcode value : ℕ)
    → IsCounted t l
    → ((opcode == dir_org) ≡ true → value < 2 ^ 16)
    → IsCounted t (add_statement_directive l opcode value)
unfolding add_statement_directive
directive-IsCounted t l opcode value z fits = by_opcode (opcode == dir_org) refl
  where
    s : Statement
    s = record (statement opcode fmt_fixed) { imm = value }

    next : StatementsList
    next = commit_statement l s

    by_opcode :
        (b : Bool)
        → (opcode == dir_org) ≡ b
        → IsCounted t
            (if b then record next { location_counter = value } else update_lc next opcode)
    by_opcode true org =
        let small : value % 2 ^ 16 ≡ value = ground (arith, fits org) in
        commit-lc t l s z
        ∙ ap (λ b. if b then value % 2 ^ 16 else advance opcode l.location_counter) org
        ∙ small
    by_opcode false other = add-IsCounted t l s z other

call-IsCounted :
    (t : SymbolTable) (l : StatementsList) (c : Call)
    → IsCounted t l
    → IsCall c
    → IsCounted t (call l c)
unfolding call add_statement_rr add_statement_ri add_statement_rri add_statement_i12
    add_statement_br add_statement_fixed increment_line_number set_line_number
call-IsCounted t l (Call.rr opcode fn rd rs) z ok = add-IsCounted t l _ z ok
call-IsCounted t l (Call.ri opcode fn rd imm misc) z ok = add-IsCounted t l _ z ok
call-IsCounted t l (Call.rri opcode rd rs imm misc) z ok = add-IsCounted t l _ z ok
call-IsCounted t l (Call.i12 opcode imm misc) z ok = add-IsCounted t l _ z ok
call-IsCounted t l (Call.br opcode cond disp misc) z ok = add-IsCounted t l _ z ok
call-IsCounted t l (Call.fixed opcode) z ok = add-IsCounted t l _ z ok
call-IsCounted t l (Call.directive opcode value) z ok = directive-IsCounted t l opcode value z ok
call-IsCounted t l (Call.next_lines n) z ok = z
call-IsCounted t l (Call.line n) z ok = z

first_pass-IsCounted :
    (t : SymbolTable) (l : StatementsList) (cs : List Call)
    → IsCounted t l
    → All IsCall cs
    → IsCounted t (first_pass l cs)
unfolding first_pass
first_pass-IsCounted t l [] z ok = z
first_pass-IsCounted t l (c ∷ cs) z ok =
    first_pass-IsCounted t (call l c) cs (call-IsCounted t l c z ok.0) ok.1

-- The two passes of the assembler agree on addresses: after any calls of the first pass in which
-- every ORG comes as a directive with an address of 16 bits, the walk of the second pass over the
-- list, with any symbols, ends at the location counter of the first.
pub place_all-first_pass :
    (t : SymbolTable) (cs : List Call)
    → All IsCall cs
    → (place_all t nop_image (first_pass init_statements_list cs).statements).lc
      ≡ (first_pass init_statements_list cs).location_counter
unfolding place_all
place_all-first_pass t cs ok = first_pass-IsCounted t init_statements_list cs refl ok
