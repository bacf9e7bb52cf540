-- ===== src/Codegen/Parallel.antt =====
-- The parallel copy of a call, on the machine: the copies, and the values that they are to bring to the
-- argument registers.
use compilador.Prelude.{
  ℕ, zero, suc, ◌+◌, ◌<◌, ◌≡◌, ◌⊎◌, ap, sym, subst, ◌∙◌, true, false, ◌&&◌, List, [], ◌∷◌, ◌==◌,
  if◌then◌else◌, inl, inr, arith, Bool-cases, length, get_or, set, get_or-set, length-set,
}
use compilador.Ir.Types.{Value}
use compilador.Codegen.Machine.{read_reg, write}
use compilador.Codegen.Call.{ArgCopy, is_register_arg, is_pending, is_blocked, no_copy}

abbrev pub copy_at : List ArgCopy → ℕ → ArgCopy
copy_at cps i = get_or cps i no_copy

-- Where the value of a copy is: in its destination once it is done.
abbrev pub home : ArgCopy → ℕ
home c = if c.done then c.dst else c.src

-- The copies into the registers from a0 on, each with its value in its home.
pub record AreHeld (orig : ℕ → Value) (want : ℕ → ℕ) (n : ℕ) (regs : ℕ → ℕ) (cps : List ArgCopy)
    : Type 0 where
  pub size : length cps ≡ n
  pub dsts : (i : ℕ) → i < n → (copy_at cps i).dst ≡ 1 + i
  pub vals :
      (i : ℕ)
      → i < n
      → is_register_arg (copy_at cps i).arg ≡ true
      → read_reg regs (home (copy_at cps i)) ≡ want i
  pub args : (i : ℕ) → i < n → (copy_at cps i).arg ≡ orig i

-- No other pending copy reads the register.
not_blocked :
    (cps : List ArgCopy) (s i r : ℕ)
    → is_blocked cps s i r ≡ false
    → (j : ℕ) → (i == s + j) ≡ false
    → is_pending (copy_at cps j) ≡ true
    → ((copy_at cps j).src == r) ≡ false
unfolding is_blocked
not_blocked [] s i r h j other p = cc
not_blocked (c ∷ cps) s i r h zero other p = ground arith
not_blocked (c ∷ cps) s i r h (suc j) other p = elim (Bool-cases (i == s)) [
  | inl here ↦ not_blocked cps (s + 1) i r (rw here at h) j (ground arith) p
  | inr there ↦ elim (Bool-cases (is_pending c && c.src == r)) [
    | inl blocks ↦ absurd (ground arith)
    | inr passes ↦ not_blocked cps (s + 1) i r (rw (there, passes) at h) j (ground arith) p
  ]
]

-- One copy made.
abbrev pub finish_copy : ArgCopy → ArgCopy
finish_copy c = record c { done = true }

module _ (orig : ℕ → Value) (want : ℕ → ℕ) (n : ℕ) (regs : ℕ → ℕ) (cps : List ArgCopy) (i : ℕ)
    (h : AreHeld orig want n regs cps) (lt : i < n) (p : is_pending (copy_at cps i) ≡ true)
    (free : is_blocked cps 0 i (copy_at cps i).dst ≡ false) where
  abbrev moved : ℕ → ℕ
  moved = write regs (copy_at cps i).dst (read_reg regs (copy_at cps i).src)

  abbrev finished : List ArgCopy
  finished = set cps i (finish_copy (copy_at cps i))

  at_index :
      (j : ℕ) → copy_at finished j ≡ (if i == j then finish_copy (copy_at cps i) else copy_at cps j)
  at_index j = get_or-set cps i j _ no_copy (omega (arith, h.size))

  copied_dst : (j : ℕ) → j < n → (copy_at finished j).dst ≡ 1 + j
  copied_dst j below = ap (λ c. c.dst) (at_index j) ∙ elim (Bool-cases (i == j)) [
    | inl here ↦ rw here (h.dsts i lt ∙ ground arith)
    | inr other ↦ rw other (h.dsts j below)
  ]

  done_val : read_reg moved (finish_copy (copy_at cps i)).dst ≡ want i
  done_val =
      let live : (copy_at cps i).done ≡ false = ground arith in
      let from_src : read_reg regs (copy_at cps i).src ≡ want i =
        ap (λ d. read_reg regs (if d then (copy_at cps i).dst else (copy_at cps i).src)) (sym live)
        ∙ h.vals i lt (ground arith) in
      ground (arith, h.dsts i lt)

  done_home : read_reg moved (home (finish_copy (copy_at cps i))) ≡ want i
  done_home = done_val

  other_val :
      (j : ℕ)
      → j < n
      → (i == j) ≡ false
      → is_register_arg (copy_at cps j).arg ≡ true
      → read_reg moved (home (copy_at cps j)) ≡ want j
  other_val j below other reg = elim (Bool-cases (home (copy_at cps j) == (copy_at cps i).dst)) [
    | inr apart ↦ unchanged (home (copy_at cps j)) apart ∙ h.vals j below reg
    | inl same ↦ absurd (clash (Bool-cases (copy_at cps j).done) same)
  ]
    where
      unchanged : (k : ℕ) → (k == (copy_at cps i).dst) ≡ false → read_reg moved k ≡ read_reg regs k
      unchanged k apart = ground arith

      clash :
          ((copy_at cps j).done ≡ true) ⊎ ((copy_at cps j).done ≡ false)
          → (home (copy_at cps j) == (copy_at cps i).dst) ≡ true
          → ⊥
      clash (inl finished_j) same =
          let e : ((copy_at cps j).dst == (copy_at cps i).dst) ≡ true =
            ap
              (λ d. (if d then (copy_at cps j).dst else (copy_at cps j).src) == (copy_at cps i).dst)
              (sym finished_j)
            ∙ same in
          ground (arith, h.dsts j below, h.dsts i lt)
      clash (inr pending_j) same =
          let e : ((copy_at cps j).src == (copy_at cps i).dst) ≡ true =
            ap
              (λ d. (if d then (copy_at cps j).dst else (copy_at cps j).src) == (copy_at cps i).dst)
              (sym pending_j)
            ∙ same in
          let apart = not_blocked cps 0 i _ free j (ground arith) (ground arith) in cc

  -- The copy of an unblocked argument keeps every value.
  pub copied : AreHeld orig want n moved finished
  copied = record {
    size = length-set cps i _ ∙ h.size;
    dsts = copied_dst;
    args = λ j below. ap (λ c. c.arg) (at_index j) ∙ elim (Bool-cases (i == j)) [
      | inl here ↦ rw here (h.args i lt ∙ ap orig (ground arith))
      | inr other ↦ rw other (h.args j below)
    ];
    vals = λ j below. elim (Bool-cases (i == j)) [
      | inl here ↦
          let e : i ≡ j = ground arith in
          subst (λ c. is_register_arg c.arg ≡ true → read_reg moved (home c) ≡ want j)
            (sym (
              at_index j ∙ ap (λ b. if b then finish_copy (copy_at cps i) else copy_at cps j) here))
            (λ reg. done_home ∙ ap want e)
      | inr other ↦
          subst (λ c. is_register_arg c.arg ≡ true → read_reg moved (home c) ≡ want j)
            (sym (
              at_index j
              ∙ ap (λ b. if b then finish_copy (copy_at cps i) else copy_at cps j) other))
            (other_val j below other)
    ];
  }
