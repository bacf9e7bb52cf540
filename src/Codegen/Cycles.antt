-- ===== src/Codegen/Cycles.antt =====
-- The cycles of the parallel copy, in which every pending copy is blocked: the detour through t3.
use compilador.Prelude.{
  ℕ, zero, suc, ◌+◌, ◌<◌, ◌≤◌, ◌≡◌, ◌⊎◌, refl, ap, sym, subst, ◌∙◌, Bool, true, false, ◌&&◌, ◌||◌,
  List, [], ◌∷◌, ◌==◌, if◌then◌else◌, inl, inr, arith, Bool-cases, length, get_or,
}
use compilador.Ir.Types.{Value}
use compilador.Codegen.Machine.{read_reg, write}
use compilador.Codegen.Call.{
  ArgCopy, is_register_arg, is_pending, is_blocked, redirect, first_pending,
}
use compilador.Codegen.Parallel.{copy_at, home, AreHeld}
use compilador.Codegen.Drains.{pending_count, IsStuck}

abbrev redirected : ℕ → ArgCopy → ArgCopy
redirected r c = if is_pending c && c.src == r then record c { src = 7 } else c

redirect_at :
    (r : ℕ) (cps : List ArgCopy) (i : ℕ) → copy_at (redirect r cps) i ≡ redirected r (copy_at cps i)
redirect_at r [] i = refl
redirect_at r (c ∷ cps) zero = refl
redirect_at r (c ∷ cps) (suc i) = redirect_at r cps i

length-redirect : (r : ℕ) (cps : List ArgCopy) → length (redirect r cps) ≡ length cps
length-redirect r [] = refl
length-redirect r (c ∷ cps) = ap suc (length-redirect r cps)

pending_redirected : (r : ℕ) (c : ArgCopy) → is_pending (redirected r c) ≡ is_pending c
pending_redirected r c = elim (Bool-cases (is_pending c && c.src == r)) [
  | inl reads ↦ rw reads refl
  | inr other ↦ rw other refl
]

pub pending_count-redirect :
    (r : ℕ) (cps : List ArgCopy) → pending_count (redirect r cps) ≡ pending_count cps
pending_count-redirect r [] = refl
pending_count-redirect r (c ∷ cps) =
    ground (arith, pending_redirected r c, pending_count-redirect r cps)

abbrev pub AreStuck : List ArgCopy → Type 0
AreStuck cps = (l : ℕ) → l < length cps → IsStuck cps l

abbrev ArePlaced : List ArgCopy → Type 0
ArePlaced cps = (i : ℕ) → i < length cps → (copy_at cps i).dst ≡ 1 + i

-- Stuck copies read argument registers only.
pub stuck_sources :
    (cps : List ArgCopy)
    → length cps ≤ 3
    → ArePlaced cps
    → AreStuck cps
    → (i : ℕ) → i < length cps
    → is_pending (copy_at cps i) ≡ true
    → ((copy_at cps i).src == 7) ≡ false
unfolding is_blocked
stuck_sources [] le dsts stuck i lt p = absurd (omega arith)
stuck_sources (a ∷ []) le dsts stuck zero lt p = absurd (ground (arith, stuck 0))
stuck_sources (a ∷ []) le dsts stuck (suc i) lt p = absurd (omega arith)
stuck_sources (a ∷ b ∷ []) le dsts stuck zero lt p = ground (
  arith,
  dsts 0 (omega arith),
  dsts 1 (omega arith),
  stuck 0 (omega arith),
  stuck 1 (omega arith),
)
stuck_sources (a ∷ b ∷ []) le dsts stuck (suc zero) lt p = ground (
  arith,
  dsts 0 (omega arith),
  dsts 1 (omega arith),
  stuck 0 (omega arith),
  stuck 1 (omega arith),
)
stuck_sources (a ∷ b ∷ []) le dsts stuck (suc (suc i)) lt p = absurd (omega arith)
stuck_sources (a ∷ b ∷ c ∷ []) le dsts stuck zero lt p = ground (
  arith,
  dsts 0 (omega arith),
  dsts 1 (omega arith),
  dsts 2 (omega arith),
  stuck 0 (omega arith),
  stuck 1 (omega arith),
  stuck 2 (omega arith),
)
stuck_sources (a ∷ b ∷ c ∷ []) le dsts stuck (suc zero) lt p = ground (
  arith,
  dsts 0 (omega arith),
  dsts 1 (omega arith),
  dsts 2 (omega arith),
  stuck 0 (omega arith),
  stuck 1 (omega arith),
  stuck 2 (omega arith),
)
stuck_sources (a ∷ b ∷ c ∷ []) le dsts stuck (suc (suc zero)) lt p = ground (
  arith,
  dsts 0 (omega arith),
  dsts 1 (omega arith),
  dsts 2 (omega arith),
  stuck 0 (omega arith),
  stuck 1 (omega arith),
  stuck 2 (omega arith),
)
stuck_sources (a ∷ b ∷ c ∷ []) le dsts stuck (suc (suc (suc i))) lt p = absurd (omega arith)
stuck_sources (a ∷ b ∷ c ∷ d ∷ rest) le dsts stuck i lt p = absurd (omega arith)

redirected_dst : (r : ℕ) (c : ArgCopy) → (redirected r c).dst ≡ c.dst
redirected_dst r c = elim (Bool-cases (is_pending c && c.src == r)) [
  | inl reads ↦ rw reads refl
  | inr other ↦ rw other refl
]

redirected_arg : (r : ℕ) (c : ArgCopy) → (redirected r c).arg ≡ c.arg
redirected_arg r c = elim (Bool-cases (is_pending c && c.src == r)) [
  | inl reads ↦ rw reads refl
  | inr other ↦ rw other refl
]

redirected_src :
    (r : ℕ) (c : ArgCopy) → (redirected r c).src ≡ (if is_pending c && c.src == r then 7 else c.src)
redirected_src r c = elim (Bool-cases (is_pending c && c.src == r)) [
  | inl reads ↦ rw reads refl
  | inr other ↦ rw other refl
]

-- What the tests read of a list of two or three copies.
two_stuck :
    (a b : ArgCopy)
    → ArePlaced (a ∷ b ∷ [])
    → AreStuck (a ∷ b ∷ [])
    → ((is_pending a ≡ true → (is_pending b ≡ true) × (b.src ≡ 1))
        × (is_pending b ≡ true → (is_pending a ≡ true) × (a.src ≡ 2)))
unfolding is_blocked
two_stuck a b dsts stuck = ground (
  arith,
  dsts 0 (omega arith),
  dsts 1 (omega arith),
  stuck 0 (omega arith),
  stuck 1 (omega arith),
)

three_stuck :
    (a b c : ArgCopy)
    → ArePlaced (a ∷ b ∷ c ∷ [])
    → AreStuck (a ∷ b ∷ c ∷ [])
    → (is_pending a ≡ true
        → ((is_pending b ≡ true) × (b.src ≡ 1)) ⊎ ((is_pending c ≡ true) × (c.src ≡ 1)))
      × (is_pending b ≡ true
          → ((is_pending a ≡ true) × (a.src ≡ 2)) ⊎ ((is_pending c ≡ true) × (c.src ≡ 2)))
      × (is_pending c ≡ true
          → ((is_pending a ≡ true) × (a.src ≡ 3)) ⊎ ((is_pending b ≡ true) × (b.src ≡ 3)))
unfolding is_blocked
three_stuck a b c dsts stuck = ground (
  arith,
  dsts 0 (omega arith),
  dsts 1 (omega arith),
  dsts 2 (omega arith),
  stuck 0 (omega arith),
  stuck 1 (omega arith),
  stuck 2 (omega arith),
)

abbrev any_pending : List ArgCopy → Bool
any_pending [] = false
any_pending (c ∷ cps) = is_pending c || any_pending cps

some_pending :
    (cps : List ArgCopy) (r : ℕ) (rest : List ℕ)
    → first_pending cps ≡ r ∷ rest
    → any_pending cps ≡ true
some_pending [] r rest e = cc
some_pending (c ∷ cps) r rest e = elim (Bool-cases (is_pending c)) [
  | inl here ↦ ground arith
  | inr later ↦ rw later (
      some_pending cps r rest
        (ap (λ b. if b then c.src ∷ [] else first_pending cps) (sym later) ∙ e))
]

unstuck_two :
    (a b : ArgCopy) (r : ℕ)
    → ArePlaced (a ∷ b ∷ [])
    → AreStuck (a ∷ b ∷ [])
    → r ≡ get_or (first_pending (a ∷ b ∷ [])) 0 0
    → any_pending (a ∷ b ∷ []) ≡ true
    → AreStuck (redirect r (a ∷ b ∷ []))
    → ⊥
unstuck_two a b r dsts stuck e pending again =
    let old = two_stuck a b dsts stuck in
    let placed : ArePlaced (redirect r (a ∷ b ∷ [])) = λ i lt.
      ap (λ c. c.dst) (redirect_at r (a ∷ b ∷ []) i)
      ∙ redirected_dst r (copy_at (a ∷ b ∷ []) i)
      ∙ dsts i lt in
    let new = two_stuck (redirected r a) (redirected r b) placed again in
    ground (
      arith,
      pending_redirected r a,
      pending_redirected r b,
      redirected_src r a,
      redirected_src r b,
    )

unstuck_three :
    (a b c : ArgCopy) (r : ℕ)
    → ArePlaced (a ∷ b ∷ c ∷ [])
    → AreStuck (a ∷ b ∷ c ∷ [])
    → r ≡ get_or (first_pending (a ∷ b ∷ c ∷ [])) 0 0
    → any_pending (a ∷ b ∷ c ∷ []) ≡ true
    → AreStuck (redirect r (a ∷ b ∷ c ∷ []))
    → ⊥
unstuck_three a b c r dsts stuck e pending again =
    let old = three_stuck a b c dsts stuck in
    let placed : ArePlaced (redirect r (a ∷ b ∷ c ∷ [])) = λ i lt.
      ap (λ x. x.dst) (redirect_at r (a ∷ b ∷ c ∷ []) i)
      ∙ redirected_dst r (copy_at (a ∷ b ∷ c ∷ []) i)
      ∙ dsts i lt in
    let new = three_stuck (redirected r a) (redirected r b) (redirected r c) placed again in
    ground (
      arith,
      pending_redirected r a,
      pending_redirected r b,
      pending_redirected r c,
      redirected_src r a,
      redirected_src r b,
      redirected_src r c,
    )

-- Once the source of the first pending copy is in t3, a copy can be made.
pub unstuck :
    (cps : List ArgCopy) (r : ℕ) (rest : List ℕ)
    → length cps ≤ 3
    → ArePlaced cps
    → AreStuck cps
    → first_pending cps ≡ r ∷ rest
    → AreStuck (redirect r cps)
    → ⊥
unfolding is_blocked
unstuck [] r rest le dsts stuck e again = cc
unstuck (a ∷ []) r rest le dsts stuck e again =
    ground (arith, stuck 0 (omega arith), some_pending (a ∷ []) r rest e)
unstuck (a ∷ b ∷ []) r rest le dsts stuck e again =
    unstuck_two a b r dsts stuck (sym (ap (λ l. get_or l 0 0) e))
      (some_pending (a ∷ b ∷ []) r rest e) again
unstuck (a ∷ b ∷ c ∷ []) r rest le dsts stuck e again =
    unstuck_three a b c r dsts stuck (sym (ap (λ l. get_or l 0 0) e))
      (some_pending (a ∷ b ∷ c ∷ []) r rest e) again
unstuck (a ∷ b ∷ c ∷ d ∷ more) r rest le dsts stuck e again = absurd (omega arith)

-- The move to t3 keeps every value.
module _ (orig : ℕ → Value) (want : ℕ → ℕ) (n : ℕ) (regs : ℕ → ℕ) (cps : List ArgCopy) (r : ℕ)
    (le : n ≤ 3) (h : AreHeld orig want n regs cps) (stuck : AreStuck cps) where
  abbrev stashed : ℕ → ℕ
  stashed = write regs 7 (read_reg regs r)

  read_stashed : (k : ℕ) → (k == 7) ≡ false → read_reg stashed k ≡ read_reg regs k
  read_stashed k other = ground arith

  home_apart :
      (i : ℕ)
      → i < n
      → is_register_arg (copy_at cps i).arg ≡ true
      → (home (copy_at cps i) == 7) ≡ false
  home_apart i lt reg = elim (Bool-cases (copy_at cps i).done) [
    | inl finished ↦ rw finished (ground (arith, h.dsts i lt))
    | inr waits ↦ rw waits (
        stuck_sources cps (omega (arith, h.size)) (λ j below. h.dsts j (omega (arith, h.size)))
          stuck i (omega (arith, h.size)) (ground arith))
  ]

  redirected_val :
      (i : ℕ)
      → i < n
      → is_register_arg (redirected r (copy_at cps i)).arg ≡ true
      → read_reg stashed (home (redirected r (copy_at cps i))) ≡ want i
  redirected_val i lt = elim (Bool-cases (is_pending (copy_at cps i) && (copy_at cps i).src == r)) [
    | inl reads ↦ rw reads (λ reg.
        let waits : (copy_at cps i).done ≡ false = ground arith in
        let same : (copy_at cps i).src ≡ r = ground arith in
        rw waits (
          ap (read_reg regs) (sym same)
          ∙ ap (λ d. read_reg regs (if d then (copy_at cps i).dst else (copy_at cps i).src))
              (sym waits)
          ∙ h.vals i lt reg))
    | inr other ↦ rw other (λ reg. read_stashed _ (home_apart i lt reg) ∙ h.vals i lt reg)
  ]

  pub redirect-AreHeld : AreHeld orig want n stashed (redirect r cps)
  redirect-AreHeld = record {
    size = length-redirect r cps ∙ h.size;
    dsts = λ i lt.
        ap (λ c. c.dst) (redirect_at r cps i) ∙ redirected_dst r (copy_at cps i) ∙ h.dsts i lt;
    args = λ i lt.
        ap (λ c. c.arg) (redirect_at r cps i) ∙ redirected_arg r (copy_at cps i) ∙ h.args i lt;
    vals = λ i lt.
        subst (λ c. is_register_arg c.arg ≡ true → read_reg stashed (home c) ≡ want i)
          (sym (redirect_at r cps i)) (redirected_val i lt);
  }
