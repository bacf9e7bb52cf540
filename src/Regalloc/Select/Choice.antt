-- ===== src/Regalloc/Select/Choice.antt =====
-- What the mask of forbidden registers means, and which register is chosen.
use compilador.Prelude.{
  ℕ, ◌^◌, ◌≡◌, ◌⊎◌, refl, ◌∙◌, ap, true, false, not, ◌||◌, List, [], ◌∷◌, arith, ◌==◌, ==_iff,
  get_or, bit_and, Bool-cases, if_either, inl, inr, elem,
}
use compilador.Prelude.Bits.{bit, bit-bit_or, bit-pow, mask_test}
use compilador.Interference.Matrix.{Ifg}
use compilador.Precolor.{phys_none}
use compilador.Regalloc.Neighbors.{get_alias, read_neighbors}
use compilador.Regalloc.Select.{
  spill_color, is_register, forbid, forbid_merged, forbidden_of, first_free,
}

-- The colour of the representative of a neighbour.
abbrev pub color_of : List ℕ → List ℕ → ℕ → ℕ → ℕ
color_of color alias n t = get_or color (get_alias alias n t) phys_none

-- A bit that is set stays set.
bit-forbid_keep :
    (color alias : List ℕ) (n c : ℕ) (nbs : List ℕ) (mask : ℕ)
    → bit mask c ≡ true
    → bit (forbid color alias n nbs mask) c ≡ true
unfolding forbid
bit-forbid_keep color alias n c [] mask h = h
bit-forbid_keep color alias n c (nb ∷ nbs) mask h =
    bit-forbid_keep color alias n c nbs _
      (elim (Bool-cases (is_register (color_of color alias n nb))) [
        | inl yes_reg ↦ rw (yes_reg, bit-bit_or mask (2 ^ color_of color alias n nb) c, h) refl
        | inr no_reg ↦ rw no_reg h
      ])

-- The colour of each neighbour is forbidden.
bit-forbid :
    (color alias : List ℕ) (n t : ℕ) (nbs : List ℕ) (mask : ℕ)
    → elem t nbs ≡ true
    → is_register (color_of color alias n t) ≡ true
    → bit (forbid color alias n nbs mask) (color_of color alias n t) ≡ true
unfolding forbid
bit-forbid color alias n t [] mask m r = cc
bit-forbid color alias n t (nb ∷ nbs) mask m r = elim (Bool-cases (t == nb)) [
  | inr later ↦ bit-forbid color alias n t nbs _ (ground arith) r
  | inl here ↦
      let e : nb ≡ t = ground arith in
      rw e (
        bit-forbid_keep color alias n (color_of color alias n t) nbs _ (
          rw (r, bit-bit_or, bit-pow, (==_iff (color_of color alias n t) _).1 refl) (ground arith)))
]

module _ (junk : ℕ → ℕ) (g : Ifg) (color alias : List ℕ) (n v : ℕ) where
  bit-forbid_merged_keep :
      (c : ℕ) (us : List ℕ) (mask : ℕ)
      → bit mask c ≡ true
      → bit (forbid_merged junk g color alias n v us mask) c ≡ true
  unfolding forbid_merged
  bit-forbid_merged_keep c [] mask h = h
  bit-forbid_merged_keep c (u ∷ us) mask h = bit-forbid_merged_keep c us _ (
      if_either (λ m. bit m c ≡ true) (u == v || not (get_alias alias n u == v)) (λ _. h)
        (λ _. bit-forbid_keep color alias n c (read_neighbors junk g u) mask h))

  bit-forbid_merged :
      (u t : ℕ) (us : List ℕ) (mask : ℕ)
      → elem u us ≡ true
      → (u == v) ≡ false
      → (get_alias alias n u == v) ≡ true
      → elem t (read_neighbors junk g u) ≡ true
      → is_register (color_of color alias n t) ≡ true
      → bit (forbid_merged junk g color alias n v us mask) (color_of color alias n t) ≡ true
  unfolding forbid_merged
  bit-forbid_merged u t [] mask m ne rep nb r = cc
  bit-forbid_merged u t (w ∷ us) mask m ne rep nb r = elim (Bool-cases (u == w)) [
    | inr later ↦ bit-forbid_merged u t us _ (ground arith) ne rep nb r
    | inl here ↦
        let e : w ≡ u = ground arith in
        rw e (
          bit-forbid_merged_keep (color_of color alias n t) us _
            (rw (ne, rep) (bit-forbid color alias n t (read_neighbors junk g u) mask nb r)))
  ]

  -- The colour of each neighbour of each node of the class of `v` is forbidden.
  pub bit-forbidden_of :
      (ids : List ℕ) (u t : ℕ)
      → elem u ids ≡ true
      → get_alias alias n u ≡ v
      → elem t (read_neighbors junk g u) ≡ true
      → is_register (color_of color alias n t) ≡ true
      → bit (forbidden_of junk g color alias n ids v) (color_of color alias n t) ≡ true
  unfolding forbidden_of
  bit-forbidden_of ids u t m rep nb r = elim (Bool-cases (u == v)) [
    | inl self ↦
        let e : v ≡ u = ground arith in
        bit-forbid_merged_keep (color_of color alias n t) ids _
          (rw e (bit-forbid color alias n t (read_neighbors junk g u) 0 nb r))
    | inr other ↦ bit-forbid_merged u t ids _ m other ((==_iff _ _).1 rep) nb r
  ]

-- What a choice among `prefs` may be.
abbrev pub IsChoice : ℕ → List ℕ → ℕ → Type 0
IsChoice mask prefs c =
    ((elem c prefs ≡ true) × (bit mask c ≡ false))
    ⊎ (c ≡ spill_color) × ((d : ℕ) → elem d prefs ≡ true → bit mask d ≡ true)

later-IsChoice :
    (mask c r : ℕ) (cs : List ℕ) → bit mask c ≡ true → IsChoice mask cs r → IsChoice mask (c ∷ cs) r
later-IsChoice mask c r cs b (inl (m, free)) = inl (ground arith, free)
later-IsChoice mask c r cs b (inr (s, all)) = inr (
  s,
  λ d m. elim (Bool-cases (d == c)) [
    | inl here ↦ let e : d ≡ c = ground arith in ap (bit mask) e ∙ b
    | inr later ↦ all d (ground arith)
  ],
)

-- The choice is a register of the list that is not forbidden, or there is no such register.
pub first_free-cases : (mask : ℕ) (prefs : List ℕ) → IsChoice mask prefs (first_free mask prefs)
unfolding first_free
first_free-cases mask [] = inr (refl, λ c m. cc)
first_free-cases mask (c ∷ cs) =
    if_either (IsChoice mask (c ∷ cs)) (bit_and mask (2 ^ c) == 0)
      (λ free. inl (ground arith, ground (arith, mask_test mask c)))
      (λ taken.
        later-IsChoice mask c (first_free mask cs) cs (ground (arith, mask_test mask c))
          (first_free-cases mask cs))
