-- ===== src/Regalloc/Coalesce/Safe.antt =====
-- Phase 1: the alias map and the colours that it leaves.
use compilador.Prelude.{
  ℕ, suc, ◌<◌, ◌≡◌, true, false, not, ◌&&◌, List, [], ◌∷◌, arith, ◌==◌, All, if_either,
}
use compilador.Interference.Matrix.{Ifg, Move}
use compilador.Interference.Graph.{interferes}
use compilador.Precolor.{Precolor, precolor_is_fixed}
use compilador.Regalloc.Neighbors.{get_alias, read_neighbors}
use compilador.Regalloc.Neighbors.Alias.{
  IsForest, is_root, get_alias-lt, get_alias-root, merged-IsForest,
}
use compilador.Regalloc.Coalesce.{Merged, george, merge, coalesce_ends, coalesce_step, coalesce}

-- Some number of merges led from the identity and the colours `color` to this state.
abbrev pub IsMerged : ℕ → List ℕ → Merged → Type 0
IsMerged n color st = (m : ℕ) × IsForest n m st.alias × (st.color ≡ color)

abbrev pub IsInside : ℕ → Move → Type 0
IsInside n m = (m.dst < n) × (m.src < n)

module _ (junk : ℕ → ℕ) (g : Ifg) (pc : Precolor) (n : ℕ) (color : List ℕ) where
  merge-IsMerged :
      (st : Merged) (a b : ℕ)
      → IsMerged n color st
      → a < n
      → b < n
      → is_root st.alias a ≡ true
      → is_root st.alias b ≡ true
      → (a == b) ≡ false
      → precolor_is_fixed pc b ≡ false
      → IsMerged n color (merge junk g pc n st a b)
  unfolding merge
  merge-IsMerged st a b (m, z, c) la lb ra rb ne free =
      if_either (IsMerged n color) (george g pc st.alias n a b (read_neighbors junk g b))
        (λ _. (suc m, merged-IsForest st.alias z a b la lb ra rb ne, rw free c)) (λ _. (m, z, c))

  coalesce_ends-IsMerged :
      (st : Merged) (a b : ℕ)
      → IsMerged n color st
      → a < n
      → b < n
      → is_root st.alias a ≡ true
      → is_root st.alias b ≡ true
      → IsMerged n color (coalesce_ends junk g pc n st a b)
  unfolding coalesce_ends
  coalesce_ends-IsMerged st a b z la lb ra rb =
      let P = IsMerged n color in
      if_either P (a == b) (λ _. z)
        (λ ne.
          if_either P (interferes g a b) (λ _. z)
            (λ _.
              if_either P (precolor_is_fixed pc a && precolor_is_fixed pc b) (λ _. z)
                (λ one.
                  if_either P (precolor_is_fixed pc b && not (precolor_is_fixed pc a))
                    (λ swap. merge-IsMerged st b a z lb la rb ra (ground arith) (ground arith))
                    (λ keep. merge-IsMerged st a b z la lb ra rb ne (ground arith)))))

  coalesce_step-IsMerged :
      (st : Merged) (m : Move)
      → IsInside n m
      → IsMerged n color st
      → IsMerged n color (coalesce_step junk g pc n st m)
  unfolding coalesce_step
  coalesce_step-IsMerged st m (ld, ls) (k, z, c) =
      coalesce_ends-IsMerged st (get_alias st.alias n m.dst) (get_alias st.alias n m.src) (k, z, c)
        (get_alias-lt st.alias z m.dst ld) (get_alias-lt st.alias z m.src ls)
        (get_alias-root st.alias z m.dst ld) (get_alias-root st.alias z m.src ls)

  -- For moves between registers of the function, the map that coalescing leaves is a forest, so that
  -- every chain ends, and no colour has changed.
  pub coalesce-IsMerged :
      (st : Merged) (ms : List Move)
      → All (IsInside n) ms
      → IsMerged n color st
      → IsMerged n color (coalesce junk g pc n st ms)
  unfolding coalesce
  coalesce-IsMerged st [] h z = z
  coalesce-IsMerged st (m ∷ ms) h z =
      coalesce-IsMerged (coalesce_step junk g pc n st m) ms h.1 (coalesce_step-IsMerged st m h.0 z)
