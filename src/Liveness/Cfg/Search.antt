-- ===== src/Liveness/Cfg/Search.antt =====
-- The depth-first search and the reverse postorder.
use mathlib.Core.List.{reverse}
use compilador.Prelude.{
  ℕ, zero, suc, ◌≤◌, ◌<◌, ◌≡◌, refl, ◌∙◌, ap, sym, Bool, true, false, not, ◌&&◌, ◌||◌, List, [],
  ◌∷◌, ◌++◌, arith, ltb, ◌==◌, get_or, set, replicate, length, length-set, length-replicate,
  get_or-set, get_or-replicate_at, elem, elem-append, Bool-cases, inl, inr, count_below,
}
use compilador.Prelude.Counting.{
  count_below-le_bound, count_below_mono, count_below_eq, Distinct, Distinct-append, elem-reverse,
  Distinct-reverse,
}
use compilador.Liveness.Cfg.{CfgNode, Dfs, succs_at, visit_all, dfs_postorder, rpo_of}

abbrev pub seen : Dfs → ℕ → Bool
seen st x = get_or st.visited x true

abbrev unseen : ℕ → Dfs → ℕ
unseen nb st = count_below nb (λ x. not (seen st x))

abbrev mark : Dfs → ℕ → Dfs
mark st id = record st { visited = set st.visited id true }

-- What is in the postorder is marked, once.
record IsSearch (nb : ℕ) (st : Dfs) : Type 0 where
  size : length st.visited ≡ nb
  marked : (x : ℕ) → elem x st.post ≡ true → seen st x ≡ true
  distinct : Distinct st.post

-- A search from the ids `from` ends with them marked, and with the successors of what it marked.
record IsVisit (nb : ℕ) (cfg : List CfgNode) (from : List ℕ) (st end : Dfs) : Type 0 where
  search : IsSearch nb end
  keeps : (x : ℕ) → seen st x ≡ true → seen end x ≡ true
  starts : (x : ℕ) → elem x from ≡ true → seen end x ≡ true
  posts : (x : ℕ) → elem x end.post ≡ (elem x st.post || (seen end x && not (seen st x)))
  closed :
      (x s : ℕ)
      → seen st x ≡ false
      → seen end x ≡ true
      → elem s (succs_at cfg x) ≡ true
      → seen end s ≡ true

unseen_mono :
    (nb : ℕ) (a b : Dfs) → ((x : ℕ) → seen a x ≡ true → seen b x ≡ true) → unseen nb b ≤ unseen nb a
unseen_mono nb a b h =
    count_below_mono nb (λ x. not (seen b x)) (λ x. not (seen a x)) (λ x n. ground (arith, h x))

unseen_below : (xs : List Bool) (x : ℕ) → get_or xs x true ≡ false → x < length xs
unseen_below [] x h = absurd cc
unseen_below (b ∷ xs) zero h = omega arith
unseen_below (b ∷ xs) (suc x) h = ground (arith, unseen_below xs x h)

seen-mark :
    (st : Dfs) (id x : ℕ) → seen st id ≡ false → seen (mark st id) x ≡ (id == x || seen st x)
seen-mark st id x new =
    get_or-set st.visited id x true true (unseen_below st.visited id new)
    ∙ elim (Bool-cases (id == x)) [ inl here ↦ rw here refl | inr other ↦ rw other refl ]

-- One more mark leaves fewer to visit.
unseen-mark :
    (nb : ℕ) (st : Dfs) (id : ℕ)
    → length st.visited ≡ nb
    → seen st id ≡ false
    → unseen nb (mark st id) < unseen nb st
unseen-mark nb st id len new = elim (Bool-cases (ltb (unseen nb (mark st id)) (unseen nb st))) [
  | inl less ↦ ground arith
  | inr more ↦
      let same =
        count_below_eq nb (λ x. not (seen (mark st id) x)) (λ x. not (seen st x))
          (λ x n. ground (arith, seen-mark st id x new)) (ground arith) id
          (ground (arith, unseen_below st.visited id new)) in
      absurd (ground (arith, seen-mark st id id new))
]

visits-none : (nb : ℕ) (cfg : List CfgNode) (st : Dfs) → IsSearch nb st → IsVisit nb cfg [] st st
visits-none nb cfg st z = record {
  search = z;
  keeps = λ x h. h;
  starts = λ x h. absurd cc;
  posts = λ x. ground arith;
  closed = λ x s new old. absurd cc;
}

visits-join :
    {nb : ℕ} {cfg : List CfgNode} (s : ℕ) (ss : List ℕ) (st mid end : Dfs)
    → IsVisit nb cfg (s ∷ []) st mid
    → IsVisit nb cfg ss mid end
    → IsVisit nb cfg (s ∷ ss) st end
visits-join s ss st mid end one rest = record {
  search = rest.search;
  keeps = λ x h. rest.keeps x (one.keeps x h);
  starts = λ x h. ground (arith, one.starts x, rest.starts x, rest.keeps x);
  posts = λ x. ground (arith, one.posts x, rest.posts x, one.keeps x, rest.keeps x);
  closed = λ x t new old edge. elim (Bool-cases (seen mid x)) [
    | inl by_mid ↦ rest.keeps t (one.closed x t new by_mid edge)
    | inr later ↦ rest.closed x t later old edge
  ];
}

visit_all-IsVisit :
    (nb : ℕ) (cfg : List CfgNode) (fuel : ℕ) (go : ℕ → Dfs → Dfs)
    → ((id : ℕ) (st : Dfs)
        → IsSearch nb st
        → unseen nb st ≤ fuel
        → IsVisit nb cfg (id ∷ []) st (go id st))
    → (ss : List ℕ) (st : Dfs) → IsSearch nb st
    → unseen nb st ≤ fuel
    → IsVisit nb cfg ss st (visit_all go ss st)
unfolding visit_all
visit_all-IsVisit nb cfg fuel go step [] st z le = visits-none nb cfg st z
visit_all-IsVisit nb cfg fuel go step (s ∷ ss) st z le =
    let one = step s st z le in
    let rest =
      visit_all-IsVisit nb cfg fuel go step ss (go s st) one.search
        (omega (arith, unseen_mono nb st (go s st) one.keeps)) in
    visits-join s ss st (go s st) (visit_all go ss (go s st)) one rest

-- A marked id is left alone.
IsVisit-seen :
    (nb : ℕ) (cfg : List CfgNode) (id : ℕ) (st : Dfs)
    → IsSearch nb st
    → seen st id ≡ true
    → IsVisit nb cfg (id ∷ []) st st
IsVisit-seen nb cfg id st z old =
    let none_new = visits-none nb cfg st z in
    record {
      search = z;
      keeps = none_new.keeps;
      starts = λ x h. let e : x ≡ id = ground arith in ap (seen st) e ∙ old;
      posts = none_new.posts;
      closed = none_new.closed;
    }

mark-IsSearch :
    (nb : ℕ) (st : Dfs) (id : ℕ) → IsSearch nb st → seen st id ≡ false → IsSearch nb (mark st id)
mark-IsSearch nb st id z new = record {
  size = length-set st.visited id true ∙ z.size;
  marked = λ x h. ground (arith, seen-mark st id x new, z.marked x);
  distinct = z.distinct;
}

-- The id joins the postorder after everything that its successors reach.
IsVisit-new :
    (nb : ℕ) (cfg : List CfgNode) (id : ℕ) (st inner : Dfs)
    → IsSearch nb st
    → seen st id ≡ false
    → IsVisit nb cfg (succs_at cfg id) (mark st id) inner
    → IsVisit nb cfg (id ∷ []) st (record inner { post = inner.post ++ id ∷ [] })
IsVisit-new nb cfg id st inner z new v =
    let at = λ (x : ℕ). seen-mark st id x new in
    let own : seen inner id ≡ true = v.keeps id (ground (arith, at id)) in
    let posted : elem id inner.post ≡ false = ground (arith, v.posts id, at id, z.marked id) in
    let added = λ (x : ℕ). elem-append x inner.post (id ∷ []) in
    record {
      search = record {
        size = v.search.size;
        marked = λ x h. elim (Bool-cases (x == id)) [
          | inl here ↦ let e : x ≡ id = ground arith in ap (seen inner) e ∙ own
          | inr other ↦ v.search.marked x (ground (arith, added x))
        ];
        distinct = Distinct-append inner.post id v.search.distinct posted;
      };
      keeps = λ x h. v.keeps x (ground (arith, at x));
      starts = λ x h. let e : x ≡ id = ground arith in ap (seen inner) e ∙ own;
      posts = λ x. added x ∙ elim (Bool-cases (x == id)) [
        | inl here ↦
            let e : x ≡ id = ground arith in ground (arith, ap (seen inner) e, ap (seen st) e)
        | inr other ↦ ground (arith, v.posts x, at x)
      ];
      closed = λ x s fresh old edge. elim (Bool-cases (x == id)) [
        | inl here ↦
            let e : x ≡ id = ground arith in
            v.starts s (sym (ap (λ t. elem s (succs_at cfg t)) e) ∙ edge)
        | inr other ↦ v.closed x s (ground (arith, at x)) old edge
      ];
    }

-- With as much fuel as there are ids left, the search visits all it reaches.
dfs_postorder-IsVisit :
    (nb : ℕ) (cfg : List CfgNode) (fuel id : ℕ) (st : Dfs)
    → IsSearch nb st
    → unseen nb st ≤ fuel
    → IsVisit nb cfg (id ∷ []) st (dfs_postorder fuel cfg id st)
unfolding dfs_postorder
dfs_postorder-IsVisit nb cfg zero id st z le = elim (Bool-cases (seen st id)) [
  | inl old ↦ IsVisit-seen nb cfg id st z old
  | inr new ↦ absurd (omega (arith, unseen-mark nb st id z.size new))
]
dfs_postorder-IsVisit nb cfg (suc fuel) id st z le = elim (Bool-cases (seen st id)) [
  | inl old ↦ rw old (IsVisit-seen nb cfg id st z old)
  | inr new ↦ rw new (
      IsVisit-new nb cfg id st _ z new (
        visit_all-IsVisit nb cfg fuel (dfs_postorder fuel cfg) (dfs_postorder-IsVisit nb cfg fuel)
          (succs_at cfg id) (mark st id) (mark-IsSearch nb st id z new)
          (omega (arith, unseen-mark nb st id z.size new))))
]

-- The ids hold the entry, each once, and each with its successors.
pub record IsOrder (nb : ℕ) (cfg : List CfgNode) (entry : ℕ) (rpo : List ℕ) : Type 0 where
  pub has_entry : elem entry rpo ≡ true
  pub inside : (x : ℕ) → elem x rpo ≡ true → x < nb
  pub distinct : Distinct rpo
  pub has_succs :
      (x s : ℕ) → elem x rpo ≡ true → elem s (succs_at cfg x) ≡ true → s < nb → elem s rpo ≡ true

-- The reverse postorder from an entry below `nb`: it holds the entry and the successors below `nb`
-- of what it holds, each id once and only ids below `nb`. The search has fuel `nb`.
pub rpo_of-IsOrder :
    (nb : ℕ) (cfg : List CfgNode) (entry : ℕ)
    → entry < nb
    → IsOrder nb cfg entry (rpo_of nb cfg entry)
unfolding rpo_of
rpo_of-IsOrder nb cfg entry lt =
    let start : Dfs = record { visited = replicate nb false; post = [] } in
    let clear = λ (x : ℕ) (l : x < nb). get_or-replicate_at nb x false true l in
    let z : IsSearch nb start = record {
      size = length-replicate nb false;
      marked = λ x h. absurd cc;
      distinct = tt;
    } in
    let end = dfs_postorder nb cfg entry start in
    let v =
      dfs_postorder-IsVisit nb cfg nb entry start z
        (count_below-le_bound nb (λ x. not (seen start x))) in
    let elems = λ (x : ℕ). elem-reverse x end.post ∙ v.posts x in
    let new : (x : ℕ) → elem x (reverse end.post) ≡ true → seen start x ≡ false =
      λ x m. ground (arith, elems x) in
    record {
      has_entry = ground (arith, elems entry, v.starts entry, clear entry lt);
      inside = λ x m. omega (arith, unseen_below start.visited x (new x m), z.size);
      distinct = Distinct-reverse end.post v.search.distinct;
      has_succs = λ x s m edge ls.
          ground
            (arith, elems s, clear s ls, v.closed x s (new x m) (ground (arith, elems x)) edge);
    }
