-- ===== src/Liveness/Dataflow/Queue.antt =====
-- The queue of the worklist loop and its marks.
use compilador.Prelude.{
  ℕ, ◌≤◌, ◌<◌, ◌≡◌, refl, ◌∙◌, ap, sym, Bool, true, false, ◌||◌, List, [], ◌∷◌, ◌++◌, arith, ◌==◌,
  get_or, set, length, length-set, get_or-set, elem, elem-append, Bool-cases, inl, inr, if_either,
}
use compilador.Prelude.Counting.{Distinct, Distinct-append, length-Distinct_le}
use compilador.Liveness.Dataflow.{Flow, enqueue, enqueue_all, start_queue}

-- The ids of the queue are below `nb`, without repetitions, and are the marked ones.
pub record IsQueue (nb : ℕ) (st : Flow) : Type 0 where
  pub marks : length st.in_wl ≡ nb
  pub inside : (x : ℕ) → elem x st.wl ≡ true → x < nb
  pub synced : (x : ℕ) → x < nb → get_or st.in_wl x true ≡ elem x st.wl
  pub distinct : Distinct st.wl

pub length-wl : (nb : ℕ) (st : Flow) → IsQueue nb st → length st.wl ≤ nb
length-wl nb st z = length-Distinct_le nb st.wl z.distinct z.inside

abbrev pub popped : Flow → ℕ → List ℕ → Flow
popped st id rest = record st { wl = rest; in_wl = set st.in_wl id false }

pub popped-IsQueue :
    (nb : ℕ) (st : Flow) (id : ℕ) (rest : List ℕ)
    → st.wl ≡ id ∷ rest
    → IsQueue nb st
    → IsQueue nb (popped st id rest)
popped-IsQueue nb st id rest e z =
    let d = rw e at z.distinct in
    record {
      marks = length-set st.in_wl id false ∙ z.marks;
      inside = λ x m. z.inside x (rw e (ground arith));
      synced = λ x lt.
          let old = z.synced x lt ∙ ap (elem x) e in
          let new =
            get_or-set st.in_wl id x false true
              (omega (arith, z.marks, z.inside id (rw e (ground arith)))) in
          elim (Bool-cases (id == x)) [
            | inl here ↦
                let same : id ≡ x = ground arith in
                let out : elem x rest ≡ false = ap (λ t. elem t rest) (sym same) ∙ d.0 in
                ground (arith, new, out)
            | inr other ↦ ground (arith, new, old)
          ];
      distinct = d.1;
    }

append_marked-IsQueue :
    (nb : ℕ) (st : Flow) (pid : ℕ)
    → pid < nb
    → elem pid st.wl ≡ false
    → IsQueue nb st
    → IsQueue nb (record st { wl = st.wl ++ pid ∷ []; in_wl = set st.in_wl pid true })
append_marked-IsQueue nb st pid lt new z = record {
  marks = length-set st.in_wl pid true ∙ z.marks;
  inside = λ x m. elim (Bool-cases (x == pid)) [
    | inl here ↦ ground arith
    | inr other ↦ z.inside x (ground (arith, elem-append x st.wl (pid ∷ [])))
  ];
  synced = λ x l. ground (
    arith,
    get_or-set st.in_wl pid x true true (omega (arith, z.marks)),
    z.synced x l,
    elem-append x st.wl (pid ∷ []),
  );
  distinct = Distinct-append st.wl pid z.distinct new;
}

-- Only the queue changes, and it gains the ids of the list.
pub record IsQueued (nb : ℕ) (ps : List ℕ) (st next : Flow) : Type 0 where
  pub queue : IsQueue nb next
  pub ins : next.live_in ≡ st.live_in
  pub outs : next.live_out ≡ st.live_out
  pub gained : (x : ℕ) → elem x next.wl ≡ (elem x st.wl || elem x ps)

enqueue-IsQueued :
    (nb : ℕ) (st : Flow) (p : ℕ) → p < nb → IsQueue nb st → IsQueued nb (p ∷ []) st (enqueue st p)
unfolding enqueue
enqueue-IsQueued nb st p lt z =
    if_either (IsQueued nb (p ∷ []) st) (get_or st.in_wl p true)
      (λ old. record {
        queue = z;
        ins = refl;
        outs = refl;
        gained = λ x. elim (Bool-cases (x == p)) [
          | inl here ↦
              let e : x ≡ p = ground arith in
              ap (λ t. elem t st.wl) e ∙ sym (z.synced p lt) ∙ old ∙ ground arith
          | inr other ↦ ground arith
        ];
      })
      (λ new. record {
        queue = append_marked-IsQueue nb st p lt (sym (z.synced p lt) ∙ new) z;
        ins = refl;
        outs = refl;
        gained = λ x. elem-append x st.wl (p ∷ []);
      })

pub enqueue_all-IsQueued :
    (nb : ℕ) (st : Flow) (ps : List ℕ)
    → ((x : ℕ) → elem x ps ≡ true → x < nb)
    → IsQueue nb st
    → IsQueued nb ps st (enqueue_all st ps)
unfolding enqueue_all
enqueue_all-IsQueued nb st [] inside z = record {
  queue = z;
  ins = refl;
  outs = refl;
  gained = λ x. ground arith;
}
enqueue_all-IsQueued nb st (p ∷ ps) inside z =
    let one = enqueue-IsQueued nb st p (inside p (ground arith)) z in
    let all =
      enqueue_all-IsQueued nb (enqueue st p) ps (λ x m. inside x (ground arith)) one.queue in
    record {
      queue = all.queue;
      ins = all.ins ∙ one.ins;
      outs = all.outs ∙ one.outs;
      gained = λ x. ground (arith, all.gained x, one.gained x);
    }

pub start_queue-IsQueued :
    (nb : ℕ) (st : Flow) (ids : List ℕ)
    → ((x : ℕ) → elem x ids ≡ true → (x < nb) × (elem x st.wl ≡ false))
    → Distinct ids
    → IsQueue nb st
    → IsQueued nb ids st (start_queue st ids)
unfolding start_queue
start_queue-IsQueued nb st [] inside d z = record {
  queue = z;
  ins = refl;
  outs = refl;
  gained = λ x. ground arith;
}
start_queue-IsQueued nb st (p ∷ ps) inside d z =
    let (lt, new) = inside p (ground arith) in
    let next : Flow = record st { wl = st.wl ++ p ∷ []; in_wl = set st.in_wl p true } in
    let all =
      start_queue-IsQueued nb next ps
        (λ x m.
          let (l, f) = inside x (ground arith) in
          (l, elem-append x st.wl (p ∷ []) ∙ not_again x p ps m d.0 f))
        d.1 (append_marked-IsQueue nb st p lt new z) in
    record {
      queue = all.queue;
      ins = all.ins;
      outs = all.outs;
      gained = λ x. ground (arith, all.gained x, elem-append x st.wl (p ∷ []));
    }
  where
    not_again :
        (x p : ℕ) (ps : List ℕ) {b : Bool}
        → elem x ps ≡ true
        → elem p ps ≡ false
        → b ≡ false
        → (b || elem x (p ∷ [])) ≡ false
    not_again x p ps m new f = elim (Bool-cases (x == p)) [
      | inl here ↦ let e : x ≡ p = ground arith in let m' : elem p ps ≡ true = rw e at m in cc
      | inr other ↦ ground arith
    ]
