-- ===== src/Assembler/Symbols/Chains.antt =====
-- The table under insertion: its chains, its growth, and the new head of a chain.
use compilador.Prelude.{
  ℕ, zero, suc, ◌+◌, ◌%◌, ◌^◌, ◌≤◌, ◌<◌, ◌≡◌, refl, ◌∙◌, ap, subst, true, false, List, [], ◌∷◌,
  ◌++◌, none, some, arith, ◌==◌, ltb, leb, if◌then◌else◌, get_or, set, replicate, length,
  length-set, length-replicate, get_or-set, get_or-replicate, bytes_eq, Bool-cases, inl, inr,
  Returns,
}
use compilador.Prelude.Int.{ℤ}
use compilador.Assembler.Symbols.{
  SymbolEntry, SymbolTable, blank, entry_at, hash, hash_table_size, size_step, max_name_len,
  find_from, grow, insert_symbol,
}

-- The indices in use are below `next_free`, which is inside the array; links go down.
pub record IsTable (t : SymbolTable) : Type 0 where
  pub ready : t.ready ≡ true
  pub size : length t.entries ≡ t.tab_size
  pub width : length t.buckets ≡ hash_table_size
  pub first : 1 ≤ t.next_free
  pub room : t.next_free < t.tab_size
  pub heads : (h : ℕ) → get_or t.buckets h 0 < t.next_free
  pub links : (i : ℕ) → 1 ≤ i → i < t.next_free → (entry_at t i).link < i

pub find_from-fuel :
    (t : SymbolTable) (name : List ℕ)
    → IsTable t
    → (f f' index : ℕ) → index < f
    → index < f'
    → index < t.next_free
    → find_from f t name index ≡ find_from f' t name index
unfolding find_from
find_from-fuel t name z zero f' index l l' b = absurd (omega arith)
find_from-fuel t name z (suc f) zero index l l' b = absurd (omega arith)
find_from-fuel t name z (suc f) (suc f') index l l' b = elim (Bool-cases (index == 0)) [
  | inl none_left ↦ rw none_left refl
  | inr more ↦
      let down = z.links index (ground arith) b in
      ap
        (λ r.
          if index == 0
          then none
          else if bytes_eq (entry_at t index).name name
          then some index
          else r)
        (find_from-fuel t name z f f' (entry_at t index).link (omega arith) (omega arith)
          (omega arith))
]

pub find_from-agree :
    (t t' : SymbolTable) (name : List ℕ)
    → IsTable t
    → ((i : ℕ) → i < t.next_free → entry_at t' i ≡ entry_at t i)
    → (f index : ℕ) → index < t.next_free
    → find_from f t' name index ≡ find_from f t name index
unfolding find_from
find_from-agree t t' name z same zero index b = refl
find_from-agree t t' name z same (suc f) index b = elim (Bool-cases (index == 0)) [
  | inl none_left ↦ rw none_left refl
  | inr more ↦ rw (same index b) (
      ap
        (λ r.
          if index == 0
          then none
          else if bytes_eq (entry_at t index).name name
          then some index
          else r)
        (find_from-agree t t' name z same f (entry_at t index).link
          (omega (arith, z.links index (ground arith) b))))
]

get_or-blanks :
    (xs : List SymbolEntry) (k i : ℕ) → get_or (xs ++ replicate k blank) i blank ≡ get_or xs i blank
get_or-blanks [] k i = get_or-replicate k i blank
get_or-blanks (x ∷ xs) k zero = refl
get_or-blanks (x ∷ xs) k (suc i) = get_or-blanks xs k i

length-blanks : (xs : List SymbolEntry) (k : ℕ) → length (xs ++ replicate k blank) ≡ length xs + k
length-blanks [] k = omega (arith, length-replicate k blank)
length-blanks (x ∷ xs) k = omega (arith, length-blanks xs k)

-- After growth there is room for the next symbol, and nothing that was there is lost.
pub record IsGrown (t u : SymbolTable) : Type 0 where
  size : length u.entries ≡ u.tab_size
  room : u.next_free < u.tab_size
  keeps : (i : ℕ) → entry_at u i ≡ entry_at t i
  buckets : u.buckets ≡ t.buckets
  next : u.next_free ≡ t.next_free
  on : u.ready ≡ t.ready

grow-IsGrown :
    (t : SymbolTable)
    → length t.entries ≡ t.tab_size
    → t.next_free ≤ t.tab_size
    → t.tab_size + 61 < 2 ^ 16
    → IsGrown t (grow t)
unfolding grow
grow-IsGrown t len le wide = elim (Bool-cases (leb t.tab_size t.next_free)) [
  | inl full ↦ rw full (record {
    size = length-blanks t.entries size_step ∙ ground arith;
    room = ground arith;
    keeps = λ i. get_or-blanks t.entries size_step i;
    buckets = refl;
    next = refl;
    on = refl;
  })
  | inr free ↦ rw free (record {
    size = len;
    room = ground arith;
    keeps = λ i. refl;
    buckets = refl;
    next = refl;
    on = refl;
  })
]

-- After the insertion of a name: it heads its chain, and what was there is as it was.
pub record IsInserted (t : SymbolTable) (name : List ℕ) (u : SymbolTable) : Type 0 where
  pub table : IsTable u
  pub next : u.next_free ≡ t.next_free + 1
  pub keeps : (i : ℕ) → i < t.next_free → entry_at u i ≡ entry_at t i
  pub own_name : (entry_at u t.next_free).name ≡ name
  pub own_link : (entry_at u t.next_free).link ≡ get_or t.buckets (hash name) 0
  pub heads_eq :
      (h : ℕ)
      → get_or u.buckets h 0 ≡ (if hash name == h then t.next_free else get_or t.buckets h 0)

hash-below : (name : List ℕ) → hash name < hash_table_size
unfolding hash
hash-below name = ground arith

pub insert_symbol-IsInserted :
    (t : SymbolTable) (name : List ℕ)
    → IsTable t
    → length name < max_name_len
    → t.tab_size + 61 < 2 ^ 16
    → Returns (insert_symbol t name (hash name)) λ r. (r.0 ≡ t.next_free) × IsInserted t name r.1
unfolding insert_symbol
insert_symbol-IsInserted t name z fits wide =
    let moved : SymbolTable = record t { next_free = (t.next_free + 1) % 2 ^ 16 } in
    let count : (t.next_free + 1) % 2 ^ 16 ≡ t.next_free + 1 = ground (arith, z.room) in
    let g = grow-IsGrown moved z.size (omega (arith, count, z.room)) wide in
    let room = grow moved in
    let entry : SymbolEntry = record {
      name = name;
      value = ℤ.negsuc 0;
      link = get_or t.buckets (hash name) 0;
    } in
    let u : SymbolTable = record room {
      entries = set room.entries t.next_free entry;
      buckets = set room.buckets (hash name) t.next_free;
    } in
    let at = λ (i : ℕ).
      get_or-set room.entries t.next_free i entry blank
        (omega (arith, g.size, g.room, g.next, count)) in
    let fit : ltb (length name) max_name_len ≡ true = ground arith in
    let keeps : (i : ℕ) → i < t.next_free → entry_at u i ≡ entry_at t i = λ i lt.
      let other : (t.next_free == i) ≡ false = ground arith in at i ∙ rw other (g.keeps i) in
    let self : (t.next_free == t.next_free) ≡ true = ground arith in
    let own : entry_at u t.next_free ≡ entry = at t.next_free ∙ rw self refl in
    let heads_eq : (h : ℕ)
        → get_or u.buckets h 0 ≡ (if hash name == h then t.next_free else get_or t.buckets h 0) =
      λ h.
        get_or-set room.buckets (hash name) h t.next_free 0
          (omega (arith, ap length g.buckets, z.width, hash-below name))
        ∙ ap (λ b. if hash name == h then t.next_free else get_or b h 0) g.buckets in
    (
      (t.next_free, u),
      rw fit refl,
      (
        refl,
        record {
          table = record {
            ready = g.on ∙ z.ready;
            size = length-set room.entries t.next_free entry ∙ g.size;
            width = length-set room.buckets (hash name) t.next_free ∙ ap length g.buckets ∙ z.width;
            first = omega (arith, g.next, count);
            room = g.room;
            heads = λ h. ground (arith, heads_eq h, z.heads h, g.next, count);
            links = λ i le lt. elim (Bool-cases (t.next_free == i)) [
              | inl last ↦
                  let e : t.next_free ≡ i = ground arith in
                  let down = z.heads (hash name) in
                  subst (λ k. (entry_at u k).link < k) e
                    (omega (arith, ap (λ (e : SymbolEntry). e.link) own))
              | inr old ↦
                  let before : i < t.next_free = ground (arith, g.next, count) in
                  omega
                    (arith, z.links i le before, ap (λ (e : SymbolEntry). e.link) (keeps i before))
            ];
          };
          next = g.next ∙ count;
          keeps = keeps;
          own_name = ap (λ (e : SymbolEntry). e.name) own;
          own_link = ap (λ (e : SymbolEntry). e.link) own;
          heads_eq = heads_eq;
        },
      ),
    )
