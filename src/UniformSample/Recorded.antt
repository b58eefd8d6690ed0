-- ===== src/UniformSample/Recorded.antt =====
-- What several threads in `update` of uniform_sample.cpp leave in the reservoir.
use cppmetrics.Prelude.{
  ℕ, zero, suc, ◌+◌, ◌-◌, ◌≤◌, ◌<◌, ◌≡◌, refl, sym, ap, ◌∙◌, ◌≢◌, List, [], ◌∷◌, ◌++◌, some, ℤ, pos,
  get_elem?, get_elem?-set, get_elem?-append, get_elem?-append_end, get_elem?-total, set, min,
  length, length-append, length-set, length-replicate, All, All-get_elem?, All-set, All-replicate,
  arith, ℕ_discrete, dec_lt, inl, inr, ◌⊎◌,
}
use cppmetrics.UniformSample.Threads.{
  Pc, idle, counted, System, start_system, Step, counts, fills, replaces, drops, breaks, broken,
  Reach, here, next, IsIdle,
}

-- Some call has the count and has not written yet.
abbrev Pending : System → ℕ → Type 0
Pending s count = (i : ℕ) × (value : ℤ) × (get_elem? s.threads i ≡ some (counted count value))

-- A thread's value is the one of its count.
abbrev IsKnown : List ℤ → Pc → Type 0
IsKnown given idle = Unit
IsKnown given (counted count value) = (0 < count) × (get_elem? given (count - 1) ≡ some value)
IsKnown given broken = Unit

record Inv (s : System) : Type 0 where
  sized : length s.given ≡ s.count
  known : All (IsKnown s.given) s.threads
  placed :
      (k : ℕ)
      → k < s.count
      → s.count ≤ length s.values
      → (get_elem? s.values k ≡ get_elem? s.given k) ⊎ Pending s (suc k)
  from_given :
      (k : ℕ)
      → k < s.count
      → k < length s.values
      → ((j : ℕ) × (j < s.count) × (get_elem? s.values k ≡ get_elem? s.given j)) ⊎ Pending s (suc k)

start-Inv : (size n : ℕ) → Inv (start_system size n)
start-Inv size n = record {
  sized = refl;
  known = All-replicate (IsKnown []) n idle tt;
  placed = λ k h. absurd (omega arith);
  from_given = λ k h. absurd (omega arith);
}

-- What is pending stays so when another thread goes on.
Pending-set :
    (ps : List Pc) (i c : ℕ) (p q : Pc)
    → get_elem? ps i ≡ some p
    → ((w : ℤ) → p ≢ counted c w)
    → (j : ℕ) × (w : ℤ) × (get_elem? ps j ≡ some (counted c w))
    → (j : ℕ) × (w : ℤ) × (get_elem? (set ps i q) j ≡ some (counted c w))
Pending-set ps i c p q at other (j, w, there) = elim (ℕ_discrete i j) [
  | yes same ↦
      let both : some p ≡ some (counted c w) = sym at ∙ ap (get_elem? ps) same ∙ there in
      let again : p ≡ counted c w = cc in absurd (other w again)
  | no apart ↦ (j, w, (get_elem?-set ps i j p q at).1 apart ∙ there)
]

get_elem?-within : (xs : List ℤ) (i : ℕ) (x : ℤ) → get_elem? xs i ≡ some x → i < length xs
get_elem?-within [] i x h = cc
get_elem?-within (y ∷ xs) zero x h = omega arith
get_elem?-within (y ∷ xs) (suc i) x h = omega (arith, get_elem?-within xs i x h)

get_elem?-grown : (xs ys : List ℤ) (i : ℕ) → i < length xs → get_elem? (xs ++ ys) i ≡ get_elem? xs i
get_elem?-grown xs ys i h =
    let (x, e) = get_elem?-total xs i h in get_elem?-append xs ys i x e ∙ sym e

-- A write into the values.
values-set :
    (xs : List ℤ) (i : ℕ) (v : ℤ)
    → i < length xs
    → (get_elem? (set xs i v) i ≡ some v)
      × ((k : ℕ) → i ≢ k → get_elem? (set xs i v) k ≡ get_elem? xs k)
values-set xs i v h =
    let (x, e) = get_elem?-total xs i h in
    ((get_elem?-set xs i i x v e).0 refl, λ k apart. (get_elem?-set xs i k x v e).1 apart)

IsKnown-append : (given : List ℤ) (v : ℤ) (p : Pc) → IsKnown given p → IsKnown (given ++ v ∷ []) p
IsKnown-append given v idle h = tt
IsKnown-append given v broken h = tt
IsKnown-append given v (counted c w) (h, e) = (h, get_elem?-append given (v ∷ []) (c - 1) w e)

All-IsKnown-append :
    (given : List ℤ) (v : ℤ) (ps : List Pc)
    → All (IsKnown given) ps
    → All (IsKnown (given ++ v ∷ [])) ps
All-IsKnown-append given v [] a = tt
All-IsKnown-append given v (p ∷ ps) (h, a) =
    (IsKnown-append given v p h, All-IsKnown-append given v ps a)

counts-Inv :
    (s : System) (i : ℕ) (v : ℤ)
    → get_elem? s.threads i ≡ some idle
    → Inv s
    → Inv (record s {
      count = s.count + 1;
      threads = set s.threads i (counted (s.count + 1) v);
      given = s.given ++ v ∷ [];
    })
counts-Inv s i v at n =
    let last : get_elem? (s.given ++ v ∷ []) s.count ≡ some v =
      ap (get_elem? (s.given ++ v ∷ [])) (sym n.sized) ∙ get_elem?-append_end s.given v in
    let new : get_elem? (set s.threads i (counted (s.count + 1) v)) i
        ≡ some (counted (s.count + 1) v) =
      (get_elem?-set s.threads i i idle (counted (s.count + 1) v) at).0 refl in
    let still =
      λ (k : ℕ). Pending-set s.threads i (suc k) idle (counted (s.count + 1) v) at (λ w. cc) in
    record {
      sized = omega (arith, n.sized, length-append s.given (v ∷ []));
      known =
          All-set (IsKnown (s.given ++ v ∷ [])) s.threads i (counted (s.count + 1) v)
            (All-IsKnown-append s.given v s.threads n.known)
            (omega arith, ap (get_elem? (s.given ++ v ∷ [])) (omega arith) ∙ last);
      placed = λ k h small. elim (dec_lt k s.count) [
        | yes old ↦ elim (n.placed k old (omega arith)) [
          | inl e ↦ inl (e ∙ sym (get_elem?-grown s.given (v ∷ []) k (omega (arith, n.sized))))
          | inr p ↦ inr (still k p)
        ]
        | no fresh ↦
            let same : s.count + 1 ≡ suc k = omega (arith, fresh) in
            inr (i, v, new ∙ ap (λ c. some (counted c v)) same)
      ];
      from_given = λ k h small. elim (dec_lt k s.count) [
        | yes old ↦ elim (n.from_given k old small) [
          | inl (j, lower, e) ↦ inl (
            j,
            omega arith,
            e ∙ sym (get_elem?-grown s.given (v ∷ []) j (omega (arith, n.sized))),
          )
          | inr p ↦ inr (still k p)
        ]
        | no fresh ↦
            let same : s.count + 1 ≡ suc k = omega (arith, fresh) in
            inr (i, v, new ∙ ap (λ c. some (counted c v)) same)
      ];
    }

-- A value written by a thread with its count, which then is outside again.
writes-Inv :
    (s : System) (i c rand : ℕ) (v : ℤ)
    → get_elem? s.threads i ≡ some (counted c v)
    → rand < length s.values
    → (c ≤ length s.values → c ≡ suc rand)
    → Inv s
    → Inv (record s { values = set s.values rand v; threads = set s.threads i idle })
writes-Inv s i c rand v at inside own n =
    let (nonzero, mine) = All-get_elem? (IsKnown s.given) s.threads i n.known at in
    let bound = get_elem?-within s.given (c - 1) v mine in
    let (self, others) = values-set s.values rand v inside in
    let still = λ (k : ℕ) (other : suc k ≢ c).
      Pending-set s.threads i (suc k) (counted c v) idle at
        (λ w e. let same : c ≡ suc k = cc in other (sym same)) in
    record {
      sized = n.sized;
      known = All-set (IsKnown s.given) s.threads i idle n.known tt;
      placed = λ k h small. elim (ℕ_discrete rand k) [
        | yes same ↦
            let fits : c ≤ length s.values =
              omega (arith, bound, n.sized, length-set s.values rand v) in
            let index : c - 1 ≡ k = omega (arith, own fits, same) in
            inl (
              ap (get_elem? (set s.values rand v)) (sym same)
              ∙ self
              ∙ sym mine
              ∙ ap (get_elem? s.given) index)
        | no apart ↦ elim (n.placed k h (omega (arith, length-set s.values rand v))) [
          | inl e ↦ inl (others k apart ∙ e)
          | inr p ↦ inr (
              still k
                (λ e.
                  let fits : c ≤ length s.values =
                    omega (arith, e, bound, n.sized, small, length-set s.values rand v) in
                  let there : rand ≡ k = omega (arith, own fits, e) in apart there)
                p)
        ]
      ];
      from_given = λ k h small. elim (ℕ_discrete rand k) [
        | yes same ↦ inl (
          c - 1,
          omega (arith, bound, n.sized),
          ap (get_elem? (set s.values rand v)) (sym same) ∙ self ∙ sym mine,
        )
        | no apart ↦ elim (n.from_given k h (omega (arith, length-set s.values rand v))) [
          | inl (j, lower, e) ↦ inl (j, lower, others k apart ∙ e)
          | inr p ↦ inr (
              still k
                (λ e.
                  let fits : c ≤ length s.values =
                    omega (arith, e, small, length-set s.values rand v) in
                  let there : rand ≡ k = omega (arith, own fits, e) in apart there)
                p)
        ]
      ];
    }

drops-Inv :
    (s : System) (i c : ℕ) (v : ℤ) (q : Pc)
    → IsKnown s.given q
    → get_elem? s.threads i ≡ some (counted c v)
    → length s.values < c
    → Inv s
    → Inv (record s { threads = set s.threads i q })
drops-Inv s i c v q safe at beyond n =
    let (nonzero, mine) = All-get_elem? (IsKnown s.given) s.threads i n.known at in
    let bound = get_elem?-within s.given (c - 1) v mine in
    let still = λ (k : ℕ) (other : suc k ≢ c).
      Pending-set s.threads i (suc k) (counted c v) q at
        (λ w e. let same : c ≡ suc k = cc in other (sym same)) in
    record {
      sized = n.sized;
      known = All-set (IsKnown s.given) s.threads i q n.known safe;
      placed = λ k h small. absurd (omega (arith, bound, n.sized, small, beyond));
      from_given = λ k h small. elim (n.from_given k h small) [
        | inl e ↦ inl e
        | inr p ↦ inr (still k (λ e. absurd (omega (arith, e, small, beyond))) p)
      ];
    }

Step-Inv : {s t : System} → Step s t → Inv s → Inv t
Step-Inv {s} (counts i v at small) n = counts-Inv s i v at n
Step-Inv {s} (fills i c v at fits) n =
    let (nonzero, mine) = All-get_elem? (IsKnown s.given) s.threads i n.known at in
    writes-Inv s i c (c - 1) v at (omega arith) (λ h. omega arith) n
Step-Inv {s} (replaces i c rand v at beyond drawn inside) n =
    writes-Inv s i c rand v at inside (λ h. absurd (omega arith)) n
Step-Inv {s} (drops i c rand v at beyond drawn outside) n = drops-Inv s i c v idle tt at beyond n
Step-Inv {s} (breaks i c v at beyond wrong) n = drops-Inv s i c v broken tt at beyond n

Reach-Inv : (size n : ℕ) {s : System} → Reach (start_system size n) s → Inv s
Reach-Inv size n here = start-Inv size n
Reach-Inv size n (next r st) = Step-Inv st (Reach-Inv size n r)

length-values : (size n : ℕ) {s : System} → Reach (start_system size n) s → length s.values ≡ size
length-values size n here = length-replicate size (pos 0)
length-values size n (next r (counts i v at small)) = length-values size n r
length-values size n (next {t} r (fills i c v at fits)) =
    length-set t.values (c - 1) v ∙ length-values size n r
length-values size n (next {t} r (replaces i c rand v at beyond drawn inside)) =
    length-set t.values rand v ∙ length-values size n r
length-values size n (next r (drops i c rand v at beyond drawn outside)) = length-values size n r
length-values size n (next r (breaks i c v at beyond wrong)) = length-values size n r

unpending : (s : System) (c : ℕ) → All IsIdle s.threads → Pending s c → ⊥
unpending s c a (i, v, at) = All-get_elem? IsIdle s.threads i a at

-- Any number of threads in `update`, in any interleaving, on a new sample: whenever no thread is
-- between its increment and its write, and none has run into undefined behaviour, which a full reservoir
-- brings from 2 ^ 31 values on, the count is the number of calls, every place of a snapshot has
-- the value of one of the calls, and as long as they fit the reservoir, the place has the value of
-- the call with its count.
pub Reach-recorded :
    (size n : ℕ) {s : System}
    → Reach (start_system size n) s
    → All IsIdle s.threads
    → (length s.given ≡ s.count)
      × ((k : ℕ)
          → k < min s.count size
          → (j : ℕ) × (j < s.count) × (get_elem? s.values k ≡ get_elem? s.given j))
      × (s.count ≤ size → (k : ℕ) → k < s.count → get_elem? s.values k ≡ get_elem? s.given k)
Reach-recorded size n {s} r quiet =
    let v = Reach-Inv size n r in
    let l = length-values size n r in
    (
      v.sized,
      λ k h. elim (v.from_given k (omega arith) (omega (arith, l))) [
        | inl e ↦ e
        | inr p ↦ absurd (unpending s (suc k) quiet p)
      ],
      λ fits k h. elim (v.placed k h (omega (arith, l))) [
        | inl e ↦ e
        | inr p ↦ absurd (unpending s (suc k) quiet p)
      ],
    )
