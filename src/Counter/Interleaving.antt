-- ===== src/Counter/Interleaving.antt =====
-- Calls of several threads on one counter, in the order in which they take effect.
use mathlib.Core.List.{Perm, Permᴰ}
use mathlib.Core.Logic.{∥∥₁_elim}
use mathlib.Core.HLevel.{hedberg}
use cppmetrics.Prelude.{
  ◌≡◌, refl, sym, ◌∙◌, ap, ap₂, List, [], ◌∷◌, ℤ, pos, ◌+ℤ◌, ◌-ℤ◌, All, arith, wrap_int64,
  residue64, IsInt64, wrap_int64_of, wrap_int64-+ℤ, int_laws, ℤ-discrete,
}
use cppmetrics.Counter.{
  Counter, increment, decrement, set_count, clear, Call, sets, increments, decrements, clears, step,
  run,
}

-- What a call adds to the count; the calls that set it add nothing.
abbrev pub delta : Call → ℤ
delta (increments n) = n
delta (decrements n) = pos 0 -ℤ n
delta _ = pos 0

-- The calls that only add.
abbrev pub Adds : Call → Type 0
Adds (increments n) = Unit
Adds (decrements n) = Unit
Adds _ = ⊥

abbrev pub total : List Call → ℤ
total [] = pos 0
total (x ∷ xs) = delta x +ℤ total xs

wrap_int64-IsInt64 : (z : ℤ) → IsInt64 (wrap_int64 z)
unfolding residue64
wrap_int64-IsInt64 z = record { above = ground arith; below = ground arith }

step-Adds : (c : Counter) (x : Call) → Adds x → (step c x).count ≡ wrap_int64 (c.count +ℤ delta x)
unfolding step increment decrement
step-Adds c (increments n) a = refl
step-Adds c (decrements n) a = ap wrap_int64 (omega int_laws)
step-Adds c (sets n) a = absurd a
step-Adds c clears a = absurd a

+ℤ_assoc : (a b c : ℤ) → a +ℤ b +ℤ c ≡ a +ℤ (b +ℤ c)
+ℤ_assoc a b c = omega int_laws

-- After calls that only add, in whatever order they took effect, the count is the start plus the
-- sum of what they add, wrapped to 64 bits.
pub run-total :
    (c : Counter) (xs : List Call)
    → IsInt64 c.count
    → All Adds xs
    → (run c xs).count ≡ wrap_int64 (c.count +ℤ total xs)
unfolding run
run-total c [] inside a = sym (wrap_int64_of c.count inside) ∙ ap wrap_int64 (omega int_laws)
run-total c (x ∷ xs) inside (a, adds) =
    let here = step-Adds c x a in
    let shifted = c.count +ℤ delta x in
    run-total (step c x) xs (rw here (wrap_int64-IsInt64 shifted)) adds
    ∙ ap (λ n. wrap_int64 (n +ℤ total xs)) here
    ∙ wrap_int64-+ℤ shifted (total xs)
    ∙ ap wrap_int64 (+ℤ_assoc c.count (delta x) (total xs))

-- The count without its bounds: calls that set it start afresh.
abbrev pub ideal : ℤ → List Call → ℤ
ideal z [] = z
ideal z (sets n ∷ xs) = ideal n xs
ideal z (clears ∷ xs) = ideal (pos 0) xs
ideal z (increments n ∷ xs) = ideal (z +ℤ n) xs
ideal z (decrements n ∷ xs) = ideal (z -ℤ n) xs

-- What a counter is set to is an `int64_t`.
abbrev pub SetsInt64 : Call → Type 0
SetsInt64 (sets n) = IsInt64 n
SetsInt64 _ = Unit

run-ideal_from :
    (c : Counter) (z : ℤ) (xs : List Call)
    → All SetsInt64 xs
    → c.count ≡ wrap_int64 z
    → (run c xs).count ≡ wrap_int64 (ideal z xs)
unfolding run step set_count increment decrement clear
run-ideal_from c z [] a e = e
run-ideal_from c z (sets n ∷ xs) (inside, a) e =
    run-ideal_from (step c (sets n)) n xs a (sym (wrap_int64_of n inside))
run-ideal_from c z (clears ∷ xs) (inside, a) e =
    run-ideal_from (step c clears) (pos 0) xs a
      (sym (wrap_int64_of (pos 0) (record { above = omega arith; below = omega arith })))
run-ideal_from c z (increments n ∷ xs) (inside, a) e =
    run-ideal_from (step c (increments n)) (z +ℤ n) xs a
      (ap (λ y. wrap_int64 (y +ℤ n)) e ∙ wrap_int64-+ℤ z n)
run-ideal_from c z (decrements n ∷ xs) (inside, a) e =
    let plus : (y : ℤ) → y -ℤ n ≡ y +ℤ (pos 0 -ℤ n) = λ y. omega int_laws in
    run-ideal_from (step c (decrements n)) (z -ℤ n) xs a (
      ap (λ y. wrap_int64 (y -ℤ n)) e
      ∙ ap wrap_int64 (plus (wrap_int64 z))
      ∙ wrap_int64-+ℤ z (pos 0 -ℤ n)
      ∙ sym (ap wrap_int64 (plus z)))

-- After any calls, in whatever order they took effect, the count is the last value that it was set to,
-- 0 after a clear, or the start where there was neither, plus what was added since and less what was
-- subtracted, wrapped to 64 bits once: no intermediate wrap shows.
pub run-ideal :
    (c : Counter) (xs : List Call)
    → IsInt64 c.count
    → All SetsInt64 xs
    → (run c xs).count ≡ wrap_int64 (ideal c.count xs)
run-ideal c xs inside a = run-ideal_from c c.count xs a (sym (wrap_int64_of c.count inside))

-- As long as the true sum fits 64 bits the count is exact.
pub run-exact :
    (c : Counter) (xs : List Call)
    → IsInt64 c.count
    → All Adds xs
    → IsInt64 (c.count +ℤ total xs)
    → (run c xs).count ≡ c.count +ℤ total xs
run-exact c xs inside adds fits =
    run-total c xs inside adds ∙ wrap_int64_of (c.count +ℤ total xs) fits

total-Permᴰ : {xs ys : List Call} → Permᴰ xs ys → total xs ≡ total ys
total-Permᴰ Permᴰ.nil = refl
total-Permᴰ (Permᴰ.cons e p) = ap₂ ◌+ℤ◌ (ap delta e) (total-Permᴰ p)
total-Permᴰ (Permᴰ.swap {a} {b} {l = l} e f) = rw (← e, ← f) (omega int_laws)
total-Permᴰ (Permᴰ.trans p q) = total-Permᴰ p ∙ total-Permᴰ q

-- Threads that only increment and decrement lose no update: two orders of the same calls leave the
-- counter the same.
pub run-perm :
    (c : Counter) {xs ys : List Call}
    → IsInt64 c.count
    → All Adds xs
    → All Adds ys
    → Perm xs ys
    → (run c xs).count ≡ (run c ys).count
run-perm c {xs} {ys} inside adds adds' p =
    run-total c xs inside adds
    ∙ ap (λ n. wrap_int64 (c.count +ℤ n))
        (∥∥₁_elim p (hedberg ℤ-discrete (total xs) (total ys)) total-Permᴰ)
    ∙ sym (run-total c ys inside adds')
