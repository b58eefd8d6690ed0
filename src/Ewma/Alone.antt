-- ===== src/Ewma/Alone.antt =====
-- Threads on one average of which at most one is in `tick`, and what that one still has to do.
use cppmetrics.Prelude.{
  ℕ, zero, suc, ◌≡◌, refl, ◌∙◌, ap, subst, true, Bool-cases, List, [], ◌∷◌, some, get_elem?, set,
  All, All-get_elem?, inl, inr, ◌⊎◌, if◌then◌else◌,
}
use cppmetrics.Double.{Double}
use cppmetrics.Ewma.{Ewma, update, tick, instant_rate}
use cppmetrics.Ewma.Threads.{Pc, idle, took, first, stored, running, swapping, Idle, new_rate}

idle_of : {W : Type 0} (p : Pc W) → Idle p → p ≡ idle
idle_of idle h = refl
idle_of (took rate) h = absurd h
idle_of (first rate) h = absurd h
idle_of stored h = absurd h
idle_of (running rate) h = absurd h
idle_of (swapping cur rate) h = absurd h

module _ {W : Type 0} where
  -- At most one thread is in `tick`.
  abbrev pub Lone : List (Pc W) → Type 0
  Lone [] = Unit
  Lone (p ∷ ps) = (Idle p × Lone ps) ⊎ All Idle ps

  -- No thread but the `i`th is.
  abbrev pub Others : List (Pc W) → ℕ → Type 0
  Others [] i = Unit
  Others (p ∷ ps) zero = All Idle ps
  Others (p ∷ ps) (suc i) = Idle p × Others ps i

  pub Others-Idle : (ps : List (Pc W)) (i : ℕ) → All Idle ps → Others ps i
  Others-Idle [] i h = tt
  Others-Idle (p ∷ ps) zero h = h.1
  Others-Idle (p ∷ ps) (suc i) h = (h.0, Others-Idle ps i (h.1))

  pub All-Idle-Lone : (ps : List (Pc W)) → All Idle ps → Lone ps
  All-Idle-Lone [] h = tt
  All-Idle-Lone (p ∷ ps) h = inr (h.1)

  pub Lone-Others :
      (ps : List (Pc W)) (i : ℕ) (p : Pc W)
      → Lone ps
      → get_elem? ps i ≡ some p
      → (Idle p → ⊥)
      → Others ps i
  Lone-Others [] i p l e busy = tt
  Lone-Others (x ∷ ps) zero p (inl (h, l)) e busy =
      let same : x ≡ p = cc in absurd (busy (subst Idle same h))
  Lone-Others (x ∷ ps) zero p (inr h) e busy = h
  Lone-Others (x ∷ ps) (suc i) p (inl (h, l)) e busy = (h, Lone-Others ps i p l e busy)
  Lone-Others (x ∷ ps) (suc i) p (inr h) e busy = absurd (busy (All-get_elem? Idle ps i h e))

  pub Others-set : (ps : List (Pc W)) (i : ℕ) (q : Pc W) → Others ps i → Others (set ps i q) i
  Others-set [] i q o = tt
  Others-set (p ∷ ps) zero q o = o
  Others-set (p ∷ ps) (suc i) q o = (o.0, Others-set ps i q (o.1))

  pub Others-Lone : (ps : List (Pc W)) (i : ℕ) → Others ps i → Lone ps
  Others-Lone [] i o = tt
  Others-Lone (p ∷ ps) zero o = inr o
  Others-Lone (p ∷ ps) (suc i) o = inl (o.0, Others-Lone ps i (o.1))

  All-Idle : (P : Pc W → Type 0) (ps : List (Pc W)) → P idle → All Idle ps → All P ps
  All-Idle P [] a h = tt
  All-Idle P (p ∷ ps) a h = (rw (idle_of p (h.0)) a, All-Idle P ps a (h.1))

  -- What holds of that thread and of idle ones holds of all.
  pub All-Others :
      (P : Pc W → Type 0) (ps : List (Pc W)) (i : ℕ) (q : Pc W)
      → Others ps i
      → P idle
      → P q
      → All P (set ps i q)
  All-Others P [] i q o a b = tt
  All-Others P (p ∷ ps) zero q o a b = (b, All-Idle P ps a o)
  All-Others P (p ∷ ps) (suc i) q o a b = (rw (idle_of p (o.0)) a, All-Others P ps i q (o.1) a b)

module _ {W : Type 0} ⦃d : Double W⦄ where
  -- The average once the thread has ended its `tick`.
  abbrev pub complete : Pc W → Ewma W → Ewma W
  complete idle x = x
  complete (took rate) x =
      if x.initialized
      then record x { ewma = new_rate x x.ewma rate }
      else record x { ewma = rate; initialized = true }
  complete (first rate) x = record x { ewma = rate; initialized = true }
  complete stored x = record x { initialized = true }
  complete (running rate) x = record x { ewma = new_rate x x.ewma rate }
  complete (swapping cur rate) x = record x { ewma = new_rate x cur rate }

  abbrev pub complete_all : List (Pc W) → Ewma W → Ewma W
  complete_all [] x = x
  complete_all (p ∷ ps) x = complete p (complete_all ps x)

  pub complete_all-Idle : (ps : List (Pc W)) (x : Ewma W) → All Idle ps → complete_all ps x ≡ x
  complete_all-Idle [] x h = refl
  complete_all-Idle (p ∷ ps) x h = rw (idle_of p (h.0), complete_all-Idle ps x (h.1))

  pub complete_all-Others :
      (ps : List (Pc W)) (i : ℕ) (p : Pc W) (x : Ewma W)
      → Others ps i
      → get_elem? ps i ≡ some p
      → complete_all ps x ≡ complete p x
  complete_all-Others [] i p x o e = cc
  complete_all-Others (y ∷ ps) zero p x o e =
      let same : y ≡ p = cc in rw (same, complete_all-Idle ps x o)
  complete_all-Others (y ∷ ps) (suc i) p x o e =
      rw (idle_of y (o.0), complete_all-Others ps i p x (o.1) e)

  complete-update :
      (p : Pc W) (x : Ewma W) (n : ℕ) → complete p (update x n) ≡ update (complete p x) n
  unfolding update
  complete-update idle x n = refl
  complete-update (took rate) x n = elim (Bool-cases x.initialized) [
    | inl on ↦ rw on
    | inr off ↦ rw off
  ]
  complete-update (first rate) x n = refl
  complete-update stored x n = refl
  complete-update (running rate) x n = refl
  complete-update (swapping cur rate) x n = refl

  pub complete_all-update :
      (ps : List (Pc W)) (x : Ewma W) (n : ℕ)
      → complete_all ps (update x n) ≡ update (complete_all ps x) n
  complete_all-update [] x n = refl
  complete_all-update (p ∷ ps) x n =
      ap (complete p) (complete_all-update ps x n) ∙ complete-update p (complete_all ps x) n

  -- The exchange is where a `tick` takes effect.
  pub complete-took :
      (x : Ewma W) → complete (took (instant_rate x)) (record x { uncounted = 0 }) ≡ tick x
  unfolding tick
  complete-took x = elim (Bool-cases x.initialized) [ inl on ↦ rw on | inr off ↦ rw off ]
