-- ===== src/Timer/Contexts.antt =====
-- The life of a context, in timer_context.cpp.
use cppmetrics.Prelude.{ℕ, ◌≡◌, refl, Bool, true, false, List, [], ◌∷◌, ℤ, ◌-ℤ◌}
use cppmetrics.Outcome.{Outcome, returns, throws, undefined, unfinished, ◌>>=◌}
use cppmetrics.Double.{Double}
use cppmetrics.Random.{Rng}
use cppmetrics.Timer.{Timer, TimerContext, update, stop, destroy, timer_context, reset}

-- What a program does with a context until it goes out of scope: it stops or resets it, at times.
pub data Use : Type 0 where
  stops : ℤ → Use
  resets : ℤ → Use

-- A call whose result is wrapped before it goes on.
bind_wrapped :
    {A B C : Type 0} (o : Outcome A) (k : A → B) (f : B → Outcome C) (h : A → Outcome C)
    → ((a : A) → f (k a) ≡ h a)
    → (o >>= (λ a. returns (k a)) >>= f) ≡ (o >>= h)
bind_wrapped (returns a) k f h e = e a
bind_wrapped (throws x) k f h e = refl
bind_wrapped undefined k f h e = refl
bind_wrapped unfinished k f h e = refl

module _ {R W : Type 0} ⦃d : Double W⦄ (g : Rng R W) where
  unfoldable pub live : ℕ → TimerContext → Timer R W → List Use → ℤ → Outcome (Timer R W)
  unfolding stop reset destroy
  live fuel c t [] end = destroy g fuel c t end
  live fuel c t (stops now ∷ uses) end =
      stop g fuel c t now >>= λ (dur, c', t'). live fuel c' t' uses end
  live fuel c t (resets now ∷ uses) end = live fuel (reset c now) t uses end

  -- The stretches that are measured, each with its end: one from the last reset to the first stop
  -- that follows it, or to the destruction where none does.
  abbrev pub measured : Bool → ℤ → List Use → ℤ → List (ℤ × ℤ)
  measured true start [] end = (end -ℤ start, end) ∷ []
  measured false start [] end = []
  measured true start (stops now ∷ uses) end = (now -ℤ start, now) ∷ measured false start uses end
  measured false start (stops now ∷ uses) end = measured false start uses end
  measured running start (resets now ∷ uses) end = measured true now uses end

  abbrev pub update_all : ℕ → Timer R W → List (ℤ × ℤ) → Outcome (Timer R W)
  update_all fuel t [] = returns t
  update_all fuel t ((dur, now) ∷ rest) = update g fuel t dur now >>= λ t'. update_all fuel t' rest

  live-update_all_from :
      (fuel : ℕ) (start : ℤ) (running : Bool) (t : Timer R W) (uses : List Use) (end : ℤ)
      → live fuel (record { start_time = start; active = running }) t uses end
        ≡ update_all fuel t (measured running start uses end)
  unfolding live destroy stop
  live-update_all_from fuel start true t [] end =
      bind_wrapped (update g fuel t (end -ℤ start) end) _ _ _ (λ t'. refl)
  live-update_all_from fuel start false t [] end = refl
  live-update_all_from fuel start true t (stops now ∷ uses) end =
      bind_wrapped (update g fuel t (now -ℤ start) now) _ _ _
        (λ t'. live-update_all_from fuel start false t' uses end)
  live-update_all_from fuel start false t (stops now ∷ uses) end =
      live-update_all_from fuel start false t uses end
  live-update_all_from fuel start true t (resets now ∷ uses) end =
      live-update_all_from fuel now true t uses end
  live-update_all_from fuel start false t (resets now ∷ uses) end =
      live-update_all_from fuel now true t uses end

  -- However a context is stopped and reset before its destruction, it does to its timer what the
  -- updates with the stretches measured do, in their order: a stretch runs from the last reset, or
  -- the making of the context, to the first stop that follows, or to the destruction where none
  -- does. No stretch is recorded twice, and a stretch cut off by a reset is not recorded.
  pub live-update_all :
      (fuel : ℕ) (t : Timer R W) (start : ℤ) (uses : List Use) (end : ℤ)
      → live fuel (timer_context start) t uses end
        ≡ update_all fuel t (measured true start uses end)
  unfolding timer_context reset
  live-update_all fuel t start uses end = live-update_all_from fuel start true t uses end
