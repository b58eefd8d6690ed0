-- ===== src/UniformSample/Reservoir.antt =====
-- What `UniformSample` keeps of the values that it has seen.
use mathlib.Core.List.{append-nil, append_assoc}
use cppmetrics.Prelude.{
  ℕ, suc, ◌+◌, ◌^◌, ◌≤◌, ◌<◌, ◌≡◌, refl, sym, ap, subst, ◌∙◌, List, [], ◌∷◌, ◌++◌, ℤ, pos, length,
  set, take, replicate, All, min, dec_lt, length-append, length-set, All-take-set, All-append,
  take-set_end, length-replicate, arith,
}
use cppmetrics.Outcome.{Outcome, returns, ◌>>=◌}
use cppmetrics.Random.{Rng, IsUniform}
use cppmetrics.Snapshot.{snapshot}
use cppmetrics.Snapshot.Order.{All-sort}
use cppmetrics.UniformSample.Updates.{IsUpdate, update-IsUpdate}
use cppmetrics.UniformSample.{UniformSample, uniform_sample, update, size, get_snapshot}

module _ {R : Type 0} where
  -- The values that a snapshot is taken of.
  abbrev pub sampled : UniformSample R → List ℤ
  sampled s = take (min s.count (length s.values)) s.values

  -- A sample after the values `seen`, all of which have the property `P`.
  record Holds (P : ℤ → Type 0) (seen : List ℤ) (s : UniformSample R) : Type 0 where
    counted : s.count ≡ length seen
    full : length s.values ≡ s.reservoir_size
    kept : All P (sampled s)
    all_kept : length seen ≤ s.reservoir_size → sampled s ≡ seen

  pub kept_by_update :
      (P : ℤ → Type 0) (s : UniformSample R) (v : ℤ) (i : ℕ)
      → (s.count < length s.values → i ≡ s.count)
      → P v
      → All P (sampled s)
      → All P (take (min (s.count + 1) (length s.values)) (set s.values i v))
  kept_by_update P s v i next p kept = elim (dec_lt s.count (length s.values)) [
    | yes room ↦
        let here : i ≡ s.count = next room in
        let old : min s.count (length s.values) ≡ s.count = omega arith in
        let new : min (s.count + 1) (length s.values) ≡ suc s.count = omega arith in
        rw (here, new, take-set_end s.count s.values v room)
          (All-append P (take s.count s.values) (v ∷ [])
            (subst (λ n. All P (take n s.values)) old kept) (p, tt))
    | no full ↦
        let same : min (s.count + 1) (length s.values) ≡ min s.count (length s.values) =
          omega arith in
        rw same (All-take-set P (min s.count (length s.values)) i s.values v kept p)
  ]

  all_kept_by_update :
      (s : UniformSample R) (v : ℤ) (i : ℕ) (seen : List ℤ)
      → (s.count < length s.values → i ≡ s.count)
      → s.count ≡ length seen
      → s.count < length s.values
      → sampled s ≡ seen
      → take (min (s.count + 1) (length s.values)) (set s.values i v) ≡ seen ++ v ∷ []
  all_kept_by_update s v i seen next counted room same =
      let here : i ≡ s.count = next room in
      let old : min s.count (length s.values) ≡ s.count = omega arith in
      let new : min (s.count + 1) (length s.values) ≡ suc s.count = omega arith in
      rw (here, new, take-set_end s.count s.values v room)
        (ap (λ l. l ++ v ∷ []) (subst (λ n. take n s.values ≡ seen) old same))

  pub sampled_written :
      (s s' : UniformSample R) (v : ℤ) (w : IsUpdate s v s')
      → sampled s' ≡ take (min (s.count + 1) (length s.values)) (set s.values w.index v)
  sampled_written s s' v w = rw (w.counts, w.written, length-set s.values w.index v)

  update-Holds :
      (P : ℤ → Type 0) (seen : List ℤ) (s s' : UniformSample R) (v : ℤ)
      → Holds P seen s
      → P v
      → IsUpdate s v s'
      → Holds P (seen ++ v ∷ []) s'
  update-Holds P seen s s' v h p w =
      let size : length s'.values ≡ length s.values =
        ap length w.written ∙ length-set s.values w.index v in
      let grown = length-append seen (v ∷ []) in
      let same = sampled_written s s' v w in
      record {
        counted = omega (arith, h.counted, w.counts, grown);
        full = omega (arith, h.full, w.same_size, size);
        kept = rw same (kept_by_update P s v w.index w.next_free p h.kept);
        all_kept = λ few.
            let room : s.count < length s.values =
              omega (arith, h.counted, h.full, w.same_size, grown) in
            rw same (
              all_kept_by_update s v w.index seen w.next_free h.counted room
                (h.all_kept (omega (arith, h.full, h.counted))));
      }

module _ {R W : Type 0} (g : Rng R W) (u : IsUniform g) where
  unfoldable pub run : UniformSample R → List ℤ → Outcome (UniformSample R)
  unfolding update
  run s [] = returns s
  run s (v ∷ vs) = update g s v >>= λ s'. run s' vs

  run-Holds :
      (P : ℤ → Type 0) (seen : List ℤ) (s : UniformSample R) (vs : List ℤ)
      → length seen + length vs ≤ 2 ^ 31
      → Holds P seen s
      → All P vs
      → (s' : UniformSample R) × (run s vs ≡ returns s')
        × Holds P (seen ++ vs) s'
        × (s'.reservoir_size ≡ s.reservoir_size)
  unfolding run
  run-Holds P seen s [] few h ps =
      (s, refl, subst (λ l. Holds P l s) (sym (append-nil seen)) h, refl)
  run-Holds P seen s (v ∷ vs) few h (p, ps) =
      let (s', e, w) = update-IsUpdate g u s v (omega (arith, h.counted)) in
      let grown = length-append seen (v ∷ []) in
      let (t, et, ht, size) =
        run-Holds P (seen ++ v ∷ []) s' vs (omega (arith, grown)) (update-Holds P seen s s' v h p w)
          ps in
      (t, rw e et, subst (λ l. Holds P l t) (append_assoc seen (v ∷ []) vs) ht, size ∙ w.same_size)

  none_yet : (n : ℕ) → min 0 n ≡ 0
  none_yet n = omega arith

  new-Holds :
      (P : ℤ → Type 0) (reservoir_size millis : ℕ)
      → Holds P [] (uniform_sample g reservoir_size millis)
  unfolding uniform_sample
  new-Holds P reservoir_size millis = record {
    counted = refl;
    full = length-replicate reservoir_size (pos 0);
    kept = rw (none_yet (length (replicate reservoir_size (pos 0)))) tt;
    all_kept = λ few. rw (none_yet (length (replicate reservoir_size (pos 0))));
  }

  -- After up to 2 ^ 31 updates of a new sample, none of which fails: the count is the number of
  -- values seen; every value of a snapshot is one of them, since it has each property that they all
  -- have, so the zeros that the vector starts with never show; and as long as they fit the
  -- reservoir, the snapshot is taken of exactly the values seen, in their order.
  pub run-sampled :
      (P : ℤ → Type 0) (reservoir_size millis : ℕ) (vs : List ℤ)
      → length vs ≤ 2 ^ 31
      → All P vs
      → (s : UniformSample R) × (run (uniform_sample g reservoir_size millis) vs ≡ returns s)
        × (s.count ≡ length vs)
        × All P (get_snapshot s).values
        × (length vs ≤ reservoir_size → get_snapshot s ≡ snapshot vs)
  unfolding get_snapshot snapshot uniform_sample
  run-sampled P reservoir_size millis vs few ps =
      let (s, e, h, size) =
        run-Holds P [] (uniform_sample g reservoir_size millis) vs (omega arith)
          (new-Holds P reservoir_size millis) ps in
      (
        s,
        e,
        h.counted,
        All-sort P (sampled s) h.kept,
        λ fits. ap snapshot (h.all_kept (omega (arith, size))),
      )
