-- ===== src/Failover/Hysteresis/Streaks.antt =====
-- Hysteresis over a whole history of probes: `step_failover` and `step_failback` of
-- core/failover.py act exactly on an unbroken run of `threshold` results.
use nso_adapter.Prelude.{
  ℕ, zero, suc, ◌+◌, ◌-◌, ◌≤◌, ◌<◌, ◌≡◌, refl, ap, ◌⊎◌, inl, inr, ◌↔◌, Bool, true, false, not, List,
  [], ◌∷◌, ◌++◌, arith, if◌then◌else◌, leb, Bool-cases, subst,
}
use nso_adapter.Failover.Hysteresis.{step_failover, step_failback}

abbrev pub replicate {ℓ} : {A : Type ℓ} → ℕ → A → List A
replicate zero _ = []
replicate (suc n) a = a ∷ replicate n a

-- Whether a probe loop that starts with this count switches within these probes.
unfoldable pub fails_over : ℕ → ℕ → List Bool → Bool
unfolding step_failover
fails_over threshold failures [] = false
fails_over threshold failures (reachable ∷ rest) =
    let step = step_failover reachable failures true threshold in
    let later = fails_over threshold step.failures rest in if step.act then true else later

unfoldable pub fails_back : ℕ → ℕ → List Bool → Bool
unfolding step_failback
fails_back threshold successes [] = false
fails_back threshold successes (reachable ∷ rest) =
    let step = step_failback reachable successes threshold in
    let later = fails_back threshold step.successes rest in if step.act then true else later

-- The list has `n` times `b` in a row.
abbrev pub HasRun : ℕ → Bool → List Bool → Type 0
HasRun n b l = (before after : List Bool) × (l ≡ before ++ (replicate n b ++ after))

-- The list begins with `n` times `b`.
abbrev StartsWith : ℕ → Bool → List Bool → Type 0
StartsWith n b l = (after : List Bool) × (l ≡ replicate n b ++ after)

HasRun-cons : (n : ℕ) (b c : Bool) (l : List Bool) → HasRun n b l → HasRun n b (c ∷ l)
HasRun-cons n b c l (before, after, e) = (c ∷ before, after, ap (λ r. c ∷ r) e)

HasRun-start : (n : ℕ) (b : Bool) (l : List Bool) → StartsWith n b l → HasRun n b l
HasRun-start n b l (after, e) = ([], after, e)

abbrev same : Bool → Bool → Bool
same true y = y
same false y = not y

-- The two loops as one: a result equal to `b` counts, any other clears the count.
acts : Bool → ℕ → ℕ → List Bool → Bool
acts b t f [] = false
acts b t f (x ∷ l) =
    let counted = acts b t (f + 1) l in
    let cleared = acts b t 0 l in
    if same b x then (if leb t (f + 1) then true else counted) else cleared

acts-hit :
    (b : Bool) (t f : ℕ) (l : List Bool)
    → acts b t f (b ∷ l) ≡ (if leb t (f + 1) then true else acts b t (f + 1) l)
unfolding acts
acts-hit true t f l = refl
acts-hit false t f l = refl

acts-miss : (b : Bool) (t f : ℕ) (l : List Bool) → acts b t f (not b ∷ l) ≡ acts b t 0 l
unfolding acts
acts-miss true t f l = refl
acts-miss false t f l = refl

fails_over-acts : (t f : ℕ) (l : List Bool) → fails_over t f l ≡ acts false t f l
unfolding fails_over acts
fails_over-acts t f [] = refl
fails_over-acts t f (true ∷ l) = fails_over-acts t 0 l
fails_over-acts t f (false ∷ l) = ground (arith, fails_over-acts t (f + 1) l)

fails_back-acts : (t f : ℕ) (l : List Bool) → fails_back t f l ≡ acts true t f l
unfolding fails_back acts
fails_back-acts t f [] = refl
fails_back-acts t f (true ∷ l) = ground (arith, fails_back-acts t (f + 1) l)
fails_back-acts t f (false ∷ l) = fails_back-acts t 0 l

-- A result either counts or not.
hit_or_miss : (b x : Bool) → (x ≡ b) ⊎ (x ≡ not b)
hit_or_miss true true = inl refl
hit_or_miss true false = inr refl
hit_or_miss false true = inr refl
hit_or_miss false false = inl refl

StartsWith-cons :
    (b : Bool) (n : ℕ) (l : List Bool) → StartsWith n b l → StartsWith (suc n) b (b ∷ l)
StartsWith-cons b n l (after, e) = (after, ap (λ r. b ∷ r) e)

StartsWith-length :
    (b : Bool) (n m : ℕ) (l : List Bool) → n ≡ m → StartsWith n b l → StartsWith m b l
StartsWith-length b n m l e h = subst (λ k. StartsWith k b l) e h

run_after_hit :
    (b : Bool) (t f : ℕ) (l : List Bool)
    → f < t
    → acts b t f (b ∷ l) ≡ true
    → (f + 1 < t → acts b t (f + 1) l ≡ true → StartsWith (t - (f + 1)) b l ⊎ HasRun t b l)
    → StartsWith (t - f) b (b ∷ l) ⊎ HasRun t b (b ∷ l)
run_after_hit b t f l lt h ih = elim (Bool-cases (leb t (f + 1))) [
  | inl last ↦ inl (StartsWith-length b 1 (t - f) (b ∷ l) (ground arith) (l, refl))
  | inr more ↦
      let below : f + 1 < t = ground arith in
      let later : acts b t (f + 1) l ≡ true = rw (acts-hit b t f l, more) at h in
      elim (ih below later) [
        | inl start ↦ inl (
            StartsWith-length b (suc (t - (f + 1))) (t - f) (b ∷ l) (omega arith)
              (StartsWith-cons b (t - (f + 1)) l start))
        | inr run ↦ inr (HasRun-cons t b b l run)
      ]
]

run_after_miss :
    (b : Bool) (t f : ℕ) (l : List Bool)
    → StartsWith (t - 0) b l ⊎ HasRun t b l
    → StartsWith (t - f) b (not b ∷ l) ⊎ HasRun t b (not b ∷ l)
run_after_miss b t f l (inl start) = inr (
    HasRun-cons t b (not b) l
      (HasRun-start t b l (StartsWith-length b (t - 0) t l (omega arith) start)))
run_after_miss b t f l (inr run) = inr (HasRun-cons t b (not b) l run)

-- Where the loop acts there is a run, or what the count still lacks of one at the start.
run_of_acts :
    (b : Bool) (t f : ℕ) (l : List Bool)
    → f < t
    → acts b t f l ≡ true
    → StartsWith (t - f) b l ⊎ HasRun t b l
run_of_acts b t f [] lt h = absurd (unfold acts in cc)
run_of_acts b t f (x ∷ l) lt h = elim (hit_or_miss b x) [
  | inl hit ↦
      rw hit (run_after_hit b t f l lt (rw hit at h) (λ lt' h'. run_of_acts b t (f + 1) l lt' h'))
  | inr miss ↦ rw miss (
      run_after_miss b t f l
        (run_of_acts b t 0 l (omega arith) (rw (miss, acts-miss b t f l) at h)))
]

acts_of_start :
    (b : Bool) (t f k : ℕ) (after : List Bool)
    → f < t
    → t ≤ f + k
    → acts b t f (replicate k b ++ after) ≡ true
acts_of_start b t f zero after lt le = absurd (omega arith)
acts_of_start b t f (suc k) after lt le = elim (Bool-cases (leb t (f + 1))) [
  | inl last ↦ rw (acts-hit b t f (replicate k b ++ after), last)
  | inr more ↦
      rw (acts-hit b t f (replicate k b ++ after), more)
        (acts_of_start b t (f + 1) k after (ground arith) (omega arith))
]

acts_of_before :
    (b : Bool) (t f : ℕ) (before rest : List Bool)
    → f < t
    → ((g : ℕ) → g < t → acts b t g rest ≡ true)
    → acts b t f (before ++ rest) ≡ true
acts_of_before b t f [] rest lt h = h f lt
acts_of_before b t f (x ∷ before) rest lt h = elim (hit_or_miss b x) [
  | inl hit ↦ elim (Bool-cases (leb t (f + 1))) [
    | inl last ↦ rw (hit, acts-hit b t f (before ++ rest), last)
    | inr more ↦
        rw (hit, acts-hit b t f (before ++ rest), more)
          (acts_of_before b t (f + 1) before rest (ground arith) h)
  ]
  | inr miss ↦
      rw (miss, acts-miss b t f (before ++ rest)) (acts_of_before b t 0 before rest (omega arith) h)
]

acts_iff_run : (b : Bool) (t : ℕ) (l : List Bool) → 0 < t → (acts b t 0 l ≡ true) ↔ HasRun t b l
acts_iff_run b t l lt = (
  λ h. elim (run_of_acts b t 0 l lt h) [
    | inl start ↦ HasRun-start t b l (StartsWith-length b (t - 0) t l (omega arith) start)
    | inr run ↦ run
  ],
  λ (before, after, e). rw e (
      acts_of_before b t 0 before (replicate t b ++ after) lt
        λ g lt'. acts_of_start b t g t after lt' (omega arith)),
)

-- From a fresh counter, the counter of a device with an OOB address asks for a failover within a
-- history of probes of its primary address exactly if that history has `threshold` failures in a row
-- (threshold positive).
pub fails_over_iff_run :
    (threshold : ℕ) (probes : List Bool)
    → 0 < threshold
    → (fails_over threshold 0 probes ≡ true) ↔ HasRun threshold false probes
fails_over_iff_run t l lt = rw (fails_over-acts t 0 l) (acts_iff_run false t l lt)

-- From a fresh counter, the counter of a device on its OOB address asks for a failback within a history
-- of probes of its primary address exactly if that history has `threshold` successes in a row
-- (threshold positive).
pub fails_back_iff_run :
    (threshold : ℕ) (probes : List Bool)
    → 0 < threshold
    → (fails_back threshold 0 probes ≡ true) ↔ HasRun threshold true probes
fails_back_iff_run t l lt = rw (fails_back-acts t 0 l) (acts_iff_run true t l lt)
