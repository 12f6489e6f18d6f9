-- ===== src/Claim/Owner.antt =====
-- What a claim promises, apart from tables and transactions: a device has at most one owner, who is
-- known by a token; it is taken when it is free, worked on by its owner, and left by its owner.
use nso_adapter.Prelude.{
  ℕ, ◌≡◌, ◌≢◌, refl, ◌∙◌, Bool, false, ◌&&◌, ◌||◌, Option, none, some, List, [], ◌∷◌, ◌++◌, ◌==◌,
  inl, inr, Bool-cases, arith, or-parts, and-parts, if◌then◌else◌,
}

abbrev pub Owner : Type 0
Owner = ℕ → Option ℕ

pub data Act : Type 0 where
  took acted left : ℕ → ℕ → Act

abbrev pub with_owner : ℕ → Option ℕ → Owner → Owner
with_owner device token o d = if d == device then token else o d

-- The acts lead from one state of ownership to the other.
unfoldable pub Runs : List Act → Owner → Owner → Type 0
Runs [] o o' = (d : ℕ) → o d ≡ o' d
Runs (took d t ∷ rest) o o' = (o d ≡ none) × Runs rest (with_owner d (some t) o) o'
Runs (acted d t ∷ rest) o o' = (o d ≡ some t) × Runs rest o o'
Runs (left d t ∷ rest) o o' = (o d ≡ some t) × Runs rest (with_owner d none o) o'

with_owner-cong :
    (device : ℕ) (token : Option ℕ) (o p : Owner)
    → ((d : ℕ) → p d ≡ o d)
    → (d : ℕ) → with_owner device token p d ≡ with_owner device token o d
with_owner-cong device token o p same d = elim (Bool-cases (d == device)) [
  | inl e ↦ rw e refl
  | inr e ↦ rw e (same d)
]

pub Runs-cong :
    (acts : List Act) (o p q : Owner) → ((d : ℕ) → p d ≡ o d) → Runs acts o q → Runs acts p q
unfolding Runs
Runs-cong [] o p q same h = λ d. same d ∙ h d
Runs-cong (took d t ∷ rest) o p q same (free, h) =
    (same d ∙ free, Runs-cong rest _ _ q (with_owner-cong d (some t) o p same) h)
Runs-cong (acted d t ∷ rest) o p q same (owns, h) = (same d ∙ owns, Runs-cong rest o p q same h)
Runs-cong (left d t ∷ rest) o p q same (owns, h) =
    (same d ∙ owns, Runs-cong rest _ _ q (with_owner-cong d none o p same) h)

pub Runs-append :
    (acts more : List Act) (o p q : Owner) → Runs acts o p → Runs more p q → Runs (acts ++ more) o q
unfolding Runs
Runs-append [] more o p q h h' = Runs-cong more p o q h h'
Runs-append (took d t ∷ rest) more o p q (free, h) h' = (free, Runs-append rest more _ p q h h')
Runs-append (acted d t ∷ rest) more o p q (owns, h) h' = (owns, Runs-append rest more o p q h h')
Runs-append (left d t ∷ rest) more o p q (owns, h) h' = (owns, Runs-append rest more _ p q h h')

abbrev pub acts_as : ℕ → ℕ → Act → Bool
acts_as device token (acted d t) = d == device && t == token
acts_as device token _ = false

abbrev pub takes_as : ℕ → Act → Bool
takes_as token (took d t) = t == token
takes_as token _ = false

unfoldable pub any_act : (Act → Bool) → List Act → Bool
any_act test [] = false
any_act test (a ∷ rest) = test a || any_act test rest

-- A token that does not own the device, and is not taken again, does not act on it.
pub stranger_never_acts :
    (device token : ℕ) (acts : List Act) (o q : Owner)
    → Runs acts o q
    → o device ≢ some token
    → any_act (takes_as token) acts ≡ false
    → any_act (acts_as device token) acts ≡ false
unfolding Runs any_act
stranger_never_acts device token [] o q h apart fresh = refl
stranger_never_acts device token (took d t ∷ rest) o q (free, h) apart fresh =
    let (other, later) = or-parts (t == token) _ fresh in
    stranger_never_acts device token rest (with_owner d (some t) o) q h
      (elim (Bool-cases (device == d)) [
        | inl e ↦ rw e (λ same. let is : t ≡ token = cc same in ground arith)
        | inr e ↦ rw e apart
      ])
      later
stranger_never_acts device token (acted d t ∷ rest) o q (owns, h) apart fresh =
    let later = stranger_never_acts device token rest o q h apart fresh in
    elim (Bool-cases (d == device && t == token)) [
      | inr e ↦ rw e later
      | inl e ↦
          let (here, this) = and-parts (d == device) (t == token) e in
          let d_is : d ≡ device = ground arith in
          let t_is : t ≡ token = ground arith in absurd (apart (rw (d_is, t_is) at owns))
    ]
stranger_never_acts device token (left d t ∷ rest) o q (owns, h) apart fresh =
    stranger_never_acts device token rest (with_owner d none o) q h
      (elim (Bool-cases (device == d)) [ inl e ↦ rw e (λ same. cc same) | inr e ↦ rw e apart ])
      fresh
