-- ===== src/Results.antt =====
-- A call that returns or raises, with the exceptions that the modelled code raises itself.
use nso_adapter.Prelude.{◌≡◌, refl, Bool, true, false, ◌⊎◌, inl, inr}

pub data Exception : Type 0 where
  value_error : Exception
  coverage_error : Exception
  asn_rule_violation : Exception
  source_as_required : Exception
  key_error : Exception
  http_status_error : Exception
  uncertifiable : Exception
  integrity_error : Exception
  claim_lost : Exception
  bookkeeping_outcome_unknown : Exception
  claim_unavailable : Exception

pub data Result {ℓ} (Value : Type ℓ) : Type ℓ where
  raised : Exception → Result Value
  ok : Value → Result Value

-- `if not test: raise e`
abbrev pub check : Bool → Exception → Result (Unit {0})
check false e = raised e
check true e = ok tt

infixl 5 ◌>>=◌ ◌>>◌
-- A statement after another one: it runs if the first returns.
abbrev pub ◌>>=◌ {ℓ ℓ'} :
    {Value : Type ℓ} {Next : Type ℓ'} → Result Value → (Value → Result Next) → Result Next
raised e >>= rest = raised e
ok value >>= rest = rest value

abbrev pub ◌>>◌ {ℓ'} : {Next : Type ℓ'} → Result (Unit {0}) → Result Next → Result Next
first >> rest = first >>= λ _. rest

module _ {ℓ ℓ'} {Value : Type ℓ} {Next : Type ℓ'} where
  -- What two statements return was returned by the second, from what the first returned.
  pub >>=-eq-ok :
      (first : Result Value) (rest : Value → Result Next) {last : Next}
      → (first >>= rest) ≡ ok last
      → (value : Value) × (first ≡ ok value) × (rest value ≡ ok last)
  >>=-eq-ok (raised e) rest returns = cc
  >>=-eq-ok (ok value) rest returns = (value, refl, returns)

pub check-eq-ok {ℓ} :
    {B : Type ℓ} (test : Bool) (e : Exception) (k : Result B) {b : B}
    → (check test e >> k) ≡ ok b
    → (test ≡ true) × (k ≡ ok b)
check-eq-ok true e k h = (refl, h)
check-eq-ok false e k h = cc

pub ok-injective {ℓ} : {A : Type ℓ} {a b : A} → ◌≡◌ {A = Result A} (ok a) (ok b) → a ≡ b
ok-injective h = cc

pub Result-cases {ℓ} :
    {Value : Type ℓ} (m : Result Value)
    → ((e : Exception) × (m ≡ raised e)) ⊎ ((value : Value) × (m ≡ ok value))
Result-cases (raised e) = inl (e, refl)
Result-cases (ok value) = inr (value, refl)
