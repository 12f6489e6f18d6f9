-- ===== src/Asn/Sources.antt =====
-- `validate_source_as_numbers` of domain/asn.py: one spelling for each AS number.
use nso_adapter.Prelude.{
  ℕ, ◌≡◌, refl, sym, ap, ◌∙◌, inl, inr, true, false, some, List, [], ◌∷◌, ◌==◌, if◌then◌else◌,
  Bool-cases, subst, ==_iff,
}
use nso_adapter.Results.{ok, >>=-eq-ok, check-eq-ok, ok-injective}
use nso_adapter.Text.Equality.{texts_sound}
use nso_adapter.Asn.{
  AsValue, of_int, of_negative, of_text, other, SourceEntry, value_eq, names_an_as, checked_asn,
  seen_at, agrees, validate_from, validate_source_as_numbers,
}

-- An entry of the list.
pub data Among (entry : SourceEntry) : List SourceEntry → Type 0 where
  first : (rest : List SourceEntry) → Among entry (entry ∷ rest)
  later : (e : SourceEntry) {rest : List SourceEntry} → Among entry rest → Among entry (e ∷ rest)

value_eq_sound : (v w : AsValue) → value_eq v w ≡ true → v ≡ w
value_eq_sound (of_int m) (of_int n) h = ap of_int ((==_iff m n).0 h)
value_eq_sound (of_negative m) (of_negative n) h = ap of_negative ((==_iff m n).0 h)
value_eq_sound (of_text s) (of_text t) h = ap of_text (texts_sound s t h)
value_eq_sound (of_int m) (of_negative n) h = cc h
value_eq_sound (of_int m) (of_text n) h = cc h
value_eq_sound (of_int m) other h = cc h
value_eq_sound (of_negative m) (of_int n) h = cc h
value_eq_sound (of_negative m) (of_text n) h = cc h
value_eq_sound (of_negative m) other h = cc h
value_eq_sound (of_text m) (of_int n) h = cc h
value_eq_sound (of_text m) (of_negative n) h = cc h
value_eq_sound (of_text m) other h = cc h
value_eq_sound other (of_int n) h = cc h
value_eq_sound other (of_negative n) h = cc h
value_eq_sound other (of_text n) h = cc h
value_eq_sound other other h = refl

-- What a checked entry leaves behind.
taken :
    (seen : List (ℕ × AsValue)) (entry : SourceEntry) (rest : List SourceEntry)
    → names_an_as entry ≡ true
    → validate_from seen (entry ∷ rest) ≡ ok tt
    → (n : ℕ) × (checked_asn entry.source_ref ≡ ok n)
      × (agrees (seen_at n seen) entry.source_ref ≡ true)
      × (validate_from ((n, entry.source_ref) ∷ seen) rest ≡ ok tt)
unfolding validate_from
taken seen entry rest named h =
    let (n, e, h') = >>=-eq-ok (checked_asn entry.source_ref) _ (rw named at h) in
    let (fits, h'') = check-eq-ok (agrees (seen_at n seen) entry.source_ref) _ _ h' in
    (n, e, fits, h'')

skipped :
    (seen : List (ℕ × AsValue)) (entry : SourceEntry) (rest : List SourceEntry)
    → names_an_as entry ≡ false
    → validate_from seen (entry ∷ rest) ≡ ok tt
    → validate_from seen rest ≡ ok tt
unfolding validate_from
skipped seen entry rest unnamed h = rw unnamed at h

spelled :
    (entry : SourceEntry) (seen : List (ℕ × AsValue)) (n : ℕ) (v : AsValue)
    {entries : List SourceEntry}
    → Among entry entries
    → names_an_as entry ≡ true
    → checked_asn entry.source_ref ≡ ok n
    → seen_at n seen ≡ some v
    → validate_from seen entries ≡ ok tt
    → entry.source_ref ≡ v
spelled entry seen n v (first rest) named reads old h =
    let (m, e, fits, _) = taken seen entry rest named h in
    let same : m ≡ n = ok-injective (sym e ∙ reads) in
    let known : agrees (some v) entry.source_ref ≡ true =
      sym (ap (λ o. agrees o entry.source_ref) (ap (λ k. seen_at k seen) same ∙ old)) ∙ fits in
    sym (value_eq_sound v entry.source_ref known)
spelled entry seen n v (later head {rest} m') named reads old h =
    elim (Bool-cases (names_an_as head)) [
      | inr unnamed ↦ spelled entry seen n v m' named reads old (skipped seen head rest unnamed h)
      | inl is_named ↦
          let (m, e, fits, h') = taken seen head rest is_named h in
          elim (Bool-cases (m == n)) [
            | inr apart ↦
                let still =
                  ap (λ b. if b then some head.source_ref else seen_at n seen) apart ∙ old in
                spelled entry ((m, head.source_ref) ∷ seen) n v m' named reads
                  (unfold seen_at in still) h'
            | inl equal ↦
                let same = (==_iff m n).0 equal in
                let known : agrees (some v) head.source_ref ≡ true =
                  sym (ap (λ o. agrees o head.source_ref) (ap (λ k. seen_at k seen) same ∙ old))
                  ∙ fits in
                let now = ap (λ b. if b then some head.source_ref else seen_at n seen) equal in
                spelled entry ((m, head.source_ref) ∷ seen) n head.source_ref m' named reads
                  (unfold seen_at in now) h'
                ∙ sym (value_eq_sound v head.source_ref known)
          ]
    ]

seen_now : (seen : List (ℕ × AsValue)) (n : ℕ) (v : AsValue) → seen_at n ((n, v) ∷ seen) ≡ some v
unfolding seen_at
seen_now seen n v = ap (λ b. if b then some v else seen_at n seen) ((==_iff n n).1 refl)

spelled_after :
    (seen : List (ℕ × AsValue)) (n : ℕ) (head entry : SourceEntry) {rest : List SourceEntry}
    → Among entry rest
    → names_an_as head ≡ true
    → checked_asn head.source_ref ≡ ok n
    → names_an_as entry ≡ true
    → checked_asn entry.source_ref ≡ ok n
    → validate_from seen (head ∷ rest) ≡ ok tt
    → entry.source_ref ≡ head.source_ref
spelled_after seen n head entry {rest} m named reads named' reads' h =
    let (k, e, fits, h') = taken seen head rest named h in
    let same : k ≡ n = ok-injective (sym e ∙ reads) in
    spelled entry ((k, head.source_ref) ∷ seen) n head.source_ref m named' reads'
      (subst (λ j. seen_at n ((j, head.source_ref) ∷ seen) ≡ some head.source_ref) (sym same)
        (seen_now seen n head.source_ref))
      h'

one_spelling_from :
    (seen : List (ℕ × AsValue)) (n : ℕ) (a b : SourceEntry) (entries : List SourceEntry)
    → Among a entries
    → Among b entries
    → names_an_as a ≡ true
    → names_an_as b ≡ true
    → checked_asn a.source_ref ≡ ok n
    → checked_asn b.source_ref ≡ ok n
    → validate_from seen entries ≡ ok tt
    → a.source_ref ≡ b.source_ref
one_spelling_from seen n a b [] m m' na nb ra rb h = elim m [ ]
one_spelling_from seen n a b (_ ∷ _) (first rest) (first rest') na nb ra rb h = refl
one_spelling_from seen n a b (_ ∷ _) (first rest) (later _ m') na nb ra rb h =
    sym (spelled_after seen n a b m' na ra nb rb h)
one_spelling_from seen n a b (_ ∷ _) (later _ m) (first rest) na nb ra rb h =
    spelled_after seen n b a m nb rb na ra h
one_spelling_from seen n a b (head ∷ rest) (later _ m) (later _ m') na nb ra rb h =
    elim (Bool-cases (names_an_as head)) [
      | inr unnamed ↦
          one_spelling_from seen n a b rest m m' na nb ra rb (skipped seen head rest unnamed h)
      | inl is_named ↦
          let (k, e, fits, h') = taken seen head rest is_named h in
          one_spelling_from ((k, head.source_ref) ∷ seen) n a b rest m m' na nb ra rb h'
    ]

-- In a list of device entries that passed the validation, two entries of BGP sources whose
-- references are read as one AS number spell it alike.
pub one_spelling_for_each_as :
    (n : ℕ) (a b : SourceEntry) (entries : List SourceEntry)
    → Among a entries
    → Among b entries
    → names_an_as a ≡ true
    → names_an_as b ≡ true
    → checked_asn a.source_ref ≡ ok n
    → checked_asn b.source_ref ≡ ok n
    → validate_source_as_numbers entries ≡ ok tt
    → a.source_ref ≡ b.source_ref
unfolding validate_source_as_numbers
one_spelling_for_each_as n a b entries = one_spelling_from [] n a b entries
