-- ===== src/Community/Report.antt =====
-- `unrepresentable_members` of core/community_dialect.py.
use nso_adapter.Prelude.{
  ℕ, ◌≡◌, refl, sym, ap, ◌∙◌, subst, inl, inr, Bool, true, false, not, ◌&&◌, ◌||◌, List, [], ◌∷◌,
  Bool-cases, and-both, or-parts,
}
use nso_adapter.Text.{text_eq}
use nso_adapter.Text.Equality.{texts_sound, texts_refl}
use nso_adapter.Community.{
  Dialect, is_none, is_blank, member_mem, from_canonical, report, unrepresentable_members,
}

-- A member is reported unless it is blank, representable, or seen before.
abbrev wanted : Dialect → List (List ℕ) → List ℕ → Bool
wanted dialect seen m =
    not (is_blank m) && (is_none (from_canonical dialect m) && not (member_mem m seen))

and_false : (b : Bool) → (b && false) ≡ false
and_false true = refl
and_false false = refl

unwanted :
    (blank lacks seen : Bool) → (blank || seen) ≡ true → (not blank && (lacks && not seen)) ≡ false
unwanted true lacks seen h = refl
unwanted false lacks true h = and_false lacks
unwanted false lacks false h = cc h

report_lem :
    (dialect : Dialect) (seen members : List (List ℕ)) (m : List ℕ)
    → member_mem m (report dialect seen members) ≡ (member_mem m members && wanted dialect seen m)
unfolding report member_mem
report_lem dialect seen [] m = refl
report_lem dialect seen (n ∷ rest) m = elim (Bool-cases (text_eq m n)) [
  | inr e ↦ elim (Bool-cases (is_blank n || member_mem n seen)) [
    | inl skip ↦ rw (skip, e) (report_lem dialect seen rest m)
    | inr keep ↦
        let later =
          report_lem dialect (n ∷ seen) rest m
          ∙ ap
              (λ b.
                member_mem m rest
                && (not (is_blank m)
                    && (is_none (from_canonical dialect m) && not (b || member_mem m seen))))
              e in
        elim (Bool-cases (is_none (from_canonical dialect n))) [
          | inl lacks ↦ rw (keep, lacks, e) later
          | inr has ↦ rw (keep, has, e) later
        ]
  ]
  | inl e ↦
      subst
        (λ x.
          member_mem x (report dialect seen (n ∷ rest))
          ≡ ((text_eq x n || member_mem x rest) && wanted dialect seen x))
        (sym (texts_sound m n e))
        (elim (Bool-cases (is_blank n || member_mem n seen)) [
          | inl skip ↦
              let off =
                unwanted (is_blank n) (is_none (from_canonical dialect n)) (member_mem n seen)
                  skip in
              rw (skip, texts_refl n)
                (report_lem dialect seen rest n
                  ∙ ap (λ b. member_mem n rest && b) off
                  ∙ and_false (member_mem n rest)
                  ∙ sym off)
          | inr keep ↦
              let (solid, fresh) = or-parts (is_blank n) (member_mem n seen) keep in
              elim (Bool-cases (is_none (from_canonical dialect n))) [
                | inl lacks ↦ rw (keep, lacks, texts_refl n, solid, fresh)
                | inr has ↦
                    rw (keep, has, texts_refl n, solid)
                      (report_lem dialect (n ∷ seen) rest n
                        ∙ ap
                            (λ b.
                              member_mem n rest
                              && (not (is_blank n) && (b && not (member_mem n (n ∷ seen)))))
                            has
                        ∙ ap (λ b. member_mem n rest && (not b && false)) solid
                        ∙ and_false (member_mem n rest))
              ]
        ])
]

-- No member stands twice.
unfoldable pub none_repeats : List (List ℕ) → Bool
unfolding member_mem
none_repeats [] = true
none_repeats (m ∷ rest) = not (member_mem m rest) && none_repeats rest

report-repeats :
    (dialect : Dialect) (seen members : List (List ℕ))
    → none_repeats (report dialect seen members) ≡ true
unfolding report none_repeats
report-repeats dialect seen [] = refl
report-repeats dialect seen (n ∷ rest) = elim (Bool-cases (is_blank n || member_mem n seen)) [
  | inl skip ↦ rw skip (report-repeats dialect seen rest)
  | inr keep ↦ elim (Bool-cases (is_none (from_canonical dialect n))) [
    | inr has ↦ rw (keep, has) (report-repeats dialect (n ∷ seen) rest)
    | inl lacks ↦
        let gone : member_mem n (report dialect (n ∷ seen) rest) ≡ false =
          report_lem dialect (n ∷ seen) rest n
          ∙ ap
              (λ b.
                member_mem n rest
                && (not (is_blank n)
                    && (is_none (from_canonical dialect n) && not (b || member_mem n seen))))
              (texts_refl n)
          ∙ never (member_mem n rest) (not (is_blank n)) (is_none (from_canonical dialect n)) in
        rw (keep, lacks) (and-both (ap not gone) (report-repeats dialect (n ∷ seen) rest))
  ]
]
  where
    never : (a b c : Bool) → (a && (b && (c && false))) ≡ false
    never true true true = refl
    never true true false = refl
    never true false c = refl
    never false b c = refl

-- Of a list of members, exactly those are reported that are not blank and that the dialect cannot
-- represent; and none is reported twice.
pub reports_the_unrepresentable :
    (dialect : Dialect) (members : List (List ℕ)) (m : List ℕ)
    → (member_mem m (unrepresentable_members dialect members)
        ≡ (member_mem m members && (not (is_blank m) && is_none (from_canonical dialect m))))
      × (none_repeats (unrepresentable_members dialect members) ≡ true)
unfolding unrepresentable_members
reports_the_unrepresentable dialect members m = (
  report_lem dialect [] members m
      ∙ ap (λ b. member_mem m members && (not (is_blank m) && b))
          (and_true (is_none (from_canonical dialect m))),
  report-repeats dialect [] members,
)
  where
    and_true : (b : Bool) → (b && not (member_mem m [])) ≡ b
    and_true true = unfold member_mem in refl
    and_true false = refl
