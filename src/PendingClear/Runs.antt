-- ===== src/PendingClear/Runs.antt =====
-- What the carrier of core/static_route_plan.py promises over any series of pushes.
use nso_adapter.Prelude.{
  String, ◌≡◌, refl, sym, ap, ◌∙◌, Bool, true, false, not, ◌&&◌, ◌||◌, Option, List, [], ◌∷◌,
}
use nso_adapter.PendingClear.{
  Carrier, has, authorized_half, store_half, pending_clear_fields, authorized_clear_fields,
  update_pending_clear,
}
use nso_adapter.PendingClear.Halves.{has-join, next_halves, update-halves}

-- What a push did to a row: the fields it cleared and re-set, and `?store_only=true`.
pub record Push : Type 0 where
  pub cleared : List String
  pub reset : List String
  pub store_only : Bool

unfoldable pub run : Option Carrier → List Push → Option Carrier
run carrier [] = carrier
run carrier (push ∷ rest) =
    run (update_pending_clear push.cleared push.reset push.store_only carrier) rest

unfoldable pub are_store_only : List Push → Bool
are_store_only [] = true
are_store_only (push ∷ rest) = push.store_only && are_store_only rest

none_gained : (c r a s : Bool) → (next_halves true c r a s).0 ≡ true → a ≡ true
none_gained c r true s h = refl
none_gained c r false s h = cc h

authorized_before :
    (f : String) (push : Push) (carrier : Option Carrier)
    → push.store_only ≡ true
    → has f (authorized_half (update_pending_clear push.cleared push.reset push.store_only carrier))
      ≡ true
    → has f (authorized_half carrier) ≡ true
authorized_before f push carrier e h =
    none_gained (has f push.cleared) (has f push.reset) (has f (authorized_half carrier))
      (has f (store_half carrier))
      (sym (
          ap (λ x. x.0)
            (update-halves f push.cleared push.reset push.store_only carrier
              ∙ ap
                  (λ b.
                    next_halves b (has f push.cleared) (has f push.reset)
                      (has f (authorized_half carrier)) (has f (store_half carrier)))
                  e))
        ∙ h)

both : (a b : Bool) → (a && b) ≡ true → (a ≡ true) × (b ≡ true)
both true b h = (refl, h)
both false b h = cc h

-- Pushes with `?store_only=true` authorize no device write: a field that a networked removal may
-- clear after any series of them was one before.
pub store_only_authorizes_nothing :
    (f : String) (carrier : Option Carrier) (pushes : List Push)
    → are_store_only pushes ≡ true
    → has f (authorized_clear_fields (run carrier pushes)) ≡ true
    → has f (authorized_clear_fields carrier) ≡ true
unfolding run are_store_only authorized_clear_fields
store_only_authorizes_nothing f carrier [] e h = h
store_only_authorizes_nothing f carrier (push ∷ rest) e h =
    let (first, others) = both push.store_only (are_store_only rest) e in
    authorized_before f push carrier first (
      unfold authorized_clear_fields in
      store_only_authorizes_nothing f
        (update_pending_clear push.cleared push.reset push.store_only carrier) rest others h)

still_apart :
    (o c r a s : Bool)
    → (a && s) ≡ false
    → let (a', s') = next_halves o c r a s in (a' && s') ≡ false
still_apart o c r true true h = cc h
still_apart true true true true false h = refl
still_apart true true true false true h = refl
still_apart true true true false false h = refl
still_apart true true false true false h = refl
still_apart true true false false true h = refl
still_apart true true false false false h = refl
still_apart true false true true false h = refl
still_apart true false true false true h = refl
still_apart true false true false false h = refl
still_apart true false false true false h = refl
still_apart true false false false true h = refl
still_apart true false false false false h = refl
still_apart false true true true false h = refl
still_apart false true true false true h = refl
still_apart false true true false false h = refl
still_apart false true false true false h = refl
still_apart false true false false true h = refl
still_apart false true false false false h = refl
still_apart false false true true false h = refl
still_apart false false true false true h = refl
still_apart false false true false false h = refl
still_apart false false false true false h = refl
still_apart false false false false true h = refl
still_apart false false false false false h = refl

abbrev are_apart : Bool × Bool → Bool
are_apart (a, s) = a && s

-- The two halves of the carrier never share a field, if they do not to begin with.
pub halves_stay_apart :
    (f : String) (carrier : Option Carrier) (pushes : List Push)
    → (has f (authorized_half carrier) && has f (store_half carrier)) ≡ false
    → let after = run carrier pushes in
      (has f (authorized_half after) && has f (store_half after)) ≡ false
unfolding run
halves_stay_apart f carrier [] h = h
halves_stay_apart f carrier (push ∷ rest) h =
    halves_stay_apart f (update_pending_clear push.cleared push.reset push.store_only carrier) rest
      (ap are_apart (update-halves f push.cleared push.reset push.store_only carrier)
        ∙ still_apart push.store_only (has f push.cleared) (has f push.reset)
            (has f (authorized_half carrier)) (has f (store_half carrier)) h)

abbrev either : Bool × Bool → Bool
either (a, s) = a || s

either_next : (o c r a s : Bool) → either (next_halves o c r a s) ≡ (c || ((a || s) && not r))
either_next true true true true true = refl
either_next true true true true false = refl
either_next true true true false true = refl
either_next true true true false false = refl
either_next true true false true true = refl
either_next true true false true false = refl
either_next true true false false true = refl
either_next true true false false false = refl
either_next true false true true true = refl
either_next true false true true false = refl
either_next true false true false true = refl
either_next true false true false false = refl
either_next true false false true true = refl
either_next true false false true false = refl
either_next true false false false true = refl
either_next true false false false false = refl
either_next false true true true true = refl
either_next false true true true false = refl
either_next false true true false true = refl
either_next false true true false false = refl
either_next false true false true true = refl
either_next false true false true false = refl
either_next false true false false true = refl
either_next false true false false false = refl
either_next false false true true true = refl
either_next false false true true false = refl
either_next false false true false true = refl
either_next false false true false false = refl
either_next false false false true true = refl
either_next false false false true false = refl
either_next false false false false true = refl
either_next false false false false false = refl

-- Whatever kind of push it is, a field is pending after it exactly if the push cleared it, or it
-- was pending and the push did not re-set it.
pub pending_after_push :
    (f : String) (cleared reset : List String) (store_only : Bool) (carrier : Option Carrier)
    → has f (pending_clear_fields (update_pending_clear cleared reset store_only carrier))
      ≡ (has f cleared || (has f (pending_clear_fields carrier) && not (has f reset)))
unfolding pending_clear_fields
pending_after_push f cleared reset store_only carrier =
    let after = update_pending_clear cleared reset store_only carrier in
    has-join f (authorized_half after) (store_half after)
    ∙ ap either (update-halves f cleared reset store_only carrier)
    ∙ either_next store_only (has f cleared) (has f reset) (has f (authorized_half carrier))
        (has f (store_half carrier))
    ∙ ap (λ b. has f cleared || (b && not (has f reset)))
        (sym (has-join f (authorized_half carrier) (store_half carrier)))
