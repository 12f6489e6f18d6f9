-- ===== src/PendingClear.antt =====
-- The static-route clear vocabulary of core/static_route_plan.py: the `pending_clear` carrier. A set
-- is a list, read by membership.
pub mod Halves
pub mod Runs
mod Tests
use nso_adapter.Prelude.{
  String, Bool, true, false, not, ◌&&◌, ◌||◌, Option, none, some, List, [], ◌∷◌, str_eq,
  if◌then◌else◌,
}
use Prim.Native.Nat.{Ordering}
use Prim.Native.String.{compare as compare_text}

-- The two halves of `static_route_intent.pending_clear`.
pub record Carrier : Type 0 where
  pub authorized : List String
  pub store_only : List String

unfoldable pub has : String → List String → Bool
has f [] = false
has f (a ∷ rest) = str_eq f a || has f rest

-- `a | b` and `a - b`
unfoldable pub join : List String → List String → List String
unfolding has
join [] s = s
join (f ∷ rest) s = let later = join rest s in if has f later then later else f ∷ later

unfoldable pub minus : List String → List String → List String
unfolding has
minus [] s = []
minus (f ∷ rest) s = let later = minus rest s in if has f s then later else f ∷ later

abbrev pub text_leb : String → String → Bool
text_leb a b = elim (compare_text a b) [ Ordering.gt ↦ false | _ ↦ true ]

unfoldable pub insert_text : String → List String → List String
insert_text f [] = f ∷ []
insert_text f (a ∷ rest) =
    let later = insert_text f rest in if text_leb f a then f ∷ a ∷ rest else a ∷ later

unfoldable pub sorted_texts : List String → List String
unfolding insert_text
sorted_texts [] = []
sorted_texts (f ∷ rest) = insert_text f (sorted_texts rest)

-- `carrier.get(…) or ()`, of a carrier that may be None.
abbrev pub authorized_half : Option Carrier → List String
authorized_half none = []
authorized_half (some c) = c.authorized

abbrev pub store_half : Option Carrier → List String
store_half none = []
store_half (some c) = c.store_only

-- `pending_clear_fields` and `authorized_clear_fields`
unfoldable pub pending_clear_fields : Option Carrier → List String
unfolding join
pending_clear_fields carrier = join (authorized_half carrier) (store_half carrier)

unfoldable pub authorized_clear_fields : Option Carrier → List String
authorized_clear_fields carrier = authorized_half carrier

-- The carrier, or None if both halves are empty.
abbrev pub carry : List String → List String → Option Carrier
carry [] [] = none
carry (f ∷ rest) store =
    some (record { authorized = sorted_texts (f ∷ rest); store_only = sorted_texts store })
carry [] (f ∷ rest) = some (record { authorized = []; store_only = sorted_texts (f ∷ rest) })

abbrev pub fold_in : Bool → List String → List String → List String → Option Carrier
fold_in true cleared authorized store = carry authorized (join store (minus cleared authorized))
fold_in false cleared authorized store = carry (join authorized cleared) (minus store cleared)

-- `update_pending_clear`
unfoldable pub update_pending_clear :
    List String → List String → Bool → Option Carrier → Option Carrier
unfolding join minus sorted_texts
update_pending_clear cleared reset store_only carrier =
    fold_in store_only cleared (minus (authorized_half carrier) reset)
      (minus (store_half carrier) reset)
