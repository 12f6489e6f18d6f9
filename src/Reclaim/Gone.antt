-- ===== src/Reclaim/Gone.antt =====
-- When the routes of a tombstone are gone: its two keys against the instance as it was read, for the
-- drain of core/static_route_reclaim.py.
use nso_adapter.Prelude.{
  ◌≡◌, refl, sym, subst, ◌∙◌, String, Bool, true, false, ◌&&◌, ◌||◌, Option, none, some, List, [],
  ◌∷◌, str_eq, inl, inr, Bool-cases,
}
use nso_adapter.Json.{
  Value, Items, Fields, null, boolean, natural, number, text, array, object, nil, item, get,
}
use nso_adapter.Results.{ok, >>=-eq-ok, ok-injective}
use nso_adapter.DeletedRoutes.{Triple, has_triple, triple_eq}
use nso_adapter.DeletedRoutes.Triples.{has-at}
use nso_adapter.RoutePlan.{Tombstone, as_triple, tombstone_triple}
use nso_adapter.ApplyPlan.{add_triple, add_found}
use nso_adapter.Reclaim.Section.{live_keys, leaf_or_empty}
use nso_adapter.Reclaim.{authorized}

-- None of the keys is in the set.
unfoldable pub Apart : List Triple → List Triple → Type 0
Apart [] s = Unit
Apart (t ∷ rest) s = (has_triple t s ≡ false) × Apart rest s

-- The keys of the routes that the instance holds, as it was read.
abbrev pub of_routes : Option Value → List Triple
of_routes (some (array items)) = live_keys items
of_routes _ = []

abbrev pub of_section : Option Value → List Triple
of_section (some (object section)) = of_routes (get "route" section)
of_section _ = []

abbrev pub served_keys : Option Fields → List Triple
served_keys none = []
served_keys (some entry) = of_section (get "static-route" entry)

-- Neither the key that the row renders nor the key that was deployed for it passes the test.
abbrev pub NotFound : (Triple → Bool) → Option Triple → Type 0
NotFound test none = Unit
NotFound test (some t) = test t ≡ false

abbrev pub IsOff : (Triple → Bool) → Tombstone → Type 0
IsOff test row =
    (test (row.vrf, row.prefix, row.next_hop) ≡ false)
    × ((deployed : Option Triple) × (as_triple row.deployed_key ≡ ok deployed)
        × NotFound test deployed)

keys-NotFound :
    (o : Option Triple) (t : Triple) (s : List Triple)
    → Apart (add_found o (t ∷ [])) s
    → (has_triple t s ≡ false) × NotFound (λ k. has_triple k s) o
unfolding Apart add_triple has_triple
keys-NotFound none t s h = (h.0, tt)
keys-NotFound (some d) t s h = elim (Bool-cases (has_triple d (t ∷ []))) [
  | inl e ↦ let own = (rw e at h).0 in (own, has-at d t s false own (or_only (triple_eq d t) e))
  | inr e ↦ let h' = rw e at h in (h'.1.0, h'.0)
]
  where
    or_only : (b : Bool) → (b || false) ≡ true → b ≡ true
    or_only true e = refl
    or_only false e = cc e

pub keys-IsOff :
    (row : Tombstone) {keys : List Triple} (s : List Triple)
    → authorized row ≡ ok keys
    → Apart keys s
    → IsOff (λ k. has_triple k s) row
unfolding authorized tombstone_triple
keys-IsOff row s e apart =
    let (deployed, reads, same) = >>=-eq-ok (as_triple row.deployed_key) _ e in
    let (own, off) =
      keys-NotFound deployed (row.vrf, row.prefix, row.next_hop) s
        (subst (λ k. Apart k s) (sym (ok-injective same)) apart) in
    (own, (deployed, reads, off))

-- The instance holds a route of the key: an object of the list with these three leaves, a missing
-- one counting as empty.
unfoldable pub leaf_is : String → Option Value → Bool
leaf_is t (some (text u)) = str_eq t u
leaf_is t _ = str_eq t ""

unfoldable pub lists_route : Triple → Items → Bool
unfolding leaf_is get
lists_route t nil = false
lists_route (vrf, prefix, next_hop) (item (object e) rest) =
    (leaf_is vrf (get "vrf" e)
      && (leaf_is prefix (get "prefix" e) && leaf_is next_hop (get "next-hop" e)))
    || lists_route (vrf, prefix, next_hop) rest
lists_route t (item _ rest) = lists_route t rest

abbrev pub in_routes : Triple → Option Value → Bool
in_routes t (some (array items)) = lists_route t items
in_routes t _ = false

abbrev pub in_section : Triple → Option Value → Bool
in_section t (some (object section)) = in_routes t (get "route" section)
in_section t _ = false

abbrev pub holds_route_by : Triple → Option Fields → Bool
holds_route_by t none = false
holds_route_by t (some entry) = in_section t (get "static-route" entry)

unfoldable pub holds_route : Option Fields → Triple → Bool
unfolding lists_route get
holds_route entry t = holds_route_by t entry

leaf_lem : (t : String) (v : Option Value) → str_eq t (leaf_or_empty v) ≡ leaf_is t v
unfolding leaf_is
leaf_lem t none = refl
leaf_lem t (some (text u)) = refl
leaf_lem t (some null) = refl
leaf_lem t (some (boolean _)) = refl
leaf_lem t (some (natural _)) = refl
leaf_lem t (some (number _)) = refl
leaf_lem t (some (array _)) = refl
leaf_lem t (some (object _)) = refl

pub live-lists : (t : Triple) (items : Items) → has_triple t (live_keys items) ≡ lists_route t items
unfolding live_keys lists_route has_triple
live-lists t nil = refl
live-lists (a, b, c) (item (object e) rest) = rw (
  leaf_lem a (get "vrf" e),
  leaf_lem b (get "prefix" e),
  leaf_lem c (get "next-hop" e),
  live-lists (a, b, c) rest,
)
live-lists t (item null rest) = live-lists t rest
live-lists t (item (boolean _) rest) = live-lists t rest
live-lists t (item (natural _) rest) = live-lists t rest
live-lists t (item (number _) rest) = live-lists t rest
live-lists t (item (text _) rest) = live-lists t rest
live-lists t (item (array _) rest) = live-lists t rest

routes-lists : (t : Triple) (v : Option Value) → has_triple t (of_routes v) ≡ in_routes t v
unfolding has_triple
routes-lists t none = refl
routes-lists t (some (array items)) = live-lists t items
routes-lists t (some null) = refl
routes-lists t (some (boolean _)) = refl
routes-lists t (some (natural _)) = refl
routes-lists t (some (number _)) = refl
routes-lists t (some (text _)) = refl
routes-lists t (some (object _)) = refl

section-lists : (t : Triple) (v : Option Value) → has_triple t (of_section v) ≡ in_section t v
unfolding has_triple
section-lists t none = refl
section-lists t (some (object section)) = routes-lists t (get "route" section)
section-lists t (some null) = refl
section-lists t (some (boolean _)) = refl
section-lists t (some (natural _)) = refl
section-lists t (some (number _)) = refl
section-lists t (some (text _)) = refl
section-lists t (some (array _)) = refl

served-holds :
    (entry : Option Fields) (t : Triple) → has_triple t (served_keys entry) ≡ holds_route entry t
unfolding holds_route has_triple
served-holds none t = refl
served-holds (some entry) t = section-lists t (get "static-route" entry)

IsOff-cong :
    (f g : Triple → Bool) (row : Tombstone) → ((t : Triple) → f t ≡ g t) → IsOff f row → IsOff g row
IsOff-cong f g row same (own, (deployed, reads, off)) =
    (sym (same _) ∙ own, (deployed, reads, moved deployed off))
  where
    moved : (o : Option Triple) → NotFound f o → NotFound g o
    moved none h = tt
    moved (some t) h = sym (same t) ∙ h

-- The keys that the program computes are apart from those that the instance serves.
pub served-IsOff :
    (row : Tombstone) {keys : List Triple} (entry : Option Fields)
    → authorized row ≡ ok keys
    → Apart keys (served_keys entry)
    → IsOff (holds_route entry) row
served-IsOff row entry e apart =
    IsOff-cong (λ k. has_triple k (served_keys entry)) (holds_route entry) row (served-holds entry)
      (keys-IsOff row (served_keys entry) e apart)
