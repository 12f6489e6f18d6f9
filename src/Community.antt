-- ===== src/Community.antt =====
-- core/community_dialect.py: community members in the canonical form and in Nokia's. A member is the
-- list of its code points, of ASCII text; it has at most 4300 of them, so that `int` takes its numbers.
pub mod Color
pub mod Report
mod Tests
pub mod Large
use Prim.Native.Nat.{zero, suc, ◌-◌, ◌*◌, ◌/◌, ◌%◌}
use nso_adapter.Prelude.{
  ℕ, ◌+◌, String, Bool, true, false, not, ◌&&◌, ◌||◌, Option, none, some, List, [], ◌∷◌, ◌++◌, ◌==◌,
  leb, ltb, map, length, if◌then◌else◌,
}
use nso_adapter.Results.{Result, ok, raised, value_error}
use nso_adapter.Text.{
  codes, strip, lower, text_eq, is_digit, all_digits, int_from, str_int, split, between,
}

-- `text in names`
unfoldable pub is_one_of : List ℕ → List String → Bool
unfolding text_eq
is_one_of t [] = false
is_one_of t (name ∷ rest) = text_eq t (codes name) || is_one_of t rest

-- `_WELL_KNOWN`
abbrev pub well_known : List String
well_known =
    "no-export" ∷ "no-advertise" ∷ "no-export-subconfed" ∷ "no-peer" ∷ "local-as" ∷ "internet"
    ∷ "none" ∷ []

unfoldable pub code_mem : ℕ → List ℕ → Bool
code_mem c [] = false
code_mem c (d ∷ rest) = c == d || code_mem c rest

-- `_typed_keyword`
abbrev pub keyword_of : List ℕ × List (List ℕ) → Option (List ℕ)
keyword_of (head, []) = none
keyword_of ([], _ ∷ _) = none
keyword_of (c ∷ head, _ ∷ _) = if is_digit c then none else some (map lower (c ∷ head))

unfoldable pub typed_keyword : List ℕ → Option (List ℕ)
unfolding split lower
typed_keyword member = keyword_of (split 58 member)

-- `_has_regex`
unfoldable pub has_regex : List ℕ → Bool
unfolding code_mem
has_regex [] = false
has_regex (c ∷ rest) = code_mem c (codes ".*[]()?+^$|\\") || has_regex rest

-- `text.isdigit()`
abbrev pub is_number : List ℕ → Bool
is_number [] = false
is_number (c ∷ rest) = all_digits (c ∷ rest)

-- The last `width` digits of a number in base 16, which are all of a number below `16 ** width`.
abbrev pub hex_digit : ℕ → ℕ
hex_digit d = if ltb d 10 then 48 + d else 87 + d

unfoldable pub hex : ℕ → ℕ → List ℕ → List ℕ
hex zero n after = after
hex (suc width) n after = hex width (n / 16) (hex_digit (n % 16) ∷ after)

-- `_color_to_nokia_ext`, of the parts after the keyword.
abbrev pub ext_of : ℕ → ℕ → List ℕ
ext_of co value = codes "ext:030b:" ++ (hex 4 (co * 16384) (hex 8 value []))

abbrev pub ext_parts : List ℕ → List ℕ → Option (List ℕ)
ext_parts co value =
    if is_number co && is_number value
    then if leb (int_from 0 co) 3 && leb (int_from 0 value) 4294967295
      then some (ext_of (int_from 0 co) (int_from 0 value))
      else none
    else none

abbrev pub color_parts : List (List ℕ) → Option (List ℕ)
color_parts (co ∷ value ∷ []) = ext_parts co value
color_parts _ = none

unfoldable pub color_to_nokia_ext : List ℕ → Option (List ℕ)
unfolding split all_digits int_from hex
color_to_nokia_ext member = color_parts (split 58 member).1

-- `text.removeprefix(prefix)`, of a text that has the prefix.
unfoldable pub after_prefix : List ℕ → List ℕ → Option (List ℕ)
after_prefix [] t = some t
after_prefix (p ∷ prefix) [] = none
after_prefix (p ∷ prefix) (c ∷ t) =
    let later = after_prefix prefix t in if p == c then later else none

-- `_HEX_DIGITS` and `int(text, 16)`
abbrev pub is_hex : ℕ → Bool
is_hex c = is_digit c || (between 97 102 c || between 65 70 c)

unfoldable pub all_hex : List ℕ → Bool
all_hex [] = true
all_hex (c ∷ rest) = is_hex c && all_hex rest

abbrev pub hex_value : ℕ → ℕ
hex_value c = if is_digit c then c - 48 else if between 97 102 c then c - 87 else c - 55

unfoldable pub hex_from : ℕ → List ℕ → ℕ
hex_from n [] = n
hex_from n (c ∷ rest) = hex_from (n * 16 + hex_value c) rest

unfoldable pub take : ℕ → List ℕ → List ℕ
take zero t = []
take (suc n) [] = []
take (suc n) (c ∷ t) = c ∷ take n t

unfoldable pub drop : ℕ → List ℕ → List ℕ
drop zero t = t
drop (suc n) [] = []
drop (suc n) (c ∷ t) = drop n t

abbrev pub color_text : ℕ → ℕ → List ℕ
color_text co value = codes "color:" ++ (str_int co ++ (58 ∷ str_int value))

-- `_nokia_ext_to_color`
abbrev pub color_of_hex : Option (List ℕ) → Option (List ℕ)
color_of_hex none = none
color_of_hex (some body) =
    if length body == 12 && all_hex body
    then some (color_text (hex_from 0 (take 4 body) / 16384) (hex_from 0 (drop 4 body)))
    else none

unfoldable pub nokia_ext_to_color : List ℕ → Option (List ℕ)
unfolding after_prefix all_hex hex_from take drop str_int
nokia_ext_to_color member = color_of_hex (after_prefix (codes "ext:030b:") member)

-- `_normalize_native_color`
abbrev native_parts : List (List ℕ) → Option (List ℕ)
native_parts (co ∷ value ∷ []) =
    if is_number co && is_number value
    then some (color_text (int_from 0 co) (int_from 0 value))
    else none
native_parts _ = none

abbrev native_color : Option (List ℕ) → List ℕ → Option (List ℕ)
native_color none member = none
native_color (some _) member = native_parts (split 58 member).1

unfoldable pub normalize_native_color : List ℕ → Option (List ℕ)
unfolding after_prefix split all_digits int_from str_int
normalize_native_color member = native_color (after_prefix (codes "color:") member) member

unfoldable pub count_of : ℕ → List ℕ → ℕ
count_of sep [] = 0
count_of sep (c ∷ rest) = (if c == sep then 1 else 0) + count_of sep rest

-- `text.replace(old, new)` of single characters.
unfoldable pub replaced : ℕ → ℕ → List ℕ → List ℕ
replaced old new [] = []
replaced old new (c ∷ rest) = (if c == old then new else c) ∷ replaced old new rest

-- `sep.join(parts)`
unfoldable pub joined : ℕ → List ℕ → List (List ℕ) → List ℕ
joined sep part [] = part
joined sep part (next ∷ rest) = part ++ (sep ∷ joined sep next rest)

pub data Dialect : Type 0 where
  identity nokia_timos : Dialect

-- `_NokiaCommunityDialect.to_canonical`, of a stripped member.
abbrev pub large_prefix : List ℕ
large_prefix = codes "large:"

abbrev pub restore_large : List ℕ → List ℕ
restore_large m =
    if count_of 58 m == 2
    then large_prefix ++ m
    else if count_of 38 m == 2
    then large_prefix ++ replaced 38 58 m
    else m

abbrev pub starts_with_digit : List ℕ → Bool
starts_with_digit [] = false
starts_with_digit (c ∷ rest) = is_digit c

abbrev pub is_none {ℓ} : {A : Type ℓ} → Option A → Bool
is_none none = true
is_none (some _) = false

abbrev pub restored : List ℕ → List ℕ
restored m = if is_none (typed_keyword m) && starts_with_digit m then restore_large m else m

abbrev pub or_else : Option (List ℕ) → List ℕ → List ℕ
or_else (some t) m = t
or_else none m = m

unfoldable pub nokia_to_canonical : List ℕ → List ℕ
unfolding nokia_ext_to_color normalize_native_color typed_keyword count_of replaced
nokia_to_canonical m =
    or_else (nokia_ext_to_color m) (or_else (normalize_native_color m) (restored m))

unfoldable pub to_canonical : Dialect → List ℕ → List ℕ
unfolding nokia_to_canonical strip
to_canonical identity member = member
to_canonical nokia_timos member = nokia_to_canonical (strip member)

-- `_large_from_canonical`; none is `UNREPRESENTABLE`.
unfoldable pub any_regex : List (List ℕ) → Bool
unfolding has_regex
any_regex [] = false
any_regex (part ∷ rest) = has_regex part || any_regex rest

abbrev pub large_body : List ℕ → List (List ℕ) → Option (List ℕ)
large_body a (b ∷ c ∷ []) =
    if any_regex (a ∷ b ∷ c ∷ [])
    then some (joined 38 a (b ∷ c ∷ []))
    else some (joined 58 a (b ∷ c ∷ []))
large_body a _ = none

abbrev pub large_parts : List (List ℕ) → Option (List ℕ)
large_parts [] = none
large_parts (a ∷ rest) = large_body a rest

unfoldable pub large_from_canonical : List ℕ → Option (List ℕ)
unfolding split any_regex joined
large_from_canonical member = large_parts (split 58 member).1

-- `_NokiaCommunityDialect.from_canonical`, of a stripped member.
abbrev pub by_keyword : Option (List ℕ) → List ℕ → Option (List ℕ)
by_keyword none m = some m
by_keyword (some keyword) m =
    if is_one_of keyword ("target" ∷ "origin" ∷ "ext" ∷ [])
    then some m
    else if text_eq keyword (codes "large")
    then large_from_canonical m
    else if text_eq keyword (codes "color")
    then color_to_nokia_ext m
    else none

unfoldable pub nokia_from_canonical : List ℕ → Option (List ℕ)
unfolding is_one_of lower typed_keyword large_from_canonical color_to_nokia_ext text_eq
nokia_from_canonical m =
    if is_one_of (map lower m) well_known then some m else by_keyword (typed_keyword m) m

unfoldable pub from_canonical : Dialect → List ℕ → Option (List ℕ)
unfolding nokia_from_canonical strip
from_canonical identity member = some member
from_canonical nokia_timos member = nokia_from_canonical (strip member)

-- `unrepresentable_members`
unfoldable pub member_mem : List ℕ → List (List ℕ) → Bool
unfolding text_eq
member_mem m [] = false
member_mem m (n ∷ rest) = text_eq m n || member_mem m rest

abbrev pub is_blank : List ℕ → Bool
is_blank [] = true
is_blank (_ ∷ _) = false

unfoldable pub report : Dialect → List (List ℕ) → List (List ℕ) → List (List ℕ)
unfolding member_mem from_canonical
report dialect seen [] = []
report dialect seen (m ∷ rest) =
    let skipped = report dialect seen rest in
    let later = report dialect (m ∷ seen) rest in
    if is_blank m || member_mem m seen
    then skipped
    else if is_none (from_canonical dialect m)
    then m ∷ later
    else later

unfoldable pub unrepresentable_members : Dialect → List (List ℕ) → List (List ℕ)
unfolding report
unrepresentable_members dialect members = report dialect [] members

-- `community_dialect_for` and `community_dialect_by_name`
unfoldable pub community_dialect_for : Option (List ℕ) → Dialect
unfolding after_prefix
community_dialect_for none = identity
community_dialect_for (some ned_id) =
    if is_none (after_prefix (codes "timos-nc") ned_id) then identity else nokia_timos

unfoldable pub community_dialect_by_name : List ℕ → Result Dialect
unfolding text_eq
community_dialect_by_name name =
    if text_eq name (codes "identity")
    then ok identity
    else if text_eq name (codes "nokia_timos")
    then ok nokia_timos
    else raised value_error
