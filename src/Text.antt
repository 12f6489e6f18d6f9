-- ===== src/Text.antt =====
-- Python texts by their code points.
pub mod Decimal
pub mod Equality
pub mod Solid
use Prim.Native.Nat.{zero, suc, ◌-◌, ◌*◌, ◌/◌, ◌%◌}
use nso_adapter.Prelude.{
  ℕ, ◌+◌, String, Bool, true, false, ◌&&◌, ◌||◌, List, [], ◌∷◌, ◌==◌, leb, if◌then◌else◌,
}
use Prim.Native.String.{String}
use Prim.Native.Char.{code}
use mathlib.Core.List.{reverse}

-- The code points of a literal.
abbrev pub codes : String → List ℕ
codes String.[] = []
codes (String.◌∷◌ c s) = code c ∷ codes s

abbrev pub between : ℕ → ℕ → ℕ → Bool
between lo hi c = leb lo c && leb c hi

-- `str.isspace`
unfoldable pub is_space : ℕ → Bool
is_space c =
    between 9 13 c
    || (between 28 32 c
        || (c == 133
            || (c == 160
                || (c == 5760
                    || (between 8192 8202 c
                        || (between 8232 8233 c || (c == 8239 || (c == 8287 || c == 12288))))))))

unfoldable pub lstrip : List ℕ → List ℕ
unfolding is_space
lstrip [] = []
lstrip (c ∷ rest) = let later = lstrip rest in if is_space c then later else c ∷ rest

-- `str.strip`
unfoldable pub strip : List ℕ → List ℕ
unfolding lstrip
strip t = reverse (lstrip (reverse (lstrip t)))

-- `str.lower` of a code point. Of the others only U+212A has an ASCII letter, `k`, as its image.
unfoldable pub lower : ℕ → ℕ
lower c = if between 65 90 c then c + 32 else if c == 8490 then 107 else c

unfoldable pub text_eq : List ℕ → List ℕ → Bool
text_eq [] [] = true
text_eq (a ∷ s) (b ∷ t) = a == b && text_eq s t
text_eq _ _ = false

-- `str.isdigit` of ASCII text, of one code point.
abbrev pub is_digit : ℕ → Bool
is_digit c = between 48 57 c

unfoldable pub all_digits : List ℕ → Bool
all_digits [] = true
all_digits (c ∷ rest) = is_digit c && all_digits rest

-- `int(text)` of decimal digits, read on from a number.
unfoldable pub int_from : ℕ → List ℕ → ℕ
int_from n [] = n
int_from n (c ∷ rest) = int_from (n * 10 + (c - 48)) rest

-- `str(n)`: a number has fewer digits than its successor counts.
unfoldable pub write : ℕ → ℕ → List ℕ → List ℕ
write zero n after = after
write (suc fuel) n after =
    let earlier = write fuel (n / 10) ((48 + n % 10) ∷ after) in
    if n / 10 == 0 then (48 + n % 10) ∷ after else earlier

unfoldable pub str_int : ℕ → List ℕ
unfolding write
str_int n = write (suc n) n []

-- `text.split(sep)`: the first part, and the parts after it.
abbrev pub before_first : Bool → ℕ → List ℕ × List (List ℕ) → List ℕ × List (List ℕ)
before_first true c (part, parts) = ([], part ∷ parts)
before_first false c (part, parts) = (c ∷ part, parts)

unfoldable pub split : ℕ → List ℕ → List ℕ × List (List ℕ)
split sep [] = ([], [])
split sep (c ∷ rest) = before_first (c == sep) c (split sep rest)
