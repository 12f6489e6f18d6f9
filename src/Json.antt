-- ===== src/Json.antt =====
-- Decoded JSON documents, as Python's `json` and httpx hand them over. A dict is a list of keys and
-- values, read by its first entry for a key; `put` and `pop` leave one entry or none. A number that
-- is no natural number is its text.
pub mod Laws
use nso_adapter.Prelude.{
  ℕ, String, Bool, true, false, not, ◌&&◌, ◌||◌, Option, none, some, List, [], ◌∷◌, str_eq,
  if◌then◌else◌,
}

mutual
  pub data Value : Type 0 where
    null : Value
    boolean : Bool → Value
    natural : ℕ → Value
    number : String → Value
    text : String → Value
    array : Items → Value
    object : Fields → Value

  pub data Items : Type 0 where
    nil : Items
    item : Value → Items → Items

  pub data Fields : Type 0 where
    end : Fields
    field : String → Value → Fields → Fields

-- `node.get(key)`
unfoldable pub get : String → Fields → Option Value
get k end = none
get k (field j v rest) = if str_eq j k then some v else get k rest

-- `key in node`
unfoldable pub has_key : String → Fields → Bool
has_key k end = false
has_key k (field j v rest) = str_eq j k || has_key k rest

-- `node.pop(key, None)`
unfoldable pub pop : String → Fields → Fields
pop k end = end
pop k (field j v rest) = let later = pop k rest in if str_eq j k then later else field j v later

-- `node[key] = value`: an entry is overwritten in its place.
unfoldable pub put : String → Value → Fields → Fields
unfolding pop
put k v end = field k v end
put k v (field j w rest) =
    let later = put k v rest in if str_eq j k then field j v (pop k rest) else field j w later

-- `text in list`
unfoldable pub text_mem : String → List String → Bool
text_mem k [] = false
text_mem k (j ∷ rest) = str_eq j k || text_mem k rest

-- `len(set(l)) == len(l)`
unfoldable pub all_distinct : List String → Bool
unfolding text_mem
all_distinct [] = true
all_distinct (k ∷ rest) = not (text_mem k rest) && all_distinct rest

-- `set(a) <= set(b)`
unfoldable pub all_in : List String → List String → Bool
unfolding text_mem
all_in [] s = true
all_in (k ∷ rest) s = text_mem k s && all_in rest s

unfoldable pub keys_of : Fields → List String
keys_of end = []
keys_of (field k v rest) = k ∷ keys_of rest

-- `set(node) == keys`
unfoldable pub has_keys : List String → Fields → Bool
unfolding keys_of all_in
has_keys ks node = all_in ks (keys_of node) && all_in (keys_of node) ks
