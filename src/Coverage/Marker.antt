-- ===== src/Coverage/Marker.antt =====
-- The coverage marker never leaves the decoder of nso/collection_coverage.py.
use nso_adapter.Prelude.{
  ◌≡◌, refl, String, Bool, true, false, not, ◌&&◌, ◌||◌, List, [], ◌∷◌, str_eq, inl, inr,
  Bool-cases, arith, eq_iff, and-parts, and-both, or-parts, not-parts,
}
use nso_adapter.Json.{
  Value, Items, Fields, null, boolean, natural, number, text, array, object, nil, item, end, field,
  get, has_key, pop, put, text_mem,
}
use nso_adapter.Results.{Result, ok, >>=-eq-ok, check-eq-ok, ok-injective}
use nso_adapter.Coverage.{
  Body, leaf_list, list_of, Collections, childless, collection, collection_names, covered,
  refuses_marker, refuses_in_fields, refuses_in_items, refuses_outside, all_scalar, decode_entries,
  decode_by, served_items, decode_loop, decode_body, decode_parent, decode_section,
}

-- No object of the value, at whatever depth, has a field of the marker's name.
unfoldable mutual
  pub is_free : String → Value → Bool
  is_free marker (object node) = are_free_fields marker node
  is_free marker (array items) = are_free_items marker items
  is_free marker _ = true

  pub are_free_fields : String → Fields → Bool
  are_free_fields marker end = true
  are_free_fields marker (field k v rest) =
      not (str_eq k marker) && (is_free marker v && are_free_fields marker rest)

  pub are_free_items : String → Items → Bool
  are_free_items marker nil = true
  are_free_items marker (item v rest) = is_free marker v && are_free_items marker rest

-- No collection of the manifest, at whatever depth, has the marker's name.
unfoldable mutual
  pub is_plain : String → Collections → Bool
  is_plain marker childless = true
  is_plain marker (collection name body rest) =
      not (str_eq name marker) && (is_plain_body marker body && is_plain marker rest)

  pub is_plain_body : String → Body → Bool
  is_plain_body marker leaf_list = true
  is_plain_body marker (list_of keys cs) = is_plain marker cs

-- The fields outside the collections still to be decoded are free of the marker.
is_clean : String → List String → Fields → Bool
is_clean marker names end = true
is_clean marker names (field k v rest) =
    not (str_eq k marker) && ((text_mem k names || is_free marker v) && is_clean marker names rest)

mutual
  unfolding refuses_marker is_free has_key

  not-refused : (m : String) (v : Value) → refuses_marker m v ≡ false → is_free m v ≡ true
  not-refused m null h = refl
  not-refused m (boolean b) h = refl
  not-refused m (number n) h = refl
  not-refused m (natural n) h = refl
  not-refused m (text t) h = refl
  not-refused m (array items) h = not-refused_items m items h
  not-refused m (object node) h =
      let (absent, below) = or-parts (has_key m node) (refuses_in_fields m node) h in
      not-refused_fields m node absent below

  not-refused_fields :
      (m : String) (f : Fields)
      → has_key m f ≡ false
      → refuses_in_fields m f ≡ false
      → are_free_fields m f ≡ true
  not-refused_fields m end a h = refl
  not-refused_fields m (field k v rest) a h =
      let (other, absent) = or-parts (str_eq k m) (has_key m rest) a in
      let (here, later) = or-parts (refuses_marker m v) (refuses_in_fields m rest) h in
      rw other (and-both (not-refused m v here) (not-refused_fields m rest absent later))

  not-refused_items :
      (m : String) (items : Items)
      → refuses_in_items m items ≡ false
      → are_free_items m items ≡ true
  not-refused_items m nil h = refl
  not-refused_items m (item v rest) h =
      let (here, later) = or-parts (refuses_marker m v) (refuses_in_items m rest) h in
      and-both (not-refused m v here) (not-refused_items m rest later)

pop-clean :
    (m : String) (names : List String) (f : Fields)
    → refuses_outside m names (pop m f) ≡ false
    → is_clean m names (pop m f) ≡ true
unfolding refuses_outside is_clean pop
pop-clean m names end h = refl
pop-clean m names (field k v rest) h = elim (Bool-cases (str_eq k m)) [
  | inl e ↦ ground (arith, e, pop-clean m names rest)
  | inr e ↦ ground (arith, e, h, not-refused m v, pop-clean m names rest)
]

clean-pop :
    (m name : String) (names : List String) (f : Fields)
    → is_clean m (name ∷ names) f ≡ true
    → is_clean m names (pop name f) ≡ true
unfolding is_clean pop text_mem
clean-pop m name names end h = refl
clean-pop m name names (field k v rest) h =
    ground (arith, h, clean-pop m name names rest, eq_iff k name, eq_iff name k)

clean-put :
    (m name : String) (names : List String) (v : Value) (f : Fields)
    → str_eq name m ≡ false
    → is_free m v ≡ true
    → is_clean m (name ∷ names) f ≡ true
    → is_clean m names (put name v f) ≡ true
unfolding is_clean put text_mem
clean-put m name names v end e free h = ground arith
clean-put m name names v (field k w rest) e free h = ground (
  arith,
  clean-put m name names v rest,
  clean-pop m name names rest,
  eq_iff k name,
  eq_iff name k,
)

clean_lem : (m : String) (f : Fields) → is_clean m [] f ≡ true → are_free_fields m f ≡ true
unfolding is_clean is_free text_mem
clean_lem m end h = refl
clean_lem m (field k v rest) h =
    let (other, inner) = and-parts (not (str_eq k m)) (is_free m v && is_clean m [] rest) h in
    let (free, later) = and-parts (is_free m v) (is_clean m [] rest) inner in
    and-both other (and-both free (clean_lem m rest later))

scalar-free : (m : String) (items : Items) → all_scalar items ≡ true → are_free_items m items ≡ true
unfolding is_free all_scalar
scalar-free m nil h = refl
scalar-free m (item null rest) h = cc
scalar-free m (item (boolean b) rest) h = scalar-free m rest h
scalar-free m (item (number n) rest) h = scalar-free m rest h
scalar-free m (item (natural n) rest) h = scalar-free m rest h
scalar-free m (item (text t) rest) h = scalar-free m rest h
scalar-free m (item (array a) rest) h = cc
scalar-free m (item (object f) rest) h = cc

entries-free :
    (m : String) (decode : Fields → Result Fields) (items : Items) {done : Items}
    → ((f : Fields) (out : Fields) → decode f ≡ ok out → are_free_fields m out ≡ true)
    → decode_entries decode items ≡ ok done
    → are_free_items m done ≡ true
unfolding is_free decode_entries
entries-free m decode nil each h = rw (← ok-injective h)
entries-free m decode (item (object f) rest) each h =
    let (out, e, h') = >>=-eq-ok (decode f) _ h in
    let (later, e', h'') = >>=-eq-ok (decode_entries decode rest) _ h' in
    rw (← ok-injective h'') (and-both (each f out e) (entries-free m decode rest each e'))
entries-free m decode (item null rest) each h = cc
entries-free m decode (item (boolean b) rest) each h = cc
entries-free m decode (item (number n) rest) each h = cc
entries-free m decode (item (natural n) rest) each h = cc
entries-free m decode (item (text t) rest) each h = cc
entries-free m decode (item (array a) rest) each h = cc

decode_by-free :
    (m : String) (cs : Collections) (loop : Fields → List String → Fields → Result Fields)
    (node : Fields) (out : Fields)
    → ((names : List String) (start : Fields)
        → is_clean m (collection_names cs) start ≡ true
        → loop node names start ≡ ok out
        → are_free_fields m out ≡ true)
    → decode_by m cs loop node ≡ ok out
    → are_free_fields m out ≡ true
decode_by-free m cs loop node out each h =
    let (names, e, h') = >>=-eq-ok (covered m node cs) _ h in
    let (quiet, h'') =
      check-eq-ok (not (refuses_outside m (collection_names cs) (pop m node))) _ _ h' in
    each names (pop m node) (pop-clean m (collection_names cs) node (not-parts _ quiet)) h''

free_array :
    (m : String) (items : Items) → are_free_items m items ≡ true → is_free m (array items) ≡ true
unfolding is_free
free_array m items h = h

mutual
  unfolding decode_loop is_plain collection_names

  loop-free :
      (m : String) (cs : Collections) (node : Fields) (names : List String) (start : Fields)
      {out : Fields}
      → is_plain m cs ≡ true
      → is_clean m (collection_names cs) start ≡ true
      → decode_loop m cs node names start ≡ ok out
      → are_free_fields m out ≡ true
  loop-free m childless node names start plain clean h =
      rw (← ok-injective h) (clean_lem m start clean)
  loop-free m (collection name body rest) node names start plain clean h =
      let (other, inner) =
        and-parts (not (str_eq name m)) (is_plain_body m body && is_plain m rest) plain in
      let (here, later) = and-parts (is_plain_body m body) (is_plain m rest) inner in
      elim (Bool-cases (text_mem name names)) [
        | inr e ↦
            loop-free m rest node names (pop name start) later
              (clean-pop m name (collection_names rest) start clean) (rw e at h)
        | inl e ↦
            let (items, _, h') = >>=-eq-ok (served_items (get name node)) _ (rw e at h) in
            let (done, e', h'') = >>=-eq-ok (decode_body m body items) _ h' in
            loop-free m rest node names (put name (array done) start) later
              (clean-put m name (collection_names rest) (array done) start (not-parts _ other)
                (free_array m done (body-free m body items here e')) clean)
              h''
      ]

  body-free :
      (m : String) (body : Body) (items : Items) {done : Items}
      → is_plain_body m body ≡ true
      → decode_body m body items ≡ ok done
      → are_free_items m done ≡ true
  body-free m leaf_list items plain h =
      let (scalar, h') = check-eq-ok (all_scalar items) _ _ h in
      rw (← ok-injective h') (scalar-free m items scalar)
  body-free m (list_of keys cs) items plain h =
      entries-free m (decode_by m cs (decode_loop m cs)) items
        (λ f out.
          decode_by-free m cs (decode_loop m cs) f out
            (λ names start. loop-free m cs f names start plain))
        h

-- If no collection of the manifest has the marker's name, no object of a decoded section, at
-- whatever depth, has a field of that name.
pub marker_never_leaves :
    (m : String) (cs : Collections) (section : Value) {out : Fields}
    → is_plain m cs ≡ true
    → decode_section m cs section ≡ ok out
    → is_free m (object out) ≡ true
unfolding decode_section decode_parent is_free
marker_never_leaves m cs (object node) {out} plain h =
    decode_by-free m cs (decode_loop m cs) node out
      (λ names start. loop-free m cs node names start plain) h
marker_never_leaves m cs null plain h = cc
marker_never_leaves m cs (boolean b) plain h = cc
marker_never_leaves m cs (number n) plain h = cc
marker_never_leaves m cs (natural n) plain h = cc
marker_never_leaves m cs (text t) plain h = cc
marker_never_leaves m cs (array a) plain h = cc
