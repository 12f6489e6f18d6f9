-- ===== src/Json/Laws.antt =====
-- Reading a JSON object after a change.
use nso_adapter.Prelude.{◌≡◌, refl, String, none, some, str_eq, if◌then◌else◌, arith, eq_iff}
use nso_adapter.Json.{Value, Fields, end, field, get, pop, put}

pub get-pop :
    (k name : String) (f : Fields) → get k (pop name f) ≡ (if str_eq name k then none else get k f)
unfolding get pop
get-pop k name end = ground arith
get-pop k name (field j v rest) =
    ground (arith, get-pop k name rest, eq_iff j name, eq_iff j k, eq_iff name k)

pub get-put :
    (k name : String) (v : Value) (f : Fields)
    → get k (put name v f) ≡ (if str_eq name k then some v else get k f)
unfolding get put
get-put k name v end = refl
get-put k name v (field j w rest) =
    ground
      (arith, get-put k name v rest, get-pop k name rest, eq_iff j name, eq_iff j k, eq_iff name k)
