-- ===== src/Value/Lookup.antt =====
-- What a dict gives for a key after one of its keys is set.
use filum_reforge.Base.{String, ◌≡◌, arith, eq_iff, ◌==◌, if◌then◌else◌}
use filum_reforge.Value.{Value, Fields, end, field, field_of, get, set_field}

pub get-set_field :
    (k j : String) (v : Value) (fs : Fields)
    → get (set_field k v fs) j ≡ (if k == j then v else get fs j)
unfolding get set_field field_of
get-set_field k j v end = ground (arith, eq_iff k j)
get-set_field k j v (field i w rest) =
    ground (arith, get-set_field k j v rest, eq_iff i k, eq_iff i j, eq_iff k j)
