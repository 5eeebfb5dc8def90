-- ===== src/Tests/Typing.antt =====
-- The type table and the coercions at small inputs.
use rayac.Base.{
  ℕ, ◌+◌, ◌*◌, bytes_eq, true, false, ◌≡◌, ◌↔◌, refl, some, [], ◌∷◌, codes, if◌then◌else◌,
}
use rayac.Types.Canonical.{
  Interned, intern_type-Interned, intern_all, st_eq-intern, type_table_new-IsValid,
}
use rayac.Types.Coerce.{st_can_coerce}
use rayac.Types.Coercions.{coerce_float_integer}
use rayac.Types.Interning.{find-intern}
use rayac.Types.Key.{key, type_shape_eq_iff, shape_eq-hash}
use rayac.Ast.Syntax.{null}
use rayac.Types.Shape.{
  SType, integer, floating, reference, optional, struct_, zero_struct, void, type_shape_eq,
  hash_type_shape,
}
use rayac.Types.Table.{TypeTable, type_table_new, find_type, intern_type, st_eq}

abbrev addresses : ℕ → ℕ
addresses r = 4096 + 64 * r

abbrev new_table : TypeTable
new_table = type_table_new addresses

abbrev i32 : SType
i32 = integer true 32

abbrev i64 : SType
i64 = integer true 64

abbrev f64 : SType
f64 = floating 64

abbrev point : SType
point = struct_ (record { data_ = codes "Point"; len = 5 }) 0 zero_struct

-- The same name, at another place of the source, and a field.
abbrev point_again : SType
point_again =
    struct_ (record { data_ = codes "Point{ }"; len = 5 }) 0
      (record zero_struct {
        fields =
            record {
              name = record { data_ = codes "x"; len = 1 };
              type = some 0;
              default_value = null;
            }
            ∷ [];
        field_count = 1;
      })

st_eq-intern_example :
    st_eq
      (intern_type new_table point).0
      (intern_type (intern_all (intern_type new_table point).1 (i32 ∷ void ∷ [])) point_again).0
    ≡ type_shape_eq point point_again
st_eq-intern_example =
    st_eq-intern new_table point (i32 ∷ void ∷ []) point_again (type_table_new-IsValid addresses)

find-intern_example : find_type (intern_type new_table i32).1 i64 ≡ (
    if type_shape_eq i32 i64 then some (intern_type new_table i32).0 else find_type new_table i64)
find-intern_example = find-intern new_table i32 i64 (type_table_new-IsValid addresses)

intern_type-Interned_example : Interned new_table point (intern_type new_table point)
intern_type-Interned_example =
    intern_type-Interned new_table point (type_table_new-IsValid addresses)

same_point : type_shape_eq point point_again ≡ true
unfolding type_shape_eq bytes_eq
same_point = refl

type_shape_eq_iff_example : (type_shape_eq point point_again ≡ true) ↔ (key point ≡ key point_again)
type_shape_eq_iff_example = type_shape_eq_iff point point_again

shape_eq-hash_example : hash_type_shape addresses point ≡ hash_type_shape addresses point_again
shape_eq-hash_example = shape_eq-hash addresses point point_again same_point

-- At 0 to 5: two integers, a float, two references, an optional.
abbrev table : TypeTable
table = record {
  cells =
      record { shape = i32; hash = 0 }
      ∷ record { shape = i64; hash = 0 }
      ∷ record { shape = f64; hash = 0 }
      ∷ record { shape = reference false 0; hash = 0 }
      ∷ record { shape = reference true 0; hash = 0 }
      ∷ record { shape = optional 1; hash = 0 }
      ∷ [];
  buckets = [];
  address = addresses;
}

coerce_float_integer_example : st_can_coerce table 2 1 ≡ false
coerce_float_integer_example = coerce_float_integer table 2 1 true 64 64 refl refl
