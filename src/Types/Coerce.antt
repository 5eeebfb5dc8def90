-- ===== src/Types/Coerce.antt =====
-- `st_is_integer`, `st_is_numeric` and `st_can_coerce`.
use rayac.Base.{
  ℕ, zero, suc, Bool, true, false, not, ◌&&◌, ◌||◌, Option, none, some, leb, if◌then◌else◌,
}
use rayac.Types.Shape.{
  SType, integer, floating, pointer, reference, optional, error_union, same_bool,
}
use rayac.Types.Table.{TypeTable, shape_at, st_eq}

unfoldable pub is_integer : SType → Bool
is_integer (integer _ _) = true
is_integer _ = false

unfoldable pub is_numeric : SType → Bool
is_numeric (integer _ _) = true
is_numeric (floating _) = true
is_numeric _ = false

abbrev pub st_is_integer : TypeTable → ℕ → Bool
st_is_integer t r = is_integer (shape_at t r)

abbrev pub st_is_numeric : TypeTable → ℕ → Bool
st_is_numeric t r = is_numeric (shape_at t r)

-- The tests on two numbers, which return where both are numbers but for a `float` to an `int`.
unfoldable pub numeric_rule : SType → SType → Option Bool
numeric_rule (integer s b) (integer s' b') = some (same_bool s s' && leb b b')
numeric_rule (floating b) (floating b') = some (leb b b')
numeric_rule (integer s b) (floating b') = some true
numeric_rule _ _ = none

-- The test on two references, which returns.
unfoldable pub reference_rule : SType → SType → Option Bool
reference_rule (reference c b) (reference c' b') = some (not c && (c' && st_eq b b'))
reference_rule _ _ = none

-- A reference or a pointer is read through to the type `to`.
reads_through : SType → ℕ → Bool
reads_through (reference c b) to = st_eq b to
reads_through (pointer c b) to = st_eq b to
reads_through _ to = false

-- The type `from` is referred to.
is_referred : ℕ → SType → Bool
is_referred from (reference c b) = st_eq from b
is_referred from _ = false

unfoldable pub pointer_rule : SType → ℕ → SType → ℕ → Bool
unfolding reads_through is_referred
pointer_rule f from t to = reads_through f to || is_referred from t

-- The types inside `to` that the code recurs on, first the one before the tests on references and
-- then those behind them.
abbrev pub inside : SType → Option ℕ
inside (optional b) = some b
inside _ = none

abbrev pub inside_union : SType → Option (ℕ × ℕ)
inside_union (error_union success error) = some (success, error)
inside_union _ = none

-- The call on the type inside an optional, where `to` is one, and on the two inside an error union.
abbrev pub optional_part : (ℕ → Bool) → SType → Bool
optional_part call t = elim (inside t) [ none ↦ false | some b ↦ call b ]

abbrev pub union_part : (ℕ → Bool) → SType → Bool
union_part call t = elim (inside_union t) [ none ↦ false | some (s, e) ↦ call s || call e ]

-- `st_can_coerce` behind its first test; `call` is the recursive call from the same `from`.
unfoldable pub coerce_shapes : SType → SType → (ℕ → Bool) → ℕ → ℕ → Bool
unfolding numeric_rule reference_rule pointer_rule
coerce_shapes f t call from to = elim (numeric_rule f t) [
  | some b ↦ b
  | none ↦ if optional_part call t then true else elim (reference_rule f t) [
    | some b ↦ b
    | none ↦ if pointer_rule f from t to then true else union_part call t
  ]
]

unfoldable pub coerce_step : TypeTable → (ℕ → Bool) → ℕ → ℕ → Bool
unfolding coerce_shapes
coerce_step t call from to = coerce_shapes (shape_at t from) (shape_at t to) call from to

-- `fuel` bounds how deep `to` is taken apart. The test `st_eq(from, to)` of the case of two error
-- unions is false there, since the first test has failed.
unfoldable pub can_coerce_in : ℕ → TypeTable → ℕ → ℕ → Bool
can_coerce_in zero t from to = false
can_coerce_in (suc fuel) t from to =
    if st_eq from to then true else coerce_step t (λ b. can_coerce_in fuel t from b) from to

-- A type is built of types that are older, so that its place bounds its depth.
unfoldable pub st_can_coerce : TypeTable → ℕ → ℕ → Bool
st_can_coerce t from to = can_coerce_in (suc to) t from to
