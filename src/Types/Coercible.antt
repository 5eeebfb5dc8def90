-- ===== src/Types/Coercible.antt =====
-- The coercions by rules, and `st_can_coerce` as their decision.
use rayac.Base.{ℕ, ◌≤◌, Bool, true, false, ◌≡◌}
use rayac.Types.Coerce.{st_can_coerce}
use rayac.Types.Coercions.{AreOlder}
use rayac.Types.Shape.{SType, integer, floating, pointer, reference, optional, error_union}
use rayac.Types.Table.{TypeTable, shape_at}

abbrev pub is_reference : SType → Bool
is_reference (reference c b) = true
is_reference _ = false

-- A type is taken for another one by a derivation of these rules. A number is taken for one of its
-- kind with as many bits or more, an integer for any float. A reference gains `const`, is read to the
-- type that it refers to, and is taken of a value; not so between two references. An optional takes
-- what its base takes, and an error union what its success or its error takes.
pub data Coerces (t : TypeTable) (from : ℕ) : ℕ → Type 0 where
  same : Coerces t from from
  widens :
      {to : ℕ} {s : Bool} {b b' : ℕ}
      → shape_at t from ≡ integer s b
      → shape_at t to ≡ integer s b'
      → b ≤ b'
      → Coerces t from to
  widens_float :
      {to b b' : ℕ}
      → shape_at t from ≡ floating b
      → shape_at t to ≡ floating b'
      → b ≤ b'
      → Coerces t from to
  to_float :
      {to : ℕ} {s : Bool} {b b' : ℕ}
      → shape_at t from ≡ integer s b
      → shape_at t to ≡ floating b'
      → Coerces t from to
  into_optional : {to b : ℕ} → shape_at t to ≡ optional b → Coerces t from b → Coerces t from to
  gains_const :
      {to b : ℕ}
      → shape_at t from ≡ reference false b
      → shape_at t to ≡ reference true b
      → Coerces t from to
  read_reference :
      {to : ℕ} {c : Bool}
      → shape_at t from ≡ reference c to
      → is_reference (shape_at t to) ≡ false
      → Coerces t from to
  read_pointer : {to : ℕ} {c : Bool} → shape_at t from ≡ pointer c to → Coerces t from to
  refers :
      {to : ℕ} {c : Bool}
      → shape_at t to ≡ reference c from
      → is_reference (shape_at t from) ≡ false
      → Coerces t from to
  success : {to s e : ℕ} → shape_at t to ≡ error_union s e → Coerces t from s → Coerces t from to
  failure : {to s e : ℕ} → shape_at t to ≡ error_union s e → Coerces t from e → Coerces t from to

module _ (t : TypeTable) (from : ℕ) (o : AreOlder t) where
  abbrev call : ℕ → Bool
  call b = st_can_coerce t from b
