-- ===== src/StringView/View.antt =====
-- `StringView` and its functions. `data` is what can be read from the pointer on, which may be
-- longer than the `len` bytes of the view; a null pointer has no bytes.
use rayac.Base.{
  ℕ, zero, suc, ◌+◌, ◌-◌, ◌*◌, ◌≤◌, Bool, false, ◌||◌, [], ◌∷◌, Bytes, length, take, drop, bytes_eq,
  ltb, ◌==◌, not, if◌then◌else◌,
}

pub record StringView : Type 0 where
  pub data_ : Bytes
  pub len : ℕ

-- The bytes of the view.
abbrev pub content : StringView → Bytes
content s = take s.len s.data_

-- The view lies in memory that can be read.
abbrev pub IsReadable : StringView → Type 0
IsReadable s = s.len ≤ length s.data_

unfoldable pub sv_from_cstr : Bytes → StringView
sv_from_cstr s = record { data_ = s; len = length s }

unfoldable pub sv_from_ptr_len : Bytes → ℕ → StringView
sv_from_ptr_len s len = record { data_ = s; len = len }

-- `memcmp(a, b, n) == 0`
abbrev pub memcmp_eq : Bytes → Bytes → ℕ → Bool
memcmp_eq a b n = bytes_eq (take n a) (take n b)

unfoldable pub sv_eq : StringView → StringView → Bool
sv_eq a b = if not (a.len == b.len) then false else memcmp_eq a.data_ b.data_ a.len

unfoldable pub sv_eq_cstr : StringView → Bytes → Bool
sv_eq_cstr a b =
    let blen = length b in if not (a.len == blen) then false else memcmp_eq a.data_ b a.len

-- The first two tests of `sv_slice`.
abbrev clamp_to : ℕ → ℕ → ℕ
clamp_to limit n = if ltb limit n then limit else n

-- The view between two positions, which are swapped where they are out of order.
unfoldable pub between : StringView → ℕ → ℕ → StringView
between s start end =
    if ltb end start
    then record { data_ = drop end s.data_; len = start - end }
    else record { data_ = drop start s.data_; len = end - start }

unfoldable pub sv_slice : StringView → ℕ → ℕ → StringView
unfolding between
sv_slice s start end = between s (clamp_to s.len start) (clamp_to s.len end)

-- The result of `sv_to_int`: -1, a value, or the undefined behaviour of a signed overflow.
pub data IntResult : Type 0 where
  minus_one : IntResult
  value : ℕ → IntResult
  overflow out_of_bounds : IntResult

abbrev pub int_max : ℕ
int_max = 2147483647

abbrev pub is_decimal : ℕ → Bool
is_decimal c = not (ltb c b'0' || ltb b'9' c)

-- The loop, with as many rounds left as the number says, at the bytes behind `data + i` and the value so
-- far. A read behind the last byte is out of bounds.
unfoldable pub to_int_loop : ℕ → Bytes → ℕ → IntResult
to_int_loop zero cs val = value val
to_int_loop (suc n) [] val = out_of_bounds
to_int_loop (suc n) (c ∷ cs) val =
    let rest = to_int_loop n cs (val * 10 + (c - b'0')) in
    if ltb c b'0' || ltb b'9' c
    then minus_one
    else if ltb int_max (val * 10 + (c - b'0'))
    then overflow
    else rest

unfoldable pub sv_to_int : StringView → IntResult
unfolding to_int_loop
sv_to_int sv = if sv.len == 0 then minus_one else to_int_loop sv.len sv.data_ 0
