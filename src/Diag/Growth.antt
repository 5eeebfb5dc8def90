-- ===== src/Diag/Growth.antt =====
-- What `diag_emit` keeps: the entries fit the buffer, and the counters count the entries.
use rayac.Base.{ℕ, ◌+◌, ◌≤◌, List, [], ◌∷◌, ◌++◌, ltb, ◌≡◌, refl, length, length-append, arith}
use rayac.Diag.Engine.{
  SourceLocation, DiagKind, diag_error, diag_warning, Message, Diagnostic, DiagnosticEngine,
  diag_init, diag_emit,
}

abbrev pub one_if_error : DiagKind → ℕ
one_if_error diag_error = 1
one_if_error _ = 0

abbrev pub one_if_warning : DiagKind → ℕ
one_if_warning diag_warning = 1
one_if_warning _ = 0

abbrev pub errors_in : List Diagnostic → ℕ
errors_in [] = 0
errors_in (x ∷ xs) = one_if_error x.kind + errors_in xs

abbrev pub warnings_in : List Diagnostic → ℕ
warnings_in [] = 0
warnings_in (x ∷ xs) = one_if_warning x.kind + warnings_in xs

-- The invariant of the engine.
pub record IsValid (d : DiagnosticEngine) : Type 0 where
  pub counted : d.count ≡ length d.items
  pub fits : d.count ≤ d.capacity
  pub errors : d.error_count ≡ errors_in d.items
  pub warnings : d.warning_count ≡ warnings_in d.items
  pub flag : d.has_errors ≡ ltb 0 d.error_count

errors_in-append : (xs ys : List Diagnostic) → errors_in (xs ++ ys) ≡ errors_in xs + errors_in ys
errors_in-append [] ys = omega arith
errors_in-append (x ∷ xs) ys = omega (arith, errors_in-append xs ys)

warnings_in-append :
    (xs ys : List Diagnostic) → warnings_in (xs ++ ys) ≡ warnings_in xs + warnings_in ys
warnings_in-append [] ys = omega arith
warnings_in-append (x ∷ xs) ys = omega (arith, warnings_in-append xs ys)

pub diag_init-IsValid : IsValid diag_init
unfolding diag_init
diag_init-IsValid = record {
  counted = refl;
  fits = omega arith;
  errors = refl;
  warnings = refl;
  flag = refl;
}

-- `diag_emit` keeps the engine valid: the buffer always has room for the entries, and the two
-- counters and the flag agree with the entries recorded.
pub diag_emit-IsValid :
    {d : DiagnosticEngine} (kind : DiagKind) (loc : SourceLocation) (message : Message)
    → IsValid d
    → IsValid (diag_emit d kind loc message)
unfolding diag_emit
diag_emit-IsValid {d} diag_error loc message v = ground (
  arith,
  length-append d.items (record { kind = diag_error; loc = loc; message = message } ∷ []),
  errors_in-append d.items (record { kind = diag_error; loc = loc; message = message } ∷ []),
  warnings_in-append d.items (record { kind = diag_error; loc = loc; message = message } ∷ []),
)
diag_emit-IsValid {d} kind loc message v = ground (
  arith,
  length-append d.items (record { kind = kind; loc = loc; message = message } ∷ []),
  errors_in-append d.items (record { kind = kind; loc = loc; message = message } ∷ []),
  warnings_in-append d.items (record { kind = kind; loc = loc; message = message } ∷ []),
)
