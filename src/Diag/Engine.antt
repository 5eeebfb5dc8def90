-- ===== src/Diag/Engine.antt =====
-- `SourceLocation`, `Diagnostic`, `DiagnosticEngine`, `diag_init` and `diag_emit`. The text that
-- `vsnprintf` makes is kept unmade: a `Message` is the format and its arguments.
use rayac.Base.{
  ℕ, ◌+◌, ◌*◌, Bool, true, false, List, [], ◌∷◌, ◌++◌, Bytes, leb, ◌==◌, if◌then◌else◌,
}

pub record SourceLocation : Type 0 where
  pub filename : Bytes
  pub line : ℕ
  pub column : ℕ
  pub offset : ℕ

unfoldable pub loc_make : Bytes → ℕ → ℕ → ℕ → SourceLocation
loc_make filename line column offset = record {
  filename = filename;
  line = line;
  column = column;
  offset = offset;
}

pub data DiagKind : Type 0 where
  diag_error diag_warning diag_note : DiagKind

-- An argument of a format: bytes for `%.*s` and `%s`, a number, or the name of a type, which is
-- given by its place in the type table.
pub data Arg : Type 0 where
  text : Bytes → Arg
  number : ℕ → Arg
  type_name : ℕ → Arg

pub record Message : Type 0 where
  pub format : Bytes
  pub args : List Arg

pub record Diagnostic : Type 0 where
  pub kind : DiagKind
  pub loc : SourceLocation
  pub message : Message

-- `items` holds the `count` entries in use.
pub record DiagnosticEngine : Type 0 where
  pub items : List Diagnostic
  pub count : ℕ
  pub capacity : ℕ
  pub error_count : ℕ
  pub warning_count : ℕ
  pub has_errors : Bool

unfoldable pub diag_init : DiagnosticEngine
diag_init = record {
  items = [];
  count = 0;
  capacity = 0;
  error_count = 0;
  warning_count = 0;
  has_errors = false;
}

abbrev grown_capacity : ℕ → ℕ
grown_capacity capacity = if capacity == 0 then 16 else capacity * 2

-- The counters of the kind, at the end of `diag_emit`.
count_kind : DiagKind → DiagnosticEngine → DiagnosticEngine
count_kind diag_error d = record d { error_count = d.error_count + 1; has_errors = true }
count_kind diag_warning d = record d { warning_count = d.warning_count + 1 }
count_kind diag_note d = d

unfoldable pub diag_emit : DiagnosticEngine → DiagKind → SourceLocation → Message → DiagnosticEngine
unfolding count_kind
diag_emit d kind loc message = count_kind kind (record d {
  items = d.items ++ (record { kind = kind; loc = loc; message = message } ∷ []);
  count = d.count + 1;
  capacity = if leb d.capacity d.count then grown_capacity d.capacity else d.capacity;
})
