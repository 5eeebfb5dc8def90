-- ===== src/Sema/State.antt =====
-- The state of the semantic analysis and its monad. `none` is a crash: a null pointer that is read,
-- or a stack that overflows. What the analysis writes into the nodes of the tree is kept beside the
-- tree, by the number of the node, the latest entry first.
use rayac.Base.{
  ℕ, zero, suc, ◌+◌, Bool, false, Option, none, some, List, [], ◌∷◌, String, codes, ◌==◌,
  if◌then◌else◌, replicate,
}
use rayac.Ast.Syntax.{AstNode}
use rayac.Diag.Engine.{SourceLocation, DiagnosticEngine, Arg, diag_error, diag_emit}
use rayac.StringView.View.{StringView}
use rayac.Symbol.Scope.{Symbol, Scope, scope_new, scope_insert, scope_lookup}
use rayac.Types.Shape.{SType}
use rayac.Types.Table.{TypeTable, type_table_new, shape_at}

pub record MethodEntry : Type 0 where
  pub type_name : StringView
  pub method_name : StringView
  pub fn_decl : AstNode

pub record Sema : Type 0 where
  pub types : TypeTable
  pub scopes : List (Scope AstNode)
  pub module_scope : ℕ
  pub current_scope : ℕ
  pub current_self_type : Option ℕ
  pub current_fn : Option AstNode
  pub diag : DiagnosticEngine
  pub error_count : ℕ
  pub in_unsafe : Bool
  pub current_fn_has_return : Bool
  pub in_collect_decls : Bool
  pub method_table : List (List MethodEntry)
  pub current_fn_return_type : Option ℕ
  pub node_types : List (ℕ × ℕ)
  pub node_symbols : List (ℕ × Option (Symbol AstNode))
  pub error_returns : List (ℕ × Bool)

abbrev pub method_table_buckets : ℕ
method_table_buckets = 64

-- `sema_new`. The arena does not clear its memory: `current_fn_return_type`, which is not set, has
-- any value.
unfoldable pub sema_new : (ℕ → ℕ) → DiagnosticEngine → Option ℕ → Sema
sema_new address diag unset =
    let (module_scope, scopes) = scope_new {D = AstNode} [] none none in
    record {
      types = type_table_new address;
      scopes = scopes;
      module_scope = module_scope;
      current_scope = module_scope;
      current_self_type = none;
      current_fn = none;
      diag = diag;
      error_count = 0;
      in_unsafe = false;
      current_fn_has_return = false;
      in_collect_decls = false;
      method_table = replicate method_table_buckets [];
      current_fn_return_type = unset;
      node_types = [];
      node_symbols = [];
      error_returns = [];
    }

abbrev pub M : Type 0 → Type 0
M A = Sema → Option (A × Sema)

infixl 5 ◌>>=◌ ◌>>◌
abbrev pub ◌>>=◌ : {A B : Type 0} → M A → (A → M B) → M B
◌>>=◌ m f s = elim (m s) [ none ↦ none | some (a, s') ↦ f a s' ]

abbrev pub ◌>>◌ : {A B : Type 0} → M A → M B → M B
m >> n = m >>= λ _. n

abbrev pub pure : {A : Type 0} → A → M A
pure a s = some (a, s)

abbrev pub crash : {A : Type 0} → M A
crash s = none

abbrev pub gets : {A : Type 0} → (Sema → A) → M A
gets f s = some (f s, s)

abbrev pub modify : (Sema → Sema) → M (Unit {0})
modify f s = some (tt, f s)

abbrev pub when : Bool → M (Unit {0}) → M (Unit {0})
when b m = if b then m else pure tt

unfoldable pub sema_report : SourceLocation → String → List Arg → M (Unit {0})
sema_report loc format args = modify λ s. record s {
  diag = diag_emit s.diag diag_error loc (record { format = codes format; args = args });
  error_count = s.error_count + 1;
}

-- A constructor of types, on the analysis's table.
unfoldable pub on_types : (TypeTable → ℕ × TypeTable) → M ℕ
on_types f s = let (r, t) = f s.types in some (r, record s { types = t })

abbrev pub shape_of : ℕ → M SType
shape_of r = gets λ s. shape_at s.types r

-- `expr->sema_type = t; return t;`
unfoldable pub typed : ℕ → ℕ → M ℕ
typed id t s = some (t, record s { node_types = (id, t) ∷ s.node_types })

-- `expr->identifier.sym = sym;`
unfoldable pub set_symbol : ℕ → Option (Symbol AstNode) → M (Unit {0})
set_symbol id sym = modify λ s. record s { node_symbols = (id, sym) ∷ s.node_symbols }

unfoldable pub latest {ℓ} : {A : Type ℓ} → ℕ → List (ℕ × A) → Option A
latest id [] = none
latest id ((k, a) ∷ rest) = if k == id then some a else latest id rest

-- A new scope below the current one, which becomes the current one.
unfoldable pub enter_scope : AstNode → M ℕ
enter_scope owner s =
    let (n, scopes) = scope_new s.scopes (some s.current_scope) (some owner) in
    some (s.current_scope, record s { scopes = scopes; current_scope = n })

-- `s->current_scope = prev;`
unfoldable pub leave_scope : ℕ → M (Unit {0})
leave_scope prev = modify λ s. record s { current_scope = prev }

-- The scope at a place, with the symbol put in.
insert_at : List (Scope AstNode) → ℕ → Symbol AstNode → List (Scope AstNode)
insert_at [] i sym = []
insert_at (sc ∷ scs) zero sym = scope_insert sc sym ∷ scs
insert_at (sc ∷ scs) (suc i) sym = sc ∷ insert_at scs i sym

unfoldable pub declare_in : ℕ → Symbol AstNode → M (Unit {0})
unfolding insert_at
declare_in scope sym = modify λ s. record s { scopes = insert_at s.scopes scope sym }

-- `scope_insert(s->arena, s->current_scope, sym);`
unfoldable pub declare : Symbol AstNode → M (Unit {0})
declare sym s = declare_in s.current_scope sym s

unfoldable pub lookup_from : (Sema → ℕ) → StringView → M (Option (Symbol AstNode))
lookup_from scope name = gets λ s. scope_lookup s.scopes (scope s) name
