-- ===== src/Tests/Checking.antt =====
-- The semantic analysis at small inputs.
use rayac.Base.{◌&&◌, ◌≡◌, refl, some, List, [], String, codes, length, replicate, if◌then◌else◌}
use rayac.Ast.Syntax.{
  AstNode, node, AstKind, break_stmt, compilation_unit, nil, cons, fn_decl, param_decl, no_attrs,
  of_type, type_expr, type_named, end, null, at, block, identifier,
}
use rayac.Diag.Engine.{SourceLocation, diag_init}
use rayac.Base.{ℕ, ◌*◌, false, Option, none}
use rayac.Sema.Bodies.{sema_run}
use rayac.Sema.Resolve.{Env}
use rayac.Sema.State.{sema_new}
use rayac.Sema.MethodLookup.{lookup_method-add}
use rayac.Sema.Methods.{add_method, lookup_method}
use rayac.Sema.State.{MethodEntry}
use rayac.StringView.View.{StringView, sv_eq}

abbrev view : String → StringView
view s = record { data_ = codes s; len = length (codes s) }

abbrev somewhere : AstNode
somewhere =
    node 7 (record { filename = codes "a.raya"; line = 1; column = 1; offset = 0 }) break_stmt

abbrev no_methods : List (List MethodEntry)
no_methods = replicate 64 []

lookup_method-add_example :
    lookup_method
      (add_method no_methods (view "Point") (view "norm") somewhere)
      (view "Point")
      (view "norm")
    ≡ (if sv_eq (view "Point") (view "Point") && sv_eq (view "norm") (view "norm")
        then some somewhere
        else lookup_method no_methods (view "Point") (view "norm"))
lookup_method-add_example =
    lookup_method-add no_methods (view "Point") (view "norm") somewhere (view "Point") (view "norm")
      refl

abbrev at_start : SourceLocation
at_start = record { filename = codes "a.raya"; line = 1; column = 1; offset = 0 }

abbrev leaf : ℕ → AstKind → AstNode
leaf id k = node id at_start k

abbrev env : Env
env = record { const_fuel = 100; atoi = λ s. 0 }

-- `fn f(x: i32) -> RET { x }`
abbrev one_function : StringView → AstNode
one_function ret = leaf 1 (
    compilation_unit (view "m") nil (
      cons
        (leaf 2 (
          fn_decl (view "f") false false false false nil
            (cons
              (leaf 3 (
                param_decl (view "x") (of_type (type_expr at_start (type_named (view "i32") end)))
                  null false false))
              nil)
            (of_type (type_expr at_start (type_named ret end)))
            (at (leaf 4 (block nil (at (leaf 5 (identifier (view "x"))))))) no_attrs))
        nil))

abbrev errors_of : AstNode → Option ℕ
errors_of m = elim (sema_run env m (sema_new (λ r. 64 * r) diag_init none)) [
  | none ↦ none
  | some (u, s) ↦ some s.error_count
]

-- All that a run of the analysis computes with.
analysis : Unit {0}
unfolding rayac.Sema.State.sema_new rayac.Sema.State.sema_report rayac.Sema.State.on_types
    rayac.Sema.State.typed rayac.Sema.State.set_symbol rayac.Sema.State.latest
    rayac.Sema.State.enter_scope rayac.Sema.State.leave_scope rayac.Sema.State.declare_in
    rayac.Sema.State.declare rayac.Sema.State.lookup_from rayac.Sema.Methods.hash_chars
    rayac.Sema.Methods.hash_method_key rayac.Sema.Methods.add_method rayac.Sema.Methods.find_method
    rayac.Sema.Methods.lookup_method rayac.Sema.Methods.method_table_add
    rayac.Sema.Methods.method_table_lookup rayac.Sema.Methods.method_type_name
    rayac.Sema.Methods.sema_type_name_for_method rayac.Sema.Diverge.call_diverges
    rayac.Sema.Resolve.const_op rayac.Sema.Resolve.const_init rayac.Sema.Resolve.eval_identifier
    rayac.Sema.Resolve.eval_node rayac.Sema.Resolve.eval_const_in rayac.Sema.Resolve.resolve_self
    rayac.Sema.Resolve.resolve_declared rayac.Sema.Resolve.fresh_noreturn
    rayac.Sema.Resolve.resolve_sized rayac.Sema.Resolve.resolve_widths
    rayac.Sema.Resolve.resolve_named rayac.Sema.Resolve.check_error_union
    rayac.Sema.Resolve.sema_resolve_type rayac.Sema.Resolve.resolve_kind
    rayac.Sema.Resolve.resolve_list rayac.Sema.Resolve.resolve_opt
    rayac.Sema.Declare.sema_get_type_fields rayac.Sema.Declare.param_type
    rayac.Sema.Declare.param_types rayac.Sema.Declare.sema_make_fn_type
    rayac.Sema.Declare.collect_import rayac.Sema.Declare.collect_imports
    rayac.Sema.Declare.declare_name rayac.Sema.Declare.collect_methods
    rayac.Sema.Declare.collect_decl rayac.Sema.Declare.collect_each
    rayac.Sema.Declare.sema_collect_decls rayac.Sema.Rules.typed_void rayac.Sema.Rules.failed
    rayac.Sema.Rules.expect_bool rayac.Sema.Rules.local_type rayac.Sema.Rules.declare_local
    rayac.Sema.Rules.expected_type rayac.Sema.Rules.return_either rayac.Sema.Rules.return_rule
    rayac.Sema.Rules.errdefer_rule rayac.Sema.Rules.assign_rule rayac.Sema.Rules.bound_identifier
    rayac.Sema.Rules.identifier_rule rayac.Sema.Operators.binary_class
    rayac.Sema.Operators.binary_rule rayac.Sema.Operators.unary_rule rayac.Sema.Accesses.referred
    rayac.Sema.Accesses.argument_rule rayac.Sema.Accesses.try_rule rayac.Sema.Accesses.index_rule
    rayac.Sema.Accesses.find_field rayac.Sema.Accesses.field_access_rule
    rayac.Sema.Accesses.initializer_rule rayac.Sema.Accesses.method_rule
    rayac.Sema.Accesses.element_rule rayac.Sema.Forms.explicit_type rayac.Sema.Forms.fallback_rule
    rayac.Sema.Forms.capture_failed rayac.Sema.Forms.in_block rayac.Sema.Forms.call_rule
    rayac.Sema.Forms.method_call rayac.Sema.Forms.capture_rule rayac.Sema.Check.check
    rayac.Sema.Check.check_kind rayac.Sema.Check.check_expr rayac.Sema.Check.check_or
    rayac.Sema.Check.check_block rayac.Sema.Check.check_body rayac.Sema.Check.check_else
    rayac.Sema.Check.check_stmts rayac.Sema.Check.loop_type rayac.Sema.Check.check_args
    rayac.Sema.Check.check_elements rayac.Sema.Check.check_fields rayac.Sema.Check.check_field
    rayac.Sema.Bodies.declare_generics rayac.Sema.Bodies.declare_params rayac.Sema.Bodies.body_rule
    rayac.Sema.Bodies.enter_fn rayac.Sema.Bodies.leave_fn rayac.Sema.Bodies.sema_check_fn_body
    rayac.Sema.Bodies.check_methods rayac.Sema.Bodies.target_type rayac.Sema.Bodies.check_extension
    rayac.Sema.Bodies.global_type rayac.Sema.Bodies.check_global rayac.Sema.Bodies.resolve_decl
    rayac.Sema.Bodies.resolve_each rayac.Sema.Bodies.sema_resolve_bodies rayac.Sema.Bodies.sema_run
    rayac.Symbol.Scope.hash_bytes rayac.Symbol.Scope.hash_sv rayac.Symbol.Scope.symbol_new
    rayac.Symbol.Scope.find_in_chain rayac.Symbol.Scope.scope_lookup_current
    rayac.Symbol.Scope.scope_insert rayac.Symbol.Scope.scope_new rayac.Symbol.Scope.scope_lookup_in
    rayac.Symbol.Scope.scope_lookup rayac.Symbol.Scope.set_type rayac.Types.Shape.kind_number
    rayac.Types.Shape.hash_refs rayac.Types.Shape.hash_type_shape rayac.Types.Shape.same_refs
    rayac.Types.Shape.type_shape_eq rayac.Types.Table.type_table_new rayac.Types.Table.find_in_chain
    rayac.Types.Table.find_type rayac.Types.Table.allocate rayac.Types.Table.intern_with
    rayac.Types.Table.intern_type rayac.Types.Table.st_void rayac.Types.Table.st_bool
    rayac.Types.Table.st_int rayac.Types.Table.st_float rayac.Types.Table.st_pointer
    rayac.Types.Table.st_reference rayac.Types.Table.st_slice rayac.Types.Table.st_array
    rayac.Types.Table.st_optional rayac.Types.Table.st_error_union rayac.Types.Table.st_function
    rayac.Types.Coerce.is_integer rayac.Types.Coerce.is_numeric rayac.Types.Coerce.numeric_rule
    rayac.Types.Coerce.reference_rule rayac.Types.Coerce.pointer_rule
    rayac.Types.Coerce.coerce_shapes rayac.Types.Coerce.coerce_step rayac.Types.Coerce.can_coerce_in
    rayac.Types.Coerce.st_can_coerce rayac.Types.FromAst.named_type rayac.Types.FromAst.st_from_ast
    rayac.Types.FromAst.from_kind rayac.Types.FromAst.from_list rayac.Types.FromAst.from_opt
    rayac.StringView.View.sv_from_cstr rayac.StringView.View.sv_from_ptr_len
    rayac.StringView.View.sv_eq rayac.StringView.View.sv_eq_cstr rayac.StringView.View.between
    rayac.StringView.View.sv_slice rayac.StringView.View.to_int_loop rayac.StringView.View.sv_to_int
    rayac.Diag.Engine.loc_make rayac.Diag.Engine.diag_init rayac.Diag.Engine.diag_emit
    rayac.Base.bytes_eq
analysis = tt

returned_wider : errors_of (one_function (view "i64")) ≡ some 0
unfolding analysis
returned_wider = refl

returned_narrower : errors_of (one_function (view "u8")) ≡ some 1
unfolding analysis
returned_narrower = refl
