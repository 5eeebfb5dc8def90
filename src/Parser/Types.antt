-- ===== src/Parser/Types.antt =====
-- Types, their tokens and their trees.
pub mod Steps
pub mod Print
use rayac.Base.{
  ℕ, zero, suc, ◌+◌, ◌<◌, Bool, true, false, List, [], ◌∷◌, ◌++◌, ◌≡◌, refl, ap, sym, subst, ◌≤◌,
  ◌∙◌, ◌==◌, codes, length, if◌then◌else◌, Bool-cases, inl, inr, arith, Option, some, none,
}
use rayac.Ast.Syntax.{
  TypeExpr, type_expr, TypeOpt, of_type, end, type_named, type_reference, type_pointer, type_slice,
  type_optional, type_error_union,
}
use rayac.Diag.Engine.{SourceLocation}
use rayac.Lexer.Token.{
  Token, TokenKind, TokenValue, kind_index, int_value, tok_identifier, tok_ampersand, tok_star,
  tok_const, tok_lbracket, tok_rbracket, tok_question, tok_bang, tok_lparen, tok_fn, tok_type,
  tok_self, tok_error,
}
use rayac.Ast.TypeExprs.{type_new_reference, type_new_pointer, type_new_slice}
use rayac.Parser.Ahead.{Reads, Reads-moved, moved, moved-moved, token_at-Reads, token_now}
use rayac.Parser.State.{
  Parser, Outcome, returns, ◌>>=◌, pure, read, token_at, last_token, is_kind, parser_current,
  parser_check, step, stepped, parser_match,
}
use rayac.Parser.TypeExprs.{
  parser_parse_type, type_suffix, primary_type, compound_type, keyword_type, named_type,
  generic_type, unary_type, bracket_type,
}
use rayac.Parser.Calls.{Calls}
use rayac.Parser.Unit.{calls}
use rayac.StringView.View.{StringView, sv_from_cstr, sv_eq_cstr}

-- How a token is spelled: its text, its place and its value.
pub record Word : Type 0 where
  pub text : StringView
  pub loc : SourceLocation
  pub value : TokenValue

abbrev pub spell : TokenKind → Word → Token
spell kind w = record { kind = kind; text = w.text; loc = w.loc; value = w.value }

-- The types without generic arguments, array lengths, functions and keywords, each with the words of
-- its tokens: those of the name, of the punctuation and of the `const`, where there is one. Optional
-- and fallible types start with a name, since a prefix binds less than a suffix.
pub data Ty : Type 0 where
  name : Word → Ty
  optional : Word → Word → Ty
  fallible : Word → Word → Ty → Ty
  reference pointer : Word → Option Word → Ty → Ty
  slice : Word → Word → Option Word → Ty → Ty

abbrev pub with_const : Option Word → List Token → List Token
with_const (some w) ts = spell tok_const w ∷ ts
with_const none ts = ts

abbrev pub is_const : Option Word → Bool
is_const (some w) = true
is_const none = false

-- The tokens of a type, before others.
abbrev pub print_type : Ty → List Token → List Token
print_type (name w) ts = spell tok_identifier w ∷ ts
print_type (optional w q) ts = spell tok_identifier w ∷ spell tok_question q ∷ ts
print_type (fallible w b t) ts = spell tok_identifier w ∷ spell tok_bang b ∷ print_type t ts
print_type (reference w c t) ts = spell tok_ampersand w ∷ with_const c (print_type t ts)
print_type (pointer w c t) ts = spell tok_star w ∷ with_const c (print_type t ts)
print_type (slice w w' c t) ts =
    spell tok_lbracket w ∷ spell tok_rbracket w' ∷ with_const c (print_type t ts)

abbrev pub const_size : Option Word → ℕ
const_size (some w) = 1
const_size none = 0

-- How many tokens these are.
abbrev pub size : Ty → ℕ
size (name w) = 1
size (optional w q) = 2
size (fallible w b t) = 2 + size t
size (reference w c t) = 1 + (const_size c + size t)
size (pointer w c t) = 1 + (const_size c + size t)
size (slice w w' c t) = 1 + (1 + (const_size c + size t))

-- The name in the tree: `Self` is written anew.
abbrev pub the_name : StringView → StringView
the_name n = if sv_eq_cstr n (codes "Self") then sv_from_cstr (codes "Self") else n

abbrev pub named : Word → TypeExpr
named w = type_expr w.loc (type_named (the_name w.text) end)

-- The tree of a type, where `after` is the place of the token behind it: the place of an optional
-- type, all others having that of their first token.
abbrev pub tree : SourceLocation → Ty → TypeExpr
tree after (name w) = named w
tree after (optional w q) = type_expr after (type_optional (named w))
tree after (fallible w b t) = type_expr w.loc (type_error_union (named w) (of_type (tree after t)))
tree after (reference w c t) =
    type_expr w.loc (type_reference (is_const c) (of_type (tree after t)))
tree after (pointer w c t) = type_expr w.loc (type_pointer (is_const c) (of_type (tree after t)))
tree after (slice w w' c t) = type_expr w.loc (type_slice (is_const c) (of_type (tree after t)))

-- The token does not continue a type.
pub record Stops (t : Token) : Type 0 where
  pub paren : is_kind tok_lparen t ≡ false
  pub question : is_kind tok_question t ≡ false
  pub bang : is_kind tok_bang t ≡ false
