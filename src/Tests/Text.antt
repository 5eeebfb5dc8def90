-- ===== src/Tests/Text.antt =====
-- String views, the diagnostics and the keywords at small inputs.
use rayac.Base.{◌≢◌, ◌≤◌, true, false, ◌≡◌, ◌↔◌, refl, [], codes, arith, take, drop}
use rayac.Diag.Engine.{SourceLocation, diag_error, diag_init, diag_emit}
use rayac.Diag.Growth.{IsValid, diag_init-IsValid, diag_emit-IsValid}
use rayac.Lexer.Keyword.{keywords, lookup_keyword}
use rayac.Lexer.Keywords.{In, lookup_keyword_iff}
use rayac.Lexer.Names.{is_named_otherwise, token_kind_name-lookup_keyword}
use rayac.Lexer.Token.{tok_fn, token_kind_name}
use rayac.StringView.View.{
  StringView, content, IsReadable, sv_eq, sv_eq_cstr, sv_slice, sv_to_int, value, int_max,
}
use rayac.StringView.Number.{decimal_from, all_decimal, sv_to_int-decimal, sv_to_int_sound}
use rayac.StringView.Slices.{sv_eq_iff, sv_eq_cstr_iff, sv_slice-content, sv_slice-IsReadable}

abbrev pub fn_view : StringView
fn_view = record { data_ = codes "fn f()"; len = 2 }

abbrev fn_word : StringView
fn_word = record { data_ = codes "fn"; len = 2 }

abbrev digits : StringView
digits = record { data_ = codes "64x"; len = 2 }

sv_eq_iff_example : (sv_eq fn_view fn_word ≡ true) ↔ (content fn_view ≡ content fn_word)
sv_eq_iff_example = sv_eq_iff fn_view fn_word (omega arith) (omega arith)

sv_eq_cstr_iff_example : (sv_eq_cstr fn_view (codes "fn") ≡ true) ↔ (content fn_view ≡ codes "fn")
sv_eq_cstr_iff_example = sv_eq_cstr_iff fn_view (codes "fn") (omega arith)

sv_slice-content_example : content (sv_slice digits 1 2) ≡ take 1 (drop 1 (content digits))
sv_slice-content_example = sv_slice-content digits 1 2 (omega arith) (omega arith)

sv_slice-IsReadable_example :
    IsReadable (sv_slice digits 1 9) × ((sv_slice digits 1 9).len ≤ digits.len)
sv_slice-IsReadable_example = sv_slice-IsReadable digits 1 9 (omega arith)

sv_to_int-decimal_example : sv_to_int digits ≡ value 64
sv_to_int-decimal_example =
    sv_to_int-decimal digits (λ e. omega (arith, e)) (omega arith) refl (omega arith)

sv_to_int-decimal_64 : sv_to_int digits ≡ value 64
unfolding sv_to_int
sv_to_int-decimal_64 = refl

sv_to_int_sound_example :
    (digits.len ≢ 0)
    × IsReadable digits
    × (all_decimal (content digits) ≡ true)
    × (64 ≡ decimal_from 0 (content digits))
    × (64 ≤ int_max)
sv_to_int_sound_example = sv_to_int_sound digits 64 sv_to_int-decimal_64

abbrev here : SourceLocation
here = record { filename = codes "a.raya"; line = 1; column = 1; offset = 0 }

diag_emit-IsValid_example :
    IsValid (diag_emit diag_init diag_error here (record { format = codes "%s"; args = [] }))
diag_emit-IsValid_example =
    diag_emit-IsValid {d = diag_init} diag_error here (record { format = codes "%s"; args = [] })
      diag_init-IsValid

lookup_keyword_iff_example :
    (lookup_keyword (codes "fn f()") 2 ≡ tok_fn) ↔ In (codes "fn") tok_fn keywords
lookup_keyword_iff_example = lookup_keyword_iff fn_view tok_fn (omega arith) (λ e. cc e)

fn_named_by_itself : is_named_otherwise (lookup_keyword (codes "fn f()") 2) ≡ false
unfolding lookup_keyword
fn_named_by_itself = refl

token_kind_name-lookup_keyword_example :
    codes (token_kind_name (lookup_keyword (codes "fn f()") 2)) ≡ codes "fn"
token_kind_name-lookup_keyword_example =
    token_kind_name-lookup_keyword fn_view (omega arith) fn_named_by_itself
