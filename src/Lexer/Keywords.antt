-- ===== src/Lexer/Keywords.antt =====
-- `lookup_keyword` against the table of keywords.
use rayac.Base.{
  ℕ, Bool, true, ◌&&◌, ◌≡◌, refl, ap, ◌∙◌, sym, ◌≢◌, List, [], ◌∷◌, Bytes, bytes_eq, bytes_eq_sound,
  length, ◌==◌, ==_iff, if◌then◌else◌, get_or, take, arith, ◌↔◌, Bool-ext, Bool-cases, ◌⊎◌, inl,
  inr, &&-eq-true, bytes_eq_iff,
}
use rayac.StringView.Slices.{length-content, take_all}
use rayac.StringView.View.{StringView, content, IsReadable, memcmp_eq}
use rayac.Lexer.Keyword.{keywords, lookup_in, lookup_keyword}
use rayac.Lexer.Token.{
  TokenKind, tok_module, tok_import, tok_fn, tok_pub, tok_const, tok_var, tok_comptime, tok_defer,
  tok_errdefer, tok_test, tok_return, tok_if, tok_else, tok_while, tok_for, tok_try, tok_break,
  tok_continue, tok_union, tok_struct, tok_unsafe, tok_noreturn, tok_in, tok_type, tok_traits,
  tok_extend, tok_match, tok_enum, tok_as, tok_with, tok_undefined, tok_self, tok_cap_self,
  tok_int_literal, tok_float_literal, tok_string_literal, tok_char_literal, tok_true, tok_false,
  tok_null, tok_identifier, tok_plus, tok_minus, tok_star, tok_slash, tok_percent, tok_eq, tok_ne,
  tok_lt, tok_gt, tok_le, tok_ge, tok_underscore, tok_assign, tok_plus_assign, tok_minus_assign,
  tok_star_assign, tok_slash_assign, tok_percent_assign, tok_and_assign, tok_or_assign,
  tok_xor_assign, tok_shl_assign, tok_shr_assign, tok_ampersand, tok_pipe, tok_caret, tok_shl,
  tok_shr, tok_and_and, tok_or_or, tok_bang, tok_tilde, tok_dot, tok_dot_dot, tok_arrow,
  tok_fat_arrow, tok_colon_colon, tok_hash, tok_lparen, tok_rparen, tok_lbracket, tok_rbracket,
  tok_lbrace, tok_rbrace, tok_comma, tok_semicolon, tok_colon, tok_question, tok_eof, tok_error,
  kind_index,
}

-- The enumerators in their order.
abbrev kinds : List TokenKind
kinds =
    tok_module ∷ tok_import ∷ tok_fn ∷ tok_pub ∷ tok_const ∷ tok_var ∷ tok_comptime ∷ tok_defer
    ∷ tok_errdefer ∷ tok_test ∷ tok_return ∷ tok_if ∷ tok_else ∷ tok_while ∷ tok_for ∷ tok_try
    ∷ tok_break ∷ tok_continue ∷ tok_union ∷ tok_struct ∷ tok_unsafe ∷ tok_noreturn ∷ tok_in
    ∷ tok_type ∷ tok_traits ∷ tok_extend ∷ tok_match ∷ tok_enum ∷ tok_as ∷ tok_with ∷ tok_undefined
    ∷ tok_self ∷ tok_cap_self ∷ tok_int_literal ∷ tok_float_literal ∷ tok_string_literal
    ∷ tok_char_literal ∷ tok_true ∷ tok_false ∷ tok_null ∷ tok_identifier ∷ tok_plus ∷ tok_minus
    ∷ tok_star ∷ tok_slash ∷ tok_percent ∷ tok_eq ∷ tok_ne ∷ tok_lt ∷ tok_gt ∷ tok_le ∷ tok_ge
    ∷ tok_underscore ∷ tok_assign ∷ tok_plus_assign ∷ tok_minus_assign ∷ tok_star_assign
    ∷ tok_slash_assign ∷ tok_percent_assign ∷ tok_and_assign ∷ tok_or_assign ∷ tok_xor_assign
    ∷ tok_shl_assign ∷ tok_shr_assign ∷ tok_ampersand ∷ tok_pipe ∷ tok_caret ∷ tok_shl ∷ tok_shr
    ∷ tok_and_and ∷ tok_or_or ∷ tok_bang ∷ tok_tilde ∷ tok_dot ∷ tok_dot_dot ∷ tok_arrow
    ∷ tok_fat_arrow ∷ tok_colon_colon ∷ tok_hash ∷ tok_lparen ∷ tok_rparen ∷ tok_lbracket
    ∷ tok_rbracket ∷ tok_lbrace ∷ tok_rbrace ∷ tok_comma ∷ tok_semicolon ∷ tok_colon ∷ tok_question
    ∷ tok_eof ∷ tok_error ∷ []

kinds-index : (k : TokenKind) → get_or kinds (kind_index k) tok_error ≡ k
unfolding kind_index
kinds-index tok_module = refl
kinds-index _ = refl

kind_eq : TokenKind → TokenKind → Bool
kind_eq j k = kind_index j == kind_index k

kind_eq_sound : (j k : TokenKind) → kind_eq j k ≡ true → j ≡ k
unfolding kind_eq
kind_eq_sound j k h =
    sym (kinds-index j)
    ∙ ap (λ (n : ℕ). get_or kinds n tok_error) ((==_iff _ _).0 h)
    ∙ kinds-index k

-- The entry stands in the table.
abbrev pub In : Bytes → TokenKind → List (Bytes × TokenKind) → Type 0
In w k [] = ⊥
In w k ((word, kind) ∷ rest) = ((word ≡ w) × (kind ≡ k)) ⊎ In w k rest

find_word : List (Bytes × TokenKind) → Bytes → TokenKind
find_word [] w = tok_identifier
find_word ((word, kind) ∷ rest) w = if bytes_eq word w then kind else find_word rest w

-- Every entry is found by its own word.
all_found : List (Bytes × TokenKind) → Bool
unfolding find_word kind_eq
all_found [] = true
all_found ((word, kind) ∷ rest) = kind_eq (find_word keywords word) kind && all_found rest

In-find_word :
    (table : List (Bytes × TokenKind)) (w : Bytes) (k : TokenKind)
    → all_found table ≡ true
    → In w k table
    → find_word keywords w ≡ k
unfolding all_found
In-find_word [] w k a i = elim i [ ]
In-find_word ((word, kind) ∷ rest) w k a (inl (p, q)) =
    ap (find_word keywords) (sym p) ∙ kind_eq_sound _ _ (&&-eq-true _ _ a).0 ∙ q
In-find_word ((word, kind) ∷ rest) w k a (inr i) = In-find_word rest w k (&&-eq-true _ _ a).1 i

find_word-In :
    (table : List (Bytes × TokenKind)) (w : Bytes) (k : TokenKind)
    → find_word table w ≡ k
    → k ≢ tok_identifier
    → In w k table
unfolding find_word
find_word-In [] w k e n = absurd (n (sym e))
find_word-In ((word, kind) ∷ rest) w k e n = elim (Bool-cases (bytes_eq word w)) [
  | inl hit ↦ inl (bytes_eq_sound word w hit, ground arith)
  | inr miss ↦ inr (find_word-In rest w k (ground arith) n)
]

-- The code's comparison of lengths and bytes is the comparison of the word with the view.
same_test :
    (word : Bytes) (sv : StringView)
    → IsReadable sv
    → (length word == sv.len && memcmp_eq word sv.data_ sv.len) ≡ bytes_eq word (content sv)
same_test word sv r = Bool-ext _ _ to from
  where
    to :
        (length word == sv.len && memcmp_eq word sv.data_ sv.len) ≡ true
        → bytes_eq word (content sv) ≡ true
    to h =
        let (e, m) = &&-eq-true _ _ h in
        let shown = bytes_eq_sound (take sv.len word) (content sv) m in
        let whole = ap (λ (n : ℕ). take n word) ((==_iff (length word) sv.len).0 e) in
        (bytes_eq_iff word (content sv)).1 (sym (take_all word) ∙ whole ∙ shown)

    from :
        bytes_eq word (content sv) ≡ true
        → (length word == sv.len && memcmp_eq word sv.data_ sv.len) ≡ true
    from h =
        let e = bytes_eq_sound word (content sv) h in
        let n : length word ≡ sv.len = ap length e ∙ length-content sv r in
        let whole = ap (λ (n : ℕ). take n word) (sym n) ∙ take_all word ∙ e in
        rw ((==_iff (length word) sv.len).1 n, (bytes_eq_iff _ _).1 whole)

lookup_in-find_word :
    (table : List (Bytes × TokenKind)) (sv : StringView)
    → IsReadable sv
    → lookup_in table sv.data_ sv.len ≡ find_word table (content sv)
unfolding lookup_in find_word
lookup_in-find_word [] sv r = refl
lookup_in-find_word ((word, kind) ∷ rest) sv r =
    rw (same_test word sv r, lookup_in-find_word rest sv r)

-- `lookup_keyword` decides the table: a readable view has a kind, other than that of identifiers, exactly when the table
-- holds the bytes of the view with that kind.
pub lookup_keyword_iff :
    (sv : StringView) (k : TokenKind)
    → IsReadable sv
    → k ≢ tok_identifier
    → (lookup_keyword sv.data_ sv.len ≡ k) ↔ In (content sv) k keywords
unfolding lookup_keyword
lookup_keyword_iff sv k r n =
    let same = lookup_in-find_word keywords sv r in
    (
      λ e. find_word-In keywords (content sv) k (sym same ∙ e) n,
      λ i.
          same
          ∙ In-find_word keywords (content sv) k (unfold all_found kind_index bytes_eq in refl) i,
    )
