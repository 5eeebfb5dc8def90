-- ===== src/Lexer/Names.antt =====
-- `token_kind_name` against the spelling of the keywords.
use rayac.Base.{
  Bool, true, false, ◌&&◌, ◌||◌, ◌≡◌, refl, ap, ◌∙◌, sym, List, [], ◌∷◌, Bytes, codes, bytes_eq,
  bytes_eq_sound, arith, inl, inr,
}
use rayac.StringView.View.{StringView, content, IsReadable}
use rayac.Lexer.Keyword.{keywords, lookup_keyword}
use rayac.Lexer.Keywords.{In, lookup_keyword_iff}
use rayac.Lexer.Token.{TokenKind, tok_true, tok_false, tok_null, tok_identifier, token_kind_name}

-- The kinds whose name is not the word of the source.
abbrev pub is_named_otherwise : TokenKind → Bool
is_named_otherwise tok_true = true
is_named_otherwise tok_false = true
is_named_otherwise tok_null = true
is_named_otherwise tok_identifier = true
is_named_otherwise _ = false

all_named : List (Bytes × TokenKind) → Bool
all_named [] = true
all_named ((word, kind) ∷ rest) =
    (is_named_otherwise kind || bytes_eq (codes (token_kind_name kind)) word) && all_named rest

word_named : (a b c : Bool) → a ≡ false → ((a || b) && c) ≡ true → b ≡ true
word_named a b c e h = ground arith

In-name :
    (table : List (Bytes × TokenKind)) (w : Bytes) (k : TokenKind)
    → all_named table ≡ true
    → In w k table
    → is_named_otherwise k ≡ false
    → codes (token_kind_name k) ≡ w
unfolding all_named
In-name [] w k a i n = elim i [ ]
In-name ((word, kind) ∷ rest) w k a (inl (p, q)) n =
    ap (λ j. codes (token_kind_name j)) (sym q)
    ∙ bytes_eq_sound _ _ (word_named _ _ _ (ap is_named_otherwise q ∙ n) a)
    ∙ p
In-name ((word, kind) ∷ rest) w k a (inr i) n = In-name rest w k (ground arith) i n

-- `token_kind_name` inverts `lookup_keyword`: the name of the kind of a readable view is the view's
-- own text, but for the kinds of identifiers, `true`, `false` and `null`.
pub token_kind_name-lookup_keyword :
    (sv : StringView)
    → IsReadable sv
    → is_named_otherwise (lookup_keyword sv.data_ sv.len) ≡ false
    → codes (token_kind_name (lookup_keyword sv.data_ sv.len)) ≡ content sv
token_kind_name-lookup_keyword sv r n =
    let k = lookup_keyword sv.data_ sv.len in
    In-name keywords (content sv) k (unfold all_named token_kind_name bytes_eq in refl)
      ((lookup_keyword_iff sv k r (λ e. cc (ap is_named_otherwise e, n))).0 refl) n
