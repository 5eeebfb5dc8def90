-- ===== src/Symbol/Scope.antt =====
-- Symbols and scopes. Scopes are referred to by their place in the list of all scopes, and types by
-- their place in the type table; `D` is the type of declarations. The chain of a bucket, which the
-- code threads through the `next` pointers, is a list.
use rayac.Base.{
  ℕ, zero, suc, ◌*◌, ◌%◌, ◌^◌, Bool, false, ◌&&◌, Option, none, some, List, [], ◌∷◌, ◌++◌, Bytes,
  bit_xor, length, get_or, get_elem?, set, replicate, ◌==◌, if◌then◌else◌,
}
use rayac.StringView.View.{StringView, content, memcmp_eq}

pub data SymbolKind : Type 0 where
  sym_module sym_function sym_var sym_const sym_struct sym_union sym_enum sym_trait : SymbolKind
  sym_type_alias sym_generic_param sym_field sym_variant sym_poison : SymbolKind

-- One step of the hash of `hash_sv`, in `uint32_t`.
abbrev pub fnv_step : ℕ → ℕ → ℕ
fnv_step h c = bit_xor h c * 16777619 % 2 ^ 32

unfoldable pub hash_bytes : ℕ → Bytes → ℕ
hash_bytes h [] = h
hash_bytes h (c ∷ cs) = hash_bytes (fnv_step h c) cs

unfoldable pub hash_sv : StringView → ℕ
hash_sv sv = hash_bytes 2166136261 (content sv)

abbrev pub scope_buckets : ℕ
scope_buckets = 32

module _ (D : Type 0) where
  pub record Symbol : Type 0 where
    pub kind : SymbolKind
    pub name : StringView
    pub type : Option ℕ
    pub decl : Option D
    pub is_pub : Bool
    pub is_comptime : Bool

  pub record Scope : Type 0 where
    pub parent : Option ℕ
    pub buckets : List (List (Symbol))
    pub bucket_count : ℕ
    pub children : Option ℕ
    pub next_sibling : Option ℕ
    pub node : Option D

module _ {D : Type 0} where
  unfoldable pub symbol_new : SymbolKind → StringView → Option ℕ → Option D → Symbol D
  symbol_new kind name type decl = record {
    kind = kind;
    name = name;
    type = type;
    decl = decl;
    is_pub = false;
    is_comptime = false;
  }

  -- `sym->name.len == name.len && memcmp(...) == 0`
  abbrev pub has_name : StringView → Symbol D → Bool
  has_name name sym = sym.name.len == name.len && memcmp_eq sym.name.data_ name.data_ name.len

  unfoldable pub find_in_chain : List (Symbol D) → StringView → Option (Symbol D)
  find_in_chain [] name = none
  find_in_chain (sym ∷ chain) name =
      if has_name name sym then some sym else find_in_chain chain name

  abbrev pub bucket_of : Scope D → StringView → ℕ
  bucket_of s name = hash_sv name % s.bucket_count

  unfoldable pub scope_lookup_current : Scope D → StringView → Option (Symbol D)
  scope_lookup_current s name = find_in_chain (get_or s.buckets (bucket_of s name) []) name

  unfoldable pub scope_insert : Scope D → Symbol D → Scope D
  scope_insert s sym =
      let h = bucket_of s sym.name in
      record s { buckets = set s.buckets h (sym ∷ get_or s.buckets h []) }

  -- The old first child of the parent.
  first_child : List (Scope D) → Option ℕ → Option ℕ
  first_child scopes none = none
  first_child scopes (some p) = elim (get_elem? scopes p) [ none ↦ none | some s ↦ s.children ]

  set_children : List (Scope D) → Option ℕ → ℕ → List (Scope D)
  set_children scopes none new = scopes
  set_children scopes (some p) new = elim (get_elem? scopes p) [
    | none ↦ scopes
    | some s ↦ set scopes p (record s { children = some new })
  ]

  -- The new scope, which is the last of the list, and the list.
  unfoldable pub scope_new : List (Scope D) → Option ℕ → Option D → ℕ × List (Scope D)
  unfolding first_child set_children
  scope_new scopes parent node = (
    length scopes,
    set_children scopes parent (length scopes)
        ++ record {
          parent = parent;
          buckets = replicate scope_buckets [];
          bucket_count = scope_buckets;
          children = none;
          next_sibling = first_child scopes parent;
          node = node;
        }
          ∷ [],
  )

  -- The walk from a scope to its ancestors, `fuel` scopes at most; a dangling reference ends it.
  unfoldable pub scope_lookup_in : ℕ → List (Scope D) → Option ℕ → StringView → Option (Symbol D)
  scope_lookup_in zero scopes s name = none
  scope_lookup_in (suc fuel) scopes none name = none
  scope_lookup_in (suc fuel) scopes (some s) name = elim (get_elem? scopes s) [
    | none ↦ none
    | some sc ↦ elim (scope_lookup_current sc name) [
      | some sym ↦ some sym
      | none ↦ scope_lookup_in fuel scopes sc.parent name
    ]
  ]

  -- A parent stands before its children, so that the place of the scope bounds the walk.
  unfoldable pub scope_lookup : List (Scope D) → ℕ → StringView → Option (Symbol D)
  scope_lookup scopes s name = scope_lookup_in (suc s) scopes (some s) name

  -- The first symbol of a chain that has the name is given a type.
  retype : StringView → ℕ → List (Symbol D) → List (Symbol D)
  retype name t [] = []
  retype name t (sym ∷ chain) =
      if has_name name sym then record sym { type = some t } ∷ chain else sym ∷ retype name t chain

  -- `sym->type = t` on the symbol that `scope_lookup_current` finds in the scope at a place.
  unfoldable pub set_type : List (Scope D) → ℕ → StringView → ℕ → List (Scope D)
  unfolding retype
  set_type scopes s name t = elim (get_elem? scopes s) [
    | none ↦ scopes
    | some sc ↦
        let h = bucket_of sc name in
        set scopes s
          (record sc { buckets = set sc.buckets h (retype name t (get_or sc.buckets h [])) })
  ]
