-- ===== src/Ast/Growth.antt =====
-- The lists of src/ast.c as buffers that grow, and what they stand for. All five kinds of list grow the
-- same way. A buffer fits the memory, so that the product of its size does not wrap.
use rayac.Base.{
  ℕ, zero, suc, ◌+◌, ◌*◌, ◌-◌, ◌≤◌, ◌<◌, Option, none, some, List, [], ◌∷◌, ◌++◌, ◌≡◌, refl, ap,
  sym, ◌∙◌, length, take, set, replicate, leb, ◌==◌, if◌then◌else◌, arith, Bool-cases, inl, inr,
  leb-false→lt, length-set, length-append, length-replicate,
}
use rayac.Ast.Lists.{ast_node_list_push}
use rayac.Ast.Syntax.{AstNode, NodeList, nil, cons}

-- A place of the buffer that nothing has been written to is `none`.
pub record Buffer {ℓ} (A : Type ℓ) : Type ℓ where
  pub items : List (Option A)
  pub count : ℕ
  pub capacity : ℕ

abbrev new_capacity : ℕ → ℕ
new_capacity capacity = if capacity == 0 then 4 else capacity * 2

add_one : (n : ℕ) → suc n + 1 ≡ suc (n + 1)
add_one n = omega arith

module _ {ℓ} {A : Type ℓ} where
  unfoldable pub list_init : Buffer A
  list_init = record { items = []; count = 0; capacity = 0 }

  abbrev grow_array : List (Option A) → ℕ → ℕ → List (Option A)
  grow_array old old_cap new_cap = take old_cap old ++ replicate (new_cap - old_cap) none

  abbrev grown : Buffer A → Buffer A
  grown l = record l {
    items = grow_array l.items l.capacity (new_capacity l.capacity);
    capacity = new_capacity l.capacity;
  }

  abbrev write : Buffer A → A → Buffer A
  write l a = record l { items = set l.items l.count (some a); count = l.count + 1 }

  unfoldable pub list_push : Buffer A → A → Buffer A
  list_push l a = if leb l.capacity l.count then write (grown l) a else write l a

  pub record IsValid (l : Buffer A) : Type 0 where
    pub sized : length l.items ≡ l.capacity
    pub within : l.count ≤ l.capacity

  -- What the buffer stands for.
  abbrev pub elements : Buffer A → List (Option A)
  elements l = take l.count l.items

module _ {ℓ} {B : Type ℓ} where
  take-set :
      (xs : List B) (n : ℕ) (v : B)
      → n < length xs
      → take (n + 1) (set xs n v) ≡ take n xs ++ v ∷ []
  take-set [] n v h = elim h [ ]
  take-set (x ∷ xs) zero v h = refl
  take-set (x ∷ xs) (suc n) v h =
      ap (λ k. take k (x ∷ set xs n v)) (add_one n) ∙ ap (◌∷◌ x) (take-set xs n v (omega arith))

  take-append : (xs ys : List B) (n : ℕ) → n ≤ length xs → take n (xs ++ ys) ≡ take n xs
  take-append xs ys zero h = refl
  take-append [] ys (suc n) h = elim h [ ]
  take-append (x ∷ xs) ys (suc n) h = ap (◌∷◌ x) (take-append xs ys n (omega arith))

  take_whole : (xs : List B) (n : ℕ) → length xs ≡ n → take n xs ≡ xs
  take_whole [] zero h = refl
  take_whole [] (suc n) h = refl
  take_whole (x ∷ xs) zero h = absurd (omega (arith, h))
  take_whole (x ∷ xs) (suc n) h = ap (◌∷◌ x) (take_whole xs n (omega (arith, h)))

module _ {ℓ} {A : Type ℓ} where
  write-elements :
      (l : Buffer A) (a : A)
      → IsValid l
      → l.count < l.capacity
      → elements (write l a) ≡ elements l ++ some a ∷ []
  write-elements l a v h = take-set l.items l.count (some a) (ground (arith, v.sized))

  write-IsValid : (l : Buffer A) (a : A) → IsValid l → l.count < l.capacity → IsValid (write l a)
  write-IsValid l a v h = record {
    sized = length-set l.items l.count (some a) ∙ v.sized;
    within = omega arith;
  }

  grown_room : (l : Buffer A) → IsValid l → l.count < (grown l).capacity
  grown_room l v = ground (arith, v.within)

  grown-IsValid : (l : Buffer A) → IsValid l → IsValid (grown l)
  grown-IsValid l v = record {
    sized =
        ap (λ xs. length (xs ++ replicate (new_capacity l.capacity - l.capacity) none))
          (take_whole l.items l.capacity v.sized)
        ∙ ground (
          arith,
          v.sized,
          length-append l.items (replicate (new_capacity l.capacity - l.capacity) none),
          length-replicate {A = Option A} (new_capacity l.capacity - l.capacity) none,
        );
    within = ground (arith, v.within);
  }

  grown-elements : (l : Buffer A) → IsValid l → elements (grown l) ≡ elements l
  grown-elements l v =
      ap (λ xs. take l.count (xs ++ replicate (new_capacity l.capacity - l.capacity) none))
        (take_whole l.items l.capacity v.sized)
      ∙ take-append l.items _ l.count (ground (arith, v.sized, v.within))

  -- What is pushed comes behind the rest, and the buffer stays valid.
  list_push_lem :
      (l : Buffer A) (a : A)
      → IsValid l
      → IsValid (list_push l a) × (elements (list_push l a) ≡ elements l ++ some a ∷ [])
  unfolding list_push
  list_push_lem l a v = elim (Bool-cases (leb l.capacity l.count)) [
    | inl h ↦ rw h (
      write-IsValid (grown l) a (grown-IsValid l v) (grown_room l v),
      write-elements (grown l) a (grown-IsValid l v) (grown_room l v)
          ∙ ap (λ xs. xs ++ some a ∷ []) (grown-elements l v),
    )
    | inr h ↦
        let room = leb-false→lt l.capacity l.count h in
        rw h (write-IsValid l a v room, write-elements l a v room)
  ]

abbrev pub nodes : NodeList → List (Option AstNode)
nodes nil = []
nodes (cons n ns) = some n ∷ nodes ns

-- The buffer is a valid one and stands for the nodes.
pub record Represents (l : Buffer AstNode) (ns : NodeList) : Type 0 where
  pub valid : IsValid l
  pub stands : elements l ≡ nodes ns

nodes-push :
    (ns : NodeList) (n : AstNode) → nodes (ast_node_list_push ns n) ≡ nodes ns ++ some n ∷ []
nodes-push nil n = refl
nodes-push (cons m ns) n = ap (◌∷◌ (some m)) (nodes-push ns n)

pub list_init-Represents : Represents list_init nil
unfolding list_init
list_init-Represents = record {
  valid = record { sized = refl; within = omega arith };
  stands = refl;
}

-- The buffer of a list of nodes, which doubles where it is full, implements a list with
-- `ast_node_list_push` at its end: a push on a buffer that stands for some nodes gives a valid buffer
-- that stands for the longer list.
pub list_push-Represents :
    (l : Buffer AstNode) (ns : NodeList) (n : AstNode)
    → Represents l ns
    → Represents (list_push l n) (ast_node_list_push ns n)
list_push-Represents l ns n r =
    let (v, e) = list_push_lem l n r.valid in
    record { valid = v; stands = e ∙ ap (λ xs. xs ++ some n ∷ []) r.stands ∙ sym (nodes-push ns n) }
