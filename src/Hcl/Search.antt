-- ===== src/Hcl/Search.antt =====
-- What a search for a block finds (internal/controller/common.go).
use atlas_operator.Prelude.{
  ◌≡◌, refl, ◌⊎◌, inl, inr, Bool, true, false, ◌&&◌, ◌||◌, String, List, [], ◌∷◌, Option, none,
  some, arith, str_eq, equal, find_func, contains_func, is_empty, if◌then◌else◌, Bool-cases,
}
use atlas_operator.Hcl.{Hcl, search_block, of_type}

module _ {ℓ} {A : Type ℓ} (p : A → Bool) where
  find_func-some : (xs : List A) (x : A) → find_func p xs ≡ some x → p x ≡ true
  find_func-some [] x h = cc
  find_func-some (y ∷ ys) x h = ground (arith, find_func-some ys x)

  find_func-none : (xs : List A) → find_func p xs ≡ none → contains_func p xs ≡ false
  find_func-none [] h = refl
  find_func-none (y ∷ ys) h = ground (arith, find_func-none ys)

  contains-find_func : (xs : List A) → contains_func p xs ≡ false → find_func p xs ≡ none
  contains-find_func [] h = refl
  contains-find_func (y ∷ ys) h = ground (arith, contains-find_func ys)

module _ (hcl : Hcl) where
  open hcl use {Body, Block, blocks, block_type, labels}

  -- The block is one of the body.
  abbrev pub IsOneOf : Block → List Block → Type 0
  IsOneOf b [] = ⊥
  IsOneOf b (c ∷ cs) = (c ≡ b) ⊎ IsOneOf b cs

  -- What makes a block fit a target: its type, and the labels, or for an env block no label at all.
  abbrev pub fits : String → List String → Block → Bool
  fits type names b =
      str_eq (block_type b) type
      && (equal str_eq (labels b) names || (str_eq type "env" && is_empty (labels b)))

  abbrev pub exact : String → List String → Block → Bool
  exact type names b = str_eq (block_type b) type && equal str_eq (labels b) names

  -- What a search is to return.
  abbrev pub Found : Body → String → List String → Option Block → Type 0
  Found parent type names none = contains_func (fits type names) (blocks parent) ≡ false
  Found parent type names (some b) =
      IsOneOf b (blocks parent)
      × (fits type names b ≡ true)
      × (contains_func (exact type names) (blocks parent) ≡ true
          → equal str_eq (labels b) names ≡ true)

  find-of_type :
      (q : Block → Bool) (type : String) (bs : List Block)
      → find_func q (of_type hcl type bs) ≡ find_func (λ b. str_eq (block_type b) type && q b) bs
  unfolding of_type
  find-of_type q type [] = refl
  find-of_type q type (b ∷ bs) = ground (arith, find-of_type q type bs)

  find-IsOneOf :
      (q : Block → Bool) (bs : List Block) (b : Block) → find_func q bs ≡ some b → IsOneOf b bs
  find-IsOneOf q [] b h = cc
  find-IsOneOf q (c ∷ cs) b h = elim (Bool-cases (q c)) [
    | inl e ↦ inl (some_eq c (rw e at h))
    | inr e ↦ inr (find-IsOneOf q cs b (rw e at h))
  ]
    where
      some_eq : (a : Block) → some a ≡ some b → a ≡ b
      some_eq a k = cc

  abbrev unlabelled : String → Block → Bool
  unlabelled type b = str_eq (block_type b) type && is_empty (labels b)

  -- The search as two searches of the blocks.
  abbrev two_searches : String → List String → List Block → Option Block → Option Block
  two_searches type names bs (some b) = some b
  two_searches type names bs none =
      if str_eq type "env" then find_func (unlabelled type) bs else none

  search-two_searches :
      (parent : Body) (type : String) (names : List String)
      → search_block hcl parent type names
        ≡ two_searches type names (blocks parent) (find_func (exact type names) (blocks parent))
  unfolding search_block
  search-two_searches parent type names = ground (
    arith,
    find-of_type (λ b. equal str_eq (labels b) names) type (blocks parent),
    find-of_type (λ b. is_empty (labels b)) type (blocks parent),
  )

  no_fit :
      (type : String) (names : List String) (bs : List Block)
      → contains_func (exact type names) bs ≡ false
      → (if str_eq type "env" then find_func (unlabelled type) bs else none) ≡ none
      → contains_func (fits type names) bs ≡ false
  no_fit type names [] h k = refl
  no_fit type names (b ∷ bs) h k = ground (arith, no_fit type names bs)

  -- A block that a search finds is a block of the body and fits the target: it has the type, and
  -- the labels or, for an env block, none. It has the labels if some block of the body has the type
  -- and the labels. A search that finds nothing means that no block of the body fits.
  pub search_block-fits :
      (parent : Body) (type : String) (names : List String)
      → Found parent type names (search_block hcl parent type names)
  search_block-fits parent type names =
      rw (search-two_searches parent type names)
        (split (find_func (exact type names) (blocks parent)) refl)
    where
      second :
          (o : Option Block)
          → find_func (exact type names) (blocks parent) ≡ none
          → (if str_eq type "env" then find_func (unlabelled type) (blocks parent) else none) ≡ o
          → Found parent type names o
      second none none_exact e =
          no_fit type names (blocks parent)
            (find_func-none (exact type names) (blocks parent) none_exact) e
      second (some b) none_exact e = elim (Bool-cases (str_eq type "env")) [
        | inl env ↦
            let found : find_func (unlabelled type) (blocks parent) ≡ some b = rw env at e in
            (
              find-IsOneOf (unlabelled type) (blocks parent) b found,
              ground (arith, env, find_func-some (unlabelled type) (blocks parent) b found),
              ground (arith, find_func-none (exact type names) (blocks parent) none_exact),
            )
        | inr other ↦ cc (rw other at e)
      ]

      split :
          (o : Option Block)
          → find_func (exact type names) (blocks parent) ≡ o
          → Found parent type names (two_searches type names (blocks parent) o)
      split none e = second _ e refl
      split (some b) e = (
        find-IsOneOf (exact type names) (blocks parent) b e,
        ground (arith, find_func-some (exact type names) (blocks parent) b e),
        λ _. ground (arith, find_func-some (exact type names) (blocks parent) b e),
      )
