-- ===== src/Prelude/Sort.antt =====
-- JavaScript's `sort` by a comparison, which is stable: an insertion sort, and that its result does
-- not depend on the order of what the comparison tells apart. `before a b` stands for a comparison
-- that is not greater than 0.
use mathlib.Core.Path.{◌≡◌, refl, ap, ◌∙◌}
use mathlib.Core.Bool.{Bool, true, false, ◌&&◌, ◌||◌}
use mathlib.Core.List.{List, [], ◌∷◌}
use native.Mathlib.Omega.{arith}
use veyronis.Prelude.Tests.{if◌then◌else◌}

module _ {A : Type 0} (before : A → A → Bool) where
  unfoldable pub insert : A → List A → List A
  insert x [] = x ∷ []
  insert x (y ∷ ys) = let rest = insert x ys in if before x y then x ∷ y ∷ ys else y ∷ rest

  unfoldable pub sort : List A → List A
  unfolding insert
  sort [] = []
  sort (x ∷ xs) = insert x (sort xs)

  -- Lists that differ in the order of elements that the comparison tells apart.
  pub data Reorder : List A → List A → Type 0 where
    done : Reorder [] []
    keep : (x : A) {xs ys : List A} → Reorder xs ys → Reorder (x ∷ xs) (x ∷ ys)
    swap :
        (x y : A) (xs : List A)
        → (before x y && before y x) ≡ false
        → Reorder (x ∷ y ∷ xs) (y ∷ x ∷ xs)
    follow : {xs ys zs : List A} → Reorder xs ys → Reorder ys zs → Reorder xs zs

  pub record IsTotalOrder : Type 0 where
    pub total : (a b : A) → (before a b || before b a) ≡ true
    pub transitive : (a b c : A) → before a b ≡ true → before b c ≡ true → before a c ≡ true

  module _ (order : IsTotalOrder) where
    insert-insert :
        (x y : A) (zs : List A)
        → (before x y && before y x) ≡ false
        → insert x (insert y zs) ≡ insert y (insert x zs)
    unfolding insert
    insert-insert x y [] apart = ground (arith, order.total x y)
    insert-insert x y (w ∷ zs) apart =
        let rest = insert-insert x y zs apart in
        ground (arith, order.total x y, order.transitive y x w, order.transitive x y w)

    pub sort-Reorder : {xs ys : List A} → Reorder xs ys → sort xs ≡ sort ys
    unfolding sort
    sort-Reorder done = refl
    sort-Reorder (keep x r) = ap (insert x) (sort-Reorder r)
    sort-Reorder (swap x y xs apart) = insert-insert x y (sort xs) apart
    sort-Reorder (follow r s) = sort-Reorder r ∙ sort-Reorder s
