-- ===== src/Tests/InsertionSort.antt =====
-- Insertion sort by a test that is transitive and total.
use mathlib.Core.List.{Permᴰ}
use mathlib.Core.List.Permᴰ as Perm
use weighing_data_sync.Prelude.{
  ◌≡◌, refl, Bool, true, false, if◌then◌else◌, inl, inr, List, [], ◌∷◌, All, Bool-cases,
}

module _ {A : Type 0} (le : A → A → Bool) where
  -- No element comes before one that it is not below.
  abbrev pub Ordered : List A → Type 0
  Ordered [] = Unit
  Ordered (x ∷ xs) = All (λ y. le x y ≡ true) xs × Ordered xs

  abbrev pub insert : A → List A → List A
  insert x [] = x ∷ []
  insert x (y ∷ ys) = if le x y then x ∷ y ∷ ys else y ∷ insert x ys

  abbrev pub sort : List A → List A
  sort [] = []
  sort (x ∷ xs) = insert x (sort xs)

  insert-perm : (x : A) (xs : List A) → Permᴰ (x ∷ xs) (insert x xs)
  insert-perm x [] = Perm.refl (x ∷ [])
  insert-perm x (y ∷ ys) = elim (Bool-cases (le x y)) [
    | inl before ↦ rw before (Perm.refl (x ∷ y ∷ ys))
    | inr after ↦ rw after (Permᴰ.trans (Permᴰ.swap refl refl) (Permᴰ.cons refl (insert-perm x ys)))
  ]

  pub sort-perm : (xs : List A) → Permᴰ xs (sort xs)
  sort-perm [] = Permᴰ.nil
  sort-perm (x ∷ xs) = Permᴰ.trans (Permᴰ.cons refl (sort-perm xs)) (insert-perm x (sort xs))

  module _ (transitive : (x y z : A) → le x y ≡ true → le y z ≡ true → le x z ≡ true)
      (total : (x y : A) → le x y ≡ false → le y x ≡ true) where
    All-weaken :
        (x y : A) (zs : List A)
        → le x y ≡ true
        → All (λ z. le y z ≡ true) zs
        → All (λ z. le x z ≡ true) zs
    All-weaken x y [] h k = tt
    All-weaken x y (z ∷ zs) h (p, k) = (transitive x y z h p, All-weaken x y zs h k)

    insert-All :
        (x y : A) (ys : List A)
        → le x y ≡ true
        → All (λ z. le x z ≡ true) ys
        → All (λ z. le x z ≡ true) (insert y ys)
    insert-All x y [] p h = (p, tt)
    insert-All x y (z ∷ zs) p (q, h) = elim (Bool-cases (le y z)) [
      | inl before ↦ rw before (p, (q, h))
      | inr after ↦ rw after (q, insert-All x y zs p h)
    ]

    insert-Ordered : (x : A) (ys : List A) → Ordered ys → Ordered (insert x ys)
    insert-Ordered x [] h = (tt, tt)
    insert-Ordered x (y ∷ ys) (first, h) = elim (Bool-cases (le x y)) [
      | inl before ↦ rw before ((before, All-weaken x y ys before first), (first, h))
      | inr after ↦ rw after (insert-All y x ys (total x y after) first, insert-Ordered x ys h)
    ]

    pub sort-Ordered : (xs : List A) → Ordered (sort xs)
    sort-Ordered [] = tt
    sort-Ordered (x ∷ xs) = insert-Ordered x (sort xs) (sort-Ordered xs)
