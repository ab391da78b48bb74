-- ===== src/Prelude/Permutations.antt =====
-- What a permutation keeps.
use Prim.Native.Nat.{suc, ◌+◌, ◌≤◌}
use mathlib.Core.Path.{◌≡◌, refl, ap, ◌∙◌}
use mathlib.Core.Bool.{Bool}
use mathlib.Core.Logic.{inl, inr}
use mathlib.Core.List.{List, [], ◌∷◌, ◌++◌, Permᴰ}
use native.Mathlib.Omega.{arith}
use weighing_data_sync.Prelude.Tests.{Bool-cases}
use weighing_data_sync.Prelude.Lists.{length, keep, All}

pub All-perm {ℓ κ} :
    {A : Type ℓ} (P : A → Type κ) {xs ys : List A} → Permᴰ xs ys → All P xs → All P ys
All-perm P Permᴰ.nil h = tt
All-perm P (Permᴰ.cons e p) h = (rw (← e) h.0, All-perm P p h.1)
All-perm P (Permᴰ.swap e e') h = (rw (← e') h.1.0, (rw (← e) h.0, h.1.1))
All-perm P (Permᴰ.trans p p') h = All-perm P p' (All-perm P p h)

module _ {ℓ} {A : Type ℓ} (p : A → Bool) where
  pub length-keep-append :
      (xs ys : List A) → length (keep p (xs ++ ys)) ≡ length (keep p xs) + length (keep p ys)
  length-keep-append [] ys = omega arith
  length-keep-append (x ∷ xs) ys = elim (Bool-cases (p x)) [
    | inl holds ↦ rw holds (omega (arith, length-keep-append xs ys))
    | inr fails ↦ rw fails (length-keep-append xs ys)
  ]

  pub length-keep-perm : {xs ys : List A} → Permᴰ xs ys → length (keep p xs) ≡ length (keep p ys)
  length-keep-perm Permᴰ.nil = refl
  length-keep-perm (Permᴰ.cons {a} e q) = rw (← e) (elim (Bool-cases (p a)) [
    | inl holds ↦ rw holds (omega (arith, length-keep-perm q))
    | inr fails ↦ rw fails (length-keep-perm q)
  ])
  length-keep-perm (Permᴰ.swap {a} {b} {l} e e') = rw (← e, ← e') (swapped a b l)
    where
      swapped : (a b : A) (l : List A) → length (keep p (a ∷ b ∷ l)) ≡ length (keep p (b ∷ a ∷ l))
      swapped a b l = elim (Bool-cases (p a)) [
        | inl holds ↦ rw holds (elim (Bool-cases (p b)) [ inl h ↦ rw h | inr h ↦ rw h ])
        | inr fails ↦ rw fails
      ]
  length-keep-perm (Permᴰ.trans q q') = length-keep-perm q ∙ length-keep-perm q'

  pub length-keep-le : (xs : List A) → length (keep p xs) ≤ length xs
  length-keep-le [] = omega arith
  length-keep-le (x ∷ xs) = elim (Bool-cases (p x)) [
    | inl holds ↦ rw holds (omega (arith, length-keep-le xs))
    | inr fails ↦ rw fails (omega (arith, length-keep-le xs))
  ]

pub length-perm {ℓ} : {A : Type ℓ} {xs ys : List A} → Permᴰ xs ys → length xs ≡ length ys
length-perm Permᴰ.nil = refl
length-perm (Permᴰ.cons e q) = ap suc (length-perm q)
length-perm (Permᴰ.swap e e') = refl
length-perm (Permᴰ.trans q q') = length-perm q ∙ length-perm q'
