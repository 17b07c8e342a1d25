-- ===== src/Base/Rows/Growing.antt =====
-- A table with a row added at its end.
use Prim.Native.Nat.{◌+◌, ◌≤◌, suc}
use mathlib.Core.Path.{◌≡◌, refl, ap}
use mathlib.Core.Logic.{inl, inr}
use mathlib.Core.Bool.{Bool, true, false}
use mathlib.Core.List.{List, [], ◌∷◌, ◌++◌, map}
use native.Mathlib.Omega.{arith}
use voice_call.Base.Tests.{Bool-cases}
use voice_call.Base.Rows.{length, any, update_where, count_where, All}

module _ {ℓ} {A : Type ℓ} where
  -- An update that only the last row matches.
  pub update_where-last :
      (p : A → Bool) (f : A → A) (xs : List A) (x : A)
      → All (λ y. p y ≡ false) xs
      → p x ≡ true
      → update_where p f (xs ++ x ∷ []) ≡ xs ++ f x ∷ []
  unfolding update_where
  update_where-last p f [] x h e = rw e refl
  update_where-last p f (y ∷ ys) x h e =
      rw (h.0) (ap (λ zs. y ∷ zs) (update_where-last p f ys x h.1 e))

  pub count_where-append :
      (p : A → Bool) (xs ys : List A)
      → count_where p (xs ++ ys) ≡ count_where p xs + count_where p ys
  unfolding count_where
  count_where-append p [] ys = omega arith
  count_where-append p (x ∷ xs) ys = elim (Bool-cases (p x)) [
    | inl e ↦ rw e (omega (arith, count_where-append p xs ys))
    | inr e ↦ rw e (count_where-append p xs ys)
  ]

  pub any-append_unmatched :
      (p : A → Bool) (xs : List A) (x : A)
      → any p xs ≡ false
      → p x ≡ false
      → any p (xs ++ x ∷ []) ≡ false
  unfolding any
  any-append_unmatched p [] x h k = rw k refl
  any-append_unmatched p (y ∷ ys) x h k = elim (Bool-cases (p y)) [
    | inl e ↦ absurd (cc (rw e at h))
    | inr e ↦ rw e (any-append_unmatched p ys x (rw e at h) k)
  ]

  pub count_where-le-length : (p : A → Bool) (xs : List A) → count_where p xs ≤ length xs
  unfolding count_where
  count_where-le-length p [] = omega arith
  count_where-le-length p (x ∷ xs) = elim (Bool-cases (p x)) [
    | inl e ↦ rw e (omega (arith, count_where-le-length p xs))
    | inr e ↦ rw e (omega (arith, count_where-le-length p xs))
  ]

  pub append_assoc : (xs ys zs : List A) → ((xs ++ ys) ++ zs) ≡ (xs ++ (ys ++ zs))
  append_assoc [] ys zs = refl
  append_assoc (x ∷ xs) ys zs = ap (λ ws. x ∷ ws) (append_assoc xs ys zs)

  pub append_nil : (xs : List A) → (xs ++ []) ≡ xs
  append_nil [] = refl
  append_nil (x ∷ xs) = ap (λ ys. x ∷ ys) (append_nil xs)

pub length-eq-map {ℓ κ μ} :
    {A : Type ℓ} {B : Type κ} {C : Type μ} (f : A → C) (g : B → C) (xs : List A) (ys : List B)
    → map f xs ≡ map g ys
    → length xs ≡ length ys
length-eq-map f g [] [] e = refl
length-eq-map f g [] (y ∷ ys) e = absurd (cc)
length-eq-map f g (x ∷ xs) [] e = absurd (cc)
length-eq-map f g (x ∷ xs) (y ∷ ys) e = ap suc (length-eq-map f g xs ys (cc e))
