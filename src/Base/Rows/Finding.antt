-- ===== src/Base/Rows/Finding.antt =====
-- The row that is found after a table has changed.
use mathlib.Core.Path.{◌≡◌, refl, sym, ap, ◌∙◌}
use mathlib.Core.Logic.{inl, inr}
use mathlib.Core.Bool.{Bool, true, false, ◌&&◌}
use mathlib.Core.Option.{none, some}
use mathlib.Core.List.{List, [], ◌∷◌, ◌++◌, Memᴰ}
use voice_call.Base.Tests.{Bool-cases, is_some}
use voice_call.Base.Rows.{first_where, any, update_where, select_where, All}
use voice_call.Base.Rows.Laws.{any-first_where, first_where-update_where_other}

module _ {ℓ} {A : Type ℓ} where
  pub mem-first_where : (p : A → Bool) (xs : List A) {x : A} → first_where p xs ≡ some x → Memᴰ x xs
  unfolding first_where
  mem-first_where p [] e = absurd (cc)
  mem-first_where p (y ∷ ys) {x} e = elim (Bool-cases (p y)) [
    | inl hit ↦ Memᴰ.head (sym (cc (rw hit at e)))
    | inr miss ↦ Memᴰ.tail (mem-first_where p ys (rw miss at e))
  ]

  pub first_where-append_last :
      (q : A → Bool) (xs : List A) (x : A)
      → first_where q xs ≡ none
      → q x ≡ true
      → first_where q (xs ++ x ∷ []) ≡ some x
  unfolding first_where
  first_where-append_last q [] x miss hit = rw hit refl
  first_where-append_last q (y ∷ ys) x miss hit = elim (Bool-cases (q y)) [
    | inl early ↦ absurd (cc (rw early at miss))
    | inr other ↦ rw other (first_where-append_last q ys x (rw other at miss) hit)
  ]

  -- An update that makes `q` hold of the rows of `p`, where `q` held of no earlier row.
  pub first_where-update_where_made :
      (q p : A → Bool) (f : A → A) (xs : List A)
      → ((y : A) → p y ≡ true → p (f y) ≡ true)
      → ((y : A) → p y ≡ true → q (f y) ≡ true)
      → ((y : A) → first_where q xs ≡ some y → p y ≡ true)
      → any p xs ≡ true
      → (x : A) × (first_where q (update_where p f xs) ≡ some x) × (p x ≡ true)
  unfolding first_where update_where any
  first_where-update_where_made q p f [] keeps makes first there = absurd (cc)
  first_where-update_where_made q p f (y ∷ ys) keeps makes first there = elim (Bool-cases (p y)) [
    | inl here ↦ (f y, rw here (rw (makes y here) refl), keeps y here)
    | inr other ↦ elim (Bool-cases (q y)) [
      | inl early ↦ absurd (cc (first y (rw early refl)))
      | inr miss ↦ rw other (
          rw miss (
            first_where-update_where_made q p f ys keeps makes (λ z found. first z (rw miss found))
              (rw other at there)))
    ]
  ]

  pub any-update_where_other :
      (q p : A → Bool) (f : A → A) (xs : List A)
      → ((x : A) → p x ≡ true → q x ≡ false)
      → ((x : A) → p x ≡ true → q (f x) ≡ false)
      → any q (update_where p f xs) ≡ any q xs
  any-update_where_other q p f xs h k =
      any-first_where q (update_where p f xs)
      ∙ ap is_some (first_where-update_where_other q p f xs h k)
      ∙ sym (any-first_where q xs)

  -- A row that was found before another is added.
  pub first_where-append :
      (q : A → Bool) (xs ys : List A) {x : A}
      → first_where q xs ≡ some x
      → first_where q (xs ++ ys) ≡ some x
  unfolding first_where
  first_where-append q [] ys found = absurd (cc)
  first_where-append q (y ∷ xs) ys {x} found = elim (Bool-cases (q y)) [
    | inl hit ↦ rw hit (rw hit at found)
    | inr miss ↦ rw miss (first_where-append q xs ys (rw miss at found))
  ]

  -- The first row of `p`, if it has `q` too, is the first row of both.
  pub first_where-both :
      (p q : A → Bool) (xs : List A) {x : A}
      → first_where p xs ≡ some x
      → q x ≡ true
      → first_where (λ y. p y && q y) xs ≡ some x
  unfolding first_where
  first_where-both p q [] found holds_too = absurd (cc)
  first_where-both p q (y ∷ ys) {x} found holds_too = elim (Bool-cases (p y)) [
    | inl hit ↦ let is : y ≡ x = cc (rw hit at found) in rw (hit, is) (rw holds_too refl)
    | inr miss ↦ rw miss (first_where-both p q ys (rw miss at found) holds_too)
  ]

  select_where-none :
      (p q : A → Bool) (xs : List A)
      → ((x : A) → q x ≡ true → p x ≡ false)
      → select_where p (select_where q xs) ≡ []
  unfolding select_where
  select_where-none p q [] apart = refl
  select_where-none p q (x ∷ xs) apart = elim (Bool-cases (q x)) [
    | inl kept ↦ rw kept (rw (apart x kept) (select_where-none p q xs apart))
    | inr dropped ↦ rw dropped (select_where-none p q xs apart)
  ]

  select_where-All :
      (p : A → Bool) (xs : List A) → All (λ x. p x ≡ true) xs → select_where p xs ≡ xs
  unfolding select_where
  select_where-All p [] h = refl
  select_where-All p (x ∷ xs) h = rw h.0 (ap (λ ys. x ∷ ys) (select_where-All p xs h.1))

  select_where-append :
      (p : A → Bool) (xs ys : List A)
      → select_where p (xs ++ ys) ≡ select_where p xs ++ select_where p ys
  unfolding select_where
  select_where-append p [] ys = refl
  select_where-append p (x ∷ xs) ys = elim (Bool-cases (p x)) [
    | inl e ↦ rw e (ap (λ zs. x ∷ zs) (select_where-append p xs ys))
    | inr e ↦ rw e (select_where-append p xs ys)
  ]

  -- delete … where p, then insert rows of p
  pub select_where-replaced :
      (p q : A → Bool) (xs new : List A)
      → ((x : A) → q x ≡ true → p x ≡ false)
      → All (λ x. p x ≡ true) new
      → select_where p (select_where q xs ++ new) ≡ new
  select_where-replaced p q xs new apart fresh =
      select_where-append p (select_where q xs) new
      ∙ ap (λ ys. ys ++ select_where p new) (select_where-none p q xs apart)
      ∙ select_where-All p new fresh
