-- ===== src/Base/Rows/Views.antt =====
-- Rows that are read through a view of them: sorted, updated and selected.
use mathlib.Core.Path.{◌≡◌, refl, sym, ap, ◌∙◌}
use mathlib.Core.Option.{Option, none, some}
use mathlib.Core.Logic.{inl, inr}
use mathlib.Core.Bool.{Bool, true, false, ◌&&◌}
use mathlib.Core.List.{List, [], ◌∷◌, map, Memᴰ}
use voice_call.Base.Tests.{Bool-cases, is_some}
use voice_call.Base.Rows.{insert_by, sort_by, update_where, select_where, first_where, any}
use voice_call.Base.Rows.Laws.{any-first_where}

module _ {ℓ κ} {A : Type ℓ} {B : Type κ} (f : A → B) (le : B → B → Bool) where
  insert_by-map :
      (x : A) (xs : List A)
      → insert_by le (f x) (map f xs) ≡ map f (insert_by (λ a b. le (f a) (f b)) x xs)
  unfolding insert_by
  insert_by-map x [] = refl
  insert_by-map x (y ∷ ys) = elim (Bool-cases (le (f x) (f y))) [
    | inl before ↦ rw before refl
    | inr after ↦ rw after (ap (λ rest. f y ∷ rest) (insert_by-map x ys))
  ]

  pub sort_by-map :
      (xs : List A) → sort_by le (map f xs) ≡ map f (sort_by (λ a b. le (f a) (f b)) xs)
  unfolding sort_by
  sort_by-map [] = refl
  sort_by-map (x ∷ xs) =
      ap (insert_by le (f x)) (sort_by-map xs)
      ∙ insert_by-map x (sort_by (λ a b. le (f a) (f b)) xs)

  -- A view that is read back gives the rows again.
  pub map-map-id : (g : B → A) (xs : List A) → ((x : A) → g (f x) ≡ x) → map g (map f xs) ≡ xs
  map-map-id g [] h = refl
  map-map-id g (x ∷ xs) h =
      ap (λ y. y ∷ map g (map f xs)) (h x) ∙ ap (λ ys. x ∷ ys) (map-map-id g xs h)

pub map-update_where {ℓ κ} :
    {A : Type ℓ} {B : Type κ} (g : A → B) (p : A → Bool) (f : A → A) (xs : List A)
    → ((x : A) → g (f x) ≡ g x)
    → map g (update_where p f xs) ≡ map g xs
unfolding update_where
map-update_where g p f [] same = refl
map-update_where g p f (x ∷ xs) same = elim (Bool-cases (p x)) [
  | inl e ↦ rw e (
      ap (λ y. y ∷ map g (update_where p f xs)) (same x)
      ∙ ap (λ ys. g x ∷ ys) (map-update_where g p f xs same))
  | inr e ↦ rw e (ap (λ ys. g x ∷ ys) (map-update_where g p f xs same))
]

module _ {ℓ} {A : Type ℓ} where
  -- An update of rows that are not selected.
  pub select_where-update_where :
      (q p : A → Bool) (f : A → A) (xs : List A)
      → ((x : A) → p x ≡ true → q x ≡ false)
      → ((x : A) → p x ≡ true → q (f x) ≡ false)
      → select_where q (update_where p f xs) ≡ select_where q xs
  unfolding select_where update_where
  select_where-update_where q p f [] h k = refl
  select_where-update_where q p f (x ∷ xs) h k = elim (Bool-cases (p x)) [
    | inl e ↦ rw (e, h x e) (rw (k x e) (select_where-update_where q p f xs h k))
    | inr e ↦ elim (Bool-cases (q x)) [
      | inl d ↦ rw (e, d) (ap (λ ys. x ∷ ys) (select_where-update_where q p f xs h k))
      | inr d ↦ rw (e, d) (select_where-update_where q p f xs h k)
    ]
  ]

  abbrev first_of : List A → Option A
  first_of [] = none
  first_of (x ∷ xs) = some x

  first_where-first_of :
      (p : A → Bool) (xs : List A) → first_where p xs ≡ first_of (select_where p xs)
  unfolding select_where first_where
  first_where-first_of p [] = refl
  first_where-first_of p (x ∷ xs) = elim (Bool-cases (p x)) [
    | inl e ↦ rw e refl
    | inr e ↦ rw e (first_where-first_of p xs)
  ]

  any-select_where_both :
      (q p : A → Bool) (xs : List A) → any (λ x. q x && p x) xs ≡ any q (select_where p xs)
  unfolding select_where any
  any-select_where_both q p [] = refl
  any-select_where_both q p (x ∷ xs) = elim (Bool-cases (p x)) [
    | inl e ↦ rw e (elim (Bool-cases (q x)) [
      | inl d ↦ rw d refl
      | inr d ↦ rw d (any-select_where_both q p xs)
    ])
    | inr e ↦ rw e (elim (Bool-cases (q x)) [
      | inl d ↦ rw d (any-select_where_both q p xs)
      | inr d ↦ rw d (any-select_where_both q p xs)
    ])
  ]

  -- Tables with the same rows of `p` give the same first one, and the same answer to a test of them.
  pub first_where-selected :
      (p : A → Bool) (xs ys : List A)
      → select_where p xs ≡ select_where p ys
      → first_where p xs ≡ first_where p ys
  first_where-selected p xs ys same =
      first_where-first_of p xs ∙ ap first_of same ∙ sym (first_where-first_of p ys)

  pub any-selected_both :
      (q p : A → Bool) (xs ys : List A)
      → select_where p xs ≡ select_where p ys
      → any (λ x. q x && p x) xs ≡ any (λ x. q x && p x) ys
  any-selected_both q p xs ys same =
      any-select_where_both q p xs ∙ ap (any q) same ∙ sym (any-select_where_both q p ys)

  pub any-selected :
      (p : A → Bool) (xs ys : List A) → select_where p xs ≡ select_where p ys → any p xs ≡ any p ys
  any-selected p xs ys same =
      any-first_where p xs
      ∙ ap is_some (first_where-selected p xs ys same)
      ∙ sym (any-first_where p ys)

  pub mem-update_where_touched :
      (p : A → Bool) (f : A → A) (xs : List A) (x : A)
      → p x ≡ true
      → Memᴰ x xs
      → Memᴰ (f x) (update_where p f xs)
  unfolding update_where
  mem-update_where_touched p f [] x h m = elim m [ ]
  mem-update_where_touched p f (y ∷ ys) x h (Memᴰ.head e) =
      Memᴰ.head (ap f e ∙ (rw (← e) (rw h refl)))
  mem-update_where_touched p f (y ∷ ys) x h (Memᴰ.tail m) =
      Memᴰ.tail (mem-update_where_touched p f ys x h m)
