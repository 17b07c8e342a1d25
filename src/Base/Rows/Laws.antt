-- ===== src/Base/Rows/Laws.antt =====
-- What the statements over a table keep and find.
use Prim.Native.Nat.{ℕ, zero, suc}
use mathlib.Core.Path.{◌≡◌, refl, sym, subst}
use mathlib.Core.Logic.{◌↔◌, inl, inr}
use mathlib.Core.Bool.{Bool, true, false}
use mathlib.Core.Option.{none, some}
use mathlib.Core.List.{List, [], ◌∷◌, ◌++◌, Memᴰ}
use native.Mathlib.Omega.{arith}
use voice_call.Base.Tests.{Bool-cases, is_some, if◌then◌else◌}
use voice_call.Base.Rows.{
  take, get_elem?, select_where, first_where, any, update_where, insert_by, sort_by, All,
}

pub All-mono {ℓ κ μ} :
    {A : Type ℓ} (P : A → Type κ) (Q : A → Type μ) (xs : List A)
    → ((x : A) → P x → Q x)
    → All P xs
    → All Q xs
All-mono P Q [] k h = tt
All-mono P Q (x ∷ xs) k h = (k x h.0, All-mono P Q xs k h.1)

pub All-mem {ℓ κ} : {A : Type ℓ} (P : A → Type κ) (xs : List A) (x : A) → All P xs → Memᴰ x xs → P x
All-mem P [] x h m = elim m [ ]
All-mem P (y ∷ ys) x h (Memᴰ.head e) = subst P (sym e) h.0
All-mem P (y ∷ ys) x h (Memᴰ.tail m) = All-mem P ys x h.1 m

module _ {ℓ κ} {A : Type ℓ} (P : A → Type κ) where
  pub All-get_elem? : (xs : List A) (i : ℕ) {x : A} → All P xs → get_elem? xs i ≡ some x → P x
  All-get_elem? [] i h e = cc
  All-get_elem? (x ∷ xs) zero h e = ground arith
  All-get_elem? (x ∷ xs) (suc i) h e = All-get_elem? xs i h.1 e

  pub All-select_where :
      (p : A → Bool) (xs : List A) → ((x : A) → p x ≡ true → P x) → All P (select_where p xs)
  unfolding select_where
  All-select_where p [] k = tt
  All-select_where p (x ∷ xs) k = elim (Bool-cases (p x)) [
    | inl e ↦ rw e (k x e, All-select_where p xs k)
    | inr e ↦ rw e (All-select_where p xs k)
  ]

  -- A selection keeps what held of all rows.
  pub All-select_where-All : (p : A → Bool) (xs : List A) → All P xs → All P (select_where p xs)
  unfolding select_where
  All-select_where-All p [] h = tt
  All-select_where-All p (x ∷ xs) h = elim (Bool-cases (p x)) [
    | inl e ↦ rw e (h.0, All-select_where-All p xs h.1)
    | inr e ↦ rw e (All-select_where-All p xs h.1)
  ]

  pub All-take : (n : ℕ) (xs : List A) → All P xs → All P (take n xs)
  All-take zero xs h = tt
  All-take (suc n) [] h = tt
  All-take (suc n) (x ∷ xs) h = (h.0, All-take n xs h.1)

  All-insert_by :
      (le : A → A → Bool) (x : A) (xs : List A) → P x → All P xs → All P (insert_by le x xs)
  unfolding insert_by
  All-insert_by le x [] h k = (h, tt)
  All-insert_by le x (y ∷ ys) h k = elim (Bool-cases (le x y)) [
    | inl e ↦ rw e (h, k)
    | inr e ↦ rw e (k.0, All-insert_by le x ys h k.1)
  ]

  pub All-sort_by : (le : A → A → Bool) (xs : List A) → All P xs → All P (sort_by le xs)
  unfolding sort_by
  All-sort_by le [] h = tt
  All-sort_by le (x ∷ xs) h = All-insert_by le x (sort_by le xs) h.0 (All-sort_by le xs h.1)

  pub All-update_where :
      (p : A → Bool) (f : A → A) (xs : List A)
      → ((x : A) → p x ≡ true → P x → P (f x))
      → All P xs
      → All P (update_where p f xs)
  unfolding update_where
  All-update_where p f [] k h = tt
  All-update_where p f (x ∷ xs) k h = elim (Bool-cases (p x)) [
    | inl e ↦ rw e (k x e h.0, All-update_where p f xs k h.1)
    | inr e ↦ rw e (h.0, All-update_where p f xs k h.1)
  ]

module _ {ℓ} {A : Type ℓ} where
  pub first_where-true :
      (p : A → Bool) (xs : List A) {x : A} → first_where p xs ≡ some x → p x ≡ true
  unfolding first_where
  first_where-true p [] e = cc
  first_where-true p (y ∷ ys) {x} e = elim (Bool-cases (p y)) [
    | inl h ↦ ground arith
    | inr h ↦ first_where-true p ys (rw h at e)
  ]

  -- An update that does not change which rows `q` picks.
  pub first_where-update_where_other :
      (q p : A → Bool) (f : A → A) (xs : List A)
      → ((x : A) → p x ≡ true → q x ≡ false)
      → ((x : A) → p x ≡ true → q (f x) ≡ false)
      → first_where q (update_where p f xs) ≡ first_where q xs
  unfolding first_where update_where
  first_where-update_where_other q p f [] h k = refl
  first_where-update_where_other q p f (x ∷ xs) h k = elim (Bool-cases (p x)) [
    | inl e ↦ ground (arith, h x e, k x e, first_where-update_where_other q p f xs h k)
    | inr e ↦ ground (arith, first_where-update_where_other q p f xs h k)
  ]

  pub any-false_iff : (p : A → Bool) (xs : List A) → (any p xs ≡ false) ↔ All (λ x. p x ≡ false) xs
  unfolding any
  any-false_iff p [] = (λ e. tt, λ h. refl)
  any-false_iff p (x ∷ xs) = ground (arith, any-false_iff p xs)

  pub any-mem : (p : A → Bool) (xs : List A) → any p xs ≡ true → (x : A) × Memᴰ x xs × (p x ≡ true)
  unfolding any
  any-mem p [] e = cc
  any-mem p (x ∷ xs) e = elim (Bool-cases (p x)) [
    | inl h ↦ (x, Memᴰ.head refl, h)
    | inr h ↦ let (y, m, k) = any-mem p xs (rw h at e) in (y, Memᴰ.tail m, k)
  ]

  pub mem-any : (p : A → Bool) (xs : List A) (x : A) → Memᴰ x xs → p x ≡ true → any p xs ≡ true
  unfolding any
  mem-any p [] x m h = elim m [ ]
  mem-any p (y ∷ ys) x (Memᴰ.head e) h = rw (← e, h)
  mem-any p (y ∷ ys) x (Memᴰ.tail m) h = ground (arith, mem-any p ys x m h)

  pub any-append_last :
      (p : A → Bool) (xs : List A) (x : A) → p x ≡ true → any p (xs ++ x ∷ []) ≡ true
  unfolding any
  any-append_last p [] x h = ground arith
  any-append_last p (y ∷ ys) x h = ground (arith, any-append_last p ys x h)

  pub mem-update_where :
      (p : A → Bool) (f : A → A) (xs : List A) (y : A)
      → Memᴰ y (update_where p f xs)
      → (x : A) × Memᴰ x xs × (y ≡ (if p x then f x else x))
  unfolding update_where
  mem-update_where p f [] y m = elim m [ ]
  mem-update_where p f (x ∷ xs) y (Memᴰ.head e) = (x, Memᴰ.head refl, e)
  mem-update_where p f (x ∷ xs) y (Memᴰ.tail m) =
      let (z, k, e) = mem-update_where p f xs y m in (z, Memᴰ.tail k, e)

  pub All-listed : (xs ys : List A) → ((x : A) → Memᴰ x xs → Memᴰ x ys) → All (λ x. Memᴰ x ys) xs
  All-listed [] ys k = tt
  All-listed (x ∷ xs) ys k = (k x (Memᴰ.head refl), All-listed xs ys (λ y m. k y (Memᴰ.tail m)))

pub All-both {ℓ κ μ} :
    {A : Type ℓ} (P : A → Type κ) (Q : A → Type μ) (xs : List A)
    → All P xs
    → All Q xs
    → All (λ x. P x × Q x) xs
All-both P Q [] h k = tt
All-both P Q (x ∷ xs) h k = ((h.0, k.0), All-both P Q xs h.1 k.1)

-- What an update makes true of the rows that it writes, where the others have it already.
pub All-update_where_made {ℓ κ} :
    {A : Type ℓ} (P : A → Type κ) (p : A → Bool) (f : A → A) (xs : List A)
    → ((x : A) → p x ≡ true → P (f x))
    → ((x : A) → p x ≡ false → P x)
    → All P (update_where p f xs)
unfolding update_where
All-update_where_made P p f [] k h = tt
All-update_where_made P p f (x ∷ xs) k h = elim (Bool-cases (p x)) [
  | inl e ↦ rw e (k x e, All-update_where_made P p f xs k h)
  | inr e ↦ rw e (h x e, All-update_where_made P p f xs k h)
]

pub All-append {ℓ κ} :
    {A : Type ℓ} (P : A → Type κ) (xs ys : List A) → All P xs → All P ys → All P (xs ++ ys)
All-append P [] ys h k = k
All-append P (x ∷ xs) ys h k = (h.0, All-append P xs ys h.1 k)

-- The same as All-update_where, for the rows that stand in the table.
pub All-update_where_listed {ℓ κ} :
    {A : Type ℓ} (P : A → Type κ) (p : A → Bool) (f : A → A) (xs : List A)
    → ((x : A) → Memᴰ x xs → p x ≡ true → P x → P (f x))
    → All P xs
    → All P (update_where p f xs)
unfolding update_where
All-update_where_listed P p f [] k h = tt
All-update_where_listed P p f (x ∷ xs) k h =
    let rest = All-update_where_listed P p f xs (λ y m. k y (Memᴰ.tail m)) h.1 in
    elim (Bool-cases (p x)) [
      | inl e ↦ rw e (k x (Memᴰ.head refl) e h.0, rest)
      | inr e ↦ rw e (h.0, rest)
    ]

module _ {ℓ} {A : Type ℓ} where
  pub first_where-none_iff :
      (p : A → Bool) (xs : List A) → (first_where p xs ≡ none) ↔ All (λ x. p x ≡ false) xs
  unfolding first_where
  first_where-none_iff p [] = (λ e. tt, λ h. refl)
  first_where-none_iff p (x ∷ xs) = elim (Bool-cases (p x)) [
    | inl e ↦ rw e (λ h. absurd (cc), λ h. absurd (cc))
    | inr e ↦
        rw e (λ h. (refl, (first_where-none_iff p xs).0 h), λ h. (first_where-none_iff p xs).1 h.1)
  ]

  -- The row that `q` finds after an update that `q` does not notice.
  pub first_where-update_where :
      (q p : A → Bool) (f : A → A) (xs : List A) {x : A}
      → ((y : A) → q (f y) ≡ q y)
      → first_where q xs ≡ some x
      → first_where q (update_where p f xs) ≡ some (if p x then f x else x)
  unfolding first_where update_where
  first_where-update_where q p f [] k e = absurd (cc)
  first_where-update_where q p f (y ∷ ys) {x} k e = elim (Bool-cases (q y)) [
    | inl hit ↦
        let is : y ≡ x = cc (rw hit at e) in
        elim (Bool-cases (p y)) [
          | inl changed ↦ rw (← is, changed) (rw (k y, hit) refl)
          | inr same ↦ rw (← is, same) (rw hit refl)
        ]
    | inr miss ↦
        let rest = first_where-update_where q p f ys {x = x} k (rw miss at e) in
        elim (Bool-cases (p y)) [
          | inl changed ↦ rw changed (rw (k y, miss) rest)
          | inr same ↦ rw same (rw miss rest)
        ]
  ]

  pub mem-update_where_untouched :
      (p : A → Bool) (f : A → A) (xs : List A) (x : A)
      → p x ≡ false
      → Memᴰ x xs
      → Memᴰ x (update_where p f xs)
  unfolding update_where
  mem-update_where_untouched p f [] x h m = elim m [ ]
  mem-update_where_untouched p f (y ∷ ys) x h (Memᴰ.head e) = Memᴰ.head (rw (← e, h) refl)
  mem-update_where_untouched p f (y ∷ ys) x h (Memᴰ.tail m) =
      Memᴰ.tail (mem-update_where_untouched p f ys x h m)

  pub any-first_where : (p : A → Bool) (xs : List A) → any p xs ≡ is_some (first_where p xs)
  unfolding any first_where
  any-first_where p [] = refl
  any-first_where p (x ∷ xs) = elim (Bool-cases (p x)) [
    | inl e ↦ rw e refl
    | inr e ↦ rw e (any-first_where p xs)
  ]
