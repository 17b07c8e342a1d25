-- ===== src/Base/Rows/Keys.antt =====
-- A key column: no two rows of a table share it.
use Prim.Native.Nat.{ℕ, zero, suc}
use mathlib.Core.Path.{◌≡◌, refl, sym, ap, ◌∙◌}
use mathlib.Core.Logic.{◌≢◌, inl, inr}
use mathlib.Core.Bool.{Bool}
use mathlib.Core.List.{List, [], ◌∷◌, ◌++◌, Memᴰ}
use voice_call.Base.Tests.{Bool-cases, if◌then◌else◌}
use voice_call.Base.Rows.{take, select_where, update_where, insert_by, sort_by, All}
use voice_call.Base.Rows.Laws.{All-mem, All-select_where-All, All-take}

module _ {ℓ} {A : Type ℓ} (key : A → ℕ) where
  -- No row of the list has the key `k`.
  abbrev pub Lacks : ℕ → List A → Type 0
  Lacks k = All (λ x. key x ≢ k)

  abbrev pub Distinct : List A → Type 0
  Distinct [] = Unit
  Distinct (x ∷ xs) = Lacks (key x) xs × Distinct xs

  -- A key names one row.
  pub Distinct-unique :
      (xs : List A) (x y : A) → Distinct xs → Memᴰ x xs → Memᴰ y xs → key x ≡ key y → x ≡ y
  Distinct-unique [] x y d m n e = elim m [ ]
  Distinct-unique (z ∷ zs) x y d (Memᴰ.head p) (Memᴰ.head q) e = p ∙ sym q
  Distinct-unique (z ∷ zs) x y d (Memᴰ.head p) (Memᴰ.tail n) e =
      absurd (All-mem _ zs y d.0 n (sym e ∙ ap key p))
  Distinct-unique (z ∷ zs) x y d (Memᴰ.tail m) (Memᴰ.head q) e =
      absurd (All-mem _ zs x d.0 m (e ∙ ap key q))
  Distinct-unique (z ∷ zs) x y d (Memᴰ.tail m) (Memᴰ.tail n) e = Distinct-unique zs x y d.1 m n e

  Lacks-append_last :
      (k : ℕ) (xs : List A) (x : A) → Lacks k xs → key x ≢ k → Lacks k (xs ++ x ∷ [])
  Lacks-append_last k [] x d h = (h, tt)
  Lacks-append_last k (y ∷ ys) x d h = (d.0, Lacks-append_last k ys x d.1 h)

  -- A row with a new key is added at the end.
  pub Distinct-append_last :
      (xs : List A) (x : A) → Distinct xs → Lacks (key x) xs → Distinct (xs ++ x ∷ [])
  Distinct-append_last [] x d h = (tt, tt)
  Distinct-append_last (y ∷ ys) x d h =
      (Lacks-append_last (key y) ys x d.0 (λ e. h.0 (sym e)), Distinct-append_last ys x d.1 h.1)

  pub Distinct-take : (n : ℕ) (xs : List A) → Distinct xs → Distinct (take n xs)
  Distinct-take zero xs d = tt
  Distinct-take (suc n) [] d = tt
  Distinct-take (suc n) (x ∷ xs) d = (All-take _ n xs d.0, Distinct-take n xs d.1)

  pub Distinct-select_where :
      (p : A → Bool) (xs : List A) → Distinct xs → Distinct (select_where p xs)
  unfolding select_where
  Distinct-select_where p [] d = tt
  Distinct-select_where p (x ∷ xs) d = elim (Bool-cases (p x)) [
    | inl e ↦ rw e (All-select_where-All _ p xs d.0, Distinct-select_where p xs d.1)
    | inr e ↦ rw e (Distinct-select_where p xs d.1)
  ]

  Lacks-insert_by :
      (le : A → A → Bool) (k : ℕ) (x : A) (xs : List A)
      → key x ≢ k
      → Lacks k xs
      → Lacks k (insert_by le x xs)
  unfolding insert_by
  Lacks-insert_by le k x [] h d = (h, tt)
  Lacks-insert_by le k x (y ∷ ys) h d = elim (Bool-cases (le x y)) [
    | inl e ↦ rw e (h, d)
    | inr e ↦ rw e (d.0, Lacks-insert_by le k x ys h d.1)
  ]

  Distinct-insert_by :
      (le : A → A → Bool) (x : A) (xs : List A)
      → Lacks (key x) xs
      → Distinct xs
      → Distinct (insert_by le x xs)
  unfolding insert_by
  Distinct-insert_by le x [] h d = (tt, tt)
  Distinct-insert_by le x (y ∷ ys) h d = elim (Bool-cases (le x y)) [
    | inl e ↦ rw e (h, d)
    | inr e ↦
        rw e (
          Lacks-insert_by le (key y) x ys (λ q. h.0 (sym q)) d.0,
          Distinct-insert_by le x ys h.1 d.1,
        )
  ]

  Lacks-sort_by : (le : A → A → Bool) (k : ℕ) (xs : List A) → Lacks k xs → Lacks k (sort_by le xs)
  unfolding sort_by
  Lacks-sort_by le k [] d = tt
  Lacks-sort_by le k (x ∷ xs) d =
      Lacks-insert_by le k x (sort_by le xs) d.0 (Lacks-sort_by le k xs d.1)

  pub Distinct-sort_by : (le : A → A → Bool) (xs : List A) → Distinct xs → Distinct (sort_by le xs)
  unfolding sort_by
  Distinct-sort_by le [] d = tt
  Distinct-sort_by le (x ∷ xs) d =
      Distinct-insert_by le x (sort_by le xs) (Lacks-sort_by le (key x) xs d.0)
        (Distinct-sort_by le xs d.1)

  module _ (p : A → Bool) (f : A → A) (keeps : (x : A) → key (f x) ≡ key x) where
    key-update : (x : A) → key (if p x then f x else x) ≡ key x
    key-update x = elim (Bool-cases (p x)) [ inl e ↦ rw e (keeps x) | inr e ↦ rw e refl ]

    Lacks-update_where : (k : ℕ) (xs : List A) → Lacks k xs → Lacks k (update_where p f xs)
    unfolding update_where
    Lacks-update_where k [] d = tt
    Lacks-update_where k (x ∷ xs) d =
        ((λ q. d.0 (sym (key-update x) ∙ q)), Lacks-update_where k xs d.1)

    -- An update that leaves the key alone.
    pub Distinct-update_where : (xs : List A) → Distinct xs → Distinct (update_where p f xs)
    unfolding update_where
    Distinct-update_where [] d = tt
    Distinct-update_where (x ∷ xs) d =
        (rw (key-update x) (Lacks-update_where (key x) xs d.0), Distinct-update_where xs d.1)
