-- ===== src/Prelude/Keys.antt =====
-- Rows with distinct keys: the rows whose key a selection lists are the rows selected.
use Prim.Native.Nat.{ℕ, ◌≤◌}
use mathlib.Core.Path.{◌≡◌, refl}
use mathlib.Core.Bool.{Bool, false, ◌||◌}
use mathlib.Core.List.{List, [], ◌∷◌}
use native.Mathlib.Omega.{arith}
use music_room_bot.Prelude.Tests.{◌==◌}
use music_room_bot.Prelude.Lists.{All}
use music_room_bot.Prelude.Rows.{select, count_rows, update_rows, delete_rows}

module _ {A : Type 0} (key : A → ℕ) where
  -- Some row of the list has the row's key, as in `WHERE id IN (…)`.
  abbrev pub has_listed_key : List A → A → Bool
  has_listed_key [] x = false
  has_listed_key (u ∷ us) x = key x == key u || has_listed_key us x

  abbrev pub HasKeys : List A → Type 0
  HasKeys [] = Unit
  HasKeys (x ∷ xs) = (count_rows (λ y. key y == key x) xs ≡ 0) × HasKeys xs

  All-other_key :
      (i : ℕ) (xs : List A)
      → count_rows (λ y. key y == i) xs ≡ 0
      → All (λ y. (key y == i) ≡ false) xs
  unfolding count_rows
  All-other_key i [] h = tt
  All-other_key i (x ∷ xs) h = (ground arith, All-other_key i xs (ground arith))

  not-has_listed_key :
      (p : A → Bool) (x : A) (xs : List A)
      → count_rows (λ y. key y == key x) xs ≡ 0
      → has_listed_key (select p xs) x ≡ false
  unfolding count_rows select
  not-has_listed_key p x [] h = refl
  not-has_listed_key p x (y ∷ xs) h = ground (arith, not-has_listed_key p x xs)

  listed_after :
      (p : A → Bool) (x : A) (xs zs : List A)
      → All (λ y. has_listed_key (select p xs) y ≡ p y) zs
      → All (λ y. (key y == key x) ≡ false) zs
      → All (λ y. has_listed_key (select p (x ∷ xs)) y ≡ p y) zs
  unfolding select
  listed_after p x xs [] h k = tt
  listed_after p x xs (z ∷ zs) h k = (ground arith, listed_after p x xs zs h.1 k.1)

  pub All-has_listed_key :
      (p : A → Bool) (xs : List A) → HasKeys xs → All (λ x. has_listed_key (select p xs) x ≡ p x) xs
  unfolding select
  All-has_listed_key p [] k = tt
  All-has_listed_key p (x ∷ xs) k = (
    ground (arith, not-has_listed_key p x xs k.0),
    listed_after p x xs xs (All-has_listed_key p xs k.1) (All-other_key (key x) xs k.0),
  )

  -- At most one row for each key, counted, is the same as distinct keys.
  pub counts-HasKeys : (xs : List A) → ((i : ℕ) → count_rows (λ y. key y == i) xs ≤ 1) → HasKeys xs
  unfolding count_rows
  counts-HasKeys [] h = tt
  counts-HasKeys (x ∷ xs) h =
      (ground (arith, h (key x)), counts-HasKeys xs (λ i. ground (arith, h i)))

module _ {A : Type 0} (p q : A → Bool) where
  pub update_rows_same :
      (f : A → A) (xs : List A) → All (λ x. p x ≡ q x) xs → update_rows p f xs ≡ update_rows q f xs
  unfolding update_rows
  update_rows_same f [] h = refl
  update_rows_same f (x ∷ xs) h = ground (arith, update_rows_same f xs h.1)

  pub delete_rows_same :
      (xs : List A) → All (λ x. p x ≡ q x) xs → delete_rows p xs ≡ delete_rows q xs
  unfolding delete_rows
  delete_rows_same [] h = refl
  delete_rows_same (x ∷ xs) h = ground (arith, delete_rows_same xs h.1)

module _ {A : Type 0} (p : A → Bool) where
  -- A deletion leaves no row that meets its test.
  pub count_rows-delete_rows_self : (xs : List A) → count_rows p (delete_rows p xs) ≡ 0
  unfolding count_rows delete_rows
  count_rows-delete_rows_self [] = refl
  count_rows-delete_rows_self (x ∷ xs) = ground (arith, count_rows-delete_rows_self xs)
