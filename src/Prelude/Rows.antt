-- ===== src/Prelude/Rows.antt =====
-- Tables as lists of rows: selection, update and deletion by a test, measured by counting.
use Prim.Native.Nat.{ℕ, ◌+◌, ◌≤◌}
use mathlib.Core.Path.{◌≡◌, refl}
use mathlib.Core.Bool.{Bool, true, false, ◌&&◌}
use mathlib.Core.List.{List, [], ◌∷◌, map}
use native.Mathlib.Omega.{arith}
use music_room_bot.Prelude.Tests.{if◌then◌else◌, indicator}
use music_room_bot.Prelude.Lists.{length}

module _ {ℓ} {A : Type ℓ} where
  -- SELECT … WHERE
  unfoldable pub select : (A → Bool) → List A → List A
  select p [] = []
  select p (x ∷ xs) = if p x then x ∷ select p xs else select p xs

  -- SELECT count(*) … WHERE
  unfoldable pub count_rows : (A → Bool) → List A → ℕ
  count_rows p [] = 0
  count_rows p (x ∷ xs) = indicator (p x) + count_rows p xs

  -- UPDATE … WHERE
  unfoldable pub update_rows : (A → Bool) → (A → A) → List A → List A
  update_rows p f [] = []
  update_rows p f (x ∷ xs) = (if p x then f x else x) ∷ update_rows p f xs

  -- DELETE … WHERE
  unfoldable pub delete_rows : (A → Bool) → List A → List A
  delete_rows p [] = []
  delete_rows p (x ∷ xs) = if p x then delete_rows p xs else x ∷ delete_rows p xs

  pub count_rows-update_rows :
      (p q : A → Bool) (f : A → A) (xs : List A)
      → ((x : A) → p (f x) ≡ p x)
      → count_rows p (update_rows q f xs) ≡ count_rows p xs
  unfolding count_rows update_rows
  count_rows-update_rows p q f [] h = refl
  count_rows-update_rows p q f (x ∷ xs) h = ground (arith, h x, count_rows-update_rows p q f xs h)

  -- No row meets the test, so nothing is updated.
  pub update_rows_none :
      (q : A → Bool) (f : A → A) (xs : List A) → count_rows q xs ≡ 0 → update_rows q f xs ≡ xs
  unfolding count_rows update_rows
  update_rows_none q f [] h = refl
  update_rows_none q f (x ∷ xs) h = ground (arith, update_rows_none q f xs)

  pub delete_rows_none : (q : A → Bool) (xs : List A) → count_rows q xs ≡ 0 → delete_rows q xs ≡ xs
  unfolding count_rows delete_rows
  delete_rows_none q [] h = refl
  delete_rows_none q (x ∷ xs) h = ground (arith, delete_rows_none q xs)

  pub count_rows-delete_rows-le :
      (p q : A → Bool) (xs : List A) → count_rows p (delete_rows q xs) ≤ count_rows p xs
  unfolding count_rows delete_rows
  count_rows-delete_rows-le p q [] = omega arith
  count_rows-delete_rows-le p q (x ∷ xs) = ground (arith, count_rows-delete_rows-le p q xs)

  -- What is left of the rows that meet `p` are those that do not meet `q`.
  pub count_rows-delete_rows :
      (p q : A → Bool) (xs : List A)
      → count_rows p (delete_rows q xs) + count_rows (λ x. p x && q x) xs ≡ count_rows p xs
  unfolding count_rows delete_rows
  count_rows-delete_rows p q [] = refl
  count_rows-delete_rows p q (x ∷ xs) = ground (arith, count_rows-delete_rows p q xs)

  pub count_rows_le :
      (p q : A → Bool) (xs : List A)
      → ((x : A) → p x ≡ true → q x ≡ true)
      → count_rows p xs ≤ count_rows q xs
  unfolding count_rows
  count_rows_le p q [] h = omega arith
  count_rows_le p q (x ∷ xs) h = ground (arith, h x, count_rows_le p q xs h)

  -- An update that takes every row it reaches out of a test leaves no row that meets the test, where
  -- it reaches all that do.
  pub count_rows-update_rows_none :
      (p q : A → Bool) (f : A → A) (xs : List A)
      → ((x : A) → p x ≡ true → q x ≡ true)
      → ((x : A) → p (f x) ≡ false)
      → count_rows p (update_rows q f xs) ≡ 0
  unfolding count_rows update_rows
  count_rows-update_rows_none p q f [] h k = refl
  count_rows-update_rows_none p q f (x ∷ xs) h k =
      ground (arith, h x, k x, count_rows-update_rows_none p q f xs h k)

  -- A test that implies another one is met at most once if that one is.
  pub count_rows_unique :
      (p q : A → Bool) (xs : List A)
      → ((x : A) → p x ≡ true → q x ≡ true)
      → count_rows q xs ≤ 1
      → count_rows p xs ≤ 1
  count_rows_unique p q xs h u = omega (arith, count_rows_le p q xs h)

  pub count_rows_congr :
      (p q : A → Bool) (xs : List A) → ((x : A) → p x ≡ q x) → count_rows p xs ≡ count_rows q xs
  unfolding count_rows
  count_rows_congr p q [] h = refl
  count_rows_congr p q (x ∷ xs) h = ground (arith, h x, count_rows_congr p q xs h)

  pub select_nil : (p : A → Bool) (xs : List A) → select p xs ≡ [] → count_rows p xs ≡ 0
  unfolding select count_rows
  select_nil p [] h = refl
  select_nil p (x ∷ xs) h = ground (arith, select_nil p xs)

  pub select_none : (p : A → Bool) (xs : List A) → count_rows p xs ≡ 0 → select p xs ≡ []
  unfolding select count_rows
  select_none p [] h = refl
  select_none p (x ∷ xs) h = ground (arith, select_none p xs)

module _ {ℓ} {A : Type ℓ} where
  pub select_cons :
      (p : A → Bool) (xs : List A) (x : A) (r : List A) → select p xs ≡ x ∷ r → p x ≡ true
  unfolding select
  select_cons p [] x r h = cc
  select_cons p (y ∷ xs) x r h = ground (arith, select_cons p xs x r)

  pub select_count : (p : A → Bool) (xs : List A) → length (select p xs) ≡ count_rows p xs
  unfolding select count_rows
  select_count p [] = refl
  select_count p (x ∷ xs) = ground (arith, select_count p xs)

  -- A selected row is counted.
  pub selected_pos :
      (q p : A → Bool) (xs : List A) (x : A) (rest : List A)
      → select p xs ≡ x ∷ rest
      → q x ≡ true
      → 1 ≤ count_rows q xs
  unfolding select count_rows
  selected_pos q p [] x rest s e = cc
  selected_pos q p (y ∷ xs) x rest s e = ground (arith, selected_pos q p xs x rest)

  -- A selected row, where a test that it meets is met at most once, is the row that is updated.
  pub count_rows-update_row :
      (p q r : A → Bool) (f : A → A) (xs : List A) (x : A) (rest : List A)
      → select p xs ≡ x ∷ rest
      → r x ≡ true
      → count_rows r xs ≤ 1
      → count_rows q (update_rows r f xs) + indicator (q x) ≡ count_rows q xs + indicator (q (f x))
  unfolding select count_rows update_rows
  count_rows-update_row p q r f [] x rest s e u = cc
  count_rows-update_row p q r f (y ∷ xs) x rest s e u = ground (
    arith,
    update_rows_none r f xs,
    count_rows-update_row p q r f xs x rest,
    selected_pos r p xs x rest,
  )

  -- Updating twice by the same test, which the first update keeps, is one update.
  pub update_rows-update_rows :
      (p : A → Bool) (f g : A → A) (xs : List A)
      → ((x : A) → p x ≡ true → p (g x) ≡ true)
      → update_rows p f (update_rows p g xs) ≡ update_rows p (λ x. f (g x)) xs
  unfolding update_rows
  update_rows-update_rows p f g [] h = refl
  update_rows-update_rows p f g (x ∷ xs) h = ground (arith, h x, update_rows-update_rows p f g xs h)

  pub select-update_rows :
      (p : A → Bool) (g : A → A) (xs : List A)
      → ((x : A) → p x ≡ true → p (g x) ≡ true)
      → select p (update_rows p g xs) ≡ map g (select p xs)
  unfolding update_rows select
  select-update_rows p g [] h = refl
  select-update_rows p g (x ∷ xs) h = ground (arith, h x, select-update_rows p g xs h)

  -- Where one row meets the test, an update writes the image of that row.
  pub update_rows_single :
      (p : A → Bool) (f : A → A) (xs : List A) (x : A)
      → select p xs ≡ x ∷ []
      → update_rows p f xs ≡ update_rows p (λ _. f x) xs
  unfolding update_rows select
  update_rows_single p f [] x h = refl
  update_rows_single p f (y ∷ xs) x h = ground (
    arith,
    update_rows_single p f xs x,
    select_count p xs,
    update_rows_none p f xs,
    update_rows_none p (λ _. f x) xs,
  )

  -- Writing a row over itself changes nothing.
  pub update_rows_self :
      (p : A → Bool) (xs : List A) (x : A) → select p xs ≡ x ∷ [] → update_rows p (λ _. x) xs ≡ xs
  unfolding update_rows select
  update_rows_self p [] x h = refl
  update_rows_self p (y ∷ xs) x h =
      ground (arith, update_rows_self p xs x, select_count p xs, update_rows_none p (λ _. x) xs)

  -- An update that keeps a test selects the updated rows.
  pub select-update_other :
      (p q : A → Bool) (g : A → A) (xs : List A)
      → ((x : A) → p (g x) ≡ p x)
      → select p (update_rows q g xs) ≡ map (λ x. if q x then g x else x) (select p xs)
  unfolding update_rows select
  select-update_other p q g [] h = refl
  select-update_other p q g (x ∷ xs) h = ground (arith, h x, select-update_other p q g xs h)

  -- A selected row is the row selected by any test that it meets, where at most one row meets it.
  pub select_unique :
      (p q : A → Bool) (xs : List A) (x : A) (rest : List A)
      → q x ≡ true
      → count_rows q xs ≤ 1
      → select p xs ≡ x ∷ rest
      → select q xs ≡ x ∷ []
  unfolding select count_rows
  select_unique p q [] x rest h u e = cc
  select_unique p q (y ∷ xs) x rest h u e =
      ground (arith, select_none q xs, select_unique p q xs x rest h, selected_pos q p xs x rest)
