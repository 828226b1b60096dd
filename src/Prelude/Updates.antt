-- ===== src/Prelude/Updates.antt =====
-- Updates that follow one another, and what an update leaves of a test.
use Prim.Native.Nat.{◌+◌, ◌≤◌}
use mathlib.Core.Path.{◌≡◌, refl, ◌∙◌}
use mathlib.Core.Bool.{Bool, true, false, not, ◌&&◌, ◌||◌}
use mathlib.Core.List.{List, [], ◌∷◌}
use native.Mathlib.Omega.{arith}
use music_room_bot.Prelude.Lists.{length}
use music_room_bot.Prelude.Rows.{
  select, select_none, select_cons, count_rows, update_rows, selected_pos, select_count,
}

module _ {ℓ} {A : Type ℓ} where
  -- Two updates that write the same are one, by either test.
  pub update_rows-or :
      (p q : A → Bool) (f : A → A) (xs : List A)
      → ((x : A) → p (f x) ≡ p x)
      → ((x : A) → f (f x) ≡ f x)
      → update_rows p f (update_rows q f xs) ≡ update_rows (λ x. q x || p x) f xs
  unfolding update_rows
  update_rows-or p q f [] h k = refl
  update_rows-or p q f (x ∷ xs) h k = ground (arith, h x, k x, update_rows-or p q f xs h k)

  pub update_rows-nowhere : (f : A → A) (xs : List A) → update_rows (λ x. false) f xs ≡ xs
  unfolding update_rows
  update_rows-nowhere f [] = refl
  update_rows-nowhere f (x ∷ xs) = ground (arith, update_rows-nowhere f xs)

  -- What an update leaves of a test that it takes its rows out of.
  pub count_rows-update_rows_out :
      (p q : A → Bool) (f : A → A) (xs : List A)
      → ((x : A) → p (f x) ≡ false)
      → count_rows p (update_rows q f xs) ≡ count_rows (λ x. p x && not (q x)) xs
  unfolding count_rows update_rows
  count_rows-update_rows_out p q f [] h = refl
  count_rows-update_rows_out p q f (x ∷ xs) h =
      ground (arith, h x, count_rows-update_rows_out p q f xs h)

  count_rows_split :
      (p q : A → Bool) (xs : List A)
      → count_rows p xs ≡ count_rows (λ x. p x && q x) xs + count_rows (λ x. p x && not (q x)) xs
  unfolding count_rows
  count_rows_split p q [] = refl
  count_rows_split p q (x ∷ xs) = ground (arith, count_rows_split p q xs)

  -- The one row that meets a test is the only one.
  pub only_row :
      (p q : A → Bool) (xs : List A) (x : A)
      → select p xs ≡ x ∷ []
      → p x ≡ true
      → q x ≡ true
      → count_rows (λ y. p y && not (q y)) xs ≡ 0
  only_row p q xs x e h k = ground (
    arith,
    count_rows_split p q xs,
    selected_pos (λ y. p y && q y) p xs x [] e,
    select_count p xs,
    e,
    h,
    k,
  )

  pub count_rows-length : (p : A → Bool) (xs : List A) → count_rows p xs ≤ length xs
  unfolding count_rows
  count_rows-length p [] = omega arith
  count_rows-length p (x ∷ xs) = ground (arith, count_rows-length p xs)

  pub count_rows_none : (p : A → Bool) (xs : List A) → ((x : A) → p x ≡ false) → count_rows p xs ≡ 0
  unfolding count_rows
  count_rows_none p [] h = refl
  count_rows_none p (x ∷ xs) h = ground (arith, h x, count_rows_none p xs h)

  -- The one row that meets a test is among the rows that an update takes out of it.
  pub select-update_rows_out :
      (p q : A → Bool) (f : A → A) (xs : List A) (x : A)
      → select p xs ≡ x ∷ []
      → q x ≡ true
      → ((y : A) → p (f y) ≡ false)
      → select p (update_rows q f xs) ≡ []
  select-update_rows_out p q f xs x e h k =
      select_none p (update_rows q f xs)
        (count_rows-update_rows_out p q f xs k ∙ only_row p q xs x e (select_cons p xs x [] e) h)
