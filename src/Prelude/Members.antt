-- ===== src/Prelude/Members.antt =====
-- Rows of a table as members of the list, and updates of the row that a test finds.
use Prim.Native.Nat.{◌≤◌}
use mathlib.Core.Path.{◌≡◌, refl, subst}
use mathlib.Core.Logic.{◌⊎◌, inl, inr}
use mathlib.Core.Bool.{Bool, true, false}
use mathlib.Core.List.{List, [], ◌∷◌}
use native.Mathlib.Omega.{arith}
use music_room_bot.Prelude.Tests.{if◌then◌else◌, Bool-cases}
use music_room_bot.Prelude.Rows.{
  select, count_rows, update_rows, delete_rows, select_none, update_rows_none, select_count,
}

module _ {ℓ} {A : Type ℓ} where
  pub data Member (x : A) : List A → Type ℓ where
    is_head : {y : A} {ys : List A} → y ≡ x → Member x (y ∷ ys)
    in_tail : {y : A} {ys : List A} → Member x ys → Member x (y ∷ ys)

  not-Member-nil : {x : A} → Member x [] → ⊥
  not-Member-nil m = elim m [ ]

  pub cons_cases : {x y : A} {ys : List A} → Member x (y ∷ ys) → (y ≡ x) ⊎ Member x ys
  cons_cases (is_head e) = inl e
  cons_cases (in_tail m) = inr m

  pub Member-select :
      (p : A → Bool) (xs : List A) (x : A) → Member x (select p xs) → Member x xs × (p x ≡ true)
  unfolding select
  Member-select p [] x m = absurd (not-Member-nil m)
  Member-select p (y ∷ xs) x m = elim (Bool-cases (p y)) [
    | inl kept ↦
        elim (cons_cases
          (subst (λ b. Member x (if b then y ∷ select p xs else select p xs)) kept m)) [
            | inl e ↦ (is_head e, ground (arith, e, kept))
            | inr t ↦ let (inside, holds) = Member-select p xs x t in (in_tail inside, holds)
          ]
    | inr dropped ↦
        let (inside, holds) =
          Member-select p xs x
            (subst (λ b. Member x (if b then y ∷ select p xs else select p xs)) dropped m) in
        (in_tail inside, holds)
  ]

  pub Member-pos :
      (p : A → Bool) (xs : List A) (x : A) → Member x xs → p x ≡ true → 1 ≤ count_rows p xs
  unfolding count_rows
  Member-pos p [] x m h = absurd (not-Member-nil m)
  Member-pos p (y ∷ xs) x (is_head e) h = ground (arith, e, h)
  Member-pos p (y ∷ xs) x (in_tail m) h = ground (arith, Member-pos p xs x m h)

  -- A member is the row that a test finds, where at most one row meets it.
  pub Member-unique :
      (p : A → Bool) (xs : List A) (x : A)
      → Member x xs
      → p x ≡ true
      → count_rows p xs ≤ 1
      → select p xs ≡ x ∷ []
  unfolding select count_rows
  Member-unique p [] x m h u = absurd (not-Member-nil m)
  Member-unique p (y ∷ xs) x (is_head e) h u = ground (arith, e, h, select_none p xs)
  Member-unique p (y ∷ xs) x (in_tail m) h u =
      ground (arith, Member-pos p xs x m h, Member-unique p xs x m h)

  -- Two tests that find the same row alone update it alike.
  pub update_rows-found :
      (p q : A → Bool) (f : A → A) (xs : List A) (x : A)
      → select p xs ≡ x ∷ []
      → select q xs ≡ x ∷ []
      → p x ≡ true
      → q x ≡ true
      → update_rows p f xs ≡ update_rows q f xs
  unfolding select update_rows
  update_rows-found p q f [] x a b h k = refl
  update_rows-found p q f (y ∷ xs) x a b h k = ground (
    arith,
    update_rows-found p q f xs x,
    update_rows_none p f xs,
    update_rows_none q f xs,
    select_count p xs,
    select_count q xs,
  )

  pub update_rows_congr :
      (p q : A → Bool) (f : A → A) (xs : List A)
      → ((x : A) → p x ≡ q x)
      → update_rows p f xs ≡ update_rows q f xs
  unfolding update_rows
  update_rows_congr p q f [] h = refl
  update_rows_congr p q f (x ∷ xs) h = ground (arith, h x, update_rows_congr p q f xs h)

  -- An update of rows that the test does not meet, before and after.
  pub count_rows-update_apart :
      (p q : A → Bool) (f : A → A) (xs : List A)
      → ((x : A) → q x ≡ true → p (f x) ≡ p x)
      → count_rows p (update_rows q f xs) ≡ count_rows p xs
  unfolding count_rows update_rows
  count_rows-update_apart p q f [] h = refl
  count_rows-update_apart p q f (x ∷ xs) h = ground (arith, h x, count_rows-update_apart p q f xs h)

  pub count_rows-Member :
      (p : A → Bool) (xs : List A) → ((x : A) → Member x xs → p x ≡ false) → count_rows p xs ≡ 0
  unfolding count_rows
  count_rows-Member p [] h = refl
  count_rows-Member p (x ∷ xs) h =
      ground (arith, h x (is_head refl), count_rows-Member p xs (λ y m. h y (in_tail m)))

  pub select-Member :
      (p : A → Bool) (xs : List A) (x : A) → Member x xs → p x ≡ true → Member x (select p xs)
  unfolding select
  select-Member p [] x m h = absurd (not-Member-nil m)
  select-Member p (y ∷ xs) x (is_head e) h =
      let kept : p y ≡ true = ground (arith, e, h) in rw kept (is_head e)
  select-Member p (y ∷ xs) x (in_tail m) h = elim (Bool-cases (p y)) [
    | inl kept ↦ rw kept (in_tail (select-Member p xs x m h))
    | inr dropped ↦ rw dropped (select-Member p xs x m h)
  ]

  pub Member-delete_rows :
      (p : A → Bool) (xs : List A) (x : A)
      → Member x (delete_rows p xs)
      → Member x xs × (p x ≡ false)
  unfolding delete_rows
  Member-delete_rows p [] x m = absurd (not-Member-nil m)
  Member-delete_rows p (y ∷ xs) x m = elim (Bool-cases (p y)) [
    | inl gone ↦
        let (inside, holds) = Member-delete_rows p xs x (rw gone at m) in (in_tail inside, holds)
    | inr kept ↦ elim (cons_cases (rw kept at m)) [
      | inl e ↦ (is_head e, ground (arith, e, kept))
      | inr t ↦ let (inside, holds) = Member-delete_rows p xs x t in (in_tail inside, holds)
    ]
  ]
