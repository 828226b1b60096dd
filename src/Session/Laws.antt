-- ===== src/Session/Laws.antt =====
-- What the results of queries say of the rows.
use music_room_bot.Prelude.{
  ◌≤◌, ◌≡◌, refl, ap, ◌⊎◌, inl, inr, Bool, true, List, [], ◌∷◌, arith, length,
}
use music_room_bot.Prelude.Rows.{select, count_rows, select_cons, select_count}
use music_room_bot.Session.{Outcome, ok, raised, Session, Exec, ◌>>=◌}

module _ {ℓ} {A : Type ℓ} (p : A → Bool) (rows : List A) where
  -- A query by a test that at most one row meets finds that row, or none.
  pub scalar_cases :
      count_rows p rows ≤ 1
      → (select p rows ≡ []) ⊎ ((x : A) × (select p rows ≡ x ∷ []) × (p x ≡ true))
  scalar_cases u = go (select p rows) refl
    where
      go :
          (l : List A)
          → select p rows ≡ l
          → (select p rows ≡ []) ⊎ ((x : A) × (select p rows ≡ x ∷ []) × (p x ≡ true))
      go [] e = inl e
      go (x ∷ []) e = inr (x, e, select_cons p rows x [] e)
      go (x ∷ y ∷ r) e = absurd (omega (arith, ap length e, select_count p rows))

-- A result set is empty, has one row, or has two at least.
pub rows_cases {ℓ} :
    {A : Type ℓ} (l : List A)
    → (l ≡ []) ⊎ (((x : A) × (l ≡ x ∷ [])) ⊎ ((x : A) × (y : A) × (r : List A) × (l ≡ x ∷ y ∷ r)))
rows_cases [] = inl refl
rows_cases (x ∷ []) = inr (inl (x, refl))
rows_cases (x ∷ y ∷ r) = inr (inr (x, y, r, refl))

-- What follows an action, from what the action gives.
abbrev pub after {ℓ κ} :
    {A : Type ℓ} {B : Type κ} → Outcome A × Session → (A → Exec B) → Outcome B × Session
after out f = let (r, s) = out in elim r [ ok a ↦ f a s | raised e ↦ (raised e, s) ]

pub bind_step {ℓ κ} :
    {A : Type ℓ} {B : Type κ} (m : Exec A) (f : A → Exec B) (s : Session)
    (out : Outcome A × Session)
    → m s ≡ out
    → (m >>= f) s ≡ after out f
bind_step m f s out e = ap (λ r. after r f) e
