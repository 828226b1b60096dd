-- ===== src/Reminders/Hours.antt =====
-- The sorted hours of a user's bookings of a day, in app/services/reminder_service.py, and the
-- bookings themselves.
use music_room_bot.Prelude.{
  ℕ, ◌+◌, ◌≤◌, ◌<◌, ◌≡◌, refl, ◌∙◌, inl, inr, Bool, true, false, not, ◌&&◌, ◌||◌, some, List, [],
  ◌∷◌, arith, leb, ◌==◌, Bool-cases,
}
use music_room_bot.Db.{User, Booking, Db, at_slot}
use music_room_bot.Prelude.Rows.{select, count_rows, count_rows_unique}
use music_room_bot.Reminders.{
  build_chain_start_hours, contains, chain_with, insert_hour, sort_hours, hour_column, of_user_on,
  hours_or, chain_of,
}
use music_room_bot.Reminders.Chains.{Ascending, has_previous}
use music_room_bot.Reminders.Firsts.{build_chain_start_hours_lem}

abbrev Distinct : List ℕ → Type 0
Distinct [] = Unit
Distinct (x ∷ xs) = (contains x xs ≡ false) × Distinct xs

abbrev IsAscending : List ℕ → Type 0
IsAscending [] = Unit
IsAscending (x ∷ xs) = Ascending x xs

contains-insert_hour :
    (h x : ℕ) (l : List ℕ) → contains h (insert_hour x l) ≡ (x == h || contains h l)
contains-insert_hour h x [] = refl
contains-insert_hour h x (y ∷ ys) = ground (arith, contains-insert_hour h x ys)

has_previous-insert_hour :
    (h x : ℕ) (l : List ℕ) → has_previous h (insert_hour x l) ≡ (x + 1 == h || has_previous h l)
has_previous-insert_hour h x [] = refl
has_previous-insert_hour h x (y ∷ ys) = ground (arith, has_previous-insert_hour h x ys)

contains-sort_hours : (h : ℕ) (l : List ℕ) → contains h (sort_hours l) ≡ contains h l
unfolding sort_hours
contains-sort_hours h [] = refl
contains-sort_hours h (x ∷ xs) =
    ground (arith, contains-insert_hour h x (sort_hours xs), contains-sort_hours h xs)

has_previous-sort_hours : (h : ℕ) (l : List ℕ) → has_previous h (sort_hours l) ≡ has_previous h l
unfolding sort_hours
has_previous-sort_hours h [] = refl
has_previous-sort_hours h (x ∷ xs) =
    ground (arith, has_previous-insert_hour h x (sort_hours xs), has_previous-sort_hours h xs)

insert_hour-Ascending :
    (b x : ℕ) (l : List ℕ)
    → b < x
    → Ascending b l
    → contains x l ≡ false
    → Ascending b (insert_hour x l)
insert_hour-Ascending b x [] p a c = (p, tt)
insert_hour-Ascending b x (y ∷ ys) p a c = elim (Bool-cases (leb x y)) [
  | inl first ↦ rw first (p, (ground (arith, first, c), a.1))
  | inr later ↦
      rw later (a.0, insert_hour-Ascending y x ys (ground (arith, later)) a.1 (ground (arith, c)))
]

insert_hour-IsAscending :
    (x : ℕ) (l : List ℕ) → IsAscending l → contains x l ≡ false → IsAscending (insert_hour x l)
insert_hour-IsAscending x [] a c = tt
insert_hour-IsAscending x (y ∷ ys) a c = elim (Bool-cases (leb x y)) [
  | inl first ↦ rw first (ground (arith, first, c), a)
  | inr later ↦
      rw later (insert_hour-Ascending y x ys (ground (arith, later)) a (ground (arith, c)))
]

sort_hours-IsAscending : (l : List ℕ) → Distinct l → IsAscending (sort_hours l)
unfolding sort_hours
sort_hours-IsAscending [] d = tt
sort_hours-IsAscending (x ∷ xs) d =
    insert_hour-IsAscending x (sort_hours xs) (sort_hours-IsAscending xs d.1)
      (ground (arith, contains-sort_hours x xs, d.0))

module _ (p : Booking → Bool) where
  contains-hour_column :
      (h : ℕ) (bs : List Booking)
      → contains h (hour_column (select p bs)) ≡ not (count_rows (λ b. p b && b.hour == h) bs == 0)
  unfolding select count_rows
  contains-hour_column h [] = refl
  contains-hour_column h (b ∷ bs) = ground (arith, contains-hour_column h bs)

  has_previous-hour_column :
      (h : ℕ) (bs : List Booking)
      → has_previous h (hour_column (select p bs))
        ≡ not (count_rows (λ b. p b && b.hour + 1 == h) bs == 0)
  unfolding select count_rows
  has_previous-hour_column h [] = refl
  has_previous-hour_column h (b ∷ bs) = ground (arith, has_previous-hour_column h bs)

  Distinct-hour_column :
      (bs : List Booking)
      → ((h : ℕ) → count_rows (λ b. p b && b.hour == h) bs ≤ 1)
      → Distinct (hour_column (select p bs))
  unfolding select count_rows
  Distinct-hour_column [] u = tt
  Distinct-hour_column (b ∷ bs) u = elim (Bool-cases (p b)) [
    | inl mine ↦ rw mine (
      ground (arith, contains-hour_column b.hour bs, u b.hour, mine),
      Distinct-hour_column bs (λ h. ground (arith, u h, mine)),
    )
    | inr other ↦ rw other (Distinct-hour_column bs (λ h. ground (arith, u h, other)))
  ]

-- A chain among sorted hours.
sorted_chain :
    (h : ℕ) (l : List ℕ)
    → IsAscending l
    → contains h l ≡ true
    → (start : ℕ) × (v : List ℕ) × (chain_with h (build_chain_start_hours l) ≡ some (start, v))
      × ((start == h) ≡ not (has_previous h l))
sorted_chain h [] a c = absurd (ground (arith, c))
sorted_chain h (x ∷ xs) a c = build_chain_start_hours_lem h x xs a c

hours_or-sort_hours : (h : ℕ) (l : List ℕ) → contains h l ≡ true → hours_or h l ≡ sort_hours l
hours_or-sort_hours h [] c = absurd (ground (arith, c))
hours_or-sort_hours h (x ∷ xs) c = refl

-- With slots unique, a booking of the user's is the first of its chain exactly if the user has no
-- booking in the hour before.
pub chain_of_lem :
    (b : Booking) (u : User) (db : Db)
    → ((d h : ℕ) → count_rows (at_slot d h) db.bookings ≤ 1)
    → 1 ≤ count_rows (λ c. of_user_on u.id b.date c && c.hour == b.hour) db.bookings
    → ((chain_of b u db).0 == b.hour)
      ≡ (count_rows (λ c. of_user_on u.id b.date c && c.hour + 1 == b.hour) db.bookings == 0)
unfolding chain_of
chain_of_lem b u db slots here =
    let p = of_user_on u.id b.date in
    let column = hour_column (select p db.bookings) in
    let inside : contains b.hour column ≡ true =
      ground (arith, contains-hour_column p b.hour db.bookings, here) in
    let one_each : (h : ℕ) → count_rows (λ c. p c && c.hour == h) db.bookings ≤ 1 = λ h.
      count_rows_unique _ (at_slot b.date h) db.bookings (λ x e. ground arith) (slots b.date h) in
    let (start, v, found, same) =
      sorted_chain b.hour (sort_hours column)
        (sort_hours-IsAscending column (Distinct-hour_column p db.bookings one_each))
        (contains-sort_hours b.hour column ∙ inside) in
    rw (hours_or-sort_hours b.hour column inside, found)
      (ground (
        arith,
        same,
        has_previous-sort_hours b.hour column,
        has_previous-hour_column p b.hour db.bookings,
      ))
