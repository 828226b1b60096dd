-- ===== src/Attendance/Chains.antt =====
-- The loop of `get_chain_booking_ids` and the query of `is_first_in_chain` of
-- app/services/geo_service.py.
-- The keys of the bookings of a user on a day, hour by hour from `h` on, up to an hour without one.
use music_room_bot.Prelude.{
  ℕ, zero, suc, ◌+◌, ◌≤◌, ◌<◌, ◌≡◌, refl, ap, inl, inr, Bool, false, ◌&&◌, List, [], ◌∷◌, arith,
  leb, ◌==◌, length,
}
use music_room_bot.Attendance.{of_user_at, is_first_in_chain, chain_ids_from, get_chain_booking_ids}
use music_room_bot.Db.{Booking, Db, has_booking_id, at_slot}
use music_room_bot.Prelude.Rows.{
  select, count_rows, count_rows_unique, count_rows_congr, select_nil, select_count, selected_pos,
}
use music_room_bot.Prelude.Updates.{count_rows-length, count_rows_none}
use music_room_bot.Reminders.{of_user_on}
use music_room_bot.Session.{Outcome, ok, Session, Exec, pure, ◌>>=◌}
use music_room_bot.Session.Laws.{scalar_cases}

abbrev pub IsChain : ℕ → ℕ → Db → ℕ → List ℕ → Type 0
IsChain user_id d db h [] = count_rows (of_user_at user_id d h) db.bookings ≡ 0
IsChain user_id d db h (i ∷ ids) =
    ((b : Booking) × (select (of_user_at user_id d h) db.bookings ≡ b ∷ []) × (b.id ≡ i))
    × IsChain user_id d db (h + 1) ids

abbrev from_hour : ℕ → ℕ → ℕ → Booking → Bool
from_hour user_id d h b = of_user_on user_id d b && leb h b.hour

count_from_hour :
    (user_id d h : ℕ) (bs : List Booking)
    → count_rows (from_hour user_id d h) bs
      ≡ count_rows (of_user_at user_id d h) bs + count_rows (from_hour user_id d (h + 1)) bs
unfolding count_rows
count_from_hour user_id d h [] = refl
count_from_hour user_id d h (b ∷ bs) = ground (arith, count_from_hour user_id d h bs)

module _ (s : Session) (slots : (d h : ℕ) → count_rows (at_slot d h) s.current.bookings ≤ 1)
    (ids_start : count_rows (has_booking_id 0) s.current.bookings ≡ 0) where
  pub one_at : (user_id d h : ℕ) → count_rows (of_user_at user_id d h) s.current.bookings ≤ 1
  one_at user_id d h =
      count_rows_unique (of_user_at user_id d h) (at_slot d h) s.current.bookings
        (λ x e. ground arith) (slots d h)

  -- What the loop does with the rest.
  abbrev prepended : ℕ → Outcome (List ℕ) × Session → Outcome (List ℕ) × Session
  prepended i out = let rest : Exec (List ℕ) = λ _. out in (rest >>= λ ids. pure (i ∷ ids)) s

  -- Fuel above the number of the user's bookings from the hour on ends the loop.
  pub chain_ids_from_lem :
      (fuel user_id d h : ℕ)
      → count_rows (from_hour user_id d h) s.current.bookings < fuel
      → (ids : List ℕ) × (chain_ids_from fuel user_id d h s ≡ (ok ids, s))
        × IsChain user_id d s.current h ids
  unfolding chain_ids_from
  chain_ids_from_lem zero user_id d h enough = absurd (omega (arith, enough))
  chain_ids_from_lem (suc fuel) user_id d h enough =
      elim (scalar_cases (of_user_at user_id d h) s.current.bookings (one_at user_id d h)) [
        | inl none_there ↦ (
          [],
          rw none_there refl,
          select_nil (of_user_at user_id d h) s.current.bookings none_there,
        )
        | inr (b, found, there) ↦
            let here =
              selected_pos (of_user_at user_id d h) (of_user_at user_id d h) s.current.bookings b []
                found there in
            let (ids, e, chain) =
              chain_ids_from_lem fuel user_id d (h + 1)
                (omega (arith, enough, here, count_from_hour user_id d h s.current.bookings)) in
            let positive : (b.id == 0) ≡ false = ground (
              arith,
              selected_pos (has_booking_id 0) (of_user_at user_id d h) s.current.bookings b []
                  found,
              ids_start,
            ) in
            (b.id ∷ ids, rw (found, positive) (ap (prepended b.id) e), ((b, found, refl), chain))
      ]

  -- With slots unique and keys from 1 on, the loop over the hours ends and returns the keys of the
  -- user's bookings of the day hour by hour, from the given hour up to the first without one.
  pub get_chain_booking_ids_lem :
      (user_id d h : ℕ)
      → (ids : List ℕ) × (get_chain_booking_ids user_id d h s ≡ (ok ids, s))
        × IsChain user_id d s.current h ids
  unfolding get_chain_booking_ids
  get_chain_booking_ids_lem user_id d h =
      chain_ids_from_lem (length s.current.bookings + 1) user_id d h
        (omega (arith, count_rows-length (from_hour user_id d h) s.current.bookings))

  pub is_first_in_chain_lem :
      (user_id d h : ℕ)
      → is_first_in_chain user_id d h s ≡ (
        ok (count_rows (λ b. of_user_on user_id d b && b.hour + 1 == h) s.current.bookings == 0),
        s,
      )
  unfolding is_first_in_chain
  is_first_in_chain_lem user_id d zero = ground (
    arith,
    count_rows_none (λ b. of_user_on user_id d b && b.hour + 1 == 0) s.current.bookings
        (λ x. ground arith),
  )
  is_first_in_chain_lem user_id d (suc prev_hour) =
      let p = of_user_at user_id d prev_hour in
      let same =
        count_rows_congr (λ b. of_user_on user_id d b && b.hour + 1 == suc prev_hour) p
          s.current.bookings (λ x. ground arith) in
      elim (scalar_cases p s.current.bookings (one_at user_id d prev_hour)) [
        | inl none_there ↦ rw (none_there, same, select_nil p s.current.bookings none_there) refl
        | inr (b, found, there) ↦
            let one : count_rows p s.current.bookings ≡ 1 =
              ground (arith, select_count p s.current.bookings, ap length found) in
            rw (found, same, one) refl
      ]
