-- ===== src/Swaps/Keeps.antt =====
-- `accept_swap_offer` of app/services/swap_service.py: bookings, the counts of a week, other offers.
use music_room_bot.Prelude.{
  ℕ, ◌≤◌, ◌≡◌, refl, inl, inr, Bool, true, ◌&&◌, ◌||◌, List, [], ◌∷◌, arith, ltb, leb, ◌==◌,
  if◌then◌else◌,
}
use music_room_bot.Db.{
  Booking, accepted, cancelled, is_pending, SwapOffer, Db, has_booking_id, in_user_week,
  has_swap_offer_id,
}
use music_room_bot.Db.Invariant.{IsBookingTable, IsConsistent, update_rows-IsBookingTable}
use music_room_bot.Limits.{count_user_bookings_in_week}
use music_room_bot.Prelude.Rows.{
  select, count_rows, update_rows, count_rows-update_rows, select_cons, count_rows-update_row,
  select-update_other, select_unique,
}
use music_room_bot.Session.{Env, fresh_session}
use music_room_bot.Swaps.{
  set_swap_status, is_given, is_wanted, swap_owner, gives, wants, is_superseded, swapped_db,
  accept_swap_offer,
}
use music_room_bot.Swaps.Laws.{swap_done, accept_swap_offer_lem}

-- A pending offer that gives or wants one of the two slots of `o`.
abbrev pub names_slot_of : SwapOffer → SwapOffer → Bool
names_slot_of o x =
    is_pending x.status
    && (gives o.give_date o.give_hour x
        || (wants o.give_date o.give_hour x
            || (gives o.want_date o.want_hour x || wants o.want_date o.want_hour x)))

module _ (env : Env) (offer_id receiver_user_id : ℕ) (db : Db) (v : IsConsistent db) where
  abbrev after : Db
  after = (accept_swap_offer env offer_id receiver_user_id (fresh_session db)).1.committed

  -- On consistent tables, an acceptance of a swap, whatever its outcome, keeps the keys and the
  -- slots of bookings unique.
  pub accept_swap_offer-IsBookingTable : IsBookingTable after.next_booking_id after.bookings
  unfolding swapped_db
  accept_swap_offer-IsBookingTable =
      elim (accept_swap_offer_lem env offer_id receiver_user_id db v) [
        | inl (o, g, r, a) ↦ rw a.committed (
            update_rows-IsBookingTable (has_booking_id r.id) (swap_owner g.user_id)
              db.next_booking_id
              (update_rows (has_booking_id g.id) (swap_owner r.user_id) db.bookings)
              (λ x. (refl, refl, refl))
              (update_rows-IsBookingTable (has_booking_id g.id) (swap_owner r.user_id)
                db.next_booking_id db.bookings (λ x. (refl, refl, refl)) v.bookings_ok))
        | inr k ↦ rw (k.bookings, k.next_booking_id) v.bookings_ok
      ]

  -- The two bookings, found by their keys, before and after the first write.
  module _ (o : SwapOffer) (g r : Booking) (eg : select (is_given o) db.bookings ≡ g ∷ [])
      (er : select (is_wanted o) db.bookings ≡ r ∷ []) where
    abbrev half_swapped : List Booking
    half_swapped = update_rows (has_booking_id g.id) (swap_owner r.user_id) db.bookings

    given_by_id : select (has_booking_id g.id) db.bookings ≡ g ∷ []
    given_by_id =
        select_unique (is_given o) (has_booking_id g.id) db.bookings g [] (ground arith)
          (v.bookings_ok.keyed.key g.id) eg

    wanted_by_id : select (has_booking_id r.id) db.bookings ≡ r ∷ []
    wanted_by_id =
        select_unique (is_wanted o) (has_booking_id r.id) db.bookings r [] (ground arith)
          (v.bookings_ok.keyed.key r.id) er

    same_row : g.id ≡ r.id → g.user_id ≡ r.user_id
    same_row e = ground (arith, given_by_id, wanted_by_id)

    half_wanted :
        select (has_booking_id r.id) half_swapped
        ≡ (if r.id == g.id then swap_owner r.user_id r else r) ∷ []
    half_wanted = ground (
      arith,
      wanted_by_id,
      select-update_other (has_booking_id r.id) (has_booking_id g.id) (swap_owner r.user_id)
          db.bookings (λ x. refl),
    )

    half_key : count_rows (has_booking_id r.id) half_swapped ≤ 1
    half_key = omega (
      arith,
      v.bookings_ok.keyed.key r.id,
      count_rows-update_rows (has_booking_id r.id) (has_booking_id g.id) (swap_owner r.user_id)
          db.bookings (λ x. refl),
    )

    exchange_count :
        (user_id start end_week : ℕ)
        → (leb start g.date && ltb g.date end_week) ≡ (leb start r.date && ltb r.date end_week)
        → count_user_bookings_in_week user_id start end_week (swapped_db o g r db)
          ≡ count_user_bookings_in_week user_id start end_week db
    unfolding swapped_db count_user_bookings_in_week
    exchange_count user_id start end_week same = ground (
      arith,
      same_row,
      count_rows-update_row (has_booking_id g.id) (in_user_week user_id start end_week)
          (has_booking_id g.id) (swap_owner r.user_id) db.bookings g [] given_by_id (ground arith)
          (v.bookings_ok.keyed.key g.id),
      count_rows-update_row (has_booking_id r.id) (in_user_week user_id start end_week)
          (has_booking_id r.id) (swap_owner g.user_id) half_swapped
          (if r.id == g.id then swap_owner r.user_id r else r) [] half_wanted (ground arith)
          half_key,
    )

  -- On consistent tables, after an accepted swap no pending offer names one of the two slots.
  no_rival :
      (o : SwapOffer) (offers : List SwapOffer)
      → count_rows (names_slot_of o) (
          update_rows
            (is_superseded o)
            (set_swap_status cancelled)
            (update_rows (has_swap_offer_id o.id) (set_swap_status accepted) offers))
        ≡ 0
  unfolding count_rows update_rows
  no_rival o [] = refl
  no_rival o (x ∷ xs) = ground (arith, no_rival o xs)

  -- On consistent tables, an acceptance of an offer whose two slots lie both inside or both outside of a range of days
  -- leaves every user with as many bookings in the range as before.
  pub accept_swap_offer-count_user_bookings_in_week :
      (o : SwapOffer) (user_id start end_week : ℕ)
      → select (has_swap_offer_id offer_id) db.swap_offers ≡ o ∷ []
      → (leb start o.give_date && ltb o.give_date end_week)
        ≡ (leb start o.want_date && ltb o.want_date end_week)
      → count_user_bookings_in_week user_id start end_week after
        ≡ count_user_bookings_in_week user_id start end_week db
  unfolding count_user_bookings_in_week
  accept_swap_offer-count_user_bookings_in_week o user_id start end_week eo same =
      elim (accept_swap_offer_lem env offer_id receiver_user_id db v) [
        | inl (p, g, r, a) ↦ ground (
          arith,
          a.committed,
          a.offer,
          select_cons (is_given p) db.bookings g [] a.given,
          select_cons (is_wanted p) db.bookings r [] a.wanted,
          exchange_count p g r a.given a.wanted user_id start end_week,
        )
        | inr k ↦ rw k.bookings refl
      ]

  -- After an accepted swap no pending offer gives or wants one of its two slots.
  pub accept_swap_offer-settles :
      swap_done (accept_swap_offer env offer_id receiver_user_id (fresh_session db)).0 ≡ true
      → (o : SwapOffer) → select (has_swap_offer_id offer_id) db.swap_offers ≡ o ∷ []
      → count_rows (names_slot_of o) after.swap_offers ≡ 0
  unfolding swapped_db
  accept_swap_offer-settles done o eo =
      elim (accept_swap_offer_lem env offer_id receiver_user_id db v) [
        | inl (p, g, r, a) ↦ ground (arith, a.committed, a.offer, no_rival o db.swap_offers)
        | inr k ↦ ground (arith, k.done)
      ]
