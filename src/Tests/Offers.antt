-- ===== src/Tests/Offers.antt =====
-- The theorems on gifts and swaps at the sample club.
use music_room_bot.Prelude.{ℕ, ◌≤◌, ◌≡◌, refl, true, some, [], ◌∷◌, arith, Text}
use music_room_bot.Bookings.Create.Limits.{IsWithinLimit}
use music_room_bot.Bookings.Gifts.{
  GiftOfferDecisionStatus, is_pending_offer_of, gift_booking_to_username,
}
use music_room_bot.Bookings.Gifts.Accept.{
  accept_for, accept_booking, accept_gift_offer, decline_gift_offer,
}
use music_room_bot.Bookings.Gifts.Accept.Keeps.{
  accept_gift_offer-IsWithinLimit, accept_gift_offer_once,
}
use music_room_bot.Bookings.Gifts.Accept.Laws.{status_of, Ends, accept_gift_offer_lem}
use music_room_bot.Bookings.Gifts.Offer.{
  OfferEnds, gift_booking_to_username_lem, gift_booking_to_username-pending_unique,
}
use music_room_bot.Db.{has_swap_offer_id}
use music_room_bot.Limits.{
  weekly_limit_value, lock_user_week_booking_limit, count_user_bookings_in_week,
}
use music_room_bot.Prelude.Rows.{select, count_rows, update_rows}
use music_room_bot.Session.{fresh_session, slot_start}
use music_room_bot.Swaps.{swapped_db, complete_swap, swap_bookings, accept_swap_offer}
use music_room_bot.Swaps.Create.{create_swap_offer}
use music_room_bot.Swaps.Create.Laws.{CreateEnds, create_swap_offer_lem}
use music_room_bot.Swaps.Keeps.{
  names_slot_of, accept_swap_offer-count_user_bookings_in_week, accept_swap_offer-settles,
}
use music_room_bot.Swaps.Laws.{swap_done, SwapEnds, accept_swap_offer_lem}
use music_room_bot.Tests.{env, swap, db, db-IsConsistent, limit_is_two, db-IsWithinLimit}
use music_room_bot.Time.{start_and_end_of_week}

accept_gift_offer_lem_example : Ends env 1 2 db (accept_gift_offer env 1 2 (fresh_session db))
accept_gift_offer_lem_example = accept_gift_offer_lem env 1 2 db db-IsConsistent

accept_gift_offer-IsWithinLimit_example :
    IsWithinLimit 2 (accept_gift_offer env 1 2 (fresh_session db)).1.committed
accept_gift_offer-IsWithinLimit_example =
    accept_gift_offer-IsWithinLimit env 1 2 db db-IsConsistent 2 limit_is_two db-IsWithinLimit

accepted_once :
    status_of (accept_gift_offer env 1 2 (fresh_session db)).0
    ≡ some GiftOfferDecisionStatus.success
unfolding accept_gift_offer accept_booking accept_for select slot_start start_and_end_of_week
    count_user_bookings_in_week count_rows weekly_limit_value lock_user_week_booking_limit
accepted_once = refl

accept_gift_offer_once_example :
    let t = (accept_gift_offer env 1 2 (fresh_session db)).1.committed in
    (status_of (accept_gift_offer env 1 2 (fresh_session t)).0
      ≡ some GiftOfferDecisionStatus.offer_not_found)
    × (status_of (decline_gift_offer env 1 2 (fresh_session t)).0
        ≡ some GiftOfferDecisionStatus.offer_not_found)
accept_gift_offer_once_example =
    accept_gift_offer_once env 1 2 db db-IsConsistent env 2 accepted_once

-- "@Bo"
abbrev at_bo : Text
at_bo = 64 ∷ 66 ∷ 111 ∷ []

gift_booking_to_username_lem_example :
    OfferEnds env 1 1 at_bo db (gift_booking_to_username env 1 1 at_bo (fresh_session db))
gift_booking_to_username_lem_example = gift_booking_to_username_lem env 1 1 at_bo db db-IsConsistent

one_offer_each : (i : ℕ) → count_rows (is_pending_offer_of i) db.gift_offers ≤ 1
unfolding count_rows
one_offer_each i = ground arith

gift_booking_to_username-pending_unique_example :
    count_rows
      (is_pending_offer_of 1)
      (gift_booking_to_username env 1 1 at_bo (fresh_session db)).1.committed.gift_offers
    ≤ 1
gift_booking_to_username-pending_unique_example =
    gift_booking_to_username-pending_unique env 1 1 at_bo db db-IsConsistent one_offer_each 1

create_swap_offer_lem_example :
    CreateEnds env 2 1 1 db (create_swap_offer env 2 1 1 (fresh_session db))
create_swap_offer_lem_example = create_swap_offer_lem env 2 1 1 db db-IsConsistent

accept_swap_offer_lem_example : SwapEnds env 1 2 db (accept_swap_offer env 1 2 (fresh_session db))
accept_swap_offer_lem_example = accept_swap_offer_lem env 1 2 db db-IsConsistent

swap_one : select (has_swap_offer_id 1) db.swap_offers ≡ swap ∷ []
unfolding select
swap_one = refl

accept_swap_offer-count_user_bookings_in_week_example :
    count_user_bookings_in_week 1 701 708 (accept_swap_offer env 1 2 (fresh_session db)).1.committed
    ≡ count_user_bookings_in_week 1 701 708 db
accept_swap_offer-count_user_bookings_in_week_example =
    accept_swap_offer-count_user_bookings_in_week env 1 2 db db-IsConsistent swap 1 701 708 swap_one
      refl

swap_is_done : swap_done (accept_swap_offer env 1 2 (fresh_session db)).0 ≡ true
unfolding accept_swap_offer swap_bookings complete_swap swapped_db select update_rows slot_start
swap_is_done = refl

accept_swap_offer-settles_example :
    count_rows
      (names_slot_of swap)
      (accept_swap_offer env 1 2 (fresh_session db)).1.committed.swap_offers
    ≡ 0
accept_swap_offer-settles_example =
    accept_swap_offer-settles env 1 2 db db-IsConsistent swap_is_done swap swap_one
