-- ===== src/Bookings/Gifts/Accept.antt =====
-- `accept_gift_offer` and `decline_gift_offer` of app/services/booking_service.py.
pub mod Laws
pub mod Keeps
use music_room_bot.Prelude.{ℕ, Bool, false, not, ◌&&◌, Option, none, some, leb, ◌==◌, reaches}
use music_room_bot.Bookings.Gifts.{
  GiftOfferDecisionStatus, GiftOfferDecisionResult, is_pending_gift, update_gift_offers,
  update_bookings,
}
use music_room_bot.Db.{
  User, Booking, OfferStatus, accepted, declined, cancelled, expired, GiftOffer, Db, has_user_id,
  has_booking_id, has_gift_offer_id,
}
use music_room_bot.Limits.{
  weekly_limit_value, lock_user_week_booking_limit, count_user_bookings_in_week,
}
use music_room_bot.Prelude.Rows.{select}
use music_room_bot.Session.{
  Env, Exec, pure, lift, branch, query, scalar_one_or_none, modify, commit, slot_start, ◌>>=◌, ◌>>◌,
}
use music_room_bot.Time.{start_and_end_of_week}

-- `_reset_booking_attendance_for_gift`
unfoldable pub reset_booking_attendance_for_gift : Env → Booking → Booking
reset_booking_attendance_for_gift env b = record b {
  booking_source = "gifted";
  assigned_at = env.now;
  location_prompted = false;
  absence_reported = false;
  attendance_verified = false;
  attendance_lat = none;
  attendance_lon = none;
  attendance_recorded_at = none;
  reminded_hourly_at = none;
  reminded_15_at = none;
}

-- What an acceptance writes into the booking.
unfoldable pub hand_to : Env → User → Booking → Booking
unfolding reset_booking_attendance_for_gift
hand_to env recipient b =
    reset_booking_attendance_for_gift env (record b { user_id = recipient.id })

abbrev pub respond : Env → OfferStatus → GiftOffer → GiftOffer
respond env status o = record o { status = status; responded_at = some env.now }

abbrev pub set_gift_status : Env → GiftOffer → OfferStatus → Db → Db
set_gift_status env offer status =
    update_gift_offers (has_gift_offer_id offer.id) (respond env status)

abbrev pub accepted_db : Env → GiftOffer → Booking → User → Db → Db
accepted_db env offer booking recipient db =
    set_gift_status env offer accepted
      (update_bookings (has_booking_id booking.id) (hand_to env recipient) db)

abbrev decision :
    GiftOfferDecisionStatus
    → Option Booking
    → Option User
    → Option User
    → GiftOffer
    → GiftOfferDecisionResult
decision status booking recipient giver offer = record {
  status = status;
  booking = booking;
  recipient = recipient;
  giver = giver;
  offer = some offer;
}

unfoldable pub accept_for :
    Env → GiftOffer → Booking → Option User → Option User → Exec GiftOfferDecisionResult
accept_for env offer booking giver none =
    pure (decision GiftOfferDecisionStatus.recipient_not_allowed (some booking) none giver offer)
accept_for env offer booking giver (some recipient) =
    branch recipient.banned
      (pure (
        decision GiftOfferDecisionStatus.recipient_banned (some booking) (some recipient) giver
          offer))
      (branch (not recipient.allowed)
        (pure (
          decision GiftOfferDecisionStatus.recipient_not_allowed (some booking) (some recipient)
            giver offer))
        do
          let week = start_and_end_of_week booking.date
          lock_user_week_booking_limit env recipient.id week.0
          recipient_count ← query (count_user_bookings_in_week recipient.id week.0 week.1)
          branch (reaches recipient_count (weekly_limit_value env))
              (pure (
                decision GiftOfferDecisionStatus.recipient_limit_reached (some booking)
                  (some recipient) giver offer))
              do
                modify (accepted_db env offer booking recipient)
                commit
                pure (
                    decision GiftOfferDecisionStatus.success (some booking) (some recipient) giver
                      offer))

unfoldable pub accept_booking : Env → GiftOffer → Option Booking → Exec GiftOfferDecisionResult
accept_booking env offer none = do
  modify (set_gift_status env offer cancelled)
  commit
  pure (decision GiftOfferDecisionStatus.booking_not_found none none none offer)
accept_booking env offer (some booking) = do
  booking_dt ← lift (slot_start booking.date booking.hour)
  branch (leb booking_dt env.now)
      (do
        modify (set_gift_status env offer expired)
        commit
        pure (decision GiftOfferDecisionStatus.past_booking (some booking) none none offer))
      (do
        recipients ← query λ db. select (has_user_id offer.recipient_user_id) db.users
        recipient ← scalar_one_or_none recipients
        givers ← query λ db. select (has_user_id offer.giver_user_id) db.users
        giver ← scalar_one_or_none givers
        accept_for env offer booking giver recipient)

abbrev pub is_gift : GiftOffer → Booking → Bool
is_gift offer b = b.id == offer.booking_id && b.user_id == offer.giver_user_id

no_offer : GiftOfferDecisionResult
no_offer = record {
  status = GiftOfferDecisionStatus.offer_not_found;
  booking = none;
  recipient = none;
  giver = none;
  offer = none;
}

accept_offer : Env → ℕ → Option GiftOffer → Exec GiftOfferDecisionResult
unfolding no_offer
accept_offer env recipient_user_id none = pure no_offer
accept_offer env recipient_user_id (some offer) =
    branch (not (offer.recipient_user_id == recipient_user_id))
      (pure (decision GiftOfferDecisionStatus.not_recipient none none none offer))
      do
        rows ← query λ db. select (is_gift offer) db.bookings
        booking ← scalar_one_or_none rows
        accept_booking env offer booking

unfoldable pub accept_gift_offer : Env → ℕ → ℕ → Exec GiftOfferDecisionResult
unfolding accept_offer
accept_gift_offer env offer_id recipient_user_id = do
  rows ← query λ db. select (is_pending_gift offer_id) db.gift_offers
  offer ← scalar_one_or_none rows
  accept_offer env recipient_user_id offer

decline_offer : Env → ℕ → Option GiftOffer → Exec GiftOfferDecisionResult
unfolding no_offer
decline_offer env recipient_user_id none = pure no_offer
decline_offer env recipient_user_id (some offer) =
    branch (not (offer.recipient_user_id == recipient_user_id))
      (pure (decision GiftOfferDecisionStatus.not_recipient none none none offer))
      do
        bookings ← query λ db. select (has_booking_id offer.booking_id) db.bookings
        booking ← scalar_one_or_none bookings
        givers ← query λ db. select (has_user_id offer.giver_user_id) db.users
        giver ← scalar_one_or_none givers
        recipients ← query λ db. select (has_user_id offer.recipient_user_id) db.users
        recipient ← scalar_one_or_none recipients
        modify (set_gift_status env offer declined)
        commit
        pure (decision GiftOfferDecisionStatus.success booking recipient giver offer)

unfoldable pub decline_gift_offer : Env → ℕ → ℕ → Exec GiftOfferDecisionResult
unfolding decline_offer
decline_gift_offer env offer_id recipient_user_id = do
  rows ← query λ db. select (is_pending_gift offer_id) db.gift_offers
  offer ← scalar_one_or_none rows
  decline_offer env recipient_user_id offer
