-- ===== src/Bookings/Gifts.antt =====
-- The gift offers of app/services/booking_service.py: a member offers a booking to another, who
-- accepts or declines. The rows that a result names are returned as they were read.
pub mod Accept
pub mod Offer
use music_room_bot.Prelude.{
  ℕ, ◌+◌, Bool, false, not, ◌&&◌, Option, none, some, ◌∷◌, leb, ◌==◌, if◌then◌else◌, reaches, Text,
  text_eq, is_empty, strip, remove_prefix,
}
use music_room_bot.Db.{User, Booking, OfferStatus, is_pending, GiftOffer, Db, has_gift_offer_id}
use music_room_bot.Limits.{weekly_limit_value, count_user_bookings_in_week}
use music_room_bot.Prelude.Rows.{select, update_rows}
use music_room_bot.Session.{
  Env, Exec, pure, lift, branch, query, scalar_one_or_none, modify, commit, slot_start, ◌>>=◌, ◌>>◌,
}
use music_room_bot.Time.{start_and_end_of_week}

pub data GiftBookingStatus : Type 0 where
  pending invalid_username booking_not_found past_booking recipient_not_found : GiftBookingStatus
  recipient_not_allowed recipient_banned same_user recipient_limit_reached : GiftBookingStatus
  pending_offer_exists : GiftBookingStatus

pub data GiftOfferDecisionStatus : Type 0 where
  success offer_not_found not_recipient booking_not_found past_booking : GiftOfferDecisionStatus
  recipient_not_allowed recipient_banned recipient_limit_reached : GiftOfferDecisionStatus

pub record GiftBookingResult : Type 0 where
  pub status : GiftBookingStatus
  pub booking : Option Booking
  pub recipient : Option User
  pub offer : Option GiftOffer

pub record GiftOfferDecisionResult : Type 0 where
  pub status : GiftOfferDecisionStatus
  pub booking : Option Booking
  pub recipient : Option User
  pub giver : Option User
  pub offer : Option GiftOffer

-- `username.strip().removeprefix("@").strip()`, and `None` for the empty text.
unfoldable pub normalize_username : Env → Text → Option Text
unfolding strip remove_prefix
normalize_username env username =
    let value = strip env.is_space (remove_prefix b'@' (strip env.is_space username)) in
    if is_empty value then none else some value

-- `func.lower(User.tg_username) == name`
abbrev pub has_username : Env → Text → User → Bool
has_username env name u = elim u.tg_username [ none ↦ false | some t ↦ text_eq (env.lower t) name ]

abbrev pub is_owned : ℕ → ℕ → Booking → Bool
is_owned booking_id user_id b = b.id == booking_id && b.user_id == user_id

abbrev pub is_pending_offer_of : ℕ → GiftOffer → Bool
is_pending_offer_of booking_id o = o.booking_id == booking_id && is_pending o.status

abbrev pub is_pending_gift : ℕ → GiftOffer → Bool
is_pending_gift offer_id o = o.id == offer_id && is_pending o.status

abbrev pub update_gift_offers : (GiftOffer → Bool) → (GiftOffer → GiftOffer) → Db → Db
update_gift_offers p f db = record db { gift_offers = update_rows p f db.gift_offers }

abbrev pub update_bookings : (Booking → Bool) → (Booking → Booking) → Db → Db
update_bookings p f db = record db { bookings = update_rows p f db.bookings }

-- `db.add(GiftOffer(…))`; its foreign keys are rows that were just read.
abbrev pub add_gift_offer : Env → Booking → ℕ → User → Db → Db
add_gift_offer env booking giver_user_id recipient db = record db {
  gift_offers =
      record {
        id = db.next_gift_offer_id;
        booking_id = booking.id;
        giver_user_id = giver_user_id;
        recipient_user_id = recipient.id;
        status = OfferStatus.pending;
        created_at = env.now;
        responded_at = none;
      }
      ∷ db.gift_offers;
  next_gift_offer_id = db.next_gift_offer_id + 1;
}

abbrev pub gift_result : GiftBookingStatus → Booking → User → GiftBookingResult
gift_result status booking recipient = record {
  status = status;
  booking = some booking;
  recipient = some recipient;
  offer = none;
}

unfoldable pub offer_gift : Env → Booking → ℕ → User → Option GiftOffer → Exec GiftBookingResult
offer_gift env booking giver_user_id recipient (some offer) =
    pure (record (gift_result GiftBookingStatus.pending_offer_exists booking recipient) {
      offer = some offer;
    })
offer_gift env booking giver_user_id recipient none = do
  new_id ← query λ db. db.next_gift_offer_id
  modify (add_gift_offer env booking giver_user_id recipient)
  commit
  rows ← query λ db. select (has_gift_offer_id new_id) db.gift_offers
  offer ← scalar_one_or_none rows
  pure (record (gift_result GiftBookingStatus.pending booking recipient) { offer = offer })

unfoldable pub gift_to_recipient : Env → Booking → ℕ → Option User → Exec GiftBookingResult
unfolding offer_gift
gift_to_recipient env booking giver_user_id none = pure (record {
  status = GiftBookingStatus.recipient_not_found;
  booking = some booking;
  recipient = none;
  offer = none;
})
gift_to_recipient env booking giver_user_id (some recipient) =
    branch (recipient.id == giver_user_id)
      (pure (gift_result GiftBookingStatus.same_user booking recipient))
      (branch recipient.banned
        (pure (gift_result GiftBookingStatus.recipient_banned booking recipient))
        (branch (not recipient.allowed)
          (pure (gift_result GiftBookingStatus.recipient_not_allowed booking recipient))
          do
            let week = start_and_end_of_week booking.date
            recipient_count ← query (count_user_bookings_in_week recipient.id week.0 week.1)
            branch (reaches recipient_count (weekly_limit_value env))
                (pure (gift_result GiftBookingStatus.recipient_limit_reached booking recipient))
                do
                  rows ← query λ db. select (is_pending_offer_of booking.id) db.gift_offers
                  pending_offer ← scalar_one_or_none rows
                  offer_gift env booking giver_user_id recipient pending_offer))

unfoldable pub gift_found : Env → ℕ → Text → Option Booking → Exec GiftBookingResult
unfolding gift_to_recipient
gift_found env giver_user_id username none = pure (record {
  status = GiftBookingStatus.booking_not_found;
  booking = none;
  recipient = none;
  offer = none;
})
gift_found env giver_user_id username (some booking) = do
  booking_dt ← lift (slot_start booking.date booking.hour)
  branch (leb booking_dt env.now)
      (pure (record {
        status = GiftBookingStatus.past_booking;
        booking = some booking;
        recipient = none;
        offer = none;
      }))
      do
        rows ← query λ db. select (has_username env (env.lower username)) db.users
        recipient ← scalar_one_or_none rows
        gift_to_recipient env booking giver_user_id recipient

unfoldable pub gift_by_name : Env → ℕ → ℕ → Option Text → Exec GiftBookingResult
unfolding gift_found
gift_by_name env booking_id giver_user_id none = pure (record {
  status = GiftBookingStatus.invalid_username;
  booking = none;
  recipient = none;
  offer = none;
})
gift_by_name env booking_id giver_user_id (some username) = do
  rows ← query λ db. select (is_owned booking_id giver_user_id) db.bookings
  booking ← scalar_one_or_none rows
  gift_found env giver_user_id username booking

unfoldable pub gift_booking_to_username : Env → ℕ → ℕ → Text → Exec GiftBookingResult
unfolding gift_by_name
gift_booking_to_username env booking_id giver_user_id recipient_username =
    gift_by_name env booking_id giver_user_id (normalize_username env recipient_username)
