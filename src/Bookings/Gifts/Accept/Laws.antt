-- ===== src/Bookings/Gifts/Accept/Laws.antt =====
-- The ends of `accept_gift_offer` of app/services/booking_service.py.
use music_room_bot.Prelude.{
  ℕ, ◌≤◌, ◌<◌, ◌≡◌, ◌≢◌, ◌⊎◌, inl, inr, true, false, not, ◌&&◌, ◌||◌, Option, none, some, [], ◌∷◌,
  arith, ltb, ◌==◌, reaches, ==→eq, Bool-cases,
}
use music_room_bot.Bookings.Gifts.{
  GiftOfferDecisionStatus, GiftOfferDecisionResult, is_pending_gift,
}
use music_room_bot.Bookings.Gifts.Accept.{
  hand_to, accept_for, accept_booking, is_gift, accept_gift_offer,
}
use music_room_bot.Db.{
  User, Booking, accepted, GiftOffer, Db, has_user_id, has_booking_id, has_gift_offer_id,
}
use music_room_bot.Db.Invariant.{IsConsistent}
use music_room_bot.Limits.{
  weekly_limit_value, lock_user_week_booking_limit, count_user_bookings_in_week,
}
use music_room_bot.Prelude.Rows.{select, count_rows, update_rows, count_rows_unique}
use music_room_bot.Session.{Outcome, ok, raised, Env, Session, fresh_session, slot_start}
use music_room_bot.Session.Laws.{scalar_cases}
use music_room_bot.Time.{combine, start_and_end_of_week}

abbrev pub status_of : Outcome GiftOfferDecisionResult → Option GiftOfferDecisionStatus
status_of (ok result) = some result.status
status_of (raised e) = none

-- A booking that was given, column by column.
abbrev pub gifted : Env → ℕ → Booking → Booking
gifted env user_id b = record {
  id = b.id;
  user_id = user_id;
  date = b.date;
  hour = b.hour;
  is_weekly = b.is_weekly;
  booking_source = "gifted";
  assigned_at = env.now;
  created_at = b.created_at;
  location_prompted = false;
  absence_reported = false;
  attendance_verified = false;
  attendance_lat = none;
  attendance_lon = none;
  attendance_recorded_at = none;
  reminded_hourly_at = none;
  reminded_15_at = none;
}

-- The tables after the gift `o` of the booking `b` to `u`.
abbrev pub after_gift : Env → GiftOffer → Booking → User → Db → Db
after_gift env o b u db = record db {
  bookings = update_rows (λ x. x.id == b.id) (gifted env u.id) db.bookings;
  gift_offers =
      update_rows (λ x. x.id == o.id)
        (λ x. record x { status = accepted; responded_at = some env.now }) db.gift_offers;
}

module _ (env : Env) (offer_id recipient_user_id : ℕ) (db : Db) where
  -- The booking `b` of the pending offer `o` went to its recipient `u`.
  pub record IsAccepted (o : GiftOffer) (b : Booking) (u : User)
      (out : Outcome GiftOfferDecisionResult × Session) : Type 0 where
    pub status : status_of out.0 ≡ some GiftOfferDecisionStatus.success
    pub committed : out.1.committed ≡ after_gift env o b u db
    pub caller : o.recipient_user_id ≡ recipient_user_id
    pub offer : select (is_pending_gift offer_id) db.gift_offers ≡ o ∷ []
    pub booking : select (is_gift o) db.bookings ≡ b ∷ []
    pub recipient : select (has_user_id o.recipient_user_id) db.users ≡ u ∷ []
    pub future : env.now < combine b.date b.hour
    pub in_good_standing : (u.banned ≡ false) × (u.allowed ≡ true)
    pub room :
        let (start, end) = start_and_end_of_week b.date in
        reaches (count_user_bookings_in_week u.id start end db) (weekly_limit_value env) ≡ false

  pub record IsRefused (out : Outcome GiftOfferDecisionResult × Session) : Type 0 where
    pub status : status_of out.0 ≢ some GiftOfferDecisionStatus.success
    pub bookings : out.1.committed.bookings ≡ db.bookings
    pub next_booking_id : out.1.committed.next_booking_id ≡ db.next_booking_id
    pub users : out.1.committed.users ≡ db.users

  abbrev pub Ends : Outcome GiftOfferDecisionResult × Session → Type 0
  Ends out = ((o : GiftOffer) × (b : Booking) × (u : User) × IsAccepted o b u out) ⊎ IsRefused out

  module _ (v : IsConsistent db) (o : GiftOffer) (caller : o.recipient_user_id ≡ recipient_user_id)
      (offer : select (is_pending_gift offer_id) db.gift_offers ≡ o ∷ []) where
    accept_for-Ends :
        (b : Booking) (giver : Option User) (u : User)
        → select (is_gift o) db.bookings ≡ b ∷ []
        → env.now < combine b.date b.hour
        → select (has_user_id o.recipient_user_id) db.users ≡ u ∷ []
        → Ends (accept_for env o b giver (some u) (fresh_session db))
    unfolding accept_for lock_user_week_booking_limit hand_to
    accept_for-Ends b giver u eb future eu =
        let week = start_and_end_of_week b.date in
        elim (Bool-cases (
          u.banned
          || not u.allowed
          || reaches (count_user_bookings_in_week u.id week.0 week.1 db)
              (weekly_limit_value env))) [
                | inl no_way ↦ inr (ground arith)
                | inr way ↦ inl (
                  o,
                  b,
                  u,
                  record {
                    status = ground arith;
                    committed = ground arith;
                    caller = caller;
                    offer = offer;
                    booking = eb;
                    recipient = eu;
                    future = future;
                    in_good_standing = ground arith;
                    room = ground arith;
                  },
                )
              ]

    -- In time, and with the recipient found, the giver's row does not matter.
    accept_booking_future :
        (b : Booking) (u : User)
        → (ltb b.hour 24 && ltb env.now (combine b.date b.hour)) ≡ true
        → select (has_user_id o.recipient_user_id) db.users ≡ u ∷ []
        → (giver : Option User) × (accept_booking env o (some b) (fresh_session db)
            ≡ accept_for env o b giver (some u) (fresh_session db))
    unfolding accept_booking slot_start
    accept_booking_future b u future eu =
        elim (scalar_cases (has_user_id o.giver_user_id) db.users (v.users_ok o.giver_user_id)) [
          | inl no_giver ↦ (none, ground arith)
          | inr (giver, eg, _) ↦ (some giver, ground arith)
        ]

    accept_booking-Ends :
        (b : Booking)
        → select (is_gift o) db.bookings ≡ b ∷ []
        → Ends (accept_booking env o (some b) (fresh_session db))
    unfolding accept_booking slot_start accept_for
    accept_booking-Ends b eb =
        let users =
          scalar_cases (has_user_id o.recipient_user_id) db.users
            (v.users_ok o.recipient_user_id) in
        let givers =
          scalar_cases (has_user_id o.giver_user_id) db.users (v.users_ok o.giver_user_id) in
        elim (Bool-cases (ltb b.hour 24 && ltb env.now (combine b.date b.hour))) [
          | inr over ↦ elim users [
            | inl nobody ↦ inr (ground (arith, nobody, givers))
            | inr (u, eu, _) ↦ inr (ground (arith, givers))
          ]
          | inl future ↦ elim users [
            | inl nobody ↦ inr (ground (arith, nobody, givers))
            | inr (u, eu, _) ↦
                let (giver, e) = accept_booking_future b u future eu in
                rw e (accept_for-Ends b giver u eb (ground arith) eu)
          ]
        ]

  accept_gift_booking :
      (o : GiftOffer) (b : Booking)
      → select (is_pending_gift offer_id) db.gift_offers ≡ o ∷ []
      → o.recipient_user_id ≡ recipient_user_id
      → select (is_gift o) db.bookings ≡ b ∷ []
      → accept_gift_offer env offer_id recipient_user_id (fresh_session db)
        ≡ accept_booking env o (some b) (fresh_session db)
  unfolding accept_gift_offer
  accept_gift_booking o b eo caller eb = ground arith

  -- On consistent tables, an acceptance that succeeds comes from the recipient of a pending offer,
  -- who is in good standing and has room in the week, before the booking starts. It commits the
  -- booking with the recipient as its user, the source "gifted", and its attendance and reminders
  -- cleared, and the offer as accepted now; nothing else changes. Any other end, an exception
  -- included, leaves bookings and users as they were.
  pub accept_gift_offer_lem :
      IsConsistent db → Ends (accept_gift_offer env offer_id recipient_user_id (fresh_session db))
  unfolding accept_gift_offer accept_booking
  accept_gift_offer_lem v =
      elim (scalar_cases (is_pending_gift offer_id) db.gift_offers one_offer) [
        | inl nothing ↦ inr (ground arith)
        | inr (o, eo, _) ↦ elim (Bool-cases (o.recipient_user_id == recipient_user_id)) [
          | inr other ↦ inr (ground arith)
          | inl caller ↦ elim (scalar_cases (is_gift o) db.bookings (one_gift o)) [
            | inl gone ↦ inr (ground arith)
            | inr (b, eb, _) ↦
                rw
                  (accept_gift_booking o b eo (==→eq o.recipient_user_id recipient_user_id caller)
                    eb)
                  (accept_booking-Ends v o (==→eq o.recipient_user_id recipient_user_id caller) eo b
                    eb)
          ]
        ]
      ]
    where
      one_offer : count_rows (is_pending_gift offer_id) db.gift_offers ≤ 1
      one_offer =
          count_rows_unique _ (has_gift_offer_id offer_id) db.gift_offers (λ x e. ground arith)
            (v.gift_offers_ok.key offer_id)

      one_gift : (o : GiftOffer) → count_rows (is_gift o) db.bookings ≤ 1
      one_gift o =
          count_rows_unique _ (has_booking_id o.booking_id) db.bookings (λ x e. ground arith)
            (v.bookings_ok.keyed.key o.booking_id)
