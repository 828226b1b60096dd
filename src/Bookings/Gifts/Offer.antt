-- ===== src/Bookings/Gifts/Offer.antt =====
-- The ends of `gift_booking_to_username` of app/services/booking_service.py.
use music_room_bot.Prelude.{
  ℕ, ◌+◌, ◌≤◌, ◌<◌, ◌≡◌, ◌≢◌, ◌⊎◌, inl, inr, true, false, not, ◌&&◌, ◌||◌, Option, none, some, [],
  ◌∷◌, arith, ltb, ◌==◌, reaches, ==→eq, Bool-cases, Option-cases, Text,
}
use music_room_bot.Bookings.Gifts.{
  GiftBookingStatus, GiftBookingResult, normalize_username, has_username, is_owned,
  is_pending_offer_of, offer_gift, gift_to_recipient, gift_found, gift_by_name,
  gift_booking_to_username,
}
use music_room_bot.Db.{User, Booking, pending, GiftOffer, Db, has_booking_id, has_gift_offer_id}
use music_room_bot.Db.Invariant.{IsConsistent}
use music_room_bot.Limits.{weekly_limit_value, count_user_bookings_in_week}
use music_room_bot.Prelude.Rows.{select, count_rows, count_rows_unique, select_nil, select_none}
use music_room_bot.Session.{Outcome, ok, raised, Env, Session, fresh_session, slot_start}
use music_room_bot.Session.Laws.{scalar_cases, rows_cases}
use music_room_bot.Time.{combine, start_and_end_of_week}

abbrev pub offering_of : Outcome GiftBookingResult → Option GiftBookingStatus
offering_of (ok result) = some result.status
offering_of (raised e) = none

-- The offer that is entered, column by column.
abbrev pub offered : Env → ℕ → ℕ → ℕ → ℕ → GiftOffer
offered env new_id booking_id giver_user_id recipient_user_id = record {
  id = new_id;
  booking_id = booking_id;
  giver_user_id = giver_user_id;
  recipient_user_id = recipient_user_id;
  status = pending;
  created_at = env.now;
  responded_at = none;
}

module _ (env : Env) (booking_id giver_user_id : ℕ) (username : Text) (db : Db) where
  -- The booking `b` of the giver is offered to the user `u` of that name.
  pub record IsOffered (b : Booking) (u : User) (out : Outcome GiftBookingResult × Session)
      : Type 0 where
    pub status : offering_of out.0 ≡ some GiftBookingStatus.pending
    pub committed : out.1.committed ≡ record db {
      gift_offers =
          offered env db.next_gift_offer_id booking_id giver_user_id u.id ∷ db.gift_offers;
      next_gift_offer_id = db.next_gift_offer_id + 1;
    }
    pub owned : (b.id ≡ booking_id) × (b.user_id ≡ giver_user_id)
    pub name : Text
    pub normalized : normalize_username env username ≡ some name
    pub recipient : select (has_username env (env.lower name)) db.users ≡ u ∷ []
    pub future : env.now < combine b.date b.hour
    pub other : u.id ≢ giver_user_id
    pub in_good_standing : (u.banned ≡ false) × (u.allowed ≡ true)
    pub room :
        let (start, end) = start_and_end_of_week b.date in
        reaches (count_user_bookings_in_week u.id start end db) (weekly_limit_value env) ≡ false
    pub no_rival : count_rows (is_pending_offer_of b.id) db.gift_offers ≡ 0

  pub record IsNotOffered (out : Outcome GiftBookingResult × Session) : Type 0 where
    pub status : offering_of out.0 ≢ some GiftBookingStatus.pending
    pub committed : out.1.committed ≡ db

  abbrev pub OfferEnds : Outcome GiftBookingResult × Session → Type 0
  OfferEnds out = ((b : Booking) × (u : User) × IsOffered b u out) ⊎ IsNotOffered out

  module _ (v : IsConsistent db) (b : Booking) (name : Text)
      (owned : (b.id ≡ booking_id) × (b.user_id ≡ giver_user_id))
      (normalized : normalize_username env username ≡ some name)
      (future : env.now < combine b.date b.hour) where
    offer_gift-OfferEnds :
        (u : User)
        → select (has_username env (env.lower name)) db.users ≡ u ∷ []
        → u.id ≢ giver_user_id
        → (u.banned ≡ false) × (u.allowed ≡ true)
        → (let (start, end) = start_and_end_of_week b.date in
            reaches (count_user_bookings_in_week u.id start end db) (weekly_limit_value env)
            ≡ false)
        → select (is_pending_offer_of b.id) db.gift_offers ≡ []
        → OfferEnds (offer_gift env b giver_user_id u none (fresh_session db))
    unfolding offer_gift select
    offer_gift-OfferEnds u eu other standing room none_yet =
        let fresh =
          select_none (has_gift_offer_id db.next_gift_offer_id) db.gift_offers
            (v.gift_offers_ok.fresh db.next_gift_offer_id (omega arith)) in
        inl (
          b,
          u,
          record {
            status = ground (arith, fresh);
            committed = ground (arith, fresh, owned.0);
            owned = owned;
            name = name;
            normalized = normalized;
            recipient = eu;
            future = future;
            other = other;
            in_good_standing = standing;
            room = room;
            no_rival = select_nil (is_pending_offer_of b.id) db.gift_offers none_yet;
          },
        )

    gift_to_recipient_free :
        (u : User)
        → (let week = start_and_end_of_week b.date in
            u.id == giver_user_id
            || (u.banned
                || (not u.allowed
                    || reaches
                        (count_user_bookings_in_week u.id week.0 week.1 db)
                        (weekly_limit_value env))))
          ≡ false
        → select (is_pending_offer_of b.id) db.gift_offers ≡ []
        → gift_to_recipient env b giver_user_id (some u) (fresh_session db)
          ≡ offer_gift env b giver_user_id u none (fresh_session db)
    unfolding gift_to_recipient
    gift_to_recipient_free u way none_yet = ground arith

    gift_to_recipient-OfferEnds :
        (u : User)
        → select (has_username env (env.lower name)) db.users ≡ u ∷ []
        → OfferEnds (gift_to_recipient env b giver_user_id (some u) (fresh_session db))
    unfolding gift_to_recipient offer_gift
    gift_to_recipient-OfferEnds u eu =
        let week = start_and_end_of_week b.date in
        elim (Bool-cases (
          u.id == giver_user_id
          || (u.banned
              || (not u.allowed
                  || reaches (count_user_bookings_in_week u.id week.0 week.1 db)
                      (weekly_limit_value env))))) [
                        | inl no_way ↦ inr (ground arith)
                        | inr way ↦
                            elim (rows_cases (select (is_pending_offer_of b.id) db.gift_offers)) [
                              | inl none_yet ↦
                                  rw (gift_to_recipient_free u (ground arith) none_yet) (
                                    offer_gift-OfferEnds u eu (ground arith) (ground arith)
                                      (ground arith) none_yet)
                              | inr (inl (rival, er)) ↦ inr (ground arith)
                              | inr (inr (x, y, more, many)) ↦ inr (ground arith)
                            ]
                      ]

  found_recipient :
      (b : Booking) (u : User) (name : Text)
      → (ltb b.hour 24 && ltb env.now (combine b.date b.hour)) ≡ true
      → select (has_username env (env.lower name)) db.users ≡ u ∷ []
      → gift_found env giver_user_id name (some b) (fresh_session db)
        ≡ gift_to_recipient env b giver_user_id (some u) (fresh_session db)
  unfolding gift_found slot_start
  found_recipient b u name future eu = ground arith

  gift_found-OfferEnds :
      (b : Booking) (name : Text)
      → IsConsistent db
      → (b.id ≡ booking_id) × (b.user_id ≡ giver_user_id)
      → normalize_username env username ≡ some name
      → OfferEnds (gift_found env giver_user_id name (some b) (fresh_session db))
  unfolding gift_found slot_start gift_to_recipient
  gift_found-OfferEnds b name v owned normalized =
      elim (Bool-cases (ltb b.hour 24 && ltb env.now (combine b.date b.hour))) [
        | inr over ↦ inr (ground arith)
        | inl future ↦ elim (rows_cases (select (has_username env (env.lower name)) db.users)) [
          | inl nobody ↦ inr (ground arith)
          | inr (inl (u, eu)) ↦
              rw (found_recipient b u name future eu)
                (gift_to_recipient-OfferEnds v b name owned normalized (ground arith) u eu)
          | inr (inr (x, y, more, many)) ↦ inr (ground arith)
        ]
      ]

  found_booking :
      (b : Booking) (name : Text)
      → normalize_username env username ≡ some name
      → select (is_owned booking_id giver_user_id) db.bookings ≡ b ∷ []
      → gift_booking_to_username env booking_id giver_user_id username (fresh_session db)
        ≡ gift_found env giver_user_id name (some b) (fresh_session db)
  unfolding gift_booking_to_username gift_by_name
  found_booking b name en eb = ground arith

  -- On consistent tables, offering a booking by its recipient's name either commits one new pending
  -- offer, made now, of the giver's booking to the only user of that name, who is another member in
  -- good standing with room in the week, before the booking starts and with no other pending offer
  -- of it, and nothing else changes; or, an exception included, the result is not pending and the
  -- committed tables are as they were.
  pub gift_booking_to_username_lem :
      IsConsistent db
      → OfferEnds
          (gift_booking_to_username env booking_id giver_user_id username (fresh_session db))
  unfolding gift_booking_to_username gift_by_name
  gift_booking_to_username_lem v = elim (Option-cases (normalize_username env username)) [
    | inl no_name ↦ inr (ground arith)
    | inr (name, en) ↦
        elim (scalar_cases (is_owned booking_id giver_user_id) db.bookings one_booking) [
          | inl nothing ↦ inr (ground arith)
          | inr (b, eb, own) ↦ rw (found_booking b name en eb) (
              gift_found-OfferEnds b name v
                (==→eq b.id booking_id (ground arith), ==→eq b.user_id giver_user_id (ground arith))
                en)
        ]
  ]
    where
      one_booking : count_rows (is_owned booking_id giver_user_id) db.bookings ≤ 1
      one_booking =
          count_rows_unique _ (has_booking_id booking_id) db.bookings (λ x e. ground arith)
            (v.bookings_ok.keyed.key booking_id)

  -- On consistent tables, offering a booking keeps it so that each booking has at most one pending
  -- offer.
  pub gift_booking_to_username-pending_unique :
      IsConsistent db
      → ((i : ℕ) → count_rows (is_pending_offer_of i) db.gift_offers ≤ 1)
      → (i : ℕ)
      → count_rows
          (is_pending_offer_of i)
          (gift_booking_to_username env booking_id giver_user_id username
            (fresh_session db)).1.committed.gift_offers
        ≤ 1
  unfolding count_rows
  gift_booking_to_username-pending_unique v unique i = elim (gift_booking_to_username_lem v) [
    | inl (b, u, a) ↦ ground (arith, a.committed, a.no_rival, unique i)
    | inr k ↦ rw k.committed (unique i)
  ]
