-- ===== src/Bookings/Gifts/Accept/Keeps.antt =====
-- `accept_gift_offer` of app/services/booking_service.py: bookings, the weekly limit, and later answers.
use music_room_bot.Prelude.{ℕ, ◌+◌, ◌≡◌, refl, ap, ◌∙◌, inl, inr, some, [], ◌∷◌, arith, pos}
use music_room_bot.Bookings.Create.Limits.{IsWithinLimit, same_bookings-IsWithinLimit}
use music_room_bot.Bookings.Gifts.{GiftOfferDecisionStatus, is_pending_gift}
use music_room_bot.Bookings.Gifts.Accept.{respond, is_gift, accept_gift_offer, decline_gift_offer}
use music_room_bot.Bookings.Gifts.Accept.Laws.{
  status_of, gifted, after_gift, IsAccepted, accept_gift_offer_lem,
}
use music_room_bot.Db.{
  User, Booking, accepted, GiftOffer, Db, has_booking_id, in_user_week, has_gift_offer_id,
}
use music_room_bot.Db.Invariant.{IsBookingTable, IsConsistent, update_rows-IsBookingTable}
use music_room_bot.Limits.{weekly_limit_value, count_user_bookings_in_week}
use music_room_bot.Prelude.Rows.{
  select, update_rows, count_rows-update_rows_none, select_none, select_cons, count_rows-update_row,
}
use music_room_bot.Session.{Env, fresh_session}
use music_room_bot.Time.{start_and_end_of_week}

no_offer_found :
    (env : Env) (offer_id user_id : ℕ) (db : Db)
    → select (is_pending_gift offer_id) db.gift_offers ≡ []
    → (status_of (accept_gift_offer env offer_id user_id (fresh_session db)).0
        ≡ some GiftOfferDecisionStatus.offer_not_found)
      × (status_of (decline_gift_offer env offer_id user_id (fresh_session db)).0
          ≡ some GiftOfferDecisionStatus.offer_not_found)
unfolding accept_gift_offer decline_gift_offer
no_offer_found env offer_id user_id db e = (ground arith, ground arith)

module _ (env : Env) (offer_id recipient_user_id : ℕ) (db : Db) (v : IsConsistent db) where
  abbrev after : Db
  after = (accept_gift_offer env offer_id recipient_user_id (fresh_session db)).1.committed

  -- On consistent tables, an acceptance of a gift, whatever its outcome, keeps the keys and the
  -- slots of bookings unique.
  pub accept_gift_offer-IsBookingTable : IsBookingTable after.next_booking_id after.bookings
  accept_gift_offer-IsBookingTable =
      elim (accept_gift_offer_lem env offer_id recipient_user_id db v) [
        | inl (o, b, u, a) ↦ rw a.committed (
            update_rows-IsBookingTable (has_booking_id b.id) (gifted env u.id) db.next_booking_id
              db.bookings (λ x. (refl, refl, refl)) v.bookings_ok)
        | inr r ↦ rw (r.bookings, r.next_booking_id) v.bookings_ok
      ]

  handed_over-IsWithinLimit :
      (most : ℕ) (o : GiftOffer) (b : Booking) (u : User)
      → weekly_limit_value env ≡ pos most
      → IsWithinLimit most db
      → IsAccepted env offer_id recipient_user_id db o b u
          (accept_gift_offer env offer_id recipient_user_id (fresh_session db))
      → IsWithinLimit most (after_gift env o b u db)
  unfolding count_user_bookings_in_week start_and_end_of_week
  handed_over-IsWithinLimit most o b u e within a user_id monday mon =
      let q = in_user_week user_id monday (monday + 7) in
      ground (
        arith,
        within user_id monday mon,
        a.room,
        count_rows-update_row (is_gift o) q (has_booking_id b.id) (gifted env u.id) db.bookings b []
            a.booking (ground arith) (v.bookings_ok.keyed.key b.id),
      )

  -- On consistent tables and with a configured limit that is a natural number, an acceptance of a
  -- gift keeps every user within the weekly limit, if all were within it.
  pub accept_gift_offer-IsWithinLimit :
      (most : ℕ)
      → weekly_limit_value env ≡ pos most
      → IsWithinLimit most db
      → IsWithinLimit most after
  accept_gift_offer-IsWithinLimit most e within =
      elim (accept_gift_offer_lem env offer_id recipient_user_id db v) [
        | inl (o, b, u, a) ↦ rw a.committed (handed_over-IsWithinLimit most o b u e within a)
        | inr r ↦ same_bookings-IsWithinLimit most db after r.bookings within
      ]

  answered :
      (o : GiftOffer)
      → select (is_pending_gift offer_id) db.gift_offers ≡ o ∷ []
      → select
          (is_pending_gift offer_id)
          (update_rows (has_gift_offer_id o.id) (respond env accepted) db.gift_offers)
        ≡ []
  answered o e = select_none _ _ (
      count_rows-update_rows_none (is_pending_gift offer_id) (has_gift_offer_id o.id)
        (respond env accepted) db.gift_offers
        (λ x h. ground (arith, select_cons (is_pending_gift offer_id) db.gift_offers o [] e))
        (λ x. ground arith))

  -- On consistent tables, once an acceptance of a gift has succeeded, accepting or declining the
  -- offer again, by anyone and at any time, finds no offer.
  pub accept_gift_offer_once :
      (later : Env) (user_id : ℕ)
      → status_of (accept_gift_offer env offer_id recipient_user_id (fresh_session db)).0
        ≡ some GiftOfferDecisionStatus.success
      → (status_of (accept_gift_offer later offer_id user_id (fresh_session after)).0
          ≡ some GiftOfferDecisionStatus.offer_not_found)
        × (status_of (decline_gift_offer later offer_id user_id (fresh_session after)).0
            ≡ some GiftOfferDecisionStatus.offer_not_found)
  accept_gift_offer_once later user_id done =
      elim (accept_gift_offer_lem env offer_id recipient_user_id db v) [
        | inl (o, b, u, a) ↦ no_offer_found later offer_id user_id after (
            ap (λ (t : Db). select (is_pending_gift offer_id) t.gift_offers) a.committed
            ∙ answered o a.offer)
        | inr r ↦ absurd (r.status done)
      ]
