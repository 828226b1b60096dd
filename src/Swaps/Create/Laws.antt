-- ===== src/Swaps/Create/Laws.antt =====
-- The ends of `create_swap_offer` of app/services/swap_service.py.
use music_room_bot.Prelude.{
  ℕ, ◌+◌, ◌<◌, ◌≡◌, ◌≢◌, ◌⊎◌, inl, inr, Bool, true, false, not, ◌&&◌, some, [], ◌∷◌, arith, ltb,
  ◌==◌, Bool-cases,
}
use music_room_bot.Db.{Booking, pending, Db, has_user_id, has_booking_id}
use music_room_bot.Db.Invariant.{IsConsistent}
use music_room_bot.Prelude.Rows.{select}
use music_room_bot.Session.{Outcome, ok, raised, Env, Session, fresh_session, slot_start}
use music_room_bot.Session.Laws.{scalar_cases}
use music_room_bot.Swaps.{CreateSwapOfferResult, created_swap, missing_booking}
use music_room_bot.Swaps.Create.{add_swap_offer, offer_swap, offer_bookings, create_swap_offer}
use music_room_bot.Time.{combine}

abbrev pub swap_created : Outcome CreateSwapOfferResult → Bool
swap_created (ok (created_swap _)) = true
swap_created (ok missing_booking) = false
swap_created (raised e) = false

module _ (env : Env) (target_booking_id my_booking_id giver_user_id : ℕ) (db : Db) where
  -- The booking `m` of the caller is offered for the booking `t` of another user.
  pub record IsCreated (m t : Booking) (out : Outcome CreateSwapOfferResult × Session)
      : Type 0 where
    pub done : swap_created out.0 ≡ true
    pub committed : out.1.committed ≡ record db {
      swap_offers =
          record {
            id = db.next_swap_offer_id;
            giver_user_id = giver_user_id;
            receiver_user_id = t.user_id;
            give_date = m.date;
            give_hour = m.hour;
            want_date = t.date;
            want_hour = t.hour;
            status = pending;
            created_at = env.now;
          }
          ∷ db.swap_offers;
      next_swap_offer_id = db.next_swap_offer_id + 1;
    }
    pub mine : select (has_booking_id my_booking_id) db.bookings ≡ m ∷ []
    pub target : select (has_booking_id target_booking_id) db.bookings ≡ t ∷ []
    pub owners : (m.user_id ≡ giver_user_id) × (t.user_id ≢ giver_user_id)
    pub future : (env.now < combine m.date m.hour) × (env.now < combine t.date t.hour)

  pub record IsNotCreated (out : Outcome CreateSwapOfferResult × Session) : Type 0 where
    pub done : swap_created out.0 ≡ false
    pub committed : out.1.committed ≡ db

  abbrev pub CreateEnds : Outcome CreateSwapOfferResult × Session → Type 0
  CreateEnds out = ((m : Booking) × (t : Booking) × IsCreated m t out) ⊎ IsNotCreated out

  offer_swap_lem :
      IsConsistent db
      → (m t : Booking)
      → let (out, s) = offer_swap env m t (fresh_session db) in
        (swap_created out ≡ true) × (s.committed ≡ add_swap_offer env m t db)
  unfolding offer_swap
  offer_swap_lem v m t = ground (
    arith,
    scalar_cases (has_user_id m.user_id) db.users (v.users_ok m.user_id),
    scalar_cases (has_user_id t.user_id) db.users (v.users_ok t.user_id),
  )

  found_bookings :
      (m t : Booking)
      → select (has_booking_id my_booking_id) db.bookings ≡ m ∷ []
      → select (has_booking_id target_booking_id) db.bookings ≡ t ∷ []
      → create_swap_offer env target_booking_id my_booking_id giver_user_id (fresh_session db)
        ≡ offer_bookings env giver_user_id (some t) (some m) (fresh_session db)
  unfolding create_swap_offer
  found_bookings m t em et = ground arith

  offer_bookings-CreateEnds :
      IsConsistent db
      → (m t : Booking) → select (has_booking_id my_booking_id) db.bookings ≡ m ∷ []
      → select (has_booking_id target_booking_id) db.bookings ≡ t ∷ []
      → CreateEnds (offer_bookings env giver_user_id (some t) (some m) (fresh_session db))
  unfolding offer_bookings slot_start
  offer_bookings-CreateEnds v m t em et =
      elim (Bool-cases (
        (m.user_id == giver_user_id && not (t.user_id == giver_user_id))
        && ((ltb m.hour 24 && ltb env.now (combine m.date m.hour))
            && (ltb t.hour 24 && ltb env.now (combine t.date t.hour))))) [
              | inr no_way ↦ inr (ground arith)
              | inl way ↦ inl (
                m,
                t,
                record {
                  done = ground (arith, offer_swap_lem v m t);
                  committed = ground (arith, offer_swap_lem v m t);
                  mine = em;
                  target = et;
                  owners = ground arith;
                  future = ground arith;
                },
              )
            ]

  -- On consistent tables, either a pending offer, made now, is committed by which the caller gives the
  -- slot of the own booking and wants the slot of another user's, both in the future, and nothing
  -- else changes; or, an exception included, the committed tables stay as they were.
  pub create_swap_offer_lem :
      IsConsistent db
      → CreateEnds
          (create_swap_offer env target_booking_id my_booking_id giver_user_id (fresh_session db))
  unfolding create_swap_offer offer_bookings
  create_swap_offer_lem v =
      elim (scalar_cases (has_booking_id my_booking_id) db.bookings
        (v.bookings_ok.keyed.key my_booking_id)) [
          | inl none_mine ↦
              elim (scalar_cases (has_booking_id target_booking_id) db.bookings
                (v.bookings_ok.keyed.key target_booking_id)) [
                  | inl nothing ↦ inr (ground arith)
                  | inr (t, et, _) ↦ inr (ground arith)
                ]
          | inr (m, em, _) ↦
              elim (scalar_cases (has_booking_id target_booking_id) db.bookings
                (v.bookings_ok.keyed.key target_booking_id)) [
                  | inl nothing ↦ inr (ground arith)
                  | inr (t, et, _) ↦
                      rw (found_bookings m t em et) (offer_bookings-CreateEnds v m t em et)
                ]
        ]
