-- ===== src/Swaps/Laws.antt =====
-- The ends of `accept_swap_offer` of app/services/swap_service.py.
use music_room_bot.Prelude.{
  ℕ, ◌≤◌, ◌<◌, ◌≡◌, refl, ◌⊎◌, inl, inr, Bool, true, false, not, ◌&&◌, ◌||◌, none, some, List, [],
  ◌∷◌, map, arith, ltb, ◌==◌, if◌then◌else◌, Bool-cases,
}
use music_room_bot.Db.{
  Booking, accepted, cancelled, is_pending, SwapOffer, Db, has_user_id, has_booking_id, at_slot,
  has_swap_offer_id,
}
use music_room_bot.Db.Invariant.{IsConsistent}
use music_room_bot.Prelude.Rows.{select, count_rows, update_rows, count_rows_unique}
use music_room_bot.Session.{Outcome, ok, raised, Env, Session, fresh_session, slot_start}
use music_room_bot.Session.Laws.{scalar_cases}
use music_room_bot.Swaps.{
  AcceptSwapOfferResult, accepted_swap, missing_swap_booking, unavailable, set_swap_status,
  is_given, is_wanted, swap_owner, is_superseded, swapped_db, complete_swap, cancel_swap,
  swap_bookings, accept_swap_offer,
}
use music_room_bot.Time.{combine}

abbrev pub swap_done : Outcome AcceptSwapOfferResult → Bool
swap_done (ok (accepted_swap _)) = true
swap_done (ok missing_swap_booking) = false
swap_done (ok unavailable) = false
swap_done (raised e) = false

-- Either booking names one of the slots of `o`, in another pending offer.
abbrev pub is_rival : SwapOffer → SwapOffer → Bool
is_rival o x =
    not (x.id == o.id)
    && (is_pending x.status
        && ((x.give_date == o.give_date && x.give_hour == o.give_hour
              || x.give_date == o.want_date && x.give_hour == o.want_hour)
            || (x.want_date == o.give_date && x.want_hour == o.give_hour
                || x.want_date == o.want_date && x.want_hour == o.want_hour)))

-- The rows after an accepted swap: each of the two bookings has the other's user, and its reminders
-- are due again; the offer is accepted, and the other offers of the slots are cancelled.
abbrev pub swapped : Booking → Booking → Booking → Booking
swapped g r b =
    if b.id == r.id
    then record b { user_id = g.user_id; reminded_hourly_at = none; reminded_15_at = none }
    else if b.id == g.id
    then record b { user_id = r.user_id; reminded_hourly_at = none; reminded_15_at = none }
    else b

abbrev pub settled : SwapOffer → SwapOffer → SwapOffer
settled o x =
    if x.id == o.id
    then record x { status = accepted }
    else if is_rival o x
    then record x { status = cancelled }
    else x

swapped_rows :
    (g r : Booking) (bs : List Booking)
    → update_rows
        (has_booking_id r.id)
        (swap_owner g.user_id)
        (update_rows (has_booking_id g.id) (swap_owner r.user_id) bs)
      ≡ map (swapped g r) bs
unfolding update_rows
swapped_rows g r [] = refl
swapped_rows g r (b ∷ bs) = ground (arith, swapped_rows g r bs)

settled_rows :
    (o : SwapOffer) (xs : List SwapOffer)
    → update_rows
        (is_superseded o)
        (set_swap_status cancelled)
        (update_rows (has_swap_offer_id o.id) (set_swap_status accepted) xs)
      ≡ map (settled o) xs
unfolding update_rows
settled_rows o [] = refl
settled_rows o (x ∷ xs) = ground (arith, settled_rows o xs)

abbrev pub after_swap : SwapOffer → Booking → Booking → Db → Db
after_swap o g r db = record db {
  bookings = map (swapped g r) db.bookings;
  swap_offers = map (settled o) db.swap_offers;
}

swapped_db_lem :
    (o : SwapOffer) (g r : Booking) (db : Db) → swapped_db o g r db ≡ after_swap o g r db
unfolding swapped_db
swapped_db_lem o g r db = rw (swapped_rows g r db.bookings, settled_rows o db.swap_offers) refl

module _ (env : Env) (offer_id receiver_user_id : ℕ) (db : Db) where
  -- The bookings `g` and `r` that the pending offer `o` names have changed owners.
  pub record IsSwapped (o : SwapOffer) (g r : Booking)
      (out : Outcome AcceptSwapOfferResult × Session) : Type 0 where
    pub done : swap_done out.0 ≡ true
    pub committed : out.1.committed ≡ swapped_db o g r db
    pub exchanged : out.1.committed ≡ after_swap o g r db
    pub offer : select (has_swap_offer_id offer_id) db.swap_offers ≡ o ∷ []
    pub is_open : is_pending o.status ≡ true
    pub caller : o.receiver_user_id ≡ receiver_user_id
    pub given : select (is_given o) db.bookings ≡ g ∷ []
    pub wanted : select (is_wanted o) db.bookings ≡ r ∷ []
    pub future : (env.now < combine g.date g.hour) × (env.now < combine r.date r.hour)

  pub record IsKept (out : Outcome AcceptSwapOfferResult × Session) : Type 0 where
    pub done : swap_done out.0 ≡ false
    pub bookings : out.1.committed.bookings ≡ db.bookings
    pub next_booking_id : out.1.committed.next_booking_id ≡ db.next_booking_id
    pub users : out.1.committed.users ≡ db.users

  abbrev pub SwapEnds : Outcome AcceptSwapOfferResult × Session → Type 0
  SwapEnds out =
      ((o : SwapOffer) × (g : Booking) × (r : Booking) × IsSwapped o g r out) ⊎ IsKept out

  cancel_swap-IsKept : (o : SwapOffer) → IsKept (cancel_swap o (fresh_session db))
  unfolding cancel_swap
  cancel_swap-IsKept o = ground arith

  module _ (v : IsConsistent db) (o : SwapOffer) (caller : o.receiver_user_id ≡ receiver_user_id)
      (offer : select (has_swap_offer_id offer_id) db.swap_offers ≡ o ∷ [])
      (is_open : is_pending o.status ≡ true) where
    complete_swap_lem :
        (g r : Booking)
        → let (out, s) = complete_swap o g r (fresh_session db) in
          (swap_done out ≡ true) × (s.committed ≡ swapped_db o g r db)
    unfolding complete_swap swapped_db
    complete_swap_lem g r =
        ground (arith, scalar_cases (has_user_id g.user_id) db.users (v.users_ok g.user_id))

    swap_bookings-SwapEnds :
        (g r : Booking)
        → select (is_given o) db.bookings ≡ g ∷ []
        → select (is_wanted o) db.bookings ≡ r ∷ []
        → SwapEnds (swap_bookings env o (some g) (some r) (fresh_session db))
    unfolding swap_bookings slot_start
    swap_bookings-SwapEnds g r eg er =
        elim (Bool-cases (
          (ltb g.hour 24 && ltb env.now (combine g.date g.hour))
          && (ltb r.hour 24 && ltb env.now (combine r.date r.hour)))) [
            | inr late ↦ inr (ground (arith, cancel_swap-IsKept o))
            | inl future ↦ inl (
              o,
              g,
              r,
              record {
                done = ground (arith, complete_swap_lem g r);
                committed = ground (arith, complete_swap_lem g r);
                exchanged = ground (arith, complete_swap_lem g r, swapped_db_lem o g r db);
                offer = offer;
                is_open = is_open;
                caller = caller;
                given = eg;
                wanted = er;
                future = ground arith;
              },
            )
          ]

  accept_swap_bookings :
      (o : SwapOffer) (g r : Booking)
      → select (has_swap_offer_id offer_id) db.swap_offers ≡ o ∷ []
      → is_pending o.status ≡ true
      → o.receiver_user_id ≡ receiver_user_id
      → select (is_given o) db.bookings ≡ g ∷ []
      → select (is_wanted o) db.bookings ≡ r ∷ []
      → accept_swap_offer env offer_id receiver_user_id (fresh_session db)
        ≡ swap_bookings env o (some g) (some r) (fresh_session db)
  unfolding accept_swap_offer
  accept_swap_bookings o g r eo is_open caller eg er = ground arith

  -- On consistent tables, a swap that succeeds is one of a pending offer to the caller whose two
  -- bookings are both in the future. It commits each of the two bookings with the other's user and
  -- its reminders cleared, the offer as accepted, and the other pending offers of the two slots as
  -- cancelled; nothing else changes. Any other end, an exception included, leaves bookings and users
  -- as they were.
  pub accept_swap_offer_lem :
      IsConsistent db
      → SwapEnds (accept_swap_offer env offer_id receiver_user_id (fresh_session db))
  unfolding accept_swap_offer swap_bookings
  accept_swap_offer_lem v =
      elim (scalar_cases (has_swap_offer_id offer_id) db.swap_offers
        (v.swap_offers_ok.key offer_id)) [
          | inl nothing ↦ inr (ground arith)
          | inr (o, eo, _) ↦
              elim (Bool-cases (is_pending o.status && o.receiver_user_id == receiver_user_id)) [
                | inr closed ↦ inr (ground arith)
                | inl is_open ↦ elim (scalar_cases (is_given o) db.bookings (one_given o)) [
                  | inl gone ↦ elim (scalar_cases (is_wanted o) db.bookings (one_wanted o)) [
                    | inl gone_too ↦ inr (ground (arith, cancel_swap-IsKept o))
                    | inr (r, er, _) ↦ inr (ground (arith, cancel_swap-IsKept o))
                  ]
                  | inr (g, eg, _) ↦ elim (scalar_cases (is_wanted o) db.bookings (one_wanted o)) [
                    | inl gone ↦ inr (ground (arith, cancel_swap-IsKept o))
                    | inr (r, er, _) ↦
                        let caller : o.receiver_user_id ≡ receiver_user_id = ground arith in
                        let pend : is_pending o.status ≡ true = ground arith in
                        rw (accept_swap_bookings o g r eo pend caller eg er)
                          (swap_bookings-SwapEnds v o caller eo pend g r eg er)
                  ]
                ]
              ]
        ]
    where
      one_given : (o : SwapOffer) → count_rows (is_given o) db.bookings ≤ 1
      one_given o =
          count_rows_unique _ (at_slot o.give_date o.give_hour) db.bookings (λ x e. ground arith)
            (v.bookings_ok.slot_unique o.give_date o.give_hour)

      one_wanted : (o : SwapOffer) → count_rows (is_wanted o) db.bookings ≤ 1
      one_wanted o =
          count_rows_unique _ (at_slot o.want_date o.want_hour) db.bookings (λ x e. ground arith)
            (v.bookings_ok.slot_unique o.want_date o.want_hour)
