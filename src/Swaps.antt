-- ===== src/Swaps.antt =====
-- app/services/swap_service.py: offers to exchange two booked slots. Rows that are selected FOR
-- UPDATE are read as they are; the session's isolation is that of its transaction.
pub mod Laws
pub mod Keeps
pub mod Create
use music_room_bot.Prelude.{ℕ, Bool, true, not, ◌&&◌, ◌||◌, Option, none, some, ltb, ◌==◌, Text}
use music_room_bot.Db.{
  User, Booking, OfferStatus, accepted, declined, cancelled, is_pending, SwapOffer, Db,
  has_booking_id, at_slot, has_swap_offer_id,
}
use music_room_bot.Prelude.Rows.{select, update_rows}
use music_room_bot.Session.{
  Env, Exec, pure, lift, branch, query, scalar_one_or_none, modify, commit, slot_start, ◌>>=◌, ◌>>◌,
}
use music_room_bot.Warnings.{get_user}

pub record CreatedSwapOffer : Type 0 where
  pub offer_id : ℕ
  pub receiver_tg_user_id : Option ℕ
  pub giver_display_name : Option Text
  pub give_date : ℕ
  pub give_hour : ℕ
  pub want_date : ℕ
  pub want_hour : ℕ

pub data CreateSwapOfferResult : Type 0 where
  created_swap : CreatedSwapOffer → CreateSwapOfferResult
  missing_booking : CreateSwapOfferResult

pub record AcceptedSwapOffer : Type 0 where
  pub giver_user_id : ℕ
  pub receiver_user_id : ℕ
  pub giver_tg_user_id : Option ℕ
  pub giver_new_date : ℕ
  pub giver_new_hour : ℕ
  pub receiver_new_date : ℕ
  pub receiver_new_hour : ℕ

pub data AcceptSwapOfferResult : Type 0 where
  accepted_swap : AcceptedSwapOffer → AcceptSwapOfferResult
  missing_swap_booking unavailable : AcceptSwapOfferResult

pub record DeclinedSwapOffer : Type 0 where
  pub giver_user_id : ℕ
  pub giver_tg_user_id : Option ℕ
  pub give_date : ℕ
  pub give_hour : ℕ
  pub want_date : ℕ
  pub want_hour : ℕ

pub data DeclineSwapOfferResult : Type 0 where
  declined_swap : DeclinedSwapOffer → DeclineSwapOfferResult
  unavailable_offer : DeclineSwapOfferResult

-- `_is_future_slot`, which raises as `slot_start` does.
abbrev pub future_slot : Env → ℕ → ℕ → Exec Bool
future_slot env slot_date slot_hour = do
  slot_dt ← lift (slot_start slot_date slot_hour)
  pure (ltb env.now slot_dt)

-- `not _is_future_slot(a) or not _is_future_slot(b)`, the second not evaluated after a first false.
abbrev pub any_past : Env → Booking → Booking → Exec Bool
any_past env a b = do
  first ← future_slot env a.date a.hour
  branch (not first) (pure true) do second ← future_slot env b.date b.hour; pure (not second)

-- `db.get`
abbrev pub get_booking : ℕ → Exec (Option Booking)
get_booking booking_id = do
  rows ← query λ db. select (has_booking_id booking_id) db.bookings
  scalar_one_or_none rows

abbrev pub update_swap_offers : (SwapOffer → Bool) → (SwapOffer → SwapOffer) → Db → Db
update_swap_offers p f db = record db { swap_offers = update_rows p f db.swap_offers }

abbrev pub set_swap_status : OfferStatus → SwapOffer → SwapOffer
set_swap_status status o = record o { status = status }

-- The bookings that an offer names: of the giver at the slot given, and of the receiver at the
-- slot wanted.
abbrev pub is_given : SwapOffer → Booking → Bool
is_given o b = b.user_id == o.giver_user_id && at_slot o.give_date o.give_hour b

abbrev pub is_wanted : SwapOffer → Booking → Bool
is_wanted o b = b.user_id == o.receiver_user_id && at_slot o.want_date o.want_hour b

-- The new owner of a swapped booking; its reminders are due again.
abbrev pub swap_owner : ℕ → Booking → Booking
swap_owner user_id b = record b {
  user_id = user_id;
  reminded_hourly_at = none;
  reminded_15_at = none;
}

abbrev pub gives : ℕ → ℕ → SwapOffer → Bool
gives d h o = o.give_date == d && o.give_hour == h

abbrev pub wants : ℕ → ℕ → SwapOffer → Bool
wants d h o = o.want_date == d && o.want_hour == h

-- The other pending offers that name one of the two slots.
abbrev pub is_superseded : SwapOffer → SwapOffer → Bool
is_superseded offer o =
    not (o.id == offer.id)
    && (is_pending o.status
        && (gives offer.give_date offer.give_hour o
            || (wants offer.give_date offer.give_hour o
                || (gives offer.want_date offer.want_hour o
                    || wants offer.want_date offer.want_hour o))))

-- The writes of a successful acceptance, in the order of the code.
unfoldable pub swapped_db : SwapOffer → Booking → Booking → Db → Db
swapped_db offer giver_b receiver_b db = record db {
  bookings =
      update_rows (has_booking_id receiver_b.id) (swap_owner giver_b.user_id)
        (update_rows (has_booking_id giver_b.id) (swap_owner receiver_b.user_id) db.bookings);
  swap_offers =
      update_rows (is_superseded offer) (set_swap_status cancelled)
        (update_rows (has_swap_offer_id offer.id) (set_swap_status accepted) db.swap_offers);
}

abbrev pub tg_of : Option User → Option ℕ
tg_of none = none
tg_of (some u) = u.tg_user_id

unfoldable pub complete_swap : SwapOffer → Booking → Booking → Exec AcceptSwapOfferResult
complete_swap offer giver_b receiver_b = do
  modify (swapped_db offer giver_b receiver_b)
  commit
  giver_user ← get_user giver_b.user_id
  pure (
      accepted_swap (record {
        giver_user_id = giver_b.user_id;
        receiver_user_id = receiver_b.user_id;
        giver_tg_user_id = tg_of giver_user;
        giver_new_date = receiver_b.date;
        giver_new_hour = receiver_b.hour;
        receiver_new_date = giver_b.date;
        receiver_new_hour = giver_b.hour;
      }))

unfoldable pub cancel_swap : SwapOffer → Exec AcceptSwapOfferResult
cancel_swap offer = do
  modify (update_swap_offers (has_swap_offer_id offer.id) (set_swap_status cancelled))
  commit
  pure missing_swap_booking

unfoldable pub swap_bookings :
    Env → SwapOffer → Option Booking → Option Booking → Exec AcceptSwapOfferResult
swap_bookings env offer none receiver_b = cancel_swap offer
swap_bookings env offer (some giver_b) none = cancel_swap offer
swap_bookings env offer (some giver_b) (some receiver_b) = do
  late ← any_past env giver_b receiver_b
  branch late (cancel_swap offer) (complete_swap offer giver_b receiver_b)

accept_swap : Env → ℕ → Option SwapOffer → Exec AcceptSwapOfferResult
accept_swap env receiver_user_id none = pure unavailable
accept_swap env receiver_user_id (some offer) =
    branch (not (is_pending offer.status)) (pure unavailable) (
      branch (not (offer.receiver_user_id == receiver_user_id)) (pure unavailable) do
        given ← query λ db. select (is_given offer) db.bookings
        giver_b ← scalar_one_or_none given
        wanted ← query λ db. select (is_wanted offer) db.bookings
        receiver_b ← scalar_one_or_none wanted
        swap_bookings env offer giver_b receiver_b)

unfoldable pub accept_swap_offer : Env → ℕ → ℕ → Exec AcceptSwapOfferResult
unfolding accept_swap
accept_swap_offer env offer_id receiver_user_id = do
  rows ← query λ db. select (has_swap_offer_id offer_id) db.swap_offers
  offer ← scalar_one_or_none rows
  accept_swap env receiver_user_id offer

decline_swap : ℕ → Option SwapOffer → Exec DeclineSwapOfferResult
decline_swap receiver_user_id none = pure unavailable_offer
decline_swap receiver_user_id (some offer) =
    branch (not (is_pending offer.status)) (pure unavailable_offer) (
      branch (not (offer.receiver_user_id == receiver_user_id)) (pure unavailable_offer) do
        modify (update_swap_offers (has_swap_offer_id offer.id) (set_swap_status declined))
        giver_user ← get_user offer.giver_user_id
        commit
        pure (
            declined_swap (record {
              giver_user_id = offer.giver_user_id;
              giver_tg_user_id = tg_of giver_user;
              give_date = offer.give_date;
              give_hour = offer.give_hour;
              want_date = offer.want_date;
              want_hour = offer.want_hour;
            })))

-- `after_commit`, a callback of the handlers, runs after everything here.
unfoldable pub decline_swap_offer : ℕ → ℕ → Exec DeclineSwapOfferResult
unfolding decline_swap
decline_swap_offer offer_id receiver_user_id = do
  rows ← query λ db. select (has_swap_offer_id offer_id) db.swap_offers
  offer ← scalar_one_or_none rows
  decline_swap receiver_user_id offer
