-- ===== src/Swaps/Create.antt =====
-- `create_swap_offer` of app/services/swap_service.py.
pub mod Laws
use music_room_bot.Prelude.{ℕ, ◌+◌, not, ◌||◌, Option, none, some, ◌∷◌, ◌==◌, Text}
use music_room_bot.Bookings.Cancel.{or_text}
use music_room_bot.Db.{User, Booking, pending, Db}
use music_room_bot.Session.{Env, Exec, pure, branch, query, modify, commit, ◌>>=◌, ◌>>◌}
use music_room_bot.Swaps.{
  CreateSwapOfferResult, created_swap, missing_booking, any_past, get_booking, tg_of,
}
use music_room_bot.Warnings.{get_user}

-- `db.add(SwapOffer(…))`
abbrev pub add_swap_offer : Env → Booking → Booking → Db → Db
add_swap_offer env my_b target_b db = record db {
  swap_offers =
      record {
        id = db.next_swap_offer_id;
        giver_user_id = my_b.user_id;
        receiver_user_id = target_b.user_id;
        give_date = my_b.date;
        give_hour = my_b.hour;
        want_date = target_b.date;
        want_hour = target_b.hour;
        status = pending;
        created_at = env.now;
      }
      ∷ db.swap_offers;
  next_swap_offer_id = db.next_swap_offer_id + 1;
}

-- `giver_user.full_name or giver_user.tg_username`
abbrev pub display_name : Option User → Option Text
display_name none = none
display_name (some u) = or_text u.full_name u.tg_username

unfoldable pub offer_swap : Env → Booking → Booking → Exec CreateSwapOfferResult
offer_swap env my_b target_b = do
  offer_id ← query λ db. db.next_swap_offer_id
  modify (add_swap_offer env my_b target_b)
  commit
  receiver_user ← get_user target_b.user_id
  giver_user ← get_user my_b.user_id
  pure (
      created_swap (record {
        offer_id = offer_id;
        receiver_tg_user_id = tg_of receiver_user;
        giver_display_name = display_name giver_user;
        give_date = my_b.date;
        give_hour = my_b.hour;
        want_date = target_b.date;
        want_hour = target_b.hour;
      }))

unfoldable pub offer_bookings :
    Env → ℕ → Option Booking → Option Booking → Exec CreateSwapOfferResult
offer_bookings env giver_user_id none my_b = pure missing_booking
offer_bookings env giver_user_id (some target_b) none = pure missing_booking
offer_bookings env giver_user_id (some target_b) (some my_b) =
    branch (not (my_b.user_id == giver_user_id) || (target_b.user_id == giver_user_id))
      (pure missing_booking)
      do
        late ← any_past env my_b target_b
        branch late (pure missing_booking) (offer_swap env my_b target_b)

unfoldable pub create_swap_offer : Env → ℕ → ℕ → ℕ → Exec CreateSwapOfferResult
create_swap_offer env target_booking_id my_booking_id giver_user_id = do
  target_b ← get_booking target_booking_id
  my_b ← get_booking my_booking_id
  offer_bookings env giver_user_id target_b my_b
