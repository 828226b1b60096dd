-- ===== src/Tests.antt =====
-- A small club with its tables, at which the theorems are applied. It is 10:00 on Monday, day 701.
mod Requests
mod Offers
mod Members
mod Loans
mod Rehearsals
mod Notices
mod Sessions
mod Checks
mod Accounts
mod Options
mod Throttles
use music_room_bot.Prelude.{
  ℕ, ◌+◌, ◌-◌, ◌*◌, ◌/◌, ◌%◌, ◌≡◌, refl, true, false, none, some, [], ◌∷◌, arith, ◌==◌, pos, negsuc,
}
use music_room_bot.Bookings.Create.Limits.{IsWithinLimit}
use music_room_bot.Db.{User, Booking, pending, GiftOffer, SwapOffer, WeeklySlot, Db}
use music_room_bot.Db.Invariant.{IsConsistent}
use music_room_bot.Limits.{weekly_limit_value, count_user_bookings_in_week}
use music_room_bot.Prelude.Rows.{count_rows}
use music_room_bot.Session.{int_value, Env}
use music_room_bot.Time.{weekday, combine}

abbrev pub ten_oclock : ℕ
ten_oclock = combine 701 10

-- A calendar whose months have 31 days, and a Telegram that takes every message.
abbrev pub env : Env
env = record {
  now = ten_oclock;
  weekly_limit = int_value (pos 2);
  member_chat_id = some (negsuc 99);
  member_topic_id = none;
  warning_chat_id = none;
  admin_chat_id = some (negsuc 49);
  int_of_text = λ t. none;
  is_space = λ c. c == 32;
  lower = λ t. t;
  civil = λ d. record { year = d / 372 + 1; month = d % 372 / 31 + 1; day = d % 31 + 1 };
  ordinal = λ y m d. (y - 1) * 372 + (m - 1) * 31 + (d - 1);
  month_length = λ y m. 31;
  lock_digest = λ u w. u * 100000 + w;
  delivers = λ n. true;
  rejects = λ n. false;
}

abbrev pub ann : User
ann = record {
  id = 1;
  tg_user_id = some 100;
  tg_username = some (65 ∷ 110 ∷ []);
  full_name = none;
  allowed = true;
  warnings = 2;
  banned = false;
  ban_reason = none;
  ban_count = 0;
  banned_until = none;
}

abbrev pub bob : User
bob = record ann { id = 2; tg_user_id = some 200; tg_username = some (66 ∷ 111 ∷ []); warnings = 0 }

abbrev pub cid : User
cid = record bob {
  id = 3;
  tg_user_id = none;
  tg_username = none;
  banned = true;
  ban_reason = some "Reached 3 warnings";
  ban_count = 1;
  banned_until = some (combine 700 12);
}

abbrev pub tuesday_noon : Booking
tuesday_noon = record {
  id = 1;
  user_id = 1;
  date = 702;
  hour = 12;
  is_weekly = false;
  booking_source = "regular";
  assigned_at = combine 700 9;
  created_at = combine 700 9;
  location_prompted = false;
  absence_reported = false;
  attendance_verified = false;
  attendance_lat = none;
  attendance_lon = none;
  attendance_recorded_at = none;
  reminded_hourly_at = none;
  reminded_15_at = none;
}

abbrev pub wednesday_three : Booking
wednesday_three = record tuesday_noon { id = 2; user_id = 2; date = 703; hour = 15 }

abbrev pub last_week : Booking
last_week = record wednesday_three { id = 3; date = 696; hour = 9 }

abbrev pub gift : GiftOffer
gift = record {
  id = 1;
  booking_id = 1;
  giver_user_id = 1;
  recipient_user_id = 2;
  status = pending;
  created_at = combine 700 9;
  responded_at = none;
}

abbrev pub swap : SwapOffer
swap = record {
  id = 1;
  giver_user_id = 1;
  receiver_user_id = 2;
  give_date = 702;
  give_hour = 12;
  want_date = 703;
  want_hour = 15;
  status = pending;
  created_at = combine 700 9;
}

abbrev pub friday_six : WeeklySlot
friday_six = record { id = 1; weekday = 4; hour = 18; group_name = []; club_id = some 1 }

abbrev pub db : Db
db = record {
  users = ann ∷ bob ∷ cid ∷ [];
  next_user_id = 4;
  admins = record { id = 1; tg_user_id = 200; tg_username = none } ∷ [];
  next_admin_id = 2;
  configs = [];
  bookings = tuesday_noon ∷ wednesday_three ∷ last_week ∷ [];
  next_booking_id = 4;
  gift_offers = gift ∷ [];
  next_gift_offer_id = 2;
  swap_offers = swap ∷ [];
  next_swap_offer_id = 2;
  weekly_slots = friday_six ∷ [];
  next_weekly_slot_id = 2;
  clubs = record { id = 1; name = 67 ∷ []; created_at = 0 } ∷ [];
  club_leaders = record { id = 1; club_id = some 1; user_id = 1 } ∷ [];
  next_club_leader_id = 2;
  cancellations = [];
  next_cancellation_id = 1;
}

pub db-IsConsistent : IsConsistent db
unfolding count_rows
db-IsConsistent = record {
  bookings_ok = record {
    keyed = record { key = λ i. ground arith; fresh = λ i h. ground arith };
    slot_unique = λ d h. ground arith;
    started = omega arith;
  };
  weekly_ok = record {
    weekly_unique = λ w h. ground arith;
    weekly_key = λ i. ground arith;
    cancellation_unique = λ i d. ground arith;
  };
  users_ok = λ i. ground arith;
  gift_offers_ok = record { key = λ i. ground arith; fresh = λ i h. ground arith };
  swap_offers_ok = record { key = λ i. ground arith; fresh = λ i h. ground arith };
}

pub limit_is_two : weekly_limit_value env ≡ pos 2
unfolding weekly_limit_value
limit_is_two = refl

pub db-IsWithinLimit : IsWithinLimit 2 db
unfolding count_user_bookings_in_week count_rows
db-IsWithinLimit user_id monday m = ground arith
