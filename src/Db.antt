-- ===== src/Db.antt =====
-- app/models: the rows of the tables, and the database as its tables.
-- Times and dates are the numbers of Time.antt. A float is only stored by the code modelled here,
-- never computed with, so a number names it. `User.warnings` and `User.ban_count` are NOT NULL in
-- the models, which makes `coalesce(…, 0)` and `or 0` on them the identity.
pub mod Invariant
use Prim.Native.String.{String}
use music_room_bot.Prelude.{ℕ, Bool, true, false, ◌&&◌, Option, List, ltb, leb, ◌==◌, Text}

-- app/models/user.py
pub record User : Type 0 where
  pub id : ℕ
  pub tg_user_id : Option ℕ
  pub tg_username : Option Text
  pub full_name : Option Text
  pub allowed : Bool
  pub warnings : ℕ
  pub banned : Bool
  pub ban_reason : Option String
  pub ban_count : ℕ
  pub banned_until : Option ℕ

-- app/models/booking.py
pub record Booking : Type 0 where
  pub id : ℕ
  pub user_id : ℕ
  pub date : ℕ
  pub hour : ℕ
  pub is_weekly : Bool
  pub booking_source : String
  pub assigned_at : ℕ
  pub created_at : ℕ
  pub location_prompted : Bool
  pub absence_reported : Bool
  pub attendance_verified : Bool
  pub attendance_lat : Option ℕ
  pub attendance_lon : Option ℕ
  pub attendance_recorded_at : Option ℕ
  pub reminded_hourly_at : Option ℕ
  pub reminded_15_at : Option ℕ

-- The values of the `status` columns of the two kinds of offers.
pub data OfferStatus : Type 0 where
  pending accepted declined cancelled expired : OfferStatus

abbrev pub is_pending : OfferStatus → Bool
is_pending pending = true
is_pending _ = false

-- app/models/gift_offer.py
pub record GiftOffer : Type 0 where
  pub id : ℕ
  pub booking_id : ℕ
  pub giver_user_id : ℕ
  pub recipient_user_id : ℕ
  pub status : OfferStatus
  pub created_at : ℕ
  pub responded_at : Option ℕ

-- app/models/swap_offer.py
pub record SwapOffer : Type 0 where
  pub id : ℕ
  pub giver_user_id : ℕ
  pub receiver_user_id : ℕ
  pub give_date : ℕ
  pub give_hour : ℕ
  pub want_date : ℕ
  pub want_hour : ℕ
  pub status : OfferStatus
  pub created_at : ℕ

-- app/models/weekly_slot.py
pub record WeeklySlot : Type 0 where
  pub id : ℕ
  pub weekday : ℕ
  pub hour : ℕ
  pub group_name : Text
  pub club_id : Option ℕ

-- app/models/club.py
pub record Club : Type 0 where
  pub id : ℕ
  pub name : Text
  pub created_at : ℕ

pub record ClubLeader : Type 0 where
  pub id : ℕ
  pub club_id : Option ℕ
  pub user_id : ℕ

pub record ClubSlotCancellation : Type 0 where
  pub id : ℕ
  pub club_id : Option ℕ
  pub weekly_slot_id : ℕ
  pub date : ℕ
  pub cancelled_by_user_id : ℕ
  pub cancelled_at : ℕ

-- app/models/admin.py
pub record Admin : Type 0 where
  pub id : ℕ
  pub tg_user_id : ℕ
  pub tg_username : Option Text

-- app/models/config_model.py
pub record Config : Type 0 where
  pub key : Text
  pub value : Text

-- The tables, each with the next value of its primary key's sequence.
pub record Db : Type 0 where
  pub users : List User
  pub next_user_id : ℕ
  pub admins : List Admin
  pub next_admin_id : ℕ
  pub configs : List Config
  pub bookings : List Booking
  pub next_booking_id : ℕ
  pub gift_offers : List GiftOffer
  pub next_gift_offer_id : ℕ
  pub swap_offers : List SwapOffer
  pub next_swap_offer_id : ℕ
  pub weekly_slots : List WeeklySlot
  pub next_weekly_slot_id : ℕ
  pub clubs : List Club
  pub club_leaders : List ClubLeader
  pub next_club_leader_id : ℕ
  pub cancellations : List ClubSlotCancellation
  pub next_cancellation_id : ℕ

-- The conditions of the WHERE clauses that the services share.
abbrev pub has_user_id : ℕ → User → Bool
has_user_id i u = u.id == i

abbrev pub has_booking_id : ℕ → Booking → Bool
has_booking_id i b = b.id == i

abbrev pub owned_by : ℕ → Booking → Bool
owned_by user_id b = b.user_id == user_id

abbrev pub at_slot : ℕ → ℕ → Booking → Bool
at_slot d h b = b.date == d && b.hour == h

-- `date >= start AND date < end`, of one user
abbrev pub in_user_week : ℕ → ℕ → ℕ → Booking → Bool
in_user_week user_id start_week end_week b =
    b.user_id == user_id && (leb start_week b.date && ltb b.date end_week)

abbrev pub has_gift_offer_id : ℕ → GiftOffer → Bool
has_gift_offer_id i o = o.id == i

abbrev pub has_swap_offer_id : ℕ → SwapOffer → Bool
has_swap_offer_id i o = o.id == i

abbrev pub at_weekly_slot : ℕ → ℕ → WeeklySlot → Bool
at_weekly_slot weekday hour w = w.weekday == weekday && w.hour == hour

abbrev pub has_weekly_slot_id : ℕ → WeeklySlot → Bool
has_weekly_slot_id i w = w.id == i

abbrev pub is_cancellation_of : ℕ → ℕ → ClubSlotCancellation → Bool
is_cancellation_of weekly_slot_id date c = c.weekly_slot_id == weekly_slot_id && c.date == date
