-- ===== src/Db/Invariant.antt =====
-- What the constraints of the schema say of the tables of bookings, users and offers, and that
-- inserting, updating and deleting rows keep it.
use music_room_bot.Prelude.{ℕ, ◌+◌, ◌≤◌, ◌≡◌, Bool, List, ◌∷◌, ◌==◌, arith}
use music_room_bot.Prelude.Rows.{
  count_rows, update_rows, delete_rows, count_rows-update_rows, count_rows-delete_rows-le,
}
use music_room_bot.Db.{
  Booking, Db, has_user_id, has_booking_id, at_slot, has_gift_offer_id, has_swap_offer_id,
  WeeklySlot, ClubSlotCancellation, at_weekly_slot, has_weekly_slot_id, is_cancellation_of,
}

-- A primary key, and a sequence that runs ahead of the keys in use.
module _ {A : Type 0} (has_id : ℕ → A → Bool) where
  pub record IsKeyed (next : ℕ) (rows : List A) : Type 0 where
    pub key : (i : ℕ) → count_rows (has_id i) rows ≤ 1
    pub fresh : (i : ℕ) → next ≤ i → count_rows (has_id i) rows ≡ 0

  -- An update that leaves the keys alone.
  pub update_rows-IsKeyed :
      (q : A → Bool) (f : A → A) (next : ℕ) (rows : List A)
      → ((i : ℕ) (x : A) → has_id i (f x) ≡ has_id i x)
      → IsKeyed next rows
      → IsKeyed next (update_rows q f rows)
  update_rows-IsKeyed q f next rows same v = record {
    key = λ i. omega (arith, v.key i, count_rows-update_rows (has_id i) q f rows (same i));
    fresh = λ i h. omega (arith, v.fresh i h, count_rows-update_rows (has_id i) q f rows (same i));
  }

  pub delete_rows-IsKeyed :
      (q : A → Bool) (next : ℕ) (rows : List A)
      → IsKeyed next rows
      → IsKeyed next (delete_rows q rows)
  delete_rows-IsKeyed q next rows v = record {
    key = λ i. omega (arith, v.key i, count_rows-delete_rows-le (has_id i) q rows);
    fresh = λ i h. omega (arith, v.fresh i h, count_rows-delete_rows-le (has_id i) q rows);
  }

  -- A new row takes the next key.
  pub insert-IsKeyed :
      (x : A) (next : ℕ) (rows : List A)
      → ((i : ℕ) → has_id i x ≡ (next == i))
      → IsKeyed next rows
      → IsKeyed (next + 1) (x ∷ rows)
  unfolding count_rows
  insert-IsKeyed x next rows e v = record {
    key = λ i. ground (arith, e i, v.key i, v.fresh i);
    fresh = λ i h. ground (arith, e i, v.fresh i);
  }

-- `uq_booking_date_hour` and the keys of bookings.
pub record IsBookingTable (next : ℕ) (bookings : List Booking) : Type 0 where
  pub keyed : IsKeyed has_booking_id next bookings
  pub slot_unique : (d h : ℕ) → count_rows (at_slot d h) bookings ≤ 1
  pub started : 1 ≤ next

-- `uq_weekly_weekday_hour` and `uq_club_slot_cancellation_slot_date`.
pub record IsWeeklyTable (slots : List WeeklySlot) (cancellations : List ClubSlotCancellation)
    : Type 0 where
  pub weekly_unique : (w h : ℕ) → count_rows (at_weekly_slot w h) slots ≤ 1
  pub weekly_key : (i : ℕ) → count_rows (has_weekly_slot_id i) slots ≤ 1
  pub cancellation_unique : (i d : ℕ) → count_rows (is_cancellation_of i d) cancellations ≤ 1

pub record IsConsistent (db : Db) : Type 0 where
  pub bookings_ok : IsBookingTable db.next_booking_id db.bookings
  pub weekly_ok : IsWeeklyTable db.weekly_slots db.cancellations
  pub users_ok : (i : ℕ) → count_rows (has_user_id i) db.users ≤ 1
  pub gift_offers_ok : IsKeyed has_gift_offer_id db.next_gift_offer_id db.gift_offers
  pub swap_offers_ok : IsKeyed has_swap_offer_id db.next_swap_offer_id db.swap_offers

-- An update of bookings that moves none in time keeps their table.
pub update_rows-IsBookingTable :
    (q : Booking → Bool) (f : Booking → Booking) (next : ℕ) (bookings : List Booking)
    → ((x : Booking) → ((f x).id ≡ x.id) × ((f x).date ≡ x.date) × ((f x).hour ≡ x.hour))
    → IsBookingTable next bookings
    → IsBookingTable next (update_rows q f bookings)
update_rows-IsBookingTable q f next bookings same v = record {
  keyed = update_rows-IsKeyed has_booking_id q f next bookings (λ i x. rw (same x).0) v.keyed;
  slot_unique = λ d h. omega (
    arith,
    v.slot_unique d h,
    count_rows-update_rows (at_slot d h) q f bookings (λ x. rw ((same x).1, (same x).2)),
  );
  started = v.started;
}

pub delete_rows-IsBookingTable :
    (q : Booking → Bool) (next : ℕ) (bookings : List Booking)
    → IsBookingTable next bookings
    → IsBookingTable next (delete_rows q bookings)
delete_rows-IsBookingTable q next bookings v = record {
  keyed = delete_rows-IsKeyed has_booking_id q next bookings v.keyed;
  slot_unique =
      λ d h. omega (arith, v.slot_unique d h, count_rows-delete_rows-le (at_slot d h) q bookings);
  started = v.started;
}

-- A booking for a slot that is free.
pub insert-IsBookingTable :
    (x : Booking) (next : ℕ) (bookings : List Booking)
    → x.id ≡ next
    → count_rows (at_slot x.date x.hour) bookings ≡ 0
    → IsBookingTable next bookings
    → IsBookingTable (next + 1) (x ∷ bookings)
unfolding count_rows
insert-IsBookingTable x next bookings e free v = record {
  keyed = insert-IsKeyed has_booking_id x next bookings (λ i. rw e) v.keyed;
  slot_unique = λ d h. ground (arith, v.slot_unique d h);
  started = omega arith;
}
