-- ===== src/Users/Deletion.antt =====
-- `delete_user_by_username` of app/services/admin_user_commands.py.
use music_room_bot.Prelude.{
  ℕ, ◌≤◌, ◌≡◌, refl, inl, inr, Bool, true, not, ◌&&◌, ◌||◌, some, List, [], ◌∷◌, arith, ◌==◌,
  if◌then◌else◌, Bool-cases, Text,
}
use music_room_bot.Db.{User, Booking, Db, has_booking_id, owned_by}
use music_room_bot.Prelude.Members.{
  Member, is_head, in_tail, Member-pos, Member-unique, count_rows-Member, Member-delete_rows,
}
use music_room_bot.Prelude.Rows.{count_rows, delete_rows, count_rows_congr}
use music_room_bot.Prelude.Updates.{only_row}
use music_room_bot.Session.{integrity_error, ok, raised, Env, fresh_session}
use music_room_bot.Users.{gives_or_gets_gift, gives_or_gets_swap, without_user, delete_user}
use music_room_bot.Users.Access.{
  get_user_by_username, without_bookings_of, delete_known, delete_user_by_username,
}

module _ (user_id : ℕ) (db : Db) where
  -- No booking of the user is left.
  none_owned : count_rows (owned_by user_id) (without_bookings_of user_id db).bookings ≡ 0
  none_owned =
      count_rows-Member (owned_by user_id) (without_bookings_of user_id db).bookings (λ b m.
        let (row, kept) = Member-delete_rows _ db.bookings b m in
        elim (Bool-cases (owned_by user_id b)) [
          | inl mine ↦ ground (
            arith,
            mine,
            kept,
            Member-pos (λ c. c.id == b.id && c.user_id == user_id) db.bookings b row
                (ground (arith, mine)),
          )
          | inr other ↦ other
        ])

abbrev pub has_cancelled : ℕ → Db → Bool
has_cancelled user_id db =
    not (count_rows (λ c. c.cancelled_by_user_id == user_id) db.cancellations == 0)

abbrev deleted : ℕ → Db → Db
deleted user_id db = without_user user_id (without_bookings_of user_id db)

-- Deletion by one test and then by another.
delete_twice {ℓ} :
    {A : Type ℓ} (p q both : A → Bool) (xs : List A)
    → ((x : A) → both x ≡ (p x || q x))
    → delete_rows p (delete_rows q xs) ≡ delete_rows both xs
unfolding delete_rows
delete_twice p q both [] h = refl
delete_twice p q both (x ∷ xs) h = ground (arith, h x, delete_twice p q both xs h)

delete_rows_members {ℓ} :
    {A : Type ℓ} (p q : A → Bool) (xs : List A)
    → ((x : A) → Member x xs → p x ≡ q x)
    → delete_rows p xs ≡ delete_rows q xs
unfolding delete_rows
delete_rows_members p q [] h = refl
delete_rows_members p q (x ∷ xs) h =
    ground (arith, h x (is_head refl), delete_rows_members p q xs (λ y m. h y (in_tail m)))

abbrev pub is_booking_of : ℕ → Db → ℕ → Bool
is_booking_of user_id db i =
    not (count_rows (λ b. b.id == i && b.user_id == user_id) db.bookings == 0)

-- Everything of the user is gone: the row, the bookings, the gift offers given, received, or of the
-- user's bookings, the swap offers given or received, and the roles as leader of a club.
abbrev pub erased : ℕ → Db → Db
erased user_id db = record db {
  users = delete_rows (λ u. u.id == user_id) db.users;
  bookings = delete_rows (λ b. b.user_id == user_id) db.bookings;
  gift_offers =
      delete_rows
        (λ o.
          (o.giver_user_id == user_id || o.recipient_user_id == user_id)
          || is_booking_of user_id db o.booking_id)
        db.gift_offers;
  swap_offers =
      delete_rows (λ o. o.giver_user_id == user_id || o.receiver_user_id == user_id) db.swap_offers;
  club_leaders = delete_rows (λ l. l.user_id == user_id) db.club_leaders;
}

module _ (user_id : ℕ) (db : Db)
    (keys : (i : ℕ) → count_rows (has_booking_id i) db.bookings ≤ 1) where
  booking_owner :
      (b : Booking) → Member b db.bookings → is_booking_of user_id db b.id ≡ owned_by user_id b
  booking_owner b m = elim (Bool-cases (owned_by user_id b)) [
    | inl mine ↦ ground (
      arith,
      mine,
      Member-pos (λ c. c.id == b.id && c.user_id == user_id) db.bookings b m (ground (arith, mine)),
    )
    | inr other ↦ ground (
      arith,
      other,
      only_row (has_booking_id b.id) (λ c. not (owned_by user_id c)) db.bookings b
          (Member-unique (has_booking_id b.id) db.bookings b m (ground arith) (keys b.id))
          (ground arith) (ground (arith, other)),
      count_rows_congr (λ c. c.id == b.id && c.user_id == user_id)
          (λ c. has_booking_id b.id c && not (not (owned_by user_id c))) db.bookings
          (λ c. ground arith),
    )
  ]

  deleted_lem : deleted user_id db ≡ erased user_id db
  deleted_lem =
      rw
        (
          delete_rows_members (λ b. is_booking_of user_id db b.id) (owned_by user_id) db.bookings
              booking_owner,
          delete_twice (gives_or_gets_gift user_id) (λ o. is_booking_of user_id db o.booking_id)
              (λ o. gives_or_gets_gift user_id o || is_booking_of user_id db o.booking_id)
              db.gift_offers (λ x. refl),
          delete_twice (gives_or_gets_swap user_id) (gives_or_gets_swap user_id)
              (gives_or_gets_swap user_id) db.swap_offers (λ x. ground arith),
        )
        refl

-- For a username that finds one user, and with the keys of bookings unique: the deletion commits the
-- tables without the user, the user's bookings, every gift offer that the user gives or gets or that
-- is of one of these bookings, every swap offer of the user, and the roles as leader, and nothing
-- else changes; unless the user has cancelled an occurrence of a club's slot: then IntegrityError is
-- raised and nothing is committed.
pub delete_user_by_username_lem :
    (env : Env) (username : Text) (db : Db) (u : User)
    → ((i : ℕ) → count_rows (has_booking_id i) db.bookings ≤ 1)
    → get_user_by_username env username (fresh_session db) ≡ (ok (some u), fresh_session db)
    → let (r, s) = delete_user_by_username env username (fresh_session db) in
      (r ≡ (if has_cancelled u.id db then raised integrity_error else ok true))
      × (s.committed ≡ (if has_cancelled u.id db then db else erased u.id db))
unfolding delete_user_by_username delete_known delete_user
delete_user_by_username_lem env username db u keys found =
    elim (Bool-cases (has_cancelled u.id db)) [
      | inl stays ↦ (
        ground (arith, found, stays, none_owned u.id db),
        ground (arith, found, stays, none_owned u.id db),
      )
      | inr goes ↦ (
        ground (arith, found, goes, none_owned u.id db),
        ground (arith, found, goes, none_owned u.id db, deleted_lem u.id db keys),
      )
    ]
