-- ===== src/Reminders.antt =====
-- app/services/reminder_service.py: which slot is due, the chains of consecutive hours, and the
-- reminders sent and recorded. `_send_due_reminders` reads in one session and records each reminder
-- in a session of its own, which commits at once; they are one session here.
pub mod Chains
pub mod Firsts
pub mod Hours
pub mod Due
pub mod Sent
pub mod Once
use music_room_bot.Prelude.{
  ℕ, zero, suc, ◌+◌, ◌-◌, ◌*◌, ◌/◌, Bool, true, false, not, ◌&&◌, ◌||◌, Option, none, some, List,
  [], ◌∷◌, ◌++◌, ltb, leb, ◌==◌, if◌then◌else◌, is_some,
}
use music_room_bot.Bookings.Gifts.{update_bookings}
use music_room_bot.Db.{User, Booking, Db, has_user_id, has_booking_id}
use music_room_bot.Prelude.Rows.{select}
use music_room_bot.Session.{
  reminder, sent, Env, Exec, pure, branch, query, modify, emit, commit, ◌>>=◌, ◌>>◌,
}
use music_room_bot.Time.{minute_us, hour_us, date_of, hour_of}

-- `(now + offset).replace(minute=0, second=0, microsecond=0)`, if it is due.
unfoldable pub due_slot_start : ℕ → ℕ → ℕ → Option ℕ
due_slot_start now offset grace =
    let start = (now + offset) / hour_us * hour_us in
    if ltb (now + offset - start) grace then some start else none

abbrev pub quarter_us : ℕ
quarter_us = 15 * minute_us

abbrev pub Chains : Type 0
Chains = List (ℕ × List ℕ)

-- `chains[start] = current` on a dict in the order of insertion.
abbrev pub set_chain : ℕ → List ℕ → Chains → Chains
set_chain start current [] = (start, current) ∷ []
set_chain start current ((k, v) ∷ r) =
    if k == start then (k, current) ∷ r else (k, v) ∷ set_chain start current r

-- `current[-1]`, of a list that is not empty
abbrev pub last_of : ℕ → List ℕ → ℕ
last_of x [] = x
last_of x (y ∷ ys) = last_of y ys

abbrev pub snoc : List ℕ → ℕ → List ℕ
snoc [] h = h ∷ []
snoc (x ∷ xs) h = x ∷ snoc xs h

-- The loop over `hours_sorted[1:]`.
unfoldable pub chains_from : Chains → ℕ → List ℕ → List ℕ → Chains
chains_from chains start current [] = set_chain start current chains
chains_from chains start current (h ∷ hs) =
    let extended = chains_from chains start (snoc current h) hs in
    let renewed = chains_from (set_chain start current chains) h (h ∷ []) hs in
    if h == last_of start current + 1 then extended else renewed

unfoldable pub build_chain_start_hours : List ℕ → Chains
unfolding chains_from
build_chain_start_hours [] = []
build_chain_start_hours (h ∷ hs) = chains_from [] h (h ∷ []) hs

abbrev pub contains : ℕ → List ℕ → Bool
contains h [] = false
contains h (x ∷ xs) = x == h || contains h xs

-- The first chain with the hour.
abbrev pub chain_with : ℕ → Chains → Option (ℕ × List ℕ)
chain_with h [] = none
chain_with h ((k, v) ∷ r) = if contains h v then some (k, v) else chain_with h r

-- The chain, or the hour alone.
abbrev pub chain_or_hour : ℕ → Option (ℕ × List ℕ) → ℕ × List ℕ
chain_or_hour h none = (h, h ∷ [])
chain_or_hour h (some c) = c

abbrev pub insert_hour : ℕ → List ℕ → List ℕ
insert_hour x [] = x ∷ []
insert_hour x (y ∷ ys) = if leb x y then x ∷ y ∷ ys else y ∷ insert_hour x ys

-- `list.sort`
unfoldable pub sort_hours : List ℕ → List ℕ
sort_hours [] = []
sort_hours (x ∷ xs) = insert_hour x (sort_hours xs)

abbrev pub hour_column : List Booking → List ℕ
hour_column [] = []
hour_column (b ∷ bs) = b.hour ∷ hour_column bs

abbrev pub of_user_on : ℕ → ℕ → Booking → Bool
of_user_on user_id d b = b.date == d && b.user_id == user_id

-- `user_hours.get(user.id, [booking.hour])`, where a user without rows is no key.
abbrev pub hours_or : ℕ → List ℕ → List ℕ
hours_or h [] = h ∷ []
hours_or h (x ∷ xs) = sort_hours (x ∷ xs)

unfoldable pub chain_of : Booking → User → Db → ℕ × List ℕ
chain_of b u db =
    let hours = hours_or b.hour (hour_column (select (of_user_on u.id b.date) db.bookings)) in
    chain_or_hour b.hour (chain_with b.hour (build_chain_start_hours hours))

abbrev pub marker : Bool → Booking → Option ℕ
marker true b = b.reminded_15_at
marker false b = b.reminded_hourly_at

abbrev pub mark : Bool → ℕ → Booking → Booking
mark true sent_at b = record b { reminded_15_at = some sent_at }
mark false sent_at b = record b { reminded_hourly_at = some sent_at }

-- `date == target_date AND hour == target_hour AND marker IS NULL`
abbrev pub is_unreminded : Bool → ℕ → ℕ → Booking → Bool
is_unreminded is_15_min d h b = (b.date == d && b.hour == h) && not (is_some (marker is_15_min b))

-- The join with users.
abbrev pub with_each_user : Booking → List User → List (Booking × User)
with_each_user b [] = []
with_each_user b (u ∷ us) = (b, u) ∷ with_each_user b us

abbrev pub join_users : List Booking → List User → List (Booking × User)
join_users [] users = []
join_users (b ∷ bs) users =
    with_each_user b (select (has_user_id b.user_id) users) ++ join_users bs users

-- `if not user.tg_user_id: continue`
abbrev pub is_account : Option ℕ → Bool
is_account none = false
is_account (some zero) = false
is_account (some (suc n)) = true

abbrev pub has_account : Booking × User → Bool
has_account (b, u) = is_account u.tg_user_id

abbrev pub account : Option ℕ → ℕ
account none = 0
account (some n) = n

-- The set of pairs of a user and a chain's start.
abbrev pub has_sent : ℕ → ℕ → List (ℕ × ℕ) → Bool
has_sent u h [] = false
has_sent u h ((v, k) ∷ r) = (v == u && k == h) || has_sent u h r

unfoldable pub mark_reminded : ℕ → Bool → ℕ → Exec (Unit {0})
mark_reminded booking_id is_15_min sent_at = do
  modify (update_bookings (has_booking_id booking_id) (mark is_15_min sent_at))
  commit

-- The `try` around one message, and what follows it.
unfoldable pub send_reminder : Env → ℕ → Bool → Booking → User → List ℕ → Exec (Unit {0})
send_reminder env now is_15_min b u chain_hours =
    let notice = reminder (account u.tg_user_id) is_15_min b.date chain_hours in
    branch (env.delivers notice) (do emit (sent notice); mark_reminded b.id is_15_min now)
      (branch (env.rejects notice) (mark_reminded b.id is_15_min now) (pure tt))

-- The loop over the candidates; `known` is what the first session read.
unfoldable pub send_each :
    Env → ℕ → Bool → Db → List (Booking × User) → List (ℕ × ℕ) → Exec (Unit {0})
send_each env now is_15_min known [] done = pure tt
send_each env now is_15_min known ((b, u) ∷ rest) done =
    let (chain_start, chain_hours) = chain_of b u known in
    branch (not (chain_start == b.hour) || has_sent u.id chain_start done)
      (send_each env now is_15_min known rest done)
      do
        send_reminder env now is_15_min b u chain_hours
        send_each env now is_15_min known rest ((u.id, chain_start) ∷ done)

unfoldable pub send_due_at : Env → ℕ → Bool → Option ℕ → Exec (Unit {0})
send_due_at env now is_15_min none = pure tt
send_due_at env now is_15_min (some target) = do
  known ← query λ db. db
  let unreminded = is_unreminded is_15_min (date_of target) (hour_of target)
  let rows = join_users (select unreminded known.bookings) known.users
  send_each env now is_15_min known (select has_account rows) []

unfoldable pub send_due_reminders : Env → ℕ → Bool → ℕ → ℕ → Exec (Unit {0})
send_due_reminders env now is_15_min offset grace =
    send_due_at env now is_15_min (due_slot_start now offset grace)

-- `int(reminder_hours or 0)`, a natural number, is an argument.
unfoldable pub process_reminders : Env → ℕ → Exec (Unit {0})
process_reminders env reminder_hours = do
  let now = env.now / minute_us * minute_us
  send_due_reminders env now false (reminder_hours * hour_us) quarter_us
  send_due_reminders env now true quarter_us quarter_us
