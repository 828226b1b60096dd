-- ===== src/Attendance/Current.antt =====
-- `get_current_booking` of app/services/attendance_service.py.
use mathlib.Core.Path.{subst}
use music_room_bot.Prelude.{
  ℕ, ◌+◌, ◌*◌, ◌≤◌, ◌<◌, ◌≡◌, refl, sym, ap, ◌⊎◌, inl, inr, Bool, true, ◌&&◌, Option, none, some,
  List, [], ◌∷◌, arith, ltb, leb, Bool-cases,
}
use music_room_bot.Attendance.{active_of, latest_of, latest, get_current_booking}
use music_room_bot.Db.{Booking}
use music_room_bot.Prelude.Members.{Member, is_head, in_tail, cons_cases, Member-select}
use music_room_bot.Prelude.Rows.{select}
use music_room_bot.Reminders.{of_user_on}
use music_room_bot.Session.{PyError, Outcome, ok, raised, Env, Session, slot_start}
use music_room_bot.Time.{minute_us, date_of, combine}

pub Outcome-cases {ℓ} :
    {A : Type ℓ} (o : Outcome A) → ((a : A) × (o ≡ ok a)) ⊎ ((e : PyError) × (o ≡ raised e))
Outcome-cases (ok a) = inl (a, refl)
Outcome-cases (raised e) = inr (e, refl)

abbrev pub IsRunning : ℕ → ℕ → Booking → Type 0
IsRunning now slot_length b =
    (b.hour < 24)
    × (combine b.date b.hour ≤ now)
    × (now < combine b.date b.hour + slot_length * minute_us)

pub latest_of-Member : (b : Booking) (bs : List Booking) → Member (latest_of b bs) (b ∷ bs)
latest_of-Member b [] = is_head refl
latest_of-Member b (c ∷ cs) = elim (Bool-cases (ltb b.hour c.hour)) [
  | inl later ↦ rw later (in_tail (latest_of-Member c cs))
  | inr not_later ↦ rw not_later (elim (cons_cases (latest_of-Member b cs)) [
    | inl e ↦ is_head e
    | inr m ↦ in_tail (in_tail m)
  ])
]

abbrev is_running : ℕ → ℕ → Booking → Bool
is_running now slot_length b =
    ltb b.hour 24
    && (leb (combine b.date b.hour) now
        && ltb now (combine b.date b.hour + slot_length * minute_us))

active_rows :
    (now slot_length : ℕ) (bs l : List Booking)
    → active_of now slot_length bs ≡ ok l
    → select (is_running now slot_length) bs ≡ l
unfolding active_of slot_start select
active_rows now slot_length [] l e = cc
active_rows now slot_length (b ∷ bs) l e = elim (Outcome-cases (active_of now slot_length bs)) [
  | inl (rest, f) ↦ ground (arith, e, f, active_rows now slot_length bs rest f)
  | inr (x, f) ↦ ground (arith, e, f)
]

latest-Member : (l : List Booking) (b : Booking) → latest l ≡ some b → Member b l
latest-Member [] b e = cc
latest-Member (c ∷ cs) b e =
    let same : latest_of c cs ≡ b = cc in
    subst (λ x. Member x (c ∷ cs)) same (latest_of-Member c cs)

abbrev booking_of : Outcome (Option Booking) × Session → Option Booking
booking_of (ok o, s) = o
booking_of (raised e, s) = none

some_not_none : {b : Booking} → none ≡ some b → ⊥
some_not_none e = cc

-- A booking that is returned is a row of the table, of the user and of today, and has started
-- `slot_length` minutes ago at most.
pub get_current_booking_lem :
    (env : Env) (slot_length user_id : ℕ) (s : Session) (b : Booking)
    → get_current_booking env slot_length user_id s ≡ (ok (some b), s)
    → Member b s.current.bookings
      × (of_user_on user_id (date_of env.now) b ≡ true)
      × IsRunning env.now slot_length b
unfolding get_current_booking
get_current_booking_lem env slot_length user_id s b e =
    let rows = select (of_user_on user_id (date_of env.now)) s.current.bookings in
    elim (Outcome-cases (active_of env.now slot_length rows)) [
      | inl (l, f) ↦
          let chosen : latest l ≡ some b = ap booking_of (rw f at e) in
          let running =
            subst (Member b) (sym (active_rows env.now slot_length rows l f))
              (latest-Member l b chosen) in
          let (listed, timely) = Member-select (is_running env.now slot_length) rows b running in
          let (row, mine) =
            Member-select (of_user_on user_id (date_of env.now)) s.current.bookings b listed in
          (row, mine, (ground (arith, timely), ground (arith, timely), ground (arith, timely)))
      | inr (x, f) ↦ absurd (some_not_none (ap booking_of (rw f at e)))
    ]
