-- ===== src/Warnings/Bans.antt =====
-- The length of a ban and the moment it ends: the pure part of app/services/warning_service.py.
use Prim.Native.Nat.{min, max}
use music_room_bot.Prelude.{
  ℕ, ◌+◌, ◌-◌, ◌*◌, ◌/◌, ◌%◌, List, [], ◌∷◌, ltb, leb, if◌then◌else◌, get_or,
}
use music_room_bot.Session.{value_error, Outcome, ok, raised, Civil, Env}
use music_room_bot.Time.{day_us, date_of, combine}

abbrev pub max_warnings : ℕ
max_warnings = 3

-- `BAN_DURATIONS_MONTHS`
abbrev pub ban_durations_months : List ℕ
ban_durations_months = 1 ∷ 3 ∷ 6 ∷ []

unfoldable pub ban_duration_months : ℕ → ℕ
ban_duration_months ban_count = get_or ban_durations_months (min (max ban_count 1) 3 - 1) 0

-- The month and the day that `_add_months` computes.
unfoldable pub add_months_civil : Env → Civil → ℕ → Civil
add_months_civil env value months =
    let month_index = value.month - 1 + months in
    let year = value.year + month_index / 12 in
    let month = month_index % 12 + 1 in
    record { year = year; month = month; day = min value.day (env.month_length year month) }

-- `datetime.replace` raises for a year after 9999.
unfoldable pub add_months : Env → ℕ → ℕ → Outcome ℕ
unfolding add_months_civil
add_months env value months =
    let c = add_months_civil env (env.civil (date_of value)) months in
    if ltb 9999 c.year
    then raised value_error
    else ok (env.ordinal c.year c.month c.day * day_us + value % day_us)

unfoldable pub effective_unban_at : ℕ → ℕ
effective_unban_at banned_until =
    let midnight = combine (date_of banned_until) 0 in
    if leb banned_until midnight then midnight else midnight + day_us
