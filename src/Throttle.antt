-- ===== src/Throttle.antt =====
-- app/core/rate_limit.py: the cooldown of the handlers that start a booking, for each user and in
-- the process's memory. A time of the monotonic clock is a number of ticks. The lock around the
-- dictionary makes each call run as a whole.
pub mod Cooldown
use music_room_bot.Prelude.{
  ℕ, ◌+◌, ◌*◌, Bool, true, false, Option, none, some, List, [], ◌∷◌, ltb, ◌==◌, if◌then◌else◌,
  length,
}

abbrev pub LastSeen : Type 0
LastSeen = List (ℕ × ℕ)

-- `_last_seen.get`
abbrev pub last_seen : ℕ → LastSeen → Option ℕ
last_seen u [] = none
last_seen u ((v, t) ∷ r) = if v == u then some t else last_seen u r

-- `_last_seen[user_tg_id] = now`
abbrev pub note_seen : ℕ → ℕ → LastSeen → LastSeen
note_seen u now [] = (u, now) ∷ []
note_seen u now ((v, t) ∷ r) = if v == u then (v, now) ∷ r else (v, t) ∷ note_seen u now r

-- The entries that are not older than the cutoff, `now - cooldown * 10`.
abbrev pub keep_recent : ℕ → ℕ → LastSeen → LastSeen
keep_recent now cooldown [] = []
keep_recent now cooldown ((v, t) ∷ r) =
    if ltb (t + cooldown * 10) now
    then keep_recent now cooldown r
    else (v, t) ∷ keep_recent now cooldown r

abbrev pub clean_up : ℕ → ℕ → LastSeen → LastSeen
clean_up now cooldown seen = if ltb 50000 (length seen) then keep_recent now cooldown seen else seen

-- `(now - last) < cooldown`
abbrev pub is_too_soon : ℕ → ℕ → Option ℕ → Bool
is_too_soon now cooldown none = false
is_too_soon now cooldown (some last) = ltb now (last + cooldown)

unfoldable pub allow_booking_start : ℕ → ℕ → ℕ → LastSeen → Bool × LastSeen
allow_booking_start cooldown now user_tg_id seen =
    if cooldown == 0
    then (true, seen)
    else if is_too_soon now cooldown (last_seen user_tg_id seen)
    then (false, seen)
    else (true, clean_up now cooldown (note_seen user_tg_id now seen))
