-- ===== src/Warnings/Durations.antt =====
-- The durations of bans, the month arithmetic and the midnights of app/services/warning_service.py.
use Prim.Native.Nat.{min, max}
use music_room_bot.Prelude.{ℕ, ◌+◌, ◌-◌, ◌*◌, ◌%◌, ◌≤◌, ◌≡◌, refl, arith}
use music_room_bot.Session.{Civil, Env}
use music_room_bot.Time.{day_us}
use music_room_bot.Warnings.Bans.{ban_duration_months, add_months_civil, effective_unban_at}

-- The first ban lasts one month, the second three, every later one six.
pub ban_duration_months_lem :
    (n : ℕ)
    → (ban_duration_months 1 ≡ 1) × (ban_duration_months 2 ≡ 3) × (ban_duration_months (n + 3) ≡ 6)
unfolding ban_duration_months
ban_duration_months_lem n = (refl, refl, rw (three n) refl)
  where
    three : (n : ℕ) → min (max (n + 3) 1) 3 - 1 ≡ 2
    three n = omega arith

-- From a month from 1 on, adding months moves the month by exactly as many, and keeps the day unless the month is shorter.
pub add_months_civil_lem :
    (env : Env) (c : Civil) (months : ℕ)
    → 1 ≤ c.month
    → let r = add_months_civil env c months in
      (12 * r.year + r.month ≡ 12 * c.year + c.month + months)
      × (1 ≤ r.month)
      × (r.month ≤ 12)
      × (r.day ≤ env.month_length r.year r.month)
      × (c.day ≤ env.month_length r.year r.month → r.day ≡ c.day)
unfolding add_months_civil
add_months_civil_lem env c months h = ground arith

-- A ban is lifted at the first midnight at or after its end.
pub effective_unban_at_lem :
    (t : ℕ)
    → let m = effective_unban_at t in
      (m % day_us ≡ 0) × (t ≤ m) × ((n : ℕ) → n % day_us ≡ 0 → t ≤ n → m ≤ n)
unfolding effective_unban_at
effective_unban_at_lem t = (ground arith, ground arith, λ n e h. ground arith)
