-- ===== src/Reminders/Due.antt =====
-- Which slot is due, and what `_send_due_reminders` of app/services/reminder_service.py sends.
use music_room_bot.Prelude.{ℕ, ◌+◌, ◌%◌, ◌≤◌, ◌<◌, ◌≡◌, ◌↔◌, some, arith}
use music_room_bot.Reminders.{due_slot_start}
use music_room_bot.Time.{hour_us}

-- With a grace of an hour at most, the start of a slot is due exactly from its reminder's time on,
-- for as long as the grace.
pub due_slot_start_lem :
    (now offset grace start : ℕ)
    → grace ≤ hour_us
    → start % hour_us ≡ 0
    → (due_slot_start now offset grace ≡ some start)
      ↔ ((start ≤ now + offset) × (now + offset < start + grace))
unfolding due_slot_start
due_slot_start_lem now offset grace start g s = (λ e. ground arith, λ e. ground arith)
