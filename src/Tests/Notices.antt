-- ===== src/Tests/Notices.antt =====
-- The theorems on reminders at the sample club: it is 26 hours before Ann's booking on Tuesday.
use music_room_bot.Prelude.{
  ℕ, ◌+◌, ◌*◌, ◌≤◌, ◌<◌, ◌≡◌, refl, ◌↔◌, true, false, ◌&&◌, some, [], ◌∷◌, arith, ◌==◌,
}
use music_room_bot.Prelude.Rows.{select, count_rows}
use music_room_bot.Reminders.{due_slot_start, quarter_us, of_user_on, send_due_reminders}
use music_room_bot.Reminders.Due.{due_slot_start_lem}
use music_room_bot.Reminders.Once.{
  due_notice, reminded, send_due_reminders-sends, send_due_reminders-fails, sent_count,
  send_due_reminders-once,
}
use music_room_bot.Reminders.Sent.{has_booking_before, IsCandidate}
use music_room_bot.Session.{ok, sent, Env, fresh_session}
use music_room_bot.Tests.{ten_oclock, env, ann, tuesday_noon, db, db-IsConsistent}
use music_room_bot.Time.{hour_us, combine}

abbrev a_day_and_two : ℕ
a_day_and_two = 26 * hour_us

abbrev tuesday_at_noon : ℕ
tuesday_at_noon = combine 702 12

is_due : due_slot_start ten_oclock a_day_and_two quarter_us ≡ some tuesday_at_noon
unfolding due_slot_start
is_due = refl

ann-IsCandidate : IsCandidate false tuesday_at_noon db tuesday_noon ann
unfolding select
ann-IsCandidate = record { due_one = refl; owner = refl; reachable = refl }

no_booking_before : has_booking_before db tuesday_noon ≡ false
unfolding count_rows
no_booking_before = refl

-- A Telegram where the user has blocked the bot.
abbrev blocked_env : Env
blocked_env = record env { delivers = λ n. false; rejects = λ n. true }

send_due_reminders-sends_example :
    send_due_reminders env ten_oclock false a_day_and_two quarter_us (fresh_session db) ≡ (
      ok tt,
      record (fresh_session (reminded ten_oclock false tuesday_noon db)) {
        events = sent (due_notice false db tuesday_noon ann) ∷ [];
      },
    )
send_due_reminders-sends_example =
    send_due_reminders-sends env ten_oclock false a_day_and_two quarter_us tuesday_at_noon db
      db-IsConsistent tuesday_noon ann ann-IsCandidate is_due no_booking_before refl

send_due_reminders-fails_example :
    send_due_reminders blocked_env ten_oclock false a_day_and_two quarter_us (fresh_session db)
    ≡ (ok tt, fresh_session (reminded ten_oclock false tuesday_noon db))
send_due_reminders-fails_example =
    send_due_reminders-fails blocked_env ten_oclock false a_day_and_two quarter_us tuesday_at_noon
      db db-IsConsistent tuesday_noon ann ann-IsCandidate is_due no_booking_before refl

send_due_reminders-once_example :
    let first =
      send_due_reminders env ten_oclock false a_day_and_two quarter_us (fresh_session db) in
    sent_count first
      + sent_count (
          send_due_reminders blocked_env ten_oclock false a_day_and_two quarter_us
            (fresh_session first.1.committed))
    ≤ 1
send_due_reminders-once_example =
    send_due_reminders-once env blocked_env ten_oclock ten_oclock false a_day_and_two quarter_us
      tuesday_at_noon db db-IsConsistent is_due is_due

due_slot_start_lem_example :
    (due_slot_start ten_oclock a_day_and_two quarter_us ≡ some tuesday_at_noon) ↔ (
      (tuesday_at_noon ≤ ten_oclock + a_day_and_two)
      × (ten_oclock + a_day_and_two < tuesday_at_noon + quarter_us))
due_slot_start_lem_example =
    due_slot_start_lem ten_oclock a_day_and_two quarter_us tuesday_at_noon (omega arith) refl

booked_at_noon : 1 ≤ count_rows (λ c. of_user_on 1 702 c && c.hour == 12) db.bookings
unfolding count_rows
booked_at_noon = omega arith
