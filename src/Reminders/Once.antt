-- ===== src/Reminders/Once.antt =====
-- What `_send_due_reminders` in app/services/reminder_service.py sends and records, and what a
-- second run sends.
use music_room_bot.Prelude.{
  ℕ, ◌+◌, ◌≤◌, ◌≡◌, refl, ap, ◌∙◌, inl, inr, Bool, true, false, some, [], ◌∷◌, arith, if◌then◌else◌,
  Bool-cases, length,
}
use music_room_bot.Bookings.Gifts.{update_bookings}
use music_room_bot.Db.{User, Booking, Db, has_booking_id}
use music_room_bot.Db.Invariant.{IsConsistent}
use music_room_bot.Prelude.Rows.{
  select, select_none, select_cons, select_count, count_rows-update_row,
}
use music_room_bot.Reminders.{
  due_slot_start, chain_of, mark, is_unreminded, account, mark_reminded, send_reminder, send_each,
  send_due_at, send_due_reminders,
}
use music_room_bot.Reminders.Sent.{
  has_booking_before, IsCandidate, send_due_at_one, send_due_at_cases,
}
use music_room_bot.Session.{Outcome, ok, Notice, reminder, sent, Env, Session, fresh_session}
use music_room_bot.Time.{date_of, hour_of}

abbrev pub due_notice : Bool → Db → Booking → User → Notice
due_notice is_15_min db b u = reminder (account u.tg_user_id) is_15_min b.date (chain_of b u db).1

abbrev pub reminded : ℕ → Bool → Booking → Db → Db
reminded now is_15_min b db = update_bookings (has_booking_id b.id) (mark is_15_min now) db

module _ (env : Env) (now : ℕ) (is_15_min : Bool) (offset grace target : ℕ) (db : Db)
    (v : IsConsistent db) (b : Booking) (u : User) (c : IsCandidate is_15_min target db b u) where
  run_lem :
      due_slot_start now offset grace ≡ some target
      → has_booking_before db b ≡ false
      → send_due_reminders env now is_15_min offset grace (fresh_session db)
        ≡ send_reminder env now is_15_min b u (chain_of b u db).1 (fresh_session db)
  unfolding send_due_reminders
  run_lem due first =
      rw (due, send_due_at_one env now is_15_min target db v.bookings_ok.slot_unique b u c, first)
        refl

  -- A reminder that is due, for a booking that is not marked, of a user with an account who has no
  -- booking in the hour before, is sent if Telegram takes it, and the booking is marked and
  -- committed; nothing else is sent or changed.
  pub send_due_reminders-sends :
      due_slot_start now offset grace ≡ some target
      → has_booking_before db b ≡ false
      → env.delivers (due_notice is_15_min db b u) ≡ true
      → send_due_reminders env now is_15_min offset grace (fresh_session db) ≡ (
        ok tt,
        record (fresh_session (reminded now is_15_min b db)) {
          events = sent (due_notice is_15_min db b u) ∷ [];
        },
      )
  unfolding send_reminder mark_reminded
  send_due_reminders-sends due first taken_in = run_lem due first ∙ rw taken_in refl

  -- A reminder that is due, for a booking that is not marked, of a user with an account who has no
  -- booking in the hour before, and that Telegram does not take, leaves no message; the booking is
  -- marked if the failure is permanent, and nothing changes if it is not.
  pub send_due_reminders-fails :
      due_slot_start now offset grace ≡ some target
      → has_booking_before db b ≡ false
      → env.delivers (due_notice is_15_min db b u) ≡ false
      → send_due_reminders env now is_15_min offset grace (fresh_session db) ≡ (
        ok tt,
        fresh_session
            (if env.rejects (due_notice is_15_min db b u) then reminded now is_15_min b db else db),
      )
  unfolding send_reminder mark_reminded
  send_due_reminders-fails due first failed =
      elim (Bool-cases (env.rejects (due_notice is_15_min db b u))) [
        | inl gone ↦ run_lem due first ∙ rw (failed, gone) refl
        | inr later ↦ run_lem due first ∙ rw (failed, later) refl
      ]

abbrev pub sent_count : Outcome (Unit {0}) × Session → ℕ
sent_count r = length r.1.events

marked_done :
    (is_15_min : Bool) (now d h : ℕ) (b : Booking)
    → is_unreminded is_15_min d h (mark is_15_min now b) ≡ false
marked_done true now d h b = ground arith
marked_done false now d h b = ground arith

module _ (is_15_min : Bool) (target : ℕ) (db : Db) (v : IsConsistent db) where
  at_most_one :
      (env : Env) (now : ℕ)
      → sent_count (send_due_at env now is_15_min (some target) (fresh_session db)) ≤ 1
  unfolding send_reminder mark_reminded
  at_most_one env now =
      elim (send_due_at_cases env now is_15_min target db v.bookings_ok.slot_unique v.users_ok) [
        | inl nothing ↦ rw nothing (omega arith)
        | inr (b, u, c) ↦
            rw (send_due_at_one env now is_15_min target db v.bookings_ok.slot_unique b u c)
              (elim (Bool-cases (has_booking_before db b)) [
                | inl later ↦ rw later (omega arith)
                | inr first ↦ elim (Bool-cases (env.delivers (due_notice is_15_min db b u))) [
                  | inl arrived ↦ rw (first, arrived) (omega arith)
                  | inr failed ↦ elim (Bool-cases (env.rejects (due_notice is_15_min db b u))) [
                    | inl gone ↦ rw (first, failed, gone) (omega arith)
                    | inr again ↦ rw (first, failed, again) (omega arith)
                  ]
                ]
              ])
      ]

  -- No unmarked row is left.
  none_left :
      (now : ℕ) (b : Booking) (u : User)
      → IsCandidate is_15_min target db b u
      → select
          (is_unreminded is_15_min (date_of target) (hour_of target))
          (reminded now is_15_min b db).bookings
        ≡ []
  none_left now b u c =
      let p = is_unreminded is_15_min (date_of target) (hour_of target) in
      select_none p (reminded now is_15_min b db).bookings (
        ground (
          arith,
          count_rows-update_row p p (has_booking_id b.id) (mark is_15_min now) db.bookings b []
              c.due_one,
          v.bookings_ok.keyed.key b.id,
          select_count p db.bookings,
          select_cons p db.bookings b [] c.due_one,
          marked_done is_15_min now (date_of target) (hour_of target) b,
          ap length c.due_one,
        ))

  silent_after :
      (env : Env) (now later : ℕ) (b : Booking) (u : User)
      → IsCandidate is_15_min target db b u
      → send_due_at env later is_15_min (some target) (fresh_session (reminded now is_15_min b db))
        ≡ (ok tt, fresh_session (reminded now is_15_min b db))
  unfolding send_due_at send_each select
  silent_after env now later b u c = rw (none_left now b u c) refl

  both_runs :
      (env env' : Env) (now later : ℕ)
      → let first = send_due_at env now is_15_min (some target) (fresh_session db) in
        sent_count first
          + sent_count
              (send_due_at env' later is_15_min (some target) (fresh_session first.1.committed))
        ≤ 1
  unfolding send_reminder mark_reminded
  both_runs env env' now later =
      elim (send_due_at_cases env now is_15_min target db v.bookings_ok.slot_unique v.users_ok) [
        | inl nothing ↦ rw nothing (omega (arith, at_most_one env' later))
        | inr (b, u, c) ↦
            rw (send_due_at_one env now is_15_min target db v.bookings_ok.slot_unique b u c)
              (elim (Bool-cases (has_booking_before db b)) [
                | inl blocked ↦ rw blocked (omega (arith, at_most_one env' later))
                | inr first ↦ elim (Bool-cases (env.delivers (due_notice is_15_min db b u))) [
                  | inl arrived ↦
                      rw (first, arrived, silent_after env' now later b u c) (omega arith)
                  | inr failed ↦ elim (Bool-cases (env.rejects (due_notice is_15_min db b u))) [
                    | inl gone ↦
                        rw (first, failed, gone, silent_after env' now later b u c) (omega arith)
                    | inr again ↦ rw (first, failed, again) (omega (arith, at_most_one env' later))
                  ]
                ]
              ])
      ]

-- Two runs for the same kind of reminder and the same slot, the second in a new session on what the
-- first has committed, whatever Telegram takes in each of them, send one message at most.
pub send_due_reminders-once :
    (env env' : Env) (now later : ℕ) (is_15_min : Bool) (offset grace target : ℕ) (db : Db)
    → IsConsistent db
    → due_slot_start now offset grace ≡ some target
    → due_slot_start later offset grace ≡ some target
    → let first = send_due_reminders env now is_15_min offset grace (fresh_session db) in
      sent_count first
        + sent_count
            (send_due_reminders env' later is_15_min offset grace (fresh_session first.1.committed))
      ≤ 1
unfolding send_due_reminders
send_due_reminders-once env env' now later is_15_min offset grace target db v due again =
    rw (due, again) (both_runs is_15_min target db v env env' now later)
