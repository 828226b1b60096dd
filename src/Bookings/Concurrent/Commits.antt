-- ===== src/Bookings/Concurrent/Commits.antt =====
-- Sessions of `_safe_create_booking` of app/services/booking_service.py at once: commits, deletions
-- by other transactions, and every reachable state.
use mathlib.Core.Path.{ap₂}
use music_room_bot.Prelude.{
  ℕ, ◌+◌, ◌≤◌, ◌<◌, ◌≡◌, refl, ap, inl, inr, Bool, some, ◌∷◌, arith, ◌==◌, pos, Bool-cases,
}
use music_room_bot.Bookings.Cancel.{delete_bookings}
use music_room_bot.Bookings.Concurrent.{
  Request, Phase, idle, asked, locking, allowed_in, inserted, key_of, held, week_count, System, put,
  commit_row, Step, ask, take_lock, refuse_limit, pass_limit, insert_row, violate, commit_booking,
  abandon, delete_others, quiet, Reach, at_first, and_then,
}
use music_room_bot.Bookings.Concurrent.Laws.{
  MayInsert, Inv, put-idle, put-asked, put-locking, put-allowed_in, put-inserted,
}
use music_room_bot.Bookings.Create.{new_booking}
use music_room_bot.Bookings.Create.Limits.{IsWithinLimit}
use music_room_bot.Db.{Booking, Db, at_slot, in_user_week}
use music_room_bot.Limits.{weekly_limit_value, user_week_lock_key, count_user_bookings_in_week}
use music_room_bot.Prelude.Rows.{count_rows, count_rows-delete_rows-le}
use music_room_bot.Session.{Env}
use music_room_bot.Time.{start_and_end_of_week}
use music_room_bot.Time.Laws.{same_week_lem}

-- A row in the week of another request for the same user asks for the same lock.
same_key :
    (env : Env) (r t : Request)
    → 0 < t.b_date
    → r.user_id ≡ t.user_id
    → (start_and_end_of_week t.b_date).0 ≤ r.b_date
    → r.b_date < (start_and_end_of_week t.b_date).1
    → key_of env r ≡ key_of env t
same_key env r t p e low high =
    ap₂ (user_week_lock_key env) e (ap (λ w. w.0) (same_week_lem t.b_date r.b_date p low high))

module _ (env : Env) (most : ℕ) (s : System) (v : Inv env most s) where
  module _ (i : ℕ) (r : Request) (new_id : ℕ) (at : s.phase i ≡ inserted r new_id) where
    abbrev row : Booking
    row = new_booking env r.user_id r.b_date r.b_hour r.source new_id

    -- No other session that holds a lock counts the new row in its week.
    uncounted :
        (j : ℕ) (t : Request)
        → ((i ≡ j) → ⊥)
        → held env (s.phase j) ≡ some (key_of env t)
        → 0 < t.b_date
        → week_count t (commit_row row s.committed) ≡ week_count t s.committed
    unfolding count_user_bookings_in_week count_rows new_booking
    uncounted j t other holds p =
        ground (arith, same_key env r t p, v.exclusive i j (key_of env t), at)

    kept :
        (j : ℕ) (p : Phase)
        → ((i ≡ j) → ⊥)
        → s.phase j ≡ p
        → MayInsert most p s.committed
        → MayInsert most p (commit_row row s.committed)
    unfolding count_rows new_booking
    kept j idle other e m = tt
    kept j (asked t) other e m = m
    kept j (locking t) other e m = m
    kept j (allowed_in t) other e m = (m.0, rw (uncounted j t other (ap (held env) e) m.0) m.1)
    kept j (inserted t k) other e m = (
      m.0,
      rw (uncounted j t other (ap (held env) e) m.0) m.1,
      ground (arith, m.2, v.distinct i j t.b_date t.b_hour, at, e),
    )

    commit_booking-within : IsWithinLimit most (commit_row row s.committed)
    unfolding count_user_bookings_in_week count_rows new_booking start_and_end_of_week
    commit_booking-within u w mon = ground (arith, v.within u w mon, v.may i, at)

    commit_booking-slots : (d h : ℕ) → count_rows (at_slot d h) (row ∷ s.committed.bookings) ≤ 1
    unfolding count_rows new_booking
    commit_booking-slots d h = ground (arith, v.slots d h, v.may i, at)

    commit_booking-Inv :
        Inv env most (record { committed = commit_row row s.committed; phase = put i idle s.phase })
    commit_booking-Inv = record {
      within = commit_booking-within;
      slots = commit_booking-slots;
      exclusive = λ a b k p q. ground (arith, v.exclusive a b k);
      may = λ j. elim (Bool-cases (i == j)) [
        | inl same ↦ rw same tt
        | inr other ↦ rw other (kept j (s.phase j) (λ e. ground (arith, e)) refl (v.may j))
      ];
      distinct = λ a b d h p q. ground (arith, v.distinct a b d h);
    }

  delete-week_count :
      (has_key : ℕ → Bool) (u start end : ℕ)
      → count_user_bookings_in_week u start end (delete_bookings has_key s.committed)
        ≤ count_user_bookings_in_week u start end s.committed
  unfolding count_user_bookings_in_week
  delete-week_count has_key u start end =
      count_rows-delete_rows-le (in_user_week u start end) (λ b. has_key b.id) s.committed.bookings

  delete-MayInsert :
      (has_key : ℕ → Bool) (p : Phase)
      → MayInsert most p s.committed
      → MayInsert most p (delete_bookings has_key s.committed)
  delete-MayInsert has_key idle m = tt
  delete-MayInsert has_key (asked t) m = m
  delete-MayInsert has_key (locking t) m = m
  delete-MayInsert has_key (allowed_in t) m =
      let (start, end) = start_and_end_of_week t.b_date in
      (m.0, omega (arith, m.1, delete-week_count has_key t.user_id start end))
  delete-MayInsert has_key (inserted t k) m =
      let (start, end) = start_and_end_of_week t.b_date in
      (
        m.0,
        omega (arith, m.1, delete-week_count has_key t.user_id start end),
        omega (
          arith,
          m.2,
          count_rows-delete_rows-le (at_slot t.b_date t.b_hour) (λ b. has_key b.id)
              s.committed.bookings,
        ),
      )

  delete_others-Inv :
      (has_key : ℕ → Bool)
      → Inv env most (record s { committed = delete_bookings has_key s.committed })
  delete_others-Inv has_key = record {
    within = λ u w mon. omega (arith, v.within u w mon, delete-week_count has_key u w (w + 7));
    slots = λ d h. omega (
      arith,
      v.slots d h,
      count_rows-delete_rows-le (at_slot d h) (λ b. has_key b.id) s.committed.bookings,
    );
    exclusive = v.exclusive;
    may = λ j. delete-MayInsert has_key (s.phase j) (v.may j);
    distinct = v.distinct;
  }

module _ (env : Env) (most : ℕ) (limit_is : weekly_limit_value env ≡ pos most) where
  Step-Inv : {s t : System} → Step env s t → Inv env most s → Inv env most t
  Step-Inv {s} (ask i r at day free) v = put-asked env most limit_is s v i r day
  Step-Inv {s} (take_lock i r at free) v = put-locking env most limit_is s v i r at free
  Step-Inv {s} (refuse_limit i r at full) v = put-idle env most limit_is s v i
  Step-Inv {s} (pass_limit i r at room) v = put-allowed_in env most limit_is s v i r at room
  Step-Inv {s} (insert_row i r at fits alone) v =
      put-inserted env most limit_is s v i r at fits alone
  Step-Inv {s} (violate i r at refused) v = put-idle env most limit_is s v i
  Step-Inv {s} (commit_booking i r new_id at) v = commit_booking-Inv env most s v i r new_id at
  Step-Inv {s} (abandon i) v = put-idle env most limit_is s v i
  Step-Inv {s} (delete_others has_key) v = delete_others-Inv env most s v has_key

  module _ (db : Db) (within : IsWithinLimit most db)
      (slots : (d h : ℕ) → count_rows (at_slot d h) db.bookings ≤ 1) where
    quiet-Inv : Inv env most (quiet db)
    quiet-Inv = record {
      within = within;
      slots = slots;
      exclusive = λ i j k p q. cc;
      may = λ i. tt;
      distinct = λ i j d h p q. cc;
    }

    Reach-Inv : {s : System} → Reach env db s → Inv env most s
    Reach-Inv at_first = quiet-Inv
    Reach-Inv (and_then run step) = Step-Inv step (Reach-Inv run)

    -- From tables where every user is within the weekly limit, a natural number, and no slot has
    -- two bookings: however the statements of any number of booking requests and the deletions of
    -- other transactions interleave, the committed tables keep every user within the limit and
    -- every slot to one booking, and two sessions never hold the same user's lock for a week.
    pub Reach-IsWithinLimit :
        {s : System}
        → Reach env db s
        → IsWithinLimit most s.committed
          × ((d h : ℕ) → count_rows (at_slot d h) s.committed.bookings ≤ 1)
          × ((i j k : ℕ) → held env (s.phase i) ≡ some k → held env (s.phase j) ≡ some k → i ≡ j)
    Reach-IsWithinLimit run = let v = Reach-Inv run in (v.within, v.slots, v.exclusive)
