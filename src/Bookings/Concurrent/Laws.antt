-- ===== src/Bookings/Concurrent/Laws.antt =====
-- Sessions of `_safe_create_booking` of app/services/booking_service.py at once: the invariant.
use music_room_bot.Prelude.{ℕ, ◌≤◌, ◌<◌, ◌≡◌, ◌≢◌, true, false, some, arith, pos, reaches}
use music_room_bot.Bookings.Concurrent.{
  Request, Phase, idle, asked, locking, allowed_in, inserted, key_of, held, week_count,
  is_inserted_at, System, put, next_key,
}
use music_room_bot.Bookings.Create.{refuses_booking}
use music_room_bot.Bookings.Create.Limits.{IsWithinLimit}
use music_room_bot.Db.{Db, at_slot}
use music_room_bot.Limits.{weekly_limit_value, count_user_bookings_in_week}
use music_room_bot.Prelude.Rows.{count_rows}
use music_room_bot.Session.{Env}

abbrev pub IsFree : ℕ → ℕ → Db → Type 0
IsFree d h db = count_rows (at_slot d h) db.bookings ≡ 0

abbrev pub MayInsert : ℕ → Phase → Db → Type 0
MayInsert most idle db = Unit
MayInsert most (asked r) db = 0 < r.b_date
MayInsert most (locking r) db = 0 < r.b_date
MayInsert most (allowed_in r) db = (0 < r.b_date) × (week_count r db < most)
MayInsert most (inserted r i) db =
    (0 < r.b_date) × (week_count r db < most) × IsFree r.b_date r.b_hour db

pub record Inv (env : Env) (most : ℕ) (s : System) : Type 0 where
  pub within : IsWithinLimit most s.committed
  pub slots : (d h : ℕ) → count_rows (at_slot d h) s.committed.bookings ≤ 1
  pub exclusive :
      (i j k : ℕ) → held env (s.phase i) ≡ some k → held env (s.phase j) ≡ some k → i ≡ j
  pub may : (i : ℕ) → MayInsert most (s.phase i) s.committed
  pub distinct :
      (i j d h : ℕ)
      → is_inserted_at d h (s.phase i) ≡ true
      → is_inserted_at d h (s.phase j) ≡ true
      → i ≡ j

module _ (env : Env) (most : ℕ) (limit_is : weekly_limit_value env ≡ pos most) (s : System)
    (v : Inv env most s) where
  -- A session that steps back holds nothing.
  pub put-idle : (i : ℕ) → Inv env most (record s { phase = put i idle s.phase })
  put-idle i = record {
    within = v.within;
    slots = v.slots;
    exclusive = λ a b k p q. ground (arith, v.exclusive a b k);
    may = λ j. ground (arith, v.may j);
    distinct = λ a b d h p q. ground (arith, v.distinct a b d h);
  }

  -- A session that goes on without a change of the tables.
  pub put-asked :
      (i : ℕ) (r : Request)
      → 0 < r.b_date
      → Inv env most (record s { phase = put i (asked r) s.phase })
  put-asked i r pos_date = record {
    within = v.within;
    slots = v.slots;
    exclusive = λ a b k p q. ground (arith, v.exclusive a b k);
    may = λ j. ground (arith, v.may j);
    distinct = λ a b d h p q. ground (arith, v.distinct a b d h);
  }

  pub put-locking :
      (i : ℕ) (r : Request)
      → s.phase i ≡ asked r
      → ((j : ℕ) → held env (s.phase j) ≢ some (key_of env r))
      → Inv env most (record s { phase = put i (locking r) s.phase })
  put-locking i r at free = record {
    within = v.within;
    slots = v.slots;
    exclusive = λ a b k p q. ground (arith, v.exclusive a b k, free a, free b);
    may = λ j. ground (arith, v.may j, v.may i);
    distinct = λ a b d h p q. ground (arith, v.distinct a b d h);
  }

  pub put-allowed_in :
      (i : ℕ) (r : Request)
      → s.phase i ≡ locking r
      → reaches (week_count r s.committed) (weekly_limit_value env) ≡ false
      → Inv env most (record s { phase = put i (allowed_in r) s.phase })
  put-allowed_in i r at room = record {
    within = v.within;
    slots = v.slots;
    exclusive = λ a b k p q. ground (arith, v.exclusive a b k, at);
    may = λ j. ground (arith, v.may j, v.may i, at, limit_is, room);
    distinct = λ a b d h p q. ground (arith, v.distinct a b d h);
  }

  pub put-inserted :
      (i : ℕ) (r : Request)
      → s.phase i ≡ allowed_in r
      → refuses_booking r.user_id r.b_date r.b_hour s.committed ≡ false
      → ((j : ℕ) → is_inserted_at r.b_date r.b_hour (s.phase j) ≡ false)
      → Inv env most (record {
        committed = next_key s.committed;
        phase = put i (inserted r s.committed.next_booking_id) s.phase;
      })
  unfolding count_user_bookings_in_week
  put-inserted i r at fits alone = record {
    within = v.within;
    slots = v.slots;
    exclusive = λ a b k p q. ground (arith, v.exclusive a b k, at);
    may = λ j. ground (arith, v.may j, v.may i, at);
    distinct = λ a b d h p q. ground (arith, v.distinct a b d h, alone a, alone b);
  }
