-- ===== src/Bookings/Concurrent/Alone.antt =====
-- A call of `_safe_create_booking` of app/services/booking_service.py that meets no other
-- transaction, from the check of recurring slots on to its end.
use mathlib.Core.Path.{ap₂, subst}
use music_room_bot.Prelude.{
  ℕ, ◌≡◌, refl, sym, ap, ◌∙◌, inl, inr, Bool, true, false, arith, ◌==◌, reaches, ==→eq, Bool-cases,
}
use music_room_bot.Bookings.Concurrent.{
  Request, Phase, idle, asked, locking, allowed_in, inserted, week_count, System, put, next_key,
  commit_row, Step, ask, take_lock, refuse_limit, pass_limit, insert_row, violate, commit_booking,
  abandon, delete_others,
}
use music_room_bot.Bookings.Create.{new_booking, refuses_booking, safe_create_booking}
use music_room_bot.Bookings.Create.Laws.{booking_status, after_request, safe_create_booking_lem}
use music_room_bot.Bookings.Queries.Laws.{is_reserved}
use music_room_bot.Db.{Db}
use music_room_bot.Db.Invariant.{IsConsistent}
use music_room_bot.Limits.{weekly_limit_value}
use music_room_bot.Session.{Env, fresh_session}

-- A statement of the session `i` within a call: no new request, no loss of the connection, and
-- nothing of another transaction.
abbrev pub is_own : {env : Env} {s t : System} → ℕ → Step env s t → Bool
is_own n (ask i r at day free) = false
is_own n (take_lock i r at free) = i == n
is_own n (refuse_limit i r at full) = i == n
is_own n (pass_limit i r at room) = i == n
is_own n (insert_row i r at fits alone) = i == n
is_own n (violate i r at refused) = i == n
is_own n (commit_booking i r new_id at) = i == n
is_own n (abandon i) = false
is_own n (delete_others has_key) = false

-- What own statements of the session `n` lead to.
pub data AloneFrom (env : Env) (n : ℕ) (s : System) : System → Type 0 where
  not_yet : AloneFrom env n s s
  own_step :
      {t u : System}
      → AloneFrom env n s t
      → (step : Step env t u) → is_own n step ≡ true
      → AloneFrom env n s u

-- All other sessions are idle.
abbrev pub asking : ℕ → Request → Db → System
asking n r db = record { committed = db; phase = put n (asked r) (λ _. idle) }

put_here : (n : ℕ) (p : Phase) (f : ℕ → Phase) → put n p f n ≡ p
put_here n p f = ground arith

module _ (env : Env) (n : ℕ) (r : Request) (db : Db)
    (free : is_reserved r.b_date r.b_hour db ≡ false) where
  abbrev outcome : Db
  outcome =
      after_request (booking_status env r.user_id r.b_date r.b_hour db) db
        (new_booking env r.user_id r.b_date r.b_hour r.source db.next_booking_id)

  abbrev HasRoom : Type 0
  HasRoom = reaches (week_count r db) (weekly_limit_value env) ≡ false

  abbrev Fits : Type 0
  Fits = refuses_booking r.user_id r.b_date r.b_hour db ≡ false

  -- What is known of the session at each of its places.
  abbrev IsAt : Phase → Db → Type 0
  IsAt idle c = c ≡ outcome
  IsAt (asked q) c = (q ≡ r) × (c ≡ db)
  IsAt (locking q) c = (q ≡ r) × (c ≡ db)
  IsAt (allowed_in q) c = (q ≡ r) × (c ≡ db) × HasRoom
  IsAt (inserted q k) c = (q ≡ r) × (k ≡ db.next_booking_id) × (c ≡ next_key db) × HasRoom × Fits

  full_lem : reaches (week_count r db) (weekly_limit_value env) ≡ true → db ≡ outcome
  unfolding booking_status after_request
  full_lem full = ground (arith, free, full)

  refused_lem : HasRoom → refuses_booking r.user_id r.b_date r.b_hour db ≡ true → db ≡ outcome
  unfolding booking_status after_request
  refused_lem room refused = ground (arith, free, room, refused)

  booked_lem :
      HasRoom
      → Fits
      → commit_row
          (new_booking env r.user_id r.b_date r.b_hour r.source db.next_booking_id)
          (next_key db)
        ≡ outcome
  unfolding booking_status after_request
  booked_lem room fits = ground (arith, free, room, fits)

  -- The phase of the session after a step to `p`.
  move-IsAt :
      (i : ℕ) (p : Phase) (s : System) (c : Db)
      → (i == n) ≡ true
      → IsAt p c
      → IsAt (put i p s.phase n) c
  move-IsAt i p s c own at = subst (λ q. IsAt q c) (ground (arith, own)) at

  known-IsAt :
      (i : ℕ) (p : Phase) (s : System)
      → (i == n) ≡ true
      → s.phase i ≡ p
      → IsAt (s.phase n) s.committed
      → IsAt p s.committed
  known-IsAt i p s own at v =
      subst (λ q. IsAt q s.committed) (ap s.phase (sym (==→eq i n own)) ∙ at) v

  Step-IsAt :
      {s t : System}
      → (step : Step env s t) → is_own n step ≡ true
      → IsAt (s.phase n) s.committed
      → IsAt (t.phase n) t.committed
  Step-IsAt {s} (ask i q at day open_slot) own v = cc
  Step-IsAt {s} (take_lock i q at unheld) own v =
      move-IsAt i (locking q) s s.committed own (known-IsAt i (asked q) s own at v)
  Step-IsAt {s} (refuse_limit i q at full) own v =
      let (e, c) = known-IsAt i (locking q) s own at v in
      move-IsAt i idle s s.committed own (c ∙ full_lem (ground (arith, full, e, c)))
  Step-IsAt {s} (pass_limit i q at room) own v =
      let (e, c) = known-IsAt i (locking q) s own at v in
      move-IsAt i (allowed_in q) s s.committed own (e, c, ground (arith, room, e, c))
  Step-IsAt {s} (insert_row i q at fits unmet) own v =
      let (e, c, room) = known-IsAt i (allowed_in q) s own at v in
      move-IsAt i (inserted q s.committed.next_booking_id) s (next_key s.committed) own
        (e, ap (λ d. d.next_booking_id) c, ap next_key c, room, ground (arith, fits, e, c))
  Step-IsAt {s} (violate i q at refused) own v =
      let (e, c, room) = known-IsAt i (allowed_in q) s own at v in
      move-IsAt i idle s s.committed own (c ∙ refused_lem room (ground (arith, refused, e, c)))
  Step-IsAt {s} (commit_booking i q new_id at) own v =
      let (e, k, c, room, fits) = known-IsAt i (inserted q new_id) s own at v in
      let row = λ (x : Request) (j : ℕ). new_booking env x.user_id x.b_date x.b_hour x.source j in
      move-IsAt i idle s (commit_row (row q new_id) s.committed) own (
        ap (λ b. commit_row b s.committed) (ap₂ row e k)
        ∙ ap (commit_row (row r db.next_booking_id)) c
        ∙ booked_lem room fits)
  Step-IsAt {s} (abandon i) own v = cc
  Step-IsAt {s} (delete_others has_key) own v = cc

  AloneFrom-IsAt : {s : System} → AloneFrom env n (asking n r db) s → IsAt (s.phase n) s.committed
  AloneFrom-IsAt not_yet =
      subst (λ q. IsAt q db) (sym (put_here n (asked r) (λ _. idle))) (refl, refl)
  AloneFrom-IsAt (own_step run step own) = Step-IsAt step own (AloneFrom-IsAt run)

  abbrev at_locking : System
  at_locking = record { committed = db; phase = put n (locking r) (asking n r db).phase }

  abbrev at_allowed : System
  at_allowed = record { committed = db; phase = put n (allowed_in r) at_locking.phase }

  abbrev at_inserted : System
  at_inserted = record {
    committed = next_key db;
    phase = put n (inserted r db.next_booking_id) at_allowed.phase;
  }

  same_n : (n == n) ≡ true
  same_n = ground arith

  locked : AloneFrom env n (asking n r db) at_locking
  locked =
      own_step not_yet (take_lock n r (put_here n (asked r) (λ _. idle)) (λ j. ground arith)) same_n

  passed : HasRoom → AloneFrom env n (asking n r db) at_allowed
  passed room =
      own_step locked (pass_limit n r (put_here n (locking r) (asking n r db).phase) room) same_n

  ends : (t : System) × AloneFrom env n (asking n r db) t × (t.phase n ≡ idle)
  ends = elim (Bool-cases (reaches (week_count r db) (weekly_limit_value env))) [
    | inl full ↦ (
      record { committed = db; phase = put n idle at_locking.phase },
      own_step locked (refuse_limit n r (put_here n (locking r) (asking n r db).phase) full) same_n,
      put_here n idle at_locking.phase,
    )
    | inr room ↦ elim (Bool-cases (refuses_booking r.user_id r.b_date r.b_hour db)) [
      | inl refused ↦ (
        record { committed = db; phase = put n idle at_allowed.phase },
        own_step (passed room) (violate n r (put_here n (allowed_in r) at_locking.phase) refused)
            same_n,
        put_here n idle at_allowed.phase,
      )
      | inr fits ↦ (
        record {
          committed =
              commit_row (new_booking env r.user_id r.b_date r.b_hour r.source db.next_booking_id)
                (next_key db);
          phase = put n idle at_inserted.phase;
        },
        own_step
            (own_step (passed room)
              (insert_row n r (put_here n (allowed_in r) at_locking.phase) fits (λ j. ground arith))
              same_n)
            (commit_booking n r db.next_booking_id
              (put_here n (inserted r db.next_booking_id) at_allowed.phase))
            same_n,
        put_here n idle at_inserted.phase,
      )
    ]
  ]

  -- On consistent tables, for a request of an hour that is not reserved, when all other sessions are
  -- idle: the session's own statements can be run to its end, and however they end, what is
  -- committed is exactly what `safe_create_booking` commits.
  pub AloneFrom-safe_create_booking :
      IsConsistent db
      → ((t : System)
          → AloneFrom env n (asking n r db) t
          → t.phase n ≡ idle
          → t.committed
            ≡ (safe_create_booking env r.user_id r.b_date r.b_hour r.source
                (fresh_session db)).1.committed)
        × ((t : System) × AloneFrom env n (asking n r db) t × (t.phase n ≡ idle))
  AloneFrom-safe_create_booking v = (
    λ t run ended.
        subst (λ q. IsAt q t.committed) ended (AloneFrom-IsAt run)
        ∙ sym (safe_create_booking_lem env r.user_id r.b_date r.b_hour r.source db v).1,
    ends,
  )
