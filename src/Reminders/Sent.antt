-- ===== src/Reminders/Sent.antt =====
-- The rows that `_send_due_reminders` in app/services/reminder_service.py loops over, and what one
-- pass of the loop does.
use music_room_bot.Prelude.{
  ℕ, ◌+◌, ◌≤◌, ◌≡◌, refl, ◌∙◌, ◌⊎◌, inl, inr, Bool, true, not, ◌&&◌, some, List, [], ◌∷◌, arith,
  ◌==◌, Bool-cases,
}
use music_room_bot.Db.{User, Booking, Db, has_user_id, at_slot}
use music_room_bot.Prelude.Rows.{select, count_rows, count_rows_unique, select_cons, selected_pos}
use music_room_bot.Reminders.{
  of_user_on, chain_of, is_unreminded, join_users, is_account, has_account, account, mark_reminded,
  send_reminder, send_each, send_due_at,
}
use music_room_bot.Reminders.Hours.{chain_of_lem}
use music_room_bot.Session.{ok, reminder, Env, Session, fresh_session, pure, branch, ◌>>◌}
use music_room_bot.Session.Laws.{scalar_cases}
use music_room_bot.Time.{date_of, hour_of}

abbrev pub has_booking_before : Db → Booking → Bool
has_booking_before db b =
    not (count_rows (λ c. of_user_on b.user_id b.date c && c.hour + 1 == b.hour) db.bookings == 0)

module _ (is_15_min : Bool) (target : ℕ) (db : Db) where
  pub record IsCandidate (b : Booking) (u : User) : Type 0 where
    pub due_one :
        select (is_unreminded is_15_min (date_of target) (hour_of target)) db.bookings ≡ b ∷ []
    pub owner : select (has_user_id b.user_id) db.users ≡ u ∷ []
    pub reachable : is_account u.tg_user_id ≡ true

module _ (is_15_min : Bool) (target : ℕ) (db : Db)
    (slots : (d h : ℕ) → count_rows (at_slot d h) db.bookings ≤ 1) where
  abbrev candidates : List (Booking × User)
  candidates =
      let unreminded = is_unreminded is_15_min (date_of target) (hour_of target) in
      select has_account (join_users (select unreminded db.bookings) db.users)

  one_candidate :
      (b : Booking) (u : User) → IsCandidate is_15_min target db b u → candidates ≡ (b, u) ∷ []
  unfolding select
  one_candidate b u c = rw (c.due_one, c.owner, c.reachable) refl

  candidates_cases :
      ((i : ℕ) → count_rows (has_user_id i) db.users ≤ 1)
      → (candidates ≡ []) ⊎ ((b : Booking) × (u : User) × IsCandidate is_15_min target db b u)
  unfolding select
  candidates_cases users =
      let unreminded = is_unreminded is_15_min (date_of target) (hour_of target) in
      elim (scalar_cases unreminded db.bookings (
        count_rows_unique unreminded (at_slot (date_of target) (hour_of target)) db.bookings
          (λ x e. ground arith) (slots (date_of target) (hour_of target)))) [
            | inl none_due ↦ inl (rw none_due refl)
            | inr (b, one, due) ↦
                elim (scalar_cases (has_user_id b.user_id) db.users (users b.user_id)) [
                  | inl nobody ↦ inl (rw (one, nobody) refl)
                  | inr (u, owner, _) ↦ elim (Bool-cases (is_account u.tg_user_id)) [
                    | inl known ↦
                        inr (b, u, record { due_one = one; owner = owner; reachable = known })
                    | inr unknown ↦ inl (rw (one, owner, unknown) refl)
                  ]
                ]
          ]

module _ (env : Env) (now : ℕ) (is_15_min : Bool) (target : ℕ) (db : Db)
    (slots : (d h : ℕ) → count_rows (at_slot d h) db.bookings ≤ 1) where
  first_of_chain :
      (b : Booking) (u : User)
      → IsCandidate is_15_min target db b u
      → ((chain_of b u db).0 == b.hour) ≡ not (has_booking_before db b)
  first_of_chain b u c =
      let same : b.user_id ≡ u.id =
        ground (arith, select_cons (has_user_id b.user_id) db.users u [] c.owner) in
      let here : 1 ≤ count_rows (λ x. of_user_on u.id b.date x && x.hour == b.hour) db.bookings =
        selected_pos _ (is_unreminded is_15_min (date_of target) (hour_of target)) db.bookings b []
          c.due_one (ground (arith, same)) in
      chain_of_lem b u db slots here ∙ (rw same (ground arith))

  send_reminder_returns :
      (b : Booking) (u : User) (hours : List ℕ) (s : Session)
      → (send_reminder env now is_15_min b u hours >> pure tt) s
        ≡ send_reminder env now is_15_min b u hours s
  unfolding send_reminder mark_reminded
  send_reminder_returns b u hours s =
      let notice = reminder (account u.tg_user_id) is_15_min b.date hours in
      elim (Bool-cases (env.delivers notice)) [
        | inl arrived ↦ rw arrived refl
        | inr failed ↦ elim (Bool-cases (env.rejects notice)) [
          | inl gone ↦ rw (failed, gone) refl
          | inr later ↦ rw (failed, later) refl
        ]
      ]

  pub send_due_at_one :
      (b : Booking) (u : User)
      → IsCandidate is_15_min target db b u
      → send_due_at env now is_15_min (some target) (fresh_session db)
        ≡ branch
            (has_booking_before db b)
            (pure tt)
            (send_reminder env now is_15_min b u (chain_of b u db).1)
            (fresh_session db)
  unfolding send_due_at send_each
  send_due_at_one b u c =
      let same = first_of_chain b u c in
      elim (Bool-cases (has_booking_before db b)) [
        | inl later ↦ rw (one_candidate is_15_min target db slots b u c, same, later) refl
        | inr first ↦
            rw (one_candidate is_15_min target db slots b u c, same, first)
              (send_reminder_returns b u (chain_of b u db).1 (fresh_session db))
      ]

  pub send_due_at_cases :
      ((i : ℕ) → count_rows (has_user_id i) db.users ≤ 1)
      → (send_due_at env now is_15_min (some target) (fresh_session db) ≡ (ok tt, fresh_session db))
        ⊎ ((b : Booking) × (u : User) × IsCandidate is_15_min target db b u)
  unfolding send_due_at send_each
  send_due_at_cases users = elim (candidates_cases is_15_min target db slots users) [
    | inl none_due ↦ inl (rw none_due refl)
    | inr found ↦ inr found
  ]
