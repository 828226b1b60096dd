-- ===== src/Warnings/Laws.antt =====
-- `add_warning` of app/services/warning_service.py: its effect on the row of the user.
use Prim.Native.String.{String}
use music_room_bot.Prelude.{
  ℕ, ◌+◌, ◌≡◌, ap, ◌∙◌, Bool, true, false, none, some, [], ◌∷◌, map, arith, leb, if◌then◌else◌,
  ==→eq,
}
use music_room_bot.Db.{User, Db, has_user_id}
use music_room_bot.Prelude.Rows.{
  select, select_cons, update_rows-update_rows, select-update_rows, update_rows_single,
  update_rows_self,
}
use music_room_bot.Session.{
  ok, warned, banned_for_warnings, warning_issued, user_auto_banned, Env, Session, fresh_session,
}
use music_room_bot.Session.Send.{OnlyEvents, send_both-OnlyEvents}
use music_room_bot.Warnings.{
  update_users, warning_notification_chat_id, BanResult, ban_columns, apply_progressive_ban,
  add_one_warning, notify_banned, notify_warned, ban_for_warnings, warn_only, after_increment,
  warn_user, add_warning,
}
use music_room_bot.Warnings.Bans.{ban_duration_months, add_months, effective_unban_at}

abbrev pub ban_result : ℕ → User → BanResult
ban_result until u = record {
  ban_count = u.ban_count + 1;
  duration_months = ban_duration_months (u.ban_count + 1);
  banned_until = until;
}

-- The columns that an automatic ban writes into a row.
abbrev pub auto_ban : ℕ → User → User → User
auto_ban until u row =
    ban_columns (some "Reached 3 warnings")
      (record {
        ban_count = u.ban_count + 1;
        duration_months = ban_duration_months (u.ban_count + 1);
        banned_until = until;
      })
      row

-- The user's row after a warning: unchanged if banned, banned without access from the third warning
-- on, and otherwise with one warning more.
unfoldable pub warned_row : ℕ → User → User
warned_row until u =
    if u.banned
    then u
    else if leb 3 (u.warnings + 1)
    then record {
      id = u.id;
      tg_user_id = u.tg_user_id;
      tg_username = u.tg_username;
      full_name = u.full_name;
      allowed = false;
      warnings = u.warnings + 1;
      banned = true;
      ban_reason = some "Reached 3 warnings";
      ban_count = u.ban_count + 1;
      banned_until = some until;
    }
    else record u { warnings = u.warnings + 1 }

abbrev pub write_user : User → Db → Db
write_user u db = update_users (has_user_id u.id) (λ _. u) db

module _ (env : Env) (user_id : ℕ) (reason : String) (appeal : Bool) where
  notify_warned-OnlyEvents :
      (row : User) (s : Session) → OnlyEvents (notify_warned env user_id reason appeal row s) s
  unfolding notify_warned
  notify_warned-OnlyEvents row s =
      send_both-OnlyEvents env s row.tg_user_id (λ tg. warned tg reason row.warnings appeal)
        (warning_notification_chat_id env) (λ chat. warning_issued chat user_id row.warnings reason)

  notify_banned-OnlyEvents :
      (row : User) (ban : BanResult) (s : Session)
      → OnlyEvents (notify_banned env user_id reason appeal row ban s) s
  unfolding notify_banned
  notify_banned-OnlyEvents row ban s =
      let until = effective_unban_at ban.banned_until in
      send_both-OnlyEvents env s row.tg_user_id
        (λ tg. banned_for_warnings tg reason row.warnings ban.duration_months until appeal)
        (warning_notification_chat_id env)
        (λ chat. user_auto_banned chat user_id ban.ban_count ban.duration_months until)

  warn_only_lem :
      (row : User) (s : Session)
      → let (r, s') = warn_only env user_id reason appeal row s in
        (r ≡ ok (some row.warnings)) × (s'.committed ≡ s.current)
  unfolding warn_only
  warn_only_lem row s =
      ground (arith, notify_warned-OnlyEvents row (record s { committed = s.current; locks = [] }))

  ban_for_warnings_lem :
      (row u : User) (until : ℕ) (s : Session)
      → select (has_user_id user_id) s.current.users ≡ u ∷ []
      → add_months env env.now (ban_duration_months (u.ban_count + 1)) ≡ ok until
      → let (r, s') = ban_for_warnings env user_id reason appeal row s in
        (r ≡ ok (some row.warnings))
        × (s'.committed ≡ update_users (has_user_id u.id) (auto_ban until u) s.current)
  unfolding ban_for_warnings apply_progressive_ban
  ban_for_warnings_lem row u until s e m = ground (
    arith,
    notify_banned-OnlyEvents row (ban_result until u) (record s {
      committed = update_users (has_user_id u.id) (auto_ban until u) s.current;
      current = update_users (has_user_id u.id) (auto_ban until u) s.current;
      locks = [];
    }),
  )

module _ (user_id : ℕ) (db : Db) (u : User)
    (found : select (has_user_id user_id) db.users ≡ u ∷ []) where
  pub found_id : u.id ≡ user_id
  found_id = ==→eq u.id user_id (select_cons (has_user_id user_id) db.users u [] found)

  abbrev warned_db : Db
  warned_db = update_users (has_user_id user_id) add_one_warning db

  found_warned : select (has_user_id user_id) warned_db.users ≡ add_one_warning u ∷ []
  found_warned =
      select-update_rows (has_user_id user_id) add_one_warning db.users (λ x e. e)
      ∙ ap (map add_one_warning) found

  -- Two writes of the user's row are one.
  rewritten :
      (f : User → User)
      → update_users (has_user_id user_id) f warned_db
        ≡ update_users (has_user_id user_id) (λ _. f (add_one_warning u)) db
  rewritten f =
      ap (λ rows. record db { users = rows })
        (update_rows-update_rows (has_user_id user_id) f add_one_warning db.users (λ x e. e)
          ∙ update_rows_single (has_user_id user_id) (λ x. f (add_one_warning x)) db.users u found)

  written_once : warned_db ≡ update_users (has_user_id user_id) (λ _. add_one_warning u) db
  written_once =
      ap (λ rows. record db { users = rows })
        (update_rows_single (has_user_id user_id) add_one_warning db.users u found)

  -- Writing rows of the same user one after the other.
  pub overwritten :
      (v w : User)
      → v.id ≡ u.id
      → (select (has_user_id user_id) (update_users (has_user_id user_id) (λ _. v) db).users
          ≡ v ∷ [])
        × (update_users
              (has_user_id user_id)
              (λ _. w)
              (update_users (has_user_id user_id) (λ _. v) db)
            ≡ update_users (has_user_id user_id) (λ _. w) db)
  overwritten v w e =
      let kept : has_user_id user_id v ≡ true = ground (arith, found_id) in
      (
        select-update_rows (has_user_id user_id) (λ _. v) db.users (λ _ _. kept)
            ∙ ap (map (λ _. v)) found,
        ap (λ rows. record db { users = rows })
            (update_rows-update_rows (has_user_id user_id) (λ _. w) (λ _. v) db.users
              (λ _ _. kept)),
      )

  pub unwritten : update_users (has_user_id user_id) (λ _. u) db ≡ db
  unwritten =
      ap (λ rows. record db { users = rows })
        (update_rows_self (has_user_id user_id) db.users u found)

module _ (env : Env) (user_id : ℕ) (reason : String) (appeal : Bool) (db : Db) (u : User)
    (until : ℕ) where
  -- With one row for the user, and the end of the next ban a date of the calendar, a warning returns
  -- the new count, or nothing to a banned user. What is committed is the user's row unchanged if
  -- banned; from the third warning on with one warning and one ban more, banned until that end for
  -- "Reached 3 warnings", and without access; and otherwise with one warning more. Nothing else
  -- changes.
  pub add_warning_lem :
      select (has_user_id user_id) db.users ≡ u ∷ []
      → add_months env env.now (ban_duration_months (u.ban_count + 1)) ≡ ok until
      → let (r, s) = add_warning env user_id reason appeal (fresh_session db) in
        (r ≡ ok (if u.banned then none else some (u.warnings + 1)))
        × (s.committed ≡ update_users (has_user_id user_id) (λ _. warned_row until u) db)
  unfolding add_warning warn_user after_increment warned_row
  add_warning_lem found ends =
      let s : Session = record (fresh_session db) { current = warned_db user_id db u found } in
      ground (
        arith,
        found,
        found_id user_id db u found,
        found_warned user_id db u found,
        rewritten user_id db u found (auto_ban until (add_one_warning u)),
        written_once user_id db u found,
        unwritten user_id db u found,
        warn_only_lem env user_id reason appeal (add_one_warning u) s,
        ban_for_warnings_lem env user_id reason appeal (add_one_warning u) (add_one_warning u) until
            s (found_warned user_id db u found) ends,
      )
