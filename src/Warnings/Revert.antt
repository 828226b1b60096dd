-- ===== src/Warnings/Revert.antt =====
-- The operations of app/services/warning_service.py that take warnings and bans back.
use music_room_bot.Prelude.{
  ℕ, ◌-◌, Bool, true, false, ◌&&◌, Option, none, some, List, [], ◌∷◌, ltb, ◌==◌, if◌then◌else◌,
  is_some, length,
}
use music_room_bot.Db.{User, has_user_id}
use music_room_bot.Prelude.Rows.{select}
use music_room_bot.Session.{
  warning_reverted, access_granted, Env, Exec, pure, branch, query, modify, commit, ◌>>=◌, ◌>>◌,
}
use music_room_bot.Session.Send.{send_to_user}
use music_room_bot.Warnings.{get_user, update_users, WarningRevertResult, lift_ban}

-- The columns of `revert_latest_warning`; `max(0, n - 1)` is subtraction on the naturals.
abbrev pub reverted_columns : Bool → User → User
reverted_columns decrement_ban_count u =
    let row = record u { warnings = u.warnings - 1 } in
    if u.banned
    then record row {
      banned = false;
      allowed = true;
      ban_reason = none;
      banned_until = none;
      ban_count = if decrement_ban_count then u.ban_count - 1 else u.ban_count;
    }
    else row

abbrev pub revert_result : Bool → User → WarningRevertResult
revert_result decrement_ban_count u = record {
  warnings = u.warnings - 1;
  was_banned = u.banned;
  ban_count = if u.banned && decrement_ban_count then u.ban_count - 1 else u.ban_count;
}

-- The notice: `send_access_granted_dm` to a user whose ban was lifted, and else a plain message.
unfoldable pub notify_revert : Env → Bool → User → WarningRevertResult → Exec (Unit {0})
notify_revert env appeal user result = send_to_user env user.tg_user_id λ tg.
    if result.was_banned
    then access_granted tg appeal
    else warning_reverted tg appeal result.warnings

unfoldable pub revert_user : Env → Bool → Bool → Option User → Exec (Option WarningRevertResult)
revert_user env decrement_ban_count appeal none = pure none
revert_user env decrement_ban_count appeal (some user) = do
  modify (update_users (has_user_id user.id) λ _. reverted_columns decrement_ban_count user)
  commit
  notify_revert env appeal user (revert_result decrement_ban_count user)
  pure (some (revert_result decrement_ban_count user))

-- `appeal` is `user_notice == "appeal"`.
unfoldable pub revert_latest_warning : Env → ℕ → Bool → Bool → Exec (Option WarningRevertResult)
unfolding revert_user
revert_latest_warning env user_db_id decrement_ban_count appeal = do
  user ← get_user user_db_id
  revert_user env decrement_ban_count appeal user

unfoldable pub approve_warning_appeal : Env → ℕ → Exec Bool
approve_warning_appeal env user_db_id = do
  result ← revert_latest_warning env user_db_id false true
  pure (is_some result)

-- `res.first()` of an UPDATE … RETURNING warnings, and `row[0] if row else 0`.
abbrev pub first_warnings : List User → ℕ
first_warnings [] = 0
first_warnings (row ∷ _) = row.warnings

unfoldable pub remove_from : ℕ → Option User → Exec (Option ℕ)
remove_from user_id none = pure none
remove_from user_id (some user) = branch (user.warnings == 0) (pure (some 0)) do
  modify (update_users (has_user_id user_id) λ u. record u { warnings = u.warnings - 1 })
  rows ← query λ db. select (has_user_id user_id) db.users
  commit
  pure (some (first_warnings rows))

unfoldable pub remove_warning : ℕ → Exec (Option ℕ)
unfolding remove_from
remove_warning user_id = do user ← get_user user_id; remove_from user_id user

unfoldable pub reset_user : Option User → Exec (Option ℕ)
reset_user none = pure none
reset_user (some user) = do
  modify (update_users (has_user_id user.id) λ u. record u { warnings = 0 })
  commit
  pure (some user.warnings)

unfoldable pub reset_user_warnings : ℕ → Exec (Option ℕ)
unfolding reset_user
reset_user_warnings user_id = do user ← get_user user_id; reset_user user

abbrev pub has_warnings : User → Bool
has_warnings u = ltb 0 u.warnings

unfoldable pub reset_all_warnings : Exec ℕ
reset_all_warnings = do
  rows ← query λ db. select has_warnings db.users
  modify (update_users has_warnings λ u. record u { warnings = 0 })
  commit
  pure (length rows)

abbrev pub is_banned : User → Bool
is_banned u = u.banned

unfoldable pub unban_all_users : Exec ℕ
unban_all_users = do
  rows ← query λ db. select is_banned db.users
  modify (update_users is_banned lift_ban)
  commit
  pure (length rows)
