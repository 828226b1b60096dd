-- ===== src/Warnings.antt =====
-- app/services/warning_service.py: warnings, progressive bans and their reversal. The texts of the
-- messages are not modelled; a notice holds the values that the text shows.
pub mod Bans
pub mod Laws
pub mod Revert
pub mod Durations
pub mod Reverting
pub mod Lifting
use Prim.Native.String.{String}
use music_room_bot.Prelude.{
  ℕ, zero, suc, ◌+◌, Bool, true, false, ◌&&◌, Option, none, some, List, [], ◌∷◌, leb, ℤ, pos,
  negsuc, length,
}
use music_room_bot.Db.{User, Db, has_user_id}
use music_room_bot.Prelude.Rows.{select, update_rows}
use music_room_bot.Session.{
  warned, banned_for_warnings, warning_issued, user_auto_banned, access_suspended, ban_lifted, Env,
  Exec, pure, lift, branch, query, scalar_one_or_none, scalar_one, modify, commit, ◌>>=◌, ◌>>◌,
}
use music_room_bot.Session.Send.{send_to_user, send_to_chat, send_if_some}
use music_room_bot.Warnings.Bans.{max_warnings, ban_duration_months, add_months, effective_unban_at}

-- The columns of a user that `select(User).where(User.id == …)` finds.
abbrev pub get_user : ℕ → Exec (Option User)
get_user user_id = do
  rows ← query λ db. select (has_user_id user_id) db.users
  scalar_one_or_none rows

abbrev pub update_users : (User → Bool) → (User → User) → Db → Db
update_users p f db = record db { users = update_rows p f db.users }

abbrev pub or_chat : Option ℤ → Option ℤ → Option ℤ
or_chat none c = c
or_chat (some (pos zero)) c = c
or_chat (some (pos (suc n))) c = some (pos (suc n))
or_chat (some (negsuc n)) c = some (negsuc n)

unfoldable pub warning_notification_chat_id : Env → Option ℤ
warning_notification_chat_id env = or_chat env.warning_chat_id env.admin_chat_id

pub record BanResult : Type 0 where
  pub ban_count : ℕ
  pub duration_months : ℕ
  pub banned_until : ℕ

pub record WarningRevertResult : Type 0 where
  pub warnings : ℕ
  pub was_banned : Bool
  pub ban_count : ℕ

-- The columns that a ban writes.
abbrev pub ban_columns : Option String → BanResult → User → User
ban_columns reason ban u = record u {
  allowed = false;
  banned = true;
  ban_reason = reason;
  ban_count = ban.ban_count;
  banned_until = some ban.banned_until;
}

unfoldable pub apply_progressive_ban : Env → User → Option String → Exec BanResult
apply_progressive_ban env user reason = do
  let duration = ban_duration_months (user.ban_count + 1)
  until ← lift (add_months env env.now duration)
  let ban : BanResult = record {
    ban_count = user.ban_count + 1;
    duration_months = duration;
    banned_until = until;
  }
  modify (update_users (has_user_id user.id) (ban_columns reason ban))
  commit
  pure ban

unfoldable pub notify_manual_ban : Env → User → BanResult → Option String → Exec (Unit {0})
notify_manual_ban env user ban reason =
    send_if_some env user.tg_user_id
      λ tg. access_suspended tg reason ban.duration_months (effective_unban_at ban.banned_until)

-- `banned_until <= now`, false on NULL
abbrev pub has_ended : ℕ → Option ℕ → Bool
has_ended now none = false
has_ended now (some until) = leb until now

abbrev pub is_expired_ban : ℕ → User → Bool
is_expired_ban now u = u.banned && has_ended now u.banned_until

abbrev pub lift_ban : User → User
lift_ban u = record u { banned = false; ban_reason = none; banned_until = none }

-- The loop that assigns to the columns of each selected user.
unfoldable pub lift_bans : List User → Db → Db
lift_bans [] db = db
lift_bans (u ∷ us) db = lift_bans us (update_users (has_user_id u.id) lift_ban db)

unfoldable pub notify_unbanned : Env → List User → Exec (Unit {0})
notify_unbanned env [] = pure tt
notify_unbanned env (u ∷ us) = do send_if_some env u.tg_user_id ban_lifted; notify_unbanned env us

unfoldable pub unban_expired_users : Env → Exec ℕ
unfolding lift_bans notify_unbanned
unban_expired_users env = do
  users ← query λ db. select (is_expired_ban env.now) db.users
  modify (lift_bans users)
  commit
  notify_unbanned env users
  pure (length users)

abbrev pub add_one_warning : User → User
add_one_warning u = record u { warnings = u.warnings + 1 }

unfoldable pub notify_banned : Env → ℕ → String → Bool → User → BanResult → Exec (Unit {0})
notify_banned env user_id reason appeal_allowed row ban = do
  let until = effective_unban_at ban.banned_until
  send_to_user env row.tg_user_id
      λ tg. banned_for_warnings tg reason row.warnings ban.duration_months until appeal_allowed
  send_to_chat env (warning_notification_chat_id env)
      λ chat. user_auto_banned chat user_id ban.ban_count ban.duration_months until

unfoldable pub notify_warned : Env → ℕ → String → Bool → User → Exec (Unit {0})
notify_warned env user_id reason appeal_allowed row = do
  send_to_user env row.tg_user_id λ tg. warned tg reason row.warnings appeal_allowed
  send_to_chat env (warning_notification_chat_id env)
      λ chat. warning_issued chat user_id row.warnings reason

-- The ban branch of `add_warning`, and the plain one.
unfoldable pub ban_for_warnings : Env → ℕ → String → Bool → User → Exec (Option ℕ)
ban_for_warnings env user_id reason appeal_allowed row = do
  rows ← query λ db. select (has_user_id user_id) db.users
  user ← scalar_one rows
  ban ← apply_progressive_ban env user (some "Reached 3 warnings")
  notify_banned env user_id reason appeal_allowed row ban
  pure (some row.warnings)

unfoldable pub warn_only : Env → ℕ → String → Bool → User → Exec (Option ℕ)
warn_only env user_id reason appeal_allowed row = do
  commit
  notify_warned env user_id reason appeal_allowed row
  pure (some row.warnings)

-- `row = res.first()`
unfoldable pub after_increment : Env → ℕ → String → Bool → List User → Exec (Option ℕ)
after_increment env user_id reason appeal_allowed [] = pure none
after_increment env user_id reason appeal_allowed (row ∷ _) =
    branch (leb max_warnings row.warnings) (ban_for_warnings env user_id reason appeal_allowed row)
      (warn_only env user_id reason appeal_allowed row)

unfoldable pub warn_user : Env → ℕ → String → Bool → Option User → Exec (Option ℕ)
unfolding after_increment
warn_user env user_id reason appeal_allowed none = pure none
warn_user env user_id reason appeal_allowed (some user) = branch user.banned (pure none) do
  modify (update_users (has_user_id user_id) add_one_warning)
  rows ← query λ db. select (has_user_id user_id) db.users
  after_increment env user_id reason appeal_allowed rows

unfoldable pub add_warning : Env → ℕ → String → Bool → Exec (Option ℕ)
unfolding warn_user
add_warning env user_id reason appeal_allowed = do
  user ← get_user user_id
  warn_user env user_id reason appeal_allowed user
