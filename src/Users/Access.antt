-- ===== src/Users/Access.antt =====
-- app/services/admin_user_commands.py: what administrators do to users, by username, and
-- app/services/admin_service.py. The rows that a result names are returned as they were read.
use Prim.Native.String.{String}
use music_room_bot.Prelude.{
  ℕ, ◌+◌, Bool, true, false, not, ◌&&◌, ◌||◌, Option, none, some, List, [], ◌∷◌, ◌==◌,
  if◌then◌else◌, indicator, Text, text_eq, is_empty, strip_left, strip,
}
use music_room_bot.Bookings.Cancel.{delete_bookings}
use music_room_bot.Bookings.Gifts.{has_username}
use music_room_bot.Db.{User, Admin, Db}
use music_room_bot.Prelude.Rows.{select, count_rows, delete_rows}
use music_room_bot.Session.{
  integrity_error, Env, Exec, pure, raise, branch, query, scalar_one_or_none, try_integrity, modify,
  commit, rollback, ◌>>=◌, ◌>>◌,
}
use music_room_bot.Users.{is_admin_row, gives_or_gets_swap, delete_user, write_user}
use music_room_bot.Warnings.{BanResult, apply_progressive_ban, notify_manual_ban}

pub data AddAdminResult : Type 0 where
  added already_admin user_not_found user_not_started : AddAdminResult

pub record RevokeAccessResult : Type 0 where
  pub user_found : Bool
  pub tg_user_id : Option ℕ
  pub already_revoked : Bool

pub record RevokedBulkUser : Type 0 where
  pub tg_user_id : Option ℕ
  pub tg_username : Option Text

pub record BulkMemberSyncResult : Type 0 where
  pub updated_revoked : ℕ
  pub revoked_admins_skipped : ℕ
  pub revoked_users : List RevokedBulkUser

pub record BanUserResult : Type 0 where
  pub user_found : Bool
  pub ban_result : Option BanResult

-- `str.lstrip("@")`
abbrev pub is_at_sign : ℕ → Bool
is_at_sign c = c == b'@'

unfoldable pub get_user_by_username : Env → Text → Exec (Option User)
unfolding strip strip_left
get_user_by_username env username = do
  let normalized = env.lower (strip_left is_at_sign (strip env.is_space username))
  rows ← query λ db. select (has_username env normalized) db.users
  scalar_one_or_none rows

abbrev pub give_access : User → User
give_access u = record u { allowed = true; banned = false; ban_reason = none; banned_until = none }

abbrev pub clear_ban : User → User
clear_ban u = record u { banned = false; ban_reason = none; banned_until = none; warnings = 0 }

abbrev pub take_access : User → User
take_access u = record u { allowed = false }

-- What `allow_user` and `unban_user` have in common.
unfoldable pub write_found : (User → User) → Option User → Exec (Option User)
write_found f none = pure none
write_found f (some u) = do write_user u f; commit; pure (some (f u))

unfoldable pub allow_user : Env → Text → Exec (Option User)
unfolding write_found
allow_user env username = do
  found ← get_user_by_username env username
  write_found give_access found

unfoldable pub unban_user : Env → Text → Exec (Option User)
unfolding write_found
unban_user env username = do found ← get_user_by_username env username; write_found clear_ban found

unfoldable pub revoke_found : Option User → Exec RevokeAccessResult
revoke_found none = pure (record { user_found = false; tg_user_id = none; already_revoked = false })
revoke_found (some u) =
    branch (not u.allowed)
      (pure (record { user_found = true; tg_user_id = u.tg_user_id; already_revoked = true }))
      do
        write_user u take_access
        commit
        pure (record { user_found = true; tg_user_id = u.tg_user_id; already_revoked = false })

unfoldable pub revoke_user_access : Env → Text → Exec RevokeAccessResult
unfolding revoke_found
revoke_user_access env username = do found ← get_user_by_username env username; revoke_found found

unfoldable pub ban_found : Env → Option String → Option User → Exec BanUserResult
ban_found env reason none = pure (record { user_found = false; ban_result = none })
ban_found env reason (some u) = do
  ban ← apply_progressive_ban env u reason
  notify_manual_ban env u ban reason
  pure (record { user_found = true; ban_result = some ban })

unfoldable pub ban_user : Env → Text → Option String → Exec BanUserResult
unfolding ban_found
ban_user env username reason = do
  found ← get_user_by_username env username
  ban_found env reason found

-- The DELETE of the swap offers and of the bookings, whose gift offers go along.
abbrev pub without_bookings_of : ℕ → Db → Db
without_bookings_of user_id db =
    let kept = record db {
      swap_offers = delete_rows (gives_or_gets_swap user_id) db.swap_offers;
    } in
    delete_bookings
      (λ i. not (count_rows (λ b. b.id == i && b.user_id == user_id) db.bookings == 0)) kept

unfoldable pub delete_known : Option User → Exec Bool
unfolding delete_user
delete_known none = pure false
delete_known (some u) = do modify (without_bookings_of u.id); delete_user u.id; commit; pure true

unfoldable pub delete_user_by_username : Env → Text → Exec Bool
unfolding delete_known
delete_user_by_username env username = do
  found ← get_user_by_username env username
  delete_known found

-- `add_admin`; `tg_user_id` is unique.
abbrev pub with_admin : ℕ → Option Text → Db → Db
with_admin tg_user_id tg_username db = record db {
  admins =
      record { id = db.next_admin_id; tg_user_id = tg_user_id; tg_username = tg_username }
      ∷ db.admins;
  next_admin_id = db.next_admin_id + 1;
}

unfoldable pub add_admin : ℕ → Option Text → Exec (Unit {0})
add_admin tg_user_id tg_username = do
  known ← query λ db. not (count_rows (is_admin_row tg_user_id) db.admins == 0)
  branch known (raise integrity_error) do modify (with_admin tg_user_id tg_username); commit

unfoldable pub admit : User → Option ℕ → Exec AddAdminResult
unfolding add_admin
admit u none = pure user_not_started
admit u (some tg_user_id) =
    try_integrity (do add_admin tg_user_id u.tg_username; pure added)
      (do rollback; pure already_admin)

unfoldable pub admit_found : Option User → Exec AddAdminResult
unfolding admit
admit_found none = pure user_not_found
admit_found (some u) = admit u u.tg_user_id

unfoldable pub add_admin_by_username : Env → Text → Exec AddAdminResult
unfolding admit_found
add_admin_by_username env username = do found ← get_user_by_username env username; admit_found found

-- `canon in allowed_usernames`
abbrev pub is_listed_name : List Text → Text → Bool
is_listed_name [] t = false
is_listed_name (s ∷ names) t = text_eq s t || is_listed_name names t

-- `user.tg_username.lstrip("@").lower()`, or the empty text for a user without one.
abbrev pub canon : Env → Option Text → Text
canon env none = []
canon env (some t) = if is_empty t then [] else env.lower (strip_left is_at_sign t)

abbrev pub is_admin_account : List Admin → Option ℕ → Bool
is_admin_account admins none = false
is_admin_account admins (some t) = not (t == 0) && not (count_rows (is_admin_row t) admins == 0)

-- A user with a username that is not on the list.
abbrev pub is_unlisted : Env → List Text → User → Bool
is_unlisted env names u =
    let name = canon env u.tg_username in not (is_empty name) && not (is_listed_name names name)

abbrev pub is_revoked : Env → List Text → List Admin → User → Bool
is_revoked env names admins u =
    is_unlisted env names u && not (is_admin_account admins u.tg_user_id)

abbrev pub is_skipped : Env → List Text → List Admin → User → Bool
is_skipped env names admins u = is_unlisted env names u && is_admin_account admins u.tg_user_id

-- The loop over all users.
unfoldable pub sync_users : Env → List Text → List Admin → List User → Exec BulkMemberSyncResult
sync_users env names admins [] =
    pure (record { updated_revoked = 0; revoked_admins_skipped = 0; revoked_users = [] })
sync_users env names admins (u ∷ us) = do
  branch (is_revoked env names admins u) (write_user u take_access) (pure tt)
  rest ← sync_users env names admins us
  let skips = is_skipped env names admins u
  let revokes = is_revoked env names admins u && u.allowed
  pure (record {
    updated_revoked = indicator revokes + rest.updated_revoked;
    revoked_admins_skipped = indicator skips + rest.revoked_admins_skipped;
    revoked_users =
        if revokes
        then record { tg_user_id = u.tg_user_id; tg_username = u.tg_username } ∷ rest.revoked_users
        else rest.revoked_users;
  })

unfoldable pub sync_allowed_members_from_usernames : Env → List Text → Exec BulkMemberSyncResult
unfolding sync_users
sync_allowed_members_from_usernames env names = do
  admins ← query λ db. db.admins
  users ← query λ db. db.users
  result ← sync_users env names admins users
  commit
  pure result
