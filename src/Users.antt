-- ===== src/Users.antt =====
-- app/services/user_service.py and the lookups that app/services/admin_service.py,
-- admin_user_commands.py and form_pass_service.py share. A user without a Telegram account is a
-- placeholder, entered by an administrator by username.
pub mod Start
pub mod Resolve
pub mod Registered
pub mod Access
pub mod Grants
pub mod Sync
pub mod Deletion
use music_room_bot.Prelude.{
  ℕ, ◌+◌, Bool, true, false, not, ◌&&◌, ◌||◌, Option, none, some, List, [], ◌∷◌, ltb, ◌==◌,
  if◌then◌else◌, is_some, Text, text_eq, is_empty,
}
use music_room_bot.Db.{User, GiftOffer, SwapOffer, Admin, Db, has_user_id, owned_by}
use music_room_bot.Prelude.Rows.{select, count_rows, delete_rows}
use music_room_bot.Session.{
  integrity_error, Exec, pure, raise, branch, query, scalar_one_or_none, modify, commit, ◌>>=◌,
  ◌>>◌,
}
use music_room_bot.Warnings.{update_users}

abbrev pub has_tg_id : ℕ → User → Bool
has_tg_id tg_user_id u = elim u.tg_user_id [ none ↦ false | some t ↦ t == tg_user_id ]

abbrev pub is_admin_row : ℕ → Admin → Bool
is_admin_row tg_user_id a = a.tg_user_id == tg_user_id

-- `is_admin` of app/services/admin_service.py
unfoldable pub is_admin : ℕ → Exec Bool
is_admin tg_user_id = do
  rows ← query λ db. select (is_admin_row tg_user_id) db.admins
  found ← scalar_one_or_none rows
  pure (is_some found)

unfoldable pub get_user_by_tg_id : ℕ → Exec (Option User)
get_user_by_tg_id tg_user_id = do
  rows ← query λ db. select (has_tg_id tg_user_id) db.users
  scalar_one_or_none rows

-- A column of text that is compared with `=`, where NULL equals nothing.
abbrev pub same_text : Option Text → Text → Bool
same_text none t = false
same_text (some s) t = text_eq s t

abbrev pub is_placeholder : User → Bool
is_placeholder u = not (is_some u.tg_user_id)

-- The foreign keys to users that have no `ondelete`.
abbrev pub is_referenced : ℕ → Db → Bool
is_referenced user_id db =
    not (count_rows (owned_by user_id) db.bookings == 0)
    || not (count_rows (λ c. c.cancelled_by_user_id == user_id) db.cancellations == 0)

abbrev pub gives_or_gets_gift : ℕ → GiftOffer → Bool
gives_or_gets_gift user_id o = o.giver_user_id == user_id || o.recipient_user_id == user_id

abbrev pub gives_or_gets_swap : ℕ → SwapOffer → Bool
gives_or_gets_swap user_id o = o.giver_user_id == user_id || o.receiver_user_id == user_id

-- `DELETE FROM users`, with the rows that it takes along.
abbrev pub without_user : ℕ → Db → Db
without_user user_id db = record db {
  users = delete_rows (has_user_id user_id) db.users;
  gift_offers = delete_rows (gives_or_gets_gift user_id) db.gift_offers;
  swap_offers = delete_rows (gives_or_gets_swap user_id) db.swap_offers;
  club_leaders = delete_rows (λ l. l.user_id == user_id) db.club_leaders;
}

unfoldable pub delete_user : ℕ → Exec (Unit {0})
delete_user user_id = do
  referenced ← query (is_referenced user_id)
  branch referenced (raise integrity_error) (modify (without_user user_id))

unfoldable pub delete_users : List User → Exec (Unit {0})
delete_users [] = pure tt
delete_users (u ∷ us) = do delete_user u.id; delete_users us

abbrev pub is_stale_placeholder : Text → ℕ → User → Bool
is_stale_placeholder tg_username keep_user_id u =
    is_placeholder u && (same_text u.tg_username tg_username && not (u.id == keep_user_id))

unfoldable pub delete_stale_username_placeholders : Text → ℕ → Exec (Unit {0})
unfolding delete_users
delete_stale_username_placeholders tg_username keep_user_id = do
  stale ← query λ db. select (is_stale_placeholder tg_username keep_user_id) db.users
  delete_users stale

-- `ORDER BY users.id DESC`, and the first with a test.
abbrev pub insert_newest : User → List User → List User
insert_newest u [] = u ∷ []
insert_newest u (v ∷ vs) = if ltb u.id v.id then v ∷ insert_newest u vs else u ∷ v ∷ vs

unfoldable pub newest_first : List User → List User
newest_first [] = []
newest_first (u ∷ us) = insert_newest u (newest_first us)

abbrev pub first_with : (User → Bool) → List User → Option User
first_with p [] = none
first_with p (u ∷ us) = if p u then some u else first_with p us

-- An assignment to the columns of one user.
abbrev pub write_user : User → (User → User) → Exec (Unit {0})
write_user u f = modify (update_users (has_user_id u.id) f)

abbrev pub bind : ℕ → Text → User → User
bind tg_user_id tg_username u = record u {
  tg_user_id = some tg_user_id;
  tg_username = some tg_username;
}

unfoldable pub bind_latest_username_placeholder : ℕ → Text → Exec (Option User)
unfolding newest_first
bind_latest_username_placeholder tg_user_id tg_username = do
  rows ← query λ db. newest_first (select (λ u. same_text u.tg_username tg_username) db.users)
  elim (first_with is_placeholder rows) [
    | none ↦ pure none
    | some u ↦ do
      occupied ← query λ db. not (count_rows (has_tg_id tg_user_id) db.users == 0)
      branch occupied (raise integrity_error) do
        write_user u (bind tg_user_id tg_username)
        commit
        pure (some (bind tg_user_id tg_username u))
  ]

-- `User()` with its columns; `tg_user_id` is unique.
abbrev pub new_user : Option ℕ → Option Text → Option Text → Bool → ℕ → User
new_user tg_user_id tg_username full_name allowed new_id = record {
  id = new_id;
  tg_user_id = tg_user_id;
  tg_username = tg_username;
  full_name = full_name;
  allowed = allowed;
  warnings = 0;
  banned = false;
  ban_reason = none;
  ban_count = 0;
  banned_until = none;
}

abbrev pub with_user : User → Db → Db
with_user u db = record db { users = u ∷ db.users; next_user_id = db.next_user_id + 1 }

abbrev pub is_taken : Option ℕ → Db → Bool
is_taken none db = false
is_taken (some tg_user_id) db = not (count_rows (has_tg_id tg_user_id) db.users == 0)

unfoldable pub add_user : Option ℕ → Option Text → Option Text → Bool → Exec User
add_user tg_user_id tg_username full_name allowed = do
  occupied ← query (is_taken tg_user_id)
  branch occupied (raise integrity_error) do
    new_id ← query λ db. db.next_user_id
    let u = new_user tg_user_id tg_username full_name allowed new_id
    modify (with_user u)
    commit
    pure u

-- The columns that `create_or_update_user` writes.
abbrev pub or_name : Option Text → Option Text → Option Text
or_name none old = old
or_name (some n) old = some n

abbrev pub update_columns : Option Text → Option Text → Bool → User → User
update_columns tg_username full_name allowed u = record u {
  tg_username = tg_username;
  full_name = or_name full_name u.full_name;
  allowed = allowed || u.allowed;
}

unfoldable pub create_or_update_user : ℕ → Option Text → Option Text → Bool → Exec User
unfolding get_user_by_tg_id add_user
create_or_update_user tg_user_id tg_username full_name allowed = do
  found ← get_user_by_tg_id tg_user_id
  elim found [
    | none ↦ add_user (some tg_user_id) tg_username full_name allowed
    | some u ↦ do
      write_user u (update_columns tg_username full_name allowed)
      commit
      pure (update_columns tg_username full_name allowed u)
  ]

pub record StartUserResult : Type 0 where
  pub user : User
  pub created : Bool

-- `if not user.full_name`
abbrev pub is_blank : Option Text → Bool
is_blank none = true
is_blank (some t) = is_empty t

abbrev pub name_from : Text → User → User
name_from telegram_full_name u =
    if is_blank u.full_name then record u { full_name = some telegram_full_name } else u

abbrev pub rename_to : Text → User → User
rename_to tg_username u = record u { tg_username = some tg_username }

-- The end of `resolve_start_user` for a user that is known or was bound.
unfoldable pub refresh_user : User → Text → Text → Exec StartUserResult
refresh_user user tg_username telegram_full_name = do
  let renames = not (is_empty tg_username) && not (same_text user.tg_username tg_username)
  let named = if renames then rename_to tg_username user else user
  branch renames
      (do
        delete_stale_username_placeholders tg_username user.id
        write_user user (rename_to tg_username))
      (pure tt)
  write_user user (name_from telegram_full_name)
  commit
  pure (record { user = name_from telegram_full_name named; created = false })

unfoldable pub start_unknown : ℕ → Text → Text → Option User → Exec StartUserResult
start_unknown tg_user_id tg_username telegram_full_name none = do
  u ← create_or_update_user tg_user_id (some tg_username) (some telegram_full_name) false
  pure (record { user = u; created = true })
start_unknown tg_user_id tg_username telegram_full_name (some u) =
    refresh_user u tg_username telegram_full_name

unfoldable pub start_as : ℕ → Text → Text → Option User → Exec StartUserResult
start_as tg_user_id tg_username telegram_full_name none = do
  bound ←
      (branch (is_empty tg_username) (pure none)
        (bind_latest_username_placeholder tg_user_id tg_username))
  start_unknown tg_user_id tg_username telegram_full_name bound
start_as tg_user_id tg_username telegram_full_name (some u) = do
  branch (is_empty tg_username) (pure tt) (delete_stale_username_placeholders tg_username u.id)
  refresh_user u tg_username telegram_full_name

unfoldable pub resolve_start_user : ℕ → Text → Text → Exec StartUserResult
resolve_start_user tg_user_id tg_username telegram_full_name = do
  found ← get_user_by_tg_id tg_user_id
  start_as tg_user_id tg_username telegram_full_name found
