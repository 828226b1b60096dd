-- ===== src/Users/Grants.antt =====
-- `grant_form_pass_access` of app/services/form_pass_service.py and `allow_or_add_user` of
-- app/services/admin_user_commands.py, which give access by username. Changes of objects reach the
-- database with the commit, so the rows to delete are collected up to there.
use music_room_bot.Prelude.{
  Bool, true, false, not, ◌&&◌, ◌||◌, Option, none, some, List, [], ◌∷◌, ◌++◌, leb, if◌then◌else◌,
  is_some, length, Text, text_eq, is_empty, strip_left, strip,
}
use music_room_bot.Bookings.Gifts.{has_username}
use music_room_bot.Db.{User}
use music_room_bot.Prelude.Rows.{select}
use music_room_bot.Session.{Env, Exec, pure, branch, query, commit, ◌>>=◌, ◌>>◌}
use music_room_bot.Users.{
  same_text, is_placeholder, delete_users, newest_first, first_with, write_user, add_user,
}
use music_room_bot.Users.Access.{is_at_sign}

data FormPassGrantStatus : Type 0 where
  granted not_found is_banned has_access : FormPassGrantStatus

record FormPassGrantResult : Type 0 where
  status : FormPassGrantStatus
  user : Option User

data AllowOrAddStatus : Type 0 where
  created updated already_allowed still_banned : AllowOrAddStatus

record AllowOrAddUserResult : Type 0 where
  status : AllowOrAddStatus
  user : User
  did_allow : Bool
  did_rename : Bool

-- The user, the placeholders that are left, and those to delete with the commit.
record Lookup : Type 0 where
  user : Option User
  placeholders : List User
  pending : List User

abbrev is_named : Text → User → Bool
is_named full_name u = not (is_placeholder u) && same_text u.full_name full_name

-- `user.tg_username = username`, where it differs.
abbrev take_username : Bool → Text → User → User
take_username renames name u = if renames then record u { tg_username = some name } else u

-- The only user with the full name takes the place of the placeholders.
abbrev adopt : Bool → Text → List User → List User → Lookup
adopt renames name placeholders [] = record {
  user = none;
  placeholders = placeholders;
  pending = [];
}
adopt renames name placeholders (c ∷ []) = record {
  user = some (take_username renames name c);
  placeholders = [];
  pending = placeholders;
}
adopt renames name placeholders (c ∷ d ∷ r) = record {
  user = none;
  placeholders = placeholders;
  pending = [];
}

unfoldable lookup_user : Env → Bool → Text → Option Text → Exec Lookup
unfolding newest_first
lookup_user env renames name full_name = do
  users ← query λ db. newest_first (select (has_username env name) db.users)
  let placeholders = select is_placeholder users
  let known = first_with (λ u. not (is_placeholder u)) users
  let plain : Lookup = record { user = known; placeholders = placeholders; pending = [] }
  elim full_name [
    | none ↦ pure plain
    | some full ↦ branch (is_some known || leb (length placeholders) 0) (pure plain) do
      candidates ← query λ db. newest_first (select (is_named full) db.users)
      pure (adopt renames name placeholders candidates)
  ]

-- The object's row as it stands, with the commit.
unfoldable commit_user : User → List User → Exec (Unit {0})
unfolding delete_users
commit_user u gone = do write_user u (λ _. u); delete_users gone; commit

abbrev grant_to : Text → User → User
grant_to full_name u = record u {
  allowed = true;
  full_name = if is_empty full_name then u.full_name else some full_name;
}

abbrev if_account : User → List User → List User
if_account u placeholders = if is_placeholder u then [] else placeholders

unfoldable grant_found : Text → Lookup → Option User → Exec FormPassGrantResult
unfolding commit_user
grant_found full_name found none = pure (record { status = not_found; user = none })
grant_found full_name found (some u) =
    branch u.banned (pure (record { status = is_banned; user = some u })) (
      branch u.allowed (pure (record { status = has_access; user = some u })) do
        commit_user (grant_to full_name u) (found.pending ++ if_account u found.placeholders)
        pure (record { status = granted; user = some (grant_to full_name u) }))

abbrev if_given : Text → Option Text
if_given t = if is_empty t then none else some t

unfoldable grant_form_pass_access : Env → Text → Text → Exec FormPassGrantResult
unfolding grant_found lookup_user strip strip_left
grant_form_pass_access env username full_name = do
  let name = env.lower (strip_left is_at_sign (strip env.is_space username))
  found ← lookup_user env (not (is_empty name)) name (if_given full_name)
  grant_found full_name found found.user

-- `full_name is not None and full_name != (user.full_name or "")`
abbrev renames_to : Option Text → User → Bool
renames_to none u = false
renames_to (some full) u = elim u.full_name [
  | none ↦ not (is_empty full)
  | some t ↦ not (text_eq full t)
]

abbrev allow_as : Option Text → User → User
allow_as full_name u = record u {
  allowed = true;
  full_name = if renames_to full_name u then full_name else u.full_name;
}

unfoldable allow_found : Text → Option Text → Lookup → Option User → Exec AllowOrAddUserResult
unfolding commit_user add_user
allow_found name full_name found none = do
  u ← add_user none (some name) full_name true
  pure (record { status = created; user = u; did_allow = true; did_rename = is_some full_name })
allow_found name full_name found (some u) =
    let unchanged : AllowOrAddUserResult = record {
      status = still_banned;
      user = u;
      did_allow = false;
      did_rename = false;
    } in
    branch u.banned (pure unchanged) (
      branch (u.allowed && not (renames_to full_name u))
        (pure (record unchanged { status = already_allowed }))
        do
          commit_user (allow_as full_name u) (found.pending ++ found.placeholders)
          pure (record {
            status = updated;
            user = allow_as full_name u;
            did_allow = not u.allowed;
            did_rename = renames_to full_name u;
          }))

unfoldable allow_or_add_user : Env → Text → Option Text → Exec AllowOrAddUserResult
unfolding allow_found lookup_user strip strip_left
allow_or_add_user env username full_name = do
  let name = env.lower (strip_left is_at_sign (strip env.is_space username))
  found ← lookup_user env true name full_name
  allow_found name full_name found found.user
