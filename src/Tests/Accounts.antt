-- ===== src/Tests/Accounts.antt =====
-- The theorems on users at the sample club, where Cid is a placeholder called Cid.
use music_room_bot.Prelude.{
  ℕ, ◌≤◌, ◌≡◌, refl, ◌⊎◌, true, ◌&&◌, some, [], ◌∷◌, arith, if◌then◌else◌, strip_left, strip,
}
use music_room_bot.Db.{User, Db, has_user_id, has_booking_id}
use music_room_bot.Prelude.Rows.{select, count_rows}
use music_room_bot.Session.{integrity_error, ok, raised, fresh_session}
use music_room_bot.Tests.{env, ann, bob, cid, db}
use music_room_bot.Users.{has_tg_id, resolve_start_user}
use music_room_bot.Users.Access.{
  BulkMemberSyncResult, get_user_by_username, take_access, delete_user_by_username, is_revoked,
  is_skipped, sync_allowed_members_from_usernames,
}
use music_room_bot.Users.Deletion.{has_cancelled, erased, delete_user_by_username_lem}
use music_room_bot.Users.Registered.{is_unknown, resolve_start_user_lem}
use music_room_bot.Users.Resolve.{IsRegistered, IsRefused}
use music_room_bot.Users.Sync.{sync_allowed_members_lem}
use music_room_bot.Warnings.{update_users}

abbrev cid_by_name : User
cid_by_name = record cid { tg_username = some (67 ∷ 105 ∷ 100 ∷ []) }

abbrev with_cid : Db
with_cid = record db { users = ann ∷ bob ∷ cid_by_name ∷ [] }

with_cid-keys : (i : ℕ) → count_rows (has_user_id i) with_cid.users ≤ 1
unfolding count_rows
with_cid-keys i = ground arith

nobody_has_300 : count_rows (has_tg_id 300) with_cid.users ≤ 1
unfolding count_rows
nobody_has_300 = omega arith

resolve_start_user_lem_example :
    let out =
      resolve_start_user 300 (67 ∷ 105 ∷ 100 ∷ []) (67 ∷ 105 ∷ 100 ∷ []) (fresh_session with_cid) in
    IsRegistered 300 (is_unknown 300 (67 ∷ 105 ∷ 100 ∷ []) with_cid) out
    ⊎ ((u : User) × (select (has_tg_id 300) with_cid.users ≡ u ∷ [])
        × IsRefused (67 ∷ 105 ∷ 100 ∷ []) u.id with_cid with_cid out)
resolve_start_user_lem_example =
    resolve_start_user_lem 300 (67 ∷ 105 ∷ 100 ∷ []) (67 ∷ 105 ∷ 100 ∷ []) with_cid with_cid-keys
      nobody_has_300

sync_allowed_members_lem_example :
    let (r, s) = sync_allowed_members_from_usernames env [] (fresh_session with_cid) in
    (result : BulkMemberSyncResult) × (r ≡ ok result)
    × (result.updated_revoked
        ≡ count_rows (λ u. is_revoked env [] with_cid.admins u && u.allowed) with_cid.users)
    × (result.revoked_admins_skipped
        ≡ count_rows (is_skipped env [] with_cid.admins) with_cid.users)
    × (s.committed ≡ update_users (is_revoked env [] with_cid.admins) take_access with_cid)
    × (count_rows (λ u. is_revoked env [] with_cid.admins u && u.allowed) s.committed.users ≡ 0)
sync_allowed_members_lem_example = sync_allowed_members_lem env [] with_cid with_cid-keys

bob_by_name :
    get_user_by_username env (64 ∷ 66 ∷ 111 ∷ []) (fresh_session db)
    ≡ (ok (some bob), fresh_session db)
unfolding get_user_by_username strip strip_left select
bob_by_name = refl

db_booking_keys : (i : ℕ) → count_rows (has_booking_id i) db.bookings ≤ 1
unfolding count_rows
db_booking_keys i = ground arith

delete_user_by_username_lem_example :
    let (r, s) = delete_user_by_username env (64 ∷ 66 ∷ 111 ∷ []) (fresh_session db) in
    (r ≡ (if has_cancelled 2 db then raised integrity_error else ok true))
    × (s.committed ≡ (if has_cancelled 2 db then db else erased 2 db))
delete_user_by_username_lem_example =
    delete_user_by_username_lem env (64 ∷ 66 ∷ 111 ∷ []) db bob db_booking_keys bob_by_name
