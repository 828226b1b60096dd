-- ===== src/Tests/Members.antt =====
-- The theorems on warnings and bans at the sample club.
use music_room_bot.Prelude.{◌+◌, ◌≡◌, refl, true, none, some, [], ◌∷◌, map, if◌then◌else◌}
use music_room_bot.Db.{has_user_id}
use music_room_bot.Prelude.Rows.{select, count_rows}
use music_room_bot.Session.{ok, Civil, fresh_session}
use music_room_bot.Tests.{env, ann, db, db-IsConsistent}
use music_room_bot.Time.{combine}
use music_room_bot.Warnings.{update_users, unban_expired_users, add_warning}
use music_room_bot.Warnings.Bans.{ban_duration_months, add_months}
use music_room_bot.Warnings.Laws.{warned_row, add_warning_lem}
use music_room_bot.Warnings.Lifting.{ban_is_over, unbanned, unban_expired_users_lem}
use music_room_bot.Warnings.Revert.{revert_latest_warning}
use music_room_bot.Warnings.Reverting.{revert-add_warning}

ban_ends : add_months env env.now (ban_duration_months (ann.ban_count + 1)) ≡ ok (combine 732 10)
unfolding add_months ban_duration_months
ban_ends = refl

user_one : select (has_user_id 1) db.users ≡ ann ∷ []
unfolding select
user_one = refl

add_warning_lem_example :
    let (r, s) = add_warning env 1 "noise" true (fresh_session db) in
    (r ≡ ok (if ann.banned then none else some (ann.warnings + 1)))
    × (s.committed ≡ update_users (has_user_id 1) (λ _. warned_row (combine 732 10) ann) db)
add_warning_lem_example =
    add_warning_lem env 1 "noise" true db ann (combine 732 10) user_one ban_ends

revert-add_warning_example :
    let warned = (add_warning env 1 "noise" true (fresh_session db)).1.committed in
    (revert_latest_warning env 1 true true (fresh_session warned)).1.committed ≡ db
revert-add_warning_example =
    revert-add_warning env 1 "noise" true db ann (combine 732 10) user_one ban_ends refl refl refl
      refl

unban_expired_users_lem_example :
    let (r, s) = unban_expired_users env (fresh_session db) in
    (r ≡ ok (count_rows (ban_is_over env.now) db.users))
    × (s.committed ≡ record db { users = map (unbanned env.now) db.users })
unban_expired_users_lem_example = unban_expired_users_lem env db db-IsConsistent.users_ok

abbrev end_of_november : Civil
end_of_november = record { year = 2026; month = 11; day = 30 }
