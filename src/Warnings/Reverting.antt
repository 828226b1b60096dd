-- ===== src/Warnings/Reverting.antt =====
-- `revert_latest_warning` of app/services/warning_service.py, also after `add_warning`.
use Prim.Native.String.{String}
use music_room_bot.Prelude.{
  ℕ, ◌+◌, ◌≡◌, ap, ◌∙◌, Bool, true, false, none, some, [], ◌∷◌, arith, if◌then◌else◌,
}
use music_room_bot.Db.{User, Db, has_user_id}
use music_room_bot.Prelude.Rows.{select}
use music_room_bot.Session.{ok, warning_reverted, access_granted, Env, Session, fresh_session}
use music_room_bot.Session.Send.{OnlyEvents, send_to_user-OnlyEvents}
use music_room_bot.Warnings.{update_users, WarningRevertResult, add_warning}
use music_room_bot.Warnings.Bans.{ban_duration_months, add_months}
use music_room_bot.Warnings.Laws.{warned_row, found_id, overwritten, unwritten, add_warning_lem}
use music_room_bot.Warnings.Revert.{
  reverted_columns, revert_result, notify_revert, revert_user, revert_latest_warning,
}

module _ (env : Env) (user_id : ℕ) (appeal : Bool) (db : Db) (u : User)
    (found : select (has_user_id user_id) db.users ≡ u ∷ []) where
  notify_revert-OnlyEvents :
      (result : WarningRevertResult) (s : Session)
      → OnlyEvents (notify_revert env appeal u result s) s
  unfolding notify_revert
  notify_revert-OnlyEvents result s = send_to_user-OnlyEvents env s u.tg_user_id (λ tg.
      if result.was_banned
      then access_granted tg appeal
      else warning_reverted tg appeal result.warnings)

  -- With one row for the user, reverting a warning reports and commits the columns that a revert
  -- writes to that row: one warning less, and a ban lifted with its access and, if asked, its count.
  pub revert_latest_warning_lem :
      (decrement : Bool)
      → let (r, s) = revert_latest_warning env user_id decrement appeal (fresh_session db) in
        (r ≡ ok (some (revert_result decrement u)))
        × (s.committed ≡ update_users (has_user_id user_id) (λ _. reverted_columns decrement u) db)
  unfolding revert_latest_warning revert_user
  revert_latest_warning_lem decrement =
      let t = update_users (has_user_id user_id) (λ _. reverted_columns decrement u) db in
      ground (
        arith,
        found,
        found_id user_id db u found,
        notify_revert-OnlyEvents (revert_result decrement u)
            (record (fresh_session db) { current = t; committed = t }),
      )

warned_row_id : (until : ℕ) (u : User) → (warned_row until u).id ≡ u.id
unfolding warned_row
warned_row_id until u = ground arith

-- The row of a member in good standing comes back from a warning and its reversal.
reverted-warned :
    (until : ℕ) (u : User)
    → u.allowed ≡ true
    → u.banned ≡ false
    → u.ban_reason ≡ none
    → u.banned_until ≡ none
    → reverted_columns true (warned_row until u) ≡ u
unfolding warned_row
reverted-warned until u a b c d = ground arith

-- With one row for the user, who has access, no ban and no columns of a former one, and the end of
-- the next ban a date of the calendar, reverting a warning restores the database as it was before
-- the warning, also where the warning was the third and banned the member.
pub revert-add_warning :
    (env : Env) (user_id : ℕ) (reason : String) (appeal : Bool) (db : Db) (u : User) (until : ℕ)
    → select (has_user_id user_id) db.users ≡ u ∷ []
    → add_months env env.now (ban_duration_months (u.ban_count + 1)) ≡ ok until
    → u.allowed ≡ true
    → u.banned ≡ false
    → u.ban_reason ≡ none
    → u.banned_until ≡ none
    → let warned = (add_warning env user_id reason appeal (fresh_session db)).1.committed in
      (revert_latest_warning env user_id true appeal (fresh_session warned)).1.committed ≡ db
revert-add_warning env user_id reason appeal db u until found ends a b c d =
    let t = warned_row until u in
    let db' = update_users (has_user_id user_id) (λ _. t) db in
    let same_id : t.id ≡ u.id = warned_row_id until u in
    let (found', again) = overwritten user_id db u found t u same_id in
    rw (add_warning_lem env user_id reason appeal db u until found ends).1 (
      (revert_latest_warning_lem env user_id appeal db' t found' true).1
      ∙ ap (λ row. update_users (has_user_id user_id) (λ _. row) db')
          (reverted-warned until u a b c d)
      ∙ again
      ∙ unwritten user_id db u found)
