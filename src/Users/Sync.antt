-- ===== src/Users/Sync.antt =====
-- `sync_allowed_members_from_usernames` of app/services/admin_user_commands.py.
use music_room_bot.Prelude.{
  ℕ, ◌+◌, ◌≤◌, ◌≡◌, refl, sym, ap, ◌∙◌, inl, inr, Bool, not, ◌&&◌, List, [], ◌∷◌, arith,
  if◌then◌else◌, indicator, Bool-cases, Text,
}
use music_room_bot.Db.{User, Admin, Db, has_user_id}
use music_room_bot.Prelude.Keys.{
  has_listed_key, All-has_listed_key, counts-HasKeys, update_rows_same,
}
use music_room_bot.Prelude.Rows.{select, count_rows, update_rows}
use music_room_bot.Prelude.Updates.{
  update_rows-or, update_rows-nowhere, count_rows-update_rows_out, count_rows_none,
}
use music_room_bot.Session.{ok, Env, Session, fresh_session}
use music_room_bot.Users.Access.{
  BulkMemberSyncResult, take_access, is_revoked, is_skipped, sync_users,
  sync_allowed_members_from_usernames,
}
use music_room_bot.Warnings.{update_users}

abbrev user_key : User → ℕ
user_key u = u.id

module _ (env : Env) (names : List Text) (admins : List Admin) where
  abbrev revoked_here : User → Bool
  revoked_here = is_revoked env names admins

  abbrev losing : User → Bool
  losing u = revoked_here u && u.allowed

  abbrev listed_in : List User → User → Bool
  listed_in us = has_listed_key user_key (select revoked_here us)

  listed_in-take_access :
      (us : List User) (x : User) → listed_in us (take_access x) ≡ listed_in us x
  unfolding select
  listed_in-take_access [] x = refl
  listed_in-take_access (u ∷ us) x = elim (Bool-cases (revoked_here u)) [
    | inl gone ↦ rw gone (ground (arith, listed_in-take_access us x))
    | inr kept ↦ rw kept (listed_in-take_access us x)
  ]

  abbrev session_users : Session → List User → Session
  session_users s us = record s { current = record s.current { users = us } }

  abbrev report : User → BulkMemberSyncResult → BulkMemberSyncResult
  report u rest = record {
    updated_revoked = indicator (losing u) + rest.updated_revoked;
    revoked_admins_skipped =
        indicator (is_skipped env names admins u) + rest.revoked_admins_skipped;
    revoked_users =
        if losing u
        then record { tg_user_id = u.tg_user_id; tg_username = u.tg_username } ∷ rest.revoked_users
        else rest.revoked_users;
  }

  -- What the loop returns and writes.
  sync_users_lem :
      (us : List User) (s : Session)
      → let (r, t) = sync_users env names admins us s in
        (result : BulkMemberSyncResult) × (r ≡ ok result)
        × (result.updated_revoked ≡ count_rows losing us)
        × (result.revoked_admins_skipped ≡ count_rows (is_skipped env names admins) us)
        × (t ≡ session_users s (update_rows (listed_in us) take_access s.current.users))
  unfolding sync_users count_rows select
  sync_users_lem [] s = (
    record { updated_revoked = 0; revoked_admins_skipped = 0; revoked_users = [] },
    refl,
    refl,
    refl,
    ap (session_users s) (sym (update_rows-nowhere take_access s.current.users)),
  )
  sync_users_lem (u ∷ us) s = elim (Bool-cases (revoked_here u)) [
    | inl gone ↦
        let rows = s.current.users in
        let s1 = session_users s (update_rows (has_user_id u.id) take_access rows) in
        let (rest, e, c, k, t) = sync_users_lem us s1 in
        let merged : update_rows (listed_in us) take_access
              (update_rows (has_user_id u.id) take_access rows)
            ≡ update_rows (listed_in (u ∷ us)) take_access rows =
          rw gone (
            update_rows-or (listed_in us) (has_user_id u.id) take_access rows
              (listed_in-take_access us) (λ x. refl)) in
        let run : (sync_users env names admins (u ∷ us) s).1
            ≡ (sync_users env names admins us s1).1 =
          ground (arith, gone, e) in
        (
          report u rest,
          ground (arith, gone, e),
          ground (arith, gone, c),
          ground (arith, k),
          run ∙ t ∙ ap (session_users s) merged,
        )
    | inr stays ↦
        let (rest, e, c, k, t) = sync_users_lem us s in
        let run : (sync_users env names admins (u ∷ us) s).1
            ≡ (sync_users env names admins us s).1 =
          ground (arith, stays, e) in
        (
          report u rest,
          ground (arith, stays, e),
          ground (arith, stays, c),
          ground (arith, k),
          run ∙ t ∙ rw stays refl,
        )
  ]

-- With the keys of users unique: of the users with a username that is not on the list, exactly
-- those whose account is no administrator's lose access, and nothing else changes; afterwards none
-- of them has access. The result counts those who had access and the administrators left alone.
pub sync_allowed_members_lem :
    (env : Env) (names : List Text) (db : Db)
    → ((i : ℕ) → count_rows (has_user_id i) db.users ≤ 1)
    → let (r, s) = sync_allowed_members_from_usernames env names (fresh_session db) in
      (result : BulkMemberSyncResult) × (r ≡ ok result)
      × (result.updated_revoked
          ≡ count_rows (λ u. is_revoked env names db.admins u && u.allowed) db.users)
      × (result.revoked_admins_skipped ≡ count_rows (is_skipped env names db.admins) db.users)
      × (s.committed ≡ update_users (is_revoked env names db.admins) take_access db)
      × (count_rows (λ u. is_revoked env names db.admins u && u.allowed) s.committed.users ≡ 0)
unfolding sync_allowed_members_from_usernames
sync_allowed_members_lem env names db keys =
    let p = is_revoked env names db.admins in
    let (result, e, c, k, t) = sync_users_lem env names db.admins db.users (fresh_session db) in
    let written =
      update_rows_same (has_listed_key user_key (select p db.users)) p take_access db.users
        (All-has_listed_key user_key p db.users (counts-HasKeys user_key db.users keys)) in
    let committed : (sync_allowed_members_from_usernames env names (fresh_session db)).1.committed
        ≡ update_users p take_access db =
      ground (arith, e, t, written) in
    (
      result,
      ground (arith, e),
      c,
      k,
      committed,
      ap (λ x. count_rows (λ u. p u && u.allowed) x.users) committed
          ∙ count_rows-update_rows_out (λ u. p u && u.allowed) p take_access db.users
              (λ y. ground arith)
          ∙ count_rows_none (λ u. (p u && u.allowed) && not (p u)) db.users (λ y. ground arith),
    )
