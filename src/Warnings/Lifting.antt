-- ===== src/Warnings/Lifting.antt =====
-- The nightly job `unban_expired_users` of app/services/warning_service.py.
use music_room_bot.Prelude.{
  ℕ, ◌≤◌, ◌≡◌, refl, sym, ap, ◌∙◌, Bool, false, ◌&&◌, ◌||◌, none, some, List, [], ◌∷◌, map, arith,
  leb, if◌then◌else◌,
}
use music_room_bot.Db.{User, Db, has_user_id}
use music_room_bot.Prelude.Keys.{
  has_listed_key, All-has_listed_key, counts-HasKeys, update_rows_same,
}
use music_room_bot.Prelude.Rows.{select, count_rows, update_rows, select_count}
use music_room_bot.Session.{ok, ban_lifted, Env, Session, fresh_session}
use music_room_bot.Session.Send.{send_if_some, OnlyEvents, send_if_some-OnlyEvents}
use music_room_bot.Warnings.{
  update_users, is_expired_ban, lift_ban, lift_bans, notify_unbanned, unban_expired_users,
}

abbrev user_key : User → ℕ
user_key u = u.id

abbrev has_listed_id : List User → User → Bool
has_listed_id = has_listed_key user_key

merge_lifts :
    (p q : User → Bool) (xs : List User)
    → ((x : User) → p (lift_ban x) ≡ p x)
    → update_rows p lift_ban (update_rows q lift_ban xs) ≡ update_rows (λ x. q x || p x) lift_ban xs
unfolding update_rows
merge_lifts p q [] h = refl
merge_lifts p q (x ∷ xs) h = ground (arith, h x, merge_lifts p q xs h)

has_listed_id-lift_ban :
    (us : List User) (x : User) → has_listed_id us (lift_ban x) ≡ has_listed_id us x
has_listed_id-lift_ban [] x = refl
has_listed_id-lift_ban (u ∷ us) x = ground (arith, has_listed_id-lift_ban us x)

update_nothing : (xs : List User) → update_rows (λ _. false) lift_ban xs ≡ xs
unfolding update_rows
update_nothing [] = refl
update_nothing (x ∷ xs) = ap (◌∷◌ x) (update_nothing xs)

lift_bans_lem :
    (us : List User) (db : Db) → lift_bans us db ≡ update_users (has_listed_id us) lift_ban db
unfolding lift_bans
lift_bans_lem [] db = ap (λ rows. record db { users = rows }) (sym (update_nothing db.users))
lift_bans_lem (u ∷ us) db =
    lift_bans_lem us (update_users (has_user_id u.id) lift_ban db)
    ∙ ap (λ rows. record db { users = rows })
        (merge_lifts (has_listed_id us) (has_user_id u.id) db.users (has_listed_id-lift_ban us))

notify_unbanned-OnlyEvents :
    (env : Env) (us : List User) (s : Session) → OnlyEvents (notify_unbanned env us s) s
unfolding notify_unbanned
notify_unbanned-OnlyEvents env [] s = ground arith
notify_unbanned-OnlyEvents env (u ∷ us) s = ground (
  arith,
  send_if_some-OnlyEvents env s u.tg_user_id ban_lifted,
  notify_unbanned-OnlyEvents env us (send_if_some env u.tg_user_id ban_lifted s).1,
)

-- A ban with an end, which is not after now.
abbrev pub ban_is_over : ℕ → User → Bool
ban_is_over now u = elim u.banned_until [ none ↦ false | some until ↦ u.banned && leb until now ]

-- A user after the job, column by column.
abbrev pub unbanned : ℕ → User → User
unbanned now u =
    if ban_is_over now u
    then record {
      id = u.id;
      tg_user_id = u.tg_user_id;
      tg_username = u.tg_username;
      full_name = u.full_name;
      allowed = u.allowed;
      warnings = u.warnings;
      banned = false;
      ban_reason = none;
      ban_count = u.ban_count;
      banned_until = none;
    }
    else u

lifted_rows :
    (now : ℕ) (us : List User)
    → (update_rows (is_expired_ban now) lift_ban us ≡ map (unbanned now) us)
      × (count_rows (is_expired_ban now) us ≡ count_rows (ban_is_over now) us)
unfolding update_rows count_rows
lifted_rows now [] = (refl, refl)
lifted_rows now (u ∷ us) = let (r, c) = lifted_rows now us in (ground (arith, r), ground (arith, c))

-- With the keys of users unique, the committed users are those before, but that whoever has a ban
-- with an end by now is not banned, without reason and end; access, warnings and the number of bans
-- stay. The result is the number of those users, and nothing else changes.
pub unban_expired_users_lem :
    (env : Env) (db : Db)
    → ((i : ℕ) → count_rows (has_user_id i) db.users ≤ 1)
    → let (r, s) = unban_expired_users env (fresh_session db) in
      (r ≡ ok (count_rows (ban_is_over env.now) db.users))
      × (s.committed ≡ record db { users = map (unbanned env.now) db.users })
unfolding unban_expired_users
unban_expired_users_lem env db k =
    let p = is_expired_ban env.now in
    let us = select p db.users in
    let t = lift_bans us db in
    ground (
      arith,
      select_count p db.users,
      lift_bans_lem us db,
      lifted_rows env.now db.users,
      ap (λ (rows : List User). record db { users = rows })
          (update_rows_same (has_listed_id us) p lift_ban db.users
            (All-has_listed_key user_key p db.users (counts-HasKeys user_key db.users k))),
      notify_unbanned-OnlyEvents env us (record (fresh_session db) { committed = t; current = t }),
    )
