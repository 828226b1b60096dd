-- ===== src/Users/Registered.antt =====
-- `resolve_start_user` of app/services/user_service.py as a whole.
-- Nobody has the account, and no placeholder has the username.
use mathlib.Core.Path.{subst}
use music_room_bot.Prelude.{
  ℕ, ◌≤◌, ◌≡◌, sym, ap, ◌∙◌, ◌⊎◌, inl, inr, Bool, true, false, ◌&&◌, ◌||◌, none, some, List, [],
  ◌∷◌, arith, ◌==◌, Bool-cases, Option-cases, length, Text, is_empty,
}
use music_room_bot.Db.{User, Db, has_user_id}
use music_room_bot.Prelude.Members.{Member-select, Member-pos, count_rows-Member, select-Member}
use music_room_bot.Prelude.Rows.{select, count_rows, select_nil, select_count}
use music_room_bot.Session.{fresh_session}
use music_room_bot.Session.Laws.{scalar_cases}
use music_room_bot.Users.{
  has_tg_id, get_user_by_tg_id, same_text, is_placeholder, newest_first, first_with,
  bind_latest_username_placeholder, start_unknown, start_as, resolve_start_user,
}
use music_room_bot.Users.Resolve.{IsRegistered, IsRefused, known_lem, added_lem, bound_lem}
use music_room_bot.Users.Start.{
  newest_first-Member, first_with-Member, newest_first-keeps, first_with-none,
}

abbrev pub is_unknown : ℕ → Text → Db → Bool
is_unknown t name db =
    count_rows (has_tg_id t) db.users == 0
    && (is_empty name
        || count_rows (λ u. same_text u.tg_username name && is_placeholder u) db.users == 0)

module _ (t : ℕ) (name full : Text) (db : Db)
    (keys : (i : ℕ) → count_rows (has_user_id i) db.users ≤ 1) where
  abbrev placeholders : List User
  placeholders = newest_first (select (λ u. same_text u.tg_username name) db.users)

  none_to_bind :
      first_with is_placeholder placeholders ≡ none
      → count_rows (λ u. same_text u.tg_username name && is_placeholder u) db.users ≡ 0
  none_to_bind e = count_rows-Member _ db.users (λ u m.
      elim (Bool-cases (same_text u.tg_username name)) [
        | inl same ↦ ground (
          arith,
          first_with-none is_placeholder placeholders u e (
              newest_first-keeps u _
                (select-Member (λ x. same_text x.tg_username name) db.users u m same)),
        )
        | inr other ↦ ground (arith, other)
      ])

  one_to_bind :
      (u : User)
      → first_with is_placeholder placeholders ≡ some u
      → 1 ≤ count_rows (λ x. same_text x.tg_username name && is_placeholder x) db.users
  one_to_bind u e =
      let (listed, free) = first_with-Member is_placeholder placeholders u e in
      let (row, same) =
        Member-select (λ x. same_text x.tg_username name) db.users u
          (newest_first-Member u _ listed) in
      Member-pos _ db.users u row (ground (arith, same, free))

  -- The run adds a row for the account, and nobody else has it.
  adds :
      count_rows (has_tg_id t) db.users ≡ 0
      → is_unknown t name db ≡ true
      → start_as t name full none (fresh_session db)
        ≡ start_unknown t name full none (fresh_session db)
      → IsRegistered t (is_unknown t name db) (start_as t name full none (fresh_session db))
  adds nobody unknown run =
      subst (λ b. IsRegistered t b (start_as t name full none (fresh_session db))) (sym unknown)
        (subst (IsRegistered t true) (sym run) (added_lem t name full db keys nobody))

  nobody_lem :
      count_rows (has_tg_id t) db.users ≡ 0
      → IsRegistered t (is_unknown t name db) (start_as t name full none (fresh_session db))
  unfolding start_as bind_latest_username_placeholder
  nobody_lem nobody = elim (Bool-cases (is_empty name)) [
    | inl blank ↦ adds nobody (ground (arith, nobody, blank)) (ground (arith, blank))
    | inr named ↦ elim (Option-cases (first_with is_placeholder placeholders)) [
      | inl none_free ↦
          adds nobody (ground (arith, nobody, none_to_bind none_free))
            (ground (arith, named, none_free))
      | inr (u, chosen) ↦
          let known : is_unknown t name db ≡ false =
            ground (arith, nobody, named, one_to_bind u chosen) in
          subst (λ b. IsRegistered t b (start_as t name full none (fresh_session db))) (sym known)
            (bound_lem t name full db keys u nobody named chosen)
    ]
  ]

  -- With the keys and the accounts of users unique: either the result is a user with the account,
  -- and exactly one committed row has it; the user is reported as new exactly if nobody had the
  -- account before and no placeholder had the username. Or IntegrityError is raised and nothing is
  -- committed; then one user has the account, and another row, a placeholder with the username, has
  -- a booking or a cancellation.
  pub resolve_start_user_lem :
      count_rows (has_tg_id t) db.users ≤ 1
      → IsRegistered t (is_unknown t name db) (resolve_start_user t name full (fresh_session db))
        ⊎ ((u : User) × (select (has_tg_id t) db.users ≡ u ∷ [])
            × IsRefused name u.id db db (resolve_start_user t name full (fresh_session db)))
  unfolding resolve_start_user get_user_by_tg_id
  resolve_start_user_lem unique = elim (scalar_cases (has_tg_id t) db.users unique) [
    | inl none_there ↦
        let nobody = select_nil (has_tg_id t) db.users none_there in
        let run : resolve_start_user t name full (fresh_session db)
            ≡ start_as t name full none (fresh_session db) =
          ground (arith, none_there) in
        inl (subst (IsRegistered t (is_unknown t name db)) (sym run) (nobody_lem nobody))
    | inr (u, found, there) ↦
        let one : count_rows (has_tg_id t) db.users ≡ 1 =
          ground (arith, select_count (has_tg_id t) db.users, ap length found) in
        let known : is_unknown t name db ≡ false = ground (arith, one) in
        let run : resolve_start_user t name full (fresh_session db)
            ≡ start_as t name full (some u) (fresh_session db) =
          ground (arith, found) in
        let is_theirs : u.tg_user_id ≡ some t = ground (arith, there) in
        elim (known_lem t name full db keys u is_theirs one) [
          | inl r ↦ inl (
              subst (λ b. IsRegistered t b (resolve_start_user t name full (fresh_session db)))
                (sym known) (subst (IsRegistered t false) (sym run) r))
          | inr (e, d, w) ↦
              inr (u, found, (ap (λ out. out.0) run ∙ e, ap (λ out. out.1.committed) run ∙ d, w))
        ]
  ]
