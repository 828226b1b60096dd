-- ===== src/Users/Resolve.antt =====
-- The ends of `resolve_start_user` of app/services/user_service.py.
use mathlib.Core.Path.{subst}
use music_room_bot.Prelude.{
  text_eq_refl, ℕ, ◌≤◌, ◌≡◌, refl, sym, ◌∙◌, ◌⊎◌, inl, inr, Bool, true, false, not, ◌&&◌, none,
  some, [], arith, Bool-cases, Text, is_empty,
}
use music_room_bot.Db.{User, Db, has_user_id}
use music_room_bot.Prelude.Members.{Member-select, Member-unique}
use music_room_bot.Prelude.Rows.{
  select, count_rows, update_rows, count_rows-update_rows, select_none, count_rows-update_row,
}
use music_room_bot.Session.{integrity_error, Outcome, ok, raised, Session, fresh_session}
use music_room_bot.Users.{
  has_tg_id, get_user_by_tg_id, same_text, is_placeholder, delete_stale_username_placeholders,
  newest_first, first_with, bind, bind_latest_username_placeholder, new_user, with_user, add_user,
  create_or_update_user, StartUserResult, name_from, rename_to, refresh_user, start_unknown,
  start_as,
}
use music_room_bot.Users.Start.{
  tg_count, is_in_the_way, delete_stale-IsSwept, newest_first-Member, first_with-Member,
}
use music_room_bot.Warnings.{update_users}

pub record IsRegistered (t : ℕ) (is_new : Bool) (out : Outcome StartUserResult × Session)
    : Type 0 where
  pub result : StartUserResult
  pub returned : out.0 ≡ ok result
  pub account : result.user.tg_user_id ≡ some t
  pub newness : result.created ≡ is_new
  pub one : count_rows (has_tg_id t) out.1.committed.users ≡ 1

-- IntegrityError, with nothing committed, for a placeholder with the name in the tables `db`, other
-- than the row `keep`, that still has a booking or a cancellation.
abbrev pub IsRefused : Text → ℕ → Db → Db → Outcome StartUserResult × Session → Type 0
IsRefused name keep db committed out =
    (out.0 ≡ raised integrity_error)
    × (out.1.committed ≡ committed)
    × (1 ≤ count_rows (is_in_the_way name keep db.bookings db.cancellations) db.users)

name_from-has_tg_id :
    (t : ℕ) (full : Text) (u : User) → has_tg_id t (name_from full u) ≡ has_tg_id t u
name_from-has_tg_id t full u = ground arith

name_from-account : (full : Text) (u : User) → (name_from full u).tg_user_id ≡ u.tg_user_id
name_from-account full u = ground arith

module _ (t : ℕ) (name full : Text) where
  refresh_kept :
      (u : User) (s : Session)
      → u.tg_user_id ≡ some t
      → tg_count t s ≡ 1
      → (not (is_empty name) && not (same_text u.tg_username name)) ≡ false
      → IsRegistered t false (refresh_user u name full s)
  unfolding refresh_user
  refresh_kept u s account one kept = record {
    result = record { user = name_from full u; created = false };
    returned = ground (arith, kept);
    account = name_from-account full u ∙ account;
    newness = refl;
    one = ground (
      arith,
      kept,
      one,
      count_rows-update_rows (has_tg_id t) (has_user_id u.id) (name_from full) s.current.users
          (name_from-has_tg_id t full),
    );
  }

  refresh_user_lem :
      (u : User) (s : Session)
      → u.tg_user_id ≡ some t
      → tg_count t s ≡ 1
      → ((i : ℕ) → count_rows (has_user_id i) s.current.users ≤ 1)
      → IsRegistered t false (refresh_user u name full s)
        ⊎ IsRefused name u.id s.current s.committed (refresh_user u name full s)
  unfolding refresh_user
  refresh_user_lem u s account one keys =
      elim (Bool-cases (not (is_empty name) && not (same_text u.tg_username name))) [
        | inr kept ↦ inl (refresh_kept u s account one kept)
        | inl renamed ↦ elim (delete_stale-IsSwept t name u.id s keys) [
          | inr (e, d, w) ↦ inr (ground (arith, renamed, e), ground (arith, renamed, e, d), w)
          | inl (e, c, d, l, bs, cs) ↦
              let s1 = (delete_stale_username_placeholders name u.id s).1 in
              let rows = update_rows (has_user_id u.id) (rename_to name) s1.current.users in
              inl (record {
                result = record { user = name_from full (rename_to name u); created = false };
                returned = ground (arith, renamed, e);
                account = name_from-account full (rename_to name u) ∙ account;
                newness = refl;
                one = ground (
                  arith,
                  renamed,
                  e,
                  c,
                  one,
                  count_rows-update_rows (has_tg_id t) (has_user_id u.id) (rename_to name)
                      s1.current.users (λ x. refl),
                  count_rows-update_rows (has_tg_id t) (has_user_id u.id) (name_from full) rows
                      (name_from-has_tg_id t full),
                );
              })
        ]
      ]

  module _ (db : Db) (keys : (i : ℕ) → count_rows (has_user_id i) db.users ≤ 1) where
    pub known_lem :
        (u : User)
        → u.tg_user_id ≡ some t
        → count_rows (has_tg_id t) db.users ≡ 1
        → IsRegistered t false (start_as t name full (some u) (fresh_session db))
          ⊎ IsRefused name u.id db db (start_as t name full (some u) (fresh_session db))
    unfolding start_as
    known_lem u account one = elim (Bool-cases (is_empty name)) [
      | inl blank ↦ rw blank (refresh_user_lem u (fresh_session db) account one keys)
      | inr named ↦ elim (delete_stale-IsSwept t name u.id (fresh_session db) keys) [
        | inr (e, d, w) ↦ inr (ground (arith, named, e), ground (arith, named, e, d), w)
        | inl (e, c, d, l, bs, cs) ↦
            let s1 = (delete_stale_username_placeholders name u.id (fresh_session db)).1 in
            let same : start_as t name full (some u) (fresh_session db)
                ≡ refresh_user u name full s1 =
              ground (arith, named, e) in
            subst (λ out. IsRegistered t false out ⊎ IsRefused name u.id db db out) (sym same)
              (elim (refresh_user_lem u s1 account (omega (arith, c, one))
                (λ i. omega (arith, l (has_user_id i), keys i))) [
                  | inl r ↦ inl r
                  | inr (x, y, w) ↦ inr (
                    x,
                    y ∙ d,
                    ground (
                      arith,
                      bs,
                      cs,
                      w,
                      l (is_in_the_way name u.id s1.current.bookings s1.current.cancellations),
                    ),
                  )
                ])
      ]
    ]

    abbrev added : User
    added = new_user (some t) (some name) (some full) false db.next_user_id

    added_run :
        count_rows (has_tg_id t) db.users ≡ 0
        → start_unknown t name full none (fresh_session db)
          ≡ (ok (record { user = added; created = true }), fresh_session (with_user added db))
    unfolding start_unknown create_or_update_user get_user_by_tg_id add_user
    added_run nobody = ground (arith, select_none (has_tg_id t) db.users nobody, nobody)

    pub added_lem :
        count_rows (has_tg_id t) db.users ≡ 0
        → IsRegistered t true (start_unknown t name full none (fresh_session db))
    unfolding count_rows
    added_lem nobody = rw (added_run nobody) (record {
      result = record { user = added; created = true };
      returned = refl;
      account = refl;
      newness = refl;
      one = ground (arith, nobody);
    })

    -- The placeholder that is bound.
    abbrev pub is_bindable : User → Bool
    is_bindable u = same_text u.tg_username name && is_placeholder u

    pub bound_lem :
        (u : User)
        → count_rows (has_tg_id t) db.users ≡ 0
        → is_empty name ≡ false
        → first_with is_placeholder
            (newest_first (select (λ x. same_text x.tg_username name) db.users))
          ≡ some u
        → IsRegistered t false (start_as t name full none (fresh_session db))
    unfolding start_as bind_latest_username_placeholder start_unknown
    bound_lem u nobody named chosen =
        let bound_db = update_users (has_user_id u.id) (bind t name) db in
        let (listed, free) = first_with-Member is_placeholder _ u chosen in
        let (row, same) =
          Member-select (λ x. same_text x.tg_username name) db.users u
            (newest_first-Member u _ listed) in
        let run : start_as t name full none (fresh_session db)
            ≡ refresh_user (bind t name u) name full (fresh_session bound_db) =
          ground (arith, named, chosen, nobody) in
        subst (IsRegistered t false) (sym run) (
          refresh_kept (bind t name u) (fresh_session bound_db) refl
            (ground (
              arith,
              nobody,
              free,
              count_rows-update_row (has_user_id u.id) (has_tg_id t) (has_user_id u.id)
                  (bind t name) db.users u []
                  (Member-unique (has_user_id u.id) db.users u row (ground arith) (keys u.id))
                  (ground arith) (keys u.id),
            ))
            (ground (arith, text_eq_refl name)))
