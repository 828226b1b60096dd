-- ===== src/Users/Start.antt =====
-- What `resolve_start_user` of app/services/user_service.py commits.
use music_room_bot.Prelude.{
  ℕ, ◌≤◌, ◌≡◌, refl, ◌⊎◌, inl, inr, Bool, true, false, not, ◌&&◌, ◌||◌, none, some, List, [], ◌∷◌,
  arith, ltb, ◌==◌, is_some, Bool-cases, All, Text,
}
use music_room_bot.Db.{User, Booking, ClubSlotCancellation, Db, has_user_id}
use music_room_bot.Prelude.Members.{
  Member, is_head, in_tail, cons_cases, Member-select, Member-pos, Member-unique,
}
use music_room_bot.Prelude.Rows.{
  select, count_rows, delete_rows, count_rows-delete_rows-le, count_rows-delete_rows,
  count_rows_congr,
}
use music_room_bot.Prelude.Updates.{only_row}
use music_room_bot.Session.{integrity_error, Outcome, ok, raised, Session}
use music_room_bot.Users.{
  has_tg_id, same_text, is_placeholder, is_referenced, without_user, delete_user, delete_users,
  is_stale_placeholder, delete_stale_username_placeholders, insert_newest, newest_first, first_with,
}

abbrev pub tg_count : ℕ → Session → ℕ
tg_count t s = count_rows (has_tg_id t) s.current.users

-- No row with the key of one of these users has the account.
abbrev HaveNot : ℕ → List User → List User → Type 0
HaveNot t users us = All (λ u. count_rows (λ x. has_tg_id t x && has_user_id u.id x) users ≡ 0) us

HaveNot-delete_rows :
    (t i : ℕ) (users us : List User)
    → HaveNot t users us
    → HaveNot t (delete_rows (has_user_id i) users) us
HaveNot-delete_rows t i users [] h = tt
HaveNot-delete_rows t i users (u ∷ us) h = (
  omega (
    arith,
    h.0,
    count_rows-delete_rows-le (λ x. has_tg_id t x && has_user_id u.id x) (has_user_id i) users,
  ),
  HaveNot-delete_rows t i users us h.1,
)

-- A placeholder with the name, other than the row `keep`, with a booking or a cancellation.
abbrev pub is_in_the_way : Text → ℕ → List Booking → List ClubSlotCancellation → User → Bool
is_in_the_way name keep bookings cancellations p =
    (not (is_some p.tg_user_id) && (same_text p.tg_username name && not (p.id == keep)))
    && (not (count_rows (λ b. b.user_id == p.id) bookings == 0)
        || not (count_rows (λ c. c.cancelled_by_user_id == p.id) cancellations == 0))

-- The users go, with no account, bookings and cancellations as they are, or one stays in the way.
abbrev pub IsSwept : Type 0 → ℕ → Session → Outcome (Unit {0}) × Session → Type 0
IsSwept Cause t s out =
    ((out.0 ≡ ok tt)
      × (tg_count t out.1 ≡ tg_count t s)
      × (out.1.committed ≡ s.committed)
      × ((p : User → Bool) → count_rows p out.1.current.users ≤ count_rows p s.current.users)
      × (out.1.current.bookings ≡ s.current.bookings)
      × (out.1.current.cancellations ≡ s.current.cancellations))
    ⊎ ((out.0 ≡ raised integrity_error) × (out.1.committed ≡ s.committed) × Cause)

-- One of the users has a booking or a cancellation.
abbrev HasReferenced : List User → Db → Type 0
HasReferenced us db = (u : User) × Member u us × (is_referenced u.id db ≡ true)

delete_users-IsSwept :
    (t : ℕ) (us : List User) (s : Session)
    → HaveNot t s.current.users us
    → IsSwept (HasReferenced us s.current) t s (delete_users us s)
unfolding delete_users delete_user
delete_users-IsSwept t [] s h = inl (refl, refl, refl, (λ p. omega arith), refl, refl)
delete_users-IsSwept t (u ∷ us) s h = elim (Bool-cases (is_referenced u.id s.current)) [
  | inl referenced ↦
      inr (ground (arith, referenced), ground (arith, referenced), (u, is_head refl, referenced))
  | inr free ↦
      let t1 : Session = record s { current = without_user u.id s.current } in
      let kept = count_rows-delete_rows (has_tg_id t) (has_user_id u.id) s.current.users in
      elim (delete_users-IsSwept t us t1 (HaveNot-delete_rows t u.id s.current.users us h.1)) [
        | inl (e, c, d, l, bs, cs) ↦ inl (
          ground (arith, free, e),
          ground (arith, free, c, kept, h.0),
          ground (arith, free, d),
          (λ p.
              ground
                (arith, free, l p, count_rows-delete_rows-le p (has_user_id u.id) s.current.users)),
          ground (arith, free, bs),
          ground (arith, free, cs),
        )
        | inr (e, d, (v, m, r)) ↦
            inr (ground (arith, free, e), ground (arith, free, d), (v, in_tail m, r))
      ]
]

module _ (users : List User) (keys : (i : ℕ) → count_rows (has_user_id i) users ≤ 1) where
  -- A row that is not of the account.
  pub without_account :
      (t : ℕ) (u : User)
      → Member u users
      → has_tg_id t u ≡ false
      → count_rows (λ x. has_tg_id t x && has_user_id u.id x) users ≡ 0
  without_account t u m h =
      let mine = Member-unique (has_user_id u.id) users u m (ground arith) (keys u.id) in
      ground (
        arith,
        only_row (has_user_id u.id) (λ x. not (has_tg_id t x)) users u mine (ground arith)
            (ground (arith, h)),
        count_rows_congr (λ x. has_tg_id t x && has_user_id u.id x)
            (λ x. has_user_id u.id x && not (not (has_tg_id t x))) users (λ x. ground arith),
      )

  stale-HaveNot :
      (t : ℕ) (us : List User)
      → ((u : User) → Member u us → Member u users × (is_placeholder u ≡ true))
      → HaveNot t users us
  stale-HaveNot t [] h = tt
  stale-HaveNot t (u ∷ us) h =
      let (row, open_one) = h u (is_head refl) in
      (
        without_account t u row (ground (arith, open_one)),
        stale-HaveNot t us (λ v m. h v (in_tail m)),
      )

pub delete_stale-IsSwept :
    (t : ℕ) (tg_username : Text) (keep_user_id : ℕ) (s : Session)
    → ((i : ℕ) → count_rows (has_user_id i) s.current.users ≤ 1)
    → IsSwept
        (1
          ≤ count_rows
              (is_in_the_way tg_username keep_user_id s.current.bookings s.current.cancellations)
              s.current.users)
        t
        s
        (delete_stale_username_placeholders tg_username keep_user_id s)
unfolding delete_stale_username_placeholders
delete_stale-IsSwept t tg_username keep_user_id s keys =
    let stale = is_stale_placeholder tg_username keep_user_id in
    elim (delete_users-IsSwept t (select stale s.current.users) s (
      stale-HaveNot s.current.users keys t (select stale s.current.users) (λ u m.
        let (row, h) = Member-select stale s.current.users u m in (row, ground (arith, h))))) [
          | inl swept ↦ inl swept
          | inr (e, d, (u, m, r)) ↦
              let (row, h) = Member-select stale s.current.users u m in
              inr (
                e,
                d,
                Member-pos
                    (is_in_the_way tg_username keep_user_id s.current.bookings
                      s.current.cancellations)
                    s.current.users u row (ground (arith, h, r)),
              )
        ]

pub insert_newest-Member :
    (u v : User) (us : List User) → Member v (insert_newest u us) → Member v (u ∷ us)
insert_newest-Member u v [] m = m
insert_newest-Member u v (w ∷ ws) m = elim (Bool-cases (ltb u.id w.id)) [
  | inl older ↦ elim (cons_cases (rw older at m)) [
    | inl e ↦ in_tail (is_head e)
    | inr t ↦ elim (cons_cases (insert_newest-Member u v ws t)) [
      | inl e ↦ is_head e
      | inr t' ↦ in_tail (in_tail t')
    ]
  ]
  | inr newer ↦ rw newer at m
]

pub newest_first-Member : (v : User) (us : List User) → Member v (newest_first us) → Member v us
unfolding newest_first
newest_first-Member v [] m = m
newest_first-Member v (u ∷ us) m =
    elim (cons_cases (insert_newest-Member u v (newest_first us) m)) [
      | inl e ↦ is_head e
      | inr t ↦ in_tail (newest_first-Member v us t)
    ]

pub first_with-Member :
    (p : User → Bool) (us : List User) (v : User)
    → first_with p us ≡ some v
    → Member v us × (p v ≡ true)
first_with-Member p [] v e = cc
first_with-Member p (u ∷ us) v e = elim (Bool-cases (p u)) [
  | inl met ↦ let same : u ≡ v = ground (arith, met, e) in (is_head same, ground (arith, same, met))
  | inr unmet ↦ let (m, h) = first_with-Member p us v (ground (arith, unmet, e)) in (in_tail m, h)
]

insert_newest-keeps :
    (u v : User) (us : List User) → Member v (u ∷ us) → Member v (insert_newest u us)
insert_newest-keeps u v [] m = m
insert_newest-keeps u v (w ∷ ws) m = elim (Bool-cases (ltb u.id w.id)) [
  | inl older ↦ rw older (elim (cons_cases m) [
    | inl e ↦ in_tail (insert_newest-keeps u v ws (is_head e))
    | inr t ↦ elim (cons_cases t) [
      | inl e ↦ is_head e
      | inr t' ↦ in_tail (insert_newest-keeps u v ws (in_tail t'))
    ]
  ])
  | inr newer ↦ rw newer m
]

pub newest_first-keeps : (v : User) (us : List User) → Member v us → Member v (newest_first us)
unfolding newest_first
newest_first-keeps v [] m = m
newest_first-keeps v (u ∷ us) m =
    insert_newest-keeps u v (newest_first us)
      (elim (cons_cases m) [ inl e ↦ is_head e | inr t ↦ in_tail (newest_first-keeps v us t) ])

pub first_with-none :
    (p : User → Bool) (us : List User) (v : User)
    → first_with p us ≡ none
    → Member v us
    → p v ≡ false
first_with-none p [] v e m = elim m [ ]
first_with-none p (u ∷ us) v e (is_head same) = ground (arith, e, same)
first_with-none p (u ∷ us) v e (in_tail m) = ground (arith, e, first_with-none p us v, m)
