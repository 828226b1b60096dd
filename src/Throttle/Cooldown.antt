-- ===== src/Throttle/Cooldown.antt =====
-- Calls of `allow_booking_start` of app/core/rate_limit.py one after the other.
use music_room_bot.Prelude.{
  ℕ, ◌+◌, ◌<◌, ◌≡◌, refl, ap, ◌∙◌, inl, inr, true, false, ◌&&◌, some, List, [], ◌∷◌, arith, ltb,
  ◌==◌, if◌then◌else◌, ==→eq, Bool-cases, length, All,
}
use music_room_bot.Throttle.{
  LastSeen, last_seen, note_seen, keep_recent, clean_up, is_too_soon, allow_booking_start,
}

last_seen-note_seen :
    (u v now : ℕ) (seen : LastSeen)
    → last_seen u (note_seen v now seen) ≡ (if v == u then some now else last_seen u seen)
last_seen-note_seen u v now [] = refl
last_seen-note_seen u v now ((w, t) ∷ r) = ground (arith, last_seen-note_seen u v now r)

last_seen-keep_recent :
    (u t now cooldown : ℕ) (seen : LastSeen)
    → last_seen u seen ≡ some t
    → now < t + cooldown
    → last_seen u (keep_recent now cooldown seen) ≡ some t
last_seen-keep_recent u t now cooldown [] e l = e
last_seen-keep_recent u t now cooldown ((w, s) ∷ r) e l =
    ground (arith, e, l, last_seen-keep_recent u t now cooldown r)

-- A call: who, and when.
abbrev pub Call : Type 0
Call = ℕ × ℕ

-- How often a user is let in by a sequence of calls.
abbrev pub times_allowed : ℕ → ℕ → List Call → LastSeen → ℕ
times_allowed cooldown u [] seen = 0
times_allowed cooldown u ((v, now) ∷ calls) seen =
    let out = allow_booking_start cooldown now v seen in
    let later = times_allowed cooldown u calls out.1 in if v == u && out.0 then later + 1 else later

-- The calls fall before a time.
abbrev pub AllBefore : ℕ → List Call → Type 0
AllBefore end calls = All (λ c. c.1 < end) calls

last_seen-clean_up :
    (u t now cooldown : ℕ) (seen : LastSeen)
    → last_seen u seen ≡ some t
    → now < t + cooldown
    → last_seen u (clean_up now cooldown seen) ≡ some t
last_seen-clean_up u t now cooldown seen e l = elim (Bool-cases (ltb 50000 (length seen))) [
  | inl full ↦ rw full (last_seen-keep_recent u t now cooldown seen e l)
  | inr small ↦ rw small e
]

module _ (cooldown u t : ℕ) (on : 0 < cooldown) where
  seen_after :
      (v now : ℕ) (seen : LastSeen)
      → last_seen u seen ≡ some t
      → now < t + cooldown
      → (last_seen u (allow_booking_start cooldown now v seen).1 ≡ some t)
        × ((v == u && (allow_booking_start cooldown now v seen).0) ≡ false)
  unfolding allow_booking_start
  seen_after v now seen e l = elim (Bool-cases (v == u)) [
    | inl same ↦
        let is_u : v ≡ u = ==→eq v u same in
        let soon : is_too_soon now cooldown (last_seen v seen) ≡ true =
          ap (λ w. is_too_soon now cooldown (last_seen w seen)) is_u
          ∙ ap (is_too_soon now cooldown) e
          ∙ ground (arith, l) in
        (ground (arith, on, soon, e), ground (arith, on, soon, same))
    | inr other ↦
        let noted : last_seen u (note_seen v now seen) ≡ some t =
          last_seen-note_seen u v now seen ∙ ground (arith, other, e) in
        (
          ground (arith, on, e, last_seen-clean_up u t now cooldown (note_seen v now seen) noted l),
          ground (arith, other),
        )
  ]

  none_allowed :
      (calls : List Call) (seen : LastSeen)
      → last_seen u seen ≡ some t
      → AllBefore (t + cooldown) calls
      → times_allowed cooldown u calls seen ≡ 0
  none_allowed [] seen e a = refl
  none_allowed ((v, now) ∷ calls) seen e a =
      let (kept, refused) = seen_after v now seen e a.0 in
      let later = none_allowed calls (allow_booking_start cooldown now v seen).1 kept a.1 in
      ground (arith, refused, later)

-- With a cooldown that is not zero: once a user is let in, whatever calls of any users follow before
-- the cooldown has passed, and whatever is cleaned up meanwhile, the user is let in by none of them.
pub allow_booking_start_lem :
    (cooldown u t : ℕ) (seen : LastSeen) (calls : List Call)
    → 0 < cooldown
    → (allow_booking_start cooldown t u seen).0 ≡ true
    → AllBefore (t + cooldown) calls
    → times_allowed cooldown u calls (allow_booking_start cooldown t u seen).1 ≡ 0
unfolding allow_booking_start
allow_booking_start_lem cooldown u t seen calls on allowed before =
    let waited : is_too_soon t cooldown (last_seen u seen) ≡ false = ground (arith, on, allowed) in
    let noted : last_seen u (note_seen u t seen) ≡ some t =
      last_seen-note_seen u u t seen ∙ ground arith in
    let run : (allow_booking_start cooldown t u seen).1 ≡ clean_up t cooldown (note_seen u t seen) =
      ground (arith, on, waited) in
    none_allowed cooldown u t on calls (allow_booking_start cooldown t u seen).1
      (ap (last_seen u) run
        ∙ last_seen-clean_up u t t cooldown (note_seen u t seen) noted (omega (arith, on)))
      before
