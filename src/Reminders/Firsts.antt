-- ===== src/Reminders/Firsts.antt =====
-- `_build_chain_start_hours` of app/services/reminder_service.py: the hours that start a chain.
use music_room_bot.Prelude.{
  ℕ, ◌+◌, ◌≤◌, ◌<◌, ◌≡◌, refl, inl, inr, Bool, true, false, not, ◌||◌, some, List, [], ◌∷◌, arith,
  ◌==◌, Bool-cases,
}
use music_room_bot.Reminders.{
  Chains, set_chain, last_of, snoc, chains_from, build_chain_start_hours, contains, chain_with,
}
use music_room_bot.Reminders.Chains.{
  Ascending, has_previous, contains-snoc, last_of-snoc, InOrder, InOrder-extend, InOrder-renew,
  chains_from-current,
}

contains-above : (h x : ℕ) (xs : List ℕ) → Ascending x xs → contains h xs ≡ true → x < h
contains-above h x [] a c = cc
contains-above h x (y ∷ ys) a c = ground (arith, a.0, contains-above h y ys a.1, c)

has_previous-above : (h x : ℕ) (xs : List ℕ) → Ascending x xs → h ≤ x → has_previous h xs ≡ false
has_previous-above h x [] a p = refl
has_previous-above h x (y ∷ ys) a p =
    ground (arith, a.0, has_previous-above h y ys a.1 (omega (arith, a.0, p)))

-- The chain of an hour starts with it exactly if the hour before is neither read nor to come.
abbrev StartsRight : ℕ → Chains → Bool → Type 0
StartsRight h chains later =
    (start : ℕ) × (v : List ℕ) × (chain_with h chains ≡ some (start, v))
    × ((start == h) ≡ not later)

chains_from-StartsRight :
    (h : ℕ) (chains : Chains) (start : ℕ) (current hs : List ℕ)
    → InOrder chains start current hs
    → contains h hs ≡ true
    → StartsRight h
        (chains_from chains start current hs)
        (last_of start current + 1 == h || has_previous h hs)
unfolding chains_from
chains_from-StartsRight h chains start current [] o c = absurd (ground (arith, c))
chains_from-StartsRight h chains start current (x ∷ xs) o c =
    let up = o.3.0 in
    elim (Bool-cases (x == last_of start current + 1)) [
      | inl next ↦ elim (Bool-cases (x == h)) [
        | inl here ↦
            let (v, e) =
              chains_from-current h chains start (snoc current x) xs
                (InOrder-extend chains start current x xs o) (ground (arith, o.1, up, here))
                (ground (arith, contains-snoc h x current, here)) in
            rw next (start, v, e, ground (arith, o.1, up, here, next))
        | inr more ↦
            let (s, v, e, same) =
              chains_from-StartsRight h chains start (snoc current x) xs
                (InOrder-extend chains start current x xs o) (ground (arith, c, more)) in
            rw next (s, v, e, ground (arith, same, last_of-snoc start x current, next, more))
      ]
      | inr later ↦ elim (Bool-cases (x == h)) [
        | inl here ↦
            let (v, e) =
              chains_from-current h (set_chain start current chains) x (x ∷ []) xs
                (InOrder-renew chains start current x xs o) (ground (arith, here)) (rw here refl) in
            rw later (x, v, e, ground (arith, here, later, up, has_previous-above h x xs o.3.1))
        | inr more ↦
            let inside : contains h xs ≡ true = ground (arith, c, more) in
            let (s, v, e, same) =
              chains_from-StartsRight h (set_chain start current chains) x (x ∷ []) xs
                (InOrder-renew chains start current x xs o) inside in
            rw later
              (s, v, e, ground (arith, same, later, up, more, contains-above h x xs o.3.1 inside))
      ]
    ]

-- In ascending hours, an hour of the list is in a chain that it starts exactly if the list does not
-- hold the hour before.
pub build_chain_start_hours_lem :
    (h x : ℕ) (xs : List ℕ)
    → Ascending x xs
    → contains h (x ∷ xs) ≡ true
    → (start : ℕ) × (v : List ℕ) × (chain_with h (build_chain_start_hours (x ∷ xs))
        ≡ some (start, v))
      × ((start == h) ≡ not (has_previous h (x ∷ xs)))
unfolding build_chain_start_hours
build_chain_start_hours_lem h x xs a c = elim (Bool-cases (x == h)) [
  | inl here ↦
      let (v, e) =
        chains_from-current h [] x (x ∷ []) xs (tt, omega arith, (omega arith, tt), a)
          (ground (arith, here)) (rw here refl) in
      (x, v, e, ground (arith, here, has_previous-above h x xs a))
  | inr more ↦
      chains_from-StartsRight h [] x (x ∷ []) xs (tt, omega arith, (omega arith, tt), a)
        (ground (arith, c, more))
]
