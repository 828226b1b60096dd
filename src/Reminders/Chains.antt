-- ===== src/Reminders/Chains.antt =====
-- `_build_chain_start_hours` of app/services/reminder_service.py: in which chain an hour is found.
use music_room_bot.Prelude.{
  ℕ, ◌+◌, ◌≤◌, ◌<◌, ◌≡◌, refl, inl, inr, Bool, true, false, ◌||◌, some, List, [], ◌∷◌, ◌++◌, arith,
  ◌==◌, Bool-cases, All,
}
use music_room_bot.Reminders.{Chains, set_chain, last_of, snoc, chains_from, contains, chain_with}

abbrev pub Ascending : ℕ → List ℕ → Type 0
Ascending x [] = Unit
Ascending x (y ∷ ys) = (x < y) × Ascending y ys

-- Some hour of the list is one less.
abbrev pub has_previous : ℕ → List ℕ → Bool
has_previous h [] = false
has_previous h (x ∷ xs) = x + 1 == h || has_previous h xs

-- No chain so far has the key or an hour from `bound` on.
abbrev pub AllBelow : ℕ → Chains → Type 0
AllBelow bound [] = Unit
AllBelow bound ((k, v) ∷ r) = (k < bound) × All (λ x. x < bound) v × AllBelow bound r

contains-below :
    (h bound : ℕ) (v : List ℕ) → All (λ x. x < bound) v → bound ≤ h → contains h v ≡ false
contains-below h bound [] a p = refl
contains-below h bound (x ∷ xs) a p = ground (arith, a.0, contains-below h bound xs a.1 p)

-- A new chain comes last.
set_chain-append :
    (start : ℕ) (current : List ℕ) (chains : Chains)
    → AllBelow start chains
    → set_chain start current chains ≡ chains ++ ((start, current) ∷ [])
set_chain-append start current [] a = refl
set_chain-append start current ((k, v) ∷ r) a =
    ground (arith, a.0, set_chain-append start current r a.2)

chain_with-append :
    (h : ℕ) (chains more : Chains) (c : ℕ × List ℕ)
    → chain_with h chains ≡ some c
    → chain_with h (chains ++ more) ≡ some c
chain_with-append h [] more c e = cc
chain_with-append h ((k, v) ∷ r) more c e = ground (arith, chain_with-append h r more c, e)

chain_with-last :
    (h bound start : ℕ) (current : List ℕ) (chains : Chains)
    → AllBelow bound chains
    → bound ≤ h
    → contains h current ≡ true
    → chain_with h (chains ++ ((start, current) ∷ [])) ≡ some (start, current)
chain_with-last h bound start current [] a p c = rw c refl
chain_with-last h bound start current ((k, v) ∷ r) a p c =
    ground (arith, contains-below h bound v a.1 p, chain_with-last h bound start current r a.2 p c)

pub contains-snoc : (h x : ℕ) (v : List ℕ) → contains h (snoc v x) ≡ (contains h v || x == h)
contains-snoc h x [] = ground arith
contains-snoc h x (y ∷ ys) = ground (arith, contains-snoc h x ys)

pub last_of-snoc : (d x : ℕ) (v : List ℕ) → last_of d (snoc v x) ≡ x
last_of-snoc d x [] = refl
last_of-snoc d x (y ∷ ys) = last_of-snoc y x ys

All-snoc : (b x : ℕ) (v : List ℕ) → All (λ y. y < b) v → x < b → All (λ y. y < b) (snoc v x)
All-snoc b x [] a p = (p, tt)
All-snoc b x (y ∷ ys) a p = (a.0, All-snoc b x ys a.1 p)

All-weaken : (a b : ℕ) (v : List ℕ) → a ≤ b → All (λ y. y < a) v → All (λ y. y < b) v
All-weaken a b [] p w = tt
All-weaken a b (y ∷ ys) p w = (omega (arith, p, w.0), All-weaken a b ys p w.1)

AllBelow-weaken : (a b : ℕ) (chains : Chains) → a ≤ b → AllBelow a chains → AllBelow b chains
AllBelow-weaken a b [] p w = tt
AllBelow-weaken a b ((k, v) ∷ r) p w =
    (omega (arith, p, w.0), All-weaken a b v p w.1, AllBelow-weaken a b r p w.2)

AllBelow-set_chain :
    (b start : ℕ) (current : List ℕ) (chains : Chains)
    → AllBelow b chains
    → start < b
    → All (λ y. y < b) current
    → AllBelow b (set_chain start current chains)
AllBelow-set_chain b start current [] w p c = (p, c, tt)
AllBelow-set_chain b start current ((k, v) ∷ r) w p c = elim (Bool-cases (k == start)) [
  | inl same ↦ rw same (w.0, c, w.2)
  | inr other ↦ rw other (w.0, w.1, AllBelow-set_chain b start current r w.2 p c)
]

-- The state of the loop: what was read lies below what is to come.
abbrev pub InOrder : Chains → ℕ → List ℕ → List ℕ → Type 0
InOrder chains start current hs =
    let last = last_of start current in
    AllBelow start chains × (start ≤ last) × All (λ y. y < last + 1) current × Ascending last hs

pub InOrder-extend :
    (chains : Chains) (start : ℕ) (current : List ℕ) (x : ℕ) (xs : List ℕ)
    → InOrder chains start current (x ∷ xs)
    → InOrder chains start (snoc current x) xs
InOrder-extend chains start current x xs (a, b, c, (d, e)) =
    let last = last_of start current in
    rw (last_of-snoc start x current) (
      a,
      omega (arith, b, d),
      All-snoc (x + 1) x current (All-weaken (last + 1) (x + 1) current (omega (arith, d)) c)
          (omega arith),
      e,
    )

pub InOrder-renew :
    (chains : Chains) (start : ℕ) (current : List ℕ) (x : ℕ) (xs : List ℕ)
    → InOrder chains start current (x ∷ xs)
    → InOrder (set_chain start current chains) x (x ∷ []) xs
InOrder-renew chains start current x xs (a, b, c, (d, e)) =
    let last = last_of start current in
    (
      AllBelow-set_chain x start current chains
          (AllBelow-weaken start x chains (omega (arith, b, d)) a) (omega (arith, b, d))
          (All-weaken (last + 1) x current (omega (arith, d)) c),
      omega arith,
      (omega arith, tt),
      e,
    )

-- What is found stays found.
chains_from-stays :
    (h : ℕ) (c : ℕ × List ℕ) (chains : Chains) (start : ℕ) (current hs : List ℕ)
    → InOrder chains start current hs
    → chain_with h chains ≡ some c
    → chain_with h (chains_from chains start current hs) ≡ some c
unfolding chains_from
chains_from-stays h c chains start current [] o e =
    rw (set_chain-append start current chains o.0)
      (chain_with-append h chains ((start, current) ∷ []) c e)
chains_from-stays h c chains start current (x ∷ xs) o e =
    elim (Bool-cases (x == last_of start current + 1)) [
      | inl next ↦ rw next (
          chains_from-stays h c chains start (snoc current x) xs
            (InOrder-extend chains start current x xs o) e)
      | inr later ↦ rw later (
          chains_from-stays h c (set_chain start current chains) x (x ∷ []) xs
            (InOrder-renew chains start current x xs o)
            (rw (set_chain-append start current chains o.0)
              (chain_with-append h chains ((start, current) ∷ []) c e)))
    ]

-- An hour of the current chain is found there, whatever follows.
pub chains_from-current :
    (h : ℕ) (chains : Chains) (start : ℕ) (current hs : List ℕ)
    → InOrder chains start current hs
    → start ≤ h
    → contains h current ≡ true
    → (v : List ℕ) × (chain_with h (chains_from chains start current hs) ≡ some (start, v))
unfolding chains_from
chains_from-current h chains start current [] o p c = (
  current,
  rw (set_chain-append start current chains o.0)
      (chain_with-last h start start current chains o.0 p c),
)
chains_from-current h chains start current (x ∷ xs) o p c =
    elim (Bool-cases (x == last_of start current + 1)) [
      | inl next ↦ rw next (
          chains_from-current h chains start (snoc current x) xs
            (InOrder-extend chains start current x xs o) p (rw (contains-snoc h x current, c) refl))
      | inr later ↦ rw later (
        current,
        chains_from-stays h (start, current) (set_chain start current chains) x (x ∷ []) xs
            (InOrder-renew chains start current x xs o)
            (rw (set_chain-append start current chains o.0)
              (chain_with-last h start start current chains o.0 p c)),
      )
    ]
