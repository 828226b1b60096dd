-- ===== src/Settings/Laws.antt =====
-- The loops of `get_many` of app/services/config_runtime.py.
use music_room_bot.Prelude.{
  text_eq_refl, ℕ, ◌≤◌, ◌<◌, ◌≡◌, refl, sym, ap, ◌∙◌, inl, inr, Bool, true, ◌||◌, none, some, List,
  [], ◌∷◌, arith, if◌then◌else◌, is_some, Bool-cases, Option-cases, All, Text, text_eq,
}
use music_room_bot.Db.{Db}
use music_room_bot.Session.{Env}
use music_room_bot.Settings.{
  ConfigValue, no_value, Site, Dict, lookup, assign, pop, defaults, cast_value, value_in, Cache,
  get_cached_value, default_of,
}
use music_room_bot.Users.Access.{is_listed_name}

pub text_eq→eq : (s t : Text) → text_eq s t ≡ true → s ≡ t
text_eq→eq [] [] e = refl
text_eq→eq [] (d ∷ t) e = cc
text_eq→eq (c ∷ s) [] e = cc
text_eq→eq (c ∷ s) (d ∷ t) e = ground (arith, e, text_eq→eq s t)

pub same_key : (i j k : Text) → text_eq i j ≡ true → text_eq i k ≡ text_eq j k
same_key i j k e = ap (λ x. text_eq x k) (text_eq→eq i j e)

pub meet_key : (i j k : Text) → text_eq i k ≡ true → text_eq j k ≡ true → text_eq i j ≡ true
meet_key i j k e f =
    ap (λ x. text_eq x j) (text_eq→eq i k e ∙ sym (text_eq→eq j k f)) ∙ text_eq_refl j

module _ {A : Type 0} where
  pub lookup-assign :
      (k j : Text) (v : A) (d : Dict A)
      → lookup k (assign j v d) ≡ (if text_eq j k then some v else lookup k d)
  lookup-assign k j v [] = refl
  lookup-assign k j v ((i, w) ∷ r) = elim (Bool-cases (text_eq i j)) [
    | inl same ↦ ground (arith, same, same_key i j k same)
    | inr other ↦ ground (arith, other, meet_key i j k, lookup-assign k j v r)
  ]

  pub lookup-pop :
      (k j : Text) (d : Dict A) → lookup k (pop j d) ≡ (if text_eq j k then none else lookup k d)
  lookup-pop k j [] = ground arith
  lookup-pop k j ((i, w) ∷ r) = elim (Bool-cases (text_eq i j)) [
    | inl same ↦ ground (arith, same, same_key i j k same, lookup-pop k j r)
    | inr other ↦ ground (arith, other, meet_key i j k, lookup-pop k j r)
  ]

-- The setting that a key stands for, read off the table.
abbrev pub stored_value : Env → Site → Db → Text → ConfigValue
stored_value env site db key =
    cast_value env site key (default_of site key) (value_in key db.configs)

abbrev pub is_known : Site → Text → Bool
is_known site key = is_some (lookup key (defaults site))

abbrev pub config_of : Env → Site → Db → Text → ConfigValue
config_of env site db key = if is_known site key then stored_value env site db key else no_value

-- What the cache holds, and has not expired at the time `since`, is what the table says.
abbrev pub IsCoherent : Env → Site → Db → ℕ → Cache → Type 0
IsCoherent env site db since cache =
    (key : Text) (v : ConfigValue) (expires_at : ℕ)
    → lookup key cache ≡ some (v, expires_at)
    → since < expires_at
    → v ≡ stored_value env site db key

-- What was found is right.
abbrev pub IsRight : Env → Site → Db → Dict ConfigValue → Type 0
IsRight env site db result =
    (key : Text) (v : ConfigValue) → lookup key result ≡ some v → v ≡ config_of env site db key

abbrev pub AllKnown : Site → List Text → Type 0
AllKnown site keys = All (λ key. is_known site key ≡ true) keys

-- A key is found, or still on the list.
abbrev pub covers : Dict ConfigValue → List Text → Text → Bool
covers result keys key = is_some (lookup key result) || is_listed_name keys key

module _ (env : Env) (site : Site) (db : Db) where
  pub assign-IsRight :
      (key : Text) (v : ConfigValue) (result : Dict ConfigValue)
      → v ≡ config_of env site db key
      → IsRight env site db result
      → IsRight env site db (assign key v result)
  assign-IsRight key v result e right k w h = elim (Bool-cases (text_eq key k)) [
    | inl same ↦
        let first : v ≡ w = ground (arith, h, same, lookup-assign k key v result) in
        sym first ∙ e ∙ ap (config_of env site db) (text_eq→eq key k same)
    | inr other ↦ right k w (ground (arith, h, other, lookup-assign k key v result))
  ]

  pub assign-covers :
      (key : Text) (v : ConfigValue) (result : Dict ConfigValue) (keys : List Text) (k : Text)
      → covers result (key ∷ keys) k ≡ true
      → covers (assign key v result) keys k ≡ true
  assign-covers key v result keys k h = ground (arith, h, lookup-assign k key v result)

  pub cached_right :
      (cache : Cache) (since now : ℕ) (key : Text) (v : ConfigValue)
      → since ≤ now
      → IsCoherent env site db since cache
      → get_cached_value cache key site.ttl now ≡ some v
      → v ≡ stored_value env site db key
  unfolding get_cached_value
  cached_right cache since now key v le coherent e = elim (Option-cases (lookup key cache)) [
    | inl nothing ↦ absurd (ground (arith, e, nothing))
    | inr ((w, expires_at), there) ↦
        let same : w ≡ v = ground (arith, e, there) in
        sym same ∙ coherent key w expires_at there (ground (arith, e, there, le))
  ]
