-- ===== src/Settings/Coherence.antt =====
-- `get_many` of app/services/config_runtime.py and `set_config_value` of
-- app/services/config_service.py against the table.
use mathlib.Core.Path.{subst}
use music_room_bot.Prelude.{
  ℕ, ◌+◌, ◌≤◌, ◌≡◌, refl, sym, ap, ◌∙◌, inl, inr, true, Option, none, some, List, [], ◌∷◌, arith,
  ◌==◌, if◌then◌else◌, is_some, Bool-cases, Option-cases, Text, text_eq,
}
use music_room_bot.Db.{Db}
use music_room_bot.Session.{Env}
use music_room_bot.Settings.{
  ConfigValue, no_value, Site, Dict, lookup, assign, defaults, value_in, Cache, get_cached_value,
  first_pass, second_pass, store_value, fill, get_many,
}
use music_room_bot.Settings.Kinds.{setting, cast_value_lem}
use music_room_bot.Settings.Laws.{
  text_eq→eq, lookup-assign, stored_value, is_known, config_of, IsCoherent, IsRight, AllKnown,
  covers, assign-IsRight, assign-covers, cached_right,
}
use music_room_bot.Users.Access.{is_listed_name}

module _ (env : Env) (site : Site) (db : Db) where
  abbrev IsPassed : List Text → Dict ConfigValue → Dict ConfigValue × List Text → Type 0
  IsPassed keys result out =
      IsRight env site db out.0
      × AllKnown site out.1
      × ((k : Text) → covers result keys k ≡ true → covers out.0 out.1 k ≡ true)

  unknown_key :
      (key : Text) → lookup key (defaults site) ≡ none → config_of env site db key ≡ no_value
  unknown_key key e = rw e refl

  known_key :
      (key : Text)
      → is_known site key ≡ true
      → config_of env site db key ≡ stored_value env site db key
  known_key key e = rw e refl

  module _ (cache : Cache) (since now : ℕ) (le : since ≤ now)
      (coherent : IsCoherent env site db since cache) where
    abbrev queue : Text → Dict ConfigValue × List Text → Dict ConfigValue × List Text
    queue key out = (out.0, key ∷ out.1)

    first_unknown :
        (key : Text) (keys : List Text) (result : Dict ConfigValue)
        → lookup key (defaults site) ≡ none
        → first_pass site cache now (key ∷ keys) result
          ≡ first_pass site cache now keys (assign key no_value result)
    unfolding first_pass
    first_unknown key keys result e = rw (first_pass, e) refl

    first_missing :
        (key : Text) (keys : List Text) (result : Dict ConfigValue) (d : ConfigValue)
        → lookup key (defaults site) ≡ some d
        → get_cached_value cache key site.ttl now ≡ none
        → first_pass site cache now (key ∷ keys) result
          ≡ queue key (first_pass site cache now keys result)
    unfolding first_pass
    first_missing key keys result d e f = rw (first_pass, e, f) refl

    first_cached :
        (key : Text) (keys : List Text) (result : Dict ConfigValue) (d v : ConfigValue)
        → lookup key (defaults site) ≡ some d
        → get_cached_value cache key site.ttl now ≡ some v
        → first_pass site cache now (key ∷ keys) result
          ≡ first_pass site cache now keys (assign key v result)
    unfolding first_pass
    first_cached key keys result d v e f = rw (first_pass, e, f) refl

    second_missing :
        (key : Text) (keys : List Text) (result : Dict ConfigValue)
        → get_cached_value cache key site.ttl now ≡ none
        → second_pass site cache now (key ∷ keys) result
          ≡ queue key (second_pass site cache now keys result)
    unfolding second_pass
    second_missing key keys result f = rw (second_pass, f) refl

    second_cached :
        (key : Text) (keys : List Text) (result : Dict ConfigValue) (v : ConfigValue)
        → get_cached_value cache key site.ttl now ≡ some v
        → second_pass site cache now (key ∷ keys) result
          ≡ second_pass site cache now keys (assign key v result)
    unfolding second_pass
    second_cached key keys result v f = rw (second_pass, f) refl

    first_pass_lem :
        (keys : List Text) (result : Dict ConfigValue)
        → IsRight env site db result
        → IsPassed keys result (first_pass site cache now keys result)
    unfolding first_pass
    first_pass_lem [] result right = (right, tt, λ k c. c)
    first_pass_lem (key ∷ keys) result right = elim (Option-cases (lookup key (defaults site))) [
      | inl unknown ↦
          let (r, a, c) = first_pass_lem keys (assign key no_value result) (
            assign-IsRight env site db key no_value result (sym (unknown_key key unknown)) right) in
          subst (IsPassed (key ∷ keys) result) (sym (first_unknown key keys result unknown))
            (r, a, λ k h. c k (assign-covers env site db key no_value result keys k h))
      | inr (d, known) ↦
          let is_there : is_known site key ≡ true = rw known refl in
          elim (Option-cases (get_cached_value cache key site.ttl now)) [
            | inl uncached ↦
                let (r, a, c) = first_pass_lem keys result right in
                subst (IsPassed (key ∷ keys) result)
                  (sym (first_missing key keys result d known uncached))
                  (r, (is_there, a), λ k h. ground (arith, h, c k))
            | inr (v, cached) ↦
                let e =
                  cached_right env site db cache since now key v le coherent cached
                  ∙ sym (known_key key is_there) in
                let (r, a, c) =
                  first_pass_lem keys (assign key v result)
                    (assign-IsRight env site db key v result e right) in
                subst (IsPassed (key ∷ keys) result)
                  (sym (first_cached key keys result d v known cached))
                  (r, a, λ k h. c k (assign-covers env site db key v result keys k h))
          ]
    ]

    second_pass_lem :
        (keys : List Text) (result : Dict ConfigValue)
        → AllKnown site keys
        → IsRight env site db result
        → IsPassed keys result (second_pass site cache now keys result)
    unfolding second_pass
    second_pass_lem [] result known right = (right, tt, λ k c. c)
    second_pass_lem (key ∷ keys) result known right =
        elim (Option-cases (get_cached_value cache key site.ttl now)) [
          | inl uncached ↦
              let (r, a, c) = second_pass_lem keys result known.1 right in
              subst (IsPassed (key ∷ keys) result) (sym (second_missing key keys result uncached))
                (r, (known.0, a), λ k h. ground (arith, h, c k))
          | inr (v, cached) ↦
              let e =
                cached_right env site db cache since now key v le coherent cached
                ∙ sym (known_key key known.0) in
              let (r, a, c) =
                second_pass_lem keys (assign key v result) known.1
                  (assign-IsRight env site db key v result e right) in
              subst (IsPassed (key ∷ keys) result) (sym (second_cached key keys result v cached))
                (r, a, λ k h. c k (assign-covers env site db key v result keys k h))
        ]

  abbrev stored_in : ConfigValue → Option (ConfigValue × ℕ) → ConfigValue
  stored_in w none = w
  stored_in w (some (v, expires_at)) = v

  store_value-IsCoherent :
      (key : Text) (expires_at since : ℕ) (cache : Cache)
      → IsCoherent env site db since cache
      → IsCoherent env site db since
          (store_value site key (stored_value env site db key) expires_at cache)
  store_value-IsCoherent key expires_at since cache coherent k v e h fresh =
      elim (Bool-cases (site.ttl == 0)) [
        | inl off ↦ coherent k v e (rw off at h) fresh
        | inr on ↦
            let w = stored_value env site db key in
            let h' : (if text_eq key k then some (w, expires_at) else lookup k cache)
                ≡ some (v, e) =
              sym (lookup-assign k key (w, expires_at) cache) ∙ (rw on at h) in
            elim (Bool-cases (text_eq key k)) [
              | inl same ↦
                  let first : w ≡ v = ap (stored_in w) (rw same at h') in
                  sym first ∙ ap (stored_value env site db) (text_eq→eq key k same)
              | inr other ↦ coherent k v e (rw other at h') fresh
            ]
      ]

  fill_lem :
      (expires_at since : ℕ) (keys : List Text) (result : Dict ConfigValue) (cache : Cache)
      → AllKnown site keys
      → IsRight env site db result
      → IsCoherent env site db since cache
      → let (found, cache') = fill env site db expires_at keys result cache in
        IsRight env site db found
        × IsCoherent env site db since cache'
        × ((k : Text) → covers result keys k ≡ true → is_some (lookup k found) ≡ true)
  unfolding fill
  fill_lem expires_at since [] result cache known right coherent =
      (right, coherent, λ k c. ground (arith, c))
  fill_lem expires_at since (key ∷ keys) result cache known right coherent =
      let v = stored_value env site db key in
      let (r, h, c) =
        fill_lem expires_at since keys (assign key v result)
          (store_value site key v expires_at cache) known.1
          (assign-IsRight env site db key v result (sym (known_key key known.0)) right)
          (store_value-IsCoherent key expires_at since cache coherent) in
      (r, h, λ k e. c k (assign-covers env site db key v result keys k e))

-- The setting that a key stands for: None for an unknown key, and else what its row in the table
-- says, or the default without a row, read by the kind of the setting.
abbrev pub setting_of : Env → Site → Db → Text → ConfigValue
setting_of env site db key =
    if is_known site key then setting env site key (value_in key db.configs) else no_value

config_of_lem :
    (env : Env) (site : Site) (db : Db) (key : Text)
    → config_of env site db key ≡ setting_of env site db key
config_of_lem env site db key = elim (Bool-cases (is_known site key)) [
  | inl known ↦ rw known (cast_value_lem env site key (value_in key db.configs) known)
  | inr unknown ↦ rw unknown refl
]

-- From a cache whose entries that have not expired hold what the table says, while entries that have
-- expired hold anything: `get_many`, which reads the clock again under the lock, no earlier, returns
-- for every key that is asked for the setting that the table says now, None for an unknown key; and
-- afterwards the entries that have not expired hold what the table says.
pub get_many_lem :
    (env : Env) (site : Site) (db : Db) (now locked_now later : ℕ) (keys : List Text)
    (cache : Cache)
    → now ≤ locked_now
    → IsCoherent env site db now cache
    → let (result, cache') = get_many env site db now locked_now later keys cache in
      ((key : Text)
        → is_listed_name keys key ≡ true
        → lookup key result ≡ some (setting_of env site db key))
      × IsCoherent env site db now cache'
unfolding get_many
get_many_lem env site db now locked_now later keys cache le coherent =
    let (r1, a1, c1) =
      first_pass_lem env site db cache now now (omega arith) coherent keys [] (λ k v e. cc) in
    let p1 = first_pass site cache now keys [] in
    let (r2, a2, c2) =
      second_pass_lem env site db cache now locked_now le coherent p1.1 p1.0 a1 r1 in
    let p2 = second_pass site cache locked_now p1.1 p1.0 in
    let (r3, h, c3) = fill_lem env site db (later + site.ttl) now p2.1 p2.0 cache a2 r2 coherent in
    let found = (fill env site db (later + site.ttl) p2.1 p2.0 cache).0 in
    (
      λ key listed. elim (Option-cases (lookup key found)) [
        | inl missing ↦
            absurd (ground (arith, missing, c3 key (c2 key (c1 key (ground (arith, listed))))))
        | inr (v, there) ↦ there ∙ ap (λ w. some w) (r3 key v there ∙ config_of_lem env site db key)
      ],
      h,
    )
