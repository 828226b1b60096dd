-- ===== src/Settings/Changes.antt =====
-- `set_config_value` of app/services/config_service.py, and the settings that are read after it.
use music_room_bot.Prelude.{
  ℕ, ◌≤◌, ◌≡◌, refl, sym, ap, ◌∙◌, inl, inr, true, not, ◌&&◌, Option, none, some, List, [], ◌∷◌,
  map, arith, ◌==◌, if◌then◌else◌, is_some, Bool-cases, Option-cases, length, Text, text_eq,
}
use music_room_bot.Db.{Config, Db}
use music_room_bot.Prelude.Rows.{
  select, count_rows, update_rows, select_nil, select_count, select-update_rows,
}
use music_room_bot.Session.{ok, Env, fresh_session}
use music_room_bot.Session.Laws.{scalar_cases}
use music_room_bot.Settings.{
  Site, lookup, pop, cast_value, has_config_key, value_in, Cache, default_of, get_many,
  set_config_value,
}
use music_room_bot.Settings.Coherence.{get_many_lem}
use music_room_bot.Settings.Kinds.{setting}
use music_room_bot.Settings.Laws.{text_eq→eq, same_key, meet_key, lookup-pop, is_known, IsCoherent}
use music_room_bot.Users.Access.{is_listed_name}

abbrev pub set_value : Text → Config → Config
set_value value c = record c { value = value }

value_in-update_rows :
    (k key value : Text) (cs : List Config)
    → value_in k (update_rows (has_config_key key) (set_value value) cs)
      ≡ (if text_eq key k && is_some (value_in k cs) then some value else value_in k cs)
unfolding update_rows
value_in-update_rows k key value [] = ground arith
value_in-update_rows k key value (c ∷ cs) = elim (Bool-cases (text_eq c.key key)) [
  | inl same ↦ ground (arith, same, same_key c.key key k same, value_in-update_rows k key value cs)
  | inr other ↦ ground (arith, other, meet_key c.key key k, value_in-update_rows k key value cs)
]

value_in-count :
    (key : Text) (cs : List Config)
    → is_some (value_in key cs) ≡ not (count_rows (has_config_key key) cs == 0)
unfolding count_rows
value_in-count key [] = refl
value_in-count key (c ∷ cs) = ground (arith, value_in-count key cs)

value_in-none :
    (k key : Text) (cs : List Config)
    → count_rows (has_config_key key) cs ≡ 0
    → text_eq key k ≡ true
    → value_in k cs ≡ none
value_in-none k key cs h e = elim (Option-cases (value_in k cs)) [
  | inl nothing ↦ nothing
  | inr (v, there) ↦ absurd (
      ground (
        arith,
        h,
        ap (λ x. is_some (value_in x cs)) (text_eq→eq key k e),
        value_in-count key cs,
        there,
      ))
]

module _ (key value : Text) (db : Db)
    (unique : count_rows (has_config_key key) db.configs ≤ 1) where
  -- What the table says after the change.
  abbrev pub changed : Text → Option Text
  changed k = if text_eq key k then some value else value_in k db.configs

  set_run_found :
      (cache : Cache) (c : Config)
      → select (has_config_key key) db.configs ≡ c ∷ []
      → select (has_config_key key) (update_rows (has_config_key key) (set_value value) db.configs)
        ≡ set_value value c ∷ []
      → set_config_value key value cache (fresh_session db) ≡ (
        ok (set_value value c, pop key cache),
        fresh_session
            (record db { configs = update_rows (has_config_key key) (set_value value) db.configs }),
      )
  unfolding set_config_value
  set_run_found cache c found again = ground (arith, found, again)

  -- The result, the cache and what the table says after the change.
  set_config_value_lem :
      (cache : Cache)
      → (c : Config) × ((set_config_value key value cache (fresh_session db)).0
          ≡ ok (c, pop key cache))
        × (c.value ≡ value)
        × ((k : Text)
            → value_in k (set_config_value key value cache (fresh_session db)).1.committed.configs
              ≡ changed k)
  unfolding set_config_value
  set_config_value_lem cache = elim (scalar_cases (has_config_key key) db.configs unique) [
    | inl none_there ↦
        let absent_key = select_nil (has_config_key key) db.configs none_there in
        (
          record { key = key; value = value },
          ground (arith, none_there),
          refl,
          λ k. ground (arith, none_there, value_in-none k key db.configs absent_key),
        )
    | inr (c, found, is_it) ↦
        let rows = db.configs in
        let again : select (has_config_key key)
              (update_rows (has_config_key key) (set_value value) rows)
            ≡ set_value value c ∷ [] =
          select-update_rows (has_config_key key) (set_value value) rows (λ x h. h)
          ∙ ap (map (set_value value)) found in
        let there : is_some (value_in key rows) ≡ true = ground (
          arith,
          value_in-count key rows,
          select_count (has_config_key key) rows,
          ap length found,
        ) in
        let run = set_run_found cache c found again in
        (
          set_value value c,
          ap (λ out. out.0) run,
          refl,
          λ k.
              let here : text_eq key k ≡ true → is_some (value_in k rows) ≡ true =
                λ e. ap (λ x. is_some (value_in x rows)) (sym (text_eq→eq key k e)) ∙ there in
              ap (λ out. value_in k out.1.committed.configs) run
              ∙ value_in-update_rows k key value rows
              ∙ ground (arith, here),
        )
  ]

-- With the key's row unique, and from a cache whose entries that have not expired hold what the
-- table says: a change of a setting returns its row with the new value and leaves a cache of which
-- the same holds for the changed table; and a known key that is asked for then,
-- by a call that reads the clock again under the lock, no earlier, is read, by its kind,
-- from the new text if it is the one changed, and from the text that it had if not.
pub get_many-set_config_value :
    (env : Env) (site : Site) (key value : Text) (db : Db) (now locked_now later : ℕ)
    (keys : List Text) (cache : Cache)
    → count_rows (has_config_key key) db.configs ≤ 1
    → now ≤ locked_now
    → IsCoherent env site db now cache
    → let (r, s) = set_config_value key value cache (fresh_session db) in
      (c : Config) × (cache' : Cache) × (r ≡ ok (c, cache'))
      × (c.value ≡ value)
      × IsCoherent env site s.committed now cache'
      × ((k : Text)
          → is_listed_name keys k ≡ true
          → is_known site k ≡ true
          → lookup k (get_many env site s.committed now locked_now later keys cache').0
            ≡ some
                (setting env site k (if text_eq key k then some value else value_in k db.configs)))
get_many-set_config_value env site key value db now locked_now later keys cache unique le coherent =
    let (r, s) = set_config_value key value cache (fresh_session db) in
    let (c, e, same_value, says) = set_config_value_lem key value db unique cache in
    let cache' = pop key cache in
    let still : IsCoherent env site s.committed now cache' = λ k v until h fresh.
      elim (Bool-cases (text_eq key k)) [
        | inl same ↦ absurd (ground (arith, same, lookup-pop k key cache, h))
        | inr other ↦
            coherent k v until (ground (arith, other, lookup-pop k key cache, h)) fresh
            ∙ ap (cast_value env site k (default_of site k)) (sym (says k ∙ ground (arith, other)))
      ] in
    (
      c,
      cache',
      e,
      same_value,
      still,
      λ k listed known.
          (get_many_lem env site s.committed now locked_now later keys cache' le still).0 k listed
          ∙ ap (λ w. some w) (rw known (ap (setting env site k) (says k))),
    )
