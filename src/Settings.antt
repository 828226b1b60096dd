-- ===== src/Settings.antt =====
-- app/services/config_service.py and app/services/config_runtime.py: the settings in the table of
-- the database, and the process's cache of them. A float is a number that names it.
-- `get_many` reads the clock three times; each call runs as a whole.
pub mod Laws
pub mod Kinds
pub mod Coherence
pub mod Changes
use Prim.Native.Char.{code}
use mathlib.Core.List.{reverse}
use Prim.Native.String.{String}
use Prim.Native.String as String
use music_room_bot.Prelude.{
  ℕ, ◌+◌, Bool, true, false, ◌&&◌, ◌||◌, Option, none, some, List, [], ◌∷◌, ltb, ◌==◌,
  if◌then◌else◌, is_some, ℤ, pos, Text, text_eq, is_empty, strip_left, strip,
}
use music_room_bot.Db.{Config, Db}
use music_room_bot.Prelude.Rows.{select, update_rows}
use music_room_bot.Session.{
  Env, Exec, pure, query, scalar_one_or_none, scalar_one, modify, commit, ◌>>=◌, ◌>>◌,
}

-- A literal as its code points.
unfoldable pub text : String → Text
text String.[] = []
text (String.◌∷◌ c s) = code c ∷ text s

-- `RuntimeConfigValue`, with its floats.
pub data ConfigValue : Type 0 where
  no_value : ConfigValue
  int_of : ℤ → ConfigValue
  float_of : ℕ → ConfigValue
  str_of : Text → ConfigValue

-- What comes from the process's environment and from Python's `float`.
pub record Site : Type 0 where
  pub equipment_topic_id : Option ℤ
  pub access_form_url : Text
  pub ttl : ℕ
  pub float_50 : ℕ
  pub float_of_text : Text → Option ℕ

abbrev pub Dict {ℓ} : Type ℓ → Type ℓ
Dict A = List (Text × A)

abbrev pub lookup {ℓ} : {A : Type ℓ} → Text → Dict A → Option A
lookup k [] = none
lookup k ((j, v) ∷ r) = if text_eq j k then some v else lookup k r

abbrev pub assign {ℓ} : {A : Type ℓ} → Text → A → Dict A → Dict A
assign k v [] = (k, v) ∷ []
assign k v ((j, w) ∷ r) = if text_eq j k then (j, v) ∷ r else (j, w) ∷ assign k v r

-- `dict.pop(key, None)`
abbrev pub pop {ℓ} : {A : Type ℓ} → Text → Dict A → Dict A
pop k [] = []
pop k ((j, v) ∷ r) = if text_eq j k then pop k r else (j, v) ∷ pop k r

abbrev pub or_none : Option ℤ → ConfigValue
or_none none = no_value
or_none (some n) = int_of n

unfoldable pub defaults : Site → Dict ConfigValue
unfolding text
defaults site =
    (text "geo_radius", float_of site.float_50)
    ∷ (text "geo_center_lat", no_value)
    ∷ (text "geo_center_lon", no_value)
    ∷ (text "reminder_hours", int_of (pos 2))
    ∷ (text "late_minutes", int_of (pos 10))
    ∷ (text "weekly_limit", int_of (pos 2))
    ∷ (text "slot_length", int_of (pos 60))
    ∷ (text "admin_chat_id", no_value)
    ∷ (text "warning_chat_id", no_value)
    ∷ (text "access_chat_id", no_value)
    ∷ (text "member_chat_id", no_value)
    ∷ (text "member_topic_id", no_value)
    ∷ (text "equipment_topic_id", or_none site.equipment_topic_id)
    ∷ (text "rules_text", str_of (text "Need to be updated."))
    ∷ (text "access_form_url", str_of site.access_form_url)
    ∷ []

-- `OPTIONAL_INT_CONFIG_KEYS`
unfoldable pub is_optional_int_key : Text → Bool
unfolding text
is_optional_int_key key = text_eq key (text "equipment_topic_id")

abbrev pub starts_with : Text → Text → Bool
starts_with [] t = true
starts_with (c ∷ s) [] = false
starts_with (c ∷ s) (d ∷ t) = c == d && starts_with s t

abbrev pub ends_with : Text → Text → Bool
ends_with suffix t = starts_with (reverse suffix) (reverse t)

unfoldable pub is_id_key : Text → Bool
unfolding text
is_id_key key = ends_with (text "_chat_id") key || ends_with (text "_topic_id") key

unfoldable pub parse_optional_int : Env → Text → Option ℤ
unfolding strip strip_left text
parse_optional_int env raw =
    let s = strip env.is_space raw in
    if is_empty s || text_eq (env.lower s) (text "none") then none else env.int_of_text s

abbrev pub or_value : ConfigValue → Option ConfigValue → ConfigValue
or_value v none = v
or_value v (some w) = w

-- `type(default_val)(raw)`, and the default where that raises.
abbrev pub cast_like : Env → Site → ConfigValue → Text → ConfigValue
cast_like env site no_value raw = str_of raw
cast_like env site (int_of n) raw = elim (env.int_of_text raw) [
  | none ↦ int_of n
  | some m ↦ int_of m
]
cast_like env site (float_of x) raw = elim (site.float_of_text raw) [
  | none ↦ float_of x
  | some y ↦ float_of y
]
cast_like env site (str_of t) raw = str_of raw

-- A chat or topic.
abbrev pub cast_id : Env → Text → ConfigValue → Text → ConfigValue
cast_id env key default raw = elim (parse_optional_int env raw) [
  | some n ↦ int_of n
  | none ↦ if is_optional_int_key key then no_value else default
]

unfoldable pub cast_value : Env → Site → Text → ConfigValue → Option Text → ConfigValue
cast_value env site key default none = default
cast_value env site key default (some raw) =
    if is_id_key key then cast_id env key default raw else cast_like env site default raw

abbrev pub has_config_key : Text → Config → Bool
has_config_key key c = text_eq c.key key

-- `{key: value for …}` of the rows, as far as one key goes: the last row wins.
abbrev pub value_in : Text → List Config → Option Text
value_in key [] = none
value_in key (c ∷ cs) =
    let later = value_in key cs in
    if is_some later then later else if text_eq c.key key then some c.value else none

abbrev pub Cache : Type 0
Cache = Dict (ConfigValue × ℕ)

abbrev pub unexpired : ℕ → Option (ConfigValue × ℕ) → Option ConfigValue
unexpired now none = none
unexpired now (some (value, expires_at)) = if ltb now expires_at then some value else none

-- `_get_cached_value`, whose pair is an option here.
unfoldable pub get_cached_value : Cache → Text → ℕ → ℕ → Option ConfigValue
get_cached_value cache key ttl now = if ttl == 0 then none else unexpired now (lookup key cache)

-- The first loop of `get_many`: the values found, and the keys that are missing.
unfoldable pub first_pass :
    Site → Cache → ℕ → List Text → Dict ConfigValue → Dict ConfigValue × List Text
unfolding get_cached_value
first_pass site cache now [] result = (result, [])
first_pass site cache now (key ∷ keys) result = elim (lookup key (defaults site)) [
  | none ↦ first_pass site cache now keys (assign key no_value result)
  | some d ↦ elim (get_cached_value cache key site.ttl now) [
    | some v ↦ first_pass site cache now keys (assign key v result)
    | none ↦ let (found, missing) = first_pass site cache now keys result in (found, key ∷ missing)
  ]
]

-- The loop under the lock.
unfoldable pub second_pass :
    Site → Cache → ℕ → List Text → Dict ConfigValue → Dict ConfigValue × List Text
unfolding get_cached_value
second_pass site cache now [] result = (result, [])
second_pass site cache now (key ∷ keys) result = elim (get_cached_value cache key site.ttl now) [
  | some v ↦ second_pass site cache now keys (assign key v result)
  | none ↦ let (found, missing) = second_pass site cache now keys result in (found, key ∷ missing)
]

abbrev pub default_of : Site → Text → ConfigValue
default_of site key = or_value no_value (lookup key (defaults site))

abbrev pub store_value : Site → Text → ConfigValue → ℕ → Cache → Cache
store_value site key v expires_at cache =
    if site.ttl == 0 then cache else assign key (v, expires_at) cache

-- The last loop, over the keys that were queried.
unfoldable pub fill :
    Env → Site → Db → ℕ → List Text → Dict ConfigValue → Cache → Dict ConfigValue × Cache
unfolding cast_value
fill env site db expires_at [] result cache = (result, cache)
fill env site db expires_at (key ∷ keys) result cache =
    let v = cast_value env site key (default_of site key) (value_in key db.configs) in
    fill env site db expires_at keys (assign key v result) (store_value site key v expires_at cache)

unfoldable pub get_many : Env → Site → Db → ℕ → ℕ → ℕ → List Text → Cache → Dict ConfigValue × Cache
unfolding first_pass second_pass fill
get_many env site db now locked_now later keys cache =
    let (found, missing) = first_pass site cache now keys [] in
    let (result, query_keys) = second_pass site cache locked_now missing found in
    fill env site db (later + site.ttl) query_keys result cache

-- `invalidate_runtime_config_cache`
abbrev pub invalidate_runtime_config_cache : Option Text → Cache → Cache
invalidate_runtime_config_cache none cache = []
invalidate_runtime_config_cache (some key) cache = pop key cache

-- `set_config_value`
abbrev pub with_config : Text → Text → Db → Db
with_config key value db = record db { configs = record { key = key; value = value } ∷ db.configs }

abbrev pub rewrite_config : Text → Text → Db → Db
rewrite_config key value db = record db {
  configs = update_rows (has_config_key key) (λ c. record c { value = value }) db.configs;
}

-- The process's cache comes back with the row; without an exception after the commit, which the
-- second query raises only for two rows with one key, it is the cache from then on.
unfoldable pub set_config_value : Text → Text → Cache → Exec (Config × Cache)
set_config_value key value cache = do
  rows ← query λ db. select (has_config_key key) db.configs
  row ← scalar_one_or_none rows
  elim row [
    | some c ↦ do
      modify (rewrite_config key value)
      commit
      let cache' = invalidate_runtime_config_cache (some key) cache
      again ← query λ db. select (has_config_key key) db.configs
      conf ← scalar_one again
      pure (conf, cache')
    | none ↦ do
      modify (with_config key value)
      commit
      let cache' = invalidate_runtime_config_cache (some key) cache
      pure (record { key = key; value = value }, cache')
  ]

unfoldable pub get_config_value : Text → Exec (Option Text)
get_config_value key = do
  rows ← query λ db. select (has_config_key key) db.configs
  row ← scalar_one_or_none rows
  elim row [ none ↦ pure none | some c ↦ pure (some c.value) ]
