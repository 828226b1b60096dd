-- ===== src/Tests/Options.antt =====
-- The theorems on settings at the sample club, from a cache that holds its weekly limit.
use music_room_bot.Prelude.{
  ◌≤◌, ◌≡◌, refl, sym, ap, ◌∙◌, inl, inr, true, none, some, [], ◌∷◌, arith, if◌then◌else◌, pos,
  Bool-cases, Text, text_eq,
}
use music_room_bot.Db.{Config}
use music_room_bot.Prelude.Rows.{count_rows}
use music_room_bot.Session.{ok, fresh_session}
use music_room_bot.Settings.{
  text, int_of, Site, lookup, defaults, cast_value, has_config_key, value_in, Cache, get_many,
  set_config_value,
}
use music_room_bot.Settings.Changes.{get_many-set_config_value}
use music_room_bot.Settings.Coherence.{setting_of, get_many_lem}
use music_room_bot.Settings.Kinds.{setting}
use music_room_bot.Settings.Laws.{text_eq→eq, stored_value, is_known, IsCoherent}
use music_room_bot.Tests.{env, db}
use music_room_bot.Users.Access.{is_listed_name}

abbrev site : Site
site = record {
  equipment_topic_id = none;
  access_form_url = [];
  ttl = 30;
  float_50 = 50;
  float_of_text = λ t. none;
}

abbrev limit_key : Text
limit_key = text "weekly_limit"

abbrev three : Text
three = 51 ∷ []

abbrev limit_cache : Cache
limit_cache = (limit_key, (int_of (pos 2), 40)) ∷ []

limit_by_default : stored_value env site db limit_key ≡ int_of (pos 2)
unfolding cast_value defaults text
limit_by_default = refl

limit_cache-IsCoherent : IsCoherent env site db 20 limit_cache
limit_cache-IsCoherent key v expires_at h fresh = elim (Bool-cases (text_eq limit_key key)) [
  | inl same ↦
      let first : int_of (pos 2) ≡ v = ground (arith, same, h) in
      sym first
      ∙ sym limit_by_default
      ∙ ap (stored_value env site db) (text_eq→eq limit_key key same)
  | inr other ↦ absurd (ground (arith, other, h))
]

get_many_lem_example :
    let (result, cache') = get_many env site db 20 20 21 (limit_key ∷ []) limit_cache in
    ((key : Text)
      → is_listed_name (limit_key ∷ []) key ≡ true
      → lookup key result ≡ some (setting_of env site db key))
    × IsCoherent env site db 20 cache'
get_many_lem_example =
    get_many_lem env site db 20 20 21 (limit_key ∷ []) limit_cache (omega arith)
      limit_cache-IsCoherent

no_limit_row : count_rows (has_config_key limit_key) db.configs ≤ 1
unfolding count_rows
no_limit_row = omega arith

get_many-set_config_value_example :
    let (r, s) = set_config_value limit_key three limit_cache (fresh_session db) in
    (c : Config) × (cache' : Cache) × (r ≡ ok (c, cache'))
    × (c.value ≡ three)
    × IsCoherent env site s.committed 20 cache'
    × ((k : Text)
        → is_listed_name (limit_key ∷ []) k ≡ true
        → is_known site k ≡ true
        → lookup k (get_many env site s.committed 20 20 21 (limit_key ∷ []) cache').0
          ≡ some (
              setting env site k
                (if text_eq limit_key k then some three else value_in k db.configs)))
get_many-set_config_value_example =
    get_many-set_config_value env site limit_key three db 20 20 21 (limit_key ∷ []) limit_cache
      no_limit_row (omega arith) limit_cache-IsCoherent
