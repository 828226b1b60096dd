-- ===== src/Settings/Kinds.antt =====
-- The kinds of settings of app/services/config_runtime.py, and how the text in the table is read.
use mathlib.Core.Path.{subst}
use music_room_bot.Prelude.{
  ℕ, ◌≡◌, refl, inl, inr, true, false, ◌||◌, Option, none, some, List, [], ◌∷◌, arith,
  if◌then◌else◌, is_some, ℤ, pos, Bool-cases, Option-cases, All, Text, text_eq, is_empty, strip,
}
use music_room_bot.Session.{Env}
use music_room_bot.Settings.{
  text, ConfigValue, no_value, int_of, float_of, str_of, Site, Dict, lookup, defaults,
  is_optional_int_key, is_id_key, parse_optional_int, cast_value, default_of,
}
use music_room_bot.Settings.Laws.{text_eq→eq, is_known}
use music_room_bot.Users.Access.{is_listed_name}

-- The keys of numbers, of texts that are taken as they are, and of chats and topics.
abbrev pub int_keys : List Text
int_keys =
    text "reminder_hours" ∷ text "late_minutes" ∷ text "weekly_limit" ∷ text "slot_length" ∷ []

abbrev pub text_keys : List Text
text_keys =
    text "geo_center_lat" ∷ text "geo_center_lon" ∷ text "rules_text" ∷ text "access_form_url" ∷ []

abbrev pub int_or : ConfigValue → Option ℤ → ConfigValue
int_or v none = v
int_or v (some n) = int_of n

abbrev pub float_or : ConfigValue → Option ℕ → ConfigValue
float_or v none = v
float_or v (some x) = float_of x

-- The setting of a known key by its text in the table: the default without a row. A number or a
-- float that can be read, and else the default; a text as it is; the id of a chat or a topic, after
-- trimming, and else None, also for "none" in any case.
abbrev pub setting : Env → Site → Text → Option Text → ConfigValue
setting env site key none = default_of site key
setting env site key (some raw) =
    if is_listed_name int_keys key
    then int_or (default_of site key) (env.int_of_text raw)
    else if text_eq key (text "geo_radius")
    then float_or (default_of site key) (site.float_of_text raw)
    else if is_listed_name text_keys key
    then str_of raw
    else let trimmed = strip env.is_space raw in
      if is_empty trimmed || text_eq (env.lower trimmed) (text "none")
      then no_value
      else int_or no_value (env.int_of_text trimmed)

module _ (env : Env) (site : Site) where
  abbrev Reads : Text → Type 0
  Reads key =
      (raw : Option Text)
      → cast_value env site key (default_of site key) raw ≡ setting env site key raw

  known_key_lem :
      (P : Text → Type 0) (d : Dict ConfigValue) (key : Text)
      → is_some (lookup key d) ≡ true
      → All (λ e. P e.0) d
      → P key
  known_key_lem P [] key h all = absurd (ground (arith, h))
  known_key_lem P ((j, v) ∷ d) key h all = elim (Bool-cases (text_eq j key)) [
    | inl same ↦ subst P (text_eq→eq j key same) all.0
    | inr other ↦ known_key_lem P d key (ground (arith, h, other)) all.1
  ]

  int-Reads :
      (key : Text) (n : ℤ)
      → default_of site key ≡ int_of n
      → is_id_key key ≡ false
      → is_listed_name int_keys key ≡ true
      → Reads key
  unfolding cast_value
  int-Reads key n d i k none = refl
  int-Reads key n d i k (some raw) = elim (Option-cases (env.int_of_text raw)) [
    | inl bad ↦ ground (arith, d, i, k, bad)
    | inr (m, good) ↦ ground (arith, d, i, k, good)
  ]

  radius-Reads : Reads (text "geo_radius")
  unfolding cast_value defaults text is_id_key
  radius-Reads none = refl
  radius-Reads (some raw) = elim (Option-cases (site.float_of_text raw)) [
    | inl bad ↦ rw bad refl
    | inr (x, good) ↦ rw good refl
  ]

  id-Reads :
      (key : Text)
      → is_id_key key ≡ true
      → is_listed_name int_keys key ≡ false
      → text_eq key (text "geo_radius") ≡ false
      → is_listed_name text_keys key ≡ false
      → (if is_optional_int_key key then no_value else default_of site key) ≡ no_value
      → Reads key
  unfolding cast_value parse_optional_int
  id-Reads key i k r t d none = refl
  id-Reads key i k r t d (some raw) =
      let trimmed = strip env.is_space raw in
      elim (Bool-cases (is_empty trimmed || text_eq (env.lower trimmed) (text "none"))) [
        | inl nothing ↦ ground (arith, i, k, r, t, nothing, d)
        | inr something ↦ elim (Option-cases (env.int_of_text trimmed)) [
          | inl bad ↦ ground (arith, i, k, r, t, something, bad, d)
          | inr (n, good) ↦ ground (arith, i, k, r, t, something, good)
        ]
      ]

  lat-Reads : Reads (text "geo_center_lat")
  unfolding cast_value defaults text is_id_key
  lat-Reads none = refl
  lat-Reads (some raw) = refl

  lon-Reads : Reads (text "geo_center_lon")
  unfolding cast_value defaults text is_id_key
  lon-Reads none = refl
  lon-Reads (some raw) = refl

  rules-Reads : Reads (text "rules_text")
  unfolding cast_value defaults text is_id_key
  rules-Reads none = refl
  rules-Reads (some raw) = refl

  form-Reads : Reads (text "access_form_url")
  unfolding cast_value defaults text is_id_key
  form-Reads none = refl
  form-Reads (some raw) = refl

  defaults-Reads : All (λ e. Reads e.0) (defaults site)
  unfolding defaults text is_id_key is_optional_int_key
  defaults-Reads = (
    radius-Reads,
    (
      lat-Reads,
      (
        lon-Reads,
        (
          int-Reads (text "reminder_hours") (pos 2) refl refl refl,
          (
            int-Reads (text "late_minutes") (pos 10) refl refl refl,
            (
              int-Reads (text "weekly_limit") (pos 2) refl refl refl,
              (
                int-Reads (text "slot_length") (pos 60) refl refl refl,
                (
                  id-Reads (text "admin_chat_id") refl refl refl refl refl,
                  (
                    id-Reads (text "warning_chat_id") refl refl refl refl refl,
                    (
                      id-Reads (text "access_chat_id") refl refl refl refl refl,
                      (
                        id-Reads (text "member_chat_id") refl refl refl refl refl,
                        (
                          id-Reads (text "member_topic_id") refl refl refl refl refl,
                          (
                            id-Reads (text "equipment_topic_id") refl refl refl refl refl,
                            (rules-Reads, (form-Reads, tt)),
                          ),
                        ),
                      ),
                    ),
                  ),
                ),
              ),
            ),
          ),
        ),
      ),
    ),
  )

  -- A known key is cast as its kind is read.
  pub cast_value_lem :
      (key : Text) (raw : Option Text)
      → is_known site key ≡ true
      → cast_value env site key (default_of site key) raw ≡ setting env site key raw
  cast_value_lem key raw known = known_key_lem Reads (defaults site) key known defaults-Reads raw
