-- ===== src/Equipment/Ranges.antt =====
-- The time ranges of an equipment request: `check_equipment_ranges_overlap` and
-- `parse_equipment_ranges_text` of app/services/equipment_request_service.py. Exceptions are raised
-- without their texts. `str.splitlines`, `str.strip`, the split at the first "->" and
-- `datetime.strptime` are parameters, as a record.
pub mod Laws
use music_room_bot.Prelude.{
  ℕ, Bool, false, ◌||◌, Option, none, some, List, [], ◌∷◌, ltb, leb, if◌then◌else◌, Text, is_empty,
}
use music_room_bot.Session.{value_error, Outcome, ok, raised}

pub record EquipmentRange : Type 0 where
  pub start_at : ℕ
  pub end_at : ℕ

-- `sorted(ranges, key=lambda x: x["start_at"])`, which is stable.
unfoldable pub insert_range : EquipmentRange → List EquipmentRange → List EquipmentRange
insert_range x [] = x ∷ []
insert_range x (y ∷ ys) = if leb x.start_at y.start_at then x ∷ y ∷ ys else y ∷ insert_range x ys

unfoldable pub sort_ranges : List EquipmentRange → List EquipmentRange
sort_ranges [] = []
sort_ranges (x ∷ xs) = insert_range x (sort_ranges xs)

-- The loop: whether some range starts before the one in front of it has ended.
unfoldable pub neighbours_overlap : List EquipmentRange → Bool
neighbours_overlap [] = false
neighbours_overlap (x ∷ []) = false
neighbours_overlap (x ∷ y ∷ r) = ltb y.start_at x.end_at || neighbours_overlap (y ∷ r)

unfoldable pub check_equipment_ranges_overlap : List EquipmentRange → Outcome (Unit {0})
check_equipment_ranges_overlap ranges =
    if neighbours_overlap (sort_ranges ranges) then raised value_error else ok tt

-- What the code uses of `str` and `datetime`.
pub record TextTools : Type 0 where
  pub splitlines : Text → List Text
  pub strip_text : Text → Text
  pub split_arrow : Text → Option (Text × Text)
  pub strptime : Text → Option ℕ

-- One line: nothing for an empty one, and else its range, whose end must be after its start.
parse_times : Option ℕ → Option ℕ → Outcome (Option EquipmentRange)
parse_times none end_at = raised value_error
parse_times (some s) none = raised value_error
parse_times (some s) (some e) =
    if leb e s then raised value_error else ok (some (record { start_at = s; end_at = e }))

parse_parts : TextTools → Option (Text × Text) → Outcome (Option EquipmentRange)
unfolding parse_times
parse_parts tools none = raised value_error
parse_parts tools (some (a, b)) =
    parse_times (tools.strptime (tools.strip_text a)) (tools.strptime (tools.strip_text b))

unfoldable pub parse_line : TextTools → Text → Outcome (Option EquipmentRange)
unfolding parse_parts
parse_line tools line =
    let t = tools.strip_text line in
    if is_empty t then ok none else parse_parts tools (tools.split_arrow t)

-- `ranges.append(…)`, and the exceptions of the line and of the lines that follow.
abbrev pub append_parsed :
    Outcome (Option EquipmentRange) → Outcome (List EquipmentRange) → Outcome (List EquipmentRange)
append_parsed (raised e) rest = raised e
append_parsed (ok none) rest = rest
append_parsed (ok (some x)) (raised e) = raised e
append_parsed (ok (some x)) (ok ranges) = ok (x ∷ ranges)

-- The loop over the lines.
unfoldable pub parse_lines : TextTools → List Text → Outcome (List EquipmentRange)
parse_lines tools [] = ok []
parse_lines tools (l ∷ ls) = append_parsed (parse_line tools l) (parse_lines tools ls)

-- The check for overlaps, and before it `if not ranges: raise`.
abbrev pub after_check : Outcome (Unit {0}) → List EquipmentRange → Outcome (List EquipmentRange)
after_check (raised e) ranges = raised e
after_check (ok u) ranges = ok ranges

abbrev pub checked_ranges : List EquipmentRange → Outcome (List EquipmentRange)
checked_ranges [] = raised value_error
checked_ranges (x ∷ xs) = after_check (check_equipment_ranges_overlap (x ∷ xs)) (x ∷ xs)

abbrev pub parsed_ranges : Outcome (List EquipmentRange) → Outcome (List EquipmentRange)
parsed_ranges (raised e) = raised e
parsed_ranges (ok ranges) = checked_ranges ranges

unfoldable pub parse_equipment_ranges_text : TextTools → Text → Outcome (List EquipmentRange)
parse_equipment_ranges_text tools raw_text = elim (parse_lines tools (tools.splitlines raw_text)) [
  | raised e ↦ raised e
  | ok ranges ↦ checked_ranges ranges
]
