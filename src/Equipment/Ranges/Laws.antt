-- ===== src/Equipment/Ranges/Laws.antt =====
-- The check for overlaps and the parser of ranges of app/services/equipment_request_service.py.
use music_room_bot.Prelude.{
  ℕ, ◌≤◌, ◌<◌, ◌≡◌, refl, ◌∙◌, inl, inr, Bool, false, ◌&&◌, ◌||◌, Option, none, some, List, [], ◌∷◌,
  arith, ltb, leb, if◌then◌else◌, leb→le, Bool-cases, length, All, Text,
}
use music_room_bot.Equipment.Ranges.{
  EquipmentRange, insert_range, sort_ranges, neighbours_overlap, check_equipment_ranges_overlap,
  TextTools, parse_line, append_parsed, parse_lines, after_check, parsed_ranges,
  parse_equipment_ranges_text,
}
use music_room_bot.Session.{value_error, Outcome, ok, raised}

-- Two ranges have an instant in common.
abbrev pub overlaps : EquipmentRange → EquipmentRange → Bool
overlaps a b = ltb a.start_at b.end_at && ltb b.start_at a.end_at

unfoldable pub overlaps_any : EquipmentRange → List EquipmentRange → Bool
overlaps_any a [] = false
overlaps_any a (b ∷ bs) = overlaps a b || overlaps_any a bs

-- Some two ranges of the list overlap.
unfoldable pub any_overlap : List EquipmentRange → Bool
any_overlap [] = false
any_overlap (x ∷ xs) = overlaps_any x xs || any_overlap xs

abbrev pub IsRange : EquipmentRange → Type 0
IsRange x = x.start_at < x.end_at

overlaps_any-insert_range :
    (a x : EquipmentRange) (l : List EquipmentRange)
    → overlaps_any a (insert_range x l) ≡ (overlaps a x || overlaps_any a l)
unfolding overlaps_any insert_range
overlaps_any-insert_range a x [] = refl
overlaps_any-insert_range a x (y ∷ ys) = ground (arith, overlaps_any-insert_range a x ys)

any_overlap-insert_range :
    (x : EquipmentRange) (l : List EquipmentRange)
    → any_overlap (insert_range x l) ≡ (overlaps_any x l || any_overlap l)
unfolding any_overlap overlaps_any insert_range
any_overlap-insert_range x [] = refl
any_overlap-insert_range x (y ∷ ys) =
    ground (arith, any_overlap-insert_range x ys, overlaps_any-insert_range y x ys)

overlaps_any-sort_ranges :
    (a : EquipmentRange) (l : List EquipmentRange)
    → overlaps_any a (sort_ranges l) ≡ overlaps_any a l
unfolding overlaps_any sort_ranges
overlaps_any-sort_ranges a [] = refl
overlaps_any-sort_ranges a (x ∷ xs) =
    ground (arith, overlaps_any-sort_ranges a xs, overlaps_any-insert_range a x (sort_ranges xs))

any_overlap-sort_ranges : (l : List EquipmentRange) → any_overlap (sort_ranges l) ≡ any_overlap l
unfolding any_overlap sort_ranges
any_overlap-sort_ranges [] = refl
any_overlap-sort_ranges (x ∷ xs) = ground (
  arith,
  any_overlap-sort_ranges xs,
  overlaps_any-sort_ranges x xs,
  any_overlap-insert_range x (sort_ranges xs),
)

-- Sorted by the start, all of the ranges with a positive length.
abbrev StartsFrom : ℕ → EquipmentRange → Type 0
StartsFrom s x = (s ≤ x.start_at) × IsRange x

abbrev IsOrdered : ℕ → List EquipmentRange → Type 0
IsOrdered s [] = Unit
IsOrdered s (x ∷ xs) = StartsFrom s x × IsOrdered x.start_at xs

insert_range-IsOrdered :
    (s : ℕ) (x : EquipmentRange) (l : List EquipmentRange)
    → StartsFrom s x
    → IsOrdered s l
    → IsOrdered s (insert_range x l)
unfolding insert_range
insert_range-IsOrdered s x [] p v = (p, tt)
insert_range-IsOrdered s x (y ∷ ys) p v = elim (Bool-cases (leb x.start_at y.start_at)) [
  | inl first ↦ rw first (p, ((leb→le x.start_at y.start_at first, v.0.1), v.1))
  | inr later ↦ rw later (v.0, insert_range-IsOrdered y.start_at x ys (ground arith, p.1) v.1)
]

sort_ranges-IsOrdered : (l : List EquipmentRange) → All IsRange l → IsOrdered 0 (sort_ranges l)
unfolding sort_ranges
sort_ranges-IsOrdered [] a = tt
sort_ranges-IsOrdered (x ∷ xs) a =
    insert_range-IsOrdered 0 x (sort_ranges xs) (omega arith, a.0) (sort_ranges-IsOrdered xs a.1)

-- A range that has ended overlaps no later one.
ended-overlaps_any :
    (x : EquipmentRange) (s : ℕ) (l : List EquipmentRange)
    → x.end_at ≤ s
    → IsOrdered s l
    → overlaps_any x l ≡ false
unfolding overlaps_any
ended-overlaps_any x s [] h v = refl
ended-overlaps_any x s (y ∷ ys) h v =
    let late : x.end_at ≤ y.start_at = omega (arith, h, v.0.0) in
    ground (arith, late, ended-overlaps_any x y.start_at ys late v.1)

neighbours_overlap-any_overlap :
    (x : EquipmentRange) (l : List EquipmentRange)
    → IsRange x
    → IsOrdered x.start_at l
    → neighbours_overlap (x ∷ l) ≡ any_overlap (x ∷ l)
unfolding neighbours_overlap any_overlap overlaps_any
neighbours_overlap-any_overlap x [] p v = refl
neighbours_overlap-any_overlap x (y ∷ r) p v =
    let rest = neighbours_overlap-any_overlap y r v.0.1 v.1 in
    elim (Bool-cases (ltb y.start_at x.end_at)) [
      | inl meet ↦ ground (arith, v.0.0, v.0.1, p)
      | inr apart ↦
          let late : x.end_at ≤ y.start_at = ground arith in
          ground (arith, late, rest, ended-overlaps_any x y.start_at r late v.1)
    ]

neighbours_overlap-IsOrdered :
    (s : ℕ) (l : List EquipmentRange) → IsOrdered s l → neighbours_overlap l ≡ any_overlap l
unfolding neighbours_overlap any_overlap
neighbours_overlap-IsOrdered s [] v = refl
neighbours_overlap-IsOrdered s (x ∷ l) v = neighbours_overlap-any_overlap x l v.0.1 v.1

-- For ranges that end after they start, the check, which compares neighbours of the list sorted by
-- start, raises exactly if some two ranges of the list overlap.
pub check_equipment_ranges_overlap_lem :
    (l : List EquipmentRange)
    → All IsRange l
    → check_equipment_ranges_overlap l ≡ (if any_overlap l then raised value_error else ok tt)
unfolding check_equipment_ranges_overlap
check_equipment_ranges_overlap_lem l a =
    rw
      (neighbours_overlap-IsOrdered 0 (sort_ranges l) (sort_ranges-IsOrdered l a)
        ∙ any_overlap-sort_ranges l)
      refl

-- Of a result: all ranges end after they start.
abbrev AllRanges : Outcome (List EquipmentRange) → Type 0
AllRanges (raised e) = Unit
AllRanges (ok ranges) = All IsRange ranges

-- Of a result: a list that is not empty, of ranges that end after they start and do not overlap.
abbrev pub IsSchedule : Outcome (List EquipmentRange) → Type 0
IsSchedule (raised e) = Unit
IsSchedule (ok ranges) = (1 ≤ length ranges) × All IsRange ranges × (any_overlap ranges ≡ false)

after_check-IsSchedule :
    (r : Outcome (Unit {0})) (ranges : List EquipmentRange)
    → r ≡ (if any_overlap ranges then raised value_error else ok tt)
    → 1 ≤ length ranges
    → All IsRange ranges
    → IsSchedule (after_check r ranges)
after_check-IsSchedule (raised e) ranges h n a = tt
after_check-IsSchedule (ok u) ranges h n a = (n, a, ground arith)

module _ (tools : TextTools) where
  parse_line-IsRange :
      (l : Text) (x : EquipmentRange) → parse_line tools l ≡ ok (some x) → IsRange x
  unfolding parse_line
  parse_line-IsRange l x e = ground arith

  append_parsed-AllRanges :
      (r : Outcome (Option EquipmentRange)) (rest : Outcome (List EquipmentRange))
      → ((x : EquipmentRange) → r ≡ ok (some x) → IsRange x)
      → AllRanges rest
      → AllRanges (append_parsed r rest)
  append_parsed-AllRanges (raised e) rest h a = tt
  append_parsed-AllRanges (ok none) rest h a = a
  append_parsed-AllRanges (ok (some x)) (raised e) h a = tt
  append_parsed-AllRanges (ok (some x)) (ok ranges) h a = (h x refl, a)

  parse_lines-AllRanges : (ls : List Text) → AllRanges (parse_lines tools ls)
  unfolding parse_lines
  parse_lines-AllRanges [] = tt
  parse_lines-AllRanges (l ∷ ls) =
      append_parsed-AllRanges (parse_line tools l) (parse_lines tools ls) (parse_line-IsRange l)
        (parse_lines-AllRanges ls)

  parsed_ranges-IsSchedule :
      (r : Outcome (List EquipmentRange)) → AllRanges r → IsSchedule (parsed_ranges r)
  parsed_ranges-IsSchedule (raised e) a = tt
  parsed_ranges-IsSchedule (ok []) a = tt
  parsed_ranges-IsSchedule (ok (x ∷ xs)) a =
      after_check-IsSchedule (check_equipment_ranges_overlap (x ∷ xs)) (x ∷ xs)
        (check_equipment_ranges_overlap_lem (x ∷ xs) a) (omega arith) a

  -- What the parser of ranges returns is not empty, and its ranges end after they start and do not
  -- overlap.
  pub parse_equipment_ranges_text_lem :
      (raw_text : Text) → IsSchedule (parse_equipment_ranges_text tools raw_text)
  unfolding parse_equipment_ranges_text
  parse_equipment_ranges_text_lem raw_text =
      parsed_ranges-IsSchedule (parse_lines tools (tools.splitlines raw_text))
        (parse_lines-AllRanges (tools.splitlines raw_text))
