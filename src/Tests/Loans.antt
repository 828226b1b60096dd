-- ===== src/Tests/Loans.antt =====
-- The theorems on equipment requests, at a request that is approved.
use music_room_bot.Prelude.{
  ℕ, ◌≡◌, refl, true, Option, none, some, [], ◌∷◌, arith, if◌then◌else◌, Text,
}
use music_room_bot.Equipment.{
  approved, EquipmentRequest, EquipmentFields, is_decided, ensure_decidable,
  create_equipment_request, record_equipment_request_dm_result, approve_equipment_request,
  decline_equipment_request,
}
use music_room_bot.Equipment.Decisions.{
  dm_recorded, approval, Run, no_step, then_step, decision, IsWellDecided, decision_is_final,
}
use music_room_bot.Equipment.Ranges.{
  EquipmentRange, check_equipment_ranges_overlap, TextTools, parse_equipment_ranges_text,
}
use music_room_bot.Equipment.Ranges.Laws.{
  any_overlap, check_equipment_ranges_overlap_lem, IsSchedule, parse_equipment_ranges_text_lem,
}
use music_room_bot.Session.{value_error, ok, raised}
use music_room_bot.Tests.{ten_oclock}
use music_room_bot.Time.{combine}

abbrev morning : EquipmentRange
morning = record { start_at = combine 702 9; end_at = combine 702 12 }

abbrev noon : EquipmentRange
noon = record { start_at = combine 702 11; end_at = combine 702 14 }

check_equipment_ranges_overlap_lem_example :
    check_equipment_ranges_overlap (noon ∷ morning ∷ [])
    ≡ (if any_overlap (noon ∷ morning ∷ []) then raised value_error else ok tt)
check_equipment_ranges_overlap_lem_example =
    check_equipment_ranges_overlap_lem (noon ∷ morning ∷ []) (omega arith, (omega arith, tt))

-- Texts of one line "a>b", whose times are single characters.
abbrev tools : TextTools
tools = record {
  splitlines = λ t. t ∷ [];
  strip_text = λ t. t;
  split_arrow = split_arrow;
  strptime = strptime;
}
  where
    split_arrow : Text → Option (Text × Text)
    split_arrow [] = none
    split_arrow (a ∷ t) = some (a ∷ [], t)

    strptime : Text → Option ℕ
    strptime [] = none
    strptime (c ∷ t) = some c

parse_equipment_ranges_text_lem_example :
    IsSchedule (parse_equipment_ranges_text tools (3 ∷ 5 ∷ []))
parse_equipment_ranges_text_lem_example = parse_equipment_ranges_text_lem tools (3 ∷ 5 ∷ [])

abbrev format : ℕ → Text
format t = t ∷ []

abbrev fields : EquipmentFields
fields = record {
  requester_tg_user_id = 100;
  requester_username = none;
  full_name = 65 ∷ [];
  club_name = 66 ∷ [];
  event_name = 67 ∷ [];
  venue = 68 ∷ [];
  equipment_text = 69 ∷ [];
  reason_text = 70 ∷ [];
  comments = none;
}

abbrev created_request : EquipmentRequest
created_request = create_equipment_request format ten_oclock 1 fields (morning ∷ [])

abbrev approved_request : EquipmentRequest
approved_request = record created_request {
  status = approved;
  admin_tg_user_id = some 7;
  decided_at = some ten_oclock;
}

approves : approve_equipment_request ten_oclock 7 created_request ≡ ok approved_request
unfolding create_equipment_request approve_equipment_request ensure_decidable
approves = refl

until_approval : Run created_request approved_request
until_approval = then_step no_step (approval ten_oclock 7 created_request approved_request approves)

abbrev announced_request : EquipmentRequest
announced_request = record_equipment_request_dm_result true none approved_request

announcement : Run approved_request announced_request
announcement = then_step no_step (dm_recorded true none approved_request)

decision_is_final_example :
    IsWellDecided approved_request
    × (is_decided approved_request.status ≡ true
        → (decision announced_request ≡ decision approved_request)
          × ((now who : ℕ)
              → (approve_equipment_request now who announced_request ≡ raised value_error)
                × (decline_equipment_request now who announced_request ≡ raised value_error)))
decision_is_final_example =
    decision_is_final format ten_oclock 1 fields (morning ∷ []) approved_request announced_request
      until_approval announcement
