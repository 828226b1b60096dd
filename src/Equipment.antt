-- ===== src/Equipment.antt =====
-- app/models/equipment_request.py, equipment_request_range.py and the operations of
-- app/services/equipment_request_service.py on one request. An operation takes the object and gives
-- the object that its commit and refresh leave, or the exception that it raises; the ranges are in
-- the order of `sort_order`. The review, status and detail texts are left out.
pub mod Ranges
pub mod Decisions
use music_room_bot.Prelude.{
  ℕ, Bool, true, false, Option, none, some, List, [], ◌∷◌, ◌++◌, if◌then◌else◌, ℤ, Text,
}
use music_room_bot.Equipment.Ranges.{EquipmentRange}
use music_room_bot.Session.{value_error, attribute_error, Outcome, ok, raised}

-- The three values of the column `status` that the code writes.
pub data EquipmentStatus : Type 0 where
  submitted approved declined : EquipmentStatus

pub record EquipmentRequest : Type 0 where
  pub id : ℕ
  pub requester_tg_user_id : ℕ
  pub requester_username : Option Text
  pub full_name : Text
  pub club_name : Text
  pub event_name : Text
  pub venue : Text
  pub equipment_text : Text
  pub needed_at_text : Text
  pub reason_text : Text
  pub comments : Option Text
  pub status : EquipmentStatus
  pub admin_tg_user_id : Option ℕ
  pub submitted_at : ℕ
  pub decided_at : Option ℕ
  pub review_chat_id : Option ℤ
  pub review_message_id : Option ℕ
  pub equipment_post_chat_id : Option ℤ
  pub equipment_post_message_id : Option ℕ
  pub requester_dm_sent : Bool
  pub equipment_post_sent : Bool
  pub requester_dm_error : Option Text
  pub equipment_post_error : Option Text
  pub ranges : List EquipmentRange

-- The keyword arguments that a caller gives `create_equipment_request`.
pub record EquipmentFields : Type 0 where
  pub requester_tg_user_id : ℕ
  pub requester_username : Option Text
  pub full_name : Text
  pub club_name : Text
  pub event_name : Text
  pub venue : Text
  pub equipment_text : Text
  pub reason_text : Text
  pub comments : Option Text

-- An assignment to a named field, whose value has the column's type; any other name is unlisted.
pub data FieldUpdate : Type 0 where
  set_requester_username : Option Text → FieldUpdate
  set_full_name : Text → FieldUpdate
  set_club_name : Text → FieldUpdate
  set_event_name : Text → FieldUpdate
  set_venue : Text → FieldUpdate
  set_equipment_text : Text → FieldUpdate
  set_needed_at_text : Text → FieldUpdate
  set_reason_text : Text → FieldUpdate
  set_comments : Option Text → FieldUpdate
  set_equipment_post_chat_id : Option ℤ → FieldUpdate
  set_equipment_post_message_id : Option ℕ → FieldUpdate
  set_unlisted : FieldUpdate

-- `summarize_equipment_ranges`, for a given `strftime` of the one format.
abbrev format_equipment_range : (ℕ → Text) → EquipmentRange → Text
format_equipment_range format x = format x.start_at ++ (32 ∷ 45 ∷ 62 ∷ 32 ∷ format x.end_at)

abbrev join_ranges : (ℕ → Text) → List EquipmentRange → Text
join_ranges format [] = []
join_ranges format (x ∷ []) = 45 ∷ 32 ∷ format_equipment_range format x
join_ranges format (x ∷ y ∷ r) =
    45 ∷ 32 ∷ format_equipment_range format x ++ (10 ∷ join_ranges format (y ∷ r))

unfoldable pub summarize_equipment_ranges : (ℕ → Text) → List EquipmentRange → Text
summarize_equipment_ranges format [] = 45 ∷ []
summarize_equipment_ranges format (x ∷ xs) = join_ranges format (x ∷ xs)

-- `request.status in {"approved", "declined"}`
abbrev pub is_decided : EquipmentStatus → Bool
is_decided submitted = false
is_decided approved = true
is_decided declined = true

unfoldable pub ensure_decidable : EquipmentRequest → Outcome (Unit {0})
ensure_decidable request = if is_decided request.status then raised value_error else ok tt

unfoldable pub create_equipment_request :
    (ℕ → Text) → ℕ → ℕ → EquipmentFields → List EquipmentRange → EquipmentRequest
create_equipment_request format now new_id fields ranges = record {
  id = new_id;
  requester_tg_user_id = fields.requester_tg_user_id;
  requester_username = fields.requester_username;
  full_name = fields.full_name;
  club_name = fields.club_name;
  event_name = fields.event_name;
  venue = fields.venue;
  equipment_text = fields.equipment_text;
  needed_at_text = summarize_equipment_ranges format ranges;
  reason_text = fields.reason_text;
  comments = fields.comments;
  status = submitted;
  admin_tg_user_id = none;
  submitted_at = now;
  decided_at = none;
  review_chat_id = none;
  review_message_id = none;
  equipment_post_chat_id = none;
  equipment_post_message_id = none;
  requester_dm_sent = false;
  equipment_post_sent = false;
  requester_dm_error = none;
  equipment_post_error = none;
  ranges = ranges;
}

unfoldable pub record_equipment_request_review_message : ℤ → ℕ → EquipmentRequest → EquipmentRequest
record_equipment_request_review_message chat_id message_id request = record request {
  review_chat_id = some chat_id;
  review_message_id = some message_id;
}

-- `setattr` after the test of the name.
unfoldable pub update_equipment_request_field :
    FieldUpdate → EquipmentRequest → Outcome EquipmentRequest
update_equipment_request_field (set_requester_username v) r =
    ok (record r { requester_username = v })
update_equipment_request_field (set_full_name v) r = ok (record r { full_name = v })
update_equipment_request_field (set_club_name v) r = ok (record r { club_name = v })
update_equipment_request_field (set_event_name v) r = ok (record r { event_name = v })
update_equipment_request_field (set_venue v) r = ok (record r { venue = v })
update_equipment_request_field (set_equipment_text v) r = ok (record r { equipment_text = v })
update_equipment_request_field (set_needed_at_text v) r = ok (record r { needed_at_text = v })
update_equipment_request_field (set_reason_text v) r = ok (record r { reason_text = v })
update_equipment_request_field (set_comments v) r = ok (record r { comments = v })
update_equipment_request_field (set_equipment_post_chat_id v) r =
    ok (record r { equipment_post_chat_id = v })
update_equipment_request_field (set_equipment_post_message_id v) r =
    ok (record r { equipment_post_message_id = v })
update_equipment_request_field set_unlisted r = raised attribute_error

unfoldable pub replace_equipment_request_ranges :
    (ℕ → Text) → List EquipmentRange → EquipmentRequest → EquipmentRequest
replace_equipment_request_ranges format ranges request = record request {
  ranges = ranges;
  needed_at_text = summarize_equipment_ranges format ranges;
}

unfoldable pub record_equipment_request_dm_result :
    Bool → Option Text → EquipmentRequest → EquipmentRequest
record_equipment_request_dm_result is_sent error request = record request {
  requester_dm_sent = is_sent;
  requester_dm_error = error;
}

unfoldable pub record_equipment_request_topic_post_result :
    Bool → Option Text → Option ℤ → Option ℕ → EquipmentRequest → EquipmentRequest
record_equipment_request_topic_post_result is_sent error chat_id message_id request =
    let r = record request { equipment_post_sent = is_sent; equipment_post_error = error } in
    if is_sent
    then record r { equipment_post_chat_id = chat_id; equipment_post_message_id = message_id }
    else r

-- The columns of a decision, and the guard in front of it.
abbrev decide : EquipmentStatus → ℕ → ℕ → EquipmentRequest → EquipmentRequest
decide status now admin_tg_user_id request = record request {
  status = status;
  admin_tg_user_id = some admin_tg_user_id;
  decided_at = some now;
}

abbrev after_guard : Outcome (Unit {0}) → EquipmentRequest → Outcome EquipmentRequest
after_guard (ok u) request = ok request
after_guard (raised e) request = raised e

unfoldable pub approve_equipment_request : ℕ → ℕ → EquipmentRequest → Outcome EquipmentRequest
approve_equipment_request now admin_tg_user_id request =
    after_guard (ensure_decidable request) (decide approved now admin_tg_user_id request)

unfoldable pub decline_equipment_request : ℕ → ℕ → EquipmentRequest → Outcome EquipmentRequest
decline_equipment_request now admin_tg_user_id request =
    after_guard (ensure_decidable request) (decide declined now admin_tg_user_id request)
