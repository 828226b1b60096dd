-- ===== src/Equipment/Decisions.antt =====
-- The operations of app/services/equipment_request_service.py as steps, and runs of them.
use music_room_bot.Prelude.{
  ℕ, ◌≡◌, refl, ◌∙◌, Bool, true, false, Option, some, List, arith, is_some, ℤ, Text,
}
use music_room_bot.Db.{declined}
use music_room_bot.Equipment.{
  EquipmentStatus, approved, declined, EquipmentRequest, EquipmentFields, FieldUpdate, is_decided,
  ensure_decidable, create_equipment_request, record_equipment_request_review_message,
  update_equipment_request_field, replace_equipment_request_ranges,
  record_equipment_request_dm_result, record_equipment_request_topic_post_result,
  approve_equipment_request, decline_equipment_request,
}
use music_room_bot.Equipment.Ranges.{EquipmentRange}
use music_room_bot.Session.{value_error, ok, raised}

-- One call of the service that does not raise. The clock and the format are those of the call.
pub data Step : EquipmentRequest → EquipmentRequest → Type 0 where
  review_recorded :
      (chat_id : ℤ) (message_id : ℕ) (r : EquipmentRequest)
      → Step r (record_equipment_request_review_message chat_id message_id r)
  field_updated :
      (u : FieldUpdate) (r t : EquipmentRequest)
      → update_equipment_request_field u r ≡ ok t
      → Step r t
  ranges_replaced :
      (format : ℕ → Text) (ranges : List EquipmentRange) (r : EquipmentRequest)
      → Step r (replace_equipment_request_ranges format ranges r)
  dm_recorded :
      (is_sent : Bool) (error : Option Text) (r : EquipmentRequest)
      → Step r (record_equipment_request_dm_result is_sent error r)
  post_recorded :
      (is_sent : Bool) (error : Option Text) (chat_id : Option ℤ) (message_id : Option ℕ)
      (r : EquipmentRequest)
      → Step r (record_equipment_request_topic_post_result is_sent error chat_id message_id r)
  approval :
      (now admin : ℕ) (r t : EquipmentRequest)
      → approve_equipment_request now admin r ≡ ok t
      → Step r t
  refusal :
      (now admin : ℕ) (r t : EquipmentRequest)
      → decline_equipment_request now admin r ≡ ok t
      → Step r t

pub data Run (r : EquipmentRequest) : EquipmentRequest → Type 0 where
  no_step : Run r r
  then_step : {s t : EquipmentRequest} → Run r s → Step s t → Run r t

-- The columns of a decision.
abbrev pub decision : EquipmentRequest → EquipmentStatus × (Option ℕ × Option ℕ)
decision r = (r.status, (r.admin_tg_user_id, r.decided_at))

-- A request whose decision columns belong together.
abbrev pub IsWellDecided : EquipmentRequest → Type 0
IsWellDecided r =
    (is_some r.decided_at ≡ is_decided r.status)
    × (is_some r.admin_tg_user_id ≡ is_decided r.status)

update_equipment_request_field_lem :
    (u : FieldUpdate) (r t : EquipmentRequest)
    → update_equipment_request_field u r ≡ ok t
    → (t.status ≡ r.status)
      × (t.admin_tg_user_id ≡ r.admin_tg_user_id)
      × (t.decided_at ≡ r.decided_at)
unfolding update_equipment_request_field
update_equipment_request_field_lem u r t e = ground arith

-- A second decision is refused.
decided_refuses :
    (now admin : ℕ) (r : EquipmentRequest)
    → is_decided r.status ≡ true
    → (approve_equipment_request now admin r ≡ raised value_error)
      × (decline_equipment_request now admin r ≡ raised value_error)
unfolding approve_equipment_request decline_equipment_request ensure_decidable
decided_refuses now admin r d = ground arith

approve_equipment_request_lem :
    (now admin : ℕ) (r t : EquipmentRequest)
    → approve_equipment_request now admin r ≡ ok t
    → (is_decided r.status ≡ false) × (decision t ≡ (approved, (some admin, some now)))
unfolding approve_equipment_request ensure_decidable
approve_equipment_request_lem now admin r t e = ground arith

decline_equipment_request_lem :
    (now admin : ℕ) (r t : EquipmentRequest)
    → decline_equipment_request now admin r ≡ ok t
    → (is_decided r.status ≡ false) × (decision t ≡ (declined, (some admin, some now)))
unfolding decline_equipment_request ensure_decidable
decline_equipment_request_lem now admin r t e = ground arith

step_lem :
    {r t : EquipmentRequest}
    → Step r t
    → IsWellDecided r
    → IsWellDecided t × (is_decided r.status ≡ true → decision t ≡ decision r)
unfolding record_equipment_request_review_message replace_equipment_request_ranges
    record_equipment_request_dm_result record_equipment_request_topic_post_result
step_lem (review_recorded chat_id message_id r) v = (v, λ d. refl)
step_lem (field_updated u r t e) v = (
  ground (arith, update_equipment_request_field_lem u r t e),
  λ d. ground (arith, update_equipment_request_field_lem u r t e),
)
step_lem (ranges_replaced format ranges r) v = (v, λ d. refl)
step_lem (dm_recorded is_sent error r) v = (v, λ d. refl)
step_lem (post_recorded true error chat_id message_id r) v = (v, λ d. refl)
step_lem (post_recorded false error chat_id message_id r) v = (v, λ d. refl)
step_lem (approval now admin r t e) v = (
  ground (arith, approve_equipment_request_lem now admin r t e),
  λ d. ground (arith, approve_equipment_request_lem now admin r t e),
)
step_lem (refusal now admin r t e) v = (
  ground (arith, decline_equipment_request_lem now admin r t e),
  λ d. ground (arith, decline_equipment_request_lem now admin r t e),
)

run_lem :
    {r t : EquipmentRequest}
    → Run r t
    → IsWellDecided r
    → IsWellDecided t × (is_decided r.status ≡ true → decision t ≡ decision r)
run_lem no_step v = (v, λ d. refl)
run_lem {r} {t} (then_step {s} run step) v =
    let (w, keeps) = run_lem run v in
    let (x, again) = step_lem step w in (x, λ d. again (ground (arith, keeps d)) ∙ keeps d)

create_equipment_request-IsWellDecided :
    (format : ℕ → Text) (now new_id : ℕ) (fields : EquipmentFields) (ranges : List EquipmentRange)
    → IsWellDecided (create_equipment_request format now new_id fields ranges)
unfolding create_equipment_request
create_equipment_request-IsWellDecided format now new_id fields ranges = (refl, refl)

-- Whatever calls follow the creation of a request: it has an administrator and a time of decision
-- exactly if it is approved or declined, and then further calls keep these and its status, and
-- approving or declining it raises a ValueError.
pub decision_is_final :
    (format : ℕ → Text) (created_at new_id : ℕ) (fields : EquipmentFields)
    (ranges : List EquipmentRange) (r t : EquipmentRequest)
    → Run (create_equipment_request format created_at new_id fields ranges) r
    → Run r t
    → IsWellDecided r
      × (is_decided r.status ≡ true
          → (decision t ≡ decision r)
            × ((now admin : ℕ)
                → (approve_equipment_request now admin t ≡ raised value_error)
                  × (decline_equipment_request now admin t ≡ raised value_error)))
decision_is_final format created_at new_id fields ranges r t before after =
    let (well, _) =
      run_lem before
        (create_equipment_request-IsWellDecided format created_at new_id fields ranges) in
    let (_, keeps) = run_lem after well in
    (well, λ d. (keeps d, λ now admin. decided_refuses now admin t (ground (arith, keeps d))))
