-- ===== src/Clubs/Slots.antt =====
-- The operations of app/services/club_service.py on recurring slots: assigning one to a club,
-- naming one, and deleting one.
pub mod Laws
use music_room_bot.Prelude.{ℕ, ◌+◌, Bool, Option, none, some, ◌∷◌, ◌==◌, Text}
use music_room_bot.Db.{WeeklySlot, Club, Db, at_weekly_slot, has_weekly_slot_id}
use music_room_bot.Prelude.Rows.{select, update_rows, delete_rows}
use music_room_bot.Session.{Exec, pure, query, scalar_one_or_none, modify, commit, ◌>>=◌, ◌>>◌}
use music_room_bot.Time.{weekday}

pub data AssignStatus : Type 0 where
  club_not_found slot_assigned : AssignStatus

pub data DeleteStatus : Type 0 where
  weekly_slot_not_found slot_deleted : DeleteStatus

abbrev pub has_club_id : ℕ → Club → Bool
has_club_id i c = c.id == i

-- `db.add(WeeklySlot(…))`
abbrev pub with_weekly_slot : ℕ → ℕ → Text → Option ℕ → Db → Db
with_weekly_slot day hour group_name club_id db = record db {
  weekly_slots =
      record {
        id = db.next_weekly_slot_id;
        weekday = day;
        hour = hour;
        group_name = group_name;
        club_id = club_id;
      }
      ∷ db.weekly_slots;
  next_weekly_slot_id = db.next_weekly_slot_id + 1;
}

abbrev pub update_weekly_slots : (WeeklySlot → Bool) → (WeeklySlot → WeeklySlot) → Db → Db
update_weekly_slots p f db = record db { weekly_slots = update_rows p f db.weekly_slots }

abbrev pub give_to_club : Club → WeeklySlot → WeeklySlot
give_to_club club w = record w { club_id = some club.id; group_name = club.name }

abbrev pub rename_group : Text → WeeklySlot → WeeklySlot
rename_group group_name w = record w { group_name = group_name }

-- The write of an assignment, to a new slot or to the one found.
unfoldable pub write_assignment : Club → ℕ → ℕ → Option WeeklySlot → Exec (Unit {0})
write_assignment club day hour none = modify (with_weekly_slot day hour club.name (some club.id))
write_assignment club day hour (some slot) =
    modify (update_weekly_slots (has_weekly_slot_id slot.id) (give_to_club club))

-- `db.refresh(slot)`: the slot is read again, by its hour, which is unique.
unfoldable pub assign_to : ℕ → ℕ → Option Club → Exec (AssignStatus × Option WeeklySlot)
assign_to day hour none = pure (club_not_found, none)
assign_to day hour (some club) = do
  rows ← query λ db. select (at_weekly_slot day hour) db.weekly_slots
  slot ← scalar_one_or_none rows
  write_assignment club day hour slot
  commit
  fresh ← query λ db. select (at_weekly_slot day hour) db.weekly_slots
  written ← scalar_one_or_none fresh
  pure (slot_assigned, written)

unfoldable pub assign_weekly_slot_to_club : ℕ → ℕ → ℕ → Exec (AssignStatus × Option WeeklySlot)
assign_weekly_slot_to_club club_id day hour = do
  rows ← query λ db. select (has_club_id club_id) db.clubs
  club ← scalar_one_or_none rows
  assign_to day hour club

unfoldable pub write_name : Text → ℕ → ℕ → Option WeeklySlot → Exec (Unit {0})
write_name group_name day hour none = modify (with_weekly_slot day hour group_name none)
write_name group_name day hour (some slot) =
    modify (update_weekly_slots (has_weekly_slot_id slot.id) (rename_group group_name))

unfoldable pub set_admin_weekly_slot : ℕ → ℕ → Text → Exec (Option WeeklySlot)
set_admin_weekly_slot day hour group_name = do
  rows ← query λ db. select (at_weekly_slot day hour) db.weekly_slots
  slot ← scalar_one_or_none rows
  write_name group_name day hour slot
  commit
  fresh ← query λ db. select (at_weekly_slot day hour) db.weekly_slots
  scalar_one_or_none fresh

-- `db.delete`; the foreign key of cancellations cascades.
abbrev pub without_weekly_slot : ℕ → Db → Db
without_weekly_slot i db = record db {
  weekly_slots = delete_rows (has_weekly_slot_id i) db.weekly_slots;
  cancellations = delete_rows (λ c. c.weekly_slot_id == i) db.cancellations;
}

-- `slot.weekday is None` is false, since the column is NOT NULL.
unfoldable pub delete_slot : Option WeeklySlot → Exec (DeleteStatus × Option WeeklySlot)
delete_slot none = pure (weekly_slot_not_found, none)
delete_slot (some slot) = do
  modify (without_weekly_slot slot.id)
  commit
  pure (slot_deleted, some slot)

unfoldable pub delete_admin_weekly_slot : ℕ → Exec (DeleteStatus × Option WeeklySlot)
delete_admin_weekly_slot weekly_slot_id = do
  rows ← query λ db. select (has_weekly_slot_id weekly_slot_id) db.weekly_slots
  slot ← scalar_one_or_none rows
  delete_slot slot
