-- ===== src/Clubs/Slots/Laws.antt =====
-- `assign_weekly_slot_to_club` of app/services/club_service.py.
use music_room_bot.Prelude.{
  ℕ, ◌≡◌, refl, inl, inr, Bool, ◌&&◌, Option, some, List, [], ◌∷◌, arith, ◌==◌, ==→eq, Text,
}
use music_room_bot.Clubs.Slots.{
  AssignStatus, slot_assigned, slot_deleted, has_club_id, with_weekly_slot, update_weekly_slots,
  give_to_club, write_assignment, assign_to, assign_weekly_slot_to_club, without_weekly_slot,
  delete_slot, delete_admin_weekly_slot,
}
use music_room_bot.Db.{
  WeeklySlot, Club, ClubSlotCancellation, Db, at_weekly_slot, has_weekly_slot_id,
  is_cancellation_of,
}
use music_room_bot.Db.Invariant.{IsKeyed, IsWeeklyTable}
use music_room_bot.Prelude.Keys.{count_rows-delete_rows_self}
use music_room_bot.Prelude.Rows.{
  select, count_rows, update_rows, delete_rows, count_rows-update_rows, count_rows-delete_rows-le,
  count_rows-delete_rows, count_rows_le, select_nil, select_cons, selected_pos, select-update_other,
}
use music_room_bot.Session.{Outcome, ok, Session, fresh_session}
use music_room_bot.Session.Laws.{scalar_cases}

-- The slot that an assignment leaves: the one of the hour, with the club, or a new one.
abbrev pub assigned : Club → ℕ → ℕ → Db → List WeeklySlot → WeeklySlot
assigned club day hour db [] = record {
  id = db.next_weekly_slot_id;
  weekday = day;
  hour = hour;
  group_name = club.name;
  club_id = some club.id;
}
assigned club day hour db (w ∷ _) = give_to_club club w

-- A slot for an hour that has none, and an update that leaves keys and hours alone.
with_weekly_slot-IsWeeklyTable :
    (day hour : ℕ) (group_name : Text) (club_id : Option ℕ) (db : Db)
    → IsWeeklyTable db.weekly_slots db.cancellations
    → IsKeyed has_weekly_slot_id db.next_weekly_slot_id db.weekly_slots
    → count_rows (at_weekly_slot day hour) db.weekly_slots ≡ 0
    → let t = with_weekly_slot day hour group_name club_id db in
      IsWeeklyTable t.weekly_slots t.cancellations
unfolding count_rows
with_weekly_slot-IsWeeklyTable day hour group_name club_id db v k free = record {
  weekly_unique = λ w h. ground (arith, v.weekly_unique w h);
  weekly_key = λ i. ground (arith, v.weekly_key i, k.fresh i);
  cancellation_unique = λ i d. v.cancellation_unique i d;
}

update_weekly_slots-IsWeeklyTable :
    (q : WeeklySlot → Bool) (club : Club) (db : Db)
    → IsWeeklyTable db.weekly_slots db.cancellations
    → let t = update_weekly_slots q (give_to_club club) db in
      IsWeeklyTable t.weekly_slots t.cancellations
update_weekly_slots-IsWeeklyTable q club db v = record {
  weekly_unique = λ w h. omega (
    arith,
    v.weekly_unique w h,
    count_rows-update_rows (at_weekly_slot w h) q (give_to_club club) db.weekly_slots (λ x. refl),
  );
  weekly_key = λ i. omega (
    arith,
    v.weekly_key i,
    count_rows-update_rows (has_weekly_slot_id i) q (give_to_club club) db.weekly_slots (λ x. refl),
  );
  cancellation_unique = λ i d. v.cancellation_unique i d;
}

module _ (club_id day hour : ℕ) (db : Db) (club : Club)
    (known : select (has_club_id club_id) db.clubs ≡ club ∷ [])
    (v : IsWeeklyTable db.weekly_slots db.cancellations)
    (k : IsKeyed has_weekly_slot_id db.next_weekly_slot_id db.weekly_slots) where
  abbrev outcome : Outcome (AssignStatus × Option WeeklySlot) × Session
  outcome = assign_weekly_slot_to_club club_id day hour (fresh_session db)

  assign_new :
      select (at_weekly_slot day hour) db.weekly_slots ≡ []
      → let t = with_weekly_slot day hour club.name (some club.id) db in
        let w = assigned club day hour db [] in
        (select (at_weekly_slot day hour) t.weekly_slots ≡ w ∷ [])
        × (outcome.0 ≡ ok (slot_assigned, some w))
        × (outcome.1.committed ≡ t)
  unfolding assign_weekly_slot_to_club assign_to write_assignment select
  assign_new e = ground arith

  select_given :
      (w : WeeklySlot)
      → select (at_weekly_slot day hour) db.weekly_slots ≡ w ∷ []
      → select
          (at_weekly_slot day hour)
          (update_rows (has_weekly_slot_id w.id) (give_to_club club) db.weekly_slots)
        ≡ give_to_club club w ∷ []
  select_given w e = ground (
    arith,
    e,
    select-update_other (at_weekly_slot day hour) (has_weekly_slot_id w.id) (give_to_club club)
        db.weekly_slots (λ x. refl),
  )

  assign_found :
      (w : WeeklySlot)
      → select (at_weekly_slot day hour) db.weekly_slots ≡ w ∷ []
      → (outcome.0 ≡ ok (slot_assigned, some (give_to_club club w)))
        × (outcome.1.committed
            ≡ update_weekly_slots (has_weekly_slot_id w.id) (give_to_club club) db)
  unfolding assign_weekly_slot_to_club assign_to write_assignment
  assign_found w e = ground (arith, select_given w e)

  -- For a known club, with recurring slots unique and their keys below the sequence, an assignment
  -- succeeds and returns the slot of the hour, now the club's; it is the only one of the hour, and
  -- recurring slots and cancellations stay unique.
  pub assign_weekly_slot_to_club_lem :
      let w = assigned club day hour db (select (at_weekly_slot day hour) db.weekly_slots) in
      let (r, s) = outcome in
      (r ≡ ok (slot_assigned, some w))
      × (select (at_weekly_slot day hour) s.committed.weekly_slots ≡ w ∷ [])
      × IsWeeklyTable s.committed.weekly_slots s.committed.cancellations
  assign_weekly_slot_to_club_lem =
      elim (scalar_cases (at_weekly_slot day hour) db.weekly_slots (v.weekly_unique day hour)) [
        | inl none_yet ↦
            let (chosen, result, kept) = assign_new none_yet in
            rw (none_yet, result, kept)
              (
                refl,
                chosen,
                with_weekly_slot-IsWeeklyTable day hour club.name (some club.id) db v k
                    (select_nil (at_weekly_slot day hour) db.weekly_slots none_yet),
              )
        | inr (w, ew, at) ↦
            let (result, kept) = assign_found w ew in
            rw (ew, result, kept)
              (
                refl,
                select_given w ew,
                update_weekly_slots-IsWeeklyTable (has_weekly_slot_id w.id) club db v,
              )
      ]

module _ (weekly_slot_id : ℕ) (db : Db) (slot : WeeklySlot)
    (v : IsWeeklyTable db.weekly_slots db.cancellations)
    (found : select (has_weekly_slot_id weekly_slot_id) db.weekly_slots ≡ slot ∷ []) where
  without_weekly_slot-IsWeeklyTable :
      let t = without_weekly_slot weekly_slot_id db in IsWeeklyTable t.weekly_slots t.cancellations
  without_weekly_slot-IsWeeklyTable =
      let q = has_weekly_slot_id weekly_slot_id in
      let gone : ClubSlotCancellation → Bool = λ c. c.weekly_slot_id == weekly_slot_id in
      record {
        weekly_unique = λ w h. omega (
          arith,
          v.weekly_unique w h,
          count_rows-delete_rows-le (at_weekly_slot w h) q db.weekly_slots,
        );
        weekly_key = λ i. omega (
          arith,
          v.weekly_key i,
          count_rows-delete_rows-le (has_weekly_slot_id i) q db.weekly_slots,
        );
        cancellation_unique = λ i d. omega (
          arith,
          v.cancellation_unique i d,
          count_rows-delete_rows-le (is_cancellation_of i d) gone db.cancellations,
        );
      }

  deleted_db :
      let (r, s) = delete_admin_weekly_slot weekly_slot_id (fresh_session db) in
      (r ≡ ok (slot_deleted, some slot)) × (s.committed ≡ without_weekly_slot weekly_slot_id db)
  unfolding delete_admin_weekly_slot delete_slot
  deleted_db =
      let e = select_cons (has_weekly_slot_id weekly_slot_id) db.weekly_slots slot [] found in
      rw (found, ==→eq slot.id weekly_slot_id e) (refl, refl)

  -- For a known recurring slot, with recurring slots and cancellations unique, a deletion returns
  -- the slot; no slot of its hour and no cancellation of it is left, and the rest stays unique.
  pub delete_admin_weekly_slot_lem :
      let (r, s) = delete_admin_weekly_slot weekly_slot_id (fresh_session db) in
      (r ≡ ok (slot_deleted, some slot))
      × (count_rows (at_weekly_slot slot.weekday slot.hour) s.committed.weekly_slots ≡ 0)
      × ((d : ℕ) → count_rows (is_cancellation_of weekly_slot_id d) s.committed.cancellations ≡ 0)
      × IsWeeklyTable s.committed.weekly_slots s.committed.cancellations
  delete_admin_weekly_slot_lem =
      let (result, kept) = deleted_db in
      rw (result, kept) (refl, hour_is_free, no_cancellation, without_weekly_slot-IsWeeklyTable)
    where
      hour_is_free :
          count_rows
            (at_weekly_slot slot.weekday slot.hour)
            (delete_rows (has_weekly_slot_id weekly_slot_id) db.weekly_slots)
          ≡ 0
      hour_is_free =
          let p = at_weekly_slot slot.weekday slot.hour in
          let q = has_weekly_slot_id weekly_slot_id in
          let e = select_cons q db.weekly_slots slot [] found in
          omega (
            arith,
            v.weekly_unique slot.weekday slot.hour,
            count_rows-delete_rows p q db.weekly_slots,
            selected_pos (λ x. p x && q x) q db.weekly_slots slot [] found (ground (arith, e)),
          )

      no_cancellation :
          (d : ℕ)
          → count_rows
              (is_cancellation_of weekly_slot_id d)
              (delete_rows (λ c. c.weekly_slot_id == weekly_slot_id) db.cancellations)
            ≡ 0
      no_cancellation d = omega (
        arith,
        count_rows_le (is_cancellation_of weekly_slot_id d)
            (λ (c : ClubSlotCancellation). c.weekly_slot_id == weekly_slot_id)
            (delete_rows (λ c. c.weekly_slot_id == weekly_slot_id) db.cancellations)
            (λ x e. ground arith),
        count_rows-delete_rows_self
            (λ (c : ClubSlotCancellation). c.weekly_slot_id == weekly_slot_id) db.cancellations,
      )
