-- ===== src/Tests/Throttles.antt =====
-- The theorem on the cooldown, for two users and a cooldown of five ticks.
use music_room_bot.Prelude.{◌≡◌, refl, true, [], ◌∷◌, arith}
use music_room_bot.Throttle.{allow_booking_start}
use music_room_bot.Throttle.Cooldown.{times_allowed, AllBefore, allow_booking_start_lem}

before_fifteen : AllBefore 15 ((1, 12) ∷ (2, 12) ∷ (1, 14) ∷ [])
before_fifteen = (omega arith, (omega arith, (omega arith, tt)))

let_in : (allow_booking_start 5 10 1 []).0 ≡ true
unfolding allow_booking_start
let_in = refl

allow_booking_start_lem_example :
    times_allowed 5 1 ((1, 12) ∷ (2, 12) ∷ (1, 14) ∷ []) (allow_booking_start 5 10 1 []).1 ≡ 0
allow_booking_start_lem_example =
    allow_booking_start_lem 5 1 10 [] ((1, 12) ∷ (2, 12) ∷ (1, 14) ∷ []) (omega arith) let_in
      before_fifteen
