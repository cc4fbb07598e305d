-- ===== src/App/AutoBlink.antt =====
-- crates/app/src/auto_blink.rs: the blinks that come without tracking. An instant is a number of
-- nanoseconds, and the clock's readings are arguments. The arithmetic of f32 is a parameter.
pub mod Phases
mod Tests
use kalidokit_rust.Base.{
  ℕ, ◌+◌, ◌-◌, ◌*◌, ◌/◌, ◌%◌, ◌^◌, Bool, true, false, Option, none, some, List, [], ◌∷◌, leb, ◌==◌,
  if◌then◌else◌,
}
use kalidokit_rust.Base.Bits.{bit_xor}

pub data BlinkPhase : Type 0 where
  idle : BlinkPhase
  closing : BlinkPhase
  closed : BlinkPhase
  opening : BlinkPhase

-- What `update` computes in f32: zero and one; how much of the closing and of the opening an elapsed
-- time is, at most one; whether it is one; the values that these give; whether the eyes have been
-- held shut for long enough; and the time from a blink to the next, from a random number.
pub record Floats (F : Type 0) : Type 0 where
  pub zero_value : F
  pub one_value : F
  pub close_part : ℕ → F
  pub open_part : ℕ → F
  pub at_least_one : F → Bool
  pub ease_in : F → F
  pub ease_out : F → F
  pub held : ℕ → Bool
  pub interval : ℕ → ℕ

pub record AutoBlink (F : Type 0) : Type 0 where
  pub value : F
  pub state : ℕ
  pub next_blink_time : ℕ
  pub phase : BlinkPhase
  pub phase_start : ℕ

-- The numbers after each of the three steps.
unfoldable pub xorshift32 : {F : Type 0} → AutoBlink F → AutoBlink F × ℕ
xorshift32 self =
    let x = bit_xor 32 self.state (self.state * 2 ^ 13 % 2 ^ 32) in
    let y = bit_xor 32 x (x / 2 ^ 17) in
    let z = bit_xor 32 y (y * 2 ^ 5 % 2 ^ 32) in (record self { state = z }, z)

module _ {F : Type 0} (floats : Floats F) where
  unfoldable pub schedule_next_blink : AutoBlink F → ℕ → AutoBlink F
  unfolding xorshift32
  schedule_next_blink self now =
      let (self', rand) = xorshift32 self in
      record self' { next_blink_time = now + floats.interval rand }

  -- The nanoseconds of the system's time, when it is after 1970.
  unfoldable pub seed_of : Option ℕ → ℕ
  seed_of none = 12345
  seed_of (some nanos) = if nanos == 0 then 1 else nanos

  -- `now` is the reading for `phase_start`, the other two are before and after it.
  unfoldable pub new : Option ℕ → ℕ → ℕ → ℕ → AutoBlink F
  unfolding schedule_next_blink seed_of
  new subsec_nanos before now after =
      schedule_next_blink
        (record {
          value = floats.zero_value;
          state = seed_of subsec_nanos;
          next_blink_time = before;
          phase = idle;
          phase_start = now;
        })
        after

  unfoldable pub update_idle : AutoBlink F → ℕ → AutoBlink F
  update_idle self now =
      let self' = record self { value = floats.zero_value } in
      if leb self.next_blink_time now
      then (record self' { phase = closing; phase_start = now })
      else self'

  unfoldable pub update_closing : AutoBlink F → ℕ → AutoBlink F
  update_closing self now =
      let t = floats.close_part (now - self.phase_start) in
      if floats.at_least_one t
      then (record self { value = floats.one_value; phase = closed; phase_start = now })
      else (record self { value = floats.ease_in t })

  unfoldable pub update_closed : AutoBlink F → ℕ → AutoBlink F
  update_closed self now =
      let self' = record self { value = floats.one_value } in
      if floats.held (now - self.phase_start)
      then (record self' { phase = opening; phase_start = now })
      else self'

  -- `later` is the reading of the clock for the next blink.
  unfoldable pub update_opening : AutoBlink F → ℕ → ℕ → AutoBlink F
  unfolding schedule_next_blink
  update_opening self now later =
      let t = floats.open_part (now - self.phase_start) in
      if floats.at_least_one t
      then schedule_next_blink (record self { value = floats.zero_value; phase = idle }) later
      else (record self { value = floats.ease_out t })

  abbrev pub update_in : BlinkPhase → AutoBlink F → ℕ → ℕ → AutoBlink F
  update_in idle self now later = update_idle self now
  update_in closing self now later = update_closing self now
  update_in closed self now later = update_closed self now
  update_in opening self now later = update_opening self now later

  unfoldable pub update : AutoBlink F → ℕ → ℕ → AutoBlink F
  unfolding update_idle update_closing update_closed update_opening
  update self now later = update_in self.phase self now later

  -- The updates of several frames.
  unfoldable pub run : AutoBlink F → List (ℕ × ℕ) → AutoBlink F
  unfolding update
  run self [] = self
  run self ((now, later) ∷ frames) = run (update self now later) frames
