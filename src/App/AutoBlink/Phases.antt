-- ===== src/App/AutoBlink/Phases.antt =====
-- The states of `AutoBlink` (crates/app/src/auto_blink.rs) over its updates.
use kalidokit_rust.Base.{
  ℕ, ◌-◌, ◌*◌, ◌/◌, ◌%◌, ◌^◌, ◌<◌, ◌≡◌, ◌≢◌, refl, Option, none, some, List, [], ◌∷◌, leb, ◌==◌,
  ==→ne, Bool-cases, inl, inr, arith, if_elim,
}
use kalidokit_rust.Base.Bits.{bit_xor, bit_xor-bound, bit_xor-zero}
use kalidokit_rust.App.AutoBlink.{
  BlinkPhase, idle, closing, closed, opening, Floats, AutoBlink, xorshift32, schedule_next_blink,
  seed_of, new, update_idle, update_closing, update_closed, update_opening, update_in, update, run,
}

-- A seed that `xorshift32` does not stop at.
pub IsSeed : ℕ → Type 0
IsSeed x = (x < 2 ^ 32) × (x ≢ 0)

-- A number and another, of 32 bits: they differ, or their `^` is zero.
xor-IsSeed : (x y : ℕ) → x < 2 ^ 32 → y < 2 ^ 32 → x ≢ y → IsSeed (bit_xor 32 x y)
unfolding IsSeed
xor-IsSeed x y p q d = (bit_xor-bound 32 x y, λ e. d (bit_xor-zero 32 x y p q e))

shl13-IsSeed : (x : ℕ) → IsSeed x → IsSeed (bit_xor 32 x (x * 2 ^ 13 % 2 ^ 32))
unfolding IsSeed
shl13-IsSeed x (p, d) =
    xor-IsSeed x (x * 2 ^ 13 % 2 ^ 32) p (omega arith) (λ e. d (omega (arith, e, p)))

shr17-IsSeed : (x : ℕ) → IsSeed x → IsSeed (bit_xor 32 x (x / 2 ^ 17))
unfolding IsSeed
shr17-IsSeed x (p, d) =
    xor-IsSeed x (x / 2 ^ 17) p (omega (arith, p)) (λ e. d (omega (arith, e, p)))

shl5-IsSeed : (x : ℕ) → IsSeed x → IsSeed (bit_xor 32 x (x * 2 ^ 5 % 2 ^ 32))
unfolding IsSeed
shl5-IsSeed x (p, d) =
    xor-IsSeed x (x * 2 ^ 5 % 2 ^ 32) p (omega arith) (λ e. d (omega (arith, e, p)))

xorshift32-IsSeed :
    {F : Type 0} (self : AutoBlink F) → IsSeed self.state → IsSeed (xorshift32 self).0.state
unfolding xorshift32
xorshift32-IsSeed self h = shl5-IsSeed _ (shr17-IsSeed _ (shl13-IsSeed self.state h))

-- The open eyes of the idle phase and the shut ones of the closed phase, and a seed.
pub record IsWell {F : Type 0} (floats : Floats F) (self : AutoBlink F) : Type 0 where
  pub seeded : IsSeed self.state
  pub open_when_idle : self.phase ≡ idle → self.value ≡ floats.zero_value
  pub shut_when_closed : self.phase ≡ closed → self.value ≡ floats.one_value

module _ {F : Type 0} (floats : Floats F) where
  idle-IsWell :
      (self : AutoBlink F)
      → IsSeed self.state
      → self.phase ≡ idle
      → self.value ≡ floats.zero_value
      → IsWell floats self
  idle-IsWell self h e v = record {
    seeded = h;
    open_when_idle = λ k. v;
    shut_when_closed = λ k. cc;
  }

  schedule_next_blink-IsWell :
      (self : AutoBlink F) (now : ℕ)
      → IsSeed self.state
      → self.phase ≡ idle
      → self.value ≡ floats.zero_value
      → IsWell floats (schedule_next_blink floats self now)
  unfolding schedule_next_blink xorshift32
  schedule_next_blink-IsWell self now h e v = idle-IsWell _ (xorshift32-IsSeed self h) e v

  seed_of-IsSeed :
      (nanos : Option ℕ) → ((n : ℕ) → nanos ≡ some n → n < 2 ^ 32) → IsSeed (seed_of floats nanos)
  unfolding seed_of IsSeed
  seed_of-IsSeed none h = (omega arith, λ e. omega (arith, e))
  seed_of-IsSeed (some n) h = elim (Bool-cases (n == 0)) [
    | inl e ↦ rw e (omega arith, λ k. omega (arith, k))
    | inr e ↦ rw e (h n refl, ==→ne n 0 e)
  ]

  update_idle-IsWell :
      (self : AutoBlink F) (now : ℕ)
      → IsSeed self.state
      → self.phase ≡ idle
      → IsWell floats (update_idle floats self now)
  unfolding update_idle
  update_idle-IsWell self now h e =
      if_elim (IsWell floats) (leb self.next_blink_time now) _ _
        (λ _. record { seeded = h; open_when_idle = λ k. cc; shut_when_closed = λ k. cc })
        (λ _. idle-IsWell _ h e refl)

  update_closing-IsWell :
      (self : AutoBlink F) (now : ℕ)
      → IsSeed self.state
      → self.phase ≡ closing
      → IsWell floats (update_closing floats self now)
  unfolding update_closing
  update_closing-IsWell self now h e =
      if_elim (IsWell floats) (floats.at_least_one (floats.close_part (now - self.phase_start))) _ _
        (λ _. record { seeded = h; open_when_idle = λ k. cc; shut_when_closed = λ k. refl })
        (λ _. record { seeded = h; open_when_idle = λ k. cc; shut_when_closed = λ k. cc })

  update_closed-IsWell :
      (self : AutoBlink F) (now : ℕ)
      → IsSeed self.state
      → self.phase ≡ closed
      → IsWell floats (update_closed floats self now)
  unfolding update_closed
  update_closed-IsWell self now h e =
      if_elim (IsWell floats) (floats.held (now - self.phase_start)) _ _
        (λ _. record { seeded = h; open_when_idle = λ k. cc; shut_when_closed = λ k. cc })
        (λ _. record { seeded = h; open_when_idle = λ k. cc; shut_when_closed = λ k. refl })

  update_opening-IsWell :
      (self : AutoBlink F) (now later : ℕ)
      → IsSeed self.state
      → self.phase ≡ opening
      → IsWell floats (update_opening floats self now later)
  unfolding update_opening
  update_opening-IsWell self now later h e =
      if_elim (IsWell floats) (floats.at_least_one (floats.open_part (now - self.phase_start))) _ _
        (λ _.
          schedule_next_blink-IsWell (record self { value = floats.zero_value; phase = idle }) later
            h refl refl)
        (λ _. record { seeded = h; open_when_idle = λ k. cc; shut_when_closed = λ k. cc })

  update_in-IsWell :
      (p : BlinkPhase) (self : AutoBlink F) (now later : ℕ)
      → IsSeed self.state
      → self.phase ≡ p
      → IsWell floats (update_in floats p self now later)
  update_in-IsWell idle self now later h e = update_idle-IsWell self now h e
  update_in-IsWell closing self now later h e = update_closing-IsWell self now h e
  update_in-IsWell closed self now later h e = update_closed-IsWell self now h e
  update_in-IsWell opening self now later h e = update_opening-IsWell self now later h e

  update-IsWell :
      (self : AutoBlink F) (now later : ℕ)
      → IsWell floats self
      → IsWell floats (update floats self now later)
  unfolding update
  update-IsWell self now later h = update_in-IsWell self.phase self now later h.seeded refl

  new-IsWell :
      (nanos : Option ℕ) (before now after : ℕ)
      → ((n : ℕ) → nanos ≡ some n → n < 2 ^ 32)
      → IsWell floats (new floats nanos before now after)
  unfolding new
  new-IsWell nanos before now after h =
      let opened : AutoBlink F = record {
        value = floats.zero_value;
        state = seed_of floats nanos;
        next_blink_time = before;
        phase = idle;
        phase_start = now;
      } in
      schedule_next_blink-IsWell opened after (seed_of-IsSeed nanos h) refl refl

  run-preserves :
      (self : AutoBlink F) (frames : List (ℕ × ℕ))
      → IsWell floats self
      → IsWell floats (run floats self frames)
  unfolding run
  run-preserves self [] h = h
  run-preserves self ((now, later) ∷ frames) h =
      run-preserves (update floats self now later) frames (update-IsWell self now later h)

  -- From `new` on, after any updates, whatever the clock says: the state of the random numbers is a u32
  -- other than zero, the eyes are open in the idle phase, and shut in the closed phase.
  pub run-IsWell :
      (subsec_nanos : Option ℕ) (before now after : ℕ)
      → ((n : ℕ) → subsec_nanos ≡ some n → n < 2 ^ 32)
      → (frames : List (ℕ × ℕ))
      → IsWell floats (run floats (new floats subsec_nanos before now after) frames)
  run-IsWell nanos before now after h frames =
      run-preserves _ frames (new-IsWell nanos before now after h)
