-- ===== src/App/AutoBlink/Tests.antt =====
-- A blink, with values in hundredths and times in milliseconds.
use kalidokit_rust.Base.{
  ℕ, ◌+◌, ◌-◌, ◌*◌, ◌/◌, ◌%◌, ◌≡◌, refl, some, some-injective, [], ◌∷◌, List, leb, min, arith,
}
use kalidokit_rust.Base.Bits.{bit_xor}
use kalidokit_rust.App.AutoBlink.{
  idle, Floats, AutoBlink, xorshift32, schedule_next_blink, seed_of, new, update_idle,
  update_closing, update_closed, update_opening, update, run,
}
use kalidokit_rust.App.AutoBlink.Phases.{IsWell, run-IsWell}

abbrev floats : Floats ℕ
floats = record {
  zero_value = 0;
  one_value = 100;
  close_part = λ t. min 100 (t * 100 / 120);
  open_part = λ t. min 100 (t * 100 / 200);
  at_least_one = leb 100;
  ease_in = λ t. t * t / 100;
  ease_out = λ t. 100 - t * (200 - t) / 100;
  held = leb 60;
  interval = λ n. 2300 + n % 1700;
}

abbrev start : AutoBlink ℕ
start = new floats (some 1) 0 0 0

xorshift_of_one : (xorshift32 (record start { state = 1 })).1 ≡ 270369
unfolding xorshift32 bit_xor
xorshift_of_one = refl

abbrev frames : List (ℕ × ℕ)
frames =
    (16, 16)
    ∷ (5000, 5000)
    ∷ (5060, 5060)
    ∷ (5120, 5120)
    ∷ (5200, 5200)
    ∷ (5300, 5300)
    ∷ (5400, 5400)
    ∷ []

whole_blink : (run floats start (frames)).phase ≡ idle
unfolding run update update_idle update_closing update_closed update_opening schedule_next_blink new
    seed_of xorshift32 bit_xor
whole_blink = refl

half_open : (run floats start ((5000, 0) ∷ (5120, 0) ∷ (5200, 0) ∷ (5300, 0) ∷ [])).value ≡ 25
unfolding run update update_idle update_closing update_closed update_opening schedule_next_blink new
    seed_of xorshift32 bit_xor
half_open = refl

run-IsWell_example : IsWell floats (run floats (new floats (some 1) 0 0 0) frames)
run-IsWell_example =
    run-IsWell floats (some 1) 0 0 0 (λ n e. omega (arith, some-injective _ _ e)) frames
