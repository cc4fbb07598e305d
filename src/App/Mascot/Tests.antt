-- ===== src/App/Mascot/Tests.antt =====
-- A session that turns the mascot mode on, drags the window, and turns it off.
use kalidokit_rust.Base.{ℕ, ◌-◌, ◌≡◌, refl, true, false, some, [], ◌∷◌, List}
use kalidokit_rust.Base.Int.{pos}
use kalidokit_rust.App.Mascot.{
  normal, always_on_top_level, set_decorations, set_window_level, request_inner_size,
  set_cursor_hittest, set_outer_position, Position, Screen, Event, toggled, top_toggled, pressed,
  moved, new, enter, leave, toggle, toggle_always_on_top, start_drag, update_drag, step, run,
}
use kalidokit_rust.App.Mascot.InStep.{IsInStep, after, opened_window, run-IsInStep}

abbrev screen : Screen ℕ
screen = record { macos = false; origin = 0; delta = λ a b. pos (a - b) }

abbrev at : ℕ → Position ℕ
at n = record { x = n; y = n }

abbrev events : List (Event ℕ)
events =
    toggled (record { width = 800; height = 600 }) false
    ∷ top_toggled
    ∷ pressed (at 10) (some (record { x = pos 100; y = pos 100 }))
    ∷ moved (at 13)
    ∷ toggled (record { width = 512; height = 512 }) false
    ∷ moved (at 20)
    ∷ []

calls :
    (run screen (new screen) events).1
    ≡ set_decorations false
      ∷ set_window_level normal
      ∷ request_inner_size (record { width = 512; height = 512 })
      ∷ set_cursor_hittest false
      ∷ set_window_level always_on_top_level
      ∷ set_outer_position (record { x = pos 103; y = pos 103 })
      ∷ set_decorations true
      ∷ set_window_level normal
      ∷ request_inner_size (record { width = 800; height = 600 })
      ∷ set_cursor_hittest true
      ∷ []
unfolding run step new enter leave toggle toggle_always_on_top start_drag update_drag
calls = refl

run-IsInStep_example :
    let r = run screen (new screen) events in IsInStep r.0 (after opened_window r.1)
run-IsInStep_example = run-IsInStep screen events
