-- ===== src/App/Mascot/InStep.antt =====
-- The window beside the state of crates/app/src/mascot.rs, over its events.
use kalidokit_rust.Base.{
  ◌≡◌, refl, Bool, true, false, not, ◌&&◌, List, [], ◌∷◌, ◌++◌, if_elim, if◌then◌else◌,
}
use kalidokit_rust.App.Mascot.{
  WindowLevel, normal, always_on_top_level, WindowCall, set_decorations, set_window_level,
  request_inner_size, set_cursor_hittest, set_has_shadow, set_outer_position, LogicalSize,
  MascotState, Screen, enter, leave, toggle, toggle_always_on_top, start_drag, update_drag,
  end_drag, Event, entered, left, toggled, top_toggled, pressed, moved, released, step, run, new,
  shadow,
}

-- The settings of a window.
pub record Window : Type 0 where
  pub decorated : Bool
  pub level : WindowLevel
  pub hittest : Bool

-- A window's settings are the last that were set.
pub after : Window → List WindowCall → Window
after w [] = w
after w (set_decorations on ∷ calls) = after (record w { decorated = on }) calls
after w (set_window_level level ∷ calls) = after (record w { level = level }) calls
after w (set_cursor_hittest on ∷ calls) = after (record w { hittest = on }) calls
after w (request_inner_size size ∷ calls) = after w calls
after w (set_has_shadow has ∷ calls) = after w calls
after w (set_outer_position p ∷ calls) = after w calls

after-append : (w : Window) (xs ys : List WindowCall) → after w (xs ++ ys) ≡ after (after w xs) ys
unfolding after
after-append w [] ys = refl
after-append w (set_decorations on ∷ xs) ys = after-append (record w { decorated = on }) xs ys
after-append w (set_window_level level ∷ xs) ys = after-append (record w { level = level }) xs ys
after-append w (set_cursor_hittest on ∷ xs) ys = after-append (record w { hittest = on }) xs ys
after-append w (request_inner_size size ∷ xs) ys = after-append w xs ys
after-append w (set_has_shadow has ∷ xs) ys = after-append w xs ys
after-append w (set_outer_position p ∷ xs) ys = after-append w xs ys

abbrev pub opened_window : Window
opened_window = record { decorated = true; level = normal; hittest = true }

-- A mascot has no decorations and the level of its flag; any other window has decorations, the normal
-- level and takes the cursor, and is not dragged.
pub record IsInStep {A : Type 0} (s : MascotState A) (w : Window) : Type 0 where
  pub decorations_in_step : w.decorated ≡ not s.enabled
  pub level_in_step :
      w.level ≡ (if s.enabled && s.always_on_top then always_on_top_level else normal)
  pub takes_cursor : s.enabled ≡ false → w.hittest ≡ true
  pub not_dragged : s.enabled ≡ false → s.dragging ≡ false

module _ {A : Type 0} (screen : Screen A) where
  after-shadow : (w : Window) (has : Bool) → after w (shadow screen has) ≡ w
  unfolding after
  after-shadow w has =
      if_elim (λ (l : List WindowCall). after w l ≡ w) screen.macos _ _ (λ _. refl) (λ _. refl)

  enter-IsInStep :
      (s : MascotState A) (w : Window) (size : LogicalSize) (on_top fullscreen : Bool)
      → let r = enter screen s size on_top fullscreen in IsInStep r.0 (after w r.1)
  unfolding enter after
  enter-IsInStep s w size on_top true = rw (after-shadow _ false) (record {
    decorations_in_step = refl;
    level_in_step = refl;
    takes_cursor = λ e. cc;
    not_dragged = λ e. cc;
  })
  enter-IsInStep s w size on_top false = rw (after-shadow _ false) (record {
    decorations_in_step = refl;
    level_in_step = refl;
    takes_cursor = λ e. cc;
    not_dragged = λ e. cc;
  })

  leave-IsInStep :
      (s : MascotState A) (w : Window) (fullscreen : Bool)
      → let r = leave screen s fullscreen in IsInStep r.0 (after w r.1)
  unfolding leave after
  leave-IsInStep s w true = rw (after-shadow _ true) (record {
    decorations_in_step = refl;
    level_in_step = refl;
    takes_cursor = λ _. refl;
    not_dragged = λ _. refl;
  })
  leave-IsInStep s w false = rw (after-shadow _ true) (record {
    decorations_in_step = refl;
    level_in_step = refl;
    takes_cursor = λ _. refl;
    not_dragged = λ _. refl;
  })

  step-IsInStep :
      (s : MascotState A) (w : Window) (e : Event A)
      → IsInStep s w
      → let r = step screen s e in IsInStep r.0 (after w r.1)
  unfolding step toggle toggle_always_on_top start_drag update_drag end_drag after
  step-IsInStep s w (entered size on_top fullscreen) h = enter-IsInStep s w size on_top fullscreen
  step-IsInStep s w (left fullscreen) h = leave-IsInStep s w fullscreen
  step-IsInStep s w (toggled size fullscreen) h =
      if_elim (λ (r : MascotState A × List WindowCall). IsInStep r.0 (after w r.1)) s.enabled _ _
        (λ _. leave-IsInStep s w fullscreen)
        (λ _. enter-IsInStep s w size s.always_on_top fullscreen)
  step-IsInStep s w top_toggled h =
      let s' = record s { always_on_top = not s.always_on_top } in
      if_elim (λ (l : List WindowCall). IsInStep s' (after w l)) s.enabled _ _
        (λ e. record {
          decorations_in_step = h.decorations_in_step;
          level_in_step = rw e refl;
          takes_cursor = h.takes_cursor;
          not_dragged = h.not_dragged;
        })
        (λ e. record {
          decorations_in_step = h.decorations_in_step;
          level_in_step = rw e (rw e at h.level_in_step);
          takes_cursor = h.takes_cursor;
          not_dragged = h.not_dragged;
        })
  step-IsInStep s w (pressed cursor position) h =
      if_elim (λ (t : MascotState A). IsInStep t w) s.enabled _ _
        (λ e. record {
          decorations_in_step = h.decorations_in_step;
          level_in_step = h.level_in_step;
          takes_cursor = h.takes_cursor;
          not_dragged = λ off. cc;
        })
        (λ _. h)
  step-IsInStep s w (moved cursor) h =
      if_elim (λ (l : List WindowCall). IsInStep s (after w l)) s.dragging _ _ (λ _. h) (λ _. h)
  step-IsInStep s w released h = record {
    decorations_in_step = h.decorations_in_step;
    level_in_step = h.level_in_step;
    takes_cursor = h.takes_cursor;
    not_dragged = λ _. refl;
  }

  run-IsInStep_from :
      (s : MascotState A) (w : Window) (es : List (Event A))
      → IsInStep s w
      → let r = run screen s es in IsInStep r.0 (after w r.1)
  unfolding run after
  run-IsInStep_from s w [] h = h
  run-IsInStep_from s w (e ∷ es) h =
      let r = step screen s e in
      let rest = run screen r.0 es in
      rw (after-append w r.1 rest.1)
        (run-IsInStep_from r.0 (after w r.1) es (step-IsInStep s w e h))

  -- A new state and an opened window, after any events: the window has decorations exactly outside the
  -- mascot mode, is above all others exactly in that mode with its flag set, takes the cursor outside
  -- the mode, and is dragged only in it.
  pub run-IsInStep :
      (es : List (Event A))
      → let r = run screen (new screen) es in IsInStep r.0 (after opened_window r.1)
  unfolding new
  run-IsInStep es = run-IsInStep_from (new screen) opened_window es (record {
    decorations_in_step = refl;
    level_in_step = refl;
    takes_cursor = λ _. refl;
    not_dragged = λ _. refl;
  })
