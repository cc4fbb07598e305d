-- ===== src/App/Mascot.antt =====
-- crates/app/src/mascot.rs, `MascotState`. What is read from the window comes as arguments, and the
-- calls on it are a list, in order. Coordinates in f64 are of any type; the difference of two of them
-- as an i32 is a parameter. Sums of i32 wrap, as they do without overflow checks. The system is macOS
-- or not, for the shadow.
pub mod InStep
mod Tests
use kalidokit_rust.Base.{
  ℕ, ◌/◌, ◌%◌, ◌-◌, ◌^◌, ltb, Bool, true, false, not, Option, none, some, List, [], ◌∷◌, ◌++◌,
  if◌then◌else◌,
}
use kalidokit_rust.Base.Int.{ℤ, pos, negsuc, ◌+ℤ◌}

pub data WindowLevel : Type 0 where
  normal always_on_top_level : WindowLevel

pub record LogicalSize : Type 0 where
  pub width : ℕ
  pub height : ℕ

pub record Position (A : Type 0) : Type 0 where
  pub x : A
  pub y : A

pub data WindowCall : Type 0 where
  set_decorations : Bool → WindowCall
  set_window_level : WindowLevel → WindowCall
  request_inner_size : LogicalSize → WindowCall
  set_cursor_hittest : Bool → WindowCall
  set_has_shadow : Bool → WindowCall
  set_outer_position : Position ℤ → WindowCall

pub record MascotState (A : Type 0) : Type 0 where
  pub enabled : Bool
  pub always_on_top : Bool
  pub dragging : Bool
  pub drag_start_cursor : Position A
  pub drag_start_window : Position ℤ
  pub normal_size : LogicalSize
  pub mascot_size : LogicalSize

-- The size of the window in logical pixels, from its scale, and `(a - b) as i32`.
pub record Screen (A : Type 0) : Type 0 where
  pub macos : Bool
  pub origin : A
  pub delta : A → A → ℤ

-- `unwrap_or_default`.
abbrev pub or_origin : Option (Position ℤ) → Position ℤ
or_origin none = record { x = pos 0; y = pos 0 }
or_origin (some p) = p

-- A sum of two i32, which wraps.
unfoldable pub wrap_i32 : ℤ → ℤ
wrap_i32 (pos n) =
    if ltb (n % 2 ^ 32) (2 ^ 31) then pos (n % 2 ^ 32) else negsuc (2 ^ 32 - 1 - n % 2 ^ 32)
wrap_i32 (negsuc n) =
    if ltb (n % 2 ^ 32) (2 ^ 31) then negsuc (n % 2 ^ 32) else pos (2 ^ 32 - 1 - n % 2 ^ 32)

module _ {A : Type 0} (screen : Screen A) where
  unfoldable pub new : MascotState A
  new = record {
    enabled = false;
    always_on_top = false;
    dragging = false;
    drag_start_cursor = record { x = screen.origin; y = screen.origin };
    drag_start_window = record { x = pos 0; y = pos 0 };
    normal_size = record { width = 1280; height = 720 };
    mascot_size = record { width = 512; height = 512 };
  }

  abbrev pub level_of : Bool → WindowLevel
  level_of on_top = if on_top then always_on_top_level else normal

  abbrev pub shadow : Bool → List WindowCall
  shadow has = if screen.macos then set_has_shadow has ∷ [] else []

  -- `size` is the window's inner size over its scale.
  unfoldable pub enter : MascotState A → LogicalSize → Bool → Bool → MascotState A × List WindowCall
  enter self size on_top fullscreen = (
    record self { normal_size = size; always_on_top = on_top; enabled = true },
    set_decorations false
        ∷ set_window_level (level_of on_top)
        ∷ ((if fullscreen then [] else request_inner_size self.mascot_size ∷ [])
            ++ ((if fullscreen then [] else set_cursor_hittest false ∷ []) ++ shadow false)),
  )

  unfoldable pub leave : MascotState A → Bool → MascotState A × List WindowCall
  leave self fullscreen = (
    record self { enabled = false; dragging = false },
    set_decorations true
        ∷ set_window_level normal
        ∷ ((if fullscreen then [] else request_inner_size self.normal_size ∷ [])
            ++ set_cursor_hittest true ∷ shadow true),
  )

  unfoldable pub toggle : MascotState A → LogicalSize → Bool → MascotState A × List WindowCall
  unfolding enter leave
  toggle self size fullscreen =
      if self.enabled then leave self fullscreen else enter self size self.always_on_top fullscreen

  unfoldable pub toggle_always_on_top : MascotState A → MascotState A × List WindowCall
  toggle_always_on_top self = (
    record self { always_on_top = not self.always_on_top },
    (if self.enabled then set_window_level (level_of (not self.always_on_top)) ∷ [] else []),
  )

  -- `position` is the window's outer position, if it has one.
  unfoldable pub start_drag : MascotState A → Position A → Option (Position ℤ) → MascotState A
  start_drag self cursor position =
      if self.enabled
      then record self {
        dragging = true;
        drag_start_cursor = cursor;
        drag_start_window = or_origin position;
      }
      else self

  unfoldable pub update_drag : MascotState A → Position A → List WindowCall
  unfolding wrap_i32 ◌+ℤ◌
  update_drag self cursor =
      if self.dragging
      then set_outer_position (record {
        x = wrap_i32 (self.drag_start_window.x +ℤ screen.delta cursor.x self.drag_start_cursor.x);
        y = wrap_i32 (self.drag_start_window.y +ℤ screen.delta cursor.y self.drag_start_cursor.y);
      })
        ∷ []
      else []

  unfoldable pub end_drag : MascotState A → MascotState A
  end_drag self = record self { dragging = false }

-- The methods that change the state, with what they read from the window.
pub data Event (A : Type 0) : Type 0 where
  entered : LogicalSize → Bool → Bool → Event A
  left : Bool → Event A
  toggled : LogicalSize → Bool → Event A
  top_toggled : Event A
  pressed : Position A → Option (Position ℤ) → Event A
  moved : Position A → Event A
  released : Event A

module _ {A : Type 0} (screen : Screen A) where
  unfoldable pub step : MascotState A → Event A → MascotState A × List WindowCall
  unfolding enter leave toggle toggle_always_on_top start_drag update_drag end_drag
  step self (entered size on_top fullscreen) = enter screen self size on_top fullscreen
  step self (left fullscreen) = leave screen self fullscreen
  step self (toggled size fullscreen) = toggle screen self size fullscreen
  step self top_toggled = toggle_always_on_top screen self
  step self (pressed cursor position) = (start_drag screen self cursor position, [])
  step self (moved cursor) = (self, update_drag screen self cursor)
  step self released = (end_drag screen self, [])

  unfoldable pub run : MascotState A → List (Event A) → MascotState A × List WindowCall
  unfolding step
  run self [] = (self, [])
  run self (e ∷ es) =
      let (self', calls) = step self e in let (last, rest) = run self' es in (last, calls ++ rest)
