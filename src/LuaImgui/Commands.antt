-- ===== src/LuaImgui/Commands.antt =====
-- crates/lua-imgui/src/commands.rs, `ImguiCommand`, `replay_nested` and `replay_inner`, and
-- `WidgetValue` of lib.rs. Dear ImGui is a parameter: a state, and what each call on it does and
-- answers. Numbers in f32 are of any type, with the test whether two differ by more than EPSILON, and
-- colours of any type with inequality. The outputs are a map with text keys. The recursion takes fuel.
pub mod Groups
pub mod Render
mod Tests
use kalidokit_rust.Base.{
  ℕ, zero, suc, Bool, true, false, not, Option, none, some, List, [], ◌∷◌, String, str_eq, length,
  if◌then◌else◌, Entries, insert, remove,
}
use Prim.Native.String.{◌++◌ as str_append}

pub data ImguiCommand (F C : Type 0) : Type 0 where
  begin_window : (name : String) → ImguiCommand F C
  end_window : ImguiCommand F C
  text : (text : String) → ImguiCommand F C
  button : (label : String) → ImguiCommand F C
  same_line : ImguiCommand F C
  separator : ImguiCommand F C
  slider_float : (label : String) (min max value : F) → ImguiCommand F C
  checkbox : (label : String) (checked : Bool) → ImguiCommand F C
  input_text : (label text : String) → ImguiCommand F C
  tree_node_begin : (label : String) → ImguiCommand F C
  tree_node_end : ImguiCommand F C
  color_edit3 : (label : String) (color : C) → ImguiCommand F C
  collapsing_header_begin : (label : String) (default_open : Bool) → ImguiCommand F C
  collapsing_header_end : ImguiCommand F C
  text_disabled : (text : String) → ImguiCommand F C
  indent : ImguiCommand F C
  unindent : ImguiCommand F C

pub data WidgetValue (F C : Type 0) : Type 0 where
  float : F → WidgetValue F C
  bool : Bool → WidgetValue F C
  color3 : C → WidgetValue F C
  text_value : String → WidgetValue F C

-- The calls of a frame. A widget answers the value that the user left. A tree node that is open is
-- popped when its token goes; a window runs its content or not.
pub record Ui (U F C : Type 0) : Type 0 where
  pub window : String → (U → U) → U → U
  pub text : String → U → U
  pub button : String → U → U
  pub same_line : U → U
  pub separator : U → U
  pub slider : String → F → F → F → U → U × F
  pub checkbox : String → Bool → U → U × Bool
  pub color_edit3 : String → C → U → U × C
  pub input_text : String → String → U → U × (Bool × String)
  pub tree_node : String → U → U × Bool
  pub tree_pop : U → U
  pub collapsing_header : String → Bool → U → U × Bool
  pub text_disabled : String → U → U
  pub indent : U → U
  pub unindent : U → U
  pub changed : F → F → Bool
  pub recoloured : C → C → Bool

-- How a command takes part in the nesting of one kind of group.
pub data Mark : Type 0 where
  opens closes plain : Mark

module _ {F C : Type 0} where
  unfoldable pub window_mark : ImguiCommand F C → Mark
  window_mark (begin_window name) = opens
  window_mark end_window = closes
  window_mark _ = plain

  unfoldable pub tree_mark : ImguiCommand F C → Mark
  tree_mark (tree_node_begin label) = opens
  tree_mark tree_node_end = closes
  tree_mark _ = plain

  unfoldable pub header_mark : ImguiCommand F C → Mark
  header_mark (collapsing_header_begin label default_open) = opens
  header_mark collapsing_header_end = closes
  header_mark _ = plain

  abbrev pub cons :
      ImguiCommand F C
      → List (ImguiCommand F C) × List (ImguiCommand F C)
      → List (ImguiCommand F C) × List (ImguiCommand F C)
  cons c (inner, rest) = (c ∷ inner, rest)

  unfoldable pub on_mark :
      Mark
      → ℕ
      → ImguiCommand F C
      → List (ImguiCommand F C)
      → (ℕ → List (ImguiCommand F C) × List (ImguiCommand F C))
      → List (ImguiCommand F C) × List (ImguiCommand F C)
  on_mark opens depth c cs after = cons c (after (suc depth))
  on_mark closes zero c cs after = ([], cs)
  on_mark closes (suc depth) c cs after = cons c (after depth)
  on_mark plain depth c cs after = cons c (after depth)

  -- The commands up to the end that matches, at `depth` below it, and those after that end. The
  -- source counts from 1.
  unfoldable pub split_group :
      (ImguiCommand F C → Mark)
      → ℕ
      → List (ImguiCommand F C)
      → List (ImguiCommand F C) × List (ImguiCommand F C)
  unfolding on_mark
  split_group mark depth [] = ([], [])
  split_group mark depth (c ∷ cs) = on_mark (mark c) depth c cs (λ d. split_group mark d cs)

abbrev pub Outputs : Type 0 → Type 0 → Type 0
Outputs F C = Entries (WidgetValue F C)

-- What a command does in `replay_inner`: a group, or a call.
pub data Kind : Type 0 where
  tree_group : String → Kind
  header_group : String → Bool → Kind
  single : Kind

unfoldable pub kind : {F C : Type 0} → ImguiCommand F C → Kind
kind (tree_node_begin label) = tree_group label
kind (collapsing_header_begin label default_open) = header_group label default_open
kind _ = single

abbrev pub submitted : String → String
submitted label = str_append label "__submitted"

abbrev pub differs : Bool → Bool → Bool
differs true b = not b
differs false b = b

abbrev pub and_then : {A B : Type 0} → Option A → (A → Option B) → Option B
and_then none f = none
and_then (some a) f = f a

module _ {U F C : Type 0} (ui : Ui U F C) where
  -- The outputs of a text, after the call.
  unfoldable pub put_text : String → String → Bool → String → Outputs F C → Outputs F C
  put_text label before changed buf out =
      if changed
      then insert label (text_value buf) (insert (submitted label) (bool true) out)
      else if not (str_eq buf before)
      then remove (submitted label) (insert label (text_value buf) out)
      else remove (submitted label) out

  -- A value that the user changed is put into the outputs, any other removed.
  unfoldable pub put_if : Bool → String → WidgetValue F C → Outputs F C → Outputs F C
  put_if changed label value out = if changed then insert label value out else remove label out

  -- The commands that are no group.
  unfoldable pub widget : ImguiCommand F C → U × Outputs F C → U × Outputs F C
  unfolding put_text put_if
  widget (text t) (u, out) = (ui.text t u, out)
  widget (button label) (u, out) = (ui.button label u, out)
  widget same_line (u, out) = (ui.same_line u, out)
  widget separator (u, out) = (ui.separator u, out)
  widget (slider_float label min max value) (u, out) =
      let (u', v) = ui.slider label min max value u in
      (u', put_if (ui.changed v value) label (float v) out)
  widget (checkbox label checked) (u, out) =
      let (u', c) = ui.checkbox label checked u in
      (u', put_if (differs c checked) label (bool c) out)
  widget (color_edit3 label color) (u, out) =
      let (u', c) = ui.color_edit3 label color u in
      (u', put_if (ui.recoloured c color) label (color3 c) out)
  widget (input_text label t) (u, out) =
      let (u', answer) = ui.input_text label t u in (u', put_text label t answer.0 answer.1 out)
  widget (text_disabled t) (u, out) = (ui.text_disabled t u, out)
  widget indent (u, out) = (ui.indent u, out)
  widget unindent (u, out) = (ui.unindent u, out)
  widget _ st = st

  -- The content of a group, where it is open.
  abbrev pub content :
      Bool → (U → U) → Option (U × Outputs F C) → U × Outputs F C → Option (U × Outputs F C)
  content true close inner closed = and_then inner (λ st. some (close st.0, st.1))
  content false close inner closed = some closed

  unfoldable pub on_kind :
      Kind
      → ImguiCommand F C
      → List (ImguiCommand F C)
      → U × Outputs F C
      → (List (ImguiCommand F C) → U × Outputs F C → Option (U × Outputs F C))
      → Option (U × Outputs F C)
  unfolding split_group tree_mark header_mark widget
  on_kind (tree_group label) c cs st again =
      let (inner, rest) = split_group tree_mark 0 cs in
      let (u, shown) = ui.tree_node label st.0 in
      and_then (content shown ui.tree_pop (again inner (u, st.1)) (u, st.1)) (again rest)
  on_kind (header_group label default_open) c cs st again =
      let (inner, rest) = split_group header_mark 0 cs in
      let (u, shown) = ui.collapsing_header label default_open st.0 in
      and_then (content shown (λ v. v) (again inner (u, st.1)) (u, st.1)) (again rest)
  on_kind single c cs st again = again cs (widget c st)

  unfoldable pub replay_inner :
      ℕ → List (ImguiCommand F C) → U × Outputs F C → Option (U × Outputs F C)
  unfolding kind on_kind
  replay_inner zero commands st = none
  replay_inner (suc fuel) [] st = some st
  replay_inner (suc fuel) (c ∷ cs) st = on_kind (kind c) c cs st (replay_inner fuel)

  -- The content of a window, with outputs that nobody reads. The fuel is that of `replay_inner`.
  unfoldable pub window_content : List (ImguiCommand F C) → U → U
  unfolding replay_inner
  window_content inner u = elim (replay_inner (suc (length inner)) inner (u, [])) [
    | none ↦ u
    | some st ↦ st.0
  ]

  unfoldable pub replay_nested : ℕ → List (ImguiCommand F C) → U → Option U
  unfolding window_content split_group window_mark
  replay_nested zero commands u = none
  replay_nested (suc fuel) [] u = some u
  replay_nested (suc fuel) (begin_window name ∷ cs) u =
      let (inner, rest) = split_group window_mark 0 cs in
      replay_nested fuel rest (ui.window name (window_content inner) u)
  replay_nested (suc fuel) (c ∷ cs) u = replay_nested fuel cs u
