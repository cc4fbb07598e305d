-- ===== src/LuaImgui/Commands/Tests.antt =====
-- A frame whose state is the list of labels that were drawn, last first; every node is open, and the
-- user turns each checkbox.
use kalidokit_rust.Base.{ℕ, ◌≡◌, refl, true, false, not, some, [], ◌∷◌, List, String, arith, insert}
use kalidokit_rust.LuaImgui.Commands.{
  ImguiCommand, text, checkbox, tree_node_begin, tree_node_end, collapsing_header_begin,
  collapsing_header_end, begin_window, end_window, Ui, bool, kind, on_kind, tree_mark, header_mark,
  window_mark, on_mark, split_group, put_if, widget, Outputs, replay_inner, window_content,
  replay_nested,
}
use kalidokit_rust.LuaImgui.Commands.Groups.{replay_inner_total}
use kalidokit_rust.LuaImgui.Commands.Render.{
  IsLeaf, Nodes, done, leaf, tree, header, onto, render, replay_inner-render,
}

abbrev Command : Type 0
Command = ImguiCommand ℕ ℕ

abbrev draw : String → List String → List String
draw label u = label ∷ u

abbrev ui : Ui (List String) ℕ ℕ
ui = record {
  window = λ name content u. content (name ∷ u);
  text = draw;
  button = draw;
  same_line = λ u. u;
  separator = λ u. u;
  slider = λ label min max value u. (label ∷ u, value);
  checkbox = λ label checked u. (label ∷ u, not checked);
  color_edit3 = λ label color u. (label ∷ u, color);
  input_text = λ label t u. (label ∷ u, (false, t));
  tree_node = λ label u. (label ∷ u, true);
  tree_pop = λ u. "pop" ∷ u;
  collapsing_header = λ label default_open u. (label ∷ u, default_open);
  text_disabled = draw;
  indent = λ u. u;
  unindent = λ u. u;
  changed = λ a b. false;
  recoloured = λ a b. false;
}

abbrev commands : List Command
commands =
    tree_node_begin "a"
    ∷ collapsing_header_begin "b" false
    ∷ text "hidden"
    ∷ collapsing_header_end
    ∷ checkbox "c" false
    ∷ tree_node_end
    ∷ text "d"
    ∷ []

drawn :
    replay_inner ui 8 commands ([], [])
    ≡ some ("d" ∷ "pop" ∷ "c" ∷ "b" ∷ "a" ∷ [], ("c", bool true) ∷ [])
unfolding replay_inner kind on_kind split_group on_mark tree_mark header_mark widget put_if insert
drawn = refl

in_windows :
    replay_nested ui 5 (text "outside" ∷ begin_window "w" ∷ text "inside" ∷ end_window ∷ []) []
    ≡ some ("inside" ∷ "w" ∷ [])
unfolding replay_nested window_content replay_inner kind on_kind split_group on_mark window_mark
    widget
in_windows = refl

text-IsLeaf : (t : String) → IsLeaf {F = ℕ} {C = ℕ} (text t)
unfolding kind tree_mark header_mark
text-IsLeaf t = record { is_single = refl; tree_plain = refl; header_plain = refl }

abbrev nodes : Nodes ℕ ℕ
nodes =
    tree "a" (header "b" false (leaf (text "hidden") (text-IsLeaf "hidden") done) done)
      (leaf (text "d") (text-IsLeaf "d") done)

replay_inner_total_example :
    (st' : List String × Outputs ℕ ℕ) × (replay_inner ui 9 (tree_node_end ∷ commands) ([], [])
      ≡ some st')
replay_inner_total_example =
    replay_inner_total ui 9 (tree_node_end ∷ commands) ([], []) (omega arith)

replay_inner-render_example :
    replay_inner ui 7 (onto nodes []) ([], []) ≡ some (render ui nodes ([], []))
unfolding onto
replay_inner-render_example = replay_inner-render ui nodes 7 ([], []) (omega arith)
