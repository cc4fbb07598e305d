-- ===== src/LuaImgui/Commands/Render.antt =====
-- The replay of commands that are nested well (crates/lua-imgui/src/commands.rs) against the tree that
-- they come from.
use kalidokit_rust.Base.{
  ℕ, zero, suc, ◌+◌, ◌≤◌, ◌<◌, ◌≡◌, refl, ◌∙◌, Bool, true, false, Option, some, List, [], ◌∷◌,
  String, arith, length, inl, inr, ◌⊎◌,
}
use kalidokit_rust.LuaImgui.Commands.{
  ImguiCommand, tree_node_begin, tree_node_end, collapsing_header_begin, collapsing_header_end, Ui,
  Mark, opens, closes, plain, tree_mark, header_mark, on_mark, split_group, Outputs, single, kind,
  widget, and_then, content, on_kind, replay_inner,
}
use kalidokit_rust.LuaImgui.Commands.Groups.{split_group-Within}

module _ {F C : Type 0} where
  -- A command that neither begins nor ends a tree node or a header.
  pub record IsLeaf (c : ImguiCommand F C) : Type 0 where
    pub is_single : kind c ≡ single
    pub tree_plain : tree_mark c ≡ plain
    pub header_plain : header_mark c ≡ plain

-- Commands and groups in their order; a group has the nodes in it and those after it.
pub data Nodes (F C : Type 0) : Type 0 where
  done : Nodes F C
  leaf : (c : ImguiCommand F C) → IsLeaf c → Nodes F C → Nodes F C
  tree : (label : String) (inner rest : Nodes F C) → Nodes F C
  header : (label : String) (default_open : Bool) (inner rest : Nodes F C) → Nodes F C

module _ {F C : Type 0} where
  -- The commands of nodes, before others.
  unfoldable pub onto : Nodes F C → List (ImguiCommand F C) → List (ImguiCommand F C)
  onto done tail = tail
  onto (leaf c is_leaf rest) tail = c ∷ onto rest tail
  onto (tree label inner rest) tail =
      tree_node_begin label ∷ onto inner (tree_node_end ∷ onto rest tail)
  onto (header label default_open inner rest) tail =
      collapsing_header_begin label default_open
      ∷ onto inner (collapsing_header_end ∷ onto rest tail)

  -- Two commands that begin and end a group of a kind, or are nothing to it.
  abbrev Pair : (ImguiCommand F C → Mark) → ImguiCommand F C → ImguiCommand F C → Type 0
  Pair mark b e = ((mark b ≡ opens) × (mark e ≡ closes)) ⊎ ((mark b ≡ plain) × (mark e ≡ plain))

  record Nests (mark : ImguiCommand F C → Mark) : Type 0 where
    pub leaf_plain : (c : ImguiCommand F C) → IsLeaf c → mark c ≡ plain
    pub tree_pair : (label : String) → Pair mark (tree_node_begin label) tree_node_end
    pub header_pair :
        (label : String) (default_open : Bool)
        → Pair mark (collapsing_header_begin label default_open) collapsing_header_end

  tree_mark-Nests : Nests tree_mark
  unfolding tree_mark
  tree_mark-Nests = record {
    leaf_plain = λ c is. is.tree_plain;
    tree_pair = λ label. inl (refl, refl);
    header_pair = λ label default_open. inr (refl, refl);
  }

  header_mark-Nests : Nests header_mark
  unfolding header_mark
  header_mark-Nests = record {
    leaf_plain = λ c is. is.header_plain;
    tree_pair = λ label. inr (refl, refl);
    header_pair = λ label default_open. inl (refl, refl);
  }

  module _ (mark : ImguiCommand F C → Mark) (nests : Nests mark) where
    abbrev Through : (List (ImguiCommand F C) → List (ImguiCommand F C)) → Type 0
    Through f =
        (depth : ℕ) (tail : List (ImguiCommand F C))
        → let r = split_group mark depth tail in split_group mark depth (f tail) ≡ (f r.0, r.1)

    Pair-Through :
        (b e : ImguiCommand F C) (f g : List (ImguiCommand F C) → List (ImguiCommand F C))
        → Pair mark b e
        → Through f
        → Through g
        → Through (λ tail. b ∷ f (e ∷ g tail))
    unfolding split_group on_mark
    Pair-Through b e f g (inl (o, c)) hf hg depth tail =
        rw (o, hf (suc depth) (e ∷ g tail), c, hg depth tail) refl
    Pair-Through b e f g (inr (o, c)) hf hg depth tail =
        rw (o, hf depth (e ∷ g tail), c, hg depth tail) refl

    -- A group's end is not among the nodes in it.
    onto-Through : (ns : Nodes F C) → Through (onto ns)
    unfolding onto split_group on_mark
    onto-Through done depth tail = refl
    onto-Through (leaf c is rest) depth tail =
        rw (nests.leaf_plain c is, onto-Through rest depth tail) refl
    onto-Through (tree label inner rest) depth tail =
        Pair-Through _ _ (onto inner) (onto rest) (nests.tree_pair label) (onto-Through inner)
          (onto-Through rest) depth tail
    onto-Through (header label default_open inner rest) depth tail =
        Pair-Through _ _ (onto inner) (onto rest) (nests.header_pair label default_open)
          (onto-Through inner) (onto-Through rest) depth tail

  split-tree :
      (inner : Nodes F C) (cs : List (ImguiCommand F C))
      → split_group tree_mark 0 (onto inner (tree_node_end ∷ cs)) ≡ (onto inner [], cs)
  unfolding split_group on_mark tree_mark
  split-tree inner cs = onto-Through tree_mark tree_mark-Nests inner 0 (tree_node_end ∷ cs)

  split-header :
      (inner : Nodes F C) (cs : List (ImguiCommand F C))
      → split_group header_mark 0 (onto inner (collapsing_header_end ∷ cs)) ≡ (onto inner [], cs)
  unfolding split_group on_mark header_mark
  split-header inner cs =
      onto-Through header_mark header_mark-Nests inner 0 (collapsing_header_end ∷ cs)

module _ {U F C : Type 0} (ui : Ui U F C) where
  abbrev pub when_shown : Bool → (U → U) → U × Outputs F C → U × Outputs F C → U × Outputs F C
  when_shown true close inner closed = (close inner.0, inner.1)
  when_shown false close inner closed = closed

  -- What nodes are to do: the content of a group only where the group is open, and a tree node that
  -- is open popped after it.
  unfoldable pub render : Nodes F C → U × Outputs F C → U × Outputs F C
  render done st = st
  render (leaf c is_leaf rest) st = render rest (widget ui c st)
  render (tree label inner rest) st =
      let (u, shown) = ui.tree_node label st.0 in
      render rest (when_shown shown ui.tree_pop (render inner (u, st.1)) (u, st.1))
  render (header label default_open inner rest) st =
      let (u, shown) = ui.collapsing_header label default_open st.0 in
      render rest (when_shown shown (λ v. v) (render inner (u, st.1)) (u, st.1))

  and_then-content :
      (shown : Bool) (close : U → U) (inner closed : U × Outputs F C)
      (f : U × Outputs F C → Option (U × Outputs F C))
      → and_then (content ui shown close (some inner) closed) f
        ≡ f (when_shown shown close inner closed)
  and_then-content true close inner closed f = refl
  and_then-content false close inner closed f = refl

  -- The replay of the commands of a tree is the tree's own rendering, with fuel for more than the
  -- number of commands: each group has exactly its own content, at any depth and with groups of both
  -- kinds in each other.
  pub replay_inner-render :
      (ns : Nodes F C) (fuel : ℕ) (st : U × Outputs F C)
      → length (onto ns []) < fuel
      → replay_inner ui fuel (onto ns []) st ≡ some (render ns st)
  unfolding onto render replay_inner on_kind kind
  replay_inner-render ns zero st h = absurd (omega arith)
  replay_inner-render done (suc fuel) st h = refl
  replay_inner-render (leaf c is rest) (suc fuel) st h =
      rw is.is_single (replay_inner-render rest fuel (widget ui c st) (omega arith))
  replay_inner-render (tree label inner rest) (suc fuel) st h =
      let cs = onto inner (tree_node_end ∷ onto rest []) in
      let e = split-tree inner (onto rest []) in
      let within : length (onto inner []) + length (onto rest []) ≤ length cs =
        rw e at (split_group-Within {F = F} {C = C} tree_mark 0 cs) in
      let a = ui.tree_node label st.0 in
      rw (e, replay_inner-render inner fuel (a.0, st.1) (omega (arith, within)))
        (and_then-content a.1 ui.tree_pop (render inner (a.0, st.1)) (a.0, st.1)
            (replay_inner ui fuel (onto rest []))
          ∙ replay_inner-render rest fuel _ (omega (arith, within)))
  replay_inner-render (header label default_open inner rest) (suc fuel) st h =
      let cs = onto inner (collapsing_header_end ∷ onto rest []) in
      let e = split-header inner (onto rest []) in
      let within : length (onto inner []) + length (onto rest []) ≤ length cs =
        rw e at (split_group-Within {F = F} {C = C} header_mark 0 cs) in
      let a = ui.collapsing_header label default_open st.0 in
      rw (e, replay_inner-render inner fuel (a.0, st.1) (omega (arith, within)))
        (and_then-content a.1 (λ v. v) (render inner (a.0, st.1)) (a.0, st.1)
            (replay_inner ui fuel (onto rest []))
          ∙ replay_inner-render rest fuel _ (omega (arith, within)))
