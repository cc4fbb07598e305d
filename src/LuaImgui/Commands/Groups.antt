-- ===== src/LuaImgui/Commands/Groups.antt =====
-- The groups that `replay_nested` and `replay_inner` (crates/lua-imgui/src/commands.rs) take apart, and
-- the fuel of the replay.
use kalidokit_rust.Base.{
  ℕ, zero, suc, ◌+◌, ◌≤◌, ◌<◌, ◌≡◌, refl, Bool, true, false, Option, none, some, List, [], ◌∷◌,
  arith, length,
}
use kalidokit_rust.LuaImgui.Commands.{
  ImguiCommand, Ui, Mark, opens, closes, plain, tree_mark, header_mark, split_group, on_mark,
  on_kind, Outputs, Kind, tree_group, header_group, single, kind, widget, and_then, content,
  replay_inner,
}

module _ {F C : Type 0} where
  abbrev Within : ℕ → List (ImguiCommand F C) × List (ImguiCommand F C) → Type 0
  Within n r = length r.0 + length r.1 ≤ n

  on_mark-Within :
      (m : Mark) (depth : ℕ) (c : ImguiCommand F C) (cs : List (ImguiCommand F C))
      (after : ℕ → List (ImguiCommand F C) × List (ImguiCommand F C))
      → ((d : ℕ) → Within (length cs) (after d))
      → Within (suc (length cs)) (on_mark m depth c cs after)
  unfolding on_mark
  on_mark-Within opens depth c cs after h = omega (arith, h (suc depth))
  on_mark-Within closes zero c cs after h = omega arith
  on_mark-Within closes (suc depth) c cs after h = omega (arith, h depth)
  on_mark-Within plain depth c cs after h = omega (arith, h depth)

  pub split_group-Within :
      (mark : ImguiCommand F C → Mark) (depth : ℕ) (cs : List (ImguiCommand F C))
      → Within (length cs) (split_group mark depth cs)
  unfolding split_group
  split_group-Within mark depth [] = omega arith
  split_group-Within mark depth (c ∷ cs) =
      on_mark-Within (mark c) depth c cs (λ d. split_group mark d cs)
        (λ d. split_group-Within mark d cs)

module _ {U F C : Type 0} (ui : Ui U F C) where
  abbrev Is : {A : Type 0} → Option A → Type 0
  Is {A = A} o = (a : A) × (o ≡ some a)

  and_then-Is :
      {A B : Type 0} (o : Option A) (f : A → Option B)
      → Is o
      → ((a : A) → Is (f a))
      → Is (and_then o f)
  and_then-Is none f (a, e) k = cc
  and_then-Is (some a) f h k = k a

  content-Is :
      (shown : Bool) (close : U → U) (inner : Option (U × Outputs F C)) (closed : U × Outputs F C)
      → Is inner
      → Is (content ui shown close inner closed)
  content-Is true close inner closed h = and_then-Is inner _ h (λ st. (_, refl))
  content-Is false close inner closed h = (_, refl)

  on_kind-Is :
      (k : Kind) (c : ImguiCommand F C) (cs : List (ImguiCommand F C)) (st : U × Outputs F C)
      (again : List (ImguiCommand F C) → U × Outputs F C → Option (U × Outputs F C))
      → ((ds : List (ImguiCommand F C)) (st : U × Outputs F C)
          → length ds ≤ length cs
          → Is (again ds st))
      → Is (on_kind ui k c cs st again)
  unfolding on_kind
  on_kind-Is (tree_group label) c cs st again h =
      let g = split_group-Within tree_mark 0 cs in
      and_then-Is _ _ (content-Is _ ui.tree_pop _ _ (h _ _ (omega (arith, g))))
        (λ st'. h _ st' (omega (arith, g)))
  on_kind-Is (header_group label default_open) c cs st again h =
      let g = split_group-Within header_mark 0 cs in
      and_then-Is _ _ (content-Is _ (λ v. v) _ _ (h _ _ (omega (arith, g))))
        (λ st'. h _ st' (omega (arith, g)))
  on_kind-Is single c cs st again h = h cs (widget ui c st) (omega arith)

  -- The replay of any commands, nested well or not, returns where the fuel is more than the number of
  -- commands.
  pub replay_inner_total :
      (fuel : ℕ) (cs : List (ImguiCommand F C)) (st : U × Outputs F C)
      → length cs < fuel
      → (st' : U × Outputs F C) × (replay_inner ui fuel cs st ≡ some st')
  unfolding replay_inner
  replay_inner_total zero cs st h = absurd (omega arith)
  replay_inner_total (suc fuel) [] st h = (st, refl)
  replay_inner_total (suc fuel) (c ∷ cs) st h =
      on_kind-Is (kind c) c cs st (replay_inner ui fuel)
        (λ ds st' less. replay_inner_total fuel ds st' (omega (arith, less)))
