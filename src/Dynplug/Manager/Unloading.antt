-- ===== src/Dynplug/Manager/Unloading.antt =====
-- The order in which `unload_all` of crates/dynplug/src/manager.rs drops the plugins.
use mathlib.Core.List.{reverse, reverse-append}
use kalidokit_rust.Base.{
  ℕ, zero, suc, ◌≡◌, refl, ap, ◌∙◌, Option, none, some, List, [], ◌∷◌, ◌++◌, length, get_elem?, set,
  take,
}
use kalidokit_rust.Dynplug.Backend.{Host, Backend}
use kalidokit_rust.Dynplug.Manager.{PluginManager, live, dropped, take_slots, unload_all}

module _ (host : Host) where
  take-set {ℓ} : {A : Type ℓ} (i : ℕ) (xs : List A) (x : A) → take i (set xs i x) ≡ take i xs
  take-set zero xs x = refl
  take-set (suc i) [] x = refl
  take-set (suc i) (y ∷ xs) x = ap (◌∷◌ y) (take-set i xs x)

  take_all {ℓ} : {A : Type ℓ} (xs : List A) → take (length xs) xs ≡ xs
  take_all [] = refl
  take_all (x ∷ xs) = ap (◌∷◌ x) (take_all xs)

  live-take-suc :
      (i : ℕ) (xs : List (Option (Backend host)))
      → live host (take (suc i) xs) ≡ live host (take i xs) ++ dropped host (get_elem? xs i)
  live-take-suc zero [] = refl
  live-take-suc zero (none ∷ xs) = refl
  live-take-suc zero (some b ∷ xs) = refl
  live-take-suc (suc i) [] = refl
  live-take-suc (suc i) (none ∷ xs) = live-take-suc i xs
  live-take-suc (suc i) (some b ∷ xs) = ap (◌∷◌ b) (live-take-suc i xs)

  reverse-dropped : (o : Option (Option (Backend host))) → reverse (dropped host o) ≡ dropped host o
  reverse-dropped none = refl
  reverse-dropped (some none) = refl
  reverse-dropped (some (some b)) = refl

  take_slots-reverse :
      (i : ℕ) (xs : List (Option (Backend host)))
      → (take_slots host i xs).1 ≡ reverse (live host (take i xs))
  unfolding take_slots
  take_slots-reverse zero xs = refl
  take_slots-reverse (suc i) xs =
      rw (take_slots-reverse i (set xs i none), take-set i xs none)
        (rw (
          live-take-suc i xs,
          reverse-append (live host (take i xs)) (dropped host (get_elem? xs i)),
          reverse-dropped,
        ))

  -- Unloading everything drops each live plugin once, in reverse load order, and leaves an empty
  -- manager.
  pub unload_all-reverse :
      (m : PluginManager host)
      → ((unload_all host m).1 ≡ reverse (live host m.plugins))
        × ((unload_all host m).0.plugins ≡ [])
        × ((unload_all host m).0.name_index ≡ [])
  unfolding unload_all
  unload_all-reverse m =
      (take_slots-reverse (length m.plugins) m.plugins ∙ rw (take_all m.plugins), refl, refl)
