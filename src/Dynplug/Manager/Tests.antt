-- ===== src/Dynplug/Manager/Tests.antt =====
-- The manager over a concrete host: two libraries, one of which answers calls, and a Wasm module.
use mathlib.Core.List.{reverse}
use kalidokit_rust.Base.{
  ℕ, ◌+◌, ◌≡◌, ◌≢◌, refl, zero, suc, ◌⊎◌, String, none, some, [], ◌∷◌, true, false, str_eq,
  if◌then◌else◌, lookup, contains_key, insert,
}
use kalidokit_rust.Base.Int.{pos}
use kalidokit_rust.Base.Result.{ok, err}
use kalidokit_rust.Dynplug.Platform.{FilePath, macos, lib_extension, derive_name_from_path}
use kalidokit_rust.Dynplug.Backend.{
  Host, PluginVTable, Backend, native, not_found, duplicate_name, load_library, vtable, wasm_load,
  backend_invoke,
}
use kalidokit_rust.Dynplug.Manager.{
  PluginManager, new, load_file, load_wasm, load_entry, load_entries, load_from_directory,
  load_paths, load_from_directories, find, unload, unload_all, invoke, admit, live,
}
use kalidokit_rust.Dynplug.Manager.Invariant.{IsValid, new-IsValid, admit-IsValid}
use kalidokit_rust.Dynplug.Manager.View.{find-admit, find-unload, find-invoke}
use kalidokit_rust.Dynplug.Manager.Loading.{
  Counted, load_paths-Counted, load_from_directories-Counted,
}
use kalidokit_rust.Dynplug.Manager.Reachable.{at_start, file_loaded, unloaded, Reachable-IsValid}
use kalidokit_rust.Dynplug.Manager.Unloading.{unload_all-reverse}

abbrev path : String → String → FilePath
path stem ext = record { display = stem; file_stem = some stem; extension = some ext }

abbrev table : PluginVTable ℕ
table = record {
  interface_version = 1;
  name = λ n. some "counter";
  invoke = λ n method input. (record { rc = pos 0; out = some (n ∷ input) }, n + 1);
}

-- A library opens by its name; `libcounter` has a table, `libplain` none.
abbrev demo : Host
demo = record {
  Memory = ℕ;
  Module = ℕ;
  Manifest = ℕ;
  open_library = λ p. elim p.file_stem [
    | none ↦ err "no name"
    | some s ↦
        if str_eq s "libcounter"
        then ok 5
        else if str_eq s "libplain"
        then ok 0
        else err "no such file"
  ];
  entry = λ n symbol. elim n [ zero ↦ none | suc _ ↦ some (some table) ];
  open_wasm = λ p wasi. ok 1;
  open_manifest = λ m wasi. ok m;
  call_wasm = λ n method input. (ok input, n);
  read_dir = λ p. ok (
      some (path "libcounter" "dylib")
      ∷ none
      ∷ some (path "readme" "md")
      ∷ some (path "tool" "wasm")
      ∷ []);
  is_dir = λ p. elim p.extension [ none ↦ true | some _ ↦ false ];
  is_file = λ p. elim p.extension [ none ↦ false | some _ ↦ true ];
}

abbrev folder : FilePath
folder = record { display = "plugins"; file_stem = some "plugins"; extension = none }

abbrev counter : Backend demo
counter = native "counter" (record { lib = 5; path = path "libcounter" "dylib" }) (some table)

abbrev one : PluginManager demo
one = record { name_index = ("counter", 0) ∷ []; plugins = some counter ∷ [] }

counter_loads : load_file demo macos (new demo) (path "libcounter" "dylib") ≡ (one, ok tt)
unfolding load_file load_library vtable new contains_key lookup insert
counter_loads = refl

plain_is_named_by_its_file :
    find demo (load_file demo macos one (path "libplain" "dylib")).0 "plain"
    ≡ some (native "plain" (record { lib = 0; path = path "libplain" "dylib" }) none)
unfolding load_file load_library vtable find contains_key lookup insert derive_name_from_path
plain_is_named_by_its_file = refl

folder_has_two : (load_paths demo macos true (new demo) (folder ∷ [])).1 ≡ ok 2
unfolding load_paths load_from_directory load_entries load_entry load_file load_wasm load_library
    wasm_load vtable new contains_key lookup insert lib_extension
folder_has_two = refl

one-IsValid : IsValid demo one
unfolding admit new contains_key lookup insert
one-IsValid = admit-IsValid demo (new demo) counter (new-IsValid demo)

find-admit_example :
    let (m', r) = admit demo one "counter" counter in
    ((find demo one "counter" ≢ none) × (m' ≡ one) × (r ≡ err (duplicate_name "counter")))
    ⊎ ((find demo one "counter" ≡ none)
        × (r ≡ ok tt)
        × ((n : String)
            → find demo m' n ≡ (if str_eq "counter" n then some counter else find demo one n)))
find-admit_example = find-admit demo one counter one-IsValid

find-unload_example :
    let (m', r, gone) = unload demo one "tool" in
    ((find demo one "tool" ≡ none) × (m' ≡ one) × (r ≡ err (not_found "tool")) × (gone ≡ []))
    ⊎ ((b : Backend demo) × (find demo one "tool" ≡ some b)
        × (r ≡ ok tt)
        × (gone ≡ b ∷ [])
        × ((n : String) → find demo m' n ≡ (if str_eq "tool" n then none else find demo one n)))
find-unload_example = find-unload demo one "tool" one-IsValid

find-invoke_example :
    let (m', r) = invoke demo one "counter" "next" (9 ∷ []) in
    ((find demo one "counter" ≡ none) × (m' ≡ one) × (r ≡ err (not_found "counter")))
    ⊎ ((b : Backend demo) × (find demo one "counter" ≡ some b)
        × (r ≡ (backend_invoke demo b "next" (9 ∷ [])).0)
        × ((n : String)
            → find demo m' n ≡ (
                if str_eq "counter" n
                then some (backend_invoke demo b "next" (9 ∷ [])).1
                else find demo one n)))
find-invoke_example = find-invoke demo one "counter" "next" (9 ∷ []) one-IsValid

load_paths-Counted_example :
    Counted demo one 0 (load_paths demo macos true one (folder ∷ path "libplain" "dylib" ∷ []))
load_paths-Counted_example =
    load_paths-Counted demo macos true one (folder ∷ path "libplain" "dylib" ∷ []) one-IsValid

load_from_directories-Counted_example :
    Counted demo
      (new demo)
      0
      (load_from_directories demo macos true (new demo) (folder ∷ folder ∷ []))
load_from_directories-Counted_example =
    load_from_directories-Counted demo macos true (new demo) (folder ∷ folder ∷ [])
      (new-IsValid demo)

unload_all-reverse_example :
    ((unload_all demo one).1 ≡ reverse (live demo one.plugins))
    × ((unload_all demo one).0.plugins ≡ [])
    × ((unload_all demo one).0.name_index ≡ [])
unload_all-reverse_example = unload_all-reverse demo one

counter_counts :
    (invoke demo (invoke demo one "counter" "next" []).0 "counter" "next" []).1 ≡ ok (6 ∷ [])
unfolding invoke backend_invoke lookup
counter_counts = refl

Reachable-IsValid_example :
    IsValid demo
      (unload demo (load_file demo macos (new demo) (path "libcounter" "dylib")).0 "counter").0
Reachable-IsValid_example =
    Reachable-IsValid demo
      (unloaded "counter" (file_loaded macos (path "libcounter" "dylib") at_start))
