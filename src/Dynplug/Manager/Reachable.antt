-- ===== src/Dynplug/Manager/Reachable.antt =====
-- The managers that calls of `PluginManager` (crates/dynplug/src/manager.rs) lead to, in any order and
-- whatever each of them returns.
use kalidokit_rust.Base.{ℕ, String, Bool, none, List, inl, inr}
use kalidokit_rust.Base.Result.{Result, ok, err, Result-cases}
use kalidokit_rust.Dynplug.Platform.{FilePath, Os}
use kalidokit_rust.Dynplug.Backend.{
  Host, Bytes, PluginError, wasm, wasm_load_manifest, load_library, wasm_load,
}
use kalidokit_rust.Dynplug.Manager.{
  PluginManager, new, resolve, load_file, load_wasm, load_wasm_manifest, load_from_directory,
  load_from_directories, load_paths, invoke, unload, unload_all,
}
use kalidokit_rust.Dynplug.Manager.Invariant.{
  IsValid, new-IsValid, admit-IsValid, invoke-IsValid, unload-IsValid, unload_all-IsValid,
}
use kalidokit_rust.Dynplug.Manager.Loading.{
  Counted, load_from_directory-Counted, load_from_directories-Counted, load_paths-Counted,
}

module _ (host : Host) where
  open host use {Manifest}

  pub data Reachable : PluginManager host → Type 0 where
    at_start : Reachable (new host)
    file_loaded :
        {m : PluginManager host} (os : Os) (path : FilePath)
        → Reachable m
        → Reachable (load_file host os m path).0
    wasm_loaded :
        {m : PluginManager host} (path : FilePath)
        → Reachable m
        → Reachable (load_wasm host m path).0
    manifest_loaded :
        {m : PluginManager host} (name : String) (manifest : Manifest) (wasi : Bool)
        → Reachable m
        → Reachable (load_wasm_manifest host m name manifest wasi).0
    directory_loaded :
        {m : PluginManager host} (os : Os) (wasm_enabled : Bool) (dir : FilePath)
        → Reachable m
        → Reachable (load_from_directory host os wasm_enabled m dir).0
    directories_loaded :
        {m : PluginManager host} (os : Os) (wasm_enabled : Bool) (dirs : List FilePath)
        → Reachable m
        → Reachable (load_from_directories host os wasm_enabled m dirs).0
    paths_loaded :
        {m : PluginManager host} (os : Os) (wasm_enabled : Bool) (paths : List FilePath)
        → Reachable m
        → Reachable (load_paths host os wasm_enabled m paths).0
    invoked :
        {m : PluginManager host} (name method : String) (input : Bytes)
        → Reachable m
        → Reachable (invoke host m name method input).0
    unloaded :
        {m : PluginManager host} (name : String) → Reachable m → Reachable (unload host m name).0
    all_unloaded : {m : PluginManager host} → Reachable m → Reachable (unload_all host m).0

  load_file-IsValid :
      (os : Os) (m : PluginManager host) (path : FilePath)
      → IsValid host m
      → IsValid host (load_file host os m path).0
  unfolding load_file
  load_file-IsValid os m path v = elim (Result-cases (load_library host path)) [
    | inl (lib, e) ↦ rw (e, load_file) (admit-IsValid host m (resolve host os lib path) v)
    | inr (x, e) ↦ rw (e, load_file) v
  ]

  load_wasm-IsValid :
      (m : PluginManager host) (path : FilePath)
      → IsValid host m
      → IsValid host (load_wasm host m path).0
  unfolding load_wasm
  load_wasm-IsValid m path v = elim (Result-cases (wasm_load host path)) [
    | inl (b, e) ↦ rw (e, load_wasm) (admit-IsValid host m b v)
    | inr (x, e) ↦ rw (e, load_wasm) v
  ]

  load_wasm_manifest-IsValid :
      (m : PluginManager host) (name : String) (manifest : Manifest) (wasi : Bool)
      → IsValid host m
      → IsValid host (load_wasm_manifest host m name manifest wasi).0
  unfolding load_wasm_manifest wasm_load_manifest
  load_wasm_manifest-IsValid m name manifest wasi v =
      elim (Result-cases (host.open_manifest manifest wasi)) [
        | inl (plugin, e) ↦
            rw (e, load_wasm_manifest) (admit-IsValid host m (wasm name plugin none) v)
        | inr (x, e) ↦ rw (e, load_wasm_manifest) v
      ]

  Counted-IsValid :
      (m : PluginManager host) (r : PluginManager host × Result PluginError ℕ)
      → Counted host m 0 r
      → IsValid host r.0
  Counted-IsValid m (m', ok n) c = c.0
  Counted-IsValid m (m', err e) c = c

  -- Every manager that calls lead to, in any order and whatever each returns, is well formed: a name
  -- of the index stands for a slot that holds a plugin of that name, and every plugin that a slot
  -- holds is in the index under its name.
  pub Reachable-IsValid : {m : PluginManager host} → Reachable m → IsValid host m
  Reachable-IsValid at_start = new-IsValid host
  Reachable-IsValid (file_loaded os path r) = load_file-IsValid os _ path (Reachable-IsValid r)
  Reachable-IsValid (wasm_loaded path r) = load_wasm-IsValid _ path (Reachable-IsValid r)
  Reachable-IsValid (manifest_loaded name manifest wasi r) =
      load_wasm_manifest-IsValid _ name manifest wasi (Reachable-IsValid r)
  Reachable-IsValid (directory_loaded {m = m} os w dir r) =
      Counted-IsValid m (load_from_directory host os w m dir)
        (load_from_directory-Counted host os w m dir (Reachable-IsValid r))
  Reachable-IsValid (directories_loaded {m = m} os w dirs r) =
      Counted-IsValid m (load_from_directories host os w m dirs)
        (load_from_directories-Counted host os w m dirs (Reachable-IsValid r))
  Reachable-IsValid (paths_loaded {m = m} os w paths r) =
      Counted-IsValid m (load_paths host os w m paths)
        (load_paths-Counted host os w m paths (Reachable-IsValid r))
  Reachable-IsValid (invoked name method input r) =
      invoke-IsValid host _ name method input (Reachable-IsValid r)
  Reachable-IsValid (unloaded name r) = unload-IsValid host _ name (Reachable-IsValid r)
  Reachable-IsValid (all_unloaded r) = unload_all-IsValid host _
