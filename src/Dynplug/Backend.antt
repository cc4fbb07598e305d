-- ===== src/Dynplug/Backend.antt =====
-- crates/dynplug/src/{error,api,loader,vtable,backend,native,wasm}.rs: one loaded plugin. What
-- stands outside the repository is the record `Host`: the dynamic loader, the code of the plugins
-- and the Extism runtime. A call of a plugin may change the plugin's memory.
use kalidokit_rust.Base.{ℕ, zero, suc, Bool, true, String, Option, none, some, List, [], ◌==◌}
use kalidokit_rust.Base.Int.{ℤ, pos, negsuc}
use kalidokit_rust.Base.Result.{Result, ok, err, ok_or, map_err, ensure, ◌>>=◌, ◌>>◌}
use kalidokit_rust.Dynplug.Platform.{FilePath, unwrap_or, append}

abbrev pub Bytes : Type 0
Bytes = List ℕ

-- The texts of `PluginError::Invoke`, by where they come from.
pub data Message : Type 0 where
  no_vtable unknown_error : Message
  from_plugin : Bytes → Message
  from_runtime : String → Message
  unexpected_code : ℤ → Message

pub data PluginError : Type 0 where
  load : (path reason : String) → PluginError
  symbol_not_found : (symbol path : String) → PluginError
  version_mismatch : (host plugin : ℕ) (path : String) → PluginError
  null_vtable : (path : String) → PluginError
  not_found : String → PluginError
  invoke : (message : Message) → PluginError
  panic : PluginError
  duplicate_name : String → PluginError
  io : String → PluginError

-- What `vt.invoke` returns: the code, and the output unless it is null or empty.
pub record Reply : Type 0 where
  pub rc : ℤ
  pub out : Option Bytes

-- `version`, which nothing here calls, is left out. The call of `destroy` is the drop of the backend,
-- which the manager returns.
pub record PluginVTable (Memory : Type 0) : Type 0 where
  pub interface_version : ℕ
  -- `name`, called on the plugin's memory, if it is UTF-8.
  pub name : Memory → Option String
  -- The call, and the `free_buffer` of its output after the output is copied.
  pub invoke : Memory → String → Bytes → Reply × Memory

pub record Host : Type 1 where
  pub Memory : Type 0
  pub Module : Type 0
  pub Manifest : Type 0
  -- `libloading::Library::new`.
  pub open_library : FilePath → Result String Memory
  -- The entry function of that symbol, if there is one, and the table that it returns, if not null.
  pub entry : Memory → String → Option (Option (PluginVTable Memory))
  -- `extism::Plugin::new` on a file, and on a manifest.
  pub open_wasm : FilePath → Bool → Result String Module
  pub open_manifest : Manifest → Bool → Result String Module
  -- `extism::Plugin::call`.
  pub call_wasm : Module → String → Bytes → Result String Bytes × Module
  -- The file system: a directory's entries, each `none` where it cannot be read.
  pub read_dir : FilePath → Result String (List (Option FilePath))
  pub is_dir : FilePath → Bool
  pub is_file : FilePath → Bool

abbrev pub interface_version : ℕ
interface_version = 1

abbrev pub plugin_entry_symbol : String
plugin_entry_symbol = "plugin_entry"

module _ (host : Host) where
  open host use {Memory, Module, Manifest}

  pub record LoadedLibrary : Type 0 where
    pub lib : Memory
    pub path : FilePath

  pub data Backend : Type 0 where
    native :
        (name : String) (library : LoadedLibrary) (vtable : Option (PluginVTable Memory)) → Backend
    wasm : (name : String) (plugin : Module) (path : Option FilePath) → Backend

  unfoldable pub load_library : FilePath → Result PluginError LoadedLibrary
  load_library path = do
    lib ← map_err (load path.display) (host.open_library path)
    ok (record { lib = lib; path = path })

  -- `LoadedLibrary::vtable`.
  unfoldable pub vtable : LoadedLibrary → Option String → Result PluginError (PluginVTable Memory)
  vtable library entry_symbol = do
    let symbol_name = unwrap_or entry_symbol plugin_entry_symbol
    let path = library.path.display
    vtable_ptr ← ok_or (host.entry library.lib symbol_name) (symbol_not_found symbol_name path)
    vt ← ok_or vtable_ptr (null_vtable path)
    ensure (vt.interface_version == interface_version)
        (version_mismatch interface_version vt.interface_version path)
    ok vt

  unfoldable pub wasm_load : FilePath → Result PluginError Backend
  wasm_load path = do
    plugin ← map_err (load path.display) (host.open_wasm path true)
    ok (wasm (unwrap_or path.file_stem "unknown") plugin (some path))

  unfoldable pub wasm_load_manifest : String → Manifest → Bool → Result PluginError Backend
  wasm_load_manifest name manifest wasi = do
    plugin ←
        map_err (load (append "<manifest:" (append name ">"))) (host.open_manifest manifest wasi)
    ok (wasm name plugin none)

  abbrev pub backend_name : Backend → String
  backend_name (native name _ _) = name
  backend_name (wasm name _ _) = name

  unfoldable pub kind : Backend → String
  kind (native _ _ _) = "native"
  kind (wasm _ _ _) = "wasm"

  -- `downcast_ref::<NativeBackend>` and `library`.
  unfoldable pub library : Backend → Option LoadedLibrary
  library (native _ lib _) = some lib
  library (wasm _ _ _) = none

  -- The `match rc` of `NativeBackend::invoke`.
  unfoldable pub native_result : ℤ → Option Bytes → Result PluginError Bytes
  native_result (pos zero) none = ok []
  native_result (pos zero) (some data_) = ok data_
  native_result (pos (suc n)) _ = err (invoke (unexpected_code (pos (suc n))))
  native_result (negsuc zero) none = err (invoke unknown_error)
  native_result (negsuc zero) (some msg) = err (invoke (from_plugin msg))
  native_result (negsuc (suc zero)) _ = err panic
  native_result (negsuc (suc (suc n))) _ = err (invoke (unexpected_code (negsuc (suc (suc n)))))

  -- `PluginBackend::invoke`, with the backend after the call.
  unfoldable pub backend_invoke : Backend → String → Bytes → Result PluginError Bytes × Backend
  unfolding native_result
  backend_invoke (native name library none) method input =
      (err (invoke no_vtable), native name library none)
  backend_invoke (native name library (some vt)) method input =
      let (reply, lib) = vt.invoke library.lib method input in
      (native_result reply.rc reply.out, native name (record library { lib = lib }) (some vt))
  backend_invoke (wasm name plugin path) method input =
      let (r, plugin') = host.call_wasm plugin method input in
      (map_err (λ e. invoke (from_runtime e)) r, wasm name plugin' path)
