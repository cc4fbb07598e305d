-- ===== src/Dynplug/Manager.antt =====
-- crates/dynplug/src/manager.rs: `PluginManager`. A method returns the manager beside its result.
-- Where backends are dropped, it also returns them in the order in which they go (dropping a native
-- one calls `destroy` of its table). `name_index` is an association list. `wasm_enabled` is the
-- crate's feature of that name.
pub mod Invariant
pub mod View
pub mod Loading
pub mod Unloading
pub mod Reachable
mod Tests
use kalidokit_rust.Base.{
  ℕ, zero, suc, ◌+◌, String, Option, none, some, List, [], ◌∷◌, ◌++◌, Bool, true, false, ◌&&◌, map,
  if◌then◌else◌, str_eq, length, get_elem?, set, lookup, insert, remove, contains_key,
}
use kalidokit_rust.Base.Result.{Result, ok, err, map_err, ok_or, ◌>>=◌}
use kalidokit_rust.Dynplug.Platform.{FilePath, Os, lib_extension, derive_name_from_path, unwrap_or}
use kalidokit_rust.Dynplug.Backend.{
  Host, Bytes, PluginError, duplicate_name, not_found, io, LoadedLibrary, Backend, native,
  load_library, vtable, wasm_load, wasm_load_manifest, backend_name, kind, library, backend_invoke,
}

module _ (host : Host) where
  open host use {Manifest}

  -- `ManagedPlugin` holds the backend alone.
  pub record PluginManager : Type 0 where
    pub name_index : List (String × ℕ)
    pub plugins : List (Option (Backend host))

  unfoldable pub new : PluginManager
  new = record { name_index = []; plugins = [] }

  -- Lines 74-79, 108-112 and 135-139.
  unfoldable pub register : PluginManager → String → Backend host → PluginManager
  register m name backend = record {
    plugins = m.plugins ++ some backend ∷ [];
    name_index = insert name (length m.plugins) m.name_index;
  }

  -- The check for duplicates, and the registration.
  unfoldable pub admit :
      PluginManager → String → Backend host → PluginManager × Result PluginError (Unit {0})
  unfolding register
  admit m name backend =
      if contains_key name m.name_index
      then (m, err (duplicate_name name))
      else (register m name backend, ok tt)

  -- Lines 53-66: the name, and the table if the library has one.
  unfoldable pub resolve : Os → LoadedLibrary host → FilePath → Backend host
  resolve os lib path = elim (vtable host lib none) [
    | ok vt ↦ native (unwrap_or (vt.name lib.lib) "unknown") lib (some vt)
    | err _ ↦ native (derive_name_from_path os path) lib none
  ]

  unfoldable pub load_file :
      Os → PluginManager → FilePath → PluginManager × Result PluginError (Unit {0})
  unfolding admit resolve
  load_file os m path = elim (load_library host path) [
    | err e ↦ (m, err e)
    | ok lib ↦ let backend = resolve os lib path in admit m (backend_name host backend) backend
  ]

  unfoldable pub load_wasm :
      PluginManager → FilePath → PluginManager × Result PluginError (Unit {0})
  unfolding admit
  load_wasm m path = elim (wasm_load host path) [
    | err e ↦ (m, err e)
    | ok backend ↦ admit m (backend_name host backend) backend
  ]

  unfoldable pub load_wasm_manifest :
      PluginManager → String → Manifest → Bool → PluginManager × Result PluginError (Unit {0})
  unfolding admit
  load_wasm_manifest m name manifest wasi = elim (wasm_load_manifest host name manifest wasi) [
    | err e ↦ (m, err e)
    | ok backend ↦ admit m name backend
  ]

  -- `match … { Ok(_) => count += 1, Err(e) => warn }`.
  abbrev tally : PluginManager × Result PluginError (Unit {0}) → ℕ → PluginManager × ℕ
  tally (m, ok _) count = (m, count + 1)
  tally (m, err _) count = (m, count)

  -- One entry of the directory: the body of the loop.
  unfoldable pub load_entry : Os → Bool → Option FilePath → PluginManager → ℕ → PluginManager × ℕ
  load_entry os wasm_enabled none m count = (m, count)
  load_entry os wasm_enabled (some path) m count =
      let ext = unwrap_or path.extension "" in
      if host.is_file path
      then (let (m', count') =
            if str_eq ext (lib_extension os)
            then tally (load_file os m path) count
            else (m, count) in
          if wasm_enabled && str_eq ext "wasm"
          then tally (load_wasm m' path) count'
          else (m', count'))
      else (m, count)

  unfoldable pub load_entries :
      Os → Bool → List (Option FilePath) → PluginManager → ℕ → PluginManager × ℕ
  load_entries os wasm_enabled [] m count = (m, count)
  load_entries os wasm_enabled (entry ∷ rest) m count =
      let (m', count') = load_entry os wasm_enabled entry m count in
      load_entries os wasm_enabled rest m' count'

  unfoldable pub load_from_directory :
      Os → Bool → PluginManager → FilePath → PluginManager × Result PluginError ℕ
  load_from_directory os wasm_enabled m dir = elim (host.read_dir dir) [
    | err e ↦ (m, err (io e))
    | ok entries ↦ let (m', count) = load_entries os wasm_enabled entries m 0 in (m', ok count)
  ]

  -- The `?` of the loop leaves the plugins of the earlier directories loaded.
  unfoldable pub load_directories :
      Os → Bool → PluginManager → List FilePath → ℕ → PluginManager × Result PluginError ℕ
  load_directories os wasm_enabled m [] total = (m, ok total)
  load_directories os wasm_enabled m (dir ∷ dirs) total =
      let (m', r) = load_from_directory os wasm_enabled m dir in
      elim r [ err e ↦ (m', err e) | ok n ↦ load_directories os wasm_enabled m' dirs (total + n) ]

  unfoldable pub load_from_directories :
      Os → Bool → PluginManager → List FilePath → PluginManager × Result PluginError ℕ
  unfolding load_directories
  load_from_directories os wasm_enabled m dirs = load_directories os wasm_enabled m dirs 0

  unfoldable pub try_load_auto :
      Os → Bool → PluginManager → FilePath → PluginManager × Result PluginError (Unit {0})
  try_load_auto os wasm_enabled m path =
      if wasm_enabled && str_eq (unwrap_or path.extension "") "wasm"
      then load_wasm m path
      else load_file os m path

  unfoldable pub load_each :
      Os → Bool → PluginManager → List FilePath → ℕ → PluginManager × Result PluginError ℕ
  load_each os wasm_enabled m [] count = (m, ok count)
  load_each os wasm_enabled m (path ∷ paths) count =
      let (scanned, r) = load_from_directory os wasm_enabled m path in
      let (m', count') = tally (try_load_auto os wasm_enabled m path) count in
      let go_on = λ (n : PluginManager) (c : ℕ). load_each os wasm_enabled n paths c in
      if host.is_dir path
      then elim r [ err e ↦ (scanned, err e) | ok n ↦ go_on scanned (count + n) ]
      else if host.is_file path
      then go_on m' count'
      else go_on m count

  unfoldable pub load_paths :
      Os → Bool → PluginManager → List FilePath → PluginManager × Result PluginError ℕ
  unfolding load_each
  load_paths os wasm_enabled m paths = load_each os wasm_enabled m paths 0

  abbrev join {ℓ} : {A : Type ℓ} → Option (Option A) → Option A
  join (some o) = o
  join none = none

  abbrev and_then : {A B : Type 0} → Option A → (A → Option B) → Option B
  and_then none f = none
  and_then (some a) f = f a

  -- `self.name_index.get(name)`, then `self.plugins[idx].as_ref()`. (The index is in range.)
  unfoldable pub find : PluginManager → String → Option (Backend host)
  find m name = and_then (lookup name m.name_index) (λ idx. join (get_elem? m.plugins idx))

  unfoldable pub call :
      PluginManager → String → Bytes → ℕ → Backend host → PluginManager × Result PluginError Bytes
  call m method input idx backend =
      let (r, after) = backend_invoke host backend method input in
      (record m { plugins = set m.plugins idx (some after) }, r)

  unfoldable pub invoke :
      PluginManager → String → String → Bytes → PluginManager × Result PluginError Bytes
  unfolding call
  invoke m plugin_name method input = elim (lookup plugin_name m.name_index) [
    | none ↦ (m, err (not_found plugin_name))
    | some idx ↦ elim (join (get_elem? m.plugins idx)) [
      | none ↦ (m, err (not_found plugin_name))
      | some backend ↦ call m method input idx backend
    ]
  ]

  unfoldable pub get : PluginManager → String → Option (LoadedLibrary host)
  get m name = and_then (find m name) (library host)

  abbrev pub names : PluginManager → List String
  names m = map (λ e. e.0) m.name_index

  -- `filter_map` over the slots.
  abbrev pub live : List (Option (Backend host)) → List (Backend host)
  live [] = []
  live (none ∷ slots) = live slots
  live (some b ∷ slots) = b ∷ live slots

  libraries : List (Backend host) → List (LoadedLibrary host)
  libraries [] = []
  libraries (b ∷ bs) =
      let rest = libraries bs in elim (library host b) [ none ↦ rest | some l ↦ l ∷ rest ]

  unfoldable pub plugins : PluginManager → List (LoadedLibrary host)
  unfolding libraries
  plugins m = libraries (live m.plugins)

  unfoldable pub plugin_kind : PluginManager → String → Option String
  plugin_kind m name = and_then (find m name) (λ b. some (kind host b))

  -- `take` of a slot: what it held is dropped.
  abbrev dropped : Option (Option (Backend host)) → List (Backend host)
  dropped none = []
  dropped (some none) = []
  dropped (some (some b)) = b ∷ []

  unfoldable pub unload :
      PluginManager → String → PluginManager × Result PluginError (Unit {0}) × List (Backend host)
  unload m name = elim (lookup name m.name_index) [
    | none ↦ (m, err (not_found name), [])
    | some idx ↦ (
      record { name_index = remove name m.name_index; plugins = set m.plugins idx none },
      ok tt,
      dropped (get_elem? m.plugins idx),
    )
  ]

  -- `for i in (0..n).rev() { self.plugins[i].take(); }`: the slots, and what is dropped.
  unfoldable pub take_slots :
      ℕ → List (Option (Backend host)) → List (Option (Backend host)) × List (Backend host)
  take_slots zero slots = (slots, [])
  take_slots (suc i) slots =
      let (slots', rest) = take_slots i (set slots i none) in
      (slots', dropped (get_elem? slots i) ++ rest)

  unfoldable pub unload_all : PluginManager → PluginManager × List (Backend host)
  unfolding take_slots
  unload_all m =
      let (_, gone) = take_slots (length m.plugins) m.plugins in
      (record { name_index = []; plugins = [] }, gone)
