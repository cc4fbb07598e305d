-- ===== src/Dynplug/Manager/Loading.antt =====
-- Loading many plugins (crates/dynplug/src/manager.rs): the counts, and the manager
-- after failures of single plugins.
use kalidokit_rust.Base.{
  ℕ, ◌+◌, ◌≡◌, ◌⊎◌, refl, ap, Option, none, some, List, [], ◌∷◌, ◌++◌, Bool, true, false, ◌&&◌, inl,
  inr, arith, Bool-cases, length, length-append, str_eq, if◌then◌else◌, contains_key,
}
use kalidokit_rust.Base.Result.{Result, ok, err, Result-cases}
use kalidokit_rust.Dynplug.Platform.{FilePath, Os, lib_extension, unwrap_or}
use kalidokit_rust.Dynplug.Backend.{
  Host, PluginError, Backend, backend_name, load_library, wasm_load,
}
use kalidokit_rust.Dynplug.Manager.{
  PluginManager, register, admit, resolve, load_file, load_wasm, tally, load_entry, load_entries,
  load_from_directory, load_directories, load_from_directories, try_load_auto, load_each,
  load_paths, live,
}
use kalidokit_rust.Dynplug.Manager.Invariant.{IsValid, admit-IsValid}

module _ (host : Host) where
  live-append :
      (xs ys : List (Option (Backend host))) → live host (xs ++ ys) ≡ live host xs ++ live host ys
  live-append [] ys = refl
  live-append (none ∷ xs) ys = live-append xs ys
  live-append (some b ∷ xs) ys = ap (◌∷◌ b) (live-append xs ys)

  -- The manager stays well formed, and as many plugins came as the count grew by.
  abbrev pub Loaded : PluginManager host → ℕ → PluginManager host × ℕ → Type 0
  Loaded m count (m', count') =
      IsValid host m'
      × (length (live host m'.plugins) + count ≡ length (live host m.plugins) + count')

  admit-Loaded :
      (m : PluginManager host) (b : Backend host) (count : ℕ)
      → IsValid host m
      → Loaded m count (tally host (admit host m (backend_name host b) b) count)
  unfolding admit register
  admit-Loaded m b count v = elim (Bool-cases (contains_key (backend_name host b) m.name_index)) [
    | inl e ↦ rw e (v, refl)
    | inr e ↦ rw e (
      rw e at (admit-IsValid host m b v),
      omega (
        arith,
        ap length (live-append m.plugins (some b ∷ [])),
        length-append (live host m.plugins) (b ∷ []),
      ),
    )
  ]

  load_file-Loaded :
      (os : Os) (m : PluginManager host) (path : FilePath) (count : ℕ)
      → IsValid host m
      → Loaded m count (tally host (load_file host os m path) count)
  unfolding load_file
  load_file-Loaded os m path count v = elim (Result-cases (load_library host path)) [
    | inl (lib, e) ↦ rw (e, load_file) (admit-Loaded m (resolve host os lib path) count v)
    | inr (x, e) ↦ rw (e, load_file) (v, refl)
  ]

  load_wasm-Loaded :
      (m : PluginManager host) (path : FilePath) (count : ℕ)
      → IsValid host m
      → Loaded m count (tally host (load_wasm host m path) count)
  unfolding load_wasm
  load_wasm-Loaded m path count v = elim (Result-cases (wasm_load host path)) [
    | inl (b, e) ↦ rw (e, load_wasm) (admit-Loaded m b count v)
    | inr (x, e) ↦ rw (e, load_wasm) (v, refl)
  ]

  Loaded-trans :
      (m m' : PluginManager host) (c c' : ℕ) (r : PluginManager host × ℕ)
      → Loaded m c (m', c')
      → Loaded m' c' r
      → Loaded m c r
  Loaded-trans m m' c c' (m'', c'') p q = (q.0, omega arith)

  load_entry-Loaded :
      (os : Os) (wasm_enabled : Bool) (entry : Option FilePath) (m : PluginManager host) (count : ℕ)
      → IsValid host m
      → Loaded m count (load_entry host os wasm_enabled entry m count)
  unfolding load_entry
  load_entry-Loaded os w none m count v = (v, refl)
  load_entry-Loaded os w (some path) m count v = elim (Bool-cases (host.is_file path)) [
    | inr e ↦ rw e (v, refl)
    | inl e ↦
        rw e (second (first (Bool-cases (str_eq (unwrap_or path.extension "") (lib_extension os)))))
  ]
    where
      after : PluginManager host × ℕ
      after =
          if str_eq (unwrap_or path.extension "") (lib_extension os)
          then tally host (load_file host os m path) count
          else (m, count)

      first :
          (str_eq (unwrap_or path.extension "") (lib_extension os) ≡ true)
            ⊎ (str_eq (unwrap_or path.extension "") (lib_extension os) ≡ false)
          → Loaded m count after
      first (inl h) = rw h (load_file-Loaded os m path count v)
      first (inr h) = rw h (v, refl)

      second :
          Loaded m count after
          → Loaded m count (
              if w && str_eq (unwrap_or path.extension "") "wasm"
              then tally host (load_wasm host after.0 path) after.1
              else after)
      second l = elim (Bool-cases (w && str_eq (unwrap_or path.extension "") "wasm")) [
        | inl h ↦
            rw h
              (Loaded-trans m after.0 count after.1 _ l (load_wasm-Loaded after.0 path after.1 l.0))
        | inr h ↦ rw h l
      ]

  load_entries-Loaded :
      (os : Os) (w : Bool) (entries : List (Option FilePath)) (m : PluginManager host) (count : ℕ)
      → IsValid host m
      → Loaded m count (load_entries host os w entries m count)
  unfolding load_entries
  load_entries-Loaded os w [] m count v = (v, refl)
  load_entries-Loaded os w (e ∷ es) m count v =
      let r = load_entry host os w e m count in
      let l = load_entry-Loaded os w e m count v in
      Loaded-trans m r.0 count r.1 _ l (load_entries-Loaded os w es r.0 r.1 l.0)

  -- What a call that counts has done: it returns how many plugins came, and on an error the
  -- manager is well formed all the same.
  abbrev pub Counted : PluginManager host → ℕ → PluginManager host × Result PluginError ℕ → Type 0
  Counted m count (m', ok n) = Loaded m count (m', n)
  Counted m count (m', err e) = IsValid host m'

  pub load_from_directory-Counted :
      (os : Os) (w : Bool) (m : PluginManager host) (dir : FilePath)
      → IsValid host m
      → Counted m 0 (load_from_directory host os w m dir)
  unfolding load_from_directory
  load_from_directory-Counted os w m dir v = elim (Result-cases (host.read_dir dir)) [
    | inl (es, e) ↦ rw (e, load_from_directory) (load_entries-Loaded os w es m 0 v)
    | inr (x, e) ↦ rw (e, load_from_directory) v
  ]

  shift :
      (m m' : PluginManager host) (count c : ℕ) (r : PluginManager host × Result PluginError ℕ)
      → Loaded m count (m', c)
      → Counted m' c r
      → Counted m count r
  shift m m' count c (m'', err e) l h = h
  shift m m' count c (m'', ok t) l h = (h.0, omega arith)

  -- `count += …?` and the rest of the loop.
  add-Counted :
      (m : PluginManager host) (count : ℕ) (r : PluginManager host × Result PluginError ℕ)
      (next : PluginManager host → ℕ → PluginManager host × Result PluginError ℕ)
      → Counted m 0 r
      → ((m' : PluginManager host) (t : ℕ) → IsValid host m' → Counted m' t (next m' t))
      → Counted m count (elim r.1 [ err e ↦ (r.0, err e) | ok n ↦ next r.0 (count + n) ])
  add-Counted m count (m', err e) next v k = v
  add-Counted m count (m', ok n) next (v, c) k =
      shift m m' count (count + n) (next m' (count + n)) (v, omega arith) (k m' (count + n) v)

  load_directories-Counted :
      (os : Os) (w : Bool) (m : PluginManager host) (dirs : List FilePath) (total : ℕ)
      → IsValid host m
      → Counted m total (load_directories host os w m dirs total)
  unfolding load_directories
  load_directories-Counted os w m [] total v = (v, refl)
  load_directories-Counted os w m (d ∷ ds) total v =
      add-Counted m total (load_from_directory host os w m d)
        (λ m' t. load_directories host os w m' ds t) (load_from_directory-Counted os w m d v)
        (λ m' t v'. load_directories-Counted os w m' ds t v')

  try_load_auto-Loaded :
      (os : Os) (w : Bool) (m : PluginManager host) (path : FilePath) (count : ℕ)
      → IsValid host m
      → Loaded m count (tally host (try_load_auto host os w m path) count)
  unfolding try_load_auto
  try_load_auto-Loaded os w m path count v =
      elim (Bool-cases (w && str_eq (unwrap_or path.extension "") "wasm")) [
        | inl h ↦ rw h (load_wasm-Loaded m path count v)
        | inr h ↦ rw h (load_file-Loaded os m path count v)
      ]

  load_each-Counted :
      (os : Os) (w : Bool) (m : PluginManager host) (paths : List FilePath) (count : ℕ)
      → IsValid host m
      → Counted m count (load_each host os w m paths count)
  unfolding load_each
  load_each-Counted os w m [] count v = (v, refl)
  load_each-Counted os w m (p ∷ ps) count v = elim (Bool-cases (host.is_dir p)) [
    | inl d ↦ rw d (
        add-Counted m count (load_from_directory host os w m p)
          (λ m' t. load_each host os w m' ps t) (load_from_directory-Counted os w m p v)
          (λ m' t v'. load_each-Counted os w m' ps t v'))
    | inr d ↦ rw d (elim (Bool-cases (host.is_file p)) [
      | inl f ↦ rw f (
          let r = tally host (try_load_auto host os w m p) count in
          let l = try_load_auto-Loaded os w m p count v in
          shift m r.0 count r.1 (load_each host os w r.0 ps r.1) l
            (load_each-Counted os w r.0 ps r.1 l.0))
      | inr f ↦ rw f (load_each-Counted os w m ps count v)
    ])
  ]

  -- Loading from a mix of directories and files into a well-formed manager, whatever fails on the
  -- way: the manager stays well formed, and the number that is returned is how many plugins it gained.
  pub load_paths-Counted :
      (os : Os) (wasm_enabled : Bool) (m : PluginManager host) (paths : List FilePath)
      → IsValid host m
      → Counted m 0 (load_paths host os wasm_enabled m paths)
  unfolding load_paths
  load_paths-Counted os w m paths v = load_each-Counted os w m paths 0 v

  -- Loading from several directories into a well-formed manager: the manager stays well formed, also where one of them cannot be
  -- read and the call fails after others have been loaded, and the number that is returned is how
  -- many plugins it gained.
  pub load_from_directories-Counted :
      (os : Os) (wasm_enabled : Bool) (m : PluginManager host) (dirs : List FilePath)
      → IsValid host m
      → Counted m 0 (load_from_directories host os wasm_enabled m dirs)
  unfolding load_from_directories
  load_from_directories-Counted os w m dirs v = load_directories-Counted os w m dirs 0 v
