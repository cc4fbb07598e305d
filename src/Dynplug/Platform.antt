-- ===== src/Dynplug/Platform.antt =====
-- crates/dynplug/src/platform.rs, and `derive_name_from_path` of crates/dynplug/src/manager.rs.
-- A path is what the code reads of it: its stem and its extension, each if it is there and is
-- UTF-8, and the text that errors show.
mod Tests
use Prim.Native.String
use Prim.Native.Char.{code, Char}
use kalidokit_rust.Base.{
  ℕ, ◌≡◌, refl, Bool, true, false, not, ◌&&◌, String, Option, none, some, ◌==◌, if◌then◌else◌,
  str_eq,
}

pub record FilePath : Type 0 where
  pub display : String
  pub file_stem : Option String
  pub extension : Option String

-- `cfg!(target_os = …)`.
pub data Os : Type 0 where
  windows macos other : Os

unfoldable pub lib_extension : Os → String
lib_extension windows = "dll"
lib_extension macos = "dylib"
lib_extension other = "so"

unfoldable pub lib_prefix : Os → String
lib_prefix windows = ""
lib_prefix _ = "lib"

-- `str::strip_prefix`.
unfoldable pub strip_prefix : String → String → Option String
strip_prefix String.[] s = some s
strip_prefix (String.◌∷◌ c p) String.[] = none
strip_prefix (String.◌∷◌ c p) (String.◌∷◌ d s) = if code c == code d then strip_prefix p s else none

abbrev pub unwrap_or {ℓ} : {A : Type ℓ} → Option A → A → A
unwrap_or none d = d
unwrap_or (some a) d = a

unfoldable pub derive_name_from_path : Os → FilePath → String
unfolding lib_prefix strip_prefix
derive_name_from_path os path =
    let stem = unwrap_or path.file_stem "unknown" in
    let prefix = lib_prefix os in
    if not (str_eq prefix "") then unwrap_or (strip_prefix prefix stem) stem else stem

unfoldable pub append : String → String → String
append String.[] t = t
append (String.◌∷◌ c s) t = String.◌∷◌ c (append s t)

-- `str::replace('-', "_")`.
unfoldable pub underscored : String → String
underscored String.[] = String.[]
underscored (String.◌∷◌ c s) =
    if code c == b'-' then append "_" (underscored s) else String.◌∷◌ c (underscored s)

-- The file name of a crate's library, by its parts: what stands before the last dot, and after it.
unfoldable pub lib_filename : Os → String → FilePath
unfolding append underscored lib_prefix lib_extension
lib_filename os crate_name =
    let stem = append (lib_prefix os) (underscored crate_name) in
    record {
      display = append stem (append "." (lib_extension os));
      file_stem = some stem;
      extension = some (lib_extension os);
    }

-- On each platform, the name that is derived from the file name of a crate's library is the crate's
-- name with its hyphens as underscores.
pub derive_name-lib_filename :
    (os : Os) (crate_name : String)
    → derive_name_from_path os (lib_filename os crate_name) ≡ underscored crate_name
unfolding derive_name_from_path lib_filename
derive_name-lib_filename windows crate_name = refl
derive_name-lib_filename macos crate_name = refl
derive_name-lib_filename other crate_name = refl
