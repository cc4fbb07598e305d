-- ===== src/Video/Selection.antt =====
-- crates/video-decoder/src/backend/mod.rs, `create_session`, and `SessionConfig` of session.rs and
-- `NativeHandle` of handle.rs without their pointers and numbers, which the choice does not read.
-- What the compiler is configured for is a record, as is what the backends' own modules answer.
pub mod Order
mod Tests
use kalidokit_rust.Base.{
  ℕ, Bool, true, false, not, ◌||◌, ◌++◌, Option, none, some, List, [], ◌∷◌, String, if◌then◌else◌,
}
use kalidokit_rust.Base.Result.{Result, ok, err}
use kalidokit_rust.Video.Types.{
  VideoError, file_not_found, no_hw_decoder, Backend, video_toolbox, d3d12_video, media_foundation,
  vulkan_video, gstreamer_vaapi, v4l2, media_codec, software,
}

pub data NativeHandle : Type 0 where
  metal d3d12 d3d11 vulkan wgpu : NativeHandle

pub record SessionConfig : Type 0 where
  pub looping : Bool
  pub preferred_backend : Option Backend
  pub allow_software_fallback : Bool
  pub decode_buffer_size : ℕ

unfoldable pub default_config : SessionConfig
default_config = record {
  looping = true;
  preferred_backend = none;
  allow_software_fallback = true;
  decode_buffer_size = 4;
}

-- `cfg` of a build: the system, and the optional features.
pub data TargetOs : Type 0 where
  macos windows linux android other_os : TargetOs

pub record Build : Type 0 where
  pub target_os : TargetOs
  pub gstreamer_feature : Bool
  pub v4l2_feature : Bool

-- `is_supported` of the sessions that have it.
pub record Support : Type 0 where
  pub d3d12_supported : Bool
  pub vulkan_supported : Bool
  pub v4l2_supported : Bool

abbrev pub when : {A : Type 0} → Bool → A → List A
when true x = x ∷ []
when false x = []

-- The candidates on a Vulkan handle.
unfoldable pub vulkan_backends : Build → Support → List Backend
vulkan_backends build support = elim build.target_os [
  | linux ↦
      when support.vulkan_supported vulkan_video
      ++ when build.gstreamer_feature gstreamer_vaapi
      ++ (if build.v4l2_feature then when support.v4l2_supported v4l2 else [])
  | android ↦ media_codec ∷ []
  | macos ↦ []
  | windows ↦ []
  | other_os ↦ []
]

unfoldable pub is_windows : TargetOs → Bool
is_windows windows = true
is_windows _ = false

unfoldable pub is_linux : TargetOs → Bool
is_linux linux = true
is_linux _ = false

unfoldable pub detect_backends : Build → Support → NativeHandle → List Backend
unfolding vulkan_backends is_windows
detect_backends build support metal = video_toolbox ∷ []
detect_backends build support d3d12 =
    if is_windows build.target_os
    then when support.d3d12_supported d3d12_video ++ media_foundation ∷ []
    else []
detect_backends build support d3d11 = when (is_windows build.target_os) media_foundation
detect_backends build support vulkan = vulkan_backends build support
detect_backends build support wgpu = software ∷ []

-- The backends that are compiled in.
unfoldable pub compiled_in : Build → Backend → Bool
unfolding is_windows is_linux
compiled_in build software = true
compiled_in build video_toolbox = elim build.target_os [
  | macos ↦ true
  | windows ↦ false
  | linux ↦ false
  | android ↦ false
  | other_os ↦ false
]
compiled_in build d3d12_video = is_windows build.target_os
compiled_in build media_foundation = is_windows build.target_os
compiled_in build vulkan_video = is_linux build.target_os
compiled_in build gstreamer_vaapi =
    if is_linux build.target_os then build.gstreamer_feature else false
compiled_in build v4l2 = if is_linux build.target_os then build.v4l2_feature else false
compiled_in build media_codec = elim build.target_os [
  | android ↦ true
  | macos ↦ false
  | windows ↦ false
  | linux ↦ false
  | other_os ↦ false
]

-- `open_session` is the constructor of the session of a backend, on this path, output and
-- configuration.
module _ {Session : Type 0} (build : Build)
    (open_session : Backend → Result VideoError Session) where
  unfoldable pub create_with_backend : Backend → Result VideoError Session
  unfolding compiled_in
  create_with_backend backend =
      if compiled_in build backend then open_session backend else err no_hw_decoder

  -- The loop over the candidates; `none` where each of them failed.
  unfoldable pub try_each : List Backend → Option Session
  unfolding create_with_backend
  try_each [] = none
  try_each (backend ∷ rest) = elim (create_with_backend backend) [
    | ok session ↦ some session
    | err e ↦ try_each rest
  ]

  unfoldable pub create_auto : Support → NativeHandle → SessionConfig → Result VideoError Session
  unfolding detect_backends try_each
  create_auto support handle config = elim (try_each (detect_backends build support handle)) [
    | some session ↦ ok session
    | none ↦
        if config.allow_software_fallback then create_with_backend software else err no_hw_decoder
  ]

  -- Whether the file exists comes first.
  unfoldable pub create_session :
      Support → Bool → String → NativeHandle → SessionConfig → Result VideoError Session
  unfolding create_auto
  create_session support exists path handle config =
      if not exists then err (file_not_found path) else elim config.preferred_backend [
        | some backend ↦ create_with_backend backend
        | none ↦ create_auto support handle config
      ]
