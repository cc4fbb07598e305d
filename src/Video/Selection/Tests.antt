-- ===== src/Video/Selection/Tests.antt =====
-- A Linux build whose Vulkan session does not open.
use kalidokit_rust.Base.{◌≡◌, refl, ◌⊎◌, ◌++◌, true, false, none, [], ◌∷◌, All}
use kalidokit_rust.Base.Result.{Result, ok, err}
use kalidokit_rust.Video.Types.{
  VideoError, file_not_found, decode, Backend, software, vulkan_video, v4l2,
}
use kalidokit_rust.Video.Selection.{
  vulkan, d3d12, SessionConfig, default_config, Build, linux, Support, is_windows, is_linux,
  vulkan_backends, detect_backends, compiled_in, create_with_backend, try_each, create_auto,
  create_session,
}
use kalidokit_rust.Video.Selection.Order.{FirstWorking, Fails, fallback, create_session-order}

abbrev build : Build
build = record { target_os = linux; gstreamer_feature = false; v4l2_feature = true }

abbrev support : Support
support = record { d3d12_supported = true; vulkan_supported = true; v4l2_supported = true }

candidates : detect_backends build support vulkan ≡ vulkan_video ∷ v4l2 ∷ []
unfolding detect_backends vulkan_backends
candidates = refl

nothing_on_linux : detect_backends build support d3d12 ≡ []
unfolding detect_backends is_windows
nothing_on_linux = refl

-- Only the software session opens.
abbrev open_session : Backend → Result VideoError Backend
open_session software = ok software
open_session _ = err (decode "no device")

abbrev config : SessionConfig
config = record {
  looping = true;
  preferred_backend = none;
  allow_software_fallback = true;
  decode_buffer_size = 4;
}

default_is_config : default_config ≡ config
unfolding default_config
default_is_config = refl

falls_back : create_session build open_session support true "v.mp4" vulkan config ≡ ok software
unfolding create_session create_auto detect_backends vulkan_backends try_each create_with_backend
    compiled_in is_linux
falls_back = refl

no_file :
    create_session build open_session support false "v.mp4" vulkan config
    ≡ err (file_not_found "v.mp4")
unfolding create_session
no_file = refl

create_session-order_example :
    ((s : Backend) × (create_session build open_session support true "v.mp4" vulkan config ≡ ok s)
      × FirstWorking build open_session
          (detect_backends build support vulkan ++ fallback build open_session config)
          s)
    ⊎ ((e : VideoError) × (create_session build open_session support true "v.mp4" vulkan config
          ≡ err e)
        × All
            (Fails build open_session)
            (detect_backends build support vulkan ++ fallback build open_session config))
create_session-order_example =
    create_session-order build open_session support "v.mp4" vulkan config refl
