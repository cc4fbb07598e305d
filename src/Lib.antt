-- ===== src/Lib.antt =====
-- Verification library for parts of kalidokit-rust: the logic of the avatar application that stands
-- apart from GPUs, neural networks, audio devices and floating point.
--
-- Parts, and the files that model them (paths are those of the repository):
-- - crates/speech-capture/src/segmenter.rs, the voice segmenter: Segmenter. Frames with a voice flag
--   come in, speech events go out. `feed_with_raw` is split along its match: `dispatch`, `on_silence`
--   for silence while speaking, `on_trailing` for more silence, `finish` for the end of a segment.
--   Samples and probabilities are type parameters. The predictor is a function with a state of its own.
-- - crates/dynplug, plugins: Dynplug.Platform (file names), Dynplug.Backend (one loaded plugin, native
--   or WebAssembly), Dynplug.Manager (`PluginManager`, each method by its name). What the repository
--   does not hold is the record `Host`: the dynamic loader, plugin code, Extism and the file system.
--   A method returns the manager beside its result, and with it the plugins that are dropped.
-- - crates/video-decoder: Video.Types (errors, codecs, backends); Video.AnnexB (`avcc_to_annex_b`,
--   `annex_b_from_avcc_extra`); Video.SampleTable (`build_sample_table`); Video.Mp4 (`next_packet`,
--   `seek`, `extract_video_info` of `Mp4Demuxer`, which use the other two) and Video.Mp4.Open (`new`,
--   `create_demuxer`); Video.Dpb (`DpbManager` of util/ring_buffer.rs); Video.Playback (`PlaybackState`
--   of util/timestamp.rs); Video.Selection (`create_session` of backend/mod.rs); Video.Session
--   (`SwVideoSession` of backend/software.rs, which drives the demuxer and the playback clock; openh264
--   is a parameter), with Session.Create (`new`) and Session.Calls (`seek` and the other methods).
-- - crates/speech-capture/src: Speech.Worker and Speech.Worker.Loop (`vad_worker` of lib.rs, which feeds
--   the segmenter and hands its events on; the voice detector, the noise suppression, the detector of
--   the end of a turn and the transcription are the record `Env`), Speech.Worker.Stream (the samples
--   and chunks described apart from the buffers), Speech.Filter (the decisions of speech_filter.rs),
--   Speech.Denoise (`AudioDenoiser` of denoise.rs).
-- - crates/lua-imgui/src/commands.rs: LuaImgui.Commands (`replay_nested`, `replay_inner` and the widget
--   outputs). Dear ImGui is the record `Ui`.
-- - crates/app/src/mascot.rs: App.Mascot (`MascotState`, with the calls on the window as a list);
--   auto_blink.rs: App.AutoBlink (`AutoBlink`, each method by its name, the match of `update` by phase).
-- - crates/vrm: Vrm.Bone and Vrm.BlendShape (names), Vrm.BoneGroup (groups and tracking weights).
-- - crates/go-plugin/src/protocol.rs: GoPlugin.Protocol (the negotiation line, version lists, the magic
--   cookie), over GoPlugin.Digits (u32 as text) and GoPlugin.Fields (split, join and trim);
--   secure.rs: GoPlugin.Secure, the check of a checksum, and GoPlugin.Secure.Hex, its text. rpc_server.rs:
--   GoPlugin.RpcServer (`serve_conn`, `handle_request`), with MessagePack as a parameter,
--   and RpcServer.Replies, a connection described as messages and replies.
-- - Base holds what these share: tests and lists over the native numbers, hash maps as association
--   lists, signed integers, texts, durations in nanoseconds, results,
--   `|` and `^` on the bits of a number.
--
-- Machine integers: the sample table wraps u64 offsets and times and u32 sample and chunk numbers;
-- presentation times are i64 with wrap-around; `silence_timeout_ms * 3` wraps at 2^32; sums of i32 wrap; durations
-- saturate where the source saturates. Lengths of lists in memory are not bounded.
--
-- Fuel: the loop of `avcc_to_annex_b` takes one more than the length of its input, and `none` is a run
-- without end; with a length prefix of one byte or more each round uses at least that byte, so the
-- fuel is enough. The loop of `decode_frame` takes one more than the number of samples, and a round
-- takes a sample or finds the end. The loop of `vad_worker` over chunks takes the length of the first
-- buffer, of which a round takes a hop; the loop of `process` takes that of its buffer, of which a
-- round takes 160 samples. `replay_inner` and `replay_nested` take fuel for more than the
-- number of commands, of which each call gets fewer. The text of a number takes ten digits, which hold
-- every u32. Other loops are recursion on their list or count.
--
-- Not modelled: rendering, tracking, solving, physics and blending (floating point), audio and
-- camera devices, bindings of C and Lua libraries, the copy of ImGuiColorTextEdit, the decoder
-- sessions of the systems, the processes, brokers and clients of the Go plugin crate, and the
-- application's event loop. Frame rates, tick conversions and weights, which are f64 or f32, are
-- parameters or type parameters of the models.
pub mod Base
pub mod Segmenter
pub mod Dynplug
pub mod Video
pub mod Vrm
pub mod GoPlugin
pub mod Speech
pub mod LuaImgui
pub mod App
