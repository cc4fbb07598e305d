-- ===== src/Video/Session/Calls.antt =====
-- The other methods of `SwVideoSession` (crates/video-decoder/src/backend/software.rs) that change a
-- session, and lists of calls.
use kalidokit_rust.Base.{Bool, List, [], ◌∷◌, String}
use kalidokit_rust.Base.Time.{Duration}
use kalidokit_rust.Base.Result.{Result, ok, err}
use kalidokit_rust.Video.Types.{VideoError}
use kalidokit_rust.Video.Mp4.{Reader, Conversions, seek_to}
use kalidokit_rust.Video.Playback.{PlaybackState, tick, check_end_of_stream}
use kalidokit_rust.Video.Playback
use kalidokit_rust.Video.Session.{Decoder, SwVideoSession, renew, decode_frame}

module _ {D Fps : Type 0} where
  unfoldable pub set_looping : SwVideoSession D Fps → Bool → SwVideoSession D Fps
  set_looping self looping = record self { playback = record self.playback { looping = looping } }

  unfoldable pub pause : SwVideoSession D Fps → SwVideoSession D Fps
  unfolding Playback.pause
  pause self = record self { playback = Playback.pause self.playback }

  unfoldable pub resume : SwVideoSession D Fps → SwVideoSession D Fps
  unfolding Playback.resume
  resume self = record self { playback = Playback.resume self.playback }

-- The methods that change a session.
pub data Call (D : Type 0) : Type 0 where
  frame : Result String D → Duration → Call D
  sought : Result String D → Duration → Call D
  looped : Bool → Call D
  paused resumed : Call D

module _ {D Fps : Type 0} (reader : Reader) (conv : Conversions) (decode_nal : Decoder D) where
  unfoldable pub seek :
      Result String D
      → SwVideoSession D Fps
      → Duration
      → SwVideoSession D Fps × Result VideoError (Unit {0})
  unfolding Playback.seek renew
  seek created self position = elim (seek_to conv self.demuxer position) [
    | err e ↦ (self, err e)
    | ok demuxer ↦
        renew reader conv decode_nal created
          (record self { demuxer = demuxer; playback = Playback.seek self.playback position })
  ]

  unfoldable pub call : Call D → SwVideoSession D Fps → SwVideoSession D Fps
  unfolding decode_frame seek set_looping pause resume
  call (frame created dt) self = (decode_frame reader conv decode_nal created self dt).0
  call (sought created position) self = (seek created self position).0
  call (looped looping) self = set_looping self looping
  call paused self = pause self
  call resumed self = resume self

  unfoldable pub calls : List (Call D) → SwVideoSession D Fps → SwVideoSession D Fps
  unfolding call
  calls [] self = self
  calls (c ∷ cs) self = calls cs (call c self)
