-- ===== src/Video/Session/Buffer.antt =====
-- The buffer of `SwVideoSession` (crates/video-decoder/src/backend/software.rs) against the
-- dimensions in its `VideoInfo`.
use kalidokit_rust.Base.{
  ℕ, zero, suc, ◌*◌, ◌^◌, ◌<◌, ◌≡◌, refl, ◌∙◌, ap, ◌==◌, Option, some, List, ◌++◌, String, arith,
  inl, inr, Bool-cases, length, length-append, length-take_le,
}
use kalidokit_rust.Base.Time.{Duration}
use kalidokit_rust.Base.Result.{Result, ok}
use kalidokit_rust.Video.AnnexB.{Bytes}
use kalidokit_rust.Video.SampleTable.{u32, u64}
use kalidokit_rust.Video.Mp4.{Reader, Conversions}
use kalidokit_rust.Video.Mp4.Open.{Opened}
use kalidokit_rust.Video.Selection.{SessionConfig}
use kalidokit_rust.Video.Session.Create.{info_of, new, new-session_of, session_of}
use kalidokit_rust.Video.Session.Calls.{Call, calls}
use kalidokit_rust.Video.Session.{
  OutputTarget, Picture, Decoder, SwVideoSession, zeros, resize, fit, show,
}
use kalidokit_rust.Video.Session.Stable.{Stable, calls-Stable}

length-zeros : (n : ℕ) → length (zeros n) ≡ n
unfolding zeros
length-zeros zero = refl
length-zeros (suc n) = ap suc (length-zeros n)

length-resize : (bytes : Bytes) (n : ℕ) → length (resize bytes n) ≡ n
unfolding resize
length-resize bytes n =
    length-take_le n (bytes ++ zeros n)
      (omega (arith, length-append bytes (zeros n), length-zeros n))

-- Dimensions that fit u32 and a size that fits usize, of 64 bits. The write stays in the buffer.
pub record IsPicture (yuv : Picture) : Type 0 where
  pub width_fits : yuv.width < 2 ^ 32
  pub height_fits : yuv.height < 2 ^ 32
  pub size_fits : yuv.width * yuv.height * 4 < 2 ^ 64
  pub write_in_place : (buffer : Bytes) → length (yuv.write_rgba8 buffer) ≡ length buffer

abbrev pub BufferFits : {D Fps : Type 0} → SwVideoSession D Fps → Type 0
BufferFits s = length s.frame_buffer ≡ s.info.width * s.info.height * 4

module _ {D Fps : Type 0} (reader : Reader) (conv : Conversions) (decode_nal : Decoder D) where
  show-BufferFits :
      (yuv : Picture) (s : SwVideoSession D Fps)
      → IsPicture yuv
      → BufferFits s
      → BufferFits (show reader conv decode_nal yuv s)
  unfolding show fit
  show-BufferFits yuv s is h =
      let needed = u64 (yuv.width * yuv.height * 4) in
      elim (Bool-cases (length s.frame_buffer == needed)) [
        | inl e ↦ rw e (is.write_in_place s.frame_buffer ∙ h)
        | inr e ↦
            let w : u32 yuv.width ≡ yuv.width = omega (arith, is.width_fits) in
            let v : u32 yuv.height ≡ yuv.height = omega (arith, is.height_fits) in
            let n : needed ≡ yuv.width * yuv.height * 4 = omega (arith, is.size_fits) in
            rw e (
              is.write_in_place (resize s.frame_buffer needed)
              ∙ length-resize s.frame_buffer needed
              ∙ rw (w, v) n)
      ]

  module _
      (pictures : (decoder : D) (bytes : Bytes) (yuv : Picture)
        → (decode_nal decoder bytes).1 ≡ ok (some yuv)
        → IsPicture yuv) where
    BufferFits-Stable : Stable {Fps = Fps} reader conv decode_nal BufferFits
    BufferFits-Stable = record {
      next = λ s p. p;
      moved = λ s d position e p. p;
      fresh = λ s decoder p. p;
      timed = λ s playback p. p;
      marked = λ s ended p. p;
      shown = λ s yuv decoder bytes h p. show-BufferFits yuv s (pictures decoder bytes yuv h) p;
    }

    -- A session that `new` makes, after any calls: the buffer has the length of a picture, in RGBA, of
    -- the width and height that its information says. The size of the file's pictures fits usize; the
    -- decoder's pictures have dimensions that fit u32 and sizes that fit usize, and are written in
    -- place.
    pub calls-BufferFits :
        (interval_of : Fps → Option Duration) (opened : Opened Fps) (output : OutputTarget)
        (config : SessionConfig) (created : Result String D) (s : SwVideoSession D Fps)
        → opened.parameters.width * opened.parameters.height * 4 < 2 ^ 64
        → new interval_of (ok opened) output config created ≡ ok s
        → (cs : List (Call D)) → BufferFits (calls reader conv decode_nal cs s)
    unfolding session_of info_of
    calls-BufferFits interval_of opened output config created s small is_new cs =
        let (decoder, _, e) = new-session_of interval_of opened output config created s is_new in
        let size = opened.parameters.width * opened.parameters.height * 4 in
        let n : u64 size ≡ size = omega arith in
        calls-Stable reader conv decode_nal BufferFits BufferFits-Stable cs s
          (rw (← e) (length-zeros (u64 size) ∙ n))
