-- ===== src/Video/Mp4/Open/Ready.antt =====
-- What `Mp4Demuxer::new` (crates/video-decoder/src/demux/mp4.rs) gives when it succeeds.
use kalidokit_rust.Base.{
  ℕ, suc, if_elim, Option, [], ◌∷◌, get_elem?, FirstAt, FirstAt-suc, arith, ◌<◌, ◌≤◌, ◌≡◌, refl, ap,
  ◌∙◌, some, List, String, Bool-cases, str_eq, ◌||◌, inl, inr,
}
use kalidokit_rust.Base.Result.{
  Result, ok, ok_or, map_err, bind_ok, ok_or-ok, map_err-ok, ok-injective, err-ne_ok,
}
use kalidokit_rust.Video.AnnexB.{Bytes}
use kalidokit_rust.Video.SampleTable.{SampleEntry, build_sample_table}
use kalidokit_rust.Video.Types.{demux, file_not_found}
use kalidokit_rust.Video.Mp4.{next_packet, extract_video_info, Reader, Conversions}
use kalidokit_rust.Video.Mp4.Packets.{
  after_calls, answer, next_packet-in_order, extract_video_info-nal_length,
}
use kalidokit_rust.Video.Mp4.Open.{
  opened_of, create_demuxer, ParsedTrack, File, Rates, Opened, failed, missing, find_video,
  open_track, new,
}

-- A demuxer before its first packet, over the samples of that track.
pub record IsReady {Fps : Type 0} (track : ParsedTrack) (o : Opened Fps) : Type 0 where
  pub at_start : o.demuxer.cursor ≡ 0
  pub its_samples : build_sample_table track.boxes ≡ ok o.demuxer.samples
  pub its_timescale : track.timescale ≡ some o.demuxer.timescale
  pub its_extra_data : o.parameters.extra_data ≡ o.demuxer.extra_data
  pub prefix_positive : 0 < o.demuxer.nal_length_size
  pub prefix_small : o.demuxer.nal_length_size ≤ 4

module _ {Fps : Type 0} (conv : Conversions) (rates : Rates Fps)
    (read_mp4 : Bytes → Result String (List ParsedTrack)) where
  open_track-IsReady :
      (track : ParsedTrack) (reopened : Result String Reader) (o : Opened Fps)
      → open_track conv rates read_mp4 track reopened ≡ ok o
      → IsReady track o
  unfolding open_track opened_of
  open_track-IsReady track reopened o h =
      let (stsd, has_stsd, h1) = bind_ok (ok_or track.stsd (demux "missing stsd box")) _ o h in
      let (info, is_info, h2) = bind_ok (extract_video_info stsd) _ o h1 in
      let (timescale, is_timescale, h3) =
        bind_ok (ok_or track.timescale (demux "missing track timescale")) _ o h2 in
      let (samples, are_samples, h4) =
        bind_ok (map_err missing (build_sample_table track.boxes)) _ o h3 in
      let (reader, is_reader, h5) =
        bind_ok (map_err (failed "failed to reopen file: ") reopened) _ o h4 in
      let (low, high) = extract_video_info-nal_length stsd info is_info in
      let e : opened_of conv rates read_mp4 track info timescale samples reader ≡ o =
        ok-injective h5 in
      rw (← e) (record {
        at_start = refl;
        its_samples = map_err-ok _ _ samples are_samples;
        its_timescale = ok_or-ok _ _ timescale is_timescale;
        its_extra_data = refl;
        prefix_positive = low;
        prefix_small = high;
      })

  find_video-FirstAt :
      (tracks : List ParsedTrack) (track : ParsedTrack)
      → find_video tracks ≡ some track
      → (i : ℕ) × (get_elem? tracks i ≡ some track) × FirstAt (λ t. t.is_video) tracks i
  unfolding find_video
  find_video-FirstAt [] track h = cc
  find_video-FirstAt (t ∷ ts) track h =
      if_elim
        (λ (found : Option ParsedTrack).
          found ≡ some track
          → (i : ℕ) × (get_elem? (t ∷ ts) i ≡ some track) × FirstAt (λ t. t.is_video) (t ∷ ts) i)
        t.is_video _ _ (λ on e. (0, e, (t, refl, on, λ j y lt at. absurd (omega (arith, lt)))))
        (λ off e.
          let (i, at, first) = find_video-FirstAt ts track e in
          (suc i, at, FirstAt-suc (λ t. t.is_video) t ts i off first))
        h

  pub new-track :
      (path : String) (file : File) (o : Opened Fps)
      → new conv rates read_mp4 path file ≡ ok o
      → (buf : Bytes) × (file.contents ≡ some (ok buf))
        × (tracks : List ParsedTrack) × (read_mp4 buf ≡ ok tracks)
        × (track : ParsedTrack) × (find_video tracks ≡ some track)
        × IsReady track o
  unfolding new
  new-track path file o h =
      let (read, opens, h1) = bind_ok (ok_or file.contents (file_not_found path)) _ o h in
      let (buf, reads, h2) = bind_ok (map_err (failed "failed to read file: ") read) _ o h1 in
      let (tracks, parses, h3) =
        bind_ok (map_err (failed "mp4parse error: ") (read_mp4 buf)) _ o h2 in
      let (track, found, h4) =
        bind_ok (ok_or (find_video tracks) (demux "no video track found")) _ o h3 in
      (
        buf,
        ok_or-ok file.contents (file_not_found path) read opens
            ∙ ap some (map_err-ok _ read buf reads),
        tracks,
        map_err-ok _ _ tracks parses,
        track,
        ok_or-ok _ _ track found,
        open_track-IsReady track file.reopened o h4,
      )

  -- A demuxer that `new` gives. The file opens, and has tracks; one of them is a video track, and none
  -- before it is; the demuxer is over the sample table of that track, has its time scale, hands the
  -- decoder the extra data it uses itself, and has a length prefix of 1 to 4 bytes. Of the calls of
  -- `next_packet` on it, whatever their results, the k-th from 0 on handles the k-th sample of that
  -- table, and says that there are no more packets when there is no such sample.
  pub new-in_order :
      (path : String) (file : File) (o : Opened Fps)
      → new conv rates read_mp4 path file ≡ ok o
      → (buf : Bytes) × (file.contents ≡ some (ok buf))
        × (tracks : List ParsedTrack) × (read_mp4 buf ≡ ok tracks)
        × (i : ℕ) × (track : ParsedTrack) × (get_elem? tracks i ≡ some track)
        × FirstAt (λ t. t.is_video) tracks i
        × (table : List SampleEntry) × (build_sample_table track.boxes ≡ ok table)
        × IsReady track o
        × ((k : ℕ)
            → (next_packet o.reader conv (after_calls o.reader conv k o.demuxer)).1
              ≡ answer o.reader conv o.demuxer (get_elem? table k))
  new-in_order path file o h =
      let (buf, reads, tracks, parses, track, found, ready) = new-track path file o h in
      let (i, at, first) = find_video-FirstAt tracks track found in
      (
        buf,
        reads,
        tracks,
        parses,
        i,
        track,
        at,
        first,
        o.demuxer.samples,
        ready.its_samples,
        ready,
        λ k.
            next_packet-in_order o.reader conv k o.demuxer
            ∙ ap (λ (n : ℕ). answer o.reader conv o.demuxer (get_elem? o.demuxer.samples n))
                (omega (arith, ready.at_start)),
      )

  pub create_demuxer-new :
      (extension path : String) (file : File) (o : Opened Fps)
      → create_demuxer conv rates read_mp4 extension path file ≡ ok o
      → new conv rates read_mp4 path file ≡ ok o
  unfolding create_demuxer
  create_demuxer-new extension path file o h =
      elim (Bool-cases
        (str_eq extension "mp4" || (str_eq extension "m4v" || str_eq extension "mov"))) [
          | inl e ↦ rw e at h
          | inr e ↦ absurd (err-ne_ok (rw e at h))
        ]
