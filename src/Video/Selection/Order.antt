-- ===== src/Video/Selection/Order.antt =====
-- Which backend `create_session` (crates/video-decoder/src/backend/mod.rs) ends with.
use kalidokit_rust.Base.{
  ◌≡◌, refl, ap, ◌⊎◌, inl, inr, true, ◌++◌, none, some, List, [], ◌∷◌, String, All, Bool-cases,
  append_assoc, All-append,
}
use kalidokit_rust.Base.Result.{Result, ok, err, Result-cases}
use kalidokit_rust.Video.Types.{VideoError, no_hw_decoder, Backend, software}
use kalidokit_rust.Video.Selection.{
  NativeHandle, SessionConfig, Build, Support, detect_backends, create_with_backend, try_each,
  create_auto, create_session, when,
}

module _ {Session : Type 0} (build : Build)
    (open_session : Backend → Result VideoError Session) where
  abbrev pub Fails : Backend → Type 0
  Fails b = (e : VideoError) × (create_with_backend build open_session b ≡ err e)

  -- The session is that of the first backend of the list which does not fail.
  abbrev pub FirstWorking : List Backend → Session → Type 0
  FirstWorking backends s =
      (before : List Backend) × (b : Backend) × (after : List Backend) × (backends
        ≡ before ++ b ∷ after)
      × All Fails before
      × (create_with_backend build open_session b ≡ ok s)

  try_each-cases :
      (backends : List Backend)
      → ((s : Session) × (try_each build open_session backends ≡ some s) × FirstWorking backends s)
        ⊎ ((try_each build open_session backends ≡ none) × All Fails backends)
  unfolding try_each
  try_each-cases [] = inr (refl, tt)
  try_each-cases (b ∷ rest) = elim (Result-cases (create_with_backend build open_session b)) [
    | inl (s, e) ↦ inl (s, rw (e, try_each) refl, ([], b, rest, refl, tt, e))
    | inr (x, e) ↦ elim (try_each-cases rest) [
      | inl (s, h, (before, c, after, split, fail, works)) ↦
          inl
            (s, rw (e, try_each) h, (b ∷ before, c, after, ap (◌∷◌ b) split, ((x, e), fail), works))
      | inr (h, fail) ↦ inr (rw (e, try_each) h, ((x, e), fail))
    ]
  ]

  -- The backend tried last, if any.
  abbrev pub fallback : SessionConfig → List Backend
  fallback config = when config.allow_software_fallback software

  FirstWorking-append :
      (xs ys : List Backend) (s : Session) → FirstWorking xs s → FirstWorking (xs ++ ys) s
  FirstWorking-append xs ys s (before, b, after, split, fail, works) =
      (before, b, after ++ ys, rw split (append_assoc before (b ∷ after) ys), fail, works)

  abbrev TriedInOrder : Support → NativeHandle → SessionConfig → Result VideoError Session → Type 0
  TriedInOrder support handle config result =
      let tried = detect_backends build support handle ++ fallback config in
      ((s : Session) × (result ≡ ok s) × FirstWorking tried s)
      ⊎ ((e : VideoError) × (result ≡ err e) × All Fails tried)

  create_auto-order :
      (support : Support) (handle : NativeHandle) (config : SessionConfig)
      → TriedInOrder support handle config (create_auto build open_session support handle config)
  unfolding create_auto
  create_auto-order support handle config =
      let candidates = detect_backends build support handle in
      elim (try_each-cases candidates) [
        | inl (s, e, first) ↦
            inl (s, rw (e, create_auto) refl, FirstWorking-append candidates _ s first)
        | inr (e, fail) ↦ elim (Bool-cases config.allow_software_fallback) [
          | inr off ↦ inr (
            no_hw_decoder,
            rw (e, create_auto) (rw off refl),
            All-append Fails candidates _ fail (rw off tt),
          )
          | inl on ↦ elim (Result-cases (create_with_backend build open_session software)) [
            | inl (s, works) ↦ inl (
              s,
              rw (e, create_auto) (rw (on, works) refl),
              (candidates, software, [], rw on refl, fail, works),
            )
            | inr (x, fails) ↦ inr (
              x,
              rw (e, create_auto) (rw (on, fails) refl),
              All-append Fails candidates _ fail (rw on ((x, fails), tt)),
            )
          ]
        ]
      ]

  -- A file that exists and no preferred backend: the candidates for the handle are tried in order, and
  -- after them, where the configuration allows it, the software backend. The session is that of
  -- the first of these that does not fail, and there is an error exactly where all of them fail.
  pub create_session-order :
      (support : Support) (path : String) (handle : NativeHandle) (config : SessionConfig)
      → config.preferred_backend ≡ none
      → let tried = detect_backends build support handle ++ fallback config in
        let result = create_session build open_session support true path handle config in
        ((s : Session) × (result ≡ ok s) × FirstWorking tried s)
        ⊎ ((e : VideoError) × (result ≡ err e) × All Fails tried)
  unfolding create_session
  create_session-order support path handle config free =
      rw free (create_auto-order support handle config)
