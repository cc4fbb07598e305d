-- ===== src/Speech/Denoise/Framing.antt =====
-- `AudioDenoiser` (crates/speech-capture/src/denoise.rs): its output over several calls.
use kalidokit_rust.Base.{
  ℕ, zero, suc, ◌≤◌, ◌<◌, ◌≡◌, refl, sym, ◌∙◌, ap, List, [], ◌∷◌, ◌++◌, append_assoc, arith, length,
  length-append, length-drop, take, drop, leb, leb→le, le→leb, leb→lt, lt→leb, Bool-cases, inl, inr,
}
use kalidokit_rust.Speech.Denoise.{
  Numbers, AudioDenoiser, input_chunk, denoise_chunk, denoise_loop, process,
}

take-append_le {ℓ} :
    {A : Type ℓ} (n : ℕ) (xs ys : List A) → n ≤ length xs → take n (xs ++ ys) ≡ take n xs
take-append_le zero xs ys h = refl
take-append_le (suc n) [] ys h = absurd (omega arith)
take-append_le (suc n) (x ∷ xs) ys h = ap (◌∷◌ x) (take-append_le n xs ys (omega arith))

drop-append_le {ℓ} :
    {A : Type ℓ} (n : ℕ) (xs ys : List A) → n ≤ length xs → drop n (xs ++ ys) ≡ drop n xs ++ ys
drop-append_le zero xs ys h = refl
drop-append_le (suc n) [] ys h = absurd (omega arith)
drop-append_le (suc n) (x ∷ xs) ys h = drop-append_le n xs ys (omega arith)

module _ {Sample F D : Type 0} (numbers : Numbers Sample F)
    (process_frame : D → List F → D × List F) where
  abbrev loop : ℕ → D → List Sample → D × (List Sample × List Sample)
  loop = denoise_loop numbers process_frame

  abbrev step : D → List Sample → D × List Sample
  step s buf = denoise_chunk numbers process_frame s (take input_chunk buf)

  -- One round.
  loop-full :
      (fuel : ℕ) (s : D) (buf : List Sample)
      → input_chunk ≤ length buf
      → let rest = denoise_loop numbers process_frame fuel (step s buf).0 (drop input_chunk buf) in
        denoise_loop numbers process_frame (suc fuel) s buf
        ≡ (rest.0, (rest.1.0, (step s buf).1 ++ rest.1.1))
  unfolding denoise_loop
  loop-full fuel s buf h = rw (le→leb input_chunk (length buf) h) refl

  loop-short :
      (fuel : ℕ) (s : D) (buf : List Sample)
      → length buf < input_chunk
      → denoise_loop numbers process_frame fuel s buf ≡ (s, (buf, []))
  unfolding denoise_loop
  loop-short zero s buf h = refl
  loop-short (suc fuel) s buf h = rw (lt→leb input_chunk (length buf) h) refl

  -- More fuel than there is input changes nothing.
  loop-fuel :
      (f g : ℕ) (s : D) (buf : List Sample)
      → length buf ≤ f
      → length buf ≤ g
      → denoise_loop numbers process_frame f s buf ≡ denoise_loop numbers process_frame g s buf
  loop-fuel zero g s buf h k =
      loop-short zero s buf (omega arith) ∙ sym (loop-short g s buf (omega arith))
  loop-fuel (suc f) zero s buf h k =
      loop-short (suc f) s buf (omega arith) ∙ sym (loop-short zero s buf (omega arith))
  loop-fuel (suc f) (suc g) s buf h k = elim (Bool-cases (leb input_chunk (length buf))) [
    | inl e ↦
        let full = leb→le input_chunk (length buf) e in
        loop-full f s buf full
        ∙ rw
            (loop-fuel f g (step s buf).0 (drop input_chunk buf)
              (omega (arith, length-drop input_chunk buf))
              (omega (arith, length-drop input_chunk buf)))
            (sym (loop-full g s buf full))
    | inr e ↦
        let short = leb→lt input_chunk (length buf) e in
        loop-short (suc f) s buf short ∙ sym (loop-short (suc g) s buf short)
  ]

  abbrev then_loop : D × (List Sample × List Sample) → List Sample → D × (List Sample × List Sample)
  then_loop first more =
      let buf = first.1.0 ++ more in
      let second = denoise_loop numbers process_frame (length buf) first.0 buf in
      (second.0, (second.1.0, first.1.1 ++ second.1.1))

  loop-append :
      (fuel : ℕ) (s : D) (buf more : List Sample)
      → length buf ≤ fuel
      → denoise_loop numbers process_frame (length (buf ++ more)) s (buf ++ more)
        ≡ then_loop (denoise_loop numbers process_frame fuel s buf) more
  loop-append zero s buf more h = rw (loop-short zero s buf (omega arith)) refl
  loop-append (suc fuel) s buf more h = elim (Bool-cases (leb input_chunk (length buf))) [
    | inl e ↦
        let full = leb→le input_chunk (length buf) e in
        let whole = length (buf ++ more) in
        let left = drop input_chunk buf in
        let chunk = step s buf in
        let rest = denoise_loop numbers process_frame fuel chunk.0 left in
        let size = length-append buf more in
        loop-fuel whole (suc whole) s (buf ++ more) (omega arith) (omega arith)
        ∙ loop-full whole s (buf ++ more) (omega (arith, size))
        ∙ rw (take-append_le input_chunk buf more full, drop-append_le input_chunk buf more full)
            (rw
              (
                loop-fuel whole (length (left ++ more)) chunk.0 (left ++ more)
                    (omega (arith, size, length-append left more, length-drop input_chunk buf))
                    (omega arith),
                loop-append fuel chunk.0 left more (omega (arith, length-drop input_chunk buf)),
              )
              (rw (loop-full fuel s buf full) (
                ap
                  (λ (out : List Sample).
                    ((then_loop rest more).0, ((then_loop rest more).1.0, out)))
                  (sym (append_assoc chunk.1 rest.1.1 _)))))
    | inr e ↦ rw (loop-short (suc fuel) s buf (leb→lt input_chunk (length buf) e)) refl
  ]

  -- The samples of two calls in one call: the output is that of both, one after the other, and what the
  -- denoiser keeps is the same.
  pub process-append :
      (self : AudioDenoiser Sample D) (xs ys : List Sample)
      → let first = process numbers process_frame self xs in
        let second = process numbers process_frame first.0 ys in
        process numbers process_frame self (xs ++ ys) ≡ (second.0, first.1 ++ second.1)
  unfolding process
  process-append self xs ys =
      let buf = self.in_buf ++ xs in
      rw (← append_assoc self.in_buf xs ys)
        (rw (loop-append (length buf) self.state buf ys (omega arith)) refl)
