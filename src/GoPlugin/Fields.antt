-- ===== src/GoPlugin/Fields.antt =====
-- Texts of fields between separators: `str::split`, the joining that `format!` does, and `str::trim`.
use kalidokit_rust.Base.{
  ℕ, ◌≡◌, ◌≢◌, refl, ap, ◌∙◌, Bool, false, ◌&&◌, ◌||◌, List, [], ◌∷◌, ◌++◌, leb, if◌then◌else◌,
  ◌==◌, All, ==-refl,
}
use kalidokit_rust.Base.Text.{Text}

abbrev pub in_first : ℕ → List Text → List Text
in_first c [] = (c ∷ []) ∷ []
in_first c (part ∷ parts) = (c ∷ part) ∷ parts

unfoldable pub split : ℕ → Text → List Text
split sep [] = [] ∷ []
split sep (c ∷ s) = let rest = split sep s in if c == sep then [] ∷ rest else in_first c rest

unfoldable pub join : ℕ → List Text → Text
join sep [] = []
join sep (part ∷ []) = part
join sep (part ∷ next ∷ parts) = part ++ sep ∷ join sep (next ∷ parts)

-- `char::is_whitespace`.
unfoldable pub is_whitespace : ℕ → Bool
is_whitespace c =
    leb 9 c && leb c 13
    || c == 32
    || c == 133
    || c == 160
    || c == 5760
    || leb 8192 c && leb c 8202
    || c == 8232
    || c == 8233
    || c == 8239
    || c == 8287
    || c == 12288

unfoldable pub trim_start : Text → Text
unfolding is_whitespace
trim_start [] = []
trim_start (c ∷ s) = if is_whitespace c then trim_start s else c ∷ s

abbrev pub keep : ℕ → Text → Text
keep c [] = if is_whitespace c then [] else c ∷ []
keep c (d ∷ s) = c ∷ d ∷ s

unfoldable pub trim_end : Text → Text
trim_end [] = []
trim_end (c ∷ s) = keep c (trim_end s)

unfoldable pub trim : Text → Text
unfolding trim_start trim_end
trim s = trim_end (trim_start s)

-- A field without the separator.
abbrev pub IsField : ℕ → Text → Type 0
IsField sep s = All (λ c. (c == sep) ≡ false) s

split-field : (sep : ℕ) (s : Text) → IsField sep s → split sep s ≡ s ∷ []
unfolding split
split-field sep [] h = refl
split-field sep (c ∷ s) h = rw (h.0, split-field sep s h.1) refl

split-append : (sep : ℕ) (s t : Text) → IsField sep s → split sep (s ++ sep ∷ t) ≡ s ∷ split sep t
unfolding split
split-append sep [] t h = rw (==-refl sep) refl
split-append sep (c ∷ s) t h = rw (h.0, split-append sep s t h.1) refl

-- The fields that were joined come out again, where there are any and none of them has the separator.
pub split-join :
    (sep : ℕ) (parts : List Text)
    → parts ≢ []
    → All (IsField sep) parts
    → split sep (join sep parts) ≡ parts
unfolding join
split-join sep [] h a = absurd (h refl)
split-join sep (part ∷ []) h a = split-field sep part a.0
split-join sep (part ∷ next ∷ parts) h a =
    split-append sep part (join sep (next ∷ parts)) a.0
    ∙ ap (◌∷◌ part) (split-join sep (next ∷ parts) (λ e. cc) a.1)

-- A text that is not blank at either end.
abbrev pub Starts : Text → Type 0
Starts [] = ⊥
Starts (c ∷ s) = is_whitespace c ≡ false

abbrev pub Ends : Text → Type 0
Ends [] = ⊥
Ends (c ∷ []) = is_whitespace c ≡ false
Ends (c ∷ d ∷ s) = Ends (d ∷ s)

trim_end-Ends : (s : Text) → Ends s → trim_end s ≡ s
unfolding trim_end
trim_end-Ends [] h = elim h [ ]
trim_end-Ends (c ∷ []) h = rw h refl
trim_end-Ends (c ∷ d ∷ s) h = rw (trim_end-Ends (d ∷ s) h) refl

pub trim-kept : (s : Text) → Starts s → Ends s → trim s ≡ s
unfolding trim
trim-kept [] h e = elim h [ ]
trim-kept (c ∷ s) h e = rw h (trim_end-Ends (c ∷ s) e)

pub Ends-append : (s t : Text) → Ends t → Ends (s ++ t)
Ends-append [] t h = h
Ends-append (c ∷ []) [] h = elim h [ ]
Ends-append (c ∷ []) (d ∷ t) h = h
Ends-append (c ∷ d ∷ s) t h = Ends-append (d ∷ s) t h
