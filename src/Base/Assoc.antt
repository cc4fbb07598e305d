-- ===== src/Base/Assoc.antt =====
-- A hash map with text keys as an association list: `contains_key`, `get`, `insert`, `remove`.
use Prim.Native.String.{String}
use mathlib.Core.Path.{◌≡◌, refl, sym, ap, ◌∙◌}
use mathlib.Core.Logic.{inl, inr}
use mathlib.Core.Bool.{Bool, true, false}
use mathlib.Core.List.{List, [], ◌∷◌}
use mathlib.Core.Option.{Option, none, some, some-injective}
use native.Mathlib.Omega.{arith}
use text.Mathlib.Text.{◌==◌ as str_eq}
use text.Mathlib.TextEquality.{eq_iff}
use kalidokit_rust.Base.Tests.{if◌then◌else◌, Bool-cases}
use kalidokit_rust.Base.Lists.{All}

-- The entries, each key with its value.
abbrev pub Entries {ℓ} : Type ℓ → Type ℓ
Entries V = List (String × V)

module _ {ℓ} {V : Type ℓ} where
  unfoldable pub lookup : String → Entries V → Option V
  lookup key [] = none
  lookup key ((other, value) ∷ entries) =
      if str_eq other key then some value else lookup key entries

  -- A key that is there keeps its place.
  unfoldable pub insert : String → V → Entries V → Entries V
  insert key value [] = (key, value) ∷ []
  insert key value ((other, old) ∷ entries) =
      if str_eq other key then (key, value) ∷ entries else (other, old) ∷ insert key value entries

  -- Every entry of the key goes.
  unfoldable pub remove : String → Entries V → Entries V
  remove key [] = []
  remove key ((other, value) ∷ entries) =
      let rest = remove key entries in if str_eq other key then rest else (other, value) ∷ rest

  unfoldable pub contains_key : String → Entries V → Bool
  contains_key key entries = elim (lookup key entries) [ none ↦ false | some _ ↦ true ]

  pub lookup-remove :
      (key asked : String) (entries : Entries V)
      → lookup asked (remove key entries)
        ≡ (if str_eq key asked then none else lookup asked entries)
  unfolding lookup remove
  lookup-remove key asked [] = ground arith
  lookup-remove key asked ((other, value) ∷ entries) = ground (
    arith,
    lookup-remove key asked entries,
    eq_iff key asked,
    eq_iff other key,
    eq_iff other asked,
  )

  pub lookup-insert :
      (key asked : String) (value : V) (entries : Entries V)
      → lookup asked (insert key value entries)
        ≡ (if str_eq key asked then some value else lookup asked entries)
  unfolding insert lookup
  lookup-insert key asked value [] = refl
  lookup-insert key asked value ((other, old) ∷ entries) = ground (
    arith,
    lookup-insert key asked value entries,
    eq_iff key asked,
    eq_iff other asked,
    eq_iff other key,
  )

  pub contains_key_of_none :
      (k : String) (m : List (String × V)) → lookup k m ≡ none → contains_key k m ≡ false
  unfolding contains_key
  contains_key_of_none k m h = rw (h, contains_key)

  pub contains_key_of_some :
      (k : String) (m : List (String × V)) (v : V) → lookup k m ≡ some v → contains_key k m ≡ true
  unfolding contains_key
  contains_key_of_some k m v h = rw (h, contains_key)

-- A table of names: what is found under a text has that text as its name.
pub lookup_of_names {ℓ} :
    {V : Type ℓ} (name : V → String) (m : List (String × V)) (k : String) (v : V)
    → All (λ e. e.0 ≡ name e.1) m
    → lookup k m ≡ some v
    → k ≡ name v
unfolding lookup
lookup_of_names name [] k v a h = cc
lookup_of_names name ((j, w) ∷ m) k v a h = elim (Bool-cases (str_eq j k)) [
  | inl on ↦ sym ((eq_iff j k).0 on) ∙ a.0 ∙ ap name (some-injective _ _ (rw on at h))
  | inr off ↦ lookup_of_names name m k v a.1 (rw off at h)
]
