-- ===== src/Dynplug/Manager/Invariant.antt =====
-- The well-formedness of `PluginManager` (crates/dynplug/src/manager.rs), method by method.
use kalidokit_rust.Base.{
  ℕ, ◌<◌, ◌≡◌, ◌≢◌, refl, sym, ap, ◌∙◌, String, none, some, List, [], ◌∷◌, true, false, inl, inr,
  arith, ℕ_discrete, Bool-cases, Option-cases, length, get_elem?, set, lookup, remove, contains_key,
  lookup-insert, lookup-remove, str_eq, eq_iff, get_elem?-snoc_inv, get_elem?-append_left,
  get_elem?-append_last, get_elem?-set_self, get_elem?-set_ne, lt-length_of_get,
}
use mathlib.Core.Option.{some-injective}
use kalidokit_rust.Dynplug.Backend.{
  Host, Bytes, Backend, native, wasm, backend_name, backend_invoke,
}
use kalidokit_rust.Dynplug.Manager.{PluginManager, new, register, admit, unload, unload_all, invoke}

module _ (host : Host) where
  -- Names in the index and plugins in the slots are the same, one for one.
  pub record IsValid (m : PluginManager host) : Type 0 where
    pub indexed :
        (n : String) (i : ℕ)
        → lookup n m.name_index ≡ some i
        → (b : Backend host) × (get_elem? m.plugins i ≡ some (some b)) × (backend_name host b ≡ n)
    pub named :
        (i : ℕ) (b : Backend host)
        → get_elem? m.plugins i ≡ some (some b)
        → lookup (backend_name host b) m.name_index ≡ some i

  pub new-IsValid : IsValid (new host)
  unfolding new lookup
  new-IsValid = record { indexed = λ n i h. cc; named = λ i b h. cc }

  eq_of_str_eq : (s t : String) → str_eq s t ≡ true → s ≡ t
  eq_of_str_eq s t h = (eq_iff s t).0 h

  register-indexed :
      (m : PluginManager host) (b : Backend host) (n : String) (i : ℕ)
      → IsValid m
      → lookup n (register host m (backend_name host b) b).name_index ≡ some i
      → (c : Backend host) × (get_elem? (register host m (backend_name host b) b).plugins i
          ≡ some (some c))
        × (backend_name host c ≡ n)
  unfolding register
  register-indexed m b n i v h = elim (Bool-cases (str_eq (backend_name host b) n)) [
    | inl e ↦
        let at : i ≡ length m.plugins =
          ground (arith, lookup-insert (backend_name host b) n (length m.plugins) m.name_index) in
        (b, rw at (get_elem?-append_last m.plugins (some b)), eq_of_str_eq _ _ e)
    | inr e ↦
        let (c, at, name) =
          v.indexed n i (
            ground
              (arith, lookup-insert (backend_name host b) n (length m.plugins) m.name_index)) in
        (
          c,
          get_elem?-append_left m.plugins (some b ∷ []) i (lt-length_of_get m.plugins i (some c) at)
              ∙ at,
          name,
        )
  ]

  register-named :
      (m : PluginManager host) (b : Backend host) (i : ℕ) (c : Backend host)
      → IsValid m
      → lookup (backend_name host b) m.name_index ≡ none
      → get_elem? (register host m (backend_name host b) b).plugins i ≡ some (some c)
      → lookup (backend_name host c) (register host m (backend_name host b) b).name_index ≡ some i
  unfolding register
  register-named m b i c v fresh h = elim (get_elem?-snoc_inv m.plugins (some b) i (some c) h) [
    | inl e ↦ ground (
      arith,
      v.named i c e,
      eq_iff (backend_name host b) (backend_name host c),
      lookup-insert (backend_name host b) (backend_name host c) (length m.plugins) m.name_index,
    )
    | inr (e, f) ↦ ground (
      arith,
      f,
      eq_iff (backend_name host b) (backend_name host c),
      lookup-insert (backend_name host b) (backend_name host c) (length m.plugins) m.name_index,
    )
  ]

  pub register-IsValid :
      (m : PluginManager host) (b : Backend host)
      → IsValid m
      → lookup (backend_name host b) m.name_index ≡ none
      → IsValid (register host m (backend_name host b) b)
  register-IsValid m b v fresh = record {
    indexed = λ n i h. register-indexed m b n i v h;
    named = λ i c h. register-named m b i c v fresh h;
  }

  absent : (n : String) (m : List (String × ℕ)) → contains_key n m ≡ false → lookup n m ≡ none
  unfolding contains_key
  absent n m h = ground arith

  pub admit-IsValid :
      (m : PluginManager host) (b : Backend host)
      → IsValid m
      → IsValid (admit host m (backend_name host b) b).0
  unfolding admit
  admit-IsValid m b v = elim (Bool-cases (contains_key (backend_name host b) m.name_index)) [
    | inl e ↦ rw e v
    | inr e ↦ rw e (register-IsValid m b v (absent (backend_name host b) m.name_index e))
  ]

  unload_index :
      (m : PluginManager host) (name : String) (idx : ℕ)
      → lookup name m.name_index ≡ some idx
      → (unload host m name).0
        ≡ record { name_index = remove name m.name_index; plugins = set m.plugins idx none }
  unfolding unload
  unload_index m name idx h = rw (h, unload)

  unload_missing :
      (m : PluginManager host) (name : String)
      → lookup name m.name_index ≡ none
      → (unload host m name).0 ≡ m
  unfolding unload
  unload_missing m name h = rw (h, unload)

  -- Two names of one slot are the same.
  name_of_slot :
      (m : PluginManager host) (n k : String) (i : ℕ)
      → IsValid m
      → lookup n m.name_index ≡ some i
      → lookup k m.name_index ≡ some i
      → n ≡ k
  name_of_slot m n k i v hn hk =
      let (b, at, e) = v.indexed n i hn in let (c, at', f) = v.indexed k i hk in cc

  pub slot_ne :
      (m : PluginManager host) (n k : String) (i j : ℕ)
      → IsValid m
      → lookup n m.name_index ≡ some i
      → lookup k m.name_index ≡ some j
      → n ≢ k
      → i ≢ j
  slot_ne m n k i j v hn hk ne e = ne (name_of_slot m n k i v hn (rw e hk))

  removed-IsValid :
      (m : PluginManager host) (name : String) (idx : ℕ)
      → IsValid m
      → lookup name m.name_index ≡ some idx
      → IsValid (record { name_index = remove name m.name_index; plugins = set m.plugins idx none })
  removed-IsValid m name idx v h = record {
    indexed = λ n i k. elim (Bool-cases (str_eq name n)) [
      | inl e ↦ ground (arith, lookup-remove name n m.name_index)
      | inr e ↦
          let kept : lookup n m.name_index ≡ some i =
            ground (arith, lookup-remove name n m.name_index) in
          let (b, at, e') = v.indexed n i kept in
          (
            b,
            get_elem?-set_ne m.plugins idx i none
                  (slot_ne m name n idx i v h kept (λ q. ground (arith, eq_iff name n)))
                ∙ at,
            e',
          )
    ];
    named = λ i b k. other i b k;
  }
    where
      bound : idx < length m.plugins
      bound = let (b, at, _) = v.indexed name idx h in lt-length_of_get m.plugins idx (some b) at

      other :
          (i : ℕ) (b : Backend host)
          → get_elem? (set m.plugins idx none) i ≡ some (some b)
          → lookup (backend_name host b) (remove name m.name_index) ≡ some i
      other i b k = elim (ℕ_discrete idx i) [
        | yes e ↦ cc (
          k,
          ap (get_elem? (set m.plugins idx none)) e,
          get_elem?-set_self m.plugins idx none bound,
        )
        | no ne ↦
            let at = v.named i b (sym (get_elem?-set_ne m.plugins idx i none ne) ∙ k) in
            let differ : name ≢ backend_name host b = λ q.
              ne (some-injective _ _ (sym h ∙ ap (λ (k : String). lookup k m.name_index) q ∙ at)) in
            ground (
              arith,
              at,
              lookup-remove name (backend_name host b) m.name_index,
              eq_iff name (backend_name host b),
            )
      ]

  pub unload-IsValid :
      (m : PluginManager host) (name : String) → IsValid m → IsValid (unload host m name).0
  unload-IsValid m name v = elim (Option-cases (lookup name m.name_index)) [
    | inl e ↦ rw (unload_missing m name e) v
    | inr (idx, e) ↦ rw (unload_index m name idx e) (removed-IsValid m name idx v e)
  ]

  pub unload_all-IsValid : (m : PluginManager host) → IsValid (unload_all host m).0
  unfolding unload_all lookup
  unload_all-IsValid m = record { indexed = λ n i h. cc; named = λ i b h. cc }

  -- A call changes the plugin's memory, not its name.
  pub backend_name-invoke :
      (b : Backend host) (method : String) (input : Bytes)
      → backend_name host (backend_invoke host b method input).1 ≡ backend_name host b
  unfolding backend_invoke
  backend_name-invoke (native name library none) method input = refl
  backend_name-invoke (native name library (some vt)) method input = refl
  backend_name-invoke (wasm name plugin path) method input = refl

  -- A plugin may be put in the place of one of its name.
  pub replaced-IsValid :
      (m : PluginManager host) (idx : ℕ) (b c : Backend host)
      → IsValid m
      → get_elem? m.plugins idx ≡ some (some b)
      → backend_name host c ≡ backend_name host b
      → IsValid (record m { plugins = set m.plugins idx (some c) })
  replaced-IsValid m idx b c v at same = record { indexed = indexed'; named = named' }
    where
      here : get_elem? (set m.plugins idx (some c)) idx ≡ some (some c)
      here = get_elem?-set_self m.plugins idx (some c) (lt-length_of_get m.plugins idx (some b) at)

      indexed' :
          (n : String) (i : ℕ)
          → lookup n m.name_index ≡ some i
          → (d : Backend host) × (get_elem? (set m.plugins idx (some c)) i ≡ some (some d))
            × (backend_name host d ≡ n)
      indexed' n i h = elim (ℕ_discrete idx i) [
        | yes e ↦
            let (d, at', name) = v.indexed n i h in
            (
              c,
              ap (get_elem? (set m.plugins idx (some c))) (sym e) ∙ here,
              same ∙ cc (at, at', name, ap (get_elem? m.plugins) e),
            )
        | no ne ↦
            let (d, at', name) = v.indexed n i h in
            (d, get_elem?-set_ne m.plugins idx i (some c) ne ∙ at', name)
      ]

      named' :
          (i : ℕ) (d : Backend host)
          → get_elem? (set m.plugins idx (some c)) i ≡ some (some d)
          → lookup (backend_name host d) m.name_index ≡ some i
      named' i d h = elim (ℕ_discrete idx i) [
        | yes e ↦ cc (
          v.named idx b at,
          same,
          here,
          h,
          ap (get_elem? (set m.plugins idx (some c))) e,
          ap some e,
        )
        | no ne ↦ v.named i d (sym (get_elem?-set_ne m.plugins idx i (some c) ne) ∙ h)
      ]

  pub invoke-IsValid :
      (m : PluginManager host) (name method : String) (input : Bytes)
      → IsValid m
      → IsValid (invoke host m name method input).0
  unfolding invoke
  invoke-IsValid m name method input v = elim (Option-cases (lookup name m.name_index)) [
    | inl e ↦ rw (e, invoke) v
    | inr (idx, e) ↦
        let (b, at, _) = v.indexed name idx e in
        rw (e, invoke)
          (rw (at, invoke)
            (replaced-IsValid m idx b (backend_invoke host b method input).1 v at
              (backend_name-invoke b method input)))
  ]
