-- ===== src/Dynplug/Manager/View.antt =====
-- `PluginManager` as a map from names to plugins, which `find` reads: each method of
-- crates/dynplug/src/manager.rs that changes it, as an update of that map.
use kalidokit_rust.Base.{
  ℕ, ◌≡◌, ◌≢◌, ◌⊎◌, refl, sym, ap, ◌∙◌, String, none, some, [], ◌∷◌, inl, inr, arith, Bool-cases,
  Option-cases, length, get_elem?, set, lookup, remove, contains_key_of_none, contains_key_of_some,
  lookup-insert, lookup-remove, str_eq, eq_iff, get_elem?-append_left, get_elem?-append_last,
  get_elem?-set_self, get_elem?-set_ne, lt-length_of_get, if◌then◌else◌,
}
use kalidokit_rust.Base.Result.{ok, err}
use kalidokit_rust.Dynplug.Backend.{
  Host, Bytes, not_found, duplicate_name, Backend, backend_name, backend_invoke,
}
use kalidokit_rust.Dynplug.Manager.{PluginManager, register, admit, unload, invoke, find}
use kalidokit_rust.Dynplug.Manager.Invariant.{IsValid, slot_ne}

module _ (host : Host) where
  find_at :
      (m : PluginManager host) (n : String) (i : ℕ) (b : Backend host)
      → lookup n m.name_index ≡ some i
      → get_elem? m.plugins i ≡ some (some b)
      → find host m n ≡ some b
  unfolding find
  find_at m n i b h at = rw (h, find) (rw at)

  find_missing :
      (m : PluginManager host) (n : String) → lookup n m.name_index ≡ none → find host m n ≡ none
  unfolding find
  find_missing m n h = rw (h, find)

  -- Under the invariant a name is in the index exactly when there is a plugin.
  find_cases :
      (m : PluginManager host) (n : String)
      → IsValid host m
      → ((lookup n m.name_index ≡ none) × (find host m n ≡ none))
        ⊎ ((i : ℕ) × (b : Backend host) × (lookup n m.name_index ≡ some i)
            × (get_elem? m.plugins i ≡ some (some b))
            × (find host m n ≡ some b))
  find_cases m n v = elim (Option-cases (lookup n m.name_index)) [
    | inl e ↦ inl (e, find_missing m n e)
    | inr (i, e) ↦ let (b, at, _) = v.indexed n i e in inr (i, b, e, at, find_at m n i b e at)
  ]

  -- Admission of a plugin under its name to a well-formed manager: a name that is taken is refused
  -- and nothing changes; otherwise the map gains the plugin under its name, and every other name is as it was.
  pub find-admit :
      (m : PluginManager host) (b : Backend host)
      → IsValid host m
      → let name = backend_name host b in
        let (m', r) = admit host m name b in
        ((find host m name ≢ none) × (m' ≡ m) × (r ≡ err (duplicate_name name)))
        ⊎ ((find host m name ≡ none)
            × (r ≡ ok tt)
            × ((n : String) → find host m' n ≡ (if str_eq name n then some b else find host m n)))
  unfolding admit register
  find-admit m b v = elim (find_cases m (backend_name host b) v) [
    | inr (i, c, e, _, f) ↦ inl (
      (λ q. cc (f, q)),
      rw (contains_key_of_some (backend_name host b) m.name_index i e),
      rw (contains_key_of_some (backend_name host b) m.name_index i e),
    )
    | inl (e, f) ↦ inr (
      f,
      rw (contains_key_of_none (backend_name host b) m.name_index e),
      λ n. rw (contains_key_of_none (backend_name host b) m.name_index e) (at n e),
    )
  ]
    where
      at :
          (n : String)
          → lookup (backend_name host b) m.name_index ≡ none
          → find host (register host m (backend_name host b) b) n
            ≡ (if str_eq (backend_name host b) n then some b else find host m n)
      at n fresh = elim (Bool-cases (str_eq (backend_name host b) n)) [
        | inl e ↦ rw e (
            find_at (register host m (backend_name host b) b) n (length m.plugins) b
              (lookup-insert (backend_name host b) n (length m.plugins) m.name_index ∙ rw e refl)
              (get_elem?-append_last m.plugins (some b)))
        | inr e ↦ rw e (elim (find_cases m n v) [
          | inl (l, f) ↦
              find_missing (register host m (backend_name host b) b) n
                (lookup-insert (backend_name host b) n (length m.plugins) m.name_index ∙ rw e l)
              ∙ sym f
          | inr (i, c, l, g, f) ↦
              find_at (register host m (backend_name host b) b) n i c
                (lookup-insert (backend_name host b) n (length m.plugins) m.name_index ∙ rw e l)
                (get_elem?-append_left m.plugins (some b ∷ []) i
                    (lt-length_of_get m.plugins i (some c) g)
                  ∙ g)
              ∙ sym f
        ])
      ]

  -- In a well-formed manager, unloading a plugin takes its name off the map, leaves every other plugin as it is, and drops
  -- that plugin and no other; a name that no plugin has is `NotFound`, and nothing changes.
  pub find-unload :
      (m : PluginManager host) (name : String)
      → IsValid host m
      → let (m', r, gone) = unload host m name in
        ((find host m name ≡ none) × (m' ≡ m) × (r ≡ err (not_found name)) × (gone ≡ []))
        ⊎ ((b : Backend host) × (find host m name ≡ some b)
            × (r ≡ ok tt)
            × (gone ≡ b ∷ [])
            × ((n : String) → find host m' n ≡ (if str_eq name n then none else find host m n)))
  unfolding unload
  find-unload m name v = elim (find_cases m name v) [
    | inl (e, f) ↦ inl (f, rw (e, unload), rw (e, unload), rw (e, unload))
    | inr (i, b, e, at, f) ↦
        inr (b, f, rw (e, unload), rw (e, unload) (rw at), λ n. rw (e, unload) (others i b e n))
  ]
    where
      others :
          (i : ℕ) (b : Backend host)
          → lookup name m.name_index ≡ some i
          → (n : String)
          → find host
              (record { name_index = remove name m.name_index; plugins = set m.plugins i none })
              n
            ≡ (if str_eq name n then none else find host m n)
      others i b e n = elim (Bool-cases (str_eq name n)) [
        | inl q ↦ rw q (find_missing _ n (lookup-remove name n m.name_index ∙ rw q refl))
        | inr q ↦ rw q (elim (find_cases m n v) [
          | inl (l, f) ↦ find_missing _ n (lookup-remove name n m.name_index ∙ rw q l) ∙ sym f
          | inr (j, c, l, g, f) ↦
              find_at _ n j c (lookup-remove name n m.name_index ∙ rw q l) (
                get_elem?-set_ne m.plugins i j none
                  (slot_ne host m name n i j v e l (λ p. ground (arith, eq_iff name n)))
                ∙ g)
              ∙ sym f
        ])
      ]

  -- In a well-formed manager, a call goes to the plugin of that name alone: the result is that plugin's, its state is what
  -- the call leaves, every other plugin is as it was, and an unknown name is `NotFound` with
  -- nothing changed.
  pub find-invoke :
      (m : PluginManager host) (name method : String) (input : Bytes)
      → IsValid host m
      → let (m', r) = invoke host m name method input in
        ((find host m name ≡ none) × (m' ≡ m) × (r ≡ err (not_found name)))
        ⊎ ((b : Backend host) × (find host m name ≡ some b)
            × (r ≡ (backend_invoke host b method input).0)
            × ((n : String)
                → find host m' n ≡ (
                    if str_eq name n
                    then some (backend_invoke host b method input).1
                    else find host m n)))
  unfolding invoke
  find-invoke m name method input v = elim (find_cases m name v) [
    | inl (e, f) ↦ inl (f, rw (e, invoke), rw (e, invoke))
    | inr (i, b, e, at, f) ↦ inr (
      b,
      f,
      rw (e, invoke) (rw (at, invoke)),
      λ n. rw (e, invoke) (rw (at, invoke) (others i b e at n)),
    )
  ]
    where
      others :
          (i : ℕ) (b : Backend host)
          → lookup name m.name_index ≡ some i
          → get_elem? m.plugins i ≡ some (some b)
          → (n : String)
          → find host
              (record m { plugins = set m.plugins i (some (backend_invoke host b method input).1) })
              n
            ≡ (if str_eq name n then some (backend_invoke host b method input).1 else find host m n)
      others i b e at n = elim (Bool-cases (str_eq name n)) [
        | inl q ↦ rw q (
            find_at _ n i _
              (ap (λ (k : String). lookup k m.name_index) (sym ((eq_iff name n).0 q)) ∙ e)
              (get_elem?-set_self m.plugins i _ (lt-length_of_get m.plugins i (some b) at)))
        | inr q ↦ rw q (elim (find_cases m n v) [
          | inl (l, f) ↦ find_missing _ n l ∙ sym f
          | inr (j, c, l, g, f) ↦
              find_at _ n j c l (
                get_elem?-set_ne m.plugins i j _
                  (slot_ne host m name n i j v e l (λ p. ground (arith, eq_iff name n)))
                ∙ g)
              ∙ sym f
        ])
      ]
