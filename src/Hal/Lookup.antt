-- ===== src/Hal/Lookup.antt =====
-- Which file `hw_get_module_by_class` loads.
use xylitol.Common.{
  ◌-◌, ◌<◌, ◌≡◌, refl, ap, ◌∙◌, inl, inr, arith, Bool-cases, Option, none, some, List, [], ◌∷◌,
  ◌++◌, if◌then◌else◌, ltb, lt→ltb, take, length, Bytes,
}
use xylitol.Hal.{
  Host, enoent, hal_library_path2, ro_hardware, variant_keys, shashlik, default, Outcome, returned,
  undefined, load, module_path, hw_module_exists, or_next, try_property, try_variants,
  try_fallbacks, module_name, hw_get_module_by_class,
}

module _ (h : Host) where
  -- The values of the properties that are set, in the order of the keys.
  abbrev pub set_properties : List Bytes → List Bytes
  set_properties [] = []
  set_properties (key ∷ keys) =
      if ltb 0 (length (h.property key))
      then h.property key ∷ set_properties keys
      else set_properties keys

  -- The subnames in the order in which they are to be tried.
  abbrev pub subnames : Bytes → List Bytes
  subnames name =
      set_properties (take (h.property_key_max - 1) (ro_hardware ++ (b'.' ∷ name)) ∷ variant_keys)
      ++ (shashlik ∷ default ∷ [])

  -- For each of them the file in the vendor's directory, and then that in HAL_LIBRARY_PATH1.
  abbrev pub candidates : Bytes → Bytes → List Bytes → List Bytes
  candidates directory name [] = []
  candidates directory name (subname ∷ rest) =
      module_path h (hal_library_path2 h.lp64) name subname
      ∷ (module_path h directory name subname ∷ candidates directory name rest)

  abbrev pub first_readable : List Bytes → Option Bytes
  first_readable [] = none
  first_readable (path ∷ rest) = if h.readable path then some path else first_readable rest

  abbrev pub load_or : Bytes → Option Bytes → Outcome
  load_or class_id none = returned enoent none []
  load_or class_id (some path) = load h class_id path

  module _ (directory : Bytes) (e : h.hal_library_path1 ≡ some directory)
      (class_id name : Bytes) where
    abbrev answer : List Bytes → Outcome
    answer subs = load_or class_id (first_readable (candidates directory name subs))

    answer-cons :
        (subname : Bytes) (rest : List Bytes)
        → or_next h class_id (hw_module_exists h name subname) (answer rest)
          ≡ answer (subname ∷ rest)
    unfolding hw_module_exists or_next
    answer-cons subname rest = ground arith

    try_property-answer :
        (key : Bytes) (keys rest : List Bytes)
        → try_property h class_id name key (answer (set_properties keys ++ rest))
          ≡ answer (set_properties (key ∷ keys) ++ rest)
    unfolding try_property
    try_property-answer key keys rest = elim (Bool-cases (ltb 0 (length (h.property key)))) [
      | inl t ↦ rw t (answer-cons (h.property key) (set_properties keys ++ rest))
      | inr t ↦ rw t
    ]

    try_variants-answer :
        (keys rest : List Bytes)
        → try_variants h class_id name keys (answer rest) ≡ answer (set_properties keys ++ rest)
    unfolding try_variants
    try_variants-answer [] rest = refl
    try_variants-answer (key ∷ keys) rest =
        ap (try_property h class_id name key) (try_variants-answer keys rest)
        ∙ try_property-answer key keys rest

    try_fallbacks-answer : try_fallbacks h class_id name ≡ answer (shashlik ∷ default ∷ [])
    unfolding try_fallbacks
    try_fallbacks-answer =
        ap (or_next h class_id (hw_module_exists h name shashlik)) (answer-cons default [])
        ∙ answer-cons shashlik (default ∷ [])

  -- Where HAL_LIBRARY_PATH1 is set and the name fits in its buffer, `hw_get_module_by_class` loads
  -- the first readable file of the candidates, which are ordered by subname (the property of the
  -- class, the variant properties that are set, "shashlik", "default") and then by directory; it
  -- returns -ENOENT if none is readable, and tries no other file if the load fails.
  pub hw_get_module_by_class-first_readable :
      (class_id directory : Bytes) (inst : Option Bytes)
      → h.hal_library_path1 ≡ some directory
      → length (module_name h class_id inst) < h.property_value_max
      → hw_get_module_by_class h class_id inst
        ≡ load_or class_id (
            first_readable (
              candidates directory
                (module_name h class_id inst)
                (subnames (module_name h class_id inst))))
  unfolding hw_get_module_by_class
  hw_get_module_by_class-first_readable class_id directory inst e fits =
      let name = module_name h class_id inst in
      let prop_name = take (h.property_key_max - 1) (ro_hardware ++ (b'.' ∷ name)) in
      rw
        (
          lt→ltb (length name) h.property_value_max fits,
          try_fallbacks-answer directory e class_id name,
        )
        (ap (try_property h class_id name prop_name)
            (try_variants-answer directory e class_id name variant_keys (shashlik ∷ default ∷ []))
          ∙ try_property-answer directory e class_id name prop_name variant_keys
              (shashlik ∷ default ∷ []))

  module _ (e : h.hal_library_path1 ≡ none) (class_id name : Bytes) where
    -- The vendor's file for a subname, or the null string.
    abbrev vendor_or_null : Bytes → Outcome
    vendor_or_null subname =
        if h.readable (module_path h (hal_library_path2 h.lp64) name subname)
        then load h class_id (module_path h (hal_library_path2 h.lp64) name subname)
        else undefined

    null_path-at :
        (subname : Bytes) (next : Outcome)
        → or_next h class_id (hw_module_exists h name subname) next ≡ vendor_or_null subname
    unfolding hw_module_exists or_next
    null_path-at subname next = ground arith

    null_path-property :
        (key subname : Bytes) (keys rest after : List Bytes) (next : Outcome)
        → set_properties (key ∷ keys) ++ rest ≡ subname ∷ after
        → (set_properties keys ++ rest ≡ subname ∷ after → next ≡ vendor_or_null subname)
        → try_property h class_id name key next ≡ vendor_or_null subname
    unfolding try_property
    null_path-property key subname keys rest after next first later =
        elim (Bool-cases (ltb 0 (length (h.property key)))) [
          | inl t ↦
              rw t
                (null_path-at (h.property key) next ∙ ap vendor_or_null (head_eq (rw t at first)))
          | inr t ↦ rw t (later (rw t at first))
        ]
      where
        head_eq :
            h.property key ∷ (set_properties keys ++ rest) ≡ subname ∷ after
            → h.property key ≡ subname
        head_eq same = cc

    null_path-variants :
        (keys : List Bytes) (subname : Bytes) (after : List Bytes)
        → set_properties keys ++ (shashlik ∷ default ∷ []) ≡ subname ∷ after
        → try_variants h class_id name keys (try_fallbacks h class_id name) ≡ vendor_or_null subname
    unfolding try_variants try_fallbacks
    null_path-variants [] subname after first =
        null_path-at shashlik _ ∙ ap vendor_or_null (head_eq first)
      where
        head_eq : shashlik ∷ default ∷ [] ≡ subname ∷ after → shashlik ≡ subname
        head_eq same = cc
    null_path-variants (key ∷ keys) subname after first =
        null_path-property key subname keys (shashlik ∷ default ∷ []) after _ first
          (null_path-variants keys subname after)

  -- Where HAL_LIBRARY_PATH1 is not set and the name fits in its buffer, a call loads the vendor's
  -- file for the first subname if that is readable, and otherwise prints a null string, which is
  -- undefined.
  hw_get_module_by_class-null_path :
      (class_id subname : Bytes) (inst : Option Bytes) (rest : List Bytes)
      → h.hal_library_path1 ≡ none
      → length (module_name h class_id inst) < h.property_value_max
      → subnames (module_name h class_id inst) ≡ subname ∷ rest
      → hw_get_module_by_class h class_id inst ≡ (
          if h.readable
            (module_path h (hal_library_path2 h.lp64) (module_name h class_id inst) subname)
          then load h class_id
              (module_path h (hal_library_path2 h.lp64) (module_name h class_id inst) subname)
          else undefined)
  unfolding hw_get_module_by_class
  hw_get_module_by_class-null_path class_id subname inst rest e fits first =
      let name = module_name h class_id inst in
      let prop_name = take (h.property_key_max - 1) (ro_hardware ++ (b'.' ∷ name)) in
      rw (lt→ltb (length name) h.property_value_max fits) (
        null_path-property e class_id name prop_name subname variant_keys (shashlik ∷ default ∷ [])
          rest _ first (null_path-variants e class_id name variant_keys subname rest))
