-- ===== src/Hal/Load.antt =====
-- What a call of `load` or `hw_get_module_by_class` leaves behind.
use xylitol.Common.{
  ℕ, ◌+◌, ◌-◌, ◌≡◌, refl, ◌⊎◌, inl, inr, arith, true, Bool-cases, if◌then◌else◌, ◌<◌, lt→ltb,
  Option, none, some, List, [], ◌∷◌, ltb, length, Bytes,
}
use xylitol.Common.Int.{pos}
use xylitol.Hal.{
  Host, Library, no_library, no_symbol, hal_module, einval, enoent, variant_keys, shashlik, default,
  Event, dlopened, dlclosed, Outcome, returned, undefined, Search, found, missing, null_path,
  load_from, load, module_path, hal_library_path2, hw_module_exists, or_next, try_property,
  try_variants, try_fallbacks, module_name, hw_get_module_by_class,
}

-- The handles that are open behind a sequence of events, of which `n` were open before.
abbrev pub handles : ℕ → List Event → ℕ
handles n [] = n
handles n (dlopened path ∷ events) = handles (n + 1) events
handles n (dlclosed path ∷ events) = handles (n - 1) events

module _ (h : Host) (class_id : Bytes) where
  -- What an outcome may be. A module is handed out just when the status is 0: it is one that the
  -- library at its path holds, it has the id that was asked for, and its handle is the one that is
  -- open. With another status there is no module, and no handle is left open. The outcome is
  -- undefined only without HAL_LIBRARY_PATH1.
  abbrev pub IsClean : Outcome → Type 0
  IsClean (returned status (some m) events) =
      (status ≡ pos 0)
      × (h.library m.path ≡ hal_module m.id)
      × (h.same_id class_id m.id ≡ true)
      × (m.dso ≡ m.path)
      × (events ≡ dlopened m.path ∷ [])
  IsClean (returned status none events) =
      ((status ≡ einval) ⊎ (status ≡ enoent)) × (handles 0 events ≡ 0)
  IsClean undefined = h.hal_library_path1 ≡ none

  load_from-IsClean :
      (path : Bytes) (l : Library) → h.library path ≡ l → IsClean (load_from h l class_id path)
  unfolding load_from
  load_from-IsClean path no_library e = (inl refl, refl)
  load_from-IsClean path no_symbol e = (inl refl, omega arith)
  load_from-IsClean path (hal_module id) e = elim (Bool-cases (h.same_id class_id id)) [
    | inl t ↦ rw t (refl, e, t, refl, refl)
    | inr t ↦ rw t (inl refl, omega arith)
  ]

  pub load-IsClean : (path : Bytes) → IsClean (load h class_id path)
  unfolding load
  load-IsClean path = load_from-IsClean path (h.library path) refl

  -- Only a null HAL_LIBRARY_PATH1 is printed as one.
  abbrev IsNullSafe : Search → Type 0
  IsNullSafe null_path = h.hal_library_path1 ≡ none
  IsNullSafe _ = Unit {0}

  hw_module_exists-cases :
      (name subname : Bytes) (directory : Option Bytes)
      → h.hal_library_path1 ≡ directory
      → IsNullSafe (hw_module_exists h name subname)
  unfolding hw_module_exists
  hw_module_exists-cases name subname directory e =
      elim (Bool-cases (h.readable (module_path h (hal_library_path2 h.lp64) name subname))) [
        | inl t ↦ rw t tt
        | inr t ↦ rw t (behind directory e)
      ]
    where
      behind :
          (directory : Option Bytes)
          → h.hal_library_path1 ≡ directory
          → IsNullSafe (elim h.hal_library_path1 [
            | none ↦ null_path
            | some found_directory ↦
                if h.readable (module_path h found_directory name subname)
                then found (module_path h found_directory name subname)
                else missing
          ])
      behind none e = rw e refl
      behind (some d) e = elim (Bool-cases (h.readable (module_path h d name subname))) [
        | inl u ↦ rw (e, u) tt
        | inr u ↦ rw (e, u) tt
      ]

  hw_module_exists-IsNullSafe :
      (name subname : Bytes) → IsNullSafe (hw_module_exists h name subname)
  hw_module_exists-IsNullSafe name subname =
      hw_module_exists-cases name subname h.hal_library_path1 refl

  or_next-IsClean :
      (s : Search) (next : Outcome)
      → IsNullSafe s
      → IsClean next
      → IsClean (or_next h class_id s next)
  unfolding or_next
  or_next-IsClean (found path) next n c = load-IsClean path
  or_next-IsClean missing next n c = c
  or_next-IsClean null_path next n c = n

  try_property-IsClean :
      (name key : Bytes) (next : Outcome)
      → IsClean next
      → IsClean (try_property h class_id name key next)
  unfolding try_property
  try_property-IsClean name key next c = elim (Bool-cases (ltb 0 (length (h.property key)))) [
    | inl t ↦ rw t (
        or_next-IsClean (hw_module_exists h name (h.property key)) next
          (hw_module_exists-IsNullSafe name (h.property key)) c)
    | inr t ↦ rw t c
  ]

  try_variants-IsClean :
      (name : Bytes) (keys : List Bytes) (next : Outcome)
      → IsClean next
      → IsClean (try_variants h class_id name keys next)
  unfolding try_variants
  try_variants-IsClean name [] next c = c
  try_variants-IsClean name (key ∷ keys) next c =
      try_property-IsClean name key (try_variants h class_id name keys next)
        (try_variants-IsClean name keys next c)

  try_fallbacks-IsClean : (name : Bytes) → IsClean (try_fallbacks h class_id name)
  unfolding try_fallbacks
  try_fallbacks-IsClean name =
      or_next-IsClean (hw_module_exists h name shashlik) _
        (hw_module_exists-IsNullSafe name shashlik)
        (or_next-IsClean (hw_module_exists h name default) (returned enoent none [])
          (hw_module_exists-IsNullSafe name default) (inr refl, refl))

  -- Where the name fits in its buffer, `hw_get_module_by_class` ends cleanly: on success the module
  -- that is handed out is one of the library at its path and has the class id, and its handle alone
  -- is open; on an error no handle is left open, no module is handed out, and the status is -EINVAL
  -- or -ENOENT. Its behaviour is undefined only where HAL_LIBRARY_PATH1 is not set.
  pub hw_get_module_by_class-IsClean :
      (inst : Option Bytes)
      → length (module_name h class_id inst) < h.property_value_max
      → IsClean (hw_get_module_by_class h class_id inst)
  unfolding hw_get_module_by_class
  hw_get_module_by_class-IsClean inst fits =
      rw (lt→ltb (length (module_name h class_id inst)) h.property_value_max fits) (
        try_property-IsClean (module_name h class_id inst) _ _ (
          try_variants-IsClean (module_name h class_id inst) variant_keys _
            (try_fallbacks-IsClean (module_name h class_id inst))))
