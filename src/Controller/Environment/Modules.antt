-- ===== src/Controller/Environment/Modules.antt =====
-- Controller.cpp with libhardware/hardware.c and propertiesd.cpp: which module for graphics buffers
-- the processes of the controller load.
use xylitol.Common.{
  ℕ, zero, suc, ◌-◌, ◌<◌, ◌≤◌, ◌≡◌, refl, ap, ◌∙◌, arith, true, false, none, List, [], ◌∷◌, ◌++◌,
  if◌then◌else◌, Bytes, codes, ltb, length, take,
}
use xylitol.Properties.Defaults.{defaults}
use xylitol.Hal.{
  Host, hal_library_path2, variant_keys, shashlik, default, load, module_path, module_name,
  hw_get_module,
}
use xylitol.Hal.Lookup.{
  set_properties, candidates, subnames, first_readable, load_or,
  hw_get_module_by_class-first_readable,
}
use xylitol.Controller.Environment.{
  Environment, variable, value, Texts, Places, below_root, environment,
}

-- A text that is not longer than the limit is taken whole.
take-all : (n : ℕ) (s : Bytes) → length s ≤ n → take n s ≡ s
take-all zero [] h = refl
take-all zero (c ∷ s) h = absurd (omega arith)
take-all (suc n) [] h = refl
take-all (suc n) (c ∷ s) h = ap (λ t. c ∷ t) (take-all n s (omega arith))

gralloc_name : (h : Host) → module_name h (codes "gralloc") none ≡ codes "gralloc"
unfolding module_name
gralloc_name h = refl

-- The property of the class comes first, where it is set and its key fits.
subnames-gralloc :
    (h : Host)
    → h.property (codes "ro.hardware.gralloc") ≡ codes "shashlik"
    → 19 < h.property_key_max
    → (rest : List Bytes) × (subnames h (codes "gralloc") ≡ codes "shashlik" ∷ rest)
subnames-gralloc h e fits =
    let key : Bytes = codes "ro.hardware.gralloc" in
    let whole = take-all (h.property_key_max - 1) key (omega arith) in
    let p : h.property (take (h.property_key_max - 1) key) ≡ codes "shashlik" =
      ap h.property whole ∙ e in
    (
      _,
      ap
          (λ v.
            (if ltb 0 (length v)
              then v ∷ set_properties h variant_keys
              else set_properties h variant_keys)
            ++ (shashlik ∷ default ∷ []))
          p,
    )

-- In the environment of the controller, with the class's property as the property service writes it
-- at first, with no vendor's file for it and with limits that the names fit in, hw_get_module loads
-- gralloc from the file below the controller's own root, if that is readable.
pub environment-hw_get_module :
    (texts : Texts) (places : Places) (system : Environment) (h : Host)
    → h.hal_library_path1 ≡ variable (codes "HAL_LIBRARY_PATH1") (environment texts places system)
    → h.property (codes "ro.hardware.gralloc") ≡ value (codes "ro.hardware.gralloc") defaults
    → 19 < h.property_key_max
    → 7 < h.property_value_max
    → h.readable (module_path h (hal_library_path2 h.lp64) (codes "gralloc") (codes "shashlik"))
      ≡ false
    → h.readable (
        module_path h
          (below_root places (codes "/system/lib/hw"))
          (codes "gralloc")
          (codes "shashlik"))
      ≡ true
    → hw_get_module h (codes "gralloc")
      ≡ load h (codes "gralloc") (
          module_path h
            (below_root places (codes "/system/lib/hw"))
            (codes "gralloc")
            (codes "shashlik"))
unfolding hw_get_module environment
environment-hw_get_module texts places system h path property key_fits name_fits no_vendor there =
    hw_get_module_by_class-first_readable h (codes "gralloc")
      (below_root places (codes "/system/lib/hw")) none path (rw (gralloc_name h) name_fits)
    ∙ ap
        (λ name. load_or h (codes "gralloc") (
          first_readable h
            (candidates h (below_root places (codes "/system/lib/hw")) name (subnames h name))))
        (gralloc_name h)
    ∙ ap
        (λ subs. load_or h (codes "gralloc") (
          first_readable h
            (candidates h (below_root places (codes "/system/lib/hw")) (codes "gralloc") subs)))
        (subnames-gralloc h property key_fits).1
    ∙ rw (no_vendor, there) refl
