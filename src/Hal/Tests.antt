-- ===== src/Hal/Tests.antt =====
-- A host on which the board's variant of one module is installed.
use xylitol.Common.{
  Bool, true, false, ◌&&◌, ◌≡◌, refl, ◌==◌, arith, if◌then◌else◌, Option, none, some, [], ◌∷◌,
  Bytes,
}
use xylitol.Common.Int.{pos}
use xylitol.Hal.{
  Host, no_library, hal_module, ro_hardware, returned, dlopened, load_from, load, module_path,
  hw_module_exists, or_next, try_property, try_variants, try_fallbacks, module_name,
  hw_get_module_by_class, hw_get_module,
}
use xylitol.Hal.Lookup.{
  subnames, candidates, first_readable, load_or, hw_get_module_by_class-first_readable,
}
use xylitol.Hal.Load.{IsClean, hw_get_module_by_class-IsClean}

abbrev same_bytes : Bytes → Bytes → Bool
same_bytes [] [] = true
same_bytes [] (y ∷ ys) = false
same_bytes (x ∷ xs) [] = false
same_bytes (x ∷ xs) (y ∷ ys) = (x == y) && same_bytes xs ys

-- "gps"
abbrev gps : Bytes
gps = b'g' ∷ b'p' ∷ b's' ∷ []

-- "x86"
abbrev x86 : Bytes
x86 = b'x' ∷ b'8' ∷ b'6' ∷ []

-- "/hal"
abbrev hal : Bytes
hal = b'/' ∷ b'h' ∷ b'a' ∷ b'l' ∷ []

-- "/hal/gps.x86.so"
abbrev gps_file : Bytes
gps_file =
    b'/' ∷ b'h' ∷ b'a' ∷ b'l' ∷ b'/' ∷ b'g' ∷ b'p' ∷ b's' ∷ b'.' ∷ b'x' ∷ b'8' ∷ b'6' ∷ b'.' ∷ b's'
    ∷ b'o' ∷ []

abbrev host : Option Bytes → Host
host directory = record {
  readable = λ path. same_bytes path gps_file;
  property = λ key. if same_bytes key ro_hardware then x86 else [];
  hal_library_path1 = directory;
  library = λ path. if same_bytes path gps_file then hal_module gps else no_library;
  same_id = same_bytes;
  lp64 = true;
  property_key_max = 32;
  property_value_max = 92;
}

found_gps :
    hw_get_module (host (some hal)) gps
    ≡ returned
        (pos 0)
        (some (record { id = gps; path = gps_file; dso = gps_file }))
        (dlopened gps_file ∷ [])
unfolding hw_get_module hw_get_module_by_class module_name try_fallbacks try_variants try_property
    or_next hw_module_exists module_path load load_from
found_gps = refl

hw_get_module_by_class-first_readable_example :
    hw_get_module_by_class (host (some hal)) gps none
    ≡ load_or (host (some hal)) gps (
        first_readable (host (some hal)) (
          candidates
            (host (some hal))
            hal
            (module_name (host (some hal)) gps none)
            (subnames (host (some hal)) (module_name (host (some hal)) gps none))))
unfolding module_name
hw_get_module_by_class-first_readable_example =
    hw_get_module_by_class-first_readable (host (some hal)) gps hal none refl (omega arith)

hw_get_module_by_class-IsClean_example :
    IsClean (host (some hal)) gps (hw_get_module_by_class (host (some hal)) gps none)
unfolding module_name
hw_get_module_by_class-IsClean_example =
    hw_get_module_by_class-IsClean (host (some hal)) gps none (omega arith)
