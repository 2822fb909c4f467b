-- ===== src/Hal.antt =====
-- legacy/old-shashlik/src/deps/libhardware/hardware.c: `load`, `hw_module_exists`,
-- `hw_get_module_by_class` and `hw_get_module`. What the operating system and the property service
-- answer is a parameter, the record `Host`; the log macros are left out.
pub mod Lookup
pub mod Load
mod Tests
use xylitol.Common.{
  ℕ, ◌-◌, Bool, true, false, not, Option, none, some, List, [], ◌∷◌, ◌++◌, if◌then◌else◌, ltb, take,
  length, Bytes,
}
use xylitol.Common.Int.{ℤ, pos, negsuc}

-- What `dlopen` finds at a path: nothing that it can load, a library without the symbol of a
-- module, or one with a module of this id.
pub data Library : Type 0 where
  no_library : Library
  no_symbol : Library
  hal_module : Bytes → Library

pub record Host : Type 0 where
  -- access(path, R_OK) == 0
  pub readable : Bytes → Bool
  -- the value that `property_get` finds, empty if there is none
  pub property : Bytes → Bytes
  -- getenv("HAL_LIBRARY_PATH1")
  pub hal_library_path1 : Option Bytes
  pub library : Bytes → Library
  -- strcmp(a, b) == 0
  pub same_id : Bytes → Bytes → Bool
  -- whether __LP64__ is defined; PROPERTY_KEY_MAX, PROPERTY_VALUE_MAX
  pub lp64 : Bool
  pub property_key_max : ℕ
  pub property_value_max : ℕ

abbrev pub path_max : ℕ
path_max = 4096

abbrev pub einval : ℤ
einval = negsuc 21

abbrev pub enoent : ℤ
enoent = negsuc 1

-- "/vendor/lib64/hw" or "/vendor/lib/hw"
abbrev pub hal_library_path2 : Bool → Bytes
hal_library_path2 true =
    b'/' ∷ b'v' ∷ b'e' ∷ b'n' ∷ b'd' ∷ b'o' ∷ b'r' ∷ b'/' ∷ b'l' ∷ b'i' ∷ b'b' ∷ b'6' ∷ b'4' ∷ b'/'
    ∷ b'h' ∷ b'w' ∷ []
hal_library_path2 false =
    b'/' ∷ b'v' ∷ b'e' ∷ b'n' ∷ b'd' ∷ b'o' ∷ b'r' ∷ b'/' ∷ b'l' ∷ b'i' ∷ b'b' ∷ b'/' ∷ b'h' ∷ b'w'
    ∷ []

-- "ro.hardware", "ro.product.board", "ro.board.platform" and "ro.arch"
abbrev pub ro_hardware : Bytes
ro_hardware = b'r' ∷ b'o' ∷ b'.' ∷ b'h' ∷ b'a' ∷ b'r' ∷ b'd' ∷ b'w' ∷ b'a' ∷ b'r' ∷ b'e' ∷ []

abbrev pub variant_keys : List Bytes
variant_keys =
    ro_hardware
    ∷ (b'r' ∷ b'o' ∷ b'.' ∷ b'p' ∷ b'r' ∷ b'o' ∷ b'd' ∷ b'u' ∷ b'c' ∷ b't' ∷ b'.' ∷ b'b' ∷ b'o'
        ∷ b'a' ∷ b'r' ∷ b'd' ∷ [])
    ∷ (b'r' ∷ b'o' ∷ b'.' ∷ b'b' ∷ b'o' ∷ b'a' ∷ b'r' ∷ b'd' ∷ b'.' ∷ b'p' ∷ b'l' ∷ b'a' ∷ b't'
        ∷ b'f' ∷ b'o' ∷ b'r' ∷ b'm' ∷ [])
    ∷ (b'r' ∷ b'o' ∷ b'.' ∷ b'a' ∷ b'r' ∷ b'c' ∷ b'h' ∷ [])
    ∷ []

abbrev pub shashlik : Bytes
shashlik = b's' ∷ b'h' ∷ b'a' ∷ b's' ∷ b'h' ∷ b'l' ∷ b'i' ∷ b'k' ∷ []

abbrev pub default : Bytes
default = b'd' ∷ b'e' ∷ b'f' ∷ b'a' ∷ b'u' ∷ b'l' ∷ b't' ∷ []

-- The module that a call hands out: where it was loaded from, and the handle in its `dso`.
pub record Module : Type 0 where
  pub id : Bytes
  pub path : Bytes
  pub dso : Bytes

-- The calls of `dlopen` that succeeded and those of `dlclose`, in order. A handle is named by the
-- path that it was opened at.
pub data Event : Type 0 where
  dlopened : Bytes → Event
  dlclosed : Bytes → Event

-- How a call ends: with a status and what it leaves in `*module`; or in undefined behaviour, a
-- write behind the end of `name` or a null `%s`.
pub data Outcome : Type 0 where
  returned : ℤ → Option Module → List Event → Outcome
  undefined : Outcome

-- The path of the first of the two files that is there; a null HAL_LIBRARY_PATH1 is printed only
-- behind a failed first test.
pub data Search : Type 0 where
  found : Bytes → Search
  missing : Search
  null_path : Search

module _ (h : Host) where
  pub load_from : Library → Bytes → Bytes → Outcome
  load_from no_library id path = returned einval none []
  load_from no_symbol id path = returned einval none (dlopened path ∷ dlclosed path ∷ [])
  load_from (hal_module hmi_id) id path =
      if not (h.same_id id hmi_id)
      then returned einval none (dlopened path ∷ dlclosed path ∷ [])
      else returned (pos 0) (some (record { id = hmi_id; path = path; dso = path }))
          (dlopened path ∷ [])

  pub load : Bytes → Bytes → Outcome
  load id path = load_from (h.library path) id path

  -- snprintf(path, path_len, "%s/%s.%s.so", directory, name, subname)
  unfoldable pub module_path : Bytes → Bytes → Bytes → Bytes
  module_path directory name subname =
      take (path_max - 1)
        (directory ++ (b'/' ∷ (name ++ (b'.' ∷ (subname ++ (b'.' ∷ b's' ∷ b'o' ∷ []))))))

  pub hw_module_exists : Bytes → Bytes → Search
  hw_module_exists name subname =
      let path2 = module_path (hal_library_path2 h.lp64) name subname in
      if h.readable path2 then found path2 else elim h.hal_library_path1 [
        | none ↦ null_path
        | some directory ↦
            let path1 = module_path directory name subname in
            if h.readable path1 then found path1 else missing
      ]

  -- What follows a search: the module is loaded, or the next subname is tried.
  pub or_next : Bytes → Search → Outcome → Outcome
  or_next class_id (found path) next = load class_id path
  or_next class_id missing next = next
  or_next class_id null_path next = undefined

  -- if (property_get(…) > 0) if (hw_module_exists(…) == 0) goto found;
  pub try_property : Bytes → Bytes → Bytes → Outcome → Outcome
  try_property class_id name key next =
      let prop = h.property key in
      if ltb 0 (length prop) then or_next class_id (hw_module_exists name prop) next else next

  pub try_variants : Bytes → Bytes → List Bytes → Outcome → Outcome
  try_variants class_id name [] next = next
  try_variants class_id name (key ∷ keys) next =
      try_property class_id name key (try_variants class_id name keys next)

  pub try_fallbacks : Bytes → Bytes → Outcome
  try_fallbacks class_id name =
      or_next class_id (hw_module_exists name shashlik)
        (or_next class_id (hw_module_exists name default) (returned enoent none []))

  unfoldable pub module_name : Bytes → Option Bytes → Bytes
  module_name class_id none = take (path_max - 1) class_id
  module_name class_id (some inst) = take (path_max - 1) (class_id ++ (b'.' ∷ inst))

  -- `name` has PROPERTY_VALUE_MAX bytes, and is written with the limit PATH_MAX.
  pub hw_get_module_by_class : Bytes → Option Bytes → Outcome
  hw_get_module_by_class class_id inst =
      let name = module_name class_id inst in
      let prop_name = take (h.property_key_max - 1) (ro_hardware ++ (b'.' ∷ name)) in
      if ltb (length name) h.property_value_max
      then try_property class_id name prop_name
          (try_variants class_id name variant_keys (try_fallbacks class_id name))
      else undefined

  unfoldable pub hw_get_module : Bytes → Outcome
  hw_get_module id = hw_get_module_by_class id none
