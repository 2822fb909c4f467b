-- ===== src/Controller/Environment/Tests.antt =====
-- The environment of a controller below /opt, and a host with its module.
use xylitol.Common.{◌≡◌, refl, arith, true, some, [], ◌∷◌, Bytes, codes, eqb_bytes}
use xylitol.Properties.Defaults.{defaults}
use xylitol.Hal.{Host, hal_module, load, module_path, hw_get_module}
use xylitol.Controller.Environment.{Environment, variable, value, Texts, Places, environment}
use xylitol.Controller.Environment.Modules.{environment-hw_get_module}

abbrev texts : Texts
texts = record {
  replace_in_strings = λ before after list. list;
  join = λ separator list. elim list [ [] ↦ [] | text ∷ _ ↦ text ];
}

abbrev places : Places
places = record {
  app_dir = codes "/opt/bin";
  library_root = codes "/opt";
  android_root = codes "/opt/android";
}

abbrev system : Environment
system = (codes "PATH", codes "/bin") ∷ []

abbrev file : Bytes
file = codes "/opt/android/system/lib/hw/gralloc.shashlik.so"

abbrev host : Host
host = record {
  readable = λ path. eqb_bytes path file;
  property = λ key. value key defaults;
  hal_library_path1 = variable (codes "HAL_LIBRARY_PATH1") (environment texts places system);
  library = λ path. hal_module (codes "gralloc");
  same_id = eqb_bytes;
  lp64 = true;
  property_key_max = 32;
  property_value_max = 92;
}

kept : variable (codes "PATH") (environment texts places system) ≡ some (codes "/bin")
unfolding environment
kept = refl

environment-hw_get_module_example :
    hw_get_module host (codes "gralloc") ≡ load host (codes "gralloc") file
unfolding module_path
environment-hw_get_module_example =
    environment-hw_get_module texts places system host refl refl (omega arith) (omega arith) refl
      refl
