-- ===== src/Installer/Tests.antt =====
-- A system without ANDROID_ROOT.
use mathlib.Core.Path.{refl}
use xylitol.Common.{◌≡◌, true, none, some, [], ◌∷◌, ◌++◌, if◌then◌else◌, codes, eqb_bytes}
use xylitol.Installer.{installed, freed, allocated, Globals, Host, install_first}
use xylitol.Installer.Memory.{Prepares, prepared, install_first-freed}

abbrev host : Host
host = record {
  path_from_env =
      λ name. if eqb_bytes name (codes "ANDROID_ROOT") then none else some (codes "/d/");
  copy_and_append = λ path suffix. some (path ++ suffix);
  build_string2 = λ path suffix. some (path ++ suffix);
  has_room_for_dirs = true;
  exists = λ _. true;
  to_latin1 = λ name. name;
  uid = 1000;
}

abbrev given : Prepares host
given = record {
  data_text = codes "/d/";
  app_text = codes "/d/app/";
  private_text = codes "/d/app-private/";
  lib_text = codes "/d/app-lib/";
  asec_text = codes "/d/";
  media_text = codes "/d/media/";
  data_is = refl;
  app_is = refl;
  private_is = refl;
  lib_is = refl;
  asec_is = refl;
  media_is = refl;
  room = refl;
}

abbrev blank : Globals
blank = record {
  data_dir = none;
  app_dir = none;
  app_private_dir = none;
  app_lib_dir = none;
  asec_dir = none;
  media_dir = none;
  count = 0;
  dirs = none;
  system = none;
  vendor = none;
  fresh = 1;
  events = [];
}

install_first-freed_example :
    (g : Globals) × (install_first host (codes "a.apk" ∷ []) blank ≡ some g)
    × (g.dirs ≡ some 7)
    × (g.count ≡ 2)
    × (g.events
        ≡ installed (codes "a.apk") 1000 1000 []
          ∷ freed 7
          ∷ allocated 7
          ∷ (prepared host given blank).events)
install_first-freed_example = install_first-freed host given blank (codes "a.apk") [] refl refl
