-- ===== src/Controller/Environment.antt =====
-- Controller.cpp: the environment variables of the processes that the controller starts. A name and
-- its value stand in front of what was inserted before; the lists of texts of Qt are a parameter.
pub mod Modules
mod Tests
use xylitol.Common.{
  Bool, Option, none, some, List, [], ◌∷◌, ◌++◌, if◌then◌else◌, Bytes, codes, eqb_bytes,
}

-- QProcessEnvironment
abbrev pub Environment : Type 0
Environment = List (Bytes × Bytes)

abbrev pub insert : Bytes → Bytes → Environment → Environment
insert name value env = (name, value) ∷ env

abbrev pub variable : Bytes → Environment → Option Bytes
variable name [] = none
variable name ((key, value) ∷ env) =
    let found = variable name env in if eqb_bytes key name then some value else found

abbrev pub value_or_empty : Option Bytes → Bytes
value_or_empty none = []
value_or_empty (some value) = value

-- env.value(name)
abbrev pub value : Bytes → Environment → Bytes
value name env = value_or_empty (variable name env)

-- replaceInStrings(before, after) and join(separator) of a QStringList
pub record Texts : Type 0 where
  pub replace_in_strings : Bytes → Bytes → List Bytes → List Bytes
  pub join : Bytes → List Bytes → Bytes

-- The members of `Controller::Private` that the constructor finds.
pub record Places : Type 0 where
  pub app_dir : Bytes
  pub library_root : Bytes
  pub android_root : Bytes

-- A path with the root in front of it.
abbrev pub below_root : Places → Bytes → Bytes
below_root places path = places.android_root ++ path

module _ (texts : Texts) (places : Places) where
  abbrev pub path_value : Bytes → Bytes
  path_value path = texts.join (codes ":") (
      texts.replace_in_strings (codes "ANDROID_ROOT") places.android_root (
        path
        ∷ places.app_dir
        ∷ codes "ANDROID_ROOT/sbin"
        ∷ codes "ANDROID_ROOT/vendor/bin"
        ∷ codes "ANDROID_ROOT/system/sbin"
        ∷ codes "ANDROID_ROOT/system/bin"
        ∷ codes "ANDROID_ROOT/system/xbin"
        ∷ []))

  abbrev pub library_path_value : Bytes → Bytes
  library_path_value path = texts.join (codes ":") (
      texts.replace_in_strings (codes "ANDROID_ROOT") places.android_root (
        texts.replace_in_strings (codes "LIBPATH") places.library_root (
          path
          ∷ codes "/usr/lib"
          ∷ codes "LIBPATH/lib64"
          ∷ codes "LIBPATH/lib64/egl"
          ∷ codes "ANDROID_ROOT/vendor/lib"
          ∷ codes "ANDROID_ROOT/system/lib"
          ∷ [])))

  abbrev pub boot_class_path : Bytes
  boot_class_path = texts.join (codes ":") (
      texts.replace_in_strings (codes "JARPATH") (below_root places (codes "/system/framework")) (
        codes "JARPATH/core.jar"
        ∷ codes "JARPATH/conscrypt.jar"
        ∷ codes "JARPATH/bouncycastle.jar"
        ∷ codes "JARPATH/okhttp.jar"
        ∷ codes "JARPATH/ext.jar"
        ∷ codes "JARPATH/framework.jar"
        ∷ codes "JARPATH/telephony-common.jar"
        ∷ codes "JARPATH/voip-common.jar"
        ∷ codes "JARPATH/framework2.jar"
        ∷ codes "JARPATH/shashlik.jar"
        ∷ []))

  -- The environment of the controller's own process, and what is inserted after it.
  unfoldable pub environment : Environment → Environment
  environment system =
      let env1 = insert (codes "PATH") (path_value (value (codes "PATH") system)) system in
      let env2 =
        insert (codes "LD_LIBRARY_PATH") (library_path_value (value (codes "LD_LIBRARY_PATH") env1))
          env1 in
      let env3 = insert (codes "BOOTCLASSPATH") boot_class_path env2 in
      let env4 = insert (codes "SHASHLIK_ROOT") places.android_root env3 in
      let env5 = insert (codes "ANDROID_ROOT") (below_root places (codes "/system")) env4 in
      let env6 = insert (codes "ANDROID_ASSETS") (below_root places (codes "/system/app")) env5 in
      let env7 = insert (codes "ANDROID_DATA") (below_root places (codes "/data")) env6 in
      let env8 = insert (codes "ANDROID_STORAGE") (below_root places (codes "/storage")) env7 in
      let env9 = insert (codes "ASEC_MOUNTPOINT") (below_root places (codes "/mnt/asec")) env8 in
      let env10 = insert (codes "LOOP_MOUNTPOINT") (below_root places (codes "/mnt/obb")) env9 in
      let env11 =
        insert (codes "HAL_LIBRARY_PATH1") (below_root places (codes "/system/lib/hw")) env10 in
      let env12 = insert (codes "DOWNLOAD_CACHE") (below_root places (codes "/cache")) env11 in
      let env13 = insert (codes "ANDROID_WINDOW_SIZE") (codes "200x200") env12 in
      let env14 = insert (codes "EGL_PLATFORM") (codes "wayland") env13 in
      insert (codes "EXTERNAL_STORAGE") (codes "/mnt") env14
