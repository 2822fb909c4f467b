-- ===== src/Installer/Memory.antt =====
-- installer.cpp: what the directories and the memory are like when the installation starts.
use xylitol.Common.{ℕ, ◌+◌, ◌≡◌, refl, ◌∙◌, true, none, some, List, [], ◌∷◌, Bytes, codes}
use xylitol.Installer.{
  heap, literal, allocated, freed, installed, Globals, Host, emit, free_globals, append_app,
  set_up_root, set_up_system_dirs, initialize_globals, install_first,
}

-- The calls in front of the one for ANDROID_ROOT give these texts.
pub record Prepares (host : Host) : Type 0 where
  pub data_text : Bytes
  pub app_text : Bytes
  pub private_text : Bytes
  pub lib_text : Bytes
  pub asec_text : Bytes
  pub media_text : Bytes
  pub data_is : host.path_from_env (codes "ANDROID_DATA") ≡ some data_text
  pub app_is : host.copy_and_append data_text (codes "app/") ≡ some app_text
  pub private_is : host.copy_and_append data_text (codes "app-private/") ≡ some private_text
  pub lib_is : host.copy_and_append data_text (codes "app-lib/") ≡ some lib_text
  pub asec_is : host.path_from_env (codes "ASEC_MOUNTPOINT") ≡ some asec_text
  pub media_is : host.copy_and_append data_text (codes "media/") ≡ some media_text
  pub room : host.has_room_for_dirs ≡ true

module _ (host : Host) (given : Prepares host) where
  -- The variables in front of the array of the system's directories.
  abbrev pub prepared : Globals → Globals
  prepared g = record g {
    data_dir = some (heap g.fresh given.data_text);
    app_dir = some (heap (g.fresh + 1) given.app_text);
    app_private_dir = some (heap (g.fresh + 1 + 1) given.private_text);
    app_lib_dir = some (heap (g.fresh + 1 + 1 + 1) given.lib_text);
    asec_dir = some (heap (g.fresh + 1 + 1 + 1 + 1) given.asec_text);
    media_dir = some (heap (g.fresh + 1 + 1 + 1 + 1 + 1) given.media_text);
    fresh = g.fresh + 1 + 1 + 1 + 1 + 1 + 1;
    events =
        allocated (g.fresh + 1 + 1 + 1 + 1 + 1)
        ∷ allocated (g.fresh + 1 + 1 + 1 + 1)
        ∷ allocated (g.fresh + 1 + 1 + 1)
        ∷ allocated (g.fresh + 1 + 1)
        ∷ allocated (g.fresh + 1)
        ∷ allocated g.fresh
        ∷ g.events;
  }

  initialize_globals-prepared :
      (g : Globals) → initialize_globals host g ≡ set_up_system_dirs host (prepared g)
  unfolding initialize_globals
  initialize_globals-prepared g =
      rw
        (given.data_is, given.app_is, given.private_is, given.lib_is, given.asec_is, given.media_is)
        refl

  -- The address of the array of the system's directories.
  abbrev pub array : Globals → ℕ
  array g = (prepared g).fresh

  abbrev with_array : Globals → Globals
  with_array g = record (prepared g) {
    count = 2;
    dirs = some (array g);
    system = none;
    vendor = none;
    fresh = array g + 1;
    events = allocated (array g) ∷ (prepared g).events;
  }

  abbrev with_root : Globals → Bytes → Globals
  with_root g longer = record (with_array g) {
    system = some (heap (array g + 1 + 1) longer);
    vendor = some (literal (codes "/vendor/app/"));
    fresh = array g + 1 + 1 + 1;
    events =
        allocated (array g + 1 + 1)
        ∷ allocated (array g + 1)
        ∷ allocated (array g)
        ∷ (prepared g).events;
  }

  -- Where everything before it succeeds and ANDROID_ROOT is not set, the array of the system's
  -- directories is freed, and the installation starts all the same, with the variable still at the
  -- address that was freed and with two records counted in it.
  pub install_first-freed :
      (g : Globals) (apk_file : Bytes) (rest : List Bytes)
      → host.exists apk_file ≡ true
      → host.path_from_env (codes "ANDROID_ROOT") ≡ none
      → (g' : Globals) × (install_first host (apk_file ∷ rest) g ≡ some g')
        × (g'.dirs ≡ some (array g))
        × (g'.count ≡ 2)
        × (g'.events
            ≡ installed (host.to_latin1 apk_file) host.uid host.uid []
              ∷ freed (array g)
              ∷ allocated (array g)
              ∷ (prepared g).events)
  unfolding install_first set_up_system_dirs set_up_root free_globals
  install_first-freed g apk_file rest there no_root = (
    emit (installed (host.to_latin1 apk_file) host.uid host.uid [])
        (emit (freed (array g)) (with_array g)),
    rw (there, initialize_globals-prepared g, given.room, no_root) refl,
    refl,
    refl,
    refl,
  )

  -- Where all calls succeed, the text of ANDROID_ROOT stays allocated, one place behind the array,
  -- while the variable that named it gets the longer text at the next place.
  initialize_globals-lost :
      (g : Globals) (root longer : Bytes)
      → host.path_from_env (codes "ANDROID_ROOT") ≡ some root
      → host.build_string2 root (codes "app/") ≡ some longer
      → (g' : Globals) × (initialize_globals host g ≡ some (true, g'))
        × (g'.system ≡ some (heap (array g + 1 + 1) longer))
        × (g'.vendor ≡ some (literal (codes "/vendor/app/")))
        × (g'.events
            ≡ allocated (array g + 1 + 1)
              ∷ allocated (array g + 1)
              ∷ allocated (array g)
              ∷ (prepared g).events)
  unfolding set_up_system_dirs set_up_root append_app
  initialize_globals-lost g root longer has_root more = (
    with_root g longer,
    initialize_globals-prepared g ∙ rw (given.room, has_root, more) refl,
    refl,
    refl,
    refl,
  )
