-- ===== src/Installer.antt =====
-- legacy/old-shashlik/src/deps/installd/installer.cpp: the directories of the installation and the
-- start of it. What Android's installd provides, `get_path_from_env`, `copy_and_append`,
-- `build_string2` and `install`, and Qt are the parameter `Host`.
pub mod Memory
mod Tests
use xylitol.Common.{
  ℕ, ◌+◌, Bool, true, false, Option, none, some, List, [], ◌∷◌, if◌then◌else◌, Bytes, codes,
}

-- A text that was allocated, with its address, or a literal.
pub data PathText : Type 0 where
  heap : ℕ → Bytes → PathText
  literal : Bytes → PathText

abbrev pub text : PathText → Bytes
text (heap address t) = t
text (literal t) = t

pub data Event : Type 0 where
  allocated : ℕ → Event
  freed : ℕ → Event
  -- install(pkgname, uid, gid, seinfo)
  installed : Bytes → ℕ → ℕ → Bytes → Event

-- The global variables, the address of the next object, and the events, newest first. `dirs` is the
-- array of android_system_dirs, and behind it are the paths of its two records.
pub record Globals : Type 0 where
  pub data_dir : Option PathText
  pub app_dir : Option PathText
  pub app_private_dir : Option PathText
  pub app_lib_dir : Option PathText
  pub asec_dir : Option PathText
  pub media_dir : Option PathText
  pub count : ℕ
  pub dirs : Option ℕ
  pub system : Option PathText
  pub vendor : Option PathText
  pub fresh : ℕ
  pub events : List Event

pub record Host : Type 0 where
  -- the text that the call allocates, where it does not fail
  pub path_from_env : Bytes → Option Bytes
  pub copy_and_append : Bytes → Bytes → Option Bytes
  -- none is NULL
  pub build_string2 : Bytes → Bytes → Option Bytes
  pub has_room_for_dirs : Bool
  pub exists : Bytes → Bool
  pub to_latin1 : Bytes → Bytes
  pub uid : ℕ

abbrev pub emit : Event → Globals → Globals
emit event g = record g { events = event ∷ g.events }

-- A text is allocated by a call, or the call fails.
abbrev pub new_path : Option Bytes → Globals → Option PathText × Globals
new_path none g = (none, g)
new_path (some t) g =
    (some (heap g.fresh t), record g { fresh = g.fresh + 1; events = allocated g.fresh ∷ g.events })

-- return -1 where a call has failed. The results are whether 0 is returned, and the variables; none is
-- undefined behaviour.
abbrev pub or_fail :
    Option PathText × Globals
    → (PathText → Globals → Option (Bool × Globals))
    → Option (Bool × Globals)
or_fail (none, g) next = some (false, g)
or_fail (some p, g) next = next p g

-- free(path), if it is not NULL; a literal cannot be freed
abbrev pub free_path : Option PathText → Globals → Option Globals
free_path none g = some g
free_path (some (heap address t)) g = some (emit (freed address) g)
free_path (some (literal t)) g = none

abbrev pub free_array : Option ℕ → Globals → Globals
free_array none g = g
free_array (some address) g = emit (freed address) g

unfoldable pub free_globals : Globals → Option Globals
free_globals g = elim (free_path g.system g) [
  | none ↦ none
  | some g1 ↦ elim (free_path g.vendor g1) [ none ↦ none | some g2 ↦ some (free_array g.dirs g2) ]
]

module _ (host : Host) where
  -- build_string2, and strlen of its result
  unfoldable pub append_app : PathText → Globals → Option (Bool × Globals)
  append_app root g = elim (host.build_string2 (text root) (codes "app/")) [
    | none ↦ none
    | some t ↦ some (
      true,
      record g {
        system = some (heap g.fresh t);
        vendor = some (literal (codes "/vendor/app/"));
        fresh = g.fresh + 1;
        events = allocated g.fresh ∷ g.events;
      },
    )
  ]

  -- ANDROID_ROOT
  unfoldable pub set_up_root : Option Bytes → Globals → Option (Bool × Globals)
  set_up_root none g = elim (free_globals g) [ none ↦ none | some g' ↦ some (false, g') ]
  set_up_root (some t) g = append_app (heap g.fresh t) (record g {
    system = some (heap g.fresh t);
    fresh = g.fresh + 1;
    events = allocated g.fresh ∷ g.events;
  })

  unfoldable pub set_up_system_dirs : Globals → Option (Bool × Globals)
  set_up_system_dirs g =
      if host.has_room_for_dirs
      then set_up_root (host.path_from_env (codes "ANDROID_ROOT")) (record g {
        count = 2;
        dirs = some g.fresh;
        system = none;
        vendor = none;
        fresh = g.fresh + 1;
        events = allocated g.fresh ∷ g.events;
      })
      else some (false, record g { count = 2; dirs = none })

  unfoldable pub initialize_globals : Globals → Option (Bool × Globals)
  initialize_globals g =
      or_fail (new_path (host.path_from_env (codes "ANDROID_DATA")) g) (λ data_path g1.
        or_fail
          (new_path (host.copy_and_append (text data_path) (codes "app/"))
            (record g1 { data_dir = some data_path }))
          (λ app g2.
            or_fail
              (new_path (host.copy_and_append (text data_path) (codes "app-private/"))
                (record g2 { app_dir = some app }))
              (λ app_private g3.
                or_fail
                  (new_path (host.copy_and_append (text data_path) (codes "app-lib/"))
                    (record g3 { app_private_dir = some app_private }))
                  (λ app_lib g4.
                    or_fail
                      (new_path (host.path_from_env (codes "ASEC_MOUNTPOINT"))
                        (record g4 { app_lib_dir = some app_lib }))
                      (λ asec g5.
                        or_fail
                          (new_path (host.copy_and_append (text data_path) (codes "media/"))
                            (record g5 { asec_dir = some asec }))
                          (λ media g6.
                            set_up_system_dirs (record g6 { media_dir = some media })))))))

  -- The result of initialize_globals is not looked at.
  unfoldable pub install_first : List Bytes → Globals → Option Globals
  install_first [] g = some g
  install_first (apk_file ∷ rest) g =
      if host.exists apk_file
      then (elim (initialize_globals g) [
        | none ↦ none
        | some (ok, g') ↦ some (emit (installed (host.to_latin1 apk_file) host.uid host.uid []) g')
      ])
      else some g
