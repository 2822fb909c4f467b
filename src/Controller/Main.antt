-- ===== src/Controller/Main.antt =====
-- main.cpp: what the controller does for the options of the command line. The parser of the options
-- is Qt's; what it finds is a parameter. The messages and the graphical interface are left out.
pub mod Outcomes
pub mod Sockets
use xylitol.Common.{
  ℕ, Bool, true, false, not, ◌||◌, ◌&&◌, Option, none, some, List, [], ◌∷◌, if◌then◌else◌, Bytes,
  codes,
}
use xylitol.Controller.{
  Service, zygote, service_manager, surfaceflinger, installd, adbd, no_environment, critical_level,
  error, quit_scheduled, status_printed, view_opened, Controller, System, emit, set_quit_on_error,
}
use xylitol.Controller.Services.{
  running, stop, start_zygote, start_surfaceflinger, start_servicemanager, start_installd,
  start_adbd, start, restart,
}
use xylitol.Controller.Applications.{run_apk, run_am}

pub record Options : Type 0 where
  pub apkfile : List Bytes
  pub launcham : Option Bytes
  pub zygote : Bool
  pub surfaceflinger : Bool
  pub servicemanager : Bool
  pub installd : Bool
  pub adbd : Bool
  pub start : Bool
  pub stop : Bool
  pub restart : Bool
  pub status : Bool

-- No option of the list: the application has a graphical interface.
pub have_gui : Options → Bool
have_gui o = elim o.apkfile [
  | _ ∷ _ ↦ false
  | [] ↦ elim o.launcham [
    | some _ ↦ false
    | none ↦ not (
        o.start
        || (o.zygote
            || (o.surfaceflinger
                || (o.servicemanager || (o.installd || (o.restart || (o.stop || o.status)))))))
  ]
]

-- One of the three services that an application needs is not running.
abbrev pub incomplete : Controller → Bool
incomplete c =
    not (running zygote c) || (not (running service_manager c) || not (running surfaceflinger c))

abbrev pub print_status : Controller → Controller
print_status c = emit (status_printed (codes "installd") (running installd c)) (
    emit (status_printed (codes "adbd") (running adbd c)) (
      emit (status_printed (codes "surfaceflinger") (running zygote c)) (
        emit (status_printed (codes "zygote") (running surfaceflinger c))
          (emit (status_printed (codes "servicemanager") (running service_manager c)) c))))

module _ (sys : System) where
  pub open_apk : Bytes → Controller → Controller
  open_apk file c =
      let c' = if incomplete c then restart sys c else c in
      let c'' =
        if incomplete c'
        then emit (quit_scheduled 0) (emit (error no_environment critical_level) c')
        else c' in
      run_apk sys file c''

  -- The options behind the file and `launcham`, in the order of the tests.
  pub run_option : Options → Controller → Controller
  run_option o c =
      if o.start
      then start sys c
      else if o.zygote
      then start_zygote sys c
      else if o.surfaceflinger
      then start_surfaceflinger sys c
      else if o.servicemanager
      then start_servicemanager sys c
      else if o.installd
      then start_installd sys c
      else if o.adbd
      then start_adbd sys c
      else if o.restart
      then restart sys c
      else if o.stop
      then emit (quit_scheduled 0) (stop c)
      else if o.status
      then print_status c
      else emit view_opened (set_quit_on_error false c)

  pub run_main : Options → Controller → Controller
  run_main o c = elim o.apkfile [
    | file ∷ files ↦ open_apk file c
    | [] ↦ elim o.launcham [ some arguments ↦ run_am sys arguments c | none ↦ run_option o c ]
  ]
