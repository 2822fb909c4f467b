-- ===== src/Controller/Services.antt =====
-- Controller.cpp: the services are started and stopped.
pub mod Stopping
pub mod Restart
use xylitol.Common.{
  ℕ, ◌+◌, Bool, true, false, Option, none, some, List, [], ◌∷◌, ◌++◌, if◌then◌else◌, Bytes, codes,
}
use xylitol.Common.Int.{ℤ}
use xylitol.Controller.{
  Service, zygote, service_manager, surfaceflinger, installd, bootanimation, adbd, Tracker,
  already_running, critical_level, error, running_changed, started, killed, deleted_later,
  Controller, System, set, emit, quit_if_asked,
}

abbrev pub is_some {ℓ} : {A : Type ℓ} → Option A → Bool
is_some none = false
is_some (some x) = true

-- zygoteRunning(), surfaceflingerRunning(), …
abbrev pub running : Service → Controller → Bool
running s c = is_some (c.tracker s)

-- The trackers are told to end their processes.
unfoldable pub kill_service : Service → Controller → Controller
kill_service s c = elim (c.tracker s) [ none ↦ c | some t ↦ emit (killed t.process_id) c ]

unfoldable pub kill_applications : List Tracker → Controller → Controller
kill_applications [] c = c
kill_applications (t ∷ trackers) c =
    kill_applications trackers (emit (deleted_later t.address) (emit (killed t.process_id) c))

unfoldable pub stop : Controller → Controller
stop c =
    let services = kill_service zygote (
      kill_service adbd (
        kill_service service_manager
          (kill_service bootanimation (kill_service installd (kill_service surfaceflinger c))))) in
    record (kill_applications c.application_trackers services) { application_trackers = [] }

module _ (sys : System) where
  -- What the six functions share behind their tests: a process is started and tracked.
  unfoldable pub launch : Service → Bytes → List Bytes → Controller → Controller
  launch s program arguments c =
      let process = c.fresh in
      let events = started process program arguments ∷ c.events in
      let pid = sys.process_id events process in
      record c {
        process = set s (some process) c.process;
        tracker =
            set s
              (some (record {
                address = process + 1;
                process_id = pid;
                arguments = sys.cmdline events pid;
              }))
              c.tracker;
        fresh = process + 2;
        events = running_changed s ∷ events;
      }

  abbrev pub system_bin : Bytes → Bytes
  system_bin name = sys.android_root ++ codes "/system/bin/" ++ name

  unfoldable pub start_zygote : Controller → Controller
  start_zygote c =
      if running zygote c
      then c
      else launch zygote (system_bin (codes "shashlik_launcher"))
          (codes "-Xzygote" ∷ system_bin [] ∷ codes "--zygote" ∷ codes "--start-system-server" ∷ [])
          c

  unfoldable pub start_surfaceflinger : Controller → Controller
  start_surfaceflinger c =
      if running surfaceflinger c
      then c
      else launch surfaceflinger (system_bin (codes "surfaceflinger")) [] c

  unfoldable pub start_servicemanager : Controller → Controller
  start_servicemanager c =
      if running service_manager c
      then quit_if_asked (emit (error already_running critical_level) c)
      else launch service_manager (system_bin (codes "servicemanager")) [] c

  unfoldable pub start_adbd : Controller → Controller
  start_adbd c = if running adbd c then c else launch adbd (system_bin (codes "adbd")) [] c

  unfoldable pub start_installd : Controller → Controller
  start_installd c =
      if running installd c then c else launch installd (system_bin (codes "installd")) [] c

  unfoldable pub start_bootanimation : Controller → Controller
  start_bootanimation c =
      if running bootanimation c
      then c
      else launch bootanimation (system_bin (codes "bootanimation")) [] c

  unfoldable pub start : Controller → Controller
  start c =
      start_adbd (start_zygote (start_surfaceflinger (start_installd (start_servicemanager c))))

  unfoldable pub restart : Controller → Controller
  restart c = start (stop c)
