-- ===== src/Controller/Applications.antt =====
-- Controller.cpp: applications are launched.
use xylitol.Common.{
  ℕ, zero, suc, ◌+◌, Bool, true, ◌&&◌, List, [], ◌∷◌, ◌++◌, ◌==◌, if◌then◌else◌, Bytes, codes,
  eqb_bytes, take,
}
use xylitol.Controller.{Tracker, started, Controller, System}
use xylitol.Controller.Services.{system_bin}

abbrev pub starts_with : Bytes → Bytes → Bool
starts_with s prefix = eqb_bytes (take 7 s) prefix

abbrev pub mid : ℕ → Bytes → Bytes
mid zero s = s
mid (suc n) [] = []
mid (suc n) (c ∷ s) = mid n s

-- apkFile.split("/").last()
unfoldable pub after_slash : Bytes → Bytes → Bytes
after_slash last [] = last
after_slash last (c ∷ s) = if c == b'/' then after_slash [] s else after_slash (last ++ (c ∷ [])) s

module _ (sys : System) where
  -- waitForZygoteReady() is always true.
  abbrev pub wait_for_zygote_ready : Bool
  wait_for_zygote_ready = true

  abbrev pub local_file : Bytes → Bytes
  local_file apk_file =
      if starts_with (sys.to_lower apk_file) (codes "file://") then mid 7 apk_file else apk_file

  -- A process with the launcher and the arguments of the command.
  abbrev pub launch_application : Bytes → List Bytes → Controller → Controller
  launch_application name arguments c = record c {
    applications = c.applications ++ (record { address = c.fresh; name = name } ∷ []);
    fresh = c.fresh + 1;
    events = started c.fresh (system_bin sys (codes "shashlik_launcher")) arguments ∷ c.events;
  }

  unfoldable pub run_apk : Bytes → Controller → Controller
  run_apk apk_file c =
      let file = local_file apk_file in
      if sys.exists file && wait_for_zygote_ready
      then (let process = c.fresh in
          let c' =
            launch_application (after_slash [] file)
              (system_bin sys [] ∷ codes "com.android.commands.launch.Launch" ∷ file ∷ []) c in
          let pid = sys.process_id c'.events process in
          let tracker : Tracker = record {
            address = c'.fresh;
            process_id = pid;
            arguments = sys.cmdline c'.events pid;
          } in
          record c' {
            application_trackers = c'.application_trackers ++ (tracker ∷ []);
            fresh = c'.fresh + 1;
          })
      else c

  unfoldable pub run_am : Bytes → Controller → Controller
  run_am arguments c =
      if wait_for_zygote_ready
      then launch_application (codes "ActivityManager")
          (system_bin sys [] ∷ codes "com.android.commands.am.Am" ∷ arguments ∷ []) c
      else c
