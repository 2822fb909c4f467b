-- ===== src/Controller/Services/Restart.antt =====
-- Starting what runs already, and starting behind `stop`.
use xylitol.Common.{◌≡◌, refl, Bool, true, false, if◌then◌else◌}
use xylitol.Controller.{
  Service, zygote, service_manager, surfaceflinger, installd, adbd, already_running, critical_level,
  error, Controller, quit_scheduled, System, emit, quit_if_asked,
}
use xylitol.Controller.Services.{
  running, stop, start_zygote, start_surfaceflinger, start_servicemanager, start_adbd,
  start_installd, start, restart,
}
use xylitol.Controller.Services.Stopping.{stop_lem}

-- The five services that `start` starts are running.
pub record AllRunning (c : Controller) : Type 0 where
  pub zygote_runs : running zygote c ≡ true
  pub service_manager_runs : running service_manager c ≡ true
  pub surfaceflinger_runs : running surfaceflinger c ≡ true
  pub installd_runs : running installd c ≡ true
  pub adbd_runs : running adbd c ≡ true

-- The refusal to start a second service manager.
abbrev pub refuse : Controller → Controller
refuse c = quit_if_asked (emit (error already_running critical_level) c)

pub quit_keeps : (c : Controller) → (quit_if_asked c).tracker ≡ c.tracker
quit_keeps c = go c.quit_on_error
  where
    go : (b : Bool) → (if b then emit (quit_scheduled 1000) c else c).tracker ≡ c.tracker
    go true = refl
    go false = refl

still_running : (s : Service) (c : Controller) → running s c ≡ true → running s (refuse c) ≡ true
still_running s c h = rw quit_keeps h

running_stopped : (s : Service) (c : Controller) → running s c ≡ true → running s (stop c) ≡ true
running_stopped s c h = rw stop_lem h

stop-AllRunning : (c : Controller) → AllRunning c → AllRunning (stop c)
stop-AllRunning c all = record {
  zygote_runs = running_stopped zygote c all.zygote_runs;
  service_manager_runs = running_stopped service_manager c all.service_manager_runs;
  surfaceflinger_runs = running_stopped surfaceflinger c all.surfaceflinger_runs;
  installd_runs = running_stopped installd c all.installd_runs;
  adbd_runs = running_stopped adbd c all.adbd_runs;
}

module _ (sys : System) where
  start_zygote_again : (c : Controller) → running zygote c ≡ true → start_zygote sys c ≡ c
  unfolding start_zygote
  start_zygote_again c h = rw h refl

  start_surfaceflinger_again :
      (c : Controller) → running surfaceflinger c ≡ true → start_surfaceflinger sys c ≡ c
  unfolding start_surfaceflinger
  start_surfaceflinger_again c h = rw h refl

  start_installd_again : (c : Controller) → running installd c ≡ true → start_installd sys c ≡ c
  unfolding start_installd
  start_installd_again c h = rw h refl

  start_adbd_again : (c : Controller) → running adbd c ≡ true → start_adbd sys c ≡ c
  unfolding start_adbd
  start_adbd_again c h = rw h refl

  start_servicemanager_again :
      (c : Controller) → running service_manager c ≡ true → start_servicemanager sys c ≡ refuse c
  unfolding start_servicemanager
  start_servicemanager_again c h = rw h refl

  start_lem : (c : Controller) → AllRunning c → start sys c ≡ refuse c
  unfolding start
  start_lem c all =
      simp
        (
          start_servicemanager_again c all.service_manager_runs,
          start_installd_again (refuse c) (still_running installd c all.installd_runs),
          start_surfaceflinger_again (refuse c)
              (still_running surfaceflinger c all.surfaceflinger_runs),
          start_zygote_again (refuse c) (still_running zygote c all.zygote_runs),
          start_adbd_again (refuse c) (still_running adbd c all.adbd_runs),
        )
        refl

  -- A restart of the five services that run does not start them again: it stops them, reports that
  -- a service manager is already running, and quits where that is asked for.
  pub restart-AllRunning :
      (c : Controller)
      → AllRunning c
      → restart sys c ≡ quit_if_asked (emit (error already_running critical_level) (stop c))
  unfolding restart
  restart-AllRunning c all = start_lem (stop c) (stop-AllRunning c all)
