-- ===== src/Controller/Signals/Ends.antt =====
-- Processes that end: those that take the others with them, and those of applications.
use xylitol.Common.{
  ℕ, ◌==◌, ◌≡◌, ◌≢◌, refl, ap, ◌∙◌, true, false, Option, none, some, [], ◌∷◌, if◌then◌else◌, arith,
}
use xylitol.Common.Int.{ℤ, pos, eqb_ℤ}
use xylitol.Controller.{
  Service, zygote, service_manager, surfaceflinger, installd, bootanimation, adbd, Tracker,
  Description, zygote_exited, service_manager_exited, program_exited, application_crashed,
  warning_level, critical_level, error, killed, quit_scheduled, normal_exit, Controller, emit,
  quit_if_asked,
}
use xylitol.Controller.Services.{stop}
use xylitol.Controller.Services.Stopping.{
  Happened, now, before, IsTracked, stop_lem, stop-IsTracked,
}
use xylitol.Controller.Signals.{
  first_of, is_process, is_tracker, process_order, tracker_order, find_application, service_exited,
  process_exited, delete_tracker, remove_all, first_with_process, remove_application_tracker,
  tracker_exited,
}

-- The services whose end stops all.
pub data IsEssential : Service → Type 0 where
  essential_zygote : IsEssential zygote
  essential_service_manager : IsEssential service_manager

exit_lem :
    (proc : ℕ) (code status : ℤ) (s : Service) (c : Controller)
    → first_of (is_process proc c) process_order ≡ some s
    → process_exited proc code status c ≡ service_exited s code status c
unfolding process_exited
exit_lem proc code status s c which =
    ap
      (λ (o : Option Service). elim o [
        | some s ↦ service_exited s code status c
        | none ↦ elim (find_application proc c.applications) [
          | some a ↦ quit_if_asked (
              if eqb_ℤ code (pos 1)
              then emit (error (application_crashed a.name) warning_level) c
              else emit (normal_exit a.name) c)
          | none ↦ emit (error (program_exited proc) warning_level) c
        ]
      ])
      which

quit_lem :
    (c : Controller) → c.quit_on_error ≡ true → quit_if_asked c ≡ emit (quit_scheduled 1000) c
quit_lem c asked = rw asked refl

stop_asked : (c : Controller) → (stop c).quit_on_error ≡ c.quit_on_error
stop_asked c = ap (λ (c : Controller). c.quit_on_error) (stop_lem c)

-- When the process of zygote or of the service manager ends and quitting is asked for, SIGTERM goes
-- to the process of every tracker that the controller holds, the trackers of the applications are
-- dropped, and quitting is scheduled.
pub process_exited-IsEssential :
    (proc : ℕ) (code status : ℤ) (s : Service) (c : Controller) (t : Tracker)
    → IsEssential s
    → first_of (is_process proc c) process_order ≡ some s
    → c.quit_on_error ≡ true
    → IsTracked t c
    → let c' = process_exited proc code status c in
      Happened (killed t.process_id) c'.events
      × Happened (quit_scheduled 1000) c'.events
      × (c'.application_trackers ≡ [])
unfolding service_exited
process_exited-IsEssential proc code status s c t essential which asked tracked =
    rw (exit_lem proc code status s c which) (go s essential)
  where
    ended :
        (what : Description)
        → let c' = quit_if_asked (stop (emit (error what critical_level) c)) in
          Happened (killed t.process_id) c'.events
          × Happened (quit_scheduled 1000) c'.events
          × (c'.application_trackers ≡ [])
    ended what =
        let told = emit (error what critical_level) c in
        let stopped = stop-IsTracked told t tracked in
        rw (quit_lem (stop told) (stop_asked told ∙ asked)) (before stopped.0, now, stopped.1)

    go :
        (s : Service)
        → IsEssential s
        → let c' = service_exited s code status c in
          Happened (killed t.process_id) c'.events
          × Happened (quit_scheduled 1000) c'.events
          × (c'.application_trackers ≡ [])
    go zygote essential_zygote = ended zygote_exited
    go service_manager essential_service_manager = ended service_manager_exited
    go surfaceflinger h = elim h [ ]
    go installd h = elim h [ ]
    go bootanimation h = elim h [ ]
    go adbd h = elim h [ ]

equal : (a : ℕ) → (a == a) ≡ true
equal a = ground arith

not_equal : (a b : ℕ) → a ≢ b → (a == b) ≡ false
not_equal a b h = ground arith

forget_lem :
    (c : Controller) (a b : Tracker)
    → c.application_trackers ≡ a ∷ b ∷ []
    → eqb_ℤ a.process_id (pos 0) ≡ false
    → a.address ≢ b.address
    → (remove_application_tracker c).application_trackers ≡ b ∷ []
unfolding remove_application_tracker first_with_process remove_all
forget_lem c a b held runs differ =
    simp
      (
        remove_application_tracker,
        held,
        runs,
        equal a.address,
        not_equal a.address b.address differ,
      )
      refl

unserved_lem :
    (sender : ℕ) (c : Controller)
    → first_of (is_tracker sender c) tracker_order ≡ none
    → tracker_exited sender c ≡ remove_application_tracker c
unfolding tracker_exited
unserved_lem sender c unserved =
    ap
      (λ (o : Option Service). elim o [
        | some s ↦ delete_tracker s c
        | none ↦ remove_application_tracker c
      ])
      unserved

-- Two applications run. When the tracker of the second one reports the end of its process, the
-- tracker of the first one is forgotten, and that of the second one stays.
pub tracker_exited-forgets :
    (c : Controller) (a b : Tracker)
    → c.application_trackers ≡ a ∷ b ∷ []
    → eqb_ℤ a.process_id (pos 0) ≡ false
    → a.address ≢ b.address
    → first_of (is_tracker b.address c) tracker_order ≡ none
    → (tracker_exited b.address c).application_trackers ≡ b ∷ []
tracker_exited-forgets c a b held runs differ unserved =
    ap (λ (c : Controller). c.application_trackers) (unserved_lem b.address c unserved)
    ∙ forget_lem c a b held runs differ
