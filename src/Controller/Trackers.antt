-- ===== src/Controller/Trackers.antt =====
-- ProcessTracker.cpp and the constructor of `Controller`: the processes that run already are found
-- in /proc and tracked.
pub mod Arguments
pub mod Given
use xylitol.Common.{
  ℕ, zero, suc, ◌+◌, Bool, true, false, ◌||◌, Option, none, some, List, [], ◌∷◌, ◌++◌, ◌==◌,
  if◌then◌else◌, Bytes, codes, eqb_bytes,
}
use xylitol.Common.Int.{ℤ}
use xylitol.Controller.{
  Service, zygote, service_manager, surfaceflinger, installd, bootanimation, adbd, Tracker,
  Controller, System, set,
}
use xylitol.Controller.Services.{system_bin}

-- The loops over the decoded text of /proc/<pid>/cmdline: an argument ends at a NUL, and the last one at
-- the end of the text. A text that ends otherwise is read past its end, which is undefined.
unfoldable pub read_arguments : Bytes → Bytes → Option (List Bytes)
read_arguments arg [] = none
read_arguments arg (c ∷ text) =
    let rest = read_arguments [] text in
    let more = read_arguments (arg ++ (c ∷ [])) text in
    if c == 0
    then (elim text [
      | [] ↦ some (arg ∷ [])
      | _ ∷ _ ↦ elim rest [ none ↦ none | some arguments ↦ some (arg ∷ arguments) ]
    ])
    else more

-- An entry of /proc: its name, the file that its `exe` leads to, and its `cmdline`, or none where
-- that cannot be opened.
pub record Entry : Type 0 where
  pub name : Bytes
  pub exe : Bytes
  pub cmdline : Option Bytes

-- QString::toInt, QString::number, and the characters that a QTextStream reads from a file with these
-- bytes which is opened with QFile::Text: carriage returns may be lost, and the codec is that of the
-- locale.
pub record Numbers : Type 0 where
  pub to_int : Bytes → ℤ
  pub number : ℤ → Bytes
  pub decode : Bytes → Bytes

-- The arguments that the constructor of a tracker reads.
abbrev pub arguments_of : Numbers → Entry → Option (List Bytes)
arguments_of numbers entry = elim entry.cmdline [
  | none ↦ some []
  | some text ↦ read_arguments [] (numbers.decode text)
]

-- trackers.at(0), where there is one
abbrev pub found : Service → List Tracker → Controller → Controller
found s [] c = c
found s (t ∷ trackers) c = record c { tracker = set s (some t) c.tracker }

module _ (numbers : Numbers) where
  -- The trackers, and the address behind them.
  unfoldable pub get_trackers : Bytes → List Entry → ℕ → Option (List Tracker × ℕ)
  get_trackers path [] fresh = some ([], fresh)
  get_trackers path (entry ∷ entries) fresh =
      let pid = numbers.to_int entry.name in
      let skipped = get_trackers path entries fresh in
      let rest = get_trackers path entries (fresh + 1) in
      if eqb_bytes entry.name (numbers.number pid)
      then (if eqb_bytes entry.exe path
          then (elim (arguments_of numbers entry) [
            | none ↦ none
            | some arguments ↦ elim rest [
              | none ↦ none
              | some (trackers, fresh') ↦ some (
                record { address = fresh; process_id = pid; arguments = arguments } ∷ trackers,
                fresh',
              )
            ]
          ])
          else skipped)
      else skipped

  unfoldable pub track : Service → Bytes → List Entry → Option Controller → Option Controller
  track s path entries none = none
  track s path entries (some c) = elim (get_trackers path entries c.fresh) [
    | none ↦ none
    | some (trackers, fresh) ↦ some (record (found s trackers c) { fresh = fresh })
  ]

-- The loop over the arguments; `stale` is what the variable, which is not initialised, holds.
unfoldable pub is_zygote : Bool → List Bytes → Bool
is_zygote stale [] = stale
is_zygote stale (arg ∷ arguments) =
    if eqb_bytes arg (codes "-Xzygote") then true else is_zygote stale arguments

unfoldable pub sort_launchers : (ℕ → Bool) → List Tracker → Controller → Controller
sort_launchers stale [] c = c
sort_launchers stale (t ∷ trackers) c = sort_launchers stale trackers (
    if is_zygote (stale t.address) t.arguments
    then record c { tracker = set zygote (some t) c.tracker }
    else record c { application_trackers = c.application_trackers ++ (t ∷ []) })

abbrev pub empty : Controller
empty = record {
  quit_on_error = true;
  process = λ _. none;
  tracker = λ _. none;
  applications = [];
  application_trackers = [];
  fresh = 1;
  events = [];
}

-- The constructor, where the entries of /proc do not change meanwhile.
unfoldable pub new_controller : System → Numbers → List Entry → (ℕ → Bool) → Option Controller
new_controller sys numbers entries stale =
    let services = track numbers adbd (system_bin sys (codes "adbd")) entries (
      track numbers bootanimation (system_bin sys (codes "bootanimation")) entries (
        track numbers installd (system_bin sys (codes "installd")) entries (
          track numbers surfaceflinger (system_bin sys (codes "surfaceflinger")) entries (
            track numbers service_manager (system_bin sys (codes "servicemanager")) entries
              (some empty))))) in
    elim services [
      | none ↦ none
      | some c ↦
          elim (get_trackers numbers (system_bin sys (codes "shashlik_launcher")) entries c.fresh) [
            | none ↦ none
            | some (launchers, fresh) ↦
                some (sort_launchers stale launchers (record c { fresh = fresh }))
          ]
    ]
