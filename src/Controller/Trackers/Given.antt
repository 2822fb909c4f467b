-- ===== src/Controller/Trackers/Given.antt =====
-- The addresses of the trackers that `getTrackers` makes.
use native.Mathlib.Nat.{le_refl}
use xylitol.Common.{
  ℕ, ◌+◌, ◌≤◌, ◌<◌, inl, inr, Bool-cases, Option, none, some, List, [], ◌∷◌, Bytes, eqb_bytes,
  arith,
}
use xylitol.Controller.{Tracker}
use xylitol.Controller.Trackers.{Entry, Numbers, arguments_of, get_trackers}

-- The addresses of the trackers lie from `low` on, below `high`.
pub data AllIn (low high : ℕ) : List Tracker → Type 0 where
  no_trackers : AllIn low high []
  a_tracker :
      {t : Tracker} {trackers : List Tracker}
      → low ≤ t.address
      → t.address < high
      → AllIn low high trackers
      → AllIn low high (t ∷ trackers)

widen :
    (low high : ℕ) (trackers : List Tracker)
    → AllIn (low + 1) high trackers
    → AllIn low high trackers
widen low high [] no_trackers = no_trackers
widen low high (t ∷ trackers) (a_tracker above below all) =
    a_tracker (omega arith) below (widen low high trackers all)

abbrev pub IsGiven : ℕ → Option (List Tracker × ℕ) → Type 0
IsGiven fresh none = fresh ≤ fresh
IsGiven fresh (some (trackers, fresh')) = (fresh ≤ fresh') × AllIn fresh fresh' trackers

pub get_trackers-IsGiven :
    (numbers : Numbers) (path : Bytes) (entries : List Entry) (fresh : ℕ)
    → IsGiven fresh (get_trackers numbers path entries fresh)
unfolding get_trackers
get_trackers-IsGiven numbers path [] fresh = (le_refl fresh, no_trackers)
get_trackers-IsGiven numbers path (entry ∷ entries) fresh =
    elim (Bool-cases (eqb_bytes entry.name (numbers.number (numbers.to_int entry.name)))) [
      | inr e ↦ rw e (get_trackers-IsGiven numbers path entries fresh)
      | inl e ↦ elim (Bool-cases (eqb_bytes entry.exe path)) [
        | inr k ↦ rw (e, k) (get_trackers-IsGiven numbers path entries fresh)
        | inl k ↦
            rw (e, k)
              (go (arguments_of numbers entry) (get_trackers numbers path entries (fresh + 1))
                (get_trackers-IsGiven numbers path entries (fresh + 1)))
      ]
    ]
  where
    go :
        (o : Option (List Bytes)) (rest : Option (List Tracker × ℕ))
        → IsGiven (fresh + 1) rest
        → IsGiven fresh (elim o [
          | none ↦ none
          | some arguments ↦ elim rest [
            | none ↦ none
            | some (trackers, fresh') ↦ some (
              record {
                address = fresh;
                process_id = numbers.to_int entry.name;
                arguments = arguments;
              }
                  ∷ trackers,
              fresh',
            )
          ]
        ])
    go none rest h = le_refl fresh
    go (some arguments) none h = le_refl fresh
    go (some arguments) (some (trackers, fresh')) h = (
      omega (arith, h.0),
      a_tracker (le_refl fresh) (omega (arith, h.0)) (widen fresh fresh' trackers h.1),
    )
