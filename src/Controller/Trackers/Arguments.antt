-- ===== src/Controller/Trackers/Arguments.antt =====
-- What the constructor makes, and the arguments that a tracker reads.
use mathlib.Core.Option.{some-injective, none-ne-some}
use mathlib.Core.List.{append_assoc, append-nil}
use xylitol.Common.{
  ℕ, ◌<◌, ◌≡◌, ◌≢◌, refl, sym, ap, ◌∙◌, Bool, true, false, Option, none, some, List, [], ◌∷◌, ◌++◌,
  ◌==◌, if◌then◌else◌, Bytes, codes, arith,
}
use xylitol.Controller.{
  Service, zygote, service_manager, surfaceflinger, installd, bootanimation, adbd, Tracker,
  Controller, System, set,
}
use xylitol.Controller.Services.{system_bin}
use xylitol.Controller.Trackers.{
  read_arguments, arguments_of, Entry, Numbers, get_trackers, found, track, is_zygote,
  sort_launchers, empty, new_controller,
}

-- A controller without events, where there is one.
abbrev Silent : Option Controller → Type 0
Silent o = (c : Controller) → o ≡ some c → c.events ≡ []

Silent-some : (c : Controller) → c.events ≡ [] → Silent (some c)
Silent-some c h d e = ap (λ (c : Controller). c.events) (sym (some-injective c d e)) ∙ h

Silent-none : Silent none
Silent-none d e = absurd (none-ne-some d e)

found_events :
    (s : Service) (trackers : List Tracker) (c : Controller)
    → (found s trackers c).events ≡ c.events
found_events s [] c = refl
found_events s (t ∷ trackers) c = refl

track-Silent :
    (numbers : Numbers) (s : Service) (path : Bytes) (entries : List Entry) (o : Option Controller)
    → Silent o
    → Silent (track numbers s path entries o)
unfolding track
track-Silent numbers s path entries none h = Silent-none
track-Silent numbers s path entries (some c) h = go (get_trackers numbers path entries c.fresh)
  where
    go :
        (o : Option (List Tracker × ℕ))
        → Silent (elim o [
          | none ↦ none
          | some (trackers, fresh) ↦ some (record (found s trackers c) { fresh = fresh })
        ])
    go none = Silent-none
    go (some (trackers, fresh)) = Silent-some _ (found_events s trackers c ∙ h c refl)

sort_launchers_events :
    (stale : ℕ → Bool) (trackers : List Tracker) (c : Controller)
    → (sort_launchers stale trackers c).events ≡ c.events
unfolding sort_launchers
sort_launchers_events stale [] c = refl
sort_launchers_events stale (t ∷ trackers) c =
    sort_launchers_events stale trackers _ ∙ go (is_zygote (stale t.address) t.arguments)
  where
    go :
        (b : Bool)
        → (if b
            then record c { tracker = set zygote (some t) c.tracker }
            else record c { application_trackers = c.application_trackers ++ (t ∷ []) }).events
          ≡ c.events
    go true = refl
    go false = refl

pub new_controller-events :
    (sys : System) (numbers : Numbers) (entries : List Entry) (stale : ℕ → Bool)
    (first : Controller)
    → new_controller sys numbers entries stale ≡ some first
    → first.events ≡ []
unfolding new_controller
new_controller-events sys numbers entries stale first made =
    go _
      (track-Silent numbers adbd (system_bin sys (codes "adbd")) entries _ (
        track-Silent numbers bootanimation (system_bin sys (codes "bootanimation")) entries _ (
          track-Silent numbers installd (system_bin sys (codes "installd")) entries _ (
            track-Silent numbers surfaceflinger (system_bin sys (codes "surfaceflinger")) entries _
              (track-Silent numbers service_manager (system_bin sys (codes "servicemanager"))
                entries _ (Silent-some empty refl))))))
      first made
  where
    sorted :
        (c : Controller)
        → c.events ≡ []
        → (o : Option (List Tracker × ℕ))
        → Silent (elim o [
          | none ↦ none
          | some (launchers, fresh) ↦
              some (sort_launchers stale launchers (record c { fresh = fresh }))
        ])
    sorted c h none = Silent-none
    sorted c h (some (trackers, fresh)) = Silent-some _ (sort_launchers_events stale trackers _ ∙ h)

    go :
        (o : Option Controller)
        → Silent o
        → Silent (elim o [
          | none ↦ none
          | some c ↦
              elim (get_trackers numbers
                (system_bin sys (codes "shashlik_launcher"))
                entries
                c.fresh) [
                  | none ↦ none
                  | some (launchers, fresh) ↦
                      some (sort_launchers stale launchers (record c { fresh = fresh }))
                ]
        ])
    go none h = Silent-none
    go (some c) h = sorted c (h c refl) (get_trackers numbers _ entries c.fresh)

-- The text of `cmdline`: every argument with a NUL behind it.
pub write_arguments : List Bytes → Bytes
write_arguments [] = []
write_arguments (arg ∷ arguments) = arg ++ (0 ∷ write_arguments arguments)

-- ASCII, without a carriage return.
pub data IsAscii : Bytes → Type 0 where
  empty_text : IsAscii []
  text_byte : {c : ℕ} {text : Bytes} → c < 128 → c ≢ 13 → IsAscii text → IsAscii (c ∷ text)

-- What is used of the text stream: it reads such bytes as they are, as the codecs that extend ASCII
-- do.
pub record ReadsAscii (numbers : Numbers) : Type 0 where
  pub reads : (text : Bytes) → IsAscii text → numbers.decode text ≡ text

-- No byte is NUL.
pub data NoNul : Bytes → Type 0 where
  empty_argument : NoNul []
  argument_byte : {c : ℕ} {text : Bytes} → c ≢ 0 → NoNul text → NoNul (c ∷ text)

-- Arguments of ASCII without NUL and carriage returns.
pub data AllPlain : List Bytes → Type 0 where
  no_arguments : AllPlain []
  an_argument :
      {arg : Bytes} {arguments : List Bytes}
      → NoNul arg
      → IsAscii arg
      → AllPlain arguments
      → AllPlain (arg ∷ arguments)

nul_free : (c : ℕ) → c ≢ 0 → (c == 0) ≡ false
nul_free c h = ground arith

-- One argument is read up to its NUL.
read_one :
    (so_far arg rest : Bytes)
    → NoNul arg
    → read_arguments so_far (arg ++ (0 ∷ rest)) ≡ read_arguments (so_far ++ arg) (0 ∷ rest)
unfolding read_arguments
read_one so_far [] rest empty_argument =
    ap (λ (text : Bytes). read_arguments text (0 ∷ rest)) (sym (append-nil so_far))
read_one so_far (c ∷ arg) rest (argument_byte some_byte more) = rw (nul_free c some_byte) (
    read_one (so_far ++ (c ∷ [])) arg rest more
    ∙ ap (λ (text : Bytes). read_arguments text (0 ∷ rest)) (append_assoc so_far (c ∷ []) arg))

-- Another argument stands behind the NUL.
read_next :
    (arg next rest : Bytes) (arguments : List Bytes)
    → read_arguments [] (next ++ (0 ∷ rest)) ≡ some arguments
    → read_arguments arg (0 ∷ (next ++ (0 ∷ rest))) ≡ some (arg ∷ arguments)
unfolding read_arguments
read_next arg [] rest arguments h =
    ap
      (λ (o : Option (List Bytes)). elim o [
        | none ↦ none
        | some arguments ↦ some (arg ∷ arguments)
      ])
      h
read_next arg (c ∷ next) rest arguments h =
    ap
      (λ (o : Option (List Bytes)). elim o [
        | none ↦ none
        | some arguments ↦ some (arg ∷ arguments)
      ])
      h

written_lem :
    (arg : Bytes) (arguments : List Bytes)
    → NoNul arg
    → AllPlain arguments
    → read_arguments [] (write_arguments (arg ∷ arguments)) ≡ some (arg ∷ arguments)
unfolding read_arguments write_arguments
written_lem arg [] clean no_arguments = read_one [] arg [] clean
written_lem arg (next ∷ arguments) clean (an_argument next_clean ascii all) =
    read_one [] arg (write_arguments (next ∷ arguments)) clean
    ∙ read_next arg next (write_arguments arguments) (next ∷ arguments)
        (written_lem next arguments next_clean all)

IsAscii-append : (a b : Bytes) → IsAscii a → IsAscii b → IsAscii (a ++ b)
IsAscii-append [] b empty_text i = i
IsAscii-append (c ∷ a) b (text_byte low other more) i =
    text_byte low other (IsAscii-append a b more i)

write_arguments-IsAscii :
    (arguments : List Bytes) → AllPlain arguments → IsAscii (write_arguments arguments)
unfolding write_arguments
write_arguments-IsAscii [] no_arguments = empty_text
write_arguments-IsAscii (arg ∷ arguments) (an_argument clean ascii all) =
    IsAscii-append arg (0 ∷ write_arguments arguments) ascii
      (text_byte (omega arith) (omega arith) (write_arguments-IsAscii arguments all))

-- Of a process whose `cmdline` is the text of at least one argument, a tracker reads just these
-- arguments, if they are ASCII without NUL and carriage returns and the text stream reads such bytes
-- as they are.
pub read-write_arguments :
    (numbers : Numbers) (entry : Entry) (arg : Bytes) (arguments : List Bytes)
    → ReadsAscii numbers
    → entry.cmdline ≡ some (write_arguments (arg ∷ arguments))
    → AllPlain (arg ∷ arguments)
    → arguments_of numbers entry ≡ some (arg ∷ arguments)
read-write_arguments numbers entry arg arguments stream text (an_argument clean ascii all) =
    let written = write_arguments-IsAscii (arg ∷ arguments) (an_argument clean ascii all) in
    ap
      (λ (o : Option Bytes). elim o [
        | none ↦ some []
        | some text ↦ read_arguments [] (numbers.decode text)
      ])
      text
    ∙ ap (read_arguments []) (stream.reads (write_arguments (arg ∷ arguments)) written)
    ∙ written_lem arg arguments clean all
