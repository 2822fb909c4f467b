-- ===== src/Properties/Groups.antt =====
-- What is written is read again.
use mathlib.Core.List.{append_assoc, append-nil}
use xylitol.Common.{ℕ, ◌≡◌, refl, sym, ap, ◌∙◌, some, List, [], ◌∷◌, ◌++◌, Bytes}
use xylitol.Properties.{
  Settings, split, last, begin_groups, end_groups, write_property, read_property,
}

-- The documented behaviour of QSettings: a group is entered below the current one and left again,
-- and a value is stored below the groups that are entered.
pub record IsSettings {S : Type 0} (settings : Settings S) : Type 0 where
  pub groups : S → List Bytes
  pub stored : S → List Bytes → Bytes
  pub groups-begin : (g : Bytes) (s : S) → groups (settings.begin_group g s) ≡ groups s ++ (g ∷ [])
  pub stored-begin : (g : Bytes) (s : S) → stored (settings.begin_group g s) ≡ stored s
  pub groups-end :
      (g : Bytes) (p : List Bytes) (s : S)
      → groups s ≡ p ++ (g ∷ [])
      → groups (settings.end_group s) ≡ p
  pub stored-end : (s : S) → stored (settings.end_group s) ≡ stored s
  pub groups-set : (k v : Bytes) (s : S) → groups (settings.set_value k v s) ≡ groups s
  pub stored-set :
      (k v : Bytes) (s : S) → stored (settings.set_value k v s) (groups s ++ (k ∷ [])) ≡ v
  pub value_is : (k : Bytes) (s : S) → settings.value k s ≡ stored s (groups s ++ (k ∷ []))

-- The groups of a key, without its last part.
front : Bytes → List Bytes → List Bytes
front g [] = []
front g (h ∷ groups) = g ∷ front h groups

module _ {S : Type 0} (settings : Settings S) (laws : IsSettings settings) where
  begun_groups :
      (g : Bytes) (groups : List Bytes) (s : S)
      → laws.groups (begin_groups settings g groups s) ≡ laws.groups s ++ front g groups
  unfolding begin_groups front
  begun_groups g [] s = sym (append-nil (laws.groups s))
  begun_groups g (h ∷ groups) s =
      begun_groups h groups (settings.begin_group g s)
      ∙ ap (λ (p : List Bytes). p ++ front h groups) (laws.groups-begin g s)
      ∙ append_assoc (laws.groups s) (g ∷ []) (front h groups)

  begun_stored :
      (g : Bytes) (groups : List Bytes) (s : S)
      → laws.stored (begin_groups settings g groups s) ≡ laws.stored s
  unfolding begin_groups
  begun_stored g [] s = refl
  begun_stored g (h ∷ groups) s =
      begun_stored h groups (settings.begin_group g s) ∙ laws.stored-begin g s

  ended_groups :
      (g : Bytes) (groups p : List Bytes) (s : S)
      → laws.groups s ≡ p ++ front g groups
      → laws.groups (end_groups settings groups s) ≡ p
  unfolding end_groups front
  ended_groups g [] p s e = e ∙ append-nil p
  ended_groups g (h ∷ groups) p s e =
      laws.groups-end g p (end_groups settings groups s) (
        ended_groups h groups (p ++ (g ∷ [])) s
          (e ∙ sym (append_assoc p (g ∷ []) (front h groups))))

  ended_stored :
      (groups : List Bytes) (s : S) → laws.stored (end_groups settings groups s) ≡ laws.stored s
  unfolding end_groups
  ended_stored [] s = refl
  ended_stored (h ∷ groups) s =
      laws.stored-end (end_groups settings groups s) ∙ ended_stored groups s

  -- A key that is not empty and has a part between its dots: writing a value under it and reading it
  -- gives back the whole value, however long it is, and both leave the groups that were entered.
  pub read_property-write_property :
      (c : ℕ) (key value g : Bytes) (groups : List Bytes) (s : S)
      → split [] (c ∷ key) ≡ g ∷ groups
      → (written : S) × (behind : S) × (write_property settings (c ∷ key) value s ≡ some written)
        × (read_property settings (c ∷ key) written ≡ some (value, behind))
        × (laws.groups written ≡ laws.groups s)
        × (laws.groups behind ≡ laws.groups s)
  unfolding write_property read_property
  read_property-write_property c key value g groups s parts =
      let inside = begin_groups settings g groups s in
      let set = settings.set_value (last g groups) value inside in
      let written = end_groups settings groups set in
      let again = begin_groups settings g groups written in
      let in_groups : laws.groups inside ≡ laws.groups s ++ front g groups =
        begun_groups g groups s in
      let left : laws.groups written ≡ laws.groups s =
        ended_groups g groups (laws.groups s) set
          (laws.groups-set (last g groups) value inside ∙ in_groups) in
      let same : laws.groups again ≡ laws.groups inside =
        begun_groups g groups written
        ∙ ap (λ (p : List Bytes). p ++ front g groups) left
        ∙ sym in_groups in
      let kept : laws.stored again ≡ laws.stored set =
        begun_stored g groups written ∙ ended_stored groups set in
      let found : settings.value (last g groups) again ≡ value =
        laws.value_is (last g groups) again
        ∙ ap (λ (f : List Bytes → Bytes). f (laws.groups again ++ (last g groups ∷ []))) kept
        ∙ ap (λ (p : List Bytes). laws.stored set (p ++ (last g groups ∷ []))) same
        ∙ laws.stored-set (last g groups) value inside in
      (
        written,
        end_groups settings groups again,
        rw (parts, write_property) refl,
        rw (parts, read_property)
            (ap (λ (v : Bytes). some (v, end_groups settings groups again)) found),
        left,
        ended_groups g groups (laws.groups s) again (same ∙ in_groups),
      )
