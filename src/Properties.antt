-- ===== src/Properties.antt =====
-- legacy/old-shashlik/src/propertiesd/propertiesd.cpp: system properties, kept in the groups of a
-- QSettings. QSettings is the parameter `Settings`, on a type of states; what the code relies on is
-- `IsSettings` in Properties/Groups.antt. The limits and the commands come from Android's headers.
pub mod Groups
pub mod Defaults
mod Tests
use xylitol.Properties.Defaults.{defaults}
use xylitol.Common.{
  ℕ, zero, suc, ◌+◌, Bool, true, false, Option, none, some, List, [], ◌∷◌, ◌++◌, ◌==◌, ltb,
  if◌then◌else◌, Bytes, codes, length, take,
}

pub record Settings (S : Type 0) : Type 0 where
  pub begin_group : Bytes → S → S
  pub end_group : S → S
  pub set_value : Bytes → Bytes → S → S
  -- value(key, QString())
  pub value : Bytes → S → Bytes
  pub child_keys : S → List Bytes

pub record Limits : Type 0 where
  pub prop_name_max : ℕ
  pub prop_value_max : ℕ
  pub property_key_max : ℕ
  pub get : ℕ
  pub set : ℕ
  pub unknown : ℕ
  pub list : ℕ
  -- QString::fromLatin1, toLatin1
  pub from_latin1 : Bytes → Bytes
  pub to_latin1 : Bytes → Bytes

abbrev pub drop : ℕ → Bytes → Bytes
drop zero s = s
drop (suc n) [] = []
drop (suc n) (c ∷ s) = drop n s

-- A part that is not empty, before the others.
abbrev pub add_part : Bytes → List Bytes → List Bytes
add_part [] parts = parts
add_part (c ∷ part) parts = (c ∷ part) ∷ parts

-- split('.', SkipEmptyParts), with the part that is being read.
pub split : Bytes → Bytes → List Bytes
split part [] = add_part part []
split part (c ∷ s) =
    let rest = split [] s in
    let longer = split (part ++ (c ∷ [])) s in if c == b'.' then add_part part rest else longer

-- groups.last(), of a list that is not empty
pub last : Bytes → List Bytes → Bytes
last g [] = g
last g (h ∷ groups) = last h groups

-- What a request is answered with. The answer to `set` is the byte 1 and what follows it in memory
-- up to a NUL.
pub data Reply : Type 0 where
  silent : Reply
  answered : Bool → Bytes → Reply
  accepted : Reply
  refused : Reply

module _ {S : Type 0} (settings : Settings S) where
  pub begin_groups : Bytes → List Bytes → S → S
  begin_groups g [] s = s
  begin_groups g (h ∷ groups) s = begin_groups h groups (settings.begin_group g s)

  pub end_groups : List Bytes → S → S
  end_groups [] s = s
  end_groups (h ∷ groups) s = settings.end_group (end_groups groups s)

  -- The truncated copy of the value is not used. The last part of a key without parts is undefined.
  pub write_property : Bytes → Bytes → S → Option S
  write_property [] value s = some s
  write_property (c ∷ key) value s = elim (split [] (c ∷ key)) [
    | [] ↦ none
    | g ∷ groups ↦
        some
          (end_groups groups (settings.set_value (last g groups) value (begin_groups g groups s)))
  ]

  pub read_property : Bytes → S → Option (Bytes × S)
  read_property [] s = some ([], s)
  read_property (c ∷ key) s = elim (split [] (c ∷ key)) [
    | [] ↦ none
    | g ∷ groups ↦
        let inside = begin_groups g groups s in
        some (settings.value (last g groups) inside, end_groups groups inside)
  ]

  pub write_all : List (Bytes × Bytes) → S → Option S
  write_all [] s = some s
  write_all ((key, value) ∷ properties) s = elim (write_property key value s) [
    | none ↦ none
    | some s' ↦ write_all properties s'
  ]

  pub init_properties : S → Option S
  init_properties s = elim (settings.child_keys s) [ [] ↦ write_all defaults s | _ ∷ _ ↦ some s ]

  -- The answer is written behind its first byte in a buffer of prop_value_max + 1 bytes, with a NUL
  -- at the place behind the NUL of the text.
  pub answer : Limits → Bytes × S → Option (Reply × S)
  answer limits (text, s) =
      let rv = limits.to_latin1 text in
      if ltb limits.prop_value_max (length rv + 2)
      then none
      else some (answered (ltb 0 (length rv)) rv, s)

  -- The request is read up to its greatest size.
  pub read_request : Limits → Bytes → S → Option (Reply × S)
  read_request limits input s =
      elim (take (limits.prop_name_max + limits.prop_value_max + 1) input) [
        | [] ↦ some (silent, s)
        | command ∷ [] ↦ some (silent, s)
        | command ∷ c ∷ rest ↦
            if command == limits.unknown
            then some (silent, s)
            else if command == limits.get
            then (elim (read_property (limits.from_latin1 (c ∷ rest)) s) [
              | none ↦ none
              | some found ↦ answer limits found
            ])
            else if command == limits.set
            then (elim (write_property
                (limits.from_latin1 (take limits.property_key_max (c ∷ rest)))
                (limits.from_latin1 (drop limits.property_key_max (c ∷ rest))) s) [
                  | none ↦ none
                  | some s' ↦ some (accepted, s')
                ])
            else if command == limits.list
            then some (silent, s)
            else some (refused, s)
      ]
