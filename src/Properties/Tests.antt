-- ===== src/Properties/Tests.antt =====
-- Settings that are a list of the groups that are entered and a function from paths to values.
use xylitol.Common.{
  ℕ, ◌≡◌, refl, ap, ◌∙◌, Bool, true, false, ◌&&◌, some, List, [], ◌∷◌, ◌++◌, ◌==◌, if◌then◌else◌,
  Bytes, codes, eqb_bytes, arith,
}
use xylitol.Properties.{Settings, split, write_property, read_property}
use xylitol.Properties.Groups.{IsSettings, read_property-write_property}

abbrev State : Type 0
State = List Bytes × (List Bytes → Bytes)

abbrev init : List Bytes → List Bytes
init [] = []
init (x ∷ []) = []
init (x ∷ y ∷ xs) = x ∷ init (y ∷ xs)

abbrev eqb_path : List Bytes → List Bytes → Bool
eqb_path [] [] = true
eqb_path [] (y ∷ ys) = false
eqb_path (x ∷ xs) [] = false
eqb_path (x ∷ xs) (y ∷ ys) = eqb_bytes x y && eqb_path xs ys

init-append : (p : List Bytes) (g : Bytes) → init (p ++ (g ∷ [])) ≡ p
init-append [] g = refl
init-append (x ∷ []) g = refl
init-append (x ∷ y ∷ p) g = ap (λ (q : List Bytes). x ∷ q) (init-append (y ∷ p) g)

same : (n : ℕ) → (n == n) ≡ true
same n = ground arith

eqb_bytes_refl : (s : Bytes) → eqb_bytes s s ≡ true
eqb_bytes_refl [] = refl
eqb_bytes_refl (c ∷ s) = rw (same c, eqb_bytes_refl s) refl

eqb_path_refl : (p : List Bytes) → eqb_path p p ≡ true
eqb_path_refl [] = refl
eqb_path_refl (x ∷ p) = rw (eqb_bytes_refl x, eqb_path_refl p) refl

abbrev settings : Settings State
settings = record {
  begin_group = λ g s. (s.0 ++ (g ∷ []), s.1);
  end_group = λ s. (init s.0, s.1);
  set_value = λ k v s. (s.0, λ p. if eqb_path (s.0 ++ (k ∷ [])) p then v else s.1 p);
  value = λ k s. s.1 (s.0 ++ (k ∷ []));
  child_keys = λ s. [];
}

abbrev laws : IsSettings settings
laws = record {
  groups = λ s. s.0;
  stored = λ s. s.1;
  groups-begin = λ g s. refl;
  stored-begin = λ g s. refl;
  groups-end = λ g p s e. ap init e ∙ init-append p g;
  stored-end = λ s. refl;
  groups-set = λ k v s. refl;
  stored-set = λ k v s. rw (eqb_path_refl (s.0 ++ (k ∷ []))) refl;
  value_is = λ k s. refl;
}

abbrev no_values : State
no_values = ([], λ _. [])

parts : split [] (codes "ro.secure") ≡ codes "ro" ∷ codes "secure" ∷ []
unfolding split
parts = refl

read_property-write_property_example :
    (written : State) × (behind : State) × (write_property settings
        (codes "ro.secure")
        (codes "0")
        no_values
      ≡ some written)
    × (read_property settings (codes "ro.secure") written ≡ some (codes "0", behind))
    × (written.0 ≡ [])
    × (behind.0 ≡ [])
read_property-write_property_example =
    read_property-write_property settings laws b'r' (codes "o.secure") (codes "0") (codes "ro")
      (codes "secure" ∷ []) no_values parts
