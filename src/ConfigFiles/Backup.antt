-- ===== src/ConfigFiles/Backup.antt =====
-- The loop of `Backup_config` ends on a name that no file has.
use logger_cpp.Common.{
  ℕ, zero, suc, ◌+◌, ◌≤◌, ◌<◌, true, false, List, [], ◌∷◌, ◌++◌, ◌≡◌, ◌≢◌, refl, sym, ap, ◌∙◌, inl,
  inr, some, Bytes, text_eq, text_eq_refl, text_eq_sound, if◌then◌else◌, Bool-cases, arith, length,
  drop, drop-append, append-nil, to_string, to_string_injective, to_string_nonempty,
}
use logger_cpp.Common.Sets.{In}
use logger_cpp.Target.{TargetClass}
use logger_cpp.Target.Base.{Platform}
use logger_cpp.Serializer.{JsonLibrary}
use logger_cpp.Configs.Exposed.{ConfigObject}
use logger_cpp.ConfigFiles.{Files, backup_name, corrupted, find_name}

append_cancel : (xs ys zs : Bytes) → xs ++ ys ≡ xs ++ zs → ys ≡ zs
append_cancel xs ys zs e = sym (drop-append xs ys) ∙ ap (drop (length xs)) e ∙ drop-append xs zs

-- The names that are tried differ.
backup_name_injective :
    (filename : Bytes) (m n : ℕ) → backup_name filename m ≡ backup_name filename n → m ≡ n
unfolding backup_name
backup_name_injective filename zero zero e = refl
backup_name_injective filename zero (suc n) e = absurd (
    to_string_nonempty n (
      sym (
        append_cancel (corrupted filename) [] (to_string n) (append-nil (corrupted filename) ∙ e))))
backup_name_injective filename (suc m) zero e = absurd (
    to_string_nonempty m (
      append_cancel (corrupted filename) (to_string m) []
        (e ∙ sym (append-nil (corrupted filename)))))
backup_name_injective filename (suc m) (suc n) e =
    ap suc
      (to_string_injective m n (append_cancel (corrupted filename) (to_string m) (to_string n) e))

-- A list without a text.
without : Bytes → List Bytes → List Bytes
without s [] = []
without s (t ∷ ts) = if text_eq s t then without s ts else t ∷ without s ts

without_le : (s : Bytes) (ts : List Bytes) → length (without s ts) ≤ length ts
unfolding without
without_le s [] = omega arith
without_le s (t ∷ ts) = elim (Bool-cases (text_eq s t)) [
  | inl same ↦ rw same (omega (arith, without_le s ts))
  | inr other ↦ rw other (omega (arith, without_le s ts))
]

without_lt : (s : Bytes) (ts : List Bytes) → In s ts → length (without s ts) < length ts
unfolding without
without_lt s [] h = absurd h
without_lt s (t ∷ ts) (inl e) =
    rw (ap (text_eq s) (sym e) ∙ text_eq_refl s) (omega (arith, without_le s ts))
without_lt s (t ∷ ts) (inr h) = elim (Bool-cases (text_eq s t)) [
  | inl same ↦ rw same (omega (arith, without_le s ts))
  | inr other ↦ rw other (omega (arith, without_lt s ts h))
]

In-without : (s u : Bytes) (ts : List Bytes) → u ≢ s → In u ts → In u (without s ts)
unfolding without
In-without s u [] ne h = h
In-without s u (t ∷ ts) ne h = elim (Bool-cases (text_eq s t)) [
  | inl same ↦ rw same (elim h [
    | inl e ↦ absurd (ne (e ∙ sym (text_eq_sound s t same)))
    | inr rest ↦ In-without s u ts ne rest
  ])
  | inr other ↦ rw other (elim h [ inl e ↦ inl e | inr rest ↦ inr (In-without s u ts ne rest) ])
]

module _ (J : JsonLibrary) {W T : Type 0} (class : TargetClass W T ConfigObject)
    (platform : Platform W) (files : Files W J.Json) where
  -- The loop from a number on.
  find_name-free :
      (fuel idx : ℕ) (filename : Bytes) (w : W) (names : List Bytes)
      → ((k : ℕ)
          → idx ≤ k
          → files.exists (backup_name filename k) w ≡ true
          → In (backup_name filename k) names)
      → length names < fuel
      → (k : ℕ) × (k ≤ idx + length names)
        × (find_name J class platform files fuel idx filename w ≡ some (backup_name filename k))
        × (files.exists (backup_name filename k) w ≡ false)
  unfolding find_name
  find_name-free zero idx filename w names known enough = elim enough [ ]
  find_name-free (suc fuel) idx filename w names known enough =
      elim (Bool-cases (files.exists (backup_name filename idx) w)) [
        | inl taken ↦
            let name = backup_name filename idx in
            let here = known idx (omega arith) taken in
            let fewer = without_lt name names here in
            let (k, bound, found, free) =
              find_name-free fuel (suc idx) filename w (without name names)
                (λ k later present.
                  In-without name (backup_name filename k) names
                    (λ e.
                      absurd (later_differs idx k later (backup_name_injective filename k idx e)))
                    (known k (omega arith) present))
                (omega arith) in
            (k, omega arith, rw taken found, free)
        | inr free ↦ (idx, omega arith, rw free refl, free)
      ]
    where
      later_differs : (idx k : ℕ) → suc idx ≤ k → k ≡ idx → ⊥
      later_differs idx k later e = omega arith

  -- For every finite set of files, given by a list that has the names of all of them: with fuel for more rounds than
  -- the list is long, the loop of `Backup_config` ends, on one of the names that it tries, with a number not above
  -- the length of the list, and no file has that name.
  pub find_name_ends :
      (fuel : ℕ) (filename : Bytes) (w : W) (names : List Bytes)
      → ((name : Bytes) → files.exists name w ≡ true → In name names)
      → length names < fuel
      → (k : ℕ) × (k ≤ length names)
        × (find_name J class platform files fuel 0 filename w ≡ some (backup_name filename k))
        × (files.exists (backup_name filename k) w ≡ false)
  find_name_ends fuel filename w names known enough =
      let (k, bound, found, free) =
        find_name-free fuel 0 filename w names (λ k _. known (backup_name filename k)) enough in
      (k, omega arith, found, free)
