-- ===== src/Examples/Purge.antt =====
-- A directory with two log files, one of them old, and a file of another name.
use logger_cpp.Common.{
  ℕ, ◌*◌, ◌^◌, ◌≤◌, Bool, true, false, Bool-cases, List, [], ◌∷◌, ◌||◌, ◌≡◌, refl, sym, ap, ◌∙◌,
  inl, inr, Bytes, codes, take, text_eq, text_eq_sound, subst, if◌then◌else◌, arith,
}
use logger_cpp.Purge.{
  Tried, done, Directory, Listing, ended, entry, days_between, delete_regex_older_than,
}
use logger_cpp.Purge.Kept.{DirectoryLaws, delete-there}

record Disk : Type 0 where
  names : List Bytes
  log : List Bytes

abbrev holds : Bytes → List Bytes → Bool
holds q [] = false
holds q (f ∷ fs) = text_eq f q || holds q fs

abbrev without : Bytes → List Bytes → List Bytes
without path [] = []
without path (f ∷ fs) = let rest = without path fs in if text_eq path f then rest else f ∷ rest

abbrev listed : List Bytes → Listing
listed [] = ended
listed (f ∷ fs) = entry (record { path = f; is_directory = false }) (listed fs)

abbrev day : ℕ
day = 86400 * 10 ^ 9

abbrev removed : Bytes → Disk → Bool → Tried (Bool × Disk)
removed path w true = done (true, record w { names = without path w.names })
removed path w false = done (false, w)

abbrev directory : Directory Disk
directory = record {
  entries = λ dir w. listed w.names;
  regex_match = λ path. text_eq (take 3 path) (codes "app");
  last_write_time = λ path w. done (if text_eq path (codes "app.1") then 0 else 9 * day);
  file_clock_now = λ w. 10 * day;
  remove = λ path w. removed path w (holds path w.names);
  mss = λ level entity message w. record w { log = message ∷ w.log };
}

abbrev disk : Disk
disk = record { names = codes "app.1" ∷ codes "app.2" ∷ codes "notes" ∷ []; log = [] }

holds-without :
    (path q : Bytes) (fs : List Bytes)
    → text_eq path q ≡ false
    → holds q (without path fs) ≡ holds q fs
holds-without path q [] other = refl
holds-without path q (f ∷ fs) other = elim (Bool-cases (text_eq path f)) [
  | inl same ↦
      rw (same, holds-without path q fs other)
        (rw (sym (ap (λ p. text_eq p q) (text_eq_sound path f same)) ∙ other) refl)
  | inr differs ↦ rw differs (ap (λ b. text_eq f q || b) (holds-without path q fs other))
]

abbrev result : Disk → Tried (Bool × Disk) → Bool × Disk
result w (done r) = r
result w other = (false, w)

removed-held :
    (path q : Bytes) (w : Disk) (found : Bool)
    → text_eq path q ≡ false
    → holds q (result w (removed path w found)).1.names ≡ holds q w.names
removed-held path q w true other = holds-without path q w.names other
removed-held path q w false other = refl

removed-kept :
    (path q : Bytes) (w w' : Disk) (found : Bool)
    → removed path w found ≡ done (false, w')
    → holds q w'.names ≡ holds q w.names
removed-kept path q w w' true e = absurd cc
removed-kept path q w w' false e = sym (ap (λ t. holds q (result w t).1.names) e)

laws : DirectoryLaws directory (λ q w. holds q w.names)
laws = record {
  logged = λ level entity message q w. refl;
  removed_alone = λ path q b w w' e other.
      sym (ap (λ t. holds q (result w t).1.names) e)
      ∙ removed-held path q w (holds path w.names) other;
  not_removed = λ path q w w' e. removed-kept path q w w' (holds path w.names) e;
}

purged_once :
    delete_regex_older_than directory (codes "logs") 3 false disk
    ≡ (1, record disk { names = codes "app.2" ∷ codes "notes" ∷ [] })
unfolding delete_regex_older_than
purged_once = refl

abbrev time_of : Tried ℕ → ℕ
time_of (done time) = time
time_of other = 0

written_recently :
    (v : Disk) (time : ℕ)
    → directory.last_write_time (codes "app.2") v ≡ done time
    → days_between (directory.file_clock_now v) time ≤ 3
written_recently v time e =
    subst (λ t. days_between (directory.file_clock_now v) t ≤ 3) (ap time_of e) (omega arith)

delete-there_example :
    holds (codes "app.2") (delete_regex_older_than directory (codes "logs") 3 true disk).1.names
    ≡ holds (codes "app.2") disk.names
delete-there_example =
    delete-there directory (λ q w. holds q w.names) laws (codes "app.2") true 3
      (inr written_recently) (codes "logs") disk
