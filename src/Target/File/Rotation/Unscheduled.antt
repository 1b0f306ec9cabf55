-- ===== src/Target/File/Rotation/Unscheduled.antt =====
-- A file target that rotates by time but does not purge old files.
use logger_cpp.Common.{
  ◌≡◌, true, false, not, ◌&&◌, none, Bytes, Bool-cases, Option-cases, List-cases, inl, inr, ◌==◌,
  ltb, subst,
}
use logger_cpp.Records.{LogRecord}
use logger_cpp.Schedule.{Time}
use logger_cpp.Target.{Outcome, returned, thrown, undefined}
use logger_cpp.Target.Retry.{write_log_with-keeps}
use logger_cpp.Target.Base.{Platform}
use logger_cpp.Target.File.{
  FileTarget, is_open, reopen_file, try_write_file, write_file, regex_pattern, formatted_filename,
}
use logger_cpp.Target.File.Rotation.{
  announce, restart_interval, make_directories, take_filename, update_filename, check_filesize,
  start_cleanup, open_first, setup_file, is_due, maintain_file, min_log_filesize,
}
use logger_cpp.Target.File.Rotation.Streams.{After}

abbrev pub IsUnscheduled : FileTarget → Type 0
IsUnscheduled t =
    (t.filename_update_interval ≡ none)
    × ((t.log_frequency == 0) ≡ false)
    × ((t.log_storage_duration == 0) ≡ true)

module _ {W : Type 0} (platform : Platform W) where
  reopen_file-IsUnscheduled :
      (t : FileTarget) (w : W) → IsUnscheduled t → IsUnscheduled (reopen_file platform t w).1
  unfolding reopen_file
  reopen_file-IsUnscheduled t w h = h

  try_write_file-IsUnscheduled :
      (r : LogRecord) (t : FileTarget) (w : W)
      → IsUnscheduled t
      → IsUnscheduled (try_write_file platform r t w).1
  unfolding try_write_file
  try_write_file-IsUnscheduled r t w h = elim (Bool-cases (is_open t.file)) [
    | inl e ↦ rw (e, try_write_file) h
    | inr e ↦ elim (Bool-cases (reopen_file platform t w).0) [
      | inl e' ↦ rw (e, try_write_file) (rw (e', try_write_file) (reopen_file-IsUnscheduled t w h))
      | inr e' ↦ rw (e, try_write_file) (rw (e', try_write_file) (reopen_file-IsUnscheduled t w h))
    ]
  ]

  write_file-IsUnscheduled :
      (r : LogRecord) (t : FileTarget) (w : W)
      → IsUnscheduled t
      → IsUnscheduled (write_file platform r t w).1
  unfolding write_file
  write_file-IsUnscheduled r t w =
      write_log_with-keeps (λ (t : FileTarget). t.target_name) (try_write_file platform)
        (reopen_file platform) IsUnscheduled r t w (try_write_file-IsUnscheduled r)
        reopen_file-IsUnscheduled

  announce-IsUnscheduled :
      (name : Bytes) (t : FileTarget) (w : W)
      → IsUnscheduled t
      → IsUnscheduled (announce platform name t w).0
  unfolding announce
  announce-IsUnscheduled name t w h = elim (List-cases t.current_filename) [
    | inl e ↦ simp (e, announce) h
    | inr (c, cs, e) ↦ simp (e, announce) (write_file-IsUnscheduled _ t _ h)
  ]

  take_filename-IsUnscheduled :
      (name : Bytes) (t : FileTarget) (w : W)
      → IsUnscheduled t
      → After IsUnscheduled (take_filename platform name t w)
  unfolding take_filename restart_interval
  take_filename-IsUnscheduled name t w (none_set, often, kept) =
      elim (Option-cases (platform.regex_error (regex_pattern platform t))) [
        | inl e ↦ rw (e, take_filename) (rw (none_set, restart_interval) (none_set, often, kept))
        | inr (what, e) ↦ rw (e, take_filename) (none_set, often, kept)
      ]

  update_filename-IsUnscheduled :
      (time : Time) (t : FileTarget) (w : W)
      → IsUnscheduled t
      → After IsUnscheduled (update_filename platform time t w)
  unfolding update_filename
  update_filename-IsUnscheduled time t w h =
      let name = formatted_filename platform t time in
      let (t1, w1) = announce platform name t w in
      let (error, w2) = make_directories platform name w1 in
      let h1 = announce-IsUnscheduled name t w h in
      elim (Option-cases error) [
        | inl e ↦ rw (e, update_filename) (take_filename-IsUnscheduled name t1 w2 h1)
        | inr (what, e) ↦ rw (e, update_filename) h1
      ]

  check_filesize-IsUnscheduled :
      (t : FileTarget) (w : W) → IsUnscheduled t → IsUnscheduled (check_filesize platform t w).0
  unfolding check_filesize
  check_filesize-IsUnscheduled t w h =
      elim (Bool-cases
        (not (t.max_filesize_bytes == 0) && ltb t.max_filesize_bytes min_log_filesize)) [
          | inl e ↦ rw (e, check_filesize) h
          | inr e ↦ rw (e, check_filesize) h
        ]

  open_first-IsUnscheduled :
      (t : FileTarget) (w : W) → IsUnscheduled t → IsUnscheduled (open_first platform t w).0
  unfolding open_first start_cleanup
  open_first-IsUnscheduled t w (none_set, often, kept) =
      rw (kept, start_cleanup) (none_set, often, kept)

  IsUnscheduled-After :
      (o : Outcome (FileTarget × W))
      → After IsUnscheduled o
      → After IsUnscheduled (elim o [
        | returned (t3, w3) ↦ returned (open_first platform t3 w3)
        | thrown what s ↦ thrown what s
        | undefined ↦ undefined
      ])
  IsUnscheduled-After (returned (t3, w3)) h = open_first-IsUnscheduled t3 w3 h
  IsUnscheduled-After (thrown what (t3, w3)) h = h
  IsUnscheduled-After undefined h = tt

  setup_file-IsUnscheduled :
      (t : FileTarget) (w : W) → IsUnscheduled t → After IsUnscheduled (setup_file platform t w)
  unfolding setup_file
  setup_file-IsUnscheduled t w h =
      let (t1, w1) = check_filesize platform t w in
      IsUnscheduled-After (update_filename platform _ t1 _)
        (update_filename-IsUnscheduled _ t1 _ (check_filesize-IsUnscheduled t w h))

  is_due-none : (t : FileTarget) (now : Time) → IsUnscheduled t → is_due t now ≡ none
  unfolding is_due
  is_due-none t now (none_set, often, kept) = rw (often, none_set, is_due)

  maintain_file-undefined :
      (t : FileTarget) (w : W) → IsUnscheduled t → maintain_file platform t w ≡ undefined
  unfolding maintain_file
  maintain_file-undefined t w h = rw (is_due-none t _ h, maintain_file)

  -- For every target that has a log frequency other than 0, a storage duration of 0 and no interval yet:
  -- once `Setup` has returned, `Maintenance` uses the interval that is not there.
  pub setup-maintain_file :
      (t t' : FileTarget) (w w' w2 : W)
      → IsUnscheduled t
      → setup_file platform t w ≡ returned (t', w')
      → maintain_file platform t' w2 ≡ undefined
  setup-maintain_file t t' w w' w2 h e =
      maintain_file-undefined t' w2 (subst (After IsUnscheduled) e (setup_file-IsUnscheduled t w h))
