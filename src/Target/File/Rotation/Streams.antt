-- ===== src/Target/File/Rotation/Streams.antt =====
-- The stream of a file target is closed, or open on its current file and able to write.
use logger_cpp.Common.{
  ◌≡◌, refl, true, false, ◌||◌, [], ◌++◌, none, some, Bytes, Bool-cases, List-cases, Option-cases,
  inl, inr,
}
use logger_cpp.Records.{LogRecord}
use logger_cpp.Format.{format_log_message}
use logger_cpp.Schedule.{Time}
use logger_cpp.Target.Retry.{write_log_with-keeps}
use logger_cpp.Target.{Outcome, returned, thrown, undefined}
use logger_cpp.Target.Base.{Platform, endl}
use logger_cpp.Target.File.{
  FileTarget, Stream, is_open, open_stream, close_stream, put_stream, reopen_file, try_write_file,
  write_file, formatted_filename, regex_pattern,
}
use logger_cpp.Target.File.Rotation.{
  announce, restart_interval, make_directories, take_filename, update_filename, reopen_renamed,
  rotate, is_due, is_oversize, maintain_file, read_clock,
}

abbrev pub StreamIsSound : Bytes → Stream → Type 0
StreamIsSound name stream = elim stream.opened [
  | none ↦ Unit
  | some opened ↦ (opened ≡ name) × (stream.failbit ≡ false)
]

abbrev pub IsSound : FileTarget → Type 0
IsSound t = StreamIsSound t.current_filename t.file

-- The target after every outcome.
abbrev pub After {ℓ} : {W : Type 0} → (FileTarget → Type ℓ) → Outcome (FileTarget × W) → Type ℓ
After P (returned (t, w)) = P t
After P (thrown what (t, w)) = P t
After P undefined = Unit

-- The target that an exception leaves.
abbrev OnThrow : {W : Type 0} → (FileTarget → Type 0) → Outcome (FileTarget × W) → Type 0
OnThrow P (returned s) = Unit
OnThrow P (thrown what (t, w)) = P t
OnThrow P undefined = Unit

module _ {W : Type 0} (platform : Platform W) where
  pub open_stream-IsSound :
      (name : Bytes) (stream : Stream) (w : W)
      → stream.opened ≡ none
      → StreamIsSound name (open_stream platform name stream w).0
  unfolding open_stream
  open_stream-IsSound name stream w e = elim (Bool-cases (platform.open_file name w).0) [
    | inl ok ↦ rw (e, open_stream) (rw (ok, open_stream) (refl, refl))
    | inr fails ↦ rw (e, open_stream) (rw (fails, open_stream) tt)
  ]

  pub close_stream-opened : (stream : Stream) → (close_stream stream).opened ≡ none
  unfolding close_stream
  close_stream-opened stream = elim (Option-cases stream.opened) [
    | inl e ↦ rw (e, close_stream) e
    | inr (n, e) ↦ rw (e, close_stream)
  ]

  pub reopen_file-IsSound : (t : FileTarget) (w : W) → IsSound (reopen_file platform t w).1
  unfolding reopen_file
  reopen_file-IsSound t w =
      open_stream-IsSound t.current_filename (close_stream t.file) w (close_stream-opened t.file)

  -- A target whose stream is open is not changed by a write.
  pub try_write_file-open :
      (r : LogRecord) (t : FileTarget) (w : W)
      → is_open t.file ≡ true
      → try_write_file platform r t w ≡ (
        record { success = true; reason = [] },
        t,
        put_stream platform (format_log_message platform.visit t.format_string r ++ endl) t.file w,
      )
  unfolding try_write_file
  try_write_file-open r t w e = rw (e, try_write_file)

  pub try_write_file-IsSound :
      (r : LogRecord) (t : FileTarget) (w : W)
      → IsSound t
      → IsSound (try_write_file platform r t w).1
  unfolding try_write_file
  try_write_file-IsSound r t w h = elim (Bool-cases (is_open t.file)) [
    | inl e ↦ rw (e, try_write_file) h
    | inr e ↦ elim (Bool-cases (reopen_file platform t w).0) [
      | inl e' ↦ rw (e, try_write_file) (rw (e', try_write_file) (reopen_file-IsSound t w))
      | inr e' ↦ rw (e, try_write_file) (rw (e', try_write_file) (reopen_file-IsSound t w))
    ]
  ]

  write_file-IsSound :
      (r : LogRecord) (t : FileTarget) (w : W) → IsSound t → IsSound (write_file platform r t w).1
  unfolding write_file
  write_file-IsSound r t w h =
      write_log_with-keeps (λ (t : FileTarget). t.target_name) (try_write_file platform)
        (reopen_file platform) IsSound r t w (try_write_file-IsSound r)
        (λ t w _. reopen_file-IsSound t w) h

  pub announce-IsSound :
      (name : Bytes) (t : FileTarget) (w : W) → IsSound t → IsSound (announce platform name t w).0
  unfolding announce
  announce-IsSound name t w h = elim (List-cases t.current_filename) [
    | inl e ↦ rw (e, announce) h
    | inr (c, cs, e) ↦ rw (e, announce) (write_file-IsSound _ t _ h)
  ]

  restart_interval-file : (t : FileTarget) (w : W) → (restart_interval platform t w).0.file ≡ t.file
  unfolding restart_interval
  restart_interval-file t w = elim (Option-cases t.filename_update_interval) [
    | inl e ↦ rw (e, restart_interval)
    | inr (i, e) ↦ rw (e, restart_interval)
  ]

  -- Whatever is thrown, the target is as it was.
  pub take_filename-file :
      (name : Bytes) (t : FileTarget) (w : W)
      → After (λ t'. t'.file ≡ t.file) (take_filename platform name t w)
  unfolding take_filename
  take_filename-file name t w =
      elim (Option-cases (platform.regex_error (regex_pattern platform t))) [
        | inl e ↦ rw (e, take_filename) (restart_interval-file _ _)
        | inr (what, e) ↦ rw (e, take_filename) refl
      ]

  take_filename-OnThrow :
      (name : Bytes) (t : FileTarget) (w : W)
      → IsSound t
      → OnThrow IsSound (take_filename platform name t w)
  unfolding take_filename
  take_filename-OnThrow name t w h =
      elim (Option-cases (platform.regex_error (regex_pattern platform t))) [
        | inl e ↦ rw (e, take_filename) tt
        | inr (what, e) ↦ rw (e, take_filename) h
      ]

  update_filename-OnThrow :
      (time : Time) (t : FileTarget) (w : W)
      → IsSound t
      → OnThrow IsSound (update_filename platform time t w)
  unfolding update_filename
  update_filename-OnThrow time t w h =
      let name = formatted_filename platform t time in
      let (t1, w1) = announce platform name t w in
      let (error, w2) = make_directories platform name w1 in
      let h1 = announce-IsSound name t w h in
      elim (Option-cases error) [
        | inl e ↦ rw (e, update_filename) (take_filename-OnThrow name t1 w2 h1)
        | inr (what, e) ↦ rw (e, update_filename) h1
      ]

  rotate-IsSound : (t : FileTarget) (w : W) → IsSound t → After IsSound (rotate platform t w)
  unfolding rotate reopen_renamed
  rotate-IsSound t w h = reopened (update_filename platform _ t _) (update_filename-OnThrow _ t _ h)
    where
      reopened :
          (o : Outcome (FileTarget × W))
          → OnThrow IsSound o
          → After IsSound (elim o [
            | returned (t2, w2) ↦ returned (reopen_renamed platform t2 w2)
            | thrown what s ↦ thrown what s
            | undefined ↦ undefined
          ])
      reopened (returned (t2, w2)) h = reopen_file-IsSound t2 w2
      reopened (thrown what (t2, w2)) h = h
      reopened undefined h = tt

  pub maintain_file-IsSound :
      (t : FileTarget) (w : W) → IsSound t → After IsSound (maintain_file platform t w)
  unfolding maintain_file
  maintain_file-IsSound t w h =
      let (now, w1) = read_clock platform t w in
      elim (Option-cases (is_due t now)) [
        | inl e ↦ rw (e, maintain_file) tt
        | inr (due, e) ↦ elim (Bool-cases (due || is_oversize platform t w1)) [
          | inl e' ↦ rw (e, maintain_file) (rw (e', maintain_file) (rotate-IsSound t w1 h))
          | inr e' ↦ rw (e, maintain_file) (rw (e', maintain_file) h)
        ]
      ]
