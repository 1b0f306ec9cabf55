-- ===== src/Target/File/Rotation/Opening.antt =====
-- `Setup` of a file target and its stream.
use logger_cpp.Common.{
  ◌≡◌, refl, ap, ◌∙◌, true, not, ◌&&◌, ◌⊎◌, [], ◌∷◌, ◌++◌, none, Bytes, Bool-cases, Option-cases,
  List-cases, inl, inr, ◌==◌, ltb, subst, codes,
}
use logger_cpp.Records.{level_debug, LogRecord, TargetResult}
use logger_cpp.Schedule.{Time}
use logger_cpp.Target.{Outcome, returned, thrown, undefined}
use logger_cpp.Target.Retry.{write_log_with-success}
use logger_cpp.Target.Base.{Platform}
use logger_cpp.Target.File.{
  regex_pattern, FileTarget, Stream, is_open, open_stream, reopen_file, try_write_file, write_file,
  formatted_filename,
}
use logger_cpp.Target.File.Rotation.{
  announce, make_directories, update_filename, check_filesize, start_cleanup, open_first,
  setup_file, restart_interval, min_log_filesize, take_filename,
}
use logger_cpp.Target.File.Rotation.Streams.{
  IsSound, After, try_write_file-open, take_filename-file, open_stream-IsSound,
}

-- A target that has not been set up yet.
abbrev pub IsFresh : FileTarget → Type 0
IsFresh t = (t.current_filename ≡ []) × (t.file.opened ≡ none)

module _ {W : Type 0} (platform : Platform W) where
  write_file-open :
      (r : LogRecord) (t : FileTarget) (w : W)
      → is_open t.file ≡ true
      → (write_file platform r t w).1 ≡ t
  unfolding write_file
  write_file-open r t w h =
      let e = try_write_file-open platform r t w h in
      ap (λ (x : TargetResult × FileTarget × W). x.1)
        (write_log_with-success (λ (t : FileTarget). t.target_name) (try_write_file platform)
            (reopen_file platform) r t w (ap (λ (x : TargetResult × FileTarget × W). x.0.success) e)
          ∙ e)

  -- The last line in the old file leaves the target as it is, if there is none or the file is open.
  announce-idle :
      (name : Bytes) (t : FileTarget) (w : W)
      → (t.current_filename ≡ []) ⊎ (is_open t.file ≡ true)
      → (announce platform name t w).0 ≡ t
  unfolding announce
  announce-idle name t w (inl e) = simp (e, announce)
  announce-idle name t w (inr h) = elim (List-cases t.current_filename) [
    | inl e ↦ simp (e, announce)
    | inr (c, cs, e) ↦ simp (e, announce) (write_file-open _ t _ h)
  ]

  pub update_filename-file :
      (time : Time) (t : FileTarget) (w : W)
      → (t.current_filename ≡ []) ⊎ (is_open t.file ≡ true)
      → After (λ t'. t'.file ≡ t.file) (update_filename platform time t w)
  unfolding update_filename
  update_filename-file time t w h =
      let name = formatted_filename platform t time in
      let (t1, w1) = announce platform name t w in
      let (error, w2) = make_directories platform name w1 in
      let same = announce-idle name t w h in
      let same_file = ap (λ (t : FileTarget). t.file) same in
      elim (Option-cases error) [
        | inl e ↦
            rw (e, update_filename)
              (subst (λ f. After (λ t'. t'.file ≡ f) (take_filename platform name t1 w2)) same_file
                (take_filename-file platform name t1 w2))
        | inr (what, e) ↦ rw (e, update_filename) same_file
      ]

  pub check_filesize-file :
      (t : FileTarget) (w : W)
      → let t1 = (check_filesize platform t w).0 in
        (t1.file ≡ t.file) × (t1.current_filename ≡ t.current_filename)
  unfolding check_filesize
  check_filesize-file t w =
      elim (Bool-cases
        (not (t.max_filesize_bytes == 0) && ltb t.max_filesize_bytes min_log_filesize)) [
          | inl e ↦ rw (e, check_filesize) (refl, refl)
          | inr e ↦ rw (e, check_filesize) (refl, refl)
        ]

  start_cleanup-IsSound :
      (t : FileTarget) (w : W) → IsSound t → IsSound (start_cleanup platform t w).0
  unfolding start_cleanup
  start_cleanup-IsSound t w h = elim (Bool-cases (t.log_storage_duration == 0)) [
    | inl e ↦ rw (e, start_cleanup) h
    | inr e ↦ rw (e, start_cleanup) h
  ]

  open_first-IsSound :
      (t : FileTarget) (w : W) → t.file.opened ≡ none → IsSound (open_first platform t w).0
  unfolding open_first
  open_first-IsSound t w h =
      let (stream, w1) = open_stream platform t.current_filename t.file w in
      start_cleanup-IsSound (record t { file = stream }) _
        (open_stream-IsSound platform t.current_filename t.file w h)

  closed-IsSound : (t : FileTarget) → t.file.opened ≡ none → IsSound t
  closed-IsSound t e = rw e tt

  open-After :
      (file : Stream)
      → file.opened ≡ none
      → (o : Outcome (FileTarget × W)) → After (λ t'. t'.file ≡ file) o
      → After IsSound (elim o [
        | returned (t3, w3) ↦ returned (open_first platform t3 w3)
        | thrown what s ↦ thrown what s
        | undefined ↦ undefined
      ])
  open-After file e (returned (t3, w3)) same =
      open_first-IsSound t3 w3 (ap (λ (f : Stream). f.opened) same ∙ e)
  open-After file e (thrown what (t3, w3)) same =
      closed-IsSound t3 (ap (λ (f : Stream). f.opened) same ∙ e)
  open-After file e undefined same = tt

  -- For every file target that has not been set up: after `Setup`, or an exception of it, the stream is
  -- closed, or open on the current file and not in a failed state.
  pub setup_file-IsSound :
      (t : FileTarget) (w : W) → IsFresh t → After IsSound (setup_file platform t w)
  unfolding setup_file
  setup_file-IsSound t w (unnamed, closed) =
      let (t1, w1) = check_filesize platform t w in
      let (same, same_name) = check_filesize-file t w in
      open-After t1.file (ap (λ (f : Stream). f.opened) same ∙ closed)
        (update_filename platform _ t1 _) (update_filename-file _ t1 _ (inl (same_name ∙ unnamed)))

  -- Where the platform makes every directory and takes every pattern, nothing is thrown.
  module _ (made : (name : Bytes) (w : W) → (platform.create_directories name w).0 ≡ none)
      (compiled : (pattern : Bytes) → platform.regex_error pattern ≡ none) where
    make_directories-none : (name : Bytes) (w : W) → (make_directories platform name w).0 ≡ none
    unfolding make_directories
    make_directories-none [] w = refl
    make_directories-none (c ∷ name) w = made (c ∷ name) w

    take_filename-returned :
        (name : Bytes) (t : FileTarget) (w : W)
        → (s : FileTarget × W) × (take_filename platform name t w ≡ returned s)
    unfolding take_filename
    take_filename-returned name t w =
        let pattern = regex_pattern platform t in
        let text = codes "Log regex pattern: " ++ pattern in
        let w1 = platform.mss level_debug (codes "file_target") text w in
        let t1 = record t { current_log_regex = pattern; current_filename = name } in
        (restart_interval platform t1 w1, rw (compiled pattern, take_filename))

    update_filename-returned :
        (time : Time) (t : FileTarget) (w : W)
        → (s : FileTarget × W) × (update_filename platform time t w ≡ returned s)
    unfolding update_filename
    update_filename-returned time t w =
        let name = formatted_filename platform t time in
        let (t1, w1) = announce platform name t w in
        let (s, e) = take_filename-returned name t1 (make_directories platform name w1).1 in
        (s, rw (make_directories-none name w1, update_filename) e)

    pub setup_file-returned :
        (t : FileTarget) (w : W) → (s : FileTarget × W) × (setup_file platform t w ≡ returned s)
    unfolding setup_file
    setup_file-returned t w =
        let (t1, w1) = check_filesize platform t w in
        let (now, w2) = platform.clock_now w1 in
        let (s, e) = update_filename-returned now t1 w2 in
        (open_first platform s.0 s.1, rw (e, setup_file))
