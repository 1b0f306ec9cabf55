-- ===== src/Target/File/Rotation/Faults.antt =====
-- Two ways in which a file target goes wrong.
use logger_cpp.Common.{
  ◌≡◌, refl, ap, ◌∙◌, true, [], Bytes, Bool-cases, Option-cases, inl, inr, ◌==◌, subst,
}
use logger_cpp.Records.{LogRecord}
use logger_cpp.Target.{Outcome, returned, thrown, undefined}
use logger_cpp.Target.Base.{Platform}
use logger_cpp.Target.File.{FileTarget, Stream, is_open, open_stream, put_stream, try_write_file}
use logger_cpp.Target.File.Rotation.{
  update_filename, check_filesize, start_cleanup, open_first, setup_file,
}
use logger_cpp.Target.File.Rotation.Streams.{After, try_write_file-open}
use logger_cpp.Target.File.Rotation.Opening.{update_filename-file, check_filesize-file}

-- The target after a return.
abbrev OnReturn : {W : Type 0} → (FileTarget → Type 0) → Outcome (FileTarget × W) → Type 0
OnReturn P (returned (t, w)) = P t
OnReturn P (thrown what s) = Unit
OnReturn P undefined = Unit

-- A stream that has a file open and writes nothing.
abbrev IsStuck : FileTarget → Type 0
IsStuck t = (is_open t.file ≡ true) × (t.file.failbit ≡ true)

module _ {W : Type 0} (platform : Platform W) where
  start_cleanup-IsStuck :
      (t : FileTarget) (w : W) → IsStuck t → IsStuck (start_cleanup platform t w).0
  unfolding start_cleanup
  start_cleanup-IsStuck t w h = elim (Bool-cases (t.log_storage_duration == 0)) [
    | inl e ↦ rw (e, start_cleanup) h
    | inr e ↦ rw (e, start_cleanup) h
  ]

  open_stream-stuck :
      (name : Bytes) (stream : Stream) (w : W)
      → is_open stream ≡ true
      → let s1 = (open_stream platform name stream w).0 in (is_open s1 ≡ true) × (s1.failbit ≡ true)
  unfolding open_stream
  open_stream-stuck name stream w h = elim (Option-cases stream.opened) [
    | inl e ↦ absurd (cc (rw e at h))
    | inr (n, e) ↦ simp (e, open_stream) (refl, refl)
  ]

  open_first-IsStuck :
      (t : FileTarget) (w : W) → is_open t.file ≡ true → IsStuck (open_first platform t w).0
  unfolding open_first
  open_first-IsStuck t w h =
      let (stream, w1) = open_stream platform t.current_filename t.file w in
      start_cleanup-IsStuck (record t { file = stream }) _
        (open_stream-stuck t.current_filename t.file w h)

  IsStuck-After :
      (file : Stream)
      → is_open file ≡ true
      → (o : Outcome (FileTarget × W)) → After (λ t'. t'.file ≡ file) o
      → OnReturn IsStuck (elim o [
        | returned (t3, w3) ↦ returned (open_first platform t3 w3)
        | thrown what s ↦ thrown what s
        | undefined ↦ undefined
      ])
  IsStuck-After file h (returned (t3, w3)) same = open_first-IsStuck t3 w3 (ap is_open same ∙ h)
  IsStuck-After file h (thrown what s) same = tt
  IsStuck-After file h undefined same = tt

  setup_file-IsStuck :
      (t : FileTarget) (w : W) → is_open t.file ≡ true → OnReturn IsStuck (setup_file platform t w)
  unfolding setup_file
  setup_file-IsStuck t w h =
      let (t1, w1) = check_filesize platform t w in
      let (same, _) = check_filesize-file platform t w in
      let h1 = ap is_open same ∙ h in
      IsStuck-After t1.file h1 (update_filename platform _ t1 _)
        (update_filename-file platform _ t1 _ (inr h1))

  put_stream-stuck :
      (text : Bytes) (stream : Stream) (w : W)
      → stream.failbit ≡ true
      → put_stream platform text stream w ≡ w
  unfolding put_stream
  put_stream-stuck text stream w h = elim (Option-cases stream.opened) [
    | inl e ↦ simp (e, put_stream)
    | inr (n, e) ↦ simp (e, h, put_stream)
  ]

  -- For every target whose stream is open already and every set-up of it that returns: each attempt to
  -- write afterwards reports success, and leaves the target and the world as they are.
  pub setup_file-silent :
      (t t' : FileTarget) (w w' w2 : W) (r : LogRecord)
      → is_open t.file ≡ true
      → setup_file platform t w ≡ returned (t', w')
      → try_write_file platform r t' w2 ≡ (record { success = true; reason = [] }, t', w2)
  setup_file-silent t t' w w' w2 r h e =
      let (opens, stuck) = subst (OnReturn IsStuck) e (setup_file-IsStuck t w h) in
      try_write_file-open platform r t' w2 opens
      ∙ ap (λ (v : W). (record { success = true; reason = [] }, t', v))
          (put_stream-stuck _ t'.file w2 stuck)
