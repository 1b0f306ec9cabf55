-- ===== src/Target/File/Rotation/Line.antt =====
-- What a file target does over its life: each record that it takes is one line at the end of its file.
use logger_cpp.Common.{
  ◌≡◌, refl, ap, sym, ◌∙◌, Bool, true, false, ◌++◌, Bool-cases, Option-cases, inl, inr,
  if◌then◌else◌, Bytes,
}
use logger_cpp.Records.{LogRecord}
use logger_cpp.Format.{format_log_message}
use logger_cpp.Target.Base.{Platform, endl}
use logger_cpp.Target.File.{
  FileTarget, is_open, open_stream, put_stream, reopen_file, try_write_file,
}
use logger_cpp.Target.File.Rotation.Streams.{IsSound, reopen_file-IsSound, close_stream-opened}

module _ {W : Type 0} (platform : Platform W) where
  -- Whether the file is open for a write, and the world then.
  abbrev pub opened_for : FileTarget → W → Bool × W
  opened_for t w = if is_open t.file then (true, w) else platform.open_file t.current_filename w

  reopen_file-result :
      (t : FileTarget) (w : W)
      → is_open t.file ≡ false
      → let (opens, t1, w1) = reopen_file platform t w in
        let (ok, w2) = platform.open_file t.current_filename w in (opens ≡ ok) × (w1 ≡ w2)
  unfolding reopen_file open_stream
  reopen_file-result t w h = elim (Bool-cases (platform.open_file t.current_filename w).0) [
    | inl ok ↦
        rw (close_stream-opened platform t.file, open_stream) (rw (ok, open_stream) (refl, refl))
    | inr fails ↦
        rw (close_stream-opened platform t.file, open_stream) (rw (fails, open_stream) (refl, refl))
  ]

  put_stream-IsSound :
      (text : Bytes) (t : FileTarget) (w : W)
      → IsSound t
      → is_open t.file ≡ true
      → put_stream platform text t.file w ≡ platform.put t.current_filename text w
  unfolding put_stream
  put_stream-IsSound text t w sound h = elim (Option-cases t.file.opened) [
    | inl e ↦ absurd (cc (rw e at h))
    | inr (name, e) ↦
        let (same, good) = rw e at sound in
        simp (e, good, put_stream) (ap (λ n. platform.put n text w) same)
  ]

  reopen_file-current :
      (t : FileTarget) (w : W)
      → let t1 = (reopen_file platform t w).1 in
        (t1.current_filename ≡ t.current_filename) × (t1.format_string ≡ t.format_string)
  unfolding reopen_file
  reopen_file-current t w = (refl, refl)

  reopen_file-open :
      (t : FileTarget) (w : W)
      → (reopen_file platform t w).0 ≡ true
      → is_open (reopen_file platform t w).1.file ≡ true
  unfolding reopen_file
  reopen_file-open t w h = h

  -- For every file target whose stream is closed, or open on its current file and not in a failed state,
  -- and every record: if the file is open, or can be opened now, an attempt to write puts the formatted
  -- record and a line break at the end of the current file and succeeds; if not, it writes nothing and
  -- fails.
  pub try_write_file-line :
      (r : LogRecord) (t : FileTarget) (w : W)
      → IsSound t
      → let line = format_log_message platform.visit t.format_string r ++ endl in
        let (res, t1, w1) = try_write_file platform r t w in
        let (opens, w2) = opened_for t w in
        (res.success ≡ opens)
        × (w1 ≡ (if opens then platform.put t.current_filename line w2 else w2))
  unfolding try_write_file
  try_write_file-line r t w sound = elim (Bool-cases (is_open t.file)) [
    | inl e ↦ rw (e, try_write_file) (refl, put_stream-IsSound _ t w sound e)
    | inr e ↦
        let (_, t1, w1) = reopen_file platform t w in
        let (name, format) = reopen_file-current t w in
        let (ok, same) = reopen_file-result t w e in
        elim (Bool-cases (reopen_file platform t w).0) [
          | inl e' ↦
              let put =
                put_stream-IsSound (format_log_message platform.visit t1.format_string r ++ endl) t1
                  w1 (reopen_file-IsSound platform t w) (reopen_file-open t w e') in
              rw (e, try_write_file)
                (rw (e', try_write_file)
                  (rw (sym ok ∙ e') (
                    refl,
                    put ∙ (λ i.
                        platform.put (name i)
                          (format_log_message platform.visit (format i) r ++ endl) (same i)),
                  )))
          | inr e' ↦
              rw (e, try_write_file) (rw (e', try_write_file) (rw (sym ok ∙ e') (refl, same)))
        ]
  ]
