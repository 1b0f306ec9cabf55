-- ===== src/Target/Retry.antt =====
-- What holds of a target through `Target::Write_log`.
use logger_cpp.Common.{◌≡◌, Bool, true, Bytes, Bool-cases, inl, inr}
use logger_cpp.Records.{LogRecord, TargetResult}
use logger_cpp.Target.{write_log_with}

module _ {W T : Type 0} (target_name : T → Bytes)
    (try_write_log : LogRecord → T → W → TargetResult × T × W)
    (refresh : T → W → Bool × T × W) where
  -- What an attempt and a refresh keep is kept.
  pub write_log_with-keeps :
      (P : T → Type 0) (r : LogRecord) (t : T) (w : W)
      → ((t : T) (w : W) → P t → P (try_write_log r t w).1)
      → ((t : T) (w : W) → P t → P (refresh t w).1)
      → P t
      → P (write_log_with target_name try_write_log refresh r t w).1
  write_log_with-keeps P r t w tries refreshes h =
      let (res, t1, w1) = try_write_log r t w in
      let (refreshed, t2, w2) = refresh t1 w1 in
      elim (Bool-cases res.success) [
        | inl e ↦ rw e (tries t w h)
        | inr e ↦ elim (Bool-cases refreshed) [
          | inl e' ↦ rw (e, e') (tries t2 w2 (refreshes t1 w1 (tries t w h)))
          | inr e' ↦ rw (e, e') (refreshes t1 w1 (tries t w h))
        ]
      ]

  -- An attempt that succeeds is all that is done.
  pub write_log_with-success :
      (r : LogRecord) (t : T) (w : W)
      → (try_write_log r t w).0.success ≡ true
      → write_log_with target_name try_write_log refresh r t w ≡ try_write_log r t w
  write_log_with-success r t w e = rw e
