-- ===== src/Logger/Writing.antt =====
-- What `Logger::Write_log` puts on the targets of a record's route and on the fallback target.
use logger_cpp.Common.{
  ◌≡◌, Bool, false, List, [], ◌∷◌, ◌++◌, Option, none, some, Bytes, codes, if◌then◌else◌,
}
use logger_cpp.Records.{LogLevel, LogRecord, level_warning}
use logger_cpp.Target.{TargetClass, refresh_reason}
use logger_cpp.Logger.{Address, State, Logger}

-- A line of output as far as a reader of the log cares.
pub record Line : Type 0 where
  pub target : Bytes
  pub level : LogLevel
  pub entity : Bytes
  pub message : Bytes

abbrev pub line_of : Bytes → LogRecord → Line
line_of name r = record {
  target = name;
  level = r.level;
  entity = r.source_entity;
  message = r.message;
}

-- Targets that put each record out once or, the broken ones, never, and that cannot be refreshed. `out`
-- is what has been put out.
pub record PutsOut {W T C : Type 0} (class : TargetClass W T C) (works : Bytes → Bool)
    (out : W → List Line) : Type 0 where
  pub tried :
      (r : LogRecord) (t : T) (w : W)
      → ((class.try_write_log r t w).0.success ≡ works (class.get_target_name t))
        × (class.get_target_name (class.try_write_log r t w).1 ≡ class.get_target_name t)
        × (out (class.try_write_log r t w).2 ≡ (
            if works (class.get_target_name t)
            then out w ++ (line_of (class.get_target_name t) r ∷ [])
            else out w))
  pub not_refreshed :
      (t : T) (w : W)
      → ((class.refresh t w).0 ≡ false)
        × (class.get_target_name (class.refresh t w).1 ≡ class.get_target_name t)
        × (out (class.refresh t w).2 ≡ out w)
  pub clock_silent : (w : W) → out (class.clock_now w).1 ≡ out w

module _ {W T C : Type 0} (class : TargetClass W T C) (works : Bytes → Bool) (out : W → List Line)
    (laws : PutsOut class works out) where
  abbrev name : State W T → Address → Bytes
  name s a = class.get_target_name (s.heap a)

  -- The line, if the target works.
  abbrev put : Bytes → LogRecord → List Line
  put target r = if works target then line_of target r ∷ [] else []

  -- What the reader sees of the two writes to the fallback target `f` for a broken target.
  abbrev failure_line : Bytes → Bytes → Line
  failure_line f broken = record {
    target = f;
    level = level_warning;
    entity = codes "logger";
    message = refresh_reason broken;
  }

  abbrev passed_on : Bytes → LogRecord → LogRecord
  passed_on broken r = record r { source_entity = broken ++ (codes "," ++ r.source_entity) }

  -- The lines of a fallback target, for the target `broken`.
  abbrev pub rescue : Bytes → Bytes → LogRecord → List Line
  rescue f broken r =
      if works f then failure_line f broken ∷ (line_of f (passed_on broken r) ∷ []) else []

  abbrev pub rescue? : (Address → Bytes) → Option Address → Bytes → LogRecord → List Line
  rescue? names none broken r = []
  rescue? names (some f) broken r = rescue (names f) broken r

  -- The lines for a record on the targets of its route.
  abbrev pub lines : (Address → Bytes) → Option Address → LogRecord → List Address → List Line
  lines names fallback r [] = []
  lines names fallback r (a ∷ as') =
      (if works (names a) then line_of (names a) r ∷ [] else rescue? names fallback (names a) r)
      ++ lines names fallback r as'

  abbrev Puts : LogRecord → Address → State W T → State W T → Type 0
  Puts r a s t =
      (name t ≡ name s)
      × (out t.world
          ≡ out s.world
            ++ (if works (name s a)
                then line_of (name s a) r ∷ []
                else rescue? (name s) s.fallback_target (name s a) r))
