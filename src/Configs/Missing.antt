-- ===== src/Configs/Missing.antt =====
-- A key that the JSON value does not have leaves the member as it was.
use logger_cpp.Common.{ℕ, false, ◌≡◌, ◌⊎◌}
use logger_cpp.Target.Base.{TargetConfig}
use logger_cpp.Target.File.Config.{FileTargetConfig}
use logger_cpp.Serializer.{ok, JsonLibrary}
use logger_cpp.Serializer.Members.{Field}

module _ (J : JsonLibrary) where
  open J use {Json, contains, get_member}

  module _ {C P : Type 0} (part : C → P) (j : Json) where
    -- Reading the member leaves the part alone, or does not happen.
    Leaves : Field J C → Type 0
    Leaves f =
        (contains f.name j ≡ false)
        ⊎ ((v : Json) (c c' : C) → f.read v c ≡ ok c' → part c' ≡ part c)

  abbrev duration : FileTargetConfig → ℕ
  duration c = c.settings.log_storage_duration

  abbrev file_base : FileTargetConfig → TargetConfig
  file_base c = c.base
