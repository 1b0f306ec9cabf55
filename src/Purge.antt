-- ===== src/Purge.antt =====
-- Source/SharedLibraries/CommonTools/ProcessName.cpp: the name of the process, and the purge of old log files that
-- the worker of a file target runs.
pub mod Kept
use logger_cpp.Common.{
  ℕ, zero, suc, ◌+◌, ◌-◌, ◌*◌, ◌/◌, ◌^◌, Bool, true, false, not, ◌&&◌, ◌||◌, List, [], ◌∷◌, ◌++◌,
  Option, none, some, Bytes, codes, ltb, leb, to_string, take, ◌≡◌, refl, ◌==◌, if◌then◌else◌,
}
use logger_cpp.Records.{LogLevel, level_debug, level_info, level_error}

-- `rfind(".")`.
unfoldable pub last_dot : Bytes → Option ℕ
last_dot [] = none
last_dot (c ∷ s) = elim (last_dot s) [
  | some k ↦ some (suc k)
  | none ↦ if c == b'.' then some 0 else none
]

unfoldable pub remove_extension : Bytes → Bytes
unfolding last_dot
remove_extension path = elim (last_dot path) [
  | none ↦ path
  | some k ↦ if leb k 1 then path else take k path
]

remove_extension_once : remove_extension (codes "app.v2.exe") ≡ codes "app.v2"
unfolding remove_extension
remove_extension_once = refl

remove_extension_hidden : remove_extension (codes "a.out") ≡ codes "a.out"
unfolding remove_extension
remove_extension_hidden = refl

-- An entry of a directory.
pub record Entry : Type 0 where
  pub path : Bytes
  pub is_directory : Bool

-- What a directory iterator goes through: an entry and the rest, the end, or an exception with its text. An
-- exception of the iterator's step and one of the question whether the next entry is a directory both stop
-- the loop in this place.
pub data Listing : Type 0 where
  ended : Listing
  entry : Entry → Listing → Listing
  broken : Bytes → Listing
  broken_otherwise : Bytes → Listing

-- What a call of the file system comes to: `failed` is a `filesystem_error`, and `failed_otherwise` any other
-- exception, with their texts.
pub data Tried (A : Type 0) : Type 0 where
  done : A → Tried A
  failed : Bytes → Tried A
  failed_otherwise : Bytes → Tried A

-- The directory, the times of files (in nanoseconds on the clock of the file system) and the log.
-- `regex_match` is the match with the pattern that is given.
pub record Directory (W : Type 0) : Type 0 where
  pub entries : Bytes → W → Listing
  pub regex_match : Bytes → Bool
  pub last_write_time : Bytes → W → Tried ℕ
  pub file_clock_now : W → ℕ
  pub remove : Bytes → W → Tried (Bool × W)
  pub mss : LogLevel → Bytes → Bytes → W → W

-- A duration cast to days goes towards zero, so a time that lies ahead is 0 days old or less: with an age
-- of at least 0 that makes no difference to the test.
abbrev pub days_between : ℕ → ℕ → ℕ
days_between now time = (now - time) / (86400 * 10 ^ 9)

-- A path in a stream is put out as by `std::quoted`.
unfoldable pub escape_quotes : Bytes → Bytes
escape_quotes [] = []
escape_quotes (c ∷ s) =
    let rest = escape_quotes s in if c == 34 || c == 92 then 92 ∷ c ∷ rest else c ∷ rest

unfoldable pub quoted : Bytes → Bytes
unfolding escape_quotes
quoted path = 34 ∷ (escape_quotes path ++ (34 ∷ []))

quoted_once : quoted (codes "a\"b") ≡ 34 ∷ 97 ∷ 92 ∷ 34 ∷ 98 ∷ 34 ∷ []
unfolding quoted
quoted_once = refl

module _ {W : Type 0} (directory : Directory W) where
  -- The count of removed files, and what stopped the loop.
  pub data Purged : Type 0 where
    finished : ℕ → W → Purged
    stopped : Bytes → Bytes → ℕ → W → Purged

  abbrev pub debug_if : Bool → Bytes → W → W
  debug_if verbose text w = if verbose then directory.mss level_debug (codes "logger") text w else w

  abbrev pub old_text : ℕ → Bytes → Bytes
  old_text days path =
      codes "Purging old log file that is " ++ (to_string days ++ (codes " days old: " ++ path))

  -- A file that is old enough: the count and the world behind `remove`.
  unfoldable pub purge_file : Bool → ℕ → Bytes → ℕ → W → Purged
  purge_file verbose days path count w = elim (directory.remove path w) [
    | done (removed, w') ↦
        if removed
        then finished (count + 1) (debug_if verbose (old_text days path) w')
        else finished count (
            directory.mss level_error (codes "logger")
              (codes "Unable to purge file: " ++ quoted path) w')
    | failed what ↦ stopped (codes "File system error purging files: ") what count w
    | failed_otherwise what ↦ stopped (codes "Error purging files: ") what count w
  ]

  -- The body of the loop.
  unfoldable pub purge_entry : Bool → ℕ → Entry → ℕ → W → Purged
  unfolding purge_file
  purge_entry verbose maximum_age e count w =
      if not e.is_directory && directory.regex_match e.path
      then elim (directory.last_write_time e.path w) [
        | done time ↦
            let days = days_between (directory.file_clock_now w) time in
            if ltb maximum_age days
            then purge_file verbose days e.path count w
            else finished count w
        | failed what ↦ stopped (codes "File system error purging files: ") what count w
        | failed_otherwise what ↦ stopped (codes "Error purging files: ") what count w
      ]
      else finished count w

  -- The loop, from the call of `directory_iterator` on.
  unfoldable pub purge_entries : Bool → ℕ → Listing → ℕ → W → Purged
  unfolding purge_entry
  purge_entries verbose maximum_age ended count w = finished count w
  purge_entries verbose maximum_age (broken what) count w =
      stopped (codes "File system error purging files: ") what count w
  purge_entries verbose maximum_age (broken_otherwise what) count w =
      stopped (codes "Error purging files: ") what count w
  purge_entries verbose maximum_age (entry e es) count w =
      elim (purge_entry verbose maximum_age e count w) [
        | finished count' w' ↦ purge_entries verbose maximum_age es count' w'
        | stopped kind what count' w' ↦ stopped kind what count' w'
      ]

  -- The handlers.
  unfoldable pub count_of : Purged → ℕ × W
  count_of (finished count w) = (count, w)
  count_of (stopped kind what count w) =
      (count, directory.mss level_error (codes "delete_regex") (kind ++ what) w)

  abbrev pub removing_text : Bytes → ℕ → Bytes
  removing_text dir maximum_age =
      codes "Removing files in "
      ++ (dir ++ (codes " older then " ++ (to_string maximum_age ++ codes " days.")))

  abbrev pub announced : Bool → Bytes → ℕ → W → W
  announced verbose dir maximum_age w =
      if verbose
      then directory.mss level_info (codes "delete_regex") (removing_text dir maximum_age) w
      else w

  -- `Delete_regex_older_than_cpp`; an age below 0 is left out.
  unfoldable pub delete_regex_older_than : Bytes → ℕ → Bool → W → ℕ × W
  unfolding purge_entries count_of
  delete_regex_older_than dir maximum_age verbose w =
      let w1 = announced verbose dir maximum_age w in
      count_of (purge_entries verbose maximum_age (directory.entries dir w1) 0 w1)
