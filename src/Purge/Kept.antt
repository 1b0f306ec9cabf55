-- ===== src/Purge/Kept.antt =====
-- `Delete_regex_older_than_cpp` (Source/SharedLibraries/CommonTools/ProcessName.cpp) leaves other files alone.
use logger_cpp.Common.{
  ℕ, ◌≤◌, Bool, true, false, not, ◌&&◌, ◌≡◌, refl, sym, ap, ◌∙◌, ◌⊎◌, inl, inr, Bytes, text_eq,
  text_eq_sound, ltb, Bool-cases, arith,
}
use logger_cpp.Records.{LogLevel}
use logger_cpp.Purge.{
  Listing, ended, entry, broken, broken_otherwise, Entry, Tried, done, failed, failed_otherwise,
  Directory, days_between, Purged, finished, stopped, purge_file, purge_entry, purge_entries,
  count_of, delete_regex_older_than, announced,
}

Tried-cases :
    {A : Type 0} (t : Tried A)
    → ((a : A) × (t ≡ done a))
      ⊎ (((what : Bytes) × (t ≡ failed what)) ⊎ ((what : Bytes) × (t ≡ failed_otherwise what)))
Tried-cases (done a) = inl (a, refl)
Tried-cases (failed what) = inr (inl (what, refl))
Tried-cases (failed_otherwise what) = inr (inr (what, refl))

module _ {W : Type 0} (directory : Directory W) (there : Bytes → W → Bool) where
  -- `there` says which files there are: the log does not change that, and a removal only for the file removed, if
  -- it says that it has removed it.
  pub record DirectoryLaws : Type 0 where
    pub logged :
        (level : LogLevel) (entity message q : Bytes) (w : W)
        → there q (directory.mss level entity message w) ≡ there q w
    pub removed_alone :
        (path q : Bytes) (b : Bool) (w w' : W)
        → directory.remove path w ≡ done (b, w')
        → text_eq path q ≡ false
        → there q w' ≡ there q w
    pub not_removed :
        (path q : Bytes) (w w' : W)
        → directory.remove path w ≡ done (false, w')
        → there q w' ≡ there q w

  -- The pattern does not match the file, or the file is never older than the age.
  abbrev pub IsSpared : ℕ → Bytes → Type 0
  IsSpared maximum_age q =
      (directory.regex_match q ≡ false)
      ⊎ ((v : W) (time : ℕ)
          → directory.last_write_time q v ≡ done time
          → days_between (directory.file_clock_now v) time ≤ maximum_age)

  abbrev world_of : Purged directory → W
  world_of (finished count w) = w
  world_of (stopped kind what count w) = w

  module _ (laws : DirectoryLaws) (q : Bytes) where
    purge_file-there :
        (verbose : Bool) (days : ℕ) (path : Bytes) (count : ℕ) (w : W)
        → text_eq path q ≡ false
        → there q (world_of (purge_file directory verbose days path count w)) ≡ there q w
    unfolding purge_file
    purge_file-there verbose days path count w other =
        elim (Tried-cases (directory.remove path w)) [
          | inl ((true, w'), e) ↦ elim (Bool-cases verbose) [
            | inl loud ↦
                rw (e, world_of)
                  (rw (loud, world_of)
                    (laws.logged _ _ _ q w' ∙ laws.removed_alone path q true w w' e other))
            | inr quiet ↦
                rw (e, world_of)
                  (rw (quiet, world_of) (laws.removed_alone path q true w w' e other))
          ]
          | inl ((false, w'), e) ↦
              rw (e, world_of) (laws.logged _ _ _ q w' ∙ laws.not_removed path q w w' e)
          | inr (inl (what, e)) ↦ rw (e, world_of) refl
          | inr (inr (what, e)) ↦ rw (e, world_of) refl
        ]

    module _ (verbose : Bool) (maximum_age : ℕ) (spared : IsSpared maximum_age q) where
      -- A file that is removed is another one.
      differs :
          (path : Bytes) (time : ℕ) (w : W)
          → directory.regex_match path ≡ true
          → directory.last_write_time path w ≡ done time
          → ltb maximum_age (days_between (directory.file_clock_now w) time) ≡ true
          → text_eq path q ≡ false
      differs path time w matches written old = elim (Bool-cases (text_eq path q)) [
        | inl same ↦
            let e = text_eq_sound path q same in
            absurd (elim spared [
              | inl unmatched ↦ cc (matches, unmatched, ap directory.regex_match e)
              | inr young ↦
                  too_old (days_between (directory.file_clock_now w) time)
                    (young w time (ap (λ p. directory.last_write_time p w) (sym e) ∙ written)) old
            ])
        | inr other ↦ other
      ]
        where
          too_old : (days : ℕ) → days ≤ maximum_age → ltb maximum_age days ≡ true → ⊥
          too_old days le lt = ground arith

      purge_entry-there :
          (e : Entry) (count : ℕ) (w : W)
          → there q (world_of (purge_entry directory verbose maximum_age e count w)) ≡ there q w
      unfolding purge_entry
      purge_entry-there e count w =
          elim (Bool-cases (not e.is_directory && directory.regex_match e.path)) [
            | inr skipped ↦ rw skipped refl
            | inl chosen ↦ elim (Tried-cases (directory.last_write_time e.path w)) [
              | inl (time, written) ↦
                  elim (Bool-cases
                    (ltb maximum_age (days_between (directory.file_clock_now w) time))) [
                      | inl old ↦ rw chosen (
                          rw written (
                            rw old (
                              purge_file-there verbose
                                (days_between (directory.file_clock_now w) time) e.path count w
                                (differs e.path time w (ground arith) written old))))
                      | inr young ↦ rw chosen (rw written (rw young refl))
                    ]
              | inr (inl (what, failure)) ↦ rw chosen (rw failure refl)
              | inr (inr (what, failure)) ↦ rw chosen (rw failure refl)
            ]
          ]

      -- The rest of the loop, behind its first round.
      purge_rest-there :
          (es : Listing)
          → ((count : ℕ) (w : W)
              → there q (world_of (purge_entries directory verbose maximum_age es count w))
                ≡ there q w)
          → (first : Purged directory)
          → there q (
              world_of (elim first [
                | finished count' w' ↦ purge_entries directory verbose maximum_age es count' w'
                | stopped kind what count' w' ↦ stopped kind what count' w'
              ]))
            ≡ there q (world_of first)
      purge_rest-there es rest (finished count' w') = rest count' w'
      purge_rest-there es rest (stopped kind what count' w') = refl

      purge_entries-there :
          (es : Listing) (count : ℕ) (w : W)
          → there q (world_of (purge_entries directory verbose maximum_age es count w)) ≡ there q w
      unfolding purge_entries
      purge_entries-there ended count w = refl
      purge_entries-there (broken what) count w = refl
      purge_entries-there (broken_otherwise what) count w = refl
      purge_entries-there (entry e es) count w =
          purge_rest-there es (purge_entries-there es)
            (purge_entry directory verbose maximum_age e count w)
          ∙ purge_entry-there e count w

      count_of-there :
          (p : Purged directory) → there q (count_of directory p).1 ≡ there q (world_of p)
      unfolding count_of
      count_of-there (finished count w) = refl
      count_of-there (stopped kind what count w) = laws.logged _ _ _ q w

      announced-there :
          (dir : Bytes) (w : W)
          → there q (announced directory verbose dir maximum_age w) ≡ there q w
      announced-there dir w = elim (Bool-cases verbose) [
        | inl loud ↦ rw (loud, announced) (laws.logged _ _ _ q w)
        | inr quiet ↦ rw (quiet, announced) refl
      ]

      -- For every directory whose removals and log leave other files alone: a file that the pattern does not
      -- match, or that is not older than the age, is still there (or still not there) after the purge, on every
      -- path through it, those of exceptions included.
      pub delete-there :
          (dir : Bytes) (w : W)
          → there q (delete_regex_older_than directory dir maximum_age verbose w).1 ≡ there q w
      unfolding delete_regex_older_than
      delete-there dir w =
          let w1 = announced directory verbose dir maximum_age w in
          let es = directory.entries dir w1 in
          count_of-there (purge_entries directory verbose maximum_age es 0 w1)
          ∙ purge_entries-there es 0 w1
          ∙ announced-there dir w
