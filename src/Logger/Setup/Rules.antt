-- ===== src/Logger/Setup/Rules.antt =====
-- The routing rules that `Logger::Configure` builds.
use logger_cpp.Common.{
  ◌≡◌, ◌≢◌, refl, sym, ◌∙◌, false, List, [], ◌∷◌, ◌++◌, map, some, arith, Bytes, All, All-map, inl,
  inr, Bool-cases, Option-cases, List-cases, text_eq, subst,
}
use logger_cpp.Common.Sets.{
  In, IsRising, insert_all, nat_order, insert_all-IsRising, All-insert_all,
}
use logger_cpp.Kinds.{LogKindSet, kinds_eq}
use logger_cpp.Records.{LogLevel}
use logger_cpp.Target.{TargetClass}
use logger_cpp.Logger.{Address, DispatchKey, Slot, State, Logger}
use logger_cpp.Logger.Setup.Config.{DispatchEntry, LoggerConfig}
use logger_cpp.Logger.Setup.{
  same_key, keep_key, merge_key, new_object, create_target, create_targets, find_target, resolve,
  configure_entry, configure_entries, configure,
}

abbrev pub addresses : List Slot → List Address
addresses slots = map (λ slot. slot.target) slots

-- A rule has targets, each once and in the order of the addresses, and all are targets of the logger.
abbrev pub IsRule : List Address → DispatchKey → Type 0
IsRule known key = (key.targets ≢ []) × IsRising key.targets × All (λ a. In a known) key.targets

abbrev pub OtherThan : LogLevel → LogKindSet → DispatchKey → Type 0
OtherThan level kinds key = same_key key level kinds ≡ false

-- No two rules have the same level and kinds.
abbrev pub IsDistinct : List DispatchKey → Type 0
IsDistinct [] = Unit
IsDistinct (key ∷ keys) = All (OtherThan key.level key.kinds) keys × IsDistinct keys

abbrev pub HasGoodRules : List Address → List DispatchKey → Type 0
HasGoodRules known keys = All (IsRule known) keys × IsDistinct keys

keep_key-All :
    (P : DispatchKey → Type 0) (key : DispatchKey) (rest : List DispatchKey)
    → (key.targets ≢ [] → P key)
    → All P rest
    → All P (keep_key key rest)
unfolding keep_key
keep_key-All P key rest h hs = elim (List-cases key.targets) [
  | inl e ↦ simp (e, keep_key) hs
  | inr (a, as', e) ↦ simp (e, keep_key) (h (λ p. absurd (cc (sym e ∙ p))), hs)
]

merge_key-All :
    (P : DispatchKey → Type 0) (level : LogLevel) (kinds : LogKindSet) (found : List Address)
    (keys : List DispatchKey)
    → ((key : DispatchKey)
        → P key
        → insert_all found key.targets ≢ []
        → P (record key { targets = insert_all found key.targets }))
    → (insert_all found [] ≢ []
        → P (record { level = level; kinds = kinds; targets = insert_all found [] }))
    → All P keys
    → All P (merge_key level kinds found keys)
unfolding merge_key
merge_key-All P level kinds found [] grow new hs =
    keep_key-All P (record { level = level; kinds = kinds; targets = insert_all found [] }) [] new
      tt
merge_key-All P level kinds found (key ∷ keys) grow new (h, hs) =
    elim (Bool-cases (same_key key level kinds)) [
      | inl e ↦ rw (e, merge_key) (keep_key-All P _ keys (grow key h) hs)
      | inr e ↦ rw (e, merge_key) (h, merge_key-All P level kinds found keys grow new hs)
    ]

merge_key-IsRule :
    (known : List Address) (level : LogLevel) (kinds : LogKindSet) (found : List Address)
    (keys : List DispatchKey)
    → All (λ a. In a known) found
    → All (IsRule known) keys
    → All (IsRule known) (merge_key level kinds found keys)
merge_key-IsRule known level kinds found keys hf hs =
    merge_key-All (IsRule known) level kinds found keys
      (λ key (_, rising, targets) ne. (
        ne,
        insert_all-IsRising found key.targets rising,
        All-insert_all (λ a. In a known) found key.targets hf targets,
      ))
      (λ ne. (ne, insert_all-IsRising found [] tt, All-insert_all (λ a. In a known) found [] hf tt))
      hs

same_key-sym : (a b : DispatchKey) → OtherThan a.level a.kinds b → OtherThan b.level b.kinds a
unfolding kinds_eq
same_key-sym a b h = ground (arith, h)

keep_key-IsDistinct :
    (key : DispatchKey) (rest : List DispatchKey)
    → All (OtherThan key.level key.kinds) rest
    → IsDistinct rest
    → IsDistinct (keep_key key rest)
unfolding keep_key
keep_key-IsDistinct key rest h hs = elim (List-cases key.targets) [
  | inl e ↦ simp (e, keep_key) hs
  | inr (a, as', e) ↦ simp (e, keep_key) (h, hs)
]

merge_key-IsDistinct :
    (level : LogLevel) (kinds : LogKindSet) (found : List Address) (keys : List DispatchKey)
    → IsDistinct keys
    → IsDistinct (merge_key level kinds found keys)
unfolding merge_key
merge_key-IsDistinct level kinds found [] hs = keep_key-IsDistinct _ [] tt tt
merge_key-IsDistinct level kinds found (key ∷ keys) (h, hs) =
    let new : DispatchKey = record {
      level = level;
      kinds = kinds;
      targets = insert_all found [];
    } in
    elim (Bool-cases (same_key key level kinds)) [
      | inl e ↦
          rw (e, merge_key)
            (keep_key-IsDistinct (record key { targets = insert_all found key.targets }) keys h hs)
      | inr e ↦
          rw (e, merge_key)
            (
              merge_key-All (OtherThan key.level key.kinds) level kinds found keys (λ k p _. p)
                  (λ _. same_key-sym new key e) h,
              merge_key-IsDistinct level kinds found keys hs,
            )
    ]

merge_key-HasGoodRules :
    (known : List Address) (level : LogLevel) (kinds : LogKindSet) (found : List Address)
    (keys : List DispatchKey)
    → All (λ a. In a known) found
    → HasGoodRules known keys
    → HasGoodRules known (merge_key level kinds found keys)
merge_key-HasGoodRules known level kinds found keys hf (hr, hd) = (
  merge_key-IsRule known level kinds found keys hf hr,
  merge_key-IsDistinct level kinds found keys hd,
)

-- More targets leave the rules good.
HasGoodRules-more :
    (known more : List Address) (keys : List DispatchKey)
    → ((a : Address) → In a known → In a more)
    → HasGoodRules known keys
    → HasGoodRules more keys
HasGoodRules-more known more keys sub (hr, hd) = (
  All-map (IsRule known) (IsRule more) keys
      (λ key (ne, rising, targets).
        (ne, rising, All-map (λ a. In a known) (λ a. In a more) key.targets sub targets))
      hr,
  hd,
)

In-addresses :
    (a : Address) (slots : List Slot) (slot : Slot)
    → In a (addresses slots)
    → In a (addresses (slots ++ (slot ∷ [])))
In-addresses a [] slot m = absurd m
In-addresses a (s ∷ slots) slot (inl e) = inl e
In-addresses a (s ∷ slots) slot (inr m) = inr (In-addresses a slots slot m)

module _ {W T C : Type 0} (class : TargetClass W T C) where
  -- The rules of a logger are good.
  abbrev pub IsRouted : State W T → Type 0
  IsRouted s = HasGoodRules (addresses s.targets) s.dispatch_keys

  find_target-In :
      (name : Bytes) (heap : Address → T) (slots : List Slot) (a : Address)
      → find_target class name heap slots ≡ some a
      → In a (addresses slots)
  unfolding find_target
  find_target-In name heap [] a h = cc
  find_target-In name heap (slot ∷ slots) a h =
      elim (Bool-cases (text_eq (class.get_target_name (heap slot.target)) name)) [
        | inl e ↦ let found : some slot.target ≡ some a = rw e at h in inl (cc found)
        | inr e ↦ inr (find_target-In name heap slots a (rw e at h))
      ]

  resolve-In :
      (entry : DispatchEntry) (names : List Bytes) (s : State W T)
      → All (λ a. In a (addresses s.targets)) (resolve class entry names s).0
        × ((resolve class entry names s).1.logger ≡ s.logger)
  unfolding resolve
  resolve-In entry [] s = (tt, refl)
  resolve-In entry (name ∷ names) s =
      elim (Option-cases (find_target class name s.heap s.targets)) [
        | inl e ↦ rw (e, resolve) (resolve-In entry names _)
        | inr (a, e) ↦
            let (found, same) = resolve-In entry names s in
            rw (e, resolve) ((find_target-In name s.heap s.targets a e, found), same)
      ]

  configure_entry-IsRouted :
      (entry : DispatchEntry) (s : State W T)
      → IsRouted s
      → IsRouted (configure_entry class entry s)
  unfolding configure_entry
  configure_entry-IsRouted entry s h =
      let (found, same) = resolve-In entry entry.targets s in
      let a = (resolve class entry entry.targets s).0 in
      subst
        (λ (l : Logger).
          HasGoodRules (addresses l.targets) (merge_key entry.level entry.kinds a l.dispatch_keys))
        (sym same)
        (merge_key-HasGoodRules (addresses s.targets) entry.level entry.kinds a s.dispatch_keys
          found h)

  configure_entries-IsRouted :
      (entries : List DispatchEntry) (s : State W T)
      → IsRouted s
      → IsRouted (configure_entries class entries s)
  unfolding configure_entries
  configure_entries-IsRouted [] s h = h
  configure_entries-IsRouted (entry ∷ entries) s h =
      configure_entries-IsRouted entries (configure_entry class entry s)
        (configure_entry-IsRouted entry s h)

  create_target-IsRouted :
      (config : C) (s : State W T) → IsRouted s → IsRouted (create_target class config s)
  unfolding create_target new_object
  create_target-IsRouted config s h =
      elim (Option-cases (class.new_target (class.config_type config))) [
        | inl e ↦ rw (e, create_target) h
        | inr (t, e) ↦
            let slot : Slot = record {
              target = class.allocate s.allocated;
              should_perform_maintenance = false;
            } in
            rw (e, create_target)
              (HasGoodRules-more (addresses s.targets) (addresses (s.targets ++ (slot ∷ [])))
                s.dispatch_keys (λ a. In-addresses a s.targets slot) h)
      ]

  create_targets-IsRouted :
      (configs : List C) (s : State W T) → IsRouted s → IsRouted (create_targets class configs s)
  unfolding create_targets
  create_targets-IsRouted [] s h = h
  create_targets-IsRouted (config ∷ configs) s h =
      create_targets-IsRouted configs (create_target class config s)
        (create_target-IsRouted config s h)

  -- For every class of targets and every configuration, names that are not found and rules that come up
  -- twice included: if each routing rule of the logger has targets, each once, in the order of addresses
  -- and among the logger's targets, and no two rules have the same level and kinds, then so it is after
  -- `Configure`. A new logger has no rules.
  pub configure-IsRouted :
      (config : LoggerConfig C) (s : State W T) → IsRouted s → IsRouted (configure class config s)
  unfolding configure
  configure-IsRouted config s h =
      configure_entries-IsRouted config.dispatch_config _
        (create_targets-IsRouted config.target_configs _ h)
