-- ===== src/Examples/ConfigFiles.antt =====
-- A disk with one configuration file, and a logger whose configuration has a text form.
use native.Mathlib.Decide.{ℕ_discrete}
use logger_cpp.Common.{
  Bool, true, false, List, [], ◌∷◌, ◌≡◌, ◌≢◌, refl, sym, ap, ◌∙◌, inl, Option, none, some, Bytes,
  codes, ℕ, arith, text_eq, text_eq_sound, ◌≤◌, ◌&&◌, if◌then◌else◌,
}
use logger_cpp.Target.{returned, TargetClass, system_out_target}
use logger_cpp.Target.Base.{Platform, new_config}
use logger_cpp.Logger.{State, new_logger}
use logger_cpp.Logger.Setup.{configure, get_config}
use logger_cpp.Serializer.{Result, ok, error, ok_injective}
use logger_cpp.Serializer.Members.{
  validated, write_members, validate_with, field, get_value, set_value, write_items,
}
use logger_cpp.Configs.{logger_json}
use logger_cpp.Configs.Exposed.{ConfigObject, plain_config}
use logger_cpp.ConfigFiles.{
  Files, Ran, returns, throws, save_config, load_config, with_world, loaded_text, backup_config,
  backup_name, find_name,
}
use logger_cpp.ConfigFiles.Restored.{FileLaws, load_config-save_config}
use logger_cpp.Common.Sets.{In}
use logger_cpp.ConfigFiles.Backup.{find_name_ends}
use logger_cpp.ConfigFiles.Faults.{save_config-empties, dump_warning}
use logger_cpp.Examples.Trees.{
  Tree, trees, trees_laws, null_tree, boolean_tree, array_tree, object_tree, nil, end, pair,
}

-- The contents of the configuration file and the lines of the console.
record Store : Type 0 where
  held : Option Bytes
  console : List Bytes

abbrev filename : Bytes
filename = codes "logger.json"

abbrev is_some : Option Bytes → Bool
is_some none = false
is_some (some text) = true

abbrev exists_in : Bytes → Store → Bool
exists_in name w = text_eq name filename && is_some w.held

abbrev replaced : Bytes → Bytes → Store → Bool × Store
replaced name text w =
    if text_eq name filename then (true, record w { held = some text }) else (false, w)

abbrev contents : Bytes → Store → Option Bytes
contents name w = if text_eq name filename then w.held else none

abbrev printed : Bytes → Store → Store
printed text w = record w { console = text ∷ w.console }

abbrev platform : Platform Store
platform = record {
  visit = λ rs. rs;
  clock_now = λ w. (0, w);
  cout = printed;
  cerr = printed;
  open_file = λ name w. (false, w);
  put = λ name text w. w;
  exists = exists_in;
  file_size = λ name w. 0;
  create_directories = λ name w. (none, w);
  regex_error = λ pattern. none;
  mss = λ level entity message w. printed message w;
  title = [];
  process_name = [];
  pid = 1;
  trace_path = codes "/tmp/";
  mss_module_name = [];
  current_source = λ line. record { file_address = 0; file_name = []; line = line };
}

-- Targets are their names.
abbrev named : Bytes → ConfigObject
named name = plain_config (new_config name [] system_out_target)

abbrev names : TargetClass Store Bytes ConfigObject
names = record {
  new_target = λ type. some [];
  base_config = λ name format type. named name;
  config_type = λ config. system_out_target;
  get_target_name = λ t. t;
  load_config = λ config t. t;
  export_config = named;
  setup = λ t w. (none, t, w);
  maintenance = λ t w. returned (t, w);
  refresh = λ t w. (false, t, w);
  try_write_log = λ r t w. (record { success = true; reason = [] }, t, w);
  clock_now = λ w. (0, w);
  cerr = printed;
  mss = λ level entity message w. record w { console = message ∷ w.console };
  allocate = λ used. 0;
  mss_module_name = [];
  current_source = λ line. record { file_address = 0; file_name = []; line = line };
}

abbrev initial : State Store Bytes
initial = record {
  logger = new_logger;
  heap = λ a. [];
  allocated = [];
  world = record { held = some (codes "old"); console = [] };
}

-- The configuration of the logger as JSON.
abbrev saved_tree : Tree
saved_tree = object_tree (
    pair (codes "targets") (array_tree nil) (
      pair (codes "dispatch") (array_tree nil) (
        pair (codes "use_fallback") (boolean_tree true)
          (pair (codes "asynchronous_mode") (boolean_tree true) end))))

saved_tree_lem :
    (logger_json trees platform).serialize (get_config names initial) null_tree ≡ ok saved_tree
unfolding validated write_members validate_with field get_value set_value write_items get_config
saved_tree_lem = refl

Bool-discrete : Discrete Bool
Bool-discrete = hlevel

Tree-discrete : Discrete Tree
Tree-discrete = hlevel ℕ_discrete

-- A text form for that value alone.
abbrev text : Bytes
text = codes "{}"

abbrev dump_tree : Tree → Result Bytes
dump_tree j = elim (Tree-discrete j saved_tree) [
  | yes same ↦ ok text
  | no other ↦ error (codes "utf8")
]

abbrev with_dump : (Tree → Result Bytes) → Files Store Tree
with_dump dump = record {
  exists = exists_in;
  read_file = contents;
  write_file = replaced;
  rename = λ from to w. returns tt (record w { held = none });
  cout = printed;
  parse = λ t. if text_eq t text then ok saved_tree else error (codes "parse");
  dump = dump;
}

dump-saved : (j : Tree) → j ≡ saved_tree → dump_tree j ≡ ok text
dump-saved j e =
    elim (Tree-discrete j saved_tree)
      as (λ d. elim d [ yes same ↦ ok text | no other ↦ error (codes "utf8") ] ≡ ok text) [
        | yes same ↦ refl
        | no other ↦ absurd (other e)
      ]

parse-dump_tree :
    (j : Tree) (t : Bytes)
    → dump_tree j ≡ ok t
    → (if text_eq t text then ok saved_tree else error (codes "parse")) ≡ ok j
parse-dump_tree j t =
    elim (Tree-discrete j saved_tree)
      as (λ d.
        (elim d [ yes same ↦ ok text | no other ↦ error (codes "utf8") ]) ≡ ok t
        → (if text_eq t text then ok saved_tree else error (codes "parse")) ≡ ok j) [
          | yes same ↦ λ e. rw (← ok_injective e) (ap ok (sym same))
          | no other ↦ λ e. cc
        ]

dump_tree_nonempty : (j : Tree) → dump_tree j ≢ ok []
dump_tree_nonempty j =
    elim (Tree-discrete j saved_tree)
      as (λ d. (elim d [ yes same ↦ ok text | no other ↦ error (codes "utf8") ]) ≡ ok [] → ⊥) [
        | yes same ↦ λ e. cc (ok_injective e)
        | no other ↦ λ e. cc
      ]

held-exists : (t : Bytes) (w : Store) → contents filename w ≡ some t → exists_in filename w ≡ true
held-exists t w e = rw e refl

laws_with :
    (dump : Tree → Result Bytes)
    → ((j : Tree) (t : Bytes)
        → dump j ≡ ok t
        → (if text_eq t text then ok saved_tree else error (codes "parse")) ≡ ok j)
    → ((j : Tree) → dump j ≢ ok [])
    → FileLaws trees names (with_dump dump) filename
laws_with dump parses nonempty = record {
  written = λ t w e. refl;
  readable-exists = held-exists;
  logged_elsewhere = λ level entity message w. refl;
  parse-dump = parses;
  dump_nonempty = nonempty;
}

abbrev save_global : Bytes → State Store Bytes → Ran Store (State Store Bytes)
save_global name s = throws [] s.world

load_config-save_config_example :
    let files = with_dump dump_tree in
    (w : Store) × (save_config trees names platform files 1 filename initial
      ≡ returns (with_world trees names platform files initial w) w)
    × ((t : State Store Bytes)
        → load_config trees names platform files save_global 1 filename
            (with_world trees names platform files t w)
          ≡ (let t' =
                configure names
                  (get_config names initial)
                  (with_world trees names platform files t w) in
              let w' = printed (loaded_text trees names platform files filename) t'.world in
              returns (with_world trees names platform files t' w') w'))
load_config-save_config_example =
    load_config-save_config trees names (with_dump dump_tree) trees_laws platform filename
      (laws_with dump_tree parse-dump_tree dump_tree_nonempty) save_global 1 1 initial text
      (λ t. inl refl) (λ j e. dump-saved j (sym (ok_injective (sym saved_tree_lem ∙ e)))) refl

-- A configuration that has no text form.
abbrev no_text : Tree → Result Bytes
no_text j = error (codes "utf8")

abbrev failing : Files Store Tree
failing = with_dump no_text

abbrev renamed : Store
renamed = record {
  held = none;
  console = dump_warning trees names failing trees_laws platform (codes "utf8") filename ∷ [];
}

backed_up :
    backup_config trees names platform failing 1 filename (
      printed
        (dump_warning trees names failing trees_laws platform (codes "utf8") filename)
        initial.world)
    ≡ returns (backup_name filename 0) renamed
unfolding backup_config find_name backup_name
backed_up = refl

save_config-empties_example :
    (w' : Store) × (save_config trees names platform failing 1 filename initial
      ≡ returns (with_world trees names platform failing initial w') w')
    × (contents filename w' ≡ some [])
save_config-empties_example =
    save_config-empties trees names failing trees_laws platform filename
      (laws_with no_text (λ j t e. cc) (λ j e. cc)) 1 initial (codes "utf8")
      (backup_name filename 0) renamed (λ t. inl refl) (λ j e. refl) backed_up refl

-- The first name that is tried is taken.
abbrev crowded : Files Store Tree
crowded = record failing { exists = λ name w. text_eq name (backup_name filename 0) }

crowded-In :
    (name : Bytes)
    → text_eq name (backup_name filename 0) ≡ true
    → In name (backup_name filename 0 ∷ [])
crowded-In name e = inl (text_eq_sound name (backup_name filename 0) e)

find_name_ends_example :
    (k : ℕ) × (k ≤ 1)
    × (find_name trees names platform crowded 2 0 filename initial.world
        ≡ some (backup_name filename k))
    × (text_eq (backup_name filename k) (backup_name filename 0) ≡ false)
find_name_ends_example =
    find_name_ends trees names platform crowded 2 filename initial.world
      (backup_name filename 0 ∷ []) crowded-In (omega arith)
