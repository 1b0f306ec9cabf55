-- ===== src/Configs/Comparison.antt =====
-- `operator==` of two logger configurations (Source/SharedLibraries/CommonTools/Logger.cpp).
use logger_cpp.Common.{
  Bool, true, false, List, [], ◌∷◌, ◌++◌, ◌≡◌, refl, ◌∙◌, Bytes, text_eq_refl, ==_refl, length,
}
use logger_cpp.Kinds.{kinds_eq}
use logger_cpp.Records.{level_value}
use logger_cpp.Target.Base.{TargetConfig}
use logger_cpp.Logger.Setup.Config.{DispatchEntry, LoggerConfig}
use logger_cpp.Serializer.{ok, undefined, ◌>>=◌}
use logger_cpp.Configs.{
  entry_eq, target_config_eq, texts_eq, equal, base_of, logger_config_eq, bool_eq,
}
use logger_cpp.Configs.Exposed.{ConfigObject}
use logger_cpp.Configs.Schemas.{type_value}

texts_eq_refl : (ts : List Bytes) → texts_eq ts ts ≡ true
texts_eq_refl [] = refl
texts_eq_refl (t ∷ ts) = rw (text_eq_refl t) (texts_eq_refl ts)

entry_eq_refl : (e : DispatchEntry) → entry_eq e e ≡ true
unfolding entry_eq kinds_eq
entry_eq_refl e =
    rw (==_refl e.kinds.bits) (rw (==_refl (level_value e.level)) (texts_eq_refl e.targets))

target_config_eq_refl : (c : TargetConfig) → target_config_eq c c ≡ true
unfolding target_config_eq
target_config_eq_refl c =
    rw (text_eq_refl c.target_name)
      (rw (text_eq_refl c.format_string) (==_refl (type_value c.target_type)))

equal_refl :
    {A : Type 0} (eq : A → A → Bool) (xs : List A)
    → ((a : A) → eq a a ≡ true)
    → equal eq xs xs ≡ ok true
unfolding equal
equal_refl eq [] h = refl
equal_refl eq (x ∷ xs) h = rw (h x) (equal_refl eq xs h)

equal-longer :
    {A : Type 0} (eq : A → A → Bool) (xs more : List A)
    → ((a : A) → eq a a ≡ true)
    → equal eq xs (xs ++ more) ≡ ok true
unfolding equal
equal-longer eq [] more h = refl
equal-longer eq (x ∷ xs) more h = rw (h x) (equal-longer eq xs more h)

equal-shorter :
    {A : Type 0} (eq : A → A → Bool) (xs : List A) (m : A) (more : List A)
    → ((a : A) → eq a a ≡ true)
    → equal eq (xs ++ m ∷ more) xs ≡ undefined
unfolding equal
equal-shorter eq [] m more h = refl
equal-shorter eq (x ∷ xs) m more h = rw (h x) (equal-shorter eq xs m more h)

bool_eq_refl : (b : Bool) → bool_eq b b ≡ true
bool_eq_refl true = refl
bool_eq_refl false = refl

abbrev targets_eq : ConfigObject → ConfigObject → Bool
targets_eq a b = target_config_eq (base_of a) (base_of b)

same_but_targets :
    (c : LoggerConfig ConfigObject) (ls rs : List ConfigObject)
    → logger_config_eq (record c { target_configs = ls }) (record c { target_configs = rs })
      ≡ equal targets_eq ls rs
unfolding logger_config_eq
same_but_targets c ls rs = rw (bool_eq_refl c.asynchronous_mode) (
    rw (bool_eq_refl c.use_fallback) (
      rw (==_refl (length c.dispatch_config))
        (rw (equal_refl entry_eq c.dispatch_config entry_eq_refl, ◌>>=◌) refl)))

-- The comparison does not look at the number of targets: a configuration is equal to every one that has more
-- targets behind its own, and the other way round the comparison reads past the end of the shorter one.
pub logger_config_eq-longer :
    (c : LoggerConfig ConfigObject) (m : ConfigObject) (more : List ConfigObject)
    → let longer = record c { target_configs = c.target_configs ++ m ∷ more } in
      (logger_config_eq c longer ≡ ok true) × (logger_config_eq longer c ≡ undefined)
logger_config_eq-longer c m more =
    let refl_targets = λ (o : ConfigObject). target_config_eq_refl (base_of o) in
    let ls = c.target_configs in
    (
      same_but_targets c ls (ls ++ m ∷ more) ∙ equal-longer targets_eq ls (m ∷ more) refl_targets,
      same_but_targets c (ls ++ m ∷ more) ls ∙ equal-shorter targets_eq ls m more refl_targets,
    )
