-- ===== src/Domain/Capability.antt =====
-- internal/domain/model_routing.go: what a model of a node accepts. Durations, counts and limits
-- are never negative in a catalog that was stored, and are natural numbers here.
pub mod Laws
use minimax_proxy.Base.{
  ℕ, ◌<◌, String, Bool, true, false, not, ◌==◌, ◌&&◌, ◌||◌, if◌then◌else◌, List, [], ◌∷◌, string_eq,
  nat_eq, ltb, any, length,
}

pub record ModeCapability : Type 0 where
  pub scenario : String
  pub durations : List ℕ
  pub roles : List String

pub record ModelCapability : Type 0 where
  pub schema_version : ℕ
  pub modes : List ModeCapability
  pub input_sources : List String
  pub resolution_policy : String
  pub resolutions : List String
  pub max_media : ℕ

pub record TaskRequirements : Type 0 where
  pub scenario : String
  pub duration : ℕ
  pub resolution : String
  pub roles : List String
  pub input_sources : List String
  pub media_count : ℕ

-- `slices.Contains`.
unfoldable pub contains : List String → String → Bool
contains xs a = any (λ x. x == a) xs

unfoldable pub contains_nat : List ℕ → ℕ → Bool
contains_nat xs a = any (λ x. x == a) xs

-- The test of a mode that `Supports` and the last loop of `Accepts` make.
abbrev pub mode_fits : String → ℕ → ModeCapability → Bool
mode_fits scenario duration m = m.scenario == scenario && contains_nat m.durations duration

unfoldable pub supports : ModelCapability → String → ℕ → Bool
supports c scenario duration = any (mode_fits scenario duration) c.modes

unfoldable pub has_mode : ModelCapability → String → Bool
has_mode c scenario = any (λ m. m.scenario == scenario) c.modes

-- `len(list) > 0 && !slices.Contains(list, x)` for some x of the wanted ones: an empty list allows
-- everything.
unfoldable pub refuses : List String → List String → Bool
refuses allowed [] = false
refuses allowed (x ∷ wanted) =
    (ltb 0 (length allowed) && not (contains allowed x)) || refuses allowed wanted

-- The last loop: the first mode with the scenario and the duration decides by its roles.
unfoldable pub first_mode : List ModeCapability → TaskRequirements → Bool
first_mode [] r = false
first_mode (m ∷ modes) r =
    let rest = first_mode modes r in
    if mode_fits r.scenario r.duration m then not (refuses m.roles r.roles) else rest

unfoldable pub accepts : ModelCapability → TaskRequirements → Bool
accepts c r =
    if not (supports c r.scenario r.duration)
      || (ltb 0 c.max_media && ltb c.max_media r.media_count)
    then false
    else if ltb 0 (length c.resolutions) && not (contains c.resolutions r.resolution)
    then false
    else if refuses c.input_sources r.input_sources
    then false
    else first_mode c.modes r
