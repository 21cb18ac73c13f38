-- ===== src/Domain/Capability/Laws.antt =====
-- `Accepts` against a description of it that has no loops.
use minimax_proxy.Base.{
  ◌≤◌, ◌≡◌, ◌↔◌, ◌⊎◌, inl, inr, refl, String, true, false, List, [], ◌∷◌, arith, eq_iff, any,
  length, All, subst, sym, Bool-cases, ltb, ◌&&◌, not,
}
use minimax_proxy.Domain.Capability.{
  ModeCapability, ModelCapability, TaskRequirements, contains, supports, refuses, first_mode,
  accepts, mode_fits,
}

-- `x` is one of the listed texts.
abbrev pub Lists : List String → String → Type 0
Lists [] a = ⊥
Lists (x ∷ xs) a = (x ≡ a) ⊎ Lists xs a

-- An empty list allows everything.
abbrev pub Allows : List String → String → Type 0
Allows allowed a = (allowed ≡ []) ⊎ Lists allowed a

contains→Lists : (xs : List String) (a : String) → contains xs a ≡ true → Lists xs a
unfolding contains
contains→Lists [] a h = ground arith
contains→Lists (x ∷ xs) a h = ground (arith, eq_iff x a, contains→Lists xs a)

Lists→contains : (xs : List String) (a : String) → Lists xs a → contains xs a ≡ true
unfolding contains
Lists→contains [] a h = absurd h
Lists→contains (x ∷ xs) a h = ground (arith, eq_iff x a, Lists→contains xs a)

refuses→All :
    (allowed wanted : List String) → refuses allowed wanted ≡ false → All (Allows allowed) wanted
unfolding refuses
refuses→All allowed [] h = tt
refuses→All [] (x ∷ wanted) h = (inl refl, refuses→All [] wanted (ground arith))
refuses→All (a ∷ as_) (x ∷ wanted) h =
    (inr (contains→Lists (a ∷ as_) x (ground arith)), refuses→All (a ∷ as_) wanted (ground arith))

All→refuses :
    (allowed wanted : List String) → All (Allows allowed) wanted → refuses allowed wanted ≡ false
unfolding refuses
All→refuses allowed [] h = refl
All→refuses [] (x ∷ wanted) h = ground (arith, All→refuses [] wanted h.1)
All→refuses (a ∷ as_) (x ∷ wanted) (inl e, hs) = absurd (cc)
All→refuses (a ∷ as_) (x ∷ wanted) (inr l, hs) =
    ground (arith, Lists→contains (a ∷ as_) x l, All→refuses (a ∷ as_) wanted hs)

-- The first mode of the list that has the scenario and the duration: it is `m`.
abbrev pub Decides : TaskRequirements → List ModeCapability → ModeCapability → Type 0
Decides r [] d = ⊥
Decides r (m ∷ modes) d =
    ((mode_fits r.scenario r.duration m ≡ true) × (m ≡ d))
    ⊎ ((mode_fits r.scenario r.duration m ≡ false) × Decides r modes d)

first_mode→Decides :
    (modes : List ModeCapability) (r : TaskRequirements)
    → first_mode modes r ≡ true
    → (m : ModeCapability) × Decides r modes m × All (Allows m.roles) r.roles
unfolding first_mode
first_mode→Decides [] r h = absurd (cc)
first_mode→Decides (m ∷ modes) r h = elim (Bool-cases (mode_fits r.scenario r.duration m)) [
  | inl fits ↦ (m, inl (fits, refl), refuses→All m.roles r.roles (ground arith))
  | inr misses ↦
      let (d, decides, roles) = first_mode→Decides modes r (ground arith) in
      (d, inr (misses, decides), roles)
]

Decides→first_mode :
    (modes : List ModeCapability) (r : TaskRequirements) (m : ModeCapability)
    → Decides r modes m
    → All (Allows m.roles) r.roles
    → first_mode modes r ≡ true
unfolding first_mode
Decides→first_mode [] r m d h = absurd d
Decides→first_mode (x ∷ modes) r m (inl (fits, e)) h =
    ground
      (arith, All→refuses x.roles r.roles (subst (λ k. All (Allows k.roles) r.roles) (sym e) h))
Decides→first_mode (x ∷ modes) r m (inr (misses, d)) h =
    ground (arith, Decides→first_mode modes r m d h)

Decides→any :
    (modes : List ModeCapability) (r : TaskRequirements) (m : ModeCapability)
    → Decides r modes m
    → any (mode_fits r.scenario r.duration) modes ≡ true
Decides→any [] r m d = absurd d
Decides→any (x ∷ modes) r m (inl (fits, e)) = ground arith
Decides→any (x ∷ modes) r m (inr (misses, d)) = ground (arith, Decides→any modes r m d)

-- What a capability promises of a request that it accepts.
pub record Accepted (c : ModelCapability) (r : TaskRequirements) : Type 0 where
  pub media_in_limit : (c.max_media ≡ 0) ⊎ (r.media_count ≤ c.max_media)
  pub resolution_allowed : Allows c.resolutions r.resolution
  pub sources_allowed : All (Allows c.input_sources) r.input_sources
  pub mode : (m : ModeCapability) × Decides r c.modes m × All (Allows m.roles) r.roles

resolution→Allows :
    (rs : List String) (a : String)
    → (ltb 0 (length rs) && not (contains rs a)) ≡ false
    → Allows rs a
resolution→Allows [] a h = inl refl
resolution→Allows (x ∷ rs) a h = inr (contains→Lists (x ∷ rs) a (ground arith))

Allows→resolution :
    (rs : List String) (a : String)
    → Allows rs a
    → (ltb 0 (length rs) && not (contains rs a)) ≡ false
Allows→resolution [] a h = ground arith
Allows→resolution (x ∷ rs) a (inl e) = absurd (cc)
Allows→resolution (x ∷ rs) a (inr l) = ground (arith, Lists→contains (x ∷ rs) a l)

accepts_sound : (c : ModelCapability) (r : TaskRequirements) → accepts c r ≡ true → Accepted c r
unfolding accepts
accepts_sound c r h = record {
  media_in_limit = ground arith;
  resolution_allowed = resolution→Allows c.resolutions r.resolution (ground arith);
  sources_allowed = refuses→All c.input_sources r.input_sources (ground arith);
  mode = first_mode→Decides c.modes r (ground arith);
}

accepts_complete : (c : ModelCapability) (r : TaskRequirements) → Accepted c r → accepts c r ≡ true
unfolding accepts supports
accepts_complete c r a = ground (
  arith,
  Allows→resolution c.resolutions r.resolution a.resolution_allowed,
  All→refuses c.input_sources r.input_sources a.sources_allowed,
  Decides→first_mode c.modes r a.mode.0 a.mode.1 a.mode.2,
  Decides→any c.modes r a.mode.0 a.mode.1,
)

-- A capability accepts a request exactly when its media count, resolution and input sources are
-- within the limits and the first mode with the request's scenario and duration allows its roles.
pub accepts_iff : (c : ModelCapability) (r : TaskRequirements) → (accepts c r ≡ true) ↔ Accepted c r
accepts_iff c r = (accepts_sound c r, accepts_complete c r)
