-- ===== src/Entities/Caps.antt =====
-- The methods of the rows in src/entities.rs.
use mathlib.Core.Option
use nextapi.Base.{
  String, Bool, true, false, ◌&&◌, Option, none, some, List, [], ◌∷◌, ◌++◌, ltb, any, if◌then◌else◌,
  String_eq,
}
use nextapi.Base.Json.{Value, as_bool, get, index}
use nextapi.Entities.{ApiKeyRow, UpstreamRow, Time}
use nextapi.Routing.Pattern.{pattern_matches}

-- An empty list of models allows all, like none at all.
unfoldable pub model_allowed : ApiKeyRow → String → Bool
model_allowed key model = elim key.models [
  | none ↦ true
  | some [] ↦ true
  | some (p ∷ ps) ↦ any (λ q. pattern_matches q model) (p ∷ ps)
]

unfoldable pub is_usable : ApiKeyRow → Time → Bool
is_usable key now = key.enabled && elim key.expires_at [ none ↦ true | some e ↦ ltb now e ]

unfoldable pub debug_active : ApiKeyRow → Time → Bool
debug_active key now =
    key.debug_enabled && elim key.debug_expires_at [ none ↦ false | some e ↦ ltb now e ]

-- `extra.auto_disable` switches the breaker off only where it is the boolean false.
unfoldable pub auto_disable_allowed_in : Value → Bool
auto_disable_allowed_in extra = elim (Option.bind (get "auto_disable" extra) as_bool) [
  | some false ↦ false
  | _ ↦ true
]

pub record Capabilities : Type 0 where
  pub stream : Option Bool
  pub tools : Option Bool
  pub vision : Option Bool

pub record RequiredCaps : Type 0 where
  pub stream : Bool
  pub tools : Bool
  pub vision : Bool

unfoldable pub capabilities : UpstreamRow → Capabilities
capabilities up =
    let c = index up.extra "capabilities" in
    record {
      stream = as_bool (index c "stream");
      tools = as_bool (index c "tools");
      vision = as_bool (index c "vision");
    }

-- A capability counts as missing only where it is needed and said to be absent.
abbrev lacks : Bool → Option Bool → Bool
lacks true (some false) = true
lacks _ _ = false

unfoldable pub missing : Capabilities → RequiredCaps → List String
missing c req =
    (if lacks req.stream c.stream then "stream" ∷ [] else [])
    ++ ((if lacks req.tools c.tools then "tools" ∷ [] else [])
        ++ (if lacks req.vision c.vision then "vision" ∷ [] else []))
