-- ===== src/Presentation/Create.antt =====
-- `CreateRequestFromSchema` of system/api/src/zkprequest/service.go, and the store of storage.go.
pub mod Laws
use digital_identity_system.Prelude.{
  ℕ, zero, suc, ◌+◌, String, Bool, true, false, not, Option, none, some, List, [], ◌∷◌,
  if◌then◌else◌, Result, ok, err,
}
use digital_identity_system.Prelude.Int.{ℤ, pos, negsuc}
use digital_identity_system.Dict
use digital_identity_system.Dict.{Dict}
use digital_identity_system.Presentation.Types.{
  Any, str, int, PresentationRequest, Service, unix, five_minutes,
}
use digital_identity_system.Presentation.Env.{Env}
use digital_identity_system.Presentation.Caches.{
  CreateError, not_initialized, ad_hoc_disabled, canonical_json, ensure_vk_for_schema,
}

-- The service of `NewService` before its options, with an empty store.
abbrev pub default_service : Service
default_service = record {
  has_store = true;
  store = [];
  audience = "http://localhost";
  response_uri = "http://localhost/presentations/verify";
  ttl = pos five_minutes;
  vk_cache = [];
  pk_cache = [];
  schema_cache = [];
  allow_ad_hoc_schema = true;
  waiters = [];
  channels = [];
  verdicts = [];
  timers = [];
  webhooks = [];
}

unfoldable pub apply_options : List (Service → Service) → Service → Service
apply_options [] s = s
apply_options (o ∷ options) s = apply_options options (o s)

unfoldable pub new_service : List (Service → Service) → Service
unfolding apply_options
new_service options = apply_options options default_service

-- `InMemoryStore`
unfoldable pub save : PresentationRequest → Dict PresentationRequest → Dict PresentationRequest
save req m = Dict.put req.request_id req m

unfoldable pub load : String → Dict PresentationRequest → Option PresentationRequest
load id m = Dict.get id m

unfoldable pub delete : String → Dict PresentationRequest → Dict PresentationRequest
delete id m = Dict.remove id m

-- `defaultTTL`: five minutes unless the configured duration is positive.
unfoldable pub default_ttl : ℤ → ℕ
default_ttl (pos zero) = five_minutes
default_ttl (pos (suc n)) = suc n
default_ttl (negsuc n) = five_minutes

-- What one call draws from the outside: the two UUIDs and the randomness of the setup.
pub record Draws : Type 0 where
  pub request_id : String
  pub nonce : String
  pub random : ℕ

module _ (env : Env) where
  -- `defaultPublicInputs`, at an instant after 1970, which is not the zero time.
  unfoldable pub default_public_inputs : Service → ℕ → String → Dict Any
  default_public_inputs s now nonce =
      ("current_year", int (env.year now))
      ∷ ("current_month", int (env.month now))
      ∷ ("current_day", int (env.day now))
      ∷ ("aud", str s.audience)
      ∷ ("nonce", str nonce)
      ∷ []

  unfoldable pub new_request : Service → ℕ → Draws → String → String → PresentationRequest
  unfolding default_public_inputs default_ttl
  new_request s now draws canon hash = record {
    request_id = draws.request_id;
    schema_json = canon;
    schema_hash = hash;
    public_inputs = default_public_inputs s now draws.nonce;
    response_uri = s.response_uri;
    expires_at = unix (now + default_ttl s.ttl);
    callback_url = "";
    callback_secret = "";
  }

  -- The request that is built and saved once the keys are there.
  unfoldable pub save_request :
      ℕ
      → Draws
      → String
      → Service × Result CreateError String
      → Service × Result CreateError PresentationRequest
  unfolding new_request save
  save_request now draws canon (s, err e) = (s, err e)
  save_request now draws canon (s, ok hash) =
      let req = new_request s now draws canon hash in
      (record s { store = save req s.store }, ok req)

  -- The part after the schema has been made canonical.
  unfoldable pub create_from_canonical :
      Service → ℕ → Draws → String → Service × Result CreateError PresentationRequest
  unfolding save_request
  create_from_canonical s now draws canon =
      save_request now draws canon (ensure_vk_for_schema env s draws.random canon)

  unfoldable pub create_request_from_schema :
      Service → ℕ → Draws → String → Service × Result CreateError PresentationRequest
  unfolding create_from_canonical
  create_request_from_schema s now draws schema_json =
      if not s.has_store
      then (s, err not_initialized)
      else if not s.allow_ad_hoc_schema
      then (s, err ad_hoc_disabled)
      else elim (canonical_json env schema_json) [
        | err e ↦ (s, err e)
        | ok canon ↦ create_from_canonical s now draws canon
      ]
