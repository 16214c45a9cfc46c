-- ===== src/Presentation/Types.antt =====
-- The data of system/api/src/zkprequest (types.go, and the types of service.go).
-- An instant is a number of nanoseconds since 1970, and a duration may be negative. Effects that
-- leave the process are kept as lists in the state: the webhooks posted, newest first, and the
-- timers that will delete a verdict.
use digital_identity_system.Prelude.{ℕ, ◌/◌, String, Bool, Option, List}
use digital_identity_system.Prelude.Int.{ℤ}
use digital_identity_system.Dict.{Dict}

-- A value of `map[string]any`. The code passes such values only to `fmt.Sprint`, so `other`
-- holds the text that this prints for the remaining kinds.
pub data Any : Type 0 where
  nil_any : Any
  str : String → Any
  int : ℕ → Any
  other : String → Any

abbrev pub Bytes : Type 0
Bytes = List ℕ

pub record ProofSubmission : Type 0 where
  pub request_id : String
  pub zkp_blob_b64 : String
  pub public_inputs : Dict Any
  pub challenge : String

-- `expires_at` is in Unix seconds.
pub record PresentationRequest : Type 0 where
  pub request_id : String
  pub schema_json : String
  pub schema_hash : String
  pub public_inputs : Dict Any
  pub response_uri : String
  pub expires_at : ℕ
  pub callback_url : String
  pub callback_secret : String

-- `verified_at` is `none` where the source leaves the zero time.
pub record Verdict : Type 0 where
  pub ok : Bool
  pub reason : String
  pub state : String
  pub verified_at : Option ℕ

pub record VerifyResult : Type 0 where
  pub ok : Bool
  pub reason : String

-- The body of a webhook, before it is marshalled.
pub record Payload : Type 0 where
  pub request_id : String
  pub schema_hash : String
  pub state : String
  pub ok : Bool
  pub reason : String
  pub verified_at : String

pub record Webhook : Type 0 where
  pub url : String
  pub body : String
  pub signature : Option String

pub record Timer : Type 0 where
  pub id : String
  pub due : ℕ

-- `has_store` says that `Store` is not nil; the store is the `InMemoryStore`. A channel is its
-- place in `channels`, which holds its one-place buffer.
pub record Service : Type 0 where
  pub has_store : Bool
  pub store : Dict PresentationRequest
  pub audience : String
  pub response_uri : String
  pub ttl : ℤ
  pub vk_cache : Dict Bytes
  pub pk_cache : Dict Bytes
  pub schema_cache : Dict String
  pub allow_ad_hoc_schema : Bool
  pub waiters : Dict (List ℕ)
  pub channels : List (Option VerifyResult)
  pub verdicts : Dict Verdict
  pub timers : List Timer
  pub webhooks : List Webhook

-- `Unix()`
abbrev pub unix : ℕ → ℕ
unix t = t / 1000000000

-- 5 and 15 minutes
abbrev pub five_minutes : ℕ
five_minutes = 300000000000

abbrev pub fifteen_minutes : ℕ
fifteen_minutes = 900000000000
