-- ===== src/Presentation/Handler.antt =====
-- system/api/src/zkprequest/handler.go: the HTTP endpoints over the service. A body that cannot
-- be bound is `none`; log lines are left out.
pub mod Laws
use digital_identity_system.Prelude.{
  ℕ, ◌*◌, String, Bool, true, false, not, ◌||◌, Option, none, some, List, [], ◌∷◌, ◌==◌, ltb,
  if◌then◌else◌, is_empty, Result, ok, err,
}
use digital_identity_system.Prelude.Int.{ℤ, pos, negsuc}
use digital_identity_system.Schema.Numbers.{wrap_64}
use digital_identity_system.Dict
use digital_identity_system.Dict.{Dict}
use digital_identity_system.Presentation.Types.{
  Any, nil_any, Bytes, ProofSubmission, PresentationRequest, Verdict, VerifyResult, Service, unix,
}
use digital_identity_system.Presentation.Env.{Env}
use digital_identity_system.Presentation.Caches.{CreateError}
use digital_identity_system.Presentation.Create.{save, load, Draws, create_request_from_schema}
use digital_identity_system.Presentation.Notify.{register, get_verdict}
use digital_identity_system.Presentation.Verify.{◌⧺◌, sprint, cached, verify_submission}

pub record CreatePresentationIn : Type 0 where
  pub schema_json : String
  pub callback_url : String
  pub callback_secret : String

-- `url.QueryEscape`, and `qrcode.Encode` in Base64.
pub record Links : Type 0 where
  pub query_escape : String → String
  pub qr_png : String → String

pub record PresentationDescriptor : Type 0 where
  pub request_id : String
  pub audience : String
  pub expires_at : ℕ
  pub challenge : String
  pub nonce : String
  pub schema_hash : String
  pub schema_uri : String
  pub vk_url : String
  pub pk_url : String
  pub submit_url : String

pub data Response : Type 0 where
  failure : ℕ → String → Response
  create_failed : CreateError → Response
  created : PresentationRequest → (request_url deeplink qr : String) → Response
  verified_at : String → Response
  page : (request_id human_url qr_url : String) → Response
  described : PresentationDescriptor → Response
  state : String → Response
  verdict : Verdict → Response
  blob : Bytes → Response
  document : String → Response
  blocking : Bool → (reason request_id : String) → Response

module _ (links : Links) where
  unfoldable pub make_wallet_link : String → String → String × String × String
  make_wallet_link audience request_id =
      let human_url = audience ⧺ "/v1/presentations/" ⧺ request_id in
      let descriptor_url = audience ⧺ "/v1/presentations/" ⧺ request_id ⧺ "/descriptor" in
      (
        human_url,
        descriptor_url,
        "zkwallet://present?request_uri=" ⧺ links.query_escape descriptor_url,
      )

-- The request as it is saved again once a callback is known.
unfoldable pub attach_callback : CreatePresentationIn → String → Service → Service
attach_callback input id s = if input.callback_url == "" then s else elim (load id s.store) [
  | none ↦ s
  | some stored ↦ record s {
    store =
        save
          (record stored {
            callback_url = input.callback_url;
            callback_secret = input.callback_secret;
          })
          s.store;
  }
]

module _ (env : Env) (links : Links) where
  unfoldable pub finish_create :
      CreatePresentationIn → Service × Result CreateError PresentationRequest → Service × Response
  unfolding attach_callback make_wallet_link
  finish_create input (s, err e) = (s, create_failed e)
  finish_create input (s, ok req) =
      let (request_url, descriptor_url, deeplink) =
        make_wallet_link links s.audience req.request_id in
      (
        attach_callback input req.request_id s,
        created req request_url deeplink (links.qr_png descriptor_url),
      )

  unfoldable pub create_presentation :
      ℕ → Draws → Option CreatePresentationIn → Service → Service × Response
  unfolding finish_create
  create_presentation now draws none s = (s, failure 400 "bad json")
  create_presentation now draws (some input) s =
      finish_create input (create_request_from_schema env s now draws input.schema_json)

  unfoldable pub verify_presentation : ℕ → Option ProofSubmission → Service → Service × Response
  verify_presentation now none s = (s, failure 400 "bad json")
  verify_presentation now (some sub) s =
      let (s', r) = verify_submission env now sub s in
      elim r [
        | err reason ↦ (s', failure 401 reason)
        | ok _ ↦ (s', verified_at (env.format_time now))
      ]

  unfoldable pub show_presentation : ℕ → String → Service → Response
  unfolding make_wallet_link
  show_presentation now id s = elim (load id s.store) [
    | none ↦ failure 404 "unknown request"
    | some req ↦
        let (human_url, descriptor_url, deeplink) = make_wallet_link links s.audience id in
        if ltb req.expires_at (unix now)
        then failure 410 "expired"
        else page id human_url
            ("https://quickchart.io/qr?text=" ⧺ links.query_escape descriptor_url ⧺ "&size=320")
  ]

  -- A public input as text, empty where it is missing or nil.
  unfoldable pub text_of : Option Any → String
  text_of none = ""
  text_of (some nil_any) = ""
  text_of (some v) = sprint env (some v)

  unfoldable pub describe : Service → PresentationRequest → PresentationDescriptor
  unfolding text_of
  describe s req = record {
    request_id = req.request_id;
    audience = s.audience;
    expires_at = req.expires_at;
    challenge = text_of (Dict.get "challenge" req.public_inputs);
    nonce = text_of (Dict.get "nonce" req.public_inputs);
    schema_hash = req.schema_hash;
    schema_uri = s.audience ⧺ "/v1/schemas/" ⧺ req.schema_hash;
    vk_url = s.audience ⧺ "/v1/artifacts/" ⧺ req.schema_hash ⧺ "/vk";
    pk_url = s.audience ⧺ "/v1/artifacts/" ⧺ req.schema_hash ⧺ "/pk";
    submit_url = req.response_uri;
  }

  unfoldable pub descriptor : ℕ → String → Service → Response
  unfolding describe
  descriptor now id s = elim (load id s.store) [
    | none ↦ failure 404 "unknown request"
    | some req ↦
        if ltb req.expires_at (unix now) then failure 410 "expired" else described (describe s req)
  ]

unfoldable pub status : ℕ → String → Service → Response
status now id s = elim (load id s.store) [
  | none ↦ state "unknown_or_consumed"
  | some req ↦ if ltb req.expires_at (unix now) then state "expired" else state "pending"
]

unfoldable pub get_vk : String → Service → Response
get_vk hash s =
    if is_empty (cached hash s.vk_cache)
    then failure 404 "vk not found"
    else blob (cached hash s.vk_cache)

unfoldable pub get_pk : String → Service → Response
get_pk hash s =
    if is_empty (cached hash s.pk_cache)
    then failure 404 "pk not found"
    else blob (cached hash s.pk_cache)

unfoldable pub result : ℕ → String → Service → Response
result now id s = elim (get_verdict id s) [
  | some v ↦ verdict v
  | none ↦ elim (load id s.store) [
    | none ↦ state "unknown"
    | some req ↦ if ltb req.expires_at (unix now) then state "expired" else state "pending"
  ]
]

unfoldable pub schema : String → Service → Response
schema hash s = elim (Dict.get hash s.schema_cache) [
  | none ↦ failure 404 "schema not found"
  | some body ↦ if body == "" then failure 404 "schema not found" else document body
]

-- `VerifyBlocking` up to its wait: an answer, or the id, the channel and the time to wait (in
-- nanoseconds).
pub data Blocking : Type 0 where
  answered : Response → Blocking
  waits : (request_id : String) (channel : ℕ) (timeout : ℤ) → Blocking

-- Three minutes unless a positive number of seconds is asked for, in int64 nanoseconds.
unfoldable pub blocking_timeout : ℤ → ℤ
blocking_timeout (pos ℕ.zero) = pos 180000000000
blocking_timeout (pos (ℕ.suc n)) = wrap_64 (pos (ℕ.suc n * 1000000000))
blocking_timeout (negsuc n) = pos 180000000000

module _ (env : Env) where
  unfoldable pub wait_for :
      ℤ → Service × Result CreateError PresentationRequest → Service × Blocking
  unfolding blocking_timeout
  wait_for timeout_secs (s, err e) = (s, answered (create_failed e))
  wait_for timeout_secs (s, ok req) =
      let (s', ch) = register req.request_id s in
      (s', waits req.request_id ch (blocking_timeout timeout_secs))

  unfoldable pub begin_blocking : ℕ → Draws → Option (String × ℤ) → Service → Service × Blocking
  unfolding wait_for
  begin_blocking now draws none s = (s, answered (failure 400 "bad json"))
  begin_blocking now draws (some (schema_json, timeout_secs)) s =
      wait_for timeout_secs (create_request_from_schema env s now draws schema_json)

-- The answer once the wait has ended.
unfoldable pub end_blocking : String → VerifyResult → Response
end_blocking request_id out =
    if out.ok then blocking true "" request_id else blocking false out.reason request_id
