-- ===== src/Wallet/Import/Ingest.antt =====
-- internal/app/handlers/wallet_ingest.go: a credential, or an offer of one, comes into the wallet.
use digital_identity_system.Prelude.{
  ℕ, String, Bool, true, false, not, ◌||◌, Option, none, some, List, ◌==◌, if◌then◌else◌, Result,
  ok, err, ◌>>=◌, ◌>>◌, guard,
}
use digital_identity_system.Presentation.Verify.{◌⧺◌}
use digital_identity_system.Wallet.{HttpRequest}
use digital_identity_system.Wallet.Store.{VcStore, save}
use digital_identity_system.Wallet.Url.{begins}
use digital_identity_system.Wallet.Create.{Refusal, refused}
use digital_identity_system.Wallet.Import.{
  Outside, deeplink_scheme, redeem_offer, verified, payload_of, credential_for,
}

pub record IngestRequest : Type 0 where
  pub credential : String
  pub offer : String
  pub store : Option Bool

pub record IngestResponse (J : Type 0) : Type 0 where
  pub source : String
  pub valid : Bool
  pub vc_id : String
  pub issuer : String
  pub types : List String
  pub stored : Bool
  pub payload : Option J

-- `store` is true unless the request says otherwise.
unfoldable pub wants_store : Option Bool → Bool
wants_store none = true
wants_store (some store) = store

module _ {J : Type 0} (outside : Outside J) where
  -- The address behind a deeplink of `normalizeOfferToURI`.
  unfoldable pub offer_address : String → Result String String
  unfolding begins
  offer_address input =
      if begins deeplink_scheme input
      then (do
        uri ← outside.offer_uri_of input
        guard (not (uri == "")) "invalid credential offer input"
        ok uri)
      else ok input

  unfoldable pub normalize_offer_to_uri : String → Result String String
  unfolding offer_address
  normalize_offer_to_uri input = do
    uri ← offer_address input
    scheme ← outside.scheme_of uri
    guard (scheme == "http" || scheme == "https") "invalid credential offer input"
    ok uri

  -- The credential and its source.
  unfoldable pub resolve : IngestRequest → Result Refusal (String × String)
  unfolding refused normalize_offer_to_uri redeem_offer
  resolve body =
      if not (outside.trim_space body.credential == "")
      then ok (body.credential, "credential")
      else if not (outside.trim_space body.offer == "")
      then (do
        uri ← refused 400 "invalid offer: " (λ e. e) (normalize_offer_to_uri body.offer)
        res ← redeem_offer outside uri
        ok (res.credential, "offer"))
      else err (400, "provide either 'credential' or 'offer'")

  unfoldable pub ingest :
      ℕ
      → VcStore
      → Bool
      → Result Refusal (String × String)
      → VcStore × Result Refusal (IngestResponse J)
  unfolding credential_for verified payload_of
  ingest now m store (err e) = (m, err e)
  ingest now m store (ok (compact, source)) =
      let vc = credential_for outside now "jwt_vc_json" compact in
      (
        if store then save vc m else m,
        ok (record {
          source = source;
          valid = elim (outside.verify compact) [ err e ↦ false | ok payload ↦ true ];
          vc_id = vc.id;
          issuer = vc.issuer;
          types = vc.types;
          stored = store;
          payload = payload_of outside (verified outside compact);
        }),
      )

  unfoldable pub handle_wallet_ingest :
      ℕ
      → HttpRequest
      → Result String IngestRequest
      → VcStore
      → VcStore × Result Refusal (IngestResponse J)
  unfolding ingest resolve wants_store
  handle_wallet_ingest now r (err e) m =
      if not (r.method == "POST")
      then (m, err (405, "method not allowed"))
      else (m, err (400, "bad json: " ⧺ e))
  handle_wallet_ingest now r (ok body) m =
      if not (r.method == "POST")
      then (m, err (405, "method not allowed"))
      else ingest now m (wants_store body.store) (resolve body)
