-- ===== src/Wallet/Import/Shown.antt =====
-- What the wallet of system/zk-wallet-go shows of a credential that came in.
use digital_identity_system.Prelude.{
  ℕ, String, ◌≡◌, refl, ap, ◌∙◌, inl, inr, Bool, true, false, ◌&&◌, ◌==◌, some, if◌then◌else◌,
  Result, ok, err, Bool-cases, Result-cases, eq_iff, arith,
}
use digital_identity_system.Dict.{get-put}
use digital_identity_system.Wallet.{HttpRequest}
use digital_identity_system.Wallet.Store.{VerifiableCredential, VcStore, save, get}
use digital_identity_system.Wallet.Create.{Refusal}
use digital_identity_system.Wallet.Import.{
  Outside, ShowResponse, verified, payload_of, credential_for, opened, handle_wallet_show,
}
use digital_identity_system.Wallet.Import.Ingest.{
  IngestRequest, IngestResponse, resolve, wants_store, ingest, handle_wallet_ingest,
}

module _ {J : Type 0} (outside : Outside J) where
  show_found :
      (r : HttpRequest) (m : VcStore) (vc : VerifiableCredential)
      → get (outside.base r.path) m ≡ some vc
      → handle_wallet_show outside r m
        ≡ ok (record {
          meta = vc;
          payload = payload_of outside (opened outside vc.raw).1;
          valid = (opened outside vc.raw).0;
        })
  unfolding handle_wallet_show
  show_found r m vc found = rw (found, handle_wallet_show) refl

  get-save :
      (vc : VerifiableCredential) (m : VcStore) (id : String)
      → get id (save vc m) ≡ (if id == vc.id then some vc else get id m)
  unfolding get save
  get-save vc m id = ground (arith, get-put vc.id vc id m, eq_iff vc.id id, eq_iff id vc.id)

  show-save :
      (r : HttpRequest) (vc : VerifiableCredential) (m : VcStore)
      → handle_wallet_show outside r (save vc m) ≡ (
          if outside.base r.path == vc.id
          then ok (record {
            meta = vc;
            payload = payload_of outside (opened outside vc.raw).1;
            valid = (opened outside vc.raw).0;
          })
          else handle_wallet_show outside r m)
  unfolding handle_wallet_show
  show-save r vc m = elim (Bool-cases (outside.base r.path == vc.id)) [
    | inl same ↦ simp (same, get-save)
    | inr other ↦ simp (other, get-save)
  ]

  -- What the page of an ingested credential shows.
  abbrev pub page : ℕ → String → IngestResponse J → ShowResponse J
  page now compact answer = record {
    meta = credential_for outside now "jwt_vc_json" compact;
    payload = if answer.valid then answer.payload else payload_of outside (outside.parse compact);
    valid = answer.valid;
  }

  -- What an ingestion leaves behind, by its answer.
  abbrev pub Outcome :
      ℕ
      → Result Refusal (String × String)
      → Bool
      → VcStore
      → HttpRequest
      → VcStore
      → Result Refusal (IngestResponse J)
      → Type 0
  Outcome now resolved store m q after (err e) = after ≡ m
  Outcome now resolved store m q after (ok answer) =
      (compact : String) × (resolved ≡ ok (compact, answer.source))
      × (answer.stored ≡ store)
      × (answer.vc_id ≡ outside.sha256_hex compact)
      × (handle_wallet_show outside q after ≡ (
          if answer.stored && outside.base q.path == answer.vc_id
          then ok (page now compact answer)
          else handle_wallet_show outside q m))

  -- The answer for a credential with a source.
  abbrev answered : ℕ → Bool → (compact source : String) → IngestResponse J
  answered now store compact source =
      let vc = credential_for outside now "jwt_vc_json" compact in
      record {
        source = source;
        valid = elim (outside.verify compact) [ err e ↦ false | ok payload ↦ true ];
        vc_id = vc.id;
        issuer = vc.issuer;
        types = vc.types;
        stored = store;
        payload = payload_of outside (verified outside compact);
      }

  opened-page :
      (now : ℕ) (store : Bool) (compact source : String)
      → record {
        meta = credential_for outside now "jwt_vc_json" compact;
        payload = payload_of outside (opened outside compact).1;
        valid = (opened outside compact).0;
      }
        ≡ page now compact (answered now store compact source)
  unfolding opened verified
  opened-page now store compact source = elim (Result-cases (outside.verify compact)) [
    | inl (payload, e) ↦ rw (e, opened, verified) refl
    | inr (why, e) ↦ rw (e, opened, verified) refl
  ]

  ingest-Outcome :
      (now : ℕ) (resolved : Result Refusal (String × String)) (store : Bool) (m : VcStore)
      (q : HttpRequest)
      → let (after, answer) = ingest outside now m store resolved in
        Outcome now resolved store m q after answer
  unfolding ingest credential_for
  ingest-Outcome now (err e) store m q = refl
  ingest-Outcome now (ok (compact, source)) false m q = (compact, refl, refl, refl, refl)
  ingest-Outcome now (ok (compact, source)) true m q =
      let vc = credential_for outside now "jwt_vc_json" compact in
      (
        compact,
        refl,
        refl,
        refl,
        show-save q vc m
            ∙ ap
                (λ shown.
                  if outside.base q.path == vc.id then ok shown else handle_wallet_show outside q m)
                (opened-page now true compact source),
      )

  -- An ingestion that is refused leaves the store as it was. One that succeeds has resolved the
  -- request to a credential; its id is the hash of the credential; and afterwards the page of any
  -- id is what it was before, but for the page of that id if the credential was to be stored: it
  -- shows the metadata of this credential, the same verdict on its signature, and the payload of
  -- the answer if the signature verifies, else what can be read without verification.
  pub ingested_is_shown :
      (now : ℕ) (r : HttpRequest) (body : IngestRequest) (m : VcStore) (q : HttpRequest)
      → let (after, answer) = handle_wallet_ingest outside now r (ok body) m in
        Outcome now (resolve outside body) (wants_store body.store) m q after answer
  unfolding handle_wallet_ingest
  ingested_is_shown now r body m q = elim (Bool-cases (r.method == "POST")) [
    | inl post ↦ simp post (ingest-Outcome now (resolve outside body) (wants_store body.store) m q)
    | inr other ↦ simp other refl
  ]
