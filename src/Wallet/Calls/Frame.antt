-- ===== src/Wallet/Calls/Frame.antt =====
-- The entries that a call leaves alone in the stores of system/zk-wallet-go's server.
use digital_identity_system.Prelude.{
  ℕ, String, ◌≡◌, refl, sym, ap, ◌∙◌, inl, inr, false, not, ◌&&◌, ◌==◌, Option, none, some, List,
  [], ◌∷◌, arith, Result, ok, err, Bool-cases, ◌⊎◌, eq_iff, eq_refl,
}
use digital_identity_system.Dict
use digital_identity_system.Dict.{Dict, get-put, get-remove}
use digital_identity_system.Presentation.Verify.{◌⧺◌}
use digital_identity_system.Wallet.{
  Session, Preauth, AccessRec, Config, Server, HttpRequest, current_session,
}
use digital_identity_system.Wallet.Login.{
  Provider, handle_login, handle_callback, handle_logout, begin_session, drop_session, authenticate,
}
use digital_identity_system.Wallet.Issuance.{
  Signer, TokenRequest, handle_create_offer, offer_for, offer_to, handle_vci_token, redeem_live,
  redeem, live_preauth, grant_pre_authorized,
}
use digital_identity_system.Wallet.Calls.{
  Call, logs_in, calls_back, logs_out, offers, redeems, step, run,
}

-- A call that draws an offer code or a token draws another one than this.
abbrev pub DrawsOtherCode : String → Call → Type 0
DrawsOtherCode code (offers signer drawn r) = (drawn == code) ≡ false
DrawsOtherCode code call = Unit

abbrev pub DrawsOtherToken : String → Call → Type 0
DrawsOtherToken at (redeems drawn c_nonce body) = (("atk_" ⧺ drawn) == at) ≡ false
DrawsOtherToken at call = Unit

-- The call asks for no token for this code.
abbrev pub RedeemsOther : String → Call → Type 0
RedeemsOther code (redeems drawn c_nonce (some body)) = (body.pre_authorized_code == code) ≡ false
RedeemsOther code call = Unit

abbrev pub EachCall : (Call → Type 0) → List (ℕ × Call) → Type 0
EachCall P [] = Unit
EachCall P ((now, call) ∷ calls) = P call × EachCall P calls

-- The stores of the issuer, which the login leaves alone.
abbrev issuer_stores : Server → Dict Preauth × Dict AccessRec
issuer_stores s = (s.preauth_store, s.access_store)

module _ (config : Config) (provider : Provider) (r : HttpRequest) (s : Server) where
  issuer_stores-handle_login :
      (ver nonce state : String)
      → issuer_stores (handle_login config provider ver nonce state r s).0 ≡ issuer_stores s
  unfolding handle_login
  issuer_stores-handle_login ver nonce state = ground arith

  issuer_stores-begin_session :
      (sid : String) (answer : Result String Session)
      → issuer_stores (begin_session sid r s answer).0 ≡ issuer_stores s
  unfolding begin_session
  issuer_stores-begin_session sid (err e) = refl
  issuer_stores-begin_session sid (ok user) = refl

  issuer_stores-handle_callback :
      (sid : String) → issuer_stores (handle_callback config provider sid r s).0 ≡ issuer_stores s
  unfolding handle_callback
  issuer_stores-handle_callback sid = elim (Bool-cases (r.method == "GET")) [
    | inl e ↦ simp e (issuer_stores-begin_session sid (authenticate config provider r s))
    | inr e ↦ simp e
  ]

  issuer_stores-drop_session : issuer_stores (drop_session r s) ≡ issuer_stores s
  unfolding drop_session
  issuer_stores-drop_session = ground arith

  issuer_stores-handle_logout :
      issuer_stores (handle_logout config provider r s).0 ≡ issuer_stores s
  unfolding handle_logout
  issuer_stores-handle_logout =
      elim (Bool-cases (not (r.method == "GET") && not (r.method == "POST"))) [
        | inl e ↦ simp e
        | inr e ↦ simp e issuer_stores-drop_session
      ]

module _ (config : Config) (now : ℕ) (s : Server) where
  -- Reading one code after a call.
  offer_for_code :
      (signer : Signer) (code drawn : String) (answer : Result String Session)
      → (drawn == code) ≡ false
      → Dict.get code (offer_for config signer now drawn s answer).0.preauth_store
        ≡ Dict.get code s.preauth_store
  unfolding offer_for offer_to
  offer_for_code signer code drawn (err e) other = refl
  offer_for_code signer code drawn (ok user) other = simp (get-put, other)

  handle_create_offer_code :
      (signer : Signer) (code drawn : String) (r : HttpRequest)
      → (drawn == code) ≡ false
      → Dict.get code (handle_create_offer config signer now drawn r s).0.preauth_store
        ≡ Dict.get code s.preauth_store
  unfolding handle_create_offer
  handle_create_offer_code signer code drawn r other = elim (Bool-cases (r.method == "POST")) [
    | inl e ↦ simp e (offer_for_code signer code drawn (current_session r s) other)
    | inr e ↦ simp e
  ]

  offer_for_access :
      (signer : Signer) (drawn : String) (answer : Result String Session)
      → (offer_for config signer now drawn s answer).0.access_store ≡ s.access_store
  unfolding offer_for offer_to
  offer_for_access signer drawn (err e) = refl
  offer_for_access signer drawn (ok user) = refl

  handle_create_offer_access :
      (signer : Signer) (drawn : String) (r : HttpRequest)
      → (handle_create_offer config signer now drawn r s).0.access_store ≡ s.access_store
  unfolding handle_create_offer
  handle_create_offer_access signer drawn r = elim (Bool-cases (r.method == "POST")) [
    | inl e ↦ simp e (offer_for_access signer drawn (current_session r s))
    | inr e ↦ simp e
  ]

  redeem_live_code :
      (drawn c_nonce code own : String) (found : Option Preauth)
      → (Dict.get code (redeem_live now drawn c_nonce own s found).0.preauth_store
          ≡ Dict.get code s.preauth_store)
        ⊎ ((own ≡ code)
            × (Dict.get code (redeem_live now drawn c_nonce own s found).0.preauth_store ≡ none))
  unfolding redeem_live redeem
  redeem_live_code drawn c_nonce code own none = inl refl
  redeem_live_code drawn c_nonce code own (some pa) = elim (Bool-cases (own == code)) [
    | inl e ↦ inr ((eq_iff own code).0 e, simp (get-remove, e))
    | inr e ↦ inl (simp (get-remove, e))
  ]

  -- A token request leaves another code alone, and removes or leaves its own.
  pub handle_vci_token_code :
      (drawn c_nonce code : String) (body : TokenRequest)
      → (Dict.get code (handle_vci_token now drawn c_nonce (some body) s).0.preauth_store
          ≡ Dict.get code s.preauth_store)
        ⊎ ((body.pre_authorized_code ≡ code)
            × (Dict.get code (handle_vci_token now drawn c_nonce (some body) s).0.preauth_store
                ≡ none))
  unfolding handle_vci_token
  handle_vci_token_code drawn c_nonce code body =
      elim (Bool-cases (body.grant_type == grant_pre_authorized)) [
        | inl e ↦ simp e (
            redeem_live_code drawn c_nonce code body.pre_authorized_code
              (live_preauth now body.pre_authorized_code s))
        | inr e ↦ inl (simp e)
      ]

  redeem_live_access :
      (drawn c_nonce own at : String) (found : Option Preauth)
      → (("atk_" ⧺ drawn) == at) ≡ false
      → Dict.get at (redeem_live now drawn c_nonce own s found).0.access_store
        ≡ Dict.get at s.access_store
  unfolding redeem_live redeem
  redeem_live_access drawn c_nonce own at none other = refl
  redeem_live_access drawn c_nonce own at (some pa) other = simp (get-put, other)

  handle_vci_token_access :
      (drawn c_nonce at : String) (body : Option TokenRequest)
      → (("atk_" ⧺ drawn) == at) ≡ false
      → Dict.get at (handle_vci_token now drawn c_nonce body s).0.access_store
        ≡ Dict.get at s.access_store
  unfolding handle_vci_token
  handle_vci_token_access drawn c_nonce at none other = refl
  handle_vci_token_access drawn c_nonce at (some body) other =
      elim (Bool-cases (body.grant_type == grant_pre_authorized)) [
        | inl e ↦ simp e (
            redeem_live_access drawn c_nonce body.pre_authorized_code at
              (live_preauth now body.pre_authorized_code s) other)
        | inr e ↦ simp e
      ]

  step_token :
      (at : String) (call : Call)
      → DrawsOtherToken at call
      → Dict.get at (step config now call s).access_store ≡ Dict.get at s.access_store
  unfolding step
  step_token at (logs_in provider ver nonce state r) d =
      ap (λ p. Dict.get at p.1) (issuer_stores-handle_login config provider r s ver nonce state)
  step_token at (calls_back provider sid r) d =
      ap (λ p. Dict.get at p.1) (issuer_stores-handle_callback config provider r s sid)
  step_token at (logs_out provider r) d =
      ap (λ p. Dict.get at p.1) (issuer_stores-handle_logout config provider r s)
  step_token at (offers signer drawn r) d =
      ap (Dict.get at) (handle_create_offer_access signer drawn r)
  step_token at (redeems drawn c_nonce body) d = handle_vci_token_access drawn c_nonce at body d

  -- A call that draws no new offer under the code leaves the code alone, or redeems and removes it.
  step_code :
      (code : String) (call : Call)
      → DrawsOtherCode code call
      → (Dict.get code (step config now call s).preauth_store ≡ Dict.get code s.preauth_store)
        ⊎ (Dict.get code (step config now call s).preauth_store ≡ none)
  unfolding step handle_vci_token
  step_code code (logs_in provider ver nonce state r) d =
      inl (
        ap (λ p. Dict.get code p.0)
          (issuer_stores-handle_login config provider r s ver nonce state))
  step_code code (calls_back provider sid r) d =
      inl (ap (λ p. Dict.get code p.0) (issuer_stores-handle_callback config provider r s sid))
  step_code code (logs_out provider r) d =
      inl (ap (λ p. Dict.get code p.0) (issuer_stores-handle_logout config provider r s))
  step_code code (offers signer drawn r) d = inl (handle_create_offer_code signer code drawn r d)
  step_code code (redeems drawn c_nonce none) d = inl refl
  step_code code (redeems drawn c_nonce (some body)) d =
      elim (handle_vci_token_code drawn c_nonce code body) [
        | inl kept ↦ inl kept
        | inr (same, gone) ↦ inr gone
      ]

  step_keeps_code :
      (code : String) (call : Call)
      → DrawsOtherCode code call × RedeemsOther code call
      → Dict.get code (step config now call s).preauth_store ≡ Dict.get code s.preauth_store
  unfolding step handle_vci_token
  step_keeps_code code (redeems drawn c_nonce (some body)) (d, other) =
      elim (handle_vci_token_code drawn c_nonce code body) [
        | inl kept ↦ kept
        | inr (same, gone) ↦ absurd (cc (sym other, same, eq_refl code))
      ]
  step_keeps_code code (redeems drawn c_nonce none) d = refl
  step_keeps_code code (logs_in provider ver nonce state r) d =
      ap (λ p. Dict.get code p.0) (issuer_stores-handle_login config provider r s ver nonce state)
  step_keeps_code code (calls_back provider sid r) d =
      ap (λ p. Dict.get code p.0) (issuer_stores-handle_callback config provider r s sid)
  step_keeps_code code (logs_out provider r) d =
      ap (λ p. Dict.get code p.0) (issuer_stores-handle_logout config provider r s)
  step_keeps_code code (offers signer drawn r) d = handle_create_offer_code signer code drawn r d.0

module _ (config : Config) where
  -- A code that is gone stays gone until it is drawn again.
  pub run_no_code :
      (code : String) (calls : List (ℕ × Call)) (s : Server)
      → EachCall (DrawsOtherCode code) calls
      → Dict.get code s.preauth_store ≡ none
      → Dict.get code (run config calls s).preauth_store ≡ none
  unfolding run
  run_no_code code [] s d gone = gone
  run_no_code code ((now, call) ∷ calls) s (d, ds) gone =
      run_no_code code calls (step config now call s) ds
        (elim (step_code config now s code call d) [
          | inl kept ↦ kept ∙ gone
          | inr none_left ↦ none_left
        ])

  pub run_keeps_code :
      (code : String) (calls : List (ℕ × Call)) (s : Server)
      → EachCall (λ call. DrawsOtherCode code call × RedeemsOther code call) calls
      → Dict.get code (run config calls s).preauth_store ≡ Dict.get code s.preauth_store
  unfolding run
  run_keeps_code code [] s d = refl
  run_keeps_code code ((now, call) ∷ calls) s (d, ds) =
      run_keeps_code code calls (step config now call s) ds
      ∙ step_keeps_code config now s code call d

  pub run_keeps_token :
      (at : String) (calls : List (ℕ × Call)) (s : Server)
      → EachCall (DrawsOtherToken at) calls
      → Dict.get at (run config calls s).access_store ≡ Dict.get at s.access_store
  unfolding run
  run_keeps_token at [] s d = refl
  run_keeps_token at ((now, call) ∷ calls) s (d, ds) =
      run_keeps_token at calls (step config now call s) ds ∙ step_token config now s at call d
