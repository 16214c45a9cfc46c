-- ===== src/Wallet/Calls/Once.antt =====
-- The offers of system/zk-wallet-go: each is used once.
use digital_identity_system.Prelude.{
  ℕ, String, ◌≡◌, refl, inl, inr, ◌==◌, Option, none, some, List, Bool-cases, eq_refl,
}
use digital_identity_system.Dict
use digital_identity_system.Dict.{get-put, get-remove}
use digital_identity_system.Wallet.{Preauth, Config, Server, HttpRequest}
use digital_identity_system.Wallet.Issuance.{
  Signer, TokenRequest, TokenAnswer, failure, token, handle_offer_by_code, handle_vci_token,
  redeem_live, redeem, live_preauth, grant_pre_authorized,
}
use digital_identity_system.Wallet.Calls.{Call, run}
use digital_identity_system.Wallet.Calls.Frame.{DrawsOtherCode, EachCall, run_no_code}

live_preauth-gone :
    (now : ℕ) (code : String) (s : Server)
    → Dict.get code s.preauth_store ≡ none
    → live_preauth now code s ≡ none
unfolding live_preauth
live_preauth-gone now code s gone = rw (gone, live_preauth)

redeem_live_removes :
    (now : ℕ) (drawn c_nonce code : String) (s : Server) (found : Option Preauth)
    {answer : TokenAnswer}
    → (redeem_live now drawn c_nonce code s found).1 ≡ token answer
    → Dict.get code (redeem_live now drawn c_nonce code s found).0.preauth_store ≡ none
unfolding redeem_live redeem
redeem_live_removes now drawn c_nonce code s none h = absurd (cc h)
redeem_live_removes now drawn c_nonce code s (some pa) h = simp (get-remove, eq_refl)

handle_vci_token_removes :
    (now : ℕ) (drawn c_nonce : String) (body : TokenRequest) (s : Server) {answer : TokenAnswer}
    → (handle_vci_token now drawn c_nonce (some body) s).1 ≡ token answer
    → Dict.get body.pre_authorized_code
        (handle_vci_token now drawn c_nonce (some body) s).0.preauth_store
      ≡ none
unfolding handle_vci_token
handle_vci_token_removes now drawn c_nonce body s h =
    elim (Bool-cases (body.grant_type == grant_pre_authorized)) [
      | inl e ↦ simp e (
          redeem_live_removes now drawn c_nonce body.pre_authorized_code s
            (live_preauth now body.pre_authorized_code s) (simp e at h))
      | inr e ↦ absurd (cc (simp e at h))
    ]

-- A request for a token with a code that is not stored is refused.
handle_vci_token_refuses :
    (now : ℕ) (drawn c_nonce : String) (body : TokenRequest) (s : Server)
    → Dict.get body.pre_authorized_code s.preauth_store ≡ none
    → (message : String) × (handle_vci_token now drawn c_nonce (some body) s
        ≡ (s, failure 400 message))
unfolding handle_vci_token redeem_live
handle_vci_token_refuses now drawn c_nonce body s gone =
    elim (Bool-cases (body.grant_type == grant_pre_authorized)) [
      | inl e ↦ (
        "invalid or expired pre-authorized code",
        simp (e, live_preauth-gone now body.pre_authorized_code s gone),
      )
      | inr e ↦ ("unsupported grant", simp e)
    ]

-- Once a code has been exchanged for a token, every later request for a token with it, at any time
-- and after any calls that do not draw the same code for a new offer, is answered with status 400
-- and changes nothing, and the offer of the code is not served again.
pub code_redeemed_once :
    (config : Config) (now : ℕ) (drawn c_nonce : String) (body : TokenRequest) (s : Server)
    (answer : TokenAnswer)
    → (handle_vci_token now drawn c_nonce (some body) s).1 ≡ token answer
    → (calls : List (ℕ × Call)) → EachCall (DrawsOtherCode body.pre_authorized_code) calls
    → (later : ℕ) (drawn' c_nonce' : String) (again : TokenRequest)
    → again.pre_authorized_code ≡ body.pre_authorized_code
    → (signer : Signer) (r : HttpRequest) → signer.base r.path ≡ body.pre_authorized_code
    → let t = run config calls (handle_vci_token now drawn c_nonce (some body) s).0 in
      ((message : String) × (handle_vci_token later drawn' c_nonce' (some again) t
          ≡ (t, failure 400 message)))
      × (handle_offer_by_code config signer later r t ≡ failure 400 "offer expired or invalid")
unfolding handle_offer_by_code
code_redeemed_once config now drawn c_nonce body s answer h calls d later drawn' c_nonce' again same
      signer r path =
    let t = run config calls (handle_vci_token now drawn c_nonce (some body) s).0 in
    let gone =
      run_no_code config body.pre_authorized_code calls
        (handle_vci_token now drawn c_nonce (some body) s).0 d
        (handle_vci_token_removes now drawn c_nonce body s h) in
    (
      handle_vci_token_refuses later drawn' c_nonce' again t (rw same gone),
      rw (live_preauth-gone later (signer.base r.path) t (rw path gone), handle_offer_by_code) refl,
    )
