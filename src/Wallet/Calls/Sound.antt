-- ===== src/Wallet/Calls/Sound.antt =====
-- What holds of the stores of system/zk-wallet-go's server between two calls.
use digital_identity_system.Prelude.{
  ℕ, ◌+◌, ◌≤◌, String, ◌≡◌, refl, inl, inr, not, ◌&&◌, ◌==◌, Option, none, some, List, [], ◌∷◌,
  arith, Result, ok, err, Bool-cases, Option-cases, or_err-eq-ok,
}
use digital_identity_system.Dict
use digital_identity_system.Dict.{Each, Each-put, Each-remove}
use digital_identity_system.Presentation.Verify.{◌⧺◌}
use digital_identity_system.Wallet.{
  Session, Preauth, Config, Server, new_server, HttpRequest, current_session, cookie_name_session,
}
use digital_identity_system.Wallet.Login.{
  Provider, handle_login, handle_callback, handle_logout, drop_session, begin_session, authenticate,
}
use digital_identity_system.Wallet.Issuance.{
  Signer, TokenRequest, handle_create_offer, offer_to, offer_for, redeem_live, grant_pre_authorized,
  handle_vci_token, live_preauth, redeem,
}
use digital_identity_system.Wallet.Issuance.Laws.{live_preauth-eq-some}
use digital_identity_system.Wallet.Calls.{
  Call, logs_in, calls_back, logs_out, offers, redeems, step, run, IsTimed, last_time,
}
use digital_identity_system.Wallet.Calls.Providers.{Vouches, CallVouches, AllVouch, authenticate-P}

-- Every user of the three stores satisfies the predicate, every entry stands under its own key,
-- and no code or token outlives five minutes from now.
pub record IsSound (P : Session → Type 0) (now : ℕ) (s : Server) : Type 0 where
  pub users : Each (λ sid user. P user) s.sess_store
  pub codes :
      Each (λ code pa. P pa.user × (pa.code ≡ code) × (pa.expires_at ≤ now + 300)) s.preauth_store
  pub tokens : Each (λ at rec. P rec.user × (rec.token ≡ at) × (rec.exp ≤ now + 300)) s.access_store

module _ (P : Session → Type 0) where
  IsSound-later : (now later : ℕ) (s : Server) → now ≤ later → IsSound P now s → IsSound P later s
  IsSound-later now later s passed i = record {
    users = i.users;
    codes = λ k pa found.
        let (p, own, live) = i.codes k pa found in (p, own, omega (arith, live, passed));
    tokens = λ k rec found.
        let (p, own, live) = i.tokens k rec found in (p, own, omega (arith, live, passed));
  }

  module _ (config : Config) (now : ℕ) (s : Server) where
    begin_session-IsSound :
        (sid : String) (r : HttpRequest) (answer : Result String Session)
        → ((user : Session) → answer ≡ ok user → P user)
        → IsSound P now s
        → IsSound P now (begin_session sid r s answer).0
    unfolding begin_session
    begin_session-IsSound sid r (err e) vouched i = i
    begin_session-IsSound sid r (ok user) vouched i = record {
      users = Each-put (λ k u. P u) sid user s.sess_store (vouched user refl) i.users;
      codes = i.codes;
      tokens = i.tokens;
    }

    drop_session-IsSound : (r : HttpRequest) → IsSound P now s → IsSound P now (drop_session r s)
    unfolding drop_session
    drop_session-IsSound r i = elim (Option-cases (Dict.get cookie_name_session r.cookies)) [
      | inl e ↦ rw (e, drop_session) i
      | inr (sid, e) ↦
          rw (e, drop_session)
            (record {
              users = Each-remove (λ k u. P u) sid s.sess_store i.users;
              codes = i.codes;
              tokens = i.tokens;
            })
    ]

    offer_to-IsSound :
        (signer : Signer) (code : String) (user : Session)
        → P user
        → IsSound P now s
        → IsSound P now (offer_to config signer now code s user).0
    unfolding offer_to
    offer_to-IsSound signer code user p i = record {
      users = i.users;
      codes = Each-put _ code _ s.preauth_store (p, refl, omega arith) i.codes;
      tokens = i.tokens;
    }

    redeem-IsSound :
        (drawn c_nonce code : String) (pa : Preauth)
        → P pa.user
        → IsSound P now s
        → IsSound P now (redeem now drawn c_nonce code s pa).0
    unfolding redeem
    redeem-IsSound drawn c_nonce code pa p i = record {
      users = i.users;
      codes = Each-remove _ code s.preauth_store i.codes;
      tokens = Each-put _ ("atk_" ⧺ drawn) _ s.access_store (p, refl, omega arith) i.tokens;
    }

    current_session-P :
        (r : HttpRequest) (user : Session)
        → IsSound P now s
        → current_session r s ≡ ok user
        → P user
    unfolding current_session
    current_session-P r user i h = elim (Option-cases (Dict.get cookie_name_session r.cookies)) [
      | inl e ↦ absurd (cc (rw (e, current_session) at h))
      | inr (sid, e) ↦
          i.users sid user
            (or_err-eq-ok (Dict.get sid s.sess_store) "not found" (rw (e, current_session) at h))
    ]

    offer_for-IsSound :
        (signer : Signer) (code : String) (answer : Result String Session)
        → ((user : Session) → answer ≡ ok user → P user)
        → IsSound P now s
        → IsSound P now (offer_for config signer now code s answer).0
    unfolding offer_for
    offer_for-IsSound signer code (err e) p i = i
    offer_for-IsSound signer code (ok user) p i = offer_to-IsSound signer code user (p user refl) i

    redeem_live-IsSound :
        (drawn c_nonce code : String) (found : Option Preauth)
        → ((pa : Preauth) → found ≡ some pa → P pa.user)
        → IsSound P now s
        → IsSound P now (redeem_live now drawn c_nonce code s found).0
    unfolding redeem_live
    redeem_live-IsSound drawn c_nonce code none p i = i
    redeem_live-IsSound drawn c_nonce code (some pa) p i =
        redeem-IsSound drawn c_nonce code pa (p pa refl) i

    handle_callback-IsSound :
        (provider : Provider) (sid : String) (r : HttpRequest)
        → Vouches P provider
        → IsSound P now s
        → IsSound P now (handle_callback config provider sid r s).0
    unfolding handle_callback
    handle_callback-IsSound provider sid r v i =
        let begun =
          begin_session-IsSound sid r (authenticate config provider r s)
            (λ user. authenticate-P P provider v config r s) i in
        elim (Bool-cases (r.method == "GET")) [ inl e ↦ simp e begun | inr e ↦ simp e i ]

    handle_login-IsSound :
        (provider : Provider) (ver nonce state : String) (r : HttpRequest)
        → IsSound P now s
        → IsSound P now (handle_login config provider ver nonce state r s).0
    unfolding handle_login
    handle_login-IsSound provider ver nonce state r i = elim (Bool-cases (r.method == "GET")) [
      | inl e ↦ simp e (record { users = i.users; codes = i.codes; tokens = i.tokens })
      | inr e ↦ simp e i
    ]

    handle_logout-IsSound :
        (provider : Provider) (r : HttpRequest)
        → IsSound P now s
        → IsSound P now (handle_logout config provider r s).0
    unfolding handle_logout
    handle_logout-IsSound provider r i =
        elim (Bool-cases (not (r.method == "GET") && not (r.method == "POST"))) [
          | inl e ↦ simp e i
          | inr e ↦ simp e (drop_session-IsSound r i)
        ]

    handle_create_offer-IsSound :
        (signer : Signer) (code : String) (r : HttpRequest)
        → IsSound P now s
        → IsSound P now (handle_create_offer config signer now code r s).0
    unfolding handle_create_offer
    handle_create_offer-IsSound signer code r i = elim (Bool-cases (r.method == "POST")) [
      | inl e ↦ simp e (
          offer_for-IsSound signer code (current_session r s) (λ user. current_session-P r user i)
            i)
      | inr e ↦ simp e i
    ]

    handle_vci_token-IsSound :
        (drawn c_nonce : String) (body : Option TokenRequest)
        → IsSound P now s
        → IsSound P now (handle_vci_token now drawn c_nonce body s).0
    unfolding handle_vci_token
    handle_vci_token-IsSound drawn c_nonce none i = i
    handle_vci_token-IsSound drawn c_nonce (some body) i =
        elim (Bool-cases (body.grant_type == grant_pre_authorized)) [
          | inl e ↦ simp e (
              redeem_live-IsSound drawn c_nonce body.pre_authorized_code
                (live_preauth now body.pre_authorized_code s)
                (λ pa live.
                  (i.codes body.pre_authorized_code pa
                    (live_preauth-eq-some now body.pre_authorized_code s live).0).0)
                i)
          | inr e ↦ simp e i
        ]

    pub step-IsSound :
        (call : Call)
        → CallVouches P call
        → IsSound P now s
        → IsSound P now (step config now call s)
    unfolding step
    step-IsSound (logs_in provider ver nonce state r) v i =
        handle_login-IsSound provider ver nonce state r i
    step-IsSound (calls_back provider sid r) v i = handle_callback-IsSound provider sid r v i
    step-IsSound (logs_out provider r) v i = handle_logout-IsSound provider r i
    step-IsSound (offers signer code r) v i = handle_create_offer-IsSound signer code r i
    step-IsSound (redeems drawn c_nonce body) v i = handle_vci_token-IsSound drawn c_nonce body i

  pub run-IsSound :
      (config : Config) (calls : List (ℕ × Call)) (now : ℕ) (s : Server)
      → IsTimed now calls
      → AllVouch P calls
      → IsSound P now s
      → IsSound P (last_time now calls) (run config calls s)
  unfolding run
  run-IsSound config [] now s timed v i = i
  run-IsSound config ((later, call) ∷ calls) now s (passed, timed) (v, rest) i =
      run-IsSound config calls later (step config later call s) timed rest
        (step-IsSound config later s call v (IsSound-later now later s passed i))

  pub new_server-IsSound : (now : ℕ) → IsSound P now new_server
  unfolding new_server Dict.get
  new_server-IsSound now = record {
    users = λ k u h. absurd (cc h);
    codes = λ k u h. absurd (cc h);
    tokens = λ k u h. absurd (cc h);
  }
