-- ===== src/Wallet/Calls/Providers.antt =====
-- Identity providers that vouch for the users of system/zk-wallet-go.
use digital_identity_system.Prelude.{
  ℕ, String, ◌≡◌, subst, inl, inr, ◌==◌, Option, none, some, List, [], ◌∷◌, Result, ok, err,
  Bool-cases, Result-cases,
}
use digital_identity_system.Wallet.{Session, Config, Server, HttpRequest, get_text}
use digital_identity_system.Wallet.Login.{
  Provider, Claims, Token, UserInfo, authenticate, user_of_exchange, user_of_token,
  user_of_id_token, pkce_val, user_of_claims, user_of_info, nonce_mismatch,
}
use digital_identity_system.Wallet.Calls.{Call, calls_back}

-- What the provider answers is about users that satisfy the predicate.
pub record Vouches (P : Session → Type 0) (provider : Provider) : Type 0 where
  pub by_token :
      (raw : String) (c : Claims)
      → provider.verify raw ≡ ok (ok c)
      → P (record { sub = c.sub; email = c.email; name = c.name })
  pub by_info :
      (token : Token) (i : UserInfo)
      → provider.user_info token ≡ ok i
      → P (record { sub = i.subject; email = i.email; name = i.name })

-- The provider that a callback meets vouches.
abbrev pub CallVouches : (Session → Type 0) → Call → Type 0
CallVouches P (calls_back provider sid r) = Vouches P provider
CallVouches P call = Unit

abbrev pub AllVouch : (Session → Type 0) → List (ℕ × Call) → Type 0
AllVouch P [] = Unit
AllVouch P ((now, call) ∷ calls) = CallVouches P call × AllVouch P calls

module _ (P : Session → Type 0) (provider : Provider) (vouches : Vouches P provider) where
  user_of_claims-P :
      (r : HttpRequest) (raw : String) {user : Session}
      → user_of_claims r (provider.verify raw) ≡ ok user
      → P user
  unfolding user_of_claims
  user_of_claims-P r raw h = elim (Result-cases (provider.verify raw)) [
    | inr (e, bad) ↦ absurd (cc (simp bad at h))
    | inl (parsed, verified) ↦ elim (Result-cases parsed) [
      | inr (e, bad) ↦ absurd (cc (simp (verified, bad) at h))
      | inl (c, good) ↦ elim (Bool-cases (nonce_mismatch r c)) [
        | inl differs ↦ absurd (cc (simp (verified, good, differs) at h))
        | inr same ↦
            subst P (cc (simp (verified, good, same) at h))
              (vouches.by_token raw c (cc (verified, good)))
      ]
    ]
  ]

  user_of_info-P :
      (token : Token) {user : Session} → user_of_info (provider.user_info token) ≡ ok user → P user
  unfolding user_of_info
  user_of_info-P token h = elim (Result-cases (provider.user_info token)) [
    | inr (e, bad) ↦ absurd (cc (simp bad at h))
    | inl (i, good) ↦ elim (Bool-cases (i.subject == "")) [
      | inl empty ↦ absurd (cc (simp (good, empty) at h))
      | inr named ↦ subst P (cc (simp (good, named) at h)) (vouches.by_info token i good)
    ]
  ]

  user_of_id_token-P :
      (r : HttpRequest) (token : Token) (id_token : Option String) {user : Session}
      → user_of_id_token provider r token id_token ≡ ok user
      → P user
  unfolding user_of_id_token
  user_of_id_token-P r token none h = user_of_info-P token h
  user_of_id_token-P r token (some raw) h = elim (Bool-cases (raw == "")) [
    | inl empty ↦ user_of_info-P token (simp empty at h)
    | inr filled ↦ user_of_claims-P r raw (simp filled at h)
  ]

  user_of_exchange-P :
      (r : HttpRequest) (answer : Result String Token) {user : Session}
      → user_of_exchange provider r answer ≡ ok user
      → P user
  unfolding user_of_exchange user_of_token
  user_of_exchange-P r (err e) h = absurd (cc h)
  user_of_exchange-P r (ok token) h = user_of_id_token-P r token token.id_token h

  pub authenticate-P :
      (config : Config) (r : HttpRequest) (s : Server) {user : Session}
      → authenticate config provider r s ≡ ok user
      → P user
  unfolding authenticate
  authenticate-P config r s h = elim (Bool-cases (get_text "code" r.query == "")) [
    | inl missing ↦ absurd (cc (simp missing at h))
    | inr given ↦ elim (Bool-cases (pkce_val r s == "")) [
      | inl missing ↦ absurd (cc (simp (given, missing) at h))
      | inr stored ↦
          user_of_exchange-P r
            (provider.exchange (get_text "code" r.query) (pkce_val r s) config.redirect_uri)
            (simp (given, stored) at h)
    ]
  ]
