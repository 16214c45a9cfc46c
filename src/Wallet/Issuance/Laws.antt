-- ===== src/Wallet/Issuance/Laws.antt =====
-- What the answers of internal/app/handlers/vci_handlers.go say about the stores.
use digital_identity_system.Prelude.{
  ℕ, ◌≤◌, String, ◌≡◌, refl, inl, inr, Option, none, some, arith, Result, ok, Bool-cases,
  Option-cases,
}
use digital_identity_system.Prelude.Int.{ℤ}
use digital_identity_system.Dict
use digital_identity_system.Wallet.{Preauth, AccessRec, Config, Server, HttpRequest, get_text}
use digital_identity_system.Wallet.Issuance.{
  Signer, credential, live_preauth, after, live_access, issue, issue_live, signed, claims_for,
  handle_vci_credential,
}

-- A code that is still live is stored, and its time has not come.
pub live_preauth-eq-some :
    (now : ℕ) (code : String) (s : Server) {pa : Preauth}
    → live_preauth now code s ≡ some pa
    → (Dict.get code s.preauth_store ≡ some pa) × (now ≤ pa.expires_at)
unfolding live_preauth after
live_preauth-eq-some now code s h = ground arith

pub live_access-eq-some :
    (now : ℕ) (at : String) (s : Server) {rec : AccessRec}
    → live_access now at s ≡ some rec
    → (Dict.get at s.access_store ≡ some rec) × (now ≤ rec.exp)
unfolding live_access after
live_access-eq-some now at s h = ground arith

pub live_preauth_stored :
    (now : ℕ) (code : String) (s : Server) (pa : Preauth)
    → Dict.get code s.preauth_store ≡ some pa
    → now ≤ pa.expires_at
    → live_preauth now code s ≡ some pa
unfolding live_preauth after
live_preauth_stored now code s pa stored in_time = ground arith

pub live_access_stored :
    (now : ℕ) (at : String) (s : Server) (rec : AccessRec)
    → Dict.get at s.access_store ≡ some rec
    → now ≤ rec.exp
    → live_access now at s ≡ some rec
unfolding live_access after
live_access_stored now at s rec stored in_time = ground arith

module _ (config : Config) (signer : Signer) (now : ℕ) where
  abbrev pub Signs : AccessRec → String → Type 0
  Signs rec jws =
      (birth : ℤ) × (signer.sign
          (record { alg = "EdDSA"; kid = config.issuer_key_id; typ = "vc+jwt" })
          (claims_for config signer now rec.user birth)
        ≡ ok jws)

  signed-eq-credential :
      (answer : Result String String) {format jws : String}
      → signed answer ≡ credential format jws
      → answer ≡ ok jws
  unfolding signed
  signed-eq-credential answer h = ground arith

  issue-Signs :
      (rec : AccessRec) {format jws : String}
      → issue config signer now rec ≡ credential format jws
      → Signs rec jws
  unfolding issue
  issue-Signs rec h = elim (Option-cases (signer.parse_date "2004-05-10")) [
    | inl e ↦ absurd (cc (rw (e, issue) at h))
    | inr (birth, e) ↦ (birth, signed-eq-credential _ (rw (e, issue) at h))
  ]

  issue_live-Signs :
      (found : Option AccessRec) {format jws : String}
      → issue_live config signer now found ≡ credential format jws
      → (rec : AccessRec) × (found ≡ some rec) × Signs rec jws
  unfolding issue_live
  issue_live-Signs none h = absurd (cc h)
  issue_live-Signs (some rec) h = (rec, refl, issue-Signs rec h)

  -- A credential is signed for a live token.
  pub handle_vci_credential-Signs :
      (r : HttpRequest) (s : Server) {format jws : String}
      → handle_vci_credential config signer now r s ≡ credential format jws
      → let at =
          signer.trim_space (signer.trim_prefix (get_text "Authorization" r.headers) "Bearer ") in
        (rec : AccessRec) × (live_access now at s ≡ some rec) × Signs rec jws
  unfolding handle_vci_credential
  handle_vci_credential-Signs r s h =
      elim (Bool-cases (signer.has_prefix (get_text "Authorization" r.headers) "Bearer ")) [
        | inl bearer ↦ issue_live-Signs _ (simp bearer at h)
        | inr other ↦ absurd (cc (simp other at h))
      ]
