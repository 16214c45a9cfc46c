-- ===== src/Wallet/Calls.antt =====
-- The calls that change the state of system/zk-wallet-go's server, one after the other. A handler
-- is one step, so the lists of calls describe the histories in which no two calls overlap.
pub mod Providers
pub mod Sound
pub mod Vouched
pub mod Frame
pub mod Once
pub mod Completes
pub mod Logout
use digital_identity_system.Prelude.{ℕ, ◌≤◌, String, Option, List, [], ◌∷◌}
use digital_identity_system.Wallet.{Config, Server, HttpRequest}
use digital_identity_system.Wallet.Login.{Provider, handle_login, handle_callback, handle_logout}
use digital_identity_system.Wallet.Issuance.{
  Signer, TokenRequest, handle_create_offer, handle_vci_token,
}

-- A call with what it draws and with the outside that it meets.
pub data Call : Type 0 where
  logs_in : Provider → (ver nonce state : String) → HttpRequest → Call
  calls_back : Provider → (sid : String) → HttpRequest → Call
  logs_out : Provider → HttpRequest → Call
  offers : Signer → (code : String) → HttpRequest → Call
  redeems : (drawn c_nonce : String) → Option TokenRequest → Call

module _ (config : Config) where
  unfoldable pub step : ℕ → Call → Server → Server
  step now (logs_in provider ver nonce state r) s =
      (handle_login config provider ver nonce state r s).0
  step now (calls_back provider sid r) s = (handle_callback config provider sid r s).0
  step now (logs_out provider r) s = (handle_logout config provider r s).0
  step now (offers signer code r) s = (handle_create_offer config signer now code r s).0
  step now (redeems drawn c_nonce body) s = (handle_vci_token now drawn c_nonce body s).0

  unfoldable pub run : List (ℕ × Call) → Server → Server
  unfolding step
  run [] s = s
  run ((now, call) ∷ calls) s = run calls (step now call s)

-- The clock does not go back.
abbrev pub IsTimed : ℕ → List (ℕ × Call) → Type 0
IsTimed start [] = Unit
IsTimed start ((now, call) ∷ calls) = (start ≤ now) × IsTimed now calls

-- The time of the last call.
abbrev pub last_time : ℕ → List (ℕ × Call) → ℕ
last_time start [] = start
last_time start ((now, call) ∷ calls) = last_time now calls
