-- ===== src/Presentation/Notify.antt =====
-- Waiters, webhooks and verdicts of system/api/src/zkprequest/service.go.
pub mod Laws
pub mod Waiters
pub mod Timers
use digital_identity_system.Prelude.{
  ℕ, zero, suc, ◌+◌, ◌≤◌, String, Bool, true, false, not, Option, none, some, List, [], ◌∷◌, ◌++◌,
  ◌==◌, eqb, leb, if◌then◌else◌, length, get_elem?, set, is_empty,
}
use digital_identity_system.Dict
use digital_identity_system.Dict.{Dict}
use digital_identity_system.Presentation.Types.{
  PresentationRequest, Verdict, VerifyResult, Payload, Webhook, Timer, Service, fifteen_minutes,
}
use digital_identity_system.Presentation.Env.{Env}

-- `s.waiters[id]`, where a missing key gives the nil slice.
unfoldable pub waiting : String → Dict (List ℕ) → List ℕ
waiting id m = elim (Dict.get id m) [ none ↦ [] | some chs ↦ chs ]

-- `select { case ch <- res: default: }` on a channel with room for one value.
unfoldable pub send : VerifyResult → ℕ → List (Option VerifyResult) → List (Option VerifyResult)
send res ch [] = []
send res zero (none ∷ chs) = some res ∷ chs
send res zero (some old ∷ chs) = some old ∷ chs
send res (suc ch) (buffer ∷ chs) = buffer ∷ send res ch chs

unfoldable pub send_all :
    VerifyResult → List ℕ → List (Option VerifyResult) → List (Option VerifyResult)
unfolding send
send_all res [] chs = chs
send_all res (ch ∷ rest) chs = send_all res rest (send res ch chs)

unfoldable pub notify_waiters : String → VerifyResult → Service → Service
unfolding waiting send_all
notify_waiters id res s = record s {
  waiters = Dict.remove id s.waiters;
  channels = send_all res (waiting id s.waiters) s.channels;
}

-- The first part of `WaitForResult`: a new channel, registered under the id.
unfoldable pub register : String → Service → Service × ℕ
unfolding waiting
register id s =
    let ch = length s.channels in
    (
      record s {
        waiters = Dict.put id (waiting id s.waiters ++ ch ∷ []) s.waiters;
        channels = s.channels ++ none ∷ [];
      },
      ch,
    )

-- `case res := <-ch`: ready when the buffer holds a value, which it takes out.
unfoldable pub receive : ℕ → Service → Option (Service × VerifyResult)
receive ch s = elim (get_elem? s.channels ch) [
  | some (some res) ↦ some (record s { channels = set s.channels ch none }, res)
  | _ ↦ none
]

-- `newList`: the listeners but the one that gave up.
unfoldable pub others : ℕ → List ℕ → List ℕ
others ch [] = []
others ch (c ∷ chs) = let rest = others ch chs in if eqb c ch then rest else c ∷ rest

-- `case <-timer.C`: the cleanup, and the answer of a wait that timed out.
unfoldable pub time_out : String → ℕ → Service → Service × VerifyResult
unfolding waiting others
time_out id ch s =
    let new_list = others ch (waiting id s.waiters) in
    (
      record s {
        waiters =
            if is_empty new_list then Dict.remove id s.waiters else Dict.put id new_list s.waiters;
      },
      record { ok = false; reason = "timeout" },
    )

-- `setVerdict`: the verdict, and the goroutine that deletes it after a quarter of an hour.
unfoldable pub set_verdict : ℕ → String → Verdict → Service → Service
set_verdict now id v s = record s {
  verdicts = Dict.put id v s.verdicts;
  timers = record { id = id; due = now + fifteen_minutes } ∷ s.timers;
}

unfoldable pub get_verdict : String → Service → Option Verdict
get_verdict id s = Dict.get id s.verdicts

-- The goroutine of the timer at the position wakes up, if its time has come.
unfoldable pub remove_at {ℓ} : {A : Type ℓ} → ℕ → List A → List A
remove_at i [] = []
remove_at zero (x ∷ xs) = xs
remove_at (suc i) (x ∷ xs) = x ∷ remove_at i xs

unfoldable pub fire_timer : ℕ → ℕ → Service → Service
unfolding remove_at
fire_timer now i s = elim (get_elem? s.timers i) [
  | none ↦ s
  | some timer ↦
      if leb timer.due now
      then record s { verdicts = Dict.remove timer.id s.verdicts; timers = remove_at i s.timers }
      else s
]

module _ (env : Env) where
  unfoldable pub webhook_of : ℕ → PresentationRequest → Bool → String → Webhook
  webhook_of now req ok reason =
      let body = env.marshal (record {
        request_id = req.request_id;
        schema_hash = req.schema_hash;
        state = if not ok then "failed" else "verified";
        ok = ok;
        reason = reason;
        verified_at = env.format_time now;
      }) in
      record {
        url = req.callback_url;
        body = body;
        signature =
            if req.callback_secret == ""
            then none
            else some (env.hmac_hex req.callback_secret body);
      }

  unfoldable pub post_webhook : ℕ → PresentationRequest → Bool → String → Service → Service
  unfolding webhook_of
  post_webhook now req ok reason s =
      if req.callback_url == ""
      then s
      else record s { webhooks = webhook_of now req ok reason ∷ s.webhooks }
