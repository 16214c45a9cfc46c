-- ===== src/Presentation/Notify/Timers.antt =====
-- The timers that delete the verdicts of system/api/src/zkprequest/service.go.
use digital_identity_system.Prelude.{
  ℕ, ◌+◌, ◌<◌, String, ◌≡◌, arith, none, some, eq_refl, leb, if◌then◌else◌,
}
use digital_identity_system.Dict
use digital_identity_system.Dict.{get-put, get-remove}
use digital_identity_system.Presentation.Types.{Verdict, Service, fifteen_minutes}
use digital_identity_system.Presentation.Notify.{set_verdict, get_verdict, fire_timer}

-- Let a request get a second verdict while the timer of the first is pending. At any time, the first
-- timer deletes the second verdict exactly if a quarter of an hour has passed since the first
-- verdict, and the second timer deletes it exactly if a quarter of an hour has passed since the
-- second. So there is a time at which the first timer deletes the second verdict and the second
-- timer would leave it.
pub stale_timer :
    (first second now : ℕ) (id : String) (v w : Verdict) (s : Service)
    → first < second
    → let both = set_verdict second id w (set_verdict first id v s) in
      (get_verdict id (fire_timer now 1 both)
        ≡ (if leb (first + fifteen_minutes) now then none else some w))
      × (get_verdict id (fire_timer now 0 both)
          ≡ (if leb (second + fifteen_minutes) now then none else some w))
      × (get_verdict id (fire_timer (first + fifteen_minutes) 1 both) ≡ none)
      × (get_verdict id (fire_timer (first + fifteen_minutes) 0 both) ≡ some w)
unfolding get_verdict set_verdict fire_timer
stale_timer first second now id v w s h =
    let gone = get-remove id id (Dict.put id w (Dict.put id v s.verdicts)) in
    let there = get-put id w id (Dict.put id v s.verdicts) in
    (
      ground (arith, gone, there, eq_refl id),
      ground (arith, gone, there, eq_refl id),
      ground (arith, gone, eq_refl id),
      ground (arith, there, eq_refl id),
    )
