-- ===== src/Presentation/HistoryTests.antt =====
-- A history of system/api/src/zkprequest on the sample data: a request is made, used, and its
-- listener gives up.
use digital_identity_system.Presentation.Reader.{BytesReader, read, unread, read_progress}
use digital_identity_system.Prelude.{
  ◌⊎◌, ◌++◌, length, ℕ, ◌+◌, ◌<◌, arith, true, false, ◌≡◌, refl, subst, none, some, ok, err, [],
  ◌∷◌, leb, if◌then◌else◌, guard,
}
use digital_identity_system.Dict
use digital_identity_system.Schema.{parse_schema_with, prepare, prepare_fields, check_constraints}
use digital_identity_system.Circuit.Build.{new_dynamic_circuit}
use digital_identity_system.Presentation.Package.{
  ZkpResult, IsFaithful, serialize_borsh, reconstruct_zkp_result,
}
use digital_identity_system.Presentation.Caches.{canonical_json, make_keys, ensure_vk_for_schema}
use digital_identity_system.Presentation.Notify.Timers.{stale_timer}
use digital_identity_system.Presentation.Types.{
  Bytes, Verdict, fifteen_minutes, PresentationRequest, Service,
}
use digital_identity_system.Presentation.Create.{load, new_request, create_request_from_schema}
use digital_identity_system.Presentation.Notify.{
  waiting, time_out, get_verdict, set_verdict, fire_timer,
}
use digital_identity_system.Presentation.Notify.Waiters.{among}
use digital_identity_system.Presentation.Verify.{
  cached, check_proof, check_submission, verify_submission,
}
use digital_identity_system.Presentation.Verify.Packed.{packed_is_checked}
use digital_identity_system.Presentation.Steps.{gives_up, History, done, next}
use digital_identity_system.Presentation.Steps.Sound.{IsSound}
use digital_identity_system.Presentation.Steps.Creates.{create_request_from_schema-IsSound}
use digital_identity_system.Presentation.Steps.Invariant.{History-IsSound}
use digital_identity_system.Presentation.Steps.Once.{Avoids, used_once}
use digital_identity_system.Presentation.Samples.{
  test_env, idle, draws, links, submission, test_codec, pack, unpack,
}

idle-IsSound : IsSound test_env idle
unfolding load Dict.get Dict.has among waiting get_verdict
idle-IsSound = record {
  cached = record { same_pk = λ _. refl; same_schema = λ _. refl; hashed = λ h c e. absurd (cc e) };
  waitable = record { empty = λ id ch h. absurd (cc h); apart = λ a b ch h k. absurd (cc h) };
  own = λ id req h. absurd (cc h);
  keyed = λ id req h. absurd (cc h);
  hashed = λ id req h. absurd (cc h);
  timed = λ id v h. absurd (cc h);
}

abbrev start : Service
start = (create_request_from_schema test_env idle 0 draws "{}").0

abbrev issued : PresentationRequest
issued = new_request test_env idle 0 draws "{}" "sha256:{}"

abbrev used : Service
used = (verify_submission test_env 0 submission start).0

accepted : (verify_submission test_env 0 submission start).1 ≡ ok issued
unfolding verify_submission load Dict.get create_request_from_schema canonical_json
    ensure_vk_for_schema Dict.has make_keys parse_schema_with prepare prepare_fields
    check_constraints new_dynamic_circuit Dict.put check_submission reconstruct_zkp_result
    new_request
accepted = refl

abbrev last : Service
last = (time_out "r1" 0 used).0

history : History test_env links (Avoids "r1") last used
history = next none used last tt (gives_up "r1" 0 refl) done

used_once_example :
    verify_submission test_env 5 submission last ≡ (last, err "request not found or already used")
used_once_example =
    used_once test_env links start last 0 5 submission submission issued
      (create_request_from_schema-IsSound test_env idle idle-IsSound 0 draws "{}") accepted history
      refl refl

abbrev bored : Service
bored = (time_out "r1" 0 idle).0

History-IsSound_example : IsSound test_env bored
History-IsSound_example =
    History-IsSound test_env links (Avoids "r1") bored idle
      (next none idle bored tt (gives_up "r1" 0 refl) done) idle-IsSound

abbrev proof : ZkpResult ℕ ℕ
proof = record { proof = 7; public_witness = 9; tx_hash = "5Kd" }

unpack-pack :
    (x y b : Bytes) → pack x y ≡ some b → unpack b ≡ some (record { proof = x; public_witness = y })
unpack-pack [] y b h = absurd (cc h)
unpack-pack (a ∷ x ∷ xs) y b h = absurd (cc h)
unpack-pack (a ∷ []) [] b h = absurd (cc h)
unpack-pack (a ∷ []) (c ∷ []) b h =
    let same : a ∷ c ∷ [] ≡ b = cc in
    subst (λ bytes. unpack bytes ≡ some (record { proof = a ∷ []; public_witness = c ∷ [] })) same
      refl
unpack-pack (a ∷ []) (c ∷ y ∷ ys) b h = absurd (cc h)

test_codec-IsFaithful : IsFaithful test_codec
test_codec-IsFaithful = record {
  proofs = λ p b h. ground arith;
  witnesses = λ w b h. ground arith;
  packs = λ p b h. unpack-pack p.proof p.public_witness b h;
}

packed : serialize_borsh test_codec proof ≡ some (7 ∷ 9 ∷ [])
unfolding serialize_borsh
packed = refl

packed_is_checked_example :
    (reconstruct_zkp_result test_codec (7 ∷ 9 ∷ []) ≡ some (record proof { tx_hash = "" }))
    × (check_proof test_env (("h", 3 ∷ []) ∷ []) "h" "Bwk="
        ≡ guard (test_env.verify 7 1 9) "verify failed")
unfolding cached Dict.get
packed_is_checked_example =
    packed_is_checked test_env proof (7 ∷ 9 ∷ []) "Bwk=" "h" (("h", 3 ∷ []) ∷ []) 1
      test_codec-IsFaithful packed refl refl refl

abbrev bad : Verdict
bad = record { ok = false; reason = "verify failed"; state = "failed"; verified_at = none }

abbrev good : Verdict
good = record { ok = true; reason = ""; state = "verified"; verified_at = some 5 }

-- A time at which the first timer is due and the second is not.
stale_timer_example :
    let both = set_verdict 5 "r1" good (set_verdict 1 "r1" bad idle) in
    (get_verdict "r1" (fire_timer 900000000003 1 both)
      ≡ (if leb (1 + fifteen_minutes) 900000000003 then none else some good))
    × (get_verdict "r1" (fire_timer 900000000003 0 both)
        ≡ (if leb (5 + fifteen_minutes) 900000000003 then none else some good))
    × (get_verdict "r1" (fire_timer (1 + fifteen_minutes) 1 both) ≡ none)
    × (get_verdict "r1" (fire_timer (1 + fifteen_minutes) 0 both) ≡ some good)
stale_timer_example = stale_timer 1 5 900000000003 "r1" bad good idle (omega arith)

abbrev reader : BytesReader
reader = record { b = 4 ∷ 5 ∷ 6 ∷ []; i = 1 }

read_progress_example :
    ((read 1 reader ≡ none) × (unread reader ≡ []))
    ⊎ (got : Bytes) × (rest : BytesReader) × (read 1 reader ≡ some (got, rest))
      × (got ++ unread rest ≡ unread reader)
      × (0 < length got)
read_progress_example = read_progress 1 reader (omega arith)
