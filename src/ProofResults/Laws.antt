-- ===== src/ProofResults/Laws.antt =====
-- A result of the blockchain is saved at most once (system/api/src/zkp/results/service.go).
use digital_identity_system.Prelude.{
  ℕ, String, ◌≡◌, refl, sym, ap, ◌∙◌, inl, inr, Option, none, some, eq_refl, ok, err, Option-cases,
  Result-cases,
}
use digital_identity_system.Dict
use digital_identity_system.Dict.{Dict, get-put}
use digital_identity_system.Outbox.{OutboxEvent, not_found, get_event, mark_event_as_processed}
use digital_identity_system.Outbox.Laws.{open_event-some}
use digital_identity_system.Identity.{get_by_id}
use digital_identity_system.ProofResults.{
  Tables, ZkpProofResultDto, no_identity, saved, SchemaDraw, finish_event, save_result,
  process_verification_result,
}

module _ (parse : String → Option String) (now : ℕ) where
  -- An event that has ended is not found any more, and the identities are as they were.
  finish_event_saved :
      (id uuid : String) (t after : Tables)
      → parse id ≡ some uuid
      → finish_event parse now id t ≡ (after, saved)
      → (get_event uuid after.events ≡ err not_found) × (after.identities ≡ t.identities)
  unfolding finish_event mark_event_as_processed get_event
  finish_event_saved id uuid t after parsed h = elim (Result-cases (get_event uuid t.events)) [
    | inr (x, e) ↦ absurd (cc (rw (parsed, e, finish_event, mark_event_as_processed) at h))
    | inl (e, found) ↦
        let closed : OutboxEvent = record e { processed_at = some now } in
        let ended : record t { events = Dict.put uuid closed t.events } ≡ after =
          cc (rw (parsed, found, finish_event, mark_event_as_processed) at h) in
        let there : Dict.get uuid after.events ≡ some closed =
          ap (λ u. Dict.get uuid u.events) (sym ended)
          ∙ get-put uuid closed uuid t.events
          ∙ simp (eq_refl uuid) refl in
        (rw (there, get_event) (open_event-some closed refl), ap (λ u. u.identities) (sym ended))
  ]

  save_result_saved :
      (draw : SchemaDraw) (resp : ZkpProofResultDto) (identity schema id uuid : String)
      (t after : Tables)
      → parse id ≡ some uuid
      → save_result parse now draw resp identity schema id t ≡ (after, saved)
      → (get_event uuid after.events ≡ err not_found) × (after.identities ≡ t.identities)
  unfolding save_result
  save_result_saved draw resp identity schema id uuid t after parsed h =
      elim (Option-cases (get_by_id identity t.identities)) [
        | inl absent ↦ absurd (cc (rw (absent, save_result) at h))
        | inr (i, there) ↦
            let (gone, kept) =
              finish_event_saved id uuid _ after parsed (rw (there, save_result) at h) in
            (gone, kept)
      ]

  save_result_absent :
      (draw : SchemaDraw) (resp : ZkpProofResultDto) (identity schema id : String) (t : Tables)
      → get_by_id identity t.identities ≡ none
      → save_result parse now draw resp identity schema id t ≡ (t, no_identity)
  unfolding save_result
  save_result_absent draw resp identity schema id t absent = rw (absent, save_result) refl

-- After a result has been saved, delivering it again saves nothing and changes no table, provided
-- that no identity has the empty UUID and that the event is stored under the UUID that its own text
-- stands for.
pub result_saved_once :
    (parse : String → Option String) (now later : ℕ) (draw again : SchemaDraw)
    (resp : ZkpProofResultDto) (t after : Tables) (uuid : String) (event : OutboxEvent)
    → parse resp.event_id ≡ some uuid
    → get_event uuid t.events ≡ ok event
    → parse event.event_id ≡ some uuid
    → get_by_id "" t.identities ≡ none
    → process_verification_result parse now draw resp t ≡ (after, saved)
    → process_verification_result parse later again resp after ≡ (after, no_identity)
unfolding process_verification_result
result_saved_once parse now later draw again resp t after uuid event parsed found own unnamed h =
    let (gone, kept) =
      save_result_saved parse now draw resp event.identity_id event.schema_id event.event_id uuid t
        after own (rw (parsed, found, process_verification_result) at h) in
    rw (parsed, gone, process_verification_result)
      (save_result_absent parse later again resp "" "" "" after (ap (get_by_id "") kept ∙ unnamed))
