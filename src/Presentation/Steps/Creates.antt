-- ===== src/Presentation/Steps/Creates.antt =====
-- A created request keeps the service of system/api/src/zkprequest sound.
use digital_identity_system.Prelude.{
  ℕ, String, ◌≡◌, refl, sym, ap, subst, true, Option, none, some, Result, ok, err,
}
use digital_identity_system.Prelude.Int.{ℤ}
use digital_identity_system.Dict
use digital_identity_system.Presentation.Types.{PresentationRequest, Service}
use digital_identity_system.Presentation.Env.{Env}
use digital_identity_system.Presentation.Caches.{CreateError, schema_hash, ensure_vk_for_schema}
use digital_identity_system.Presentation.Caches.Laws.{
  IsCached, ensure_vk_for_schema-IsCached, ensure_vk_for_schema_keeps,
}
use digital_identity_system.Presentation.Create.{Draws, new_request, create_request_from_schema}
use digital_identity_system.Presentation.Create.Laws.{
  Created, refused, issued, created, with_caches, ensure_vk_for_schema_only, ensured_key,
}
use digital_identity_system.Presentation.Notify.{get_verdict}
use digital_identity_system.Presentation.Handler.{
  CreatePresentationIn, Links, finish_create, create_presentation, wait_for, begin_blocking,
}
use digital_identity_system.Presentation.Steps.Sound.{
  IsSound, saved-IsSound, attach_callback-IsSound, register-IsSound,
}

module _ (env : Env) (s : Service) (i : IsSound env s) where
  -- Caches that agree and have lost no key keep the service sound.
  with_caches-IsSound :
      (t : Service)
      → IsCached env t
      → ((hash : String) → Dict.has hash s.vk_cache ≡ true → Dict.has hash t.vk_cache ≡ true)
      → IsSound env (with_caches s t)
  unfolding get_verdict
  with_caches-IsSound t c keeps = record {
    cached = record { same_pk = c.same_pk; same_schema = c.same_schema; hashed = c.hashed };
    waitable = record { empty = i.waitable.empty; apart = i.waitable.apart };
    own = i.own;
    keyed = λ id req h. keeps req.schema_hash (i.keyed id req h);
    hashed = i.hashed;
    timed = i.timed;
  }

  ensured-IsSound :
      (random : ℕ) (canon : String) → IsSound env (ensure_vk_for_schema env s random canon).0
  ensured-IsSound random canon =
      subst (IsSound env) (sym (ensure_vk_for_schema_only env s random canon)) (
        with_caches-IsSound (ensure_vk_for_schema env s random canon).0
          (ensure_vk_for_schema-IsCached env s random canon i.cached)
          (ensure_vk_for_schema_keeps env s random canon))

  new_request_lem :
      (t : Service) (now : ℕ) (draws : Draws) (canon : String)
      → Dict.has (schema_hash env canon) t.vk_cache ≡ true
      → (Dict.has (new_request env t now draws canon (schema_hash env canon)).schema_hash t.vk_cache
          ≡ true)
        × ((new_request env t now draws canon (schema_hash env canon)).schema_hash
            ≡ schema_hash env
                (new_request env t now draws canon (schema_hash env canon)).schema_json)
  unfolding new_request
  new_request_lem t now draws canon key = (key, refl)

  pub create_request_from_schema-IsSound :
      (now : ℕ) (draws : Draws) (text : String)
      → IsSound env (create_request_from_schema env s now draws text).0
  create_request_from_schema-IsSound now draws text = go (created env s now draws text)
    where
      go :
          Created env s now draws (create_request_from_schema env s now draws text)
          → IsSound env (create_request_from_schema env s now draws text).0
      go (refused x e) = subst (IsSound env) (sym (ap (λ r. r.0) e)) i
      go (issued canon t ensures e) =
          let sound = subst (λ r. IsSound env r.0) ensures (ensured-IsSound draws.random canon) in
          let key : Dict.has (schema_hash env canon) t.vk_cache ≡ true =
            subst (λ r. Dict.has (schema_hash env canon) r.0.vk_cache ≡ true) ensures
              (ensured_key env s draws.random canon (schema_hash env canon)
                (ap (λ r. r.1) ensures)) in
          subst (IsSound env) (sym (ap (λ r. r.0) e)) (
            saved-IsSound env t sound (new_request env t now draws canon (schema_hash env canon))
              (new_request_lem t now draws canon key).0 (new_request_lem t now draws canon key).1)

  finish_create-IsSound :
      (links : Links) (input : CreatePresentationIn)
      (r : Service × Result CreateError PresentationRequest)
      → IsSound env r.0
      → IsSound env (finish_create env links input r).0
  unfolding finish_create
  finish_create-IsSound links input (t, err e) sound = sound
  finish_create-IsSound links input (t, ok req) sound =
      attach_callback-IsSound env t sound input req.request_id

  pub create_presentation-IsSound :
      (links : Links) (now : ℕ) (draws : Draws) (body : Option CreatePresentationIn)
      → IsSound env (create_presentation env links now draws body s).0
  unfolding create_presentation
  create_presentation-IsSound links now draws none = i
  create_presentation-IsSound links now draws (some input) =
      finish_create-IsSound links input
        (create_request_from_schema env s now draws input.schema_json)
        (create_request_from_schema-IsSound now draws input.schema_json)

  wait_for-IsSound :
      (timeout : ℤ) (r : Service × Result CreateError PresentationRequest)
      → IsSound env r.0
      → IsSound env (wait_for env timeout r).0
  unfolding wait_for
  wait_for-IsSound timeout (t, err e) sound = sound
  wait_for-IsSound timeout (t, ok req) sound = register-IsSound env t sound req.request_id

  pub begin_blocking-IsSound :
      (now : ℕ) (draws : Draws) (body : Option (String × ℤ))
      → IsSound env (begin_blocking env now draws body s).0
  unfolding begin_blocking
  begin_blocking-IsSound now draws none = i
  begin_blocking-IsSound now draws (some (text, timeout)) =
      wait_for-IsSound timeout (create_request_from_schema env s now draws text)
        (create_request_from_schema-IsSound now draws text)
