-- ===== src/Presentation/Create/Laws.antt =====
-- What `CreateRequestFromSchema` (system/api/src/zkprequest/service.go) stores and returns.
use Prim.Native.Nat.{zero, suc}
use digital_identity_system.Prelude.{
  ℕ, ◌+◌, ◌<◌, String, ◌≡◌, refl, ap, ◌∙◌, subst, inl, inr, true, some, ◌==◌, if◌then◌else◌, arith,
  eq_refl, Result, ok, err, Bool-cases, Result-cases,
}
use digital_identity_system.Prelude.Int.{ℤ, pos, negsuc}
use digital_identity_system.Dict
use digital_identity_system.Dict.{Dict, get-put, has-put}
use digital_identity_system.Presentation.Types.{PresentationRequest, Service, unix}
use digital_identity_system.Presentation.Env.{Env}
use digital_identity_system.Presentation.Caches.{
  CreateError, not_initialized, ad_hoc_disabled, canonical_json, schema_hash, ensure_vk_for_schema,
}
use digital_identity_system.Presentation.Caches.Laws.{Ensured, present, made, failed, ensured}
use digital_identity_system.Presentation.Verify.{sprint}
use digital_identity_system.Presentation.Create.{
  save, load, default_ttl, Draws, new_request, save_request, create_from_canonical,
  create_request_from_schema,
}

pub load-save :
    (req : PresentationRequest) (id : String) (m : Dict PresentationRequest)
    → load id (save req m) ≡ (if req.request_id == id then some req else load id m)
unfolding load save
load-save req id m = get-put req.request_id req id m

default_ttl_positive : (ttl : ℤ) → 0 < default_ttl ttl
unfolding default_ttl
default_ttl_positive (pos zero) = omega arith
default_ttl_positive (pos (suc n)) = omega arith
default_ttl_positive (negsuc n) = omega arith

module _ (env : Env) (s : Service) (now : ℕ) (draws : Draws) where
  -- How a call ends: with an error and the store as it was, or with a new request, saved in a
  -- service whose caches hold the keys of its schema.
  pub data Created (r : Service × Result CreateError PresentationRequest) : Type 0 where
    refused : (e : CreateError) → r ≡ (s, err e) → Created r
    issued :
        (canon : String) (t : Service)
        → (ensure_vk_for_schema env s draws.random canon ≡ (t, ok (schema_hash env canon)))
        → r ≡ (
          record t {
            store = save (new_request env t now draws canon (schema_hash env canon)) t.store;
          },
          ok (new_request env t now draws canon (schema_hash env canon)),
        )
        → Created r

  create_from_canonical-Created :
      (canon : String) → Created (create_from_canonical env s now draws canon)
  unfolding create_from_canonical
  create_from_canonical-Created canon = go (ensured env s draws.random canon)
    where
      go :
          Ensured env s draws.random canon (ensure_vk_for_schema env s draws.random canon)
          → Created (create_from_canonical env s now draws canon)
      go (present _ e) = issued canon s e (ap (save_request env now draws canon) e)
      go (made keys _ e) = issued canon _ e (ap (save_request env now draws canon) e)
      go (failed x _ e) = refused x (ap (save_request env now draws canon) e)

  pub created : (text : String) → Created (create_request_from_schema env s now draws text)
  unfolding create_request_from_schema
  created text = elim (Bool-cases s.has_store) [
    | inr e ↦ refused not_initialized (simp e)
    | inl e ↦ elim (Bool-cases s.allow_ad_hoc_schema) [
      | inr a ↦ refused ad_hoc_disabled (simp (e, a))
      | inl a ↦ elim (Result-cases (canonical_json env text)) [
        | inr (x, c) ↦ refused x (simp (e, a, c))
        | inl (canon, c) ↦ simp (e, a, c) (create_from_canonical-Created canon)
      ]
    ]
  ]

-- Making sure of the keys touches nothing but the caches.
abbrev pub with_caches : Service → Service → Service
with_caches s t = record s {
  vk_cache = t.vk_cache;
  pk_cache = t.pk_cache;
  schema_cache = t.schema_cache;
}

module _ (env : Env) (s : Service) (random : ℕ) (canon : String) where
  pub ensure_vk_for_schema_only :
      (ensure_vk_for_schema env s random canon).0
      ≡ with_caches s (ensure_vk_for_schema env s random canon).0
  ensure_vk_for_schema_only = go (ensured env s random canon)
    where
      go :
          Ensured env s random canon (ensure_vk_for_schema env s random canon)
          → (ensure_vk_for_schema env s random canon).0
            ≡ with_caches s (ensure_vk_for_schema env s random canon).0
      go (present _ e) = rw e refl
      go (made keys _ e) = rw e refl
      go (failed x _ e) = rw e refl

  pub ensured_key :
      (hash : String)
      → (ensure_vk_for_schema env s random canon).1 ≡ ok hash
      → Dict.has hash (ensure_vk_for_schema env s random canon).0.vk_cache ≡ true
  ensured_key hash h = go (ensured env s random canon)
    where
      go :
          Ensured env s random canon (ensure_vk_for_schema env s random canon)
          → Dict.has hash (ensure_vk_for_schema env s random canon).0.vk_cache ≡ true
      go (present there e) =
          let same : schema_hash env canon ≡ hash = cc (ap (λ r. r.1) e) in rw (e, ← same) there
      go (made (vk, pk) _ e) =
          let same : schema_hash env canon ≡ hash = cc (ap (λ r. r.1) e) in
          rw (e, ← same)
            (has-put (schema_hash env canon) vk (schema_hash env canon) s.vk_cache ∙ simp eq_refl)
      go (failed x _ e) = absurd (cc (ap (λ r. r.1) e))

-- What a request is made of, in terms of the service that it was made in.
pub record IsIssued (env : Env) (s : Service) (now : ℕ) (draws : Draws) (t : Service)
    (req : PresentationRequest) : Type 0 where
  pub id : req.request_id ≡ draws.request_id
  pub nonce : sprint env (Dict.get "nonce" req.public_inputs) ≡ draws.nonce
  pub audience : sprint env (Dict.get "aud" req.public_inputs) ≡ s.audience
  pub expiry : req.expires_at ≡ unix (now + default_ttl s.ttl)
  pub hash : req.schema_hash ≡ schema_hash env req.schema_json
  pub key : Dict.has req.schema_hash t.vk_cache ≡ true
  pub others :
      (id : String)
      → load id t.store ≡ (if draws.request_id == id then some req else load id s.store)

module _ (env : Env) (s t : Service) (now : ℕ) (draws : Draws) (canon : String) where
  abbrev fresh_request : PresentationRequest
  fresh_request = new_request env t now draws canon (schema_hash env canon)

  new_request-IsIssued :
      ensure_vk_for_schema env s draws.random canon ≡ (t, ok (schema_hash env canon))
      → IsIssued env s now draws (record t { store = save fresh_request t.store }) fresh_request
  unfolding new_request sprint Dict.get
  new_request-IsIssued ensures =
      let only : t ≡ with_caches s t =
        subst (λ u. u ≡ with_caches s u) (ap (λ r. r.0) ensures)
          (ensure_vk_for_schema_only env s draws.random canon) in
      record {
        id = refl;
        nonce = refl;
        audience = ap (λ u. u.audience) only;
        expiry = ap (λ u. unix (now + default_ttl u.ttl)) only;
        hash = refl;
        key =
            subst (λ r. Dict.has (schema_hash env canon) r.0.vk_cache ≡ true) ensures
              (ensured_key env s draws.random canon (schema_hash env canon)
                (ap (λ r. r.1) ensures));
        others = λ id.
            load-save fresh_request id t.store
            ∙ ap (λ u. if draws.request_id == id then some fresh_request else load id u.store) only;
      }

-- A request that is returned has the drawn id and nonce, the server's audience, and the expiry
-- time that the configured duration gives; its hash is that of its schema, for which a verifying
-- key is then cached; and it is the one change to the store.
pub create_request_from_schema_ok :
    (env : Env) (s : Service) (now : ℕ) (draws : Draws) (text : String) (req : PresentationRequest)
    → (create_request_from_schema env s now draws text).1 ≡ ok req
    → IsIssued env s now draws (create_request_from_schema env s now draws text).0 req
create_request_from_schema_ok env s now draws text req h = go (created env s now draws text)
  where
    go :
        Created env s now draws (create_request_from_schema env s now draws text)
        → IsIssued env s now draws (create_request_from_schema env s now draws text).0 req
    go (refused x e) = absurd (cc (ap (λ r. r.1) e))
    go (issued canon t ensures e) =
        let made : fresh_request env s t now draws canon ≡ req = cc (ap (λ r. r.1) e) in
        rw e (
          subst
            (IsIssued env s now draws
              (record t { store = save (fresh_request env s t now draws canon) t.store }))
            made (new_request-IsIssued env s t now draws canon ensures))

-- A call that fails leaves the service as it was.
pub create_request_from_schema_err :
    (env : Env) (s : Service) (now : ℕ) (draws : Draws) (text : String) (x : CreateError)
    → (create_request_from_schema env s now draws text).1 ≡ err x
    → (create_request_from_schema env s now draws text).0 ≡ s
create_request_from_schema_err env s now draws text x h = go (created env s now draws text)
  where
    go :
        Created env s now draws (create_request_from_schema env s now draws text)
        → (create_request_from_schema env s now draws text).0 ≡ s
    go (refused y e) = ap (λ r. r.0) e
    go (issued canon t ensures e) = absurd (cc (ap (λ r. r.1) e))
