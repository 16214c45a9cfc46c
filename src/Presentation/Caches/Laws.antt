-- ===== src/Presentation/Caches/Laws.antt =====
-- The key caches of system/api/src/zkprequest: they are filled together, and never lose a key.
use digital_identity_system.Prelude.{
  ℕ, String, ◌≡◌, sym, ap, ◌∙◌, inl, inr, true, ◌&&◌, ◌||◌, some, ◌==◌, arith, eq_iff, Result, ok,
  err, Bool-cases, Result-cases,
}
use digital_identity_system.Dict
use digital_identity_system.Dict.{has-put, get-put}
use digital_identity_system.Presentation.Types.{Bytes, Service}
use digital_identity_system.Presentation.Env.{Env}
use digital_identity_system.Presentation.Caches.{
  CreateError, schema_hash, make_keys, store_keys, ensure_vk_for_schema,
}

-- The three caches have the same keys, and every key is the hash of the schema kept under it.
pub record IsCached (env : Env) (s : Service) : Type 0 where
  pub same_pk : (hash : String) → Dict.has hash s.pk_cache ≡ Dict.has hash s.vk_cache
  pub same_schema : (hash : String) → Dict.has hash s.schema_cache ≡ Dict.has hash s.vk_cache
  pub hashed :
      (hash canon : String)
      → Dict.get hash s.schema_cache ≡ some canon
      → hash ≡ schema_hash env canon

-- How a call of `ensureVKForSchema` ends.
pub data Ensured (env : Env) (s : Service) (random : ℕ) (canon : String)
    (r : Service × Result CreateError String) : Type 0 where
  present :
      Dict.has (schema_hash env canon) s.vk_cache ≡ true
      → r ≡ (s, ok (schema_hash env canon))
      → Ensured env s random canon r
  made :
      (keys : Bytes × Bytes)
      → make_keys env random canon ≡ ok keys
      → r ≡ (store_keys env s (schema_hash env canon) canon keys, ok (schema_hash env canon))
      → Ensured env s random canon r
  failed :
      (e : CreateError)
      → make_keys env random canon ≡ err e
      → r ≡ (s, err e)
      → Ensured env s random canon r

module _ (env : Env) (s : Service) (random : ℕ) (canon : String) where
  pub ensured : Ensured env s random canon (ensure_vk_for_schema env s random canon)
  unfolding ensure_vk_for_schema
  ensured =
      let hash = schema_hash env canon in
      elim (Bool-cases (Dict.has hash s.vk_cache && Dict.has hash s.pk_cache)) [
        | inl e ↦ present (ground arith) (simp e)
        | inr e ↦ elim (Result-cases (make_keys env random canon)) [
          | inl (keys, k) ↦ made keys k (simp (e, k))
          | inr (x, k) ↦ failed x k (simp (e, k))
        ]
      ]

  store_keys-IsCached :
      (keys : Bytes × Bytes)
      → IsCached env s
      → IsCached env (store_keys env s (schema_hash env canon) canon keys)
  store_keys-IsCached (vk, pk) c =
      let h = schema_hash env canon in
      record {
        same_pk = λ hash.
            has-put h pk hash s.pk_cache
            ∙ ap (λ t. h == hash || t) (c.same_pk hash)
            ∙ sym (has-put h vk hash s.vk_cache);
        same_schema = λ hash.
            has-put h canon hash s.schema_cache
            ∙ ap (λ t. h == hash || t) (c.same_schema hash)
            ∙ sym (has-put h vk hash s.vk_cache);
        hashed = λ hash kept found. hashed_after hash kept found;
      }
    where
      hashed_after :
          (hash kept : String)
          → Dict.get hash (Dict.put (schema_hash env canon) canon s.schema_cache) ≡ some kept
          → hash ≡ schema_hash env kept
      hashed_after hash kept found = elim (Bool-cases (schema_hash env canon == hash)) [
        | inl e ↦
            let same = (eq_iff (schema_hash env canon) hash).0 e in
            let one : canon ≡ kept =
              ground (arith, get-put (schema_hash env canon) canon hash s.schema_cache) in
            sym same ∙ ap (schema_hash env) one
        | inr e ↦
            c.hashed hash kept
              (ground (arith, get-put (schema_hash env canon) canon hash s.schema_cache))
      ]

  -- If the three caches have the same keys and every cached schema stands under its own hash,
  -- then this still holds after a call of `ensureVKForSchema`, however it ends.
  pub ensure_vk_for_schema-IsCached :
      IsCached env s → IsCached env (ensure_vk_for_schema env s random canon).0
  ensure_vk_for_schema-IsCached c = go ensured
    where
      go :
          Ensured env s random canon (ensure_vk_for_schema env s random canon)
          → IsCached env (ensure_vk_for_schema env s random canon).0
      go (present _ e) = rw e c
      go (made keys _ e) = rw e (store_keys-IsCached keys c)
      go (failed x _ e) = rw e c

  -- A key that was cached stays cached.
  pub ensure_vk_for_schema_keeps :
      (hash : String)
      → Dict.has hash s.vk_cache ≡ true
      → Dict.has hash (ensure_vk_for_schema env s random canon).0.vk_cache ≡ true
  ensure_vk_for_schema_keeps hash h = go ensured
    where
      go :
          Ensured env s random canon (ensure_vk_for_schema env s random canon)
          → Dict.has hash (ensure_vk_for_schema env s random canon).0.vk_cache ≡ true
      go (present _ e) = rw e h
      go (made (vk, pk) _ e) =
          rw e (ground (arith, has-put (schema_hash env canon) vk hash s.vk_cache))
      go (failed x _ e) = rw e h
