-- ===== src/Wallet/Create/Submits.antt =====
-- What the wallet submits to a verifier.
use digital_identity_system.Prelude.{
  ℕ, String, ◌≡◌, refl, ap, ◌∙◌, inl, inr, true, not, ◌&&◌, ◌||◌, Option, none, some, List, [], ◌∷◌,
  ◌==◌, if◌then◌else◌, is_empty, map, All, Result, ok, err, >>=-eq-ok, eq_iff, arith, Bool-cases,
  Result-cases, Option-cases,
}
use digital_identity_system.Dict
use digital_identity_system.Dict.{Dict, get-put}
use digital_identity_system.Schema.{SchemaDefinition, parse_schema_with}
use digital_identity_system.Circuit.Values.{Host, text}
use digital_identity_system.Presentation.Types.{Bytes}
use digital_identity_system.Presentation.Env.{Env}
use digital_identity_system.Presentation.Package.{ZkpResult, serialize_borsh}
use digital_identity_system.Presentation.Handler.{PresentationDescriptor}
use digital_identity_system.Wallet.Store.{VerifiableCredential}
use digital_identity_system.Wallet.Claims.{
  Claim, leaf, Reader, is_bound, assign_all, bind, missing, public_inputs,
}
use digital_identity_system.Wallet.Claims.Reference.{
  names, names_public, first_value, assign_all_reference, get-public_inputs, missing-eq-nil_iff,
}
use digital_identity_system.Wallet.Proving.{Prover, prove_dynamic_from_schema}
use digital_identity_system.Wallet.Create.{
  Submission, Verifier, refused, assignments_for, prove_and_pack, assign_and_prove, submission_for,
}

module _ {F : Type 0} where
  get-bind :
      (own value : String) (schema : SchemaDefinition) (m : Dict (Claim F)) (name : String)
      → Dict.get name (bind own value schema m) ≡ (
          if own == name && (Dict.has own schema.field_index && not (value == ""))
          then some (leaf (text value))
          else Dict.get name m)
  unfolding bind
  get-bind own value schema m name = ground (arith, get-put own (leaf (text value)) name m)

  -- The specification of one value: of the descriptor for its two names, of the credentials else.
  abbrev pub expected :
      Reader F → PresentationDescriptor → SchemaDefinition → List String → String → Option (Claim F)
  expected reader desc schema raws name =
      if name == "aud"
      then (if Dict.has "aud" schema.field_index && not (desc.audience == "")
          then some (leaf (text desc.audience))
          else none)
      else if name == "nonce"
      then (if Dict.has "nonce" schema.field_index && not (desc.nonce == "")
          then some (leaf (text desc.nonce))
          else none)
      else if names name schema.fields
      then first_value reader raws name
      else none

  get-assignments_for :
      (reader : Reader F) (desc : PresentationDescriptor) (schema : SchemaDefinition)
      (raws : List String) (name : String)
      → Dict.get name (assignments_for reader desc schema raws)
        ≡ expected reader desc schema raws name
  unfolding assignments_for is_bound
  get-assignments_for reader desc schema raws name = ground (
    arith,
    get-bind "nonce" desc.nonce schema
        (bind "aud" desc.audience schema (assign_all reader schema.fields raws [])) name,
    get-bind "aud" desc.audience schema (assign_all reader schema.fields raws []) name,
    assign_all_reference reader schema.fields raws name,
    eq_iff name "aud",
    eq_iff name "nonce",
    eq_iff "aud" name,
    eq_iff "nonce" name,
    eq_iff "nonce" "aud",
  )

eq_nil {ℓ} : {A : Type ℓ} (xs : List A) → is_empty xs ≡ true → xs ≡ []
eq_nil [] h = refl
eq_nil (x ∷ xs) h = absurd (cc h)

pub refused-eq-ok :
    {E : Type 0} {A : Type 0} (code : ℕ) (words : String) (print : E → String) (r : Result E A)
    {a : A}
    → refused code words print r ≡ ok a
    → r ≡ ok a
unfolding refused
refused-eq-ok code words print (err e) h = absurd (cc h)
refused-eq-ok code words print (ok a) h = cc h

module _ (env : Env) (prover : Prover env) (host : Host env.Float) (reader : Reader env.Float)
    (verifier : Verifier env.Float) (listed : List VerifiableCredential)
    (desc : PresentationDescriptor) (schema_json pk_bytes : String) where
  abbrev pub raws : List String
  raws = map (λ vc. vc.raw) listed

  -- A submission that answers the descriptor under a schema: its ids are the descriptor's; every
  -- field of the schema but `aud` and `nonce` has a value in some credential; the proof is one for
  -- these values; and the public inputs are the values of the public fields and nothing else.
  pub record Answers (schema : SchemaDefinition) (sub : Submission env.Float) : Type 0 where
    pub parsed : parse_schema_with env.unmarshal_schema schema_json ≡ ok schema
    pub same_request : sub.request_id ≡ desc.request_id
    pub same_challenge : sub.challenge ≡ desc.challenge
    pub complete :
        All
          (λ field.
            (is_bound field.name || Dict.has field.name (assignments_for reader desc schema raws))
            ≡ true)
          schema.fields
    pub proven :
        (result : ZkpResult env.Proof env.Witness) × (blob : Bytes) × (prove_dynamic_from_schema env
            prover host schema_json
            (assignments_for reader desc schema raws)
            pk_bytes
          ≡ ok result)
        × (serialize_borsh env.codec result ≡ some blob)
        × (sub.zkp_blob_b64 ≡ verifier.base64_encode blob)
    pub disclosed :
        (name : String)
        → Dict.get name sub.public_inputs ≡ (
            if names_public name schema.fields then expected reader desc schema raws name else none)

  prove_and_pack_answers :
      (schema : SchemaDefinition) (assignments : Dict (Claim env.Float))
      {sub : Submission env.Float} {size : ℕ}
      → prove_and_pack env prover host reader verifier desc schema schema_json pk_bytes assignments
        ≡ ok (sub, size)
      → (result : ZkpResult env.Proof env.Witness) × (blob : Bytes) × (prove_dynamic_from_schema env
            prover host schema_json assignments pk_bytes
          ≡ ok result)
        × (serialize_borsh env.codec result ≡ some blob)
        × (sub ≡ record {
          request_id = desc.request_id;
          zkp_blob_b64 = verifier.base64_encode blob;
          public_inputs = public_inputs schema.fields assignments;
          challenge = desc.challenge;
        })
  unfolding prove_and_pack
  prove_and_pack_answers schema assignments h =
      elim (Result-cases
        (prove_dynamic_from_schema env prover host schema_json assignments pk_bytes)) [
          | inr (e, bad) ↦ absurd (cc (rw (bad, prove_and_pack, refused) at h))
          | inl (result, good) ↦ elim (Option-cases (serialize_borsh env.codec result)) [
            | inl bad ↦ absurd (cc (rw (good, prove_and_pack, refused, bad) at h))
            | inr (blob, packed) ↦
                (result, blob, good, packed, cc (rw (good, prove_and_pack, refused, packed) at h))
          ]
        ]

  -- Why a submission is built: the values that it rests on are complete.
  assign_and_prove_answers :
      (schema : SchemaDefinition) {sub : Submission env.Float} {size : ℕ}
      → assign_and_prove env prover host reader verifier listed desc schema_json pk_bytes schema
        ≡ ok (sub, size)
      → let assignments = assignments_for reader desc schema raws in
        (missing schema.fields assignments ≡ [])
        × (prove_and_pack env prover host reader verifier desc schema schema_json pk_bytes
              assignments
            ≡ ok (sub, size))
  unfolding assign_and_prove
  assign_and_prove_answers schema h =
      let assignments = assignments_for reader desc schema raws in
      elim (Bool-cases (is_empty listed)) [
        | inl none_there ↦ absurd (cc (simp none_there at h))
        | inr some_there ↦ elim (Bool-cases (is_empty (missing schema.fields assignments))) [
          | inl complete ↦ (
            eq_nil (missing schema.fields assignments) complete,
            simp (some_there, complete) at h,
          )
          | inr absent ↦ absurd (cc (simp (some_there, absent) at h))
        ]
      ]

  -- A submission that is built answers the descriptor.
  pub submission_for-Answers :
      (sub : Submission env.Float) (size : ℕ)
      → submission_for env prover host reader verifier listed desc schema_json pk_bytes
        ≡ ok (sub, size)
      → (schema : SchemaDefinition) × Answers schema sub
  unfolding submission_for
  submission_for-Answers sub size h =
      let parse =
        refused 400 "schema parse failed: " verifier.schema_error
          (parse_schema_with env.unmarshal_schema schema_json) in
      let (schema, parsed, rest) =
        >>=-eq-ok parse
          (assign_and_prove env prover host reader verifier listed desc schema_json pk_bytes) h in
      let (complete, packed) = assign_and_prove_answers schema rest in
      let assignments = assignments_for reader desc schema raws in
      let (result, blob, proven, serialized, e) =
        prove_and_pack_answers schema assignments packed in
      (
        schema,
        record {
          parsed = refused-eq-ok 400 "schema parse failed: " verifier.schema_error _ parsed;
          same_request = ap (λ x. x.request_id) e;
          same_challenge = ap (λ x. x.challenge) e;
          complete = (missing-eq-nil_iff schema.fields assignments).0 complete;
          proven = (result, blob, proven, serialized, ap (λ x. x.zkp_blob_b64) e);
          disclosed = λ name.
              ap (λ x. Dict.get name x.public_inputs) e
              ∙ get-public_inputs schema.fields assignments name
              ∙ ap (λ v. if names_public name schema.fields then v else none)
                  (get-assignments_for reader desc schema raws name);
        },
      )
