-- ===== src/Wallet/Proxy/Agrees.antt =====
-- What a page of the wallet gets of a request, against what the wallet proves
-- (internal/app/handlers/zkp_descriptor.go and zkp_prove.go).
use digital_identity_system.Prelude.{
  ℕ, String, ◌≡◌, ◌⊎◌, refl, ap, ◌∙◌, inl, inr, false, not, ◌==◌, eqb, Result, ok, err, Bool-cases,
  Result-cases, >>=-eq-ok, guard, guard-eq-ok, not-eq-true,
}
use digital_identity_system.Presentation.Handler.{PresentationDescriptor}
use digital_identity_system.Presentation.Verify.{◌⧺◌}
use digital_identity_system.Wallet.{Config, HttpRequest}
use digital_identity_system.Wallet.Url.{normalize_weird_url}
use digital_identity_system.Wallet.Create.{refused}
use digital_identity_system.Wallet.Create.Descriptor.{
  Web, descriptor_url, opened, readable, fetch, normalized, decode_body,
  fetch_descriptor_schema_and_pk,
}
use digital_identity_system.Wallet.Proxy.{
  FetchDescriptorResponse, body_of, descriptor_of, repaired, fetch_descriptor, written,
  handle_fetch_descriptor,
}

module _ (web : Web) where
  opened-ok :
      (what : String) (answer : Result String (ℕ × Result String String))
      {body : Result String String}
      → opened web what answer ≡ ok body
      → body_of web what answer ≡ ok body
  unfolding opened body_of
  opened-ok what (err e) h = absurd (cc h)
  opened-ok what (ok (code, body)) h = elim (Bool-cases (eqb code 200)) [
    | inl e ↦ simp e (cc (simp e at h))
    | inr e ↦ absurd (cc (simp e at h))
  ]

  decode_body-ok :
      (body : Result String String) {desc : PresentationDescriptor}
      → decode_body web body ≡ ok desc
      → descriptor_of web body ≡ ok desc
  unfolding decode_body descriptor_of
  decode_body-ok (err e) h = absurd (cc h)
  decode_body-ok (ok body) h = elim (Result-cases (web.decode_descriptor body)) [
    | inl (d, e) ↦ e ∙ cc (rw (e, decode_body) at h)
    | inr (why, e) ↦ absurd (cc (rw (e, decode_body) at h))
  ]

  readable-eq-ok :
      (words : String) (body : Result String String) {text : String}
      → readable web words body ≡ ok text
      → body ≡ ok text
  unfolding readable
  readable-eq-ok words (err e) h = absurd (cc h)
  readable-eq-ok words (ok body) h = h

  fetch-ok :
      (what url : String) {text : String}
      → fetch web what url ≡ ok text
      → (body : Result String String) × (body_of web what (web.get url) ≡ ok body)
        × (body ≡ ok text)
  unfolding fetch
  fetch-ok what url h =
      let (body, got, read) = >>=-eq-ok (opened web what (web.get url)) _ h in
      (body, opened-ok what (web.get url) got, readable-eq-ok (what ⧺ " read: ") body read)

  fetched :
      (config : Config) (id schema : String) (body answer : Result String String)
      (desc : PresentationDescriptor)
      → body_of web "descriptor" (web.get (descriptor_url web config id)) ≡ ok body
      → descriptor_of web body ≡ ok desc
      → (web.trim_space (repaired web desc).schema_uri == "") ≡ false
      → body_of web "schema" (web.get (repaired web desc).schema_uri) ≡ ok answer
      → answer ≡ ok schema
      → fetch_descriptor web config id
        ≡ ok (record { descriptor = repaired web desc; schema_json = schema })
  unfolding fetch_descriptor refused
  fetched config id schema body answer desc got decoded filled opened read =
      rw (got, fetch_descriptor) (rw decoded (rw filled (rw opened (rw read refl))))

  fetch_descriptor_agrees :
      (config : Config) (id : String) (desc : PresentationDescriptor) (schema pk : String)
      → fetch_descriptor_schema_and_pk web config id ≡ ok (desc, schema, pk)
      → (raw : String) × (normalize_weird_url web.trim_space raw ≡ desc.pk_url)
        × (fetch_descriptor web config id
            ≡ ok (record { descriptor = record desc { pk_url = raw }; schema_json = schema }))
  unfolding fetch_descriptor_schema_and_pk normalized repaired
  fetch_descriptor_agrees config id desc schema pk h =
      let (body, e1, h1) =
        >>=-eq-ok (opened web "descriptor" (web.get (descriptor_url web config id))) _ h in
      let (decoded, e2, h2) = >>=-eq-ok (decode_body web body) _ h1 in
      let (_, e3, h3) =
        >>=-eq-ok
          (guard (not (web.trim_space (normalized web decoded).schema_uri == ""))
            "descriptor has empty schema.uri")
          _ h2 in
      let (_, e4, h4) =
        >>=-eq-ok
          (guard (not (web.trim_space (normalized web decoded).pk_url == ""))
            "descriptor has empty artifacts.pk_url")
          _ h3 in
      let (text, e5, h5) =
        >>=-eq-ok (fetch web "schema" (normalized web decoded).schema_uri) _ h4 in
      let (key, e6, h6) = >>=-eq-ok (fetch web "pk" (normalized web decoded).pk_url) _ h5 in
      let (answer, got, read) = fetch-ok "schema" (normalized web decoded).schema_uri e5 in
      let mine : PresentationDescriptor × String × String = (normalized web decoded, text, key) in
      let same : mine ≡ (desc, schema, pk) = cc h6 in
      (
        decoded.pk_url,
        ap (λ p. p.0.pk_url) same,
        fetched config id text body answer decoded (opened-ok "descriptor" _ e1)
              (decode_body-ok body e2) (not-eq-true _ (guard-eq-ok _ _ e3)) got read
            ∙ ap
                (λ p. ok (record {
                  descriptor = record p.0 { pk_url = decoded.pk_url };
                  schema_json = p.1;
                }))
                same,
      )

  -- Let a page ask for the descriptor of a request by POST, and let the wallet be able to fetch the
  -- descriptor, schema and proving key of that request for a proof. Then the page gets the JSON of
  -- the same schema and the same descriptor, but for the address of the proving key, which is as
  -- the verifier wrote it; and it gets an empty answer, still with status 200, if encoding/json
  -- refuses to encode them, as it does for a schema that is not JSON.
  pub page_gets_descriptor :
      (encode : FetchDescriptorResponse → Result String String) (config : Config) (r : HttpRequest)
      (named : String) (desc : PresentationDescriptor) (schema pk : String)
      → r.method ≡ "POST"
      → (web.trim_space named == "") ≡ false
      → fetch_descriptor_schema_and_pk web config (web.trim_space named) ≡ ok (desc, schema, pk)
      → (raw : String) × (out : FetchDescriptorResponse) × (normalize_weird_url web.trim_space raw
          ≡ desc.pk_url)
        × (out ≡ record { descriptor = record desc { pk_url = raw }; schema_json = schema })
        × (((e : String) × (encode out ≡ err e)
              × (handle_fetch_descriptor web encode config r (ok named) ≡ ok ""))
            ⊎ ((text : String) × (encode out ≡ ok text)
                × (handle_fetch_descriptor web encode config r (ok named) ≡ ok text)))
  unfolding handle_fetch_descriptor refused written
  page_gets_descriptor encode config r named desc schema pk post filled h =
      let (raw, repaired, got) =
        fetch_descriptor_agrees config (web.trim_space named) desc schema pk h in
      let out : FetchDescriptorResponse = record {
        descriptor = record desc { pk_url = raw };
        schema_json = schema;
      } in
      let answer : handle_fetch_descriptor web encode config r (ok named)
          ≡ ok (written (encode out)) =
        (rw (post, filled, got, handle_fetch_descriptor) refl) in
      (
        raw,
        out,
        repaired,
        refl,
        elim (Result-cases (encode out)) [
          | inl (text, e) ↦ inr (text, e, answer ∙ ap (λ x. ok (written x)) e)
          | inr (why, e) ↦ inl (why, e, answer ∙ ap (λ x. ok (written x)) e)
        ],
      )
