-- ===== src/Wallet/Proxy/Tests.antt =====
-- Tests of the proxies of the wallet.
use digital_identity_system.Prelude.{String, ◌≡◌, ◌⊎◌, refl, Result, none, [], ok, err}
use digital_identity_system.Presentation.Handler.{PresentationDescriptor, describe}
use digital_identity_system.Presentation.Samples.{links, busy, issued_request}
use digital_identity_system.Wallet.Url.{normalize_weird_url}
use digital_identity_system.Wallet.Create.Descriptor.{
  descriptor_url, opened, readable, fetch, normalized, decode_body, fetch_descriptor_schema_and_pk,
}
use digital_identity_system.Wallet.Proxy.{
  VerifyProxyRequest, payload_for, handle_verify_proxy, FetchDescriptorResponse,
  handle_fetch_descriptor,
}
use digital_identity_system.Wallet.Proxy.Agrees.{page_gets_descriptor}
use digital_identity_system.Wallet.Samples.{wallet_env, config, web, request}

abbrev asked : VerifyProxyRequest String
asked = record { request_id = "r1"; zkp_blob_b64 = "b"; public_inputs = []; challenge = "" }

-- Empty inputs and challenges are left out of what is posted.
payload_left_out :
    payload_for web asked
    ≡ record { request_id = "r1"; zkp_blob_b64 = "b"; public_inputs = none; challenge = none }
unfolding payload_for
payload_left_out = refl

verify_proxy_relays :
    handle_verify_proxy web
      (λ _. ok tt)
      (λ url body. ok (record { status = 409; headers = []; body = url }))
      config
      (request "POST")
      (ok asked)
    ≡ ok (record { status = 409; headers = []; body = "https://verifier/v1/presentations/verify" })
unfolding handle_verify_proxy
verify_proxy_relays = refl

abbrev print_json : FetchDescriptorResponse → Result String String
print_json out = ok out.schema_json

abbrev served : PresentationDescriptor
served = normalized web (describe wallet_env links busy (issued_request "r1"))

served_r1 : fetch_descriptor_schema_and_pk web config "r1" ≡ ok (served, "{}", "{}")
unfolding fetch_descriptor_schema_and_pk descriptor_url opened readable fetch decode_body normalized
    normalize_weird_url describe
served_r1 = refl

-- An encoder that refuses.
page_gets_nothing :
    handle_fetch_descriptor web (λ _. err "invalid character") config (request "POST") (ok "r1")
    ≡ ok ""
unfolding handle_fetch_descriptor normalize_weird_url describe
page_gets_nothing = refl

page_gets_descriptor_example :
    (raw : String) × (out : FetchDescriptorResponse) × (normalize_weird_url web.trim_space raw
      ≡ served.pk_url)
    × (out ≡ record { descriptor = record served { pk_url = raw }; schema_json = "{}" })
    × (((e : String) × (print_json out ≡ err e)
          × (handle_fetch_descriptor web print_json config (request "POST") (ok "r1") ≡ ok ""))
        ⊎ ((text : String) × (print_json out ≡ ok text)
            × (handle_fetch_descriptor web print_json config (request "POST") (ok "r1") ≡ ok text)))
page_gets_descriptor_example =
    page_gets_descriptor web print_json config (request "POST") "r1" served "{}" "{}" refl refl
      served_r1
