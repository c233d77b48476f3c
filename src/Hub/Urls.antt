-- ===== src/Hub/Urls.antt =====
-- The URLs and the requests of the manager of hubs (HubManager of hub.go over http_mgmt.go).
use Prim.Native.String.{len, slice, ◌++◌}
use text.Mathlib.Text.{starts_with}
use text.Mathlib.TextPositions.{starts_with-append, slice-append_right, len-append}
use azure_event_hubs_go.Base.{
  refl, ◌==◌, ◌||◌, [], ◌∷◌, inl, inr, Bool-cases, String, ◌≡◌, ◌∙◌, ap, arith, false, some,
  if◌then◌else◌, List, num_eq,
}
use azure_event_hubs_go.Go.{Result, ok, err, Result-cases}
use azure_event_hubs_go.Go.Text.{trim_prefix}
use azure_event_hubs_go.Namespace.{Environment, get_https_host_uri}
use azure_event_hubs_go.Namespace.Addresses.{new_namespace-addresses}
use azure_event_hubs_go.Management.Http
use azure_event_hubs_go.Management.Texts.{entity_url, xml_doc}
use azure_event_hubs_go.Management.Http.{EntityManager, Web}
use azure_event_hubs_go.Hub.Manager
use azure_event_hubs_go.Hub.Manager.{
  Documents, HubDescription, manager_of, new_hub_manager_from_azure_environment,
}

trim_prefix-append : (prefix s : String) → trim_prefix (prefix ++ s) prefix ≡ s
unfolding trim_prefix
trim_prefix-append prefix s = ground (
  arith,
  starts_with-append prefix s,
  ap (λ k. slice (prefix ++ s) (len prefix) k) (len-append prefix s),
  slice-append_right prefix s,
)

module _ {U B A P W : Type 0} (web : Web U B A P W) (em : EntityManager P) where
  -- What Execute sends to a URL that net/url parses, where there is a token for it: the version of
  -- the interface is added to the URL, the token is asked for that URL, and every request but a GET
  -- has a content type.
  execute-sends :
      (method path url : String) (u : U) (provider : P) (t : String) (body : B)
      (headers : List (String × String)) (w : W)
      → entity_url em.host path ≡ url
      → web.parse_url url ≡ ok u
      → em.token_provider ≡ some provider
      → (web.get_token
          (some provider)
          (web.url_string (web.add_query "api-version" "2017-04" u))
          w).0
        ≡ ok t
      → headers ≡ (
          if method == "GET" || method == "HEAD"
          then ("Authorization", t) ∷ []
          else ("content-Type", "application/atom+xml;type=entry;charset=utf-8")
            ∷ ("Authorization", t)
            ∷ [])
      → let u' = web.add_query "api-version" "2017-04" u in
        Http.execute web em method path body w
        ≡ web.do_request
            (record { method = method; url = u'; headers = headers; body = body })
            (web.get_token (some provider) (web.url_string u') w).1
  unfolding Http.execute Http.add_atom_xml_content_type Http.add_api_version Http.add_authorization
  execute-sends method path url u provider t body headers w at parsed held token is =
      elim (Bool-cases (method == "GET" || method == "HEAD")) [
        | inl e ↦ ground arith
        | inr e ↦ ground arith
      ]

module _ {P : Type 0} where
  -- The manager that NewHubManagerFromAzureEnvironment makes, and the URL of a hub at it, which is
  -- the same with a slash before the name and without.
  pub new_hub_manager-urls :
      (namespace : String) (provider : P) (env : Environment) (name : String)
      → starts_with name "/" ≡ false
      → let endpoint =
          "https" ++ (("://" ++ (namespace ++ "." ++ env.service_bus_endpoint_suffix)) ++ "/") in
        (em : EntityManager P) × (new_hub_manager_from_azure_environment namespace provider env
          ≡ ok em)
        × (em.token_provider ≡ some provider)
        × (entity_url em.host ("/" ++ name) ≡ endpoint ++ name)
        × (entity_url em.host name ≡ endpoint ++ name)
  unfolding new_hub_manager_from_azure_environment manager_of entity_url trim_prefix
  new_hub_manager-urls namespace provider env name h =
      let (ns, made, held, audience, amqp, https) =
        new_namespace-addresses namespace provider env name in
      let slashed : trim_prefix ("/" ++ name) "/" ≡ name = trim_prefix-append "/" name in
      let bare : trim_prefix name "/" ≡ name = unfold trim_prefix in ground arith in
      (
        record { token_provider = ns.token_provider; host = get_https_host_uri ns },
        ap manager_of made,
        held,
        ap (λ p. get_https_host_uri ns ++ p) slashed ∙ ap (λ h. h ++ name) https,
        ap (λ p. get_https_host_uri ns ++ p) bare ∙ ap (λ h. h ++ name) https,
      )

module _ {D U B A P W : Type 0} (documents : Documents D B A W) (web : Web U B A P W) where
  -- If the name of a hub does not begin with a slash, net/url parses the HTTPS address of the
  -- namespace with that name, there is a token for the URL and the description can be written as
  -- XML, then the manager that NewHubManagerFromAzureEnvironment makes sends from Delete, Put and
  -- Get, though only the first two write a slash before the name, requests to that one URL, with
  -- the version of the interface added and with the token that was asked for just this URL: DELETE
  -- without a body, PUT with the XML of the description, both with a content type, and GET without
  -- a body. Each closes the body of an answer, which Put and Get have read, unless it says that
  -- there is no such hub to Get. Delete returns the error of the request, if there is one.
  pub new_hub_manager-sends :
      (namespace name : String) (provider : P) (env : Environment) (hd : HubDescription D)
      (bytes t : String) (u : U) (w : W)
      → starts_with name "/" ≡ false
      → web.parse_url (
          ("https" ++ (("://" ++ (namespace ++ "." ++ env.service_bus_endpoint_suffix)) ++ "/"))
          ++ name)
        ≡ ok u
      → (web.get_token
          (some provider)
          (web.url_string (web.add_query "api-version" "2017-04" u))
          w).0
        ≡ ok t
      → documents.marshal (record {
        entry = some (record { atom_schema = "http://www.w3.org/2005/Atom"; title = "" });
        content = some (record {
          type = "application/xml";
          hub_description = record hd {
            service_bus_schema =
                some "http://schemas.microsoft.com/netservices/2010/10/servicebus/connect";
          };
        });
      })
        ≡ ok bytes
      → let u' = web.add_query "api-version" "2017-04" u in
        let w' = (web.get_token (some provider) (web.url_string u') w).1 in
        let content_type : String × String =
          ("content-Type", "application/atom+xml;type=entry;charset=utf-8") in
        let send : String → List (String × String) → B → Result A × W = λ method headers body.
          web.do_request
            (record { method = method; url = u'; headers = headers; body = body })
            w' in
        let (deleted, w1) = send "DELETE" (content_type ∷ ("Authorization", t) ∷ []) web.no_body in
        let (stored, w2) =
          send "PUT"
            (content_type ∷ ("Authorization", t) ∷ [])
            (documents.reader (documents.header ++ bytes)) in
        let (found, w3) = send "GET" (("Authorization", t) ∷ []) web.no_body in
        (em : EntityManager P) × (new_hub_manager_from_azure_environment namespace provider env
          ≡ ok em)
        × (Manager.delete documents web em name w
            ≡ elim deleted [ err e ↦ (err e, w1) | ok a ↦ (ok tt, documents.close_body a w1) ])
        × ((Manager.put documents web em name hd w).1 ≡ elim stored [
          | err e ↦ w2
          | ok a ↦ documents.close_body a (documents.read_all a w2).1
        ])
        × ((Manager.get documents web em name w).1 ≡ elim found [
          | err e ↦ w3
          | ok a ↦
              if num_eq (documents.status_code a) 404
              then documents.close_body a w3
              else documents.close_body a (documents.read_all a w3).1
        ])
  unfolding Manager.delete Manager.put Manager.get Http.delete Http.put Http.get xml_doc
  new_hub_manager-sends namespace name provider env hd bytes t u w h parsed token marshalled =
      let (em, made, held, slashed, bare) = new_hub_manager-urls namespace provider env name h in
      let url =
        ("https" ++ (("://" ++ (namespace ++ "." ++ env.service_bus_endpoint_suffix)) ++ "/"))
        ++ name in
      let with_slash = λ (method : String) (body : B) (headers : List (String × String)).
        execute-sends web em method ("/" ++ name) url u provider t body headers w slashed parsed
          held token in
      let xml = documents.reader (documents.header ++ bytes) in
      let typed : List (String × String) =
        ("content-Type", "application/atom+xml;type=entry;charset=utf-8")
        ∷ ("Authorization", t)
        ∷ [] in
      let deletes = with_slash "DELETE" web.no_body typed refl in
      let puts = with_slash "PUT" xml typed refl in
      let gets =
        execute-sends web em "GET" name url u provider t web.no_body (("Authorization", t) ∷ []) w
          bare parsed held token refl in
      (
        em,
        made,
        elim (Result-cases (Http.execute web em "DELETE" ("/" ++ name) web.no_body w).0) [
          | inl (a, e) ↦ ground arith
          | inr (x, e) ↦ ground arith
        ],
        elim (Result-cases (Http.execute web em "PUT" ("/" ++ name) xml w).0) [
          | inl (a, e) ↦ ground arith
          | inr (x, e) ↦ ground arith
        ],
        elim (Result-cases (Http.execute web em "GET" name web.no_body w).0) [
          | inr (x, e) ↦ ground arith
          | inl (a, e) ↦ elim (Bool-cases (num_eq (documents.status_code a) 404)) [
            | inl n ↦ ground arith
            | inr n ↦ ground arith
          ]
        ],
      )
