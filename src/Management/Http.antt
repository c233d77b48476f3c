-- ===== src/Management/Http.antt =====
-- http_mgmt.go: the manager of entities over HTTP. Packages net/http, net/url and encoding/xml and
-- the token provider are services that act on the world; the time-out of the client, the context,
-- spans and logs are left out. U is the type of URLs, B that of bodies, A that of answers.
use azure_event_hubs_go.Base.{String, Option, List, [], ◌∷◌, ◌++◌, ◌==◌, ◌||◌, if◌then◌else◌}
use azure_event_hubs_go.Go.{Result, ok, err, Call, then_call, ◌>>=◌, lift}
use azure_event_hubs_go.Management.Texts.{entity_url}

-- The headers are listed in the order in which they are added.
pub record Request (U B : Type 0) : Type 0 where
  pub method : String
  pub url : U
  pub headers : List (String × String)
  pub body : B

-- http.NewRequest parses a URL; `add_query` sets RawQuery from Query with one more pair; `url_string`
-- is String of a URL; `get_token` gives the Token of GetToken, which panics for a nil provider, but
-- the constructors of a namespace that are in use set one; `do_request` is Do of a client, whose
-- result beside an error is nil; `no_body` is http.NoBody.
pub record Web (U B A P W : Type 0) : Type 0 where
  pub parse_url : String → Result U
  pub add_query : String → String → U → U
  pub url_string : U → String
  pub get_token : Option P → String → Call W String
  pub do_request : Request U B → Call W A
  pub no_body : B

pub record EntityManager (P : Type 0) : Type 0 where
  pub token_provider : Option P
  pub host : String

unfoldable pub new_entity_manager : {P : Type 0} → String → Option P → EntityManager P
new_entity_manager host provider = record { token_provider = provider; host = host }

abbrev pub atom_type : String
atom_type = "application/atom+xml;type=entry;charset=utf-8"

module _ {U B A P W : Type 0} (web : Web U B A P W) where
  unfoldable pub add_atom_xml_content_type : Request U B → Request U B
  add_atom_xml_content_type q =
      if q.method == "GET" || q.method == "HEAD"
      then q
      else record q { headers = q.headers ++ (("content-Type", atom_type) ∷ []) }

  unfoldable pub add_api_version : Request U B → Request U B
  add_api_version q = record q { url = web.add_query "api-version" "2017-04" q.url }

  unfoldable pub add_authorization : EntityManager P → Request U B → Call W (Request U B)
  add_authorization em q = do
    token ← web.get_token em.token_provider (web.url_string q.url)
    lift (ok (record q { headers = q.headers ++ (("Authorization", token) ∷ []) }))

  unfoldable pub execute : EntityManager P → String → String → B → Call W A
  unfolding entity_url add_atom_xml_content_type add_api_version add_authorization
  execute em method path body w = elim (web.parse_url (entity_url em.host path)) [
    | err e ↦ (err e, w)
    | ok u ↦
        let req : Request U B = record { method = method; url = u; headers = []; body = body } in
        then_call (add_authorization em (add_api_version (add_atom_xml_content_type req)) w)
          web.do_request
  ]

  unfoldable pub get : EntityManager P → String → Call W A
  unfolding execute
  get em path = execute em "GET" path web.no_body

  unfoldable pub put : EntityManager P → String → B → Call W A
  unfolding execute
  put em path body = execute em "PUT" path body

  unfoldable pub delete : EntityManager P → String → Call W A
  unfolding execute
  delete em path = execute em "DELETE" path web.no_body

  unfoldable pub post : EntityManager P → String → B → Call W A
  unfolding execute
  post em path body = execute em "POST" path body
