-- ===== src/Hub/Manager.antt =====
-- hub.go: HubManager. Package encoding/xml and io are services too; D is what a HubDescription has
-- beside ServiceBusSchema, which the manager neither reads nor writes. Closing the body of an answer
-- acts on the world.
use Prim.Native.String.{◌++◌}
use azure_event_hubs_go.Base.{
  ℕ, String, Bool, false, Option, none, some, List, [], ◌∷◌, ◌==◌, num_eq, if◌then◌else◌,
}
use azure_event_hubs_go.Go.{Outcome, returned, panicked, Result, ok, err, Call, then_call}
use azure_event_hubs_go.Event.{then_outcome}
use azure_event_hubs_go.Namespace.{
  Namespace, ParsedConnection, Environment, new_namespace, namespace_with_connection_string,
  namespace_with_azure_environment, get_https_host_uri,
}
use azure_event_hubs_go.Management.Texts.{ManagementError, format_management_error, xml_doc}
use azure_event_hubs_go.Management.Http
use azure_event_hubs_go.Management.Http.{EntityManager, Web, new_entity_manager}

pub record HubDescription (D : Type 0) : Type 0 where
  pub service_bus_schema : Option String
  pub rest : D

pub record HubContent (D : Type 0) : Type 0 where
  pub type : String
  pub hub_description : HubDescription D

-- Of the embedded *atom.Entry the title and the schema; it is nil where the document sets none of
-- its fields.
pub record AtomEntry : Type 0 where
  pub atom_schema : String
  pub title : String

pub record HubEntry (D : Type 0) : Type 0 where
  pub entry : Option AtomEntry
  pub content : Option (HubContent D)

-- Of the embedded *atom.Feed the title.
pub record HubFeed (D : Type 0) : Type 0 where
  pub feed : Option String
  pub entries : List (HubEntry D)

pub record HubEntity (D : Type 0) : Type 0 where
  pub hub_description : HubDescription D
  pub name : String

-- xml.Marshal and xml.Unmarshal, the text of a number, xml.Header, a reader on bytes, ReadAll and
-- Close of the body of an answer, and its status.
pub record Documents (D B A W : Type 0) : Type 0 where
  pub marshal : HubEntry D → Result String
  pub unmarshal_entry : String → Option (HubEntry D)
  pub unmarshal_feed : String → Option (HubFeed D)
  pub unmarshal_error : String → Option ManagementError
  pub decimal : ℕ → String
  pub header : String
  pub reader : String → B
  pub read_all : A → Call W String
  pub close_body : A → W → W
  pub status_code : A → ℕ

abbrev pub atom_schema : String
atom_schema = "http://www.w3.org/2005/Atom"

abbrev pub service_bus_schema : String
service_bus_schema = "http://schemas.microsoft.com/netservices/2010/10/servicebus/connect"

unfoldable pub manager_of : {P : Type 0} → Result (Namespace P) → Result (EntityManager P)
unfolding get_https_host_uri new_entity_manager
manager_of made = elim made [
  | err e ↦ err e
  | ok ns ↦ ok (new_entity_manager (get_https_host_uri ns) ns.token_provider)
]

unfoldable pub new_hub_manager_from_connection_string :
    {P : Type 0}
    → (String → Result ParsedConnection)
    → (String → String → Result P)
    → String
    → Result (EntityManager P)
unfolding manager_of new_namespace namespace_with_connection_string
new_hub_manager_from_connection_string parse with_key s =
    manager_of (new_namespace (namespace_with_connection_string parse with_key s ∷ []))

unfoldable pub new_hub_manager_from_azure_environment :
    {P : Type 0} → String → P → Environment → Result (EntityManager P)
unfolding manager_of new_namespace namespace_with_azure_environment
new_hub_manager_from_azure_environment namespace provider env =
    manager_of (new_namespace (namespace_with_azure_environment namespace provider env ∷ []))

module _ {D : Type 0} where
  -- Reading through a nil content or a nil entry panics.
  unfoldable pub hub_entry_to_entity : HubEntry D → Outcome (HubEntity D)
  hub_entry_to_entity e = elim e.content [
    | none ↦ panicked
    | some c ↦ elim e.entry [
      | none ↦ panicked
      | some a ↦ returned (record { hub_description = c.hub_description; name = a.title })
    ]
  ]

  -- The loop of List over the entries of a feed.
  unfoldable pub entities : List (HubEntry D) → Outcome (List (HubEntity D))
  unfolding hub_entry_to_entity
  entities [] = returned []
  entities (e ∷ es) =
      then_outcome (hub_entry_to_entity e)
        (λ x. then_outcome (entities es) (λ xs. returned (x ∷ xs)))

module _ {D U B A P W : Type 0} (documents : Documents D B A W) (web : Web U B A P W)
    (em : EntityManager P) where
  unfoldable pub is_empty_feed : String → Outcome Bool
  is_empty_feed b = elim (documents.unmarshal_feed b) [
    | none ↦ returned false
    | some f ↦ elim f.feed [
      | none ↦ panicked
      | some title ↦ returned (title == "Publicly Listed Services")
    ]
  ]

  -- Reads the body of an answer, goes on with it, and closes it, as the deferred call does.
  abbrev pub read_body :
      {X : Type 0} → (String → Outcome (Result X)) → A → W → Outcome (Result X) × W
  read_body go res w =
      let (b, w') = documents.read_all res w in
      (elim b [ err e ↦ returned (err e) | ok text ↦ go text ], documents.close_body res w')

  unfoldable pub delete : String → Call W (Unit {0})
  unfolding Http.delete
  delete name w =
      then_call (Http.delete web em ("/" ++ name) w)
        (λ res w'. (ok tt, documents.close_body res w'))

  abbrev pub bad_document : {X : Type 0} → String → Outcome (Result X)
  bad_document b =
      returned (err (format_management_error documents.decimal documents.unmarshal_error b))

  abbrev pub read_entity : String → Outcome (Result (HubEntity D))
  read_entity b = elim (documents.unmarshal_entry b) [
    | none ↦ bad_document b
    | some entry ↦ then_outcome (hub_entry_to_entity entry) (λ x. returned (ok x))
  ]

  unfoldable pub put : String → HubDescription D → W → Outcome (Result (HubEntity D)) × W
  unfolding Http.put xml_doc format_management_error hub_entry_to_entity
  put name hd w =
      let he : HubEntry D = record {
        entry = some (record { atom_schema = atom_schema; title = "" });
        content = some (record {
          type = "application/xml";
          hub_description = record hd { service_bus_schema = some service_bus_schema };
        });
      } in
      elim (documents.marshal he) [
        | err e ↦ (returned (err e), w)
        | ok bytes ↦
            let (res, w') =
              Http.put web em ("/" ++ name) (documents.reader (xml_doc documents.header bytes)) w in
            elim res [ err e ↦ (returned (err e), w') | ok a ↦ read_body read_entity a w' ]
      ]

  abbrev pub read_feed : String → Outcome (Result (List (HubEntity D)))
  read_feed b = elim (documents.unmarshal_feed b) [
    | none ↦ bad_document b
    | some f ↦ then_outcome (entities f.entries) (λ xs. returned (ok xs))
  ]

  unfoldable pub list : W → Outcome (Result (List (HubEntity D))) × W
  unfolding Http.get format_management_error entities
  list w =
      let (res, w') = Http.get web em "/$Resources/EventHubs" w in
      elim res [ err e ↦ (returned (err e), w') | ok a ↦ read_body read_feed a w' ]

  -- Get, with an entry that has been read or with a document that is none.
  abbrev pub read_optional : String → Outcome (Result (Option (HubEntity D)))
  read_optional b = elim (documents.unmarshal_entry b) [
    | some entry ↦ then_outcome (hub_entry_to_entity entry) (λ x. returned (ok (some x)))
    | none ↦
        then_outcome (is_empty_feed b)
          (λ empty. if empty then returned (ok none) else bad_document b)
  ]

  unfoldable pub get : String → W → Outcome (Result (Option (HubEntity D))) × W
  unfolding Http.get is_empty_feed format_management_error hub_entry_to_entity
  get name w =
      let (res, w') = Http.get web em name w in
      elim res [
        | err e ↦ (returned (err e), w')
        | ok a ↦
            if num_eq (documents.status_code a) 404
            then (returned (ok none), documents.close_body a w')
            else read_body read_optional a w'
      ]
