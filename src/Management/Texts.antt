-- ===== src/Management/Texts.antt =====
-- http_mgmt.go: the URL of an entity, the XML document and the text of an error.
use Prim.Native.String.{◌++◌}
use azure_event_hubs_go.Base.{ℕ, String, Option, none, some}
use azure_event_hubs_go.Go.{Error, errors_new}
use azure_event_hubs_go.Go.Text.{trim_prefix}

-- managementError
pub record ManagementError : Type 0 where
  pub code : ℕ
  pub detail : String

-- `decimal` is the text of a number, `parse` the result of xml.Unmarshal without its error.
unfoldable pub format_management_error :
    (ℕ → String) → (String → Option ManagementError) → String → Error
format_management_error decimal parse body = elim (parse body) [
  | none ↦ errors_new body
  | some e ↦ errors_new ("error code: " ++ (decimal e.code ++ (", Details: " ++ e.detail)))
]

-- xml.Header is the first argument.
unfoldable pub xml_doc : String → String → String
xml_doc header content = header ++ content

-- The URL that Execute asks for.
unfoldable pub entity_url : String → String → String
unfolding trim_prefix
entity_url host path = host ++ trim_prefix path "/"
