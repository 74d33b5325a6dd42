-- ===== src/Schema.antt =====
-- The JSON values that src/vyuu_gateway/virtual_servers/resolver.py reads of a tool's stored schema,
-- and the `Tool` of the MCP SDK that it builds with mcp/sdk_compat.py.
use vyuu_mcp_gateway.Prelude.{String, Option, none, some, ◌≡◌, refl, str_eq, if◌then◌else◌}

mutual
  pub data Json : Type 0 where
    text : String → Json
    object : Fields → Json
    other : Json

  pub data Fields : Type 0 where
    end : Fields
    field : String → Json → Fields → Fields

pub record Tool : Type 0 where
  pub name : String
  pub title : Option String
  pub description : Option String
  pub input_schema : Json
  pub output_schema : Option Json

-- schema_json.get(key)
get_field : Fields → String → Option Json
get_field end key = none
get_field (field name v rest) key =
    let later = get_field rest key in if str_eq name key then some v else later

abbrev or_default : Option Json → Json → Json
or_default none d = d
or_default (some v) d = v

abbrev text_only : Option Json → Option String
text_only (some (text s)) = some s
text_only _ = none

abbrev object_only : Option Json → Option Json
object_only (some (object fields)) = some (object fields)
object_only _ = none

unfoldable pub _to_mcp_tool : String → Fields → Tool
unfolding get_field
_to_mcp_tool name schema_json = record {
  name = name;
  title = text_only (get_field schema_json "title");
  description = text_only (get_field schema_json "description");
  input_schema = or_default (get_field schema_json "inputSchema") (object schema_json);
  output_schema = object_only (get_field schema_json "outputSchema");
}

bare_schema : (_to_mcp_tool "close" (field "title" other end)).title ≡ none
unfolding _to_mcp_tool
bare_schema = refl
