-- ===== src/Sdk/AppTools.antt =====
-- sdk/apps_registry.go: the registration of app tools. A `_meta` map holds texts and ui blocks; the adapter
-- that the host installs is a function that says whether it accepts a tool on a server, and the
-- tools that it has accepted are a list, the last one first.
use mcpplane.Common.{
  String, Bool, Option, none, some, List, [], ◌∷◌, if◌then◌else◌, Dict, insert, str_eq,
}

pub record AppToolMeta : Type 0 where
  pub resource_uri : String
  pub visibility : List String

pub data MetaValue : Type 0 where
  text : String → MetaValue
  ui_block : AppToolMeta → MetaValue

-- The fields that the registration reads or changes; the others go to the adapter with them.
pub record ToolDescriptor : Type 0 where
  pub name : String
  pub meta : Dict MetaValue

abbrev pub Registrar : Type 0
Registrar = String → ToolDescriptor → Bool

pub record Tools : Type 0 where
  pub registrar : Option Registrar
  pub accepted : List (String × ToolDescriptor)

pub data ToolError : Type 0 where
  nil_server no_resource_uri no_registrar registrar_failed : ToolError

unfoldable pub marshal_tool_meta : AppToolMeta → Option (Dict MetaValue)
marshal_tool_meta meta =
    if str_eq meta.resource_uri ""
    then none
    else some (
        ("ui", ui_block meta)
        ∷ ("ui/resourceUri", text meta.resource_uri)
        ∷ ("openai.outputTemplate", text meta.resource_uri)
        ∷ [])

-- for k, v := range attached { desc.Meta[k] = v }
unfoldable pub extend : Dict MetaValue → Dict MetaValue → Dict MetaValue
extend [] meta = meta
extend ((k, v) ∷ attached) meta = extend attached (insert k v meta)

-- getToolRegistrar, called on a tool.
unfoldable pub call_registrar : String → ToolDescriptor → Tools → Option ToolError × Tools
call_registrar srv desc tools = elim tools.registrar [
  | none ↦ (some no_registrar, tools)
  | some f ↦
      if f srv desc
      then (none, record tools { accepted = (srv, desc) ∷ tools.accepted })
      else (some registrar_failed, tools)
]

unfoldable pub register_app_tool :
    Option String → ToolDescriptor → AppToolMeta → Tools → Option ToolError × Tools
unfolding marshal_tool_meta extend call_registrar
register_app_tool none desc meta tools = (some nil_server, tools)
register_app_tool (some srv) desc meta tools = elim (marshal_tool_meta meta) [
  | none ↦ (some no_resource_uri, tools)
  | some attached ↦ call_registrar srv (record desc { meta = extend attached desc.meta }) tools
]
