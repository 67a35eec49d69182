-- ===== src/Agent/Tools.antt =====
-- internal/agent/tools.go: tools and their registry. The registry's map is listed in any order.
use Prim.Native.Nat.{Ordering}
use Prim.Native.String.{compare}
use gigi_dc.Prelude.{
  String, ◌==◌, Bool, true, false, Option, none, some, List, [], ◌∷◌, failure, Result, ok, err,
  trim, is_empty, if◌then◌else◌,
}
use gigi_dc.Prelude.Maps.{lookup, insert}
use gigi_dc.Agent.{Request, ToolKind, read, write, other_kind, ToolSpec, ToolCall, ToolResult}
use gigi_dc.Agent.Effects.{History}

pub record Tool : Type 0 where
  pub spec : ToolSpec
  pub execute : History → Request → ToolCall → Result ToolResult

abbrev pub Registry : Type 0
Registry = List (String × Tool)

unfoldable pub normalize_kind : ToolKind → ToolKind
normalize_kind read = read
normalize_kind write = write
normalize_kind (other_kind s) = if trim s == "write" then write else read

unfoldable pub normalize_tool_spec : ToolSpec → ToolSpec
normalize_tool_spec spec = record {
  name = trim spec.name;
  description = trim spec.description;
  kind = normalize_kind spec.kind;
  capability = trim spec.capability;
}

-- A nil tool is `none`.
unfoldable pub register : Registry → Option Tool → Registry
register tools none = tools
register tools (some tool) =
    let name = (normalize_tool_spec tool.spec).name in
    if is_empty name then tools else insert name tool tools

unfoldable pub new_registry : Registry → List (Option Tool) → Registry
new_registry tools [] = tools
new_registry tools (tool ∷ rest) = new_registry (register tools tool) rest

abbrev pub name_lt : ToolSpec → ToolSpec → Bool
name_lt a b = elim (compare a.name b.name) [ Ordering.lt ↦ true | _ ↦ false ]

unfoldable pub insert_sorted : ToolSpec → List ToolSpec → List ToolSpec
insert_sorted spec [] = spec ∷ []
insert_sorted spec (s ∷ ss) =
    let later = insert_sorted spec ss in if name_lt spec s then spec ∷ s ∷ ss else s ∷ later

unfoldable pub specs : Registry → List ToolSpec
specs [] = []
specs ((name, tool) ∷ rest) = insert_sorted (normalize_tool_spec tool.spec) (specs rest)

unfoldable pub lookup_tool : Registry → String → Result (Tool × ToolSpec)
lookup_tool tools raw =
    let name = trim raw in
    if is_empty name then err (failure "tool name is required") else elim (lookup name tools) [
      | none ↦ err (failure "unknown tool")
      | some tool ↦ ok (tool, normalize_tool_spec tool.spec)
    ]
