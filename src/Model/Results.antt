-- ===== src/Model/Results.antt =====
-- model/human_handoff.go and model/status_codes.go: the results of tools. Of the values of Go's `any`
-- in a structured content, texts and Booleans are told apart.
use Prim.Native.String.{◌++◌}
use mcpplane.Common.{
  refl, ◌∙◌, lookup-insert, ◌≡◌, arith, String-discrete, String, Bool, true, false, Option, some,
  [], if◌then◌else◌, Dict, lookup, insert, str_eq, not,
}

pub data Value : Type 0 where
  text : String → Value
  flag : Bool → Value
  opaque : Value

-- StructuredContent: a map, or something else.
pub data Content : Type 0 where
  fields : Dict Value → Content
  not_a_map : Content

pub record ToolResult : Type 0 where
  pub is_error : Bool
  pub message : String
  pub structured_content : Content

pub record NeedsHuman : Type 0 where
  pub reason : String
  pub action_url : String
  pub handle : String
  pub resume_tool : String
  pub detail : String
  pub in_use : Bool
  pub revoke_tool : String

abbrev pub status_needs_human : String
status_needs_human = "needs_human"

abbrev pub reason_credential_entry : String
reason_credential_entry = "credential_entry"

abbrev pub reason_interactive_only : String
reason_interactive_only = "interactive_only"

-- if v != "" { sc[key] = v }
abbrev put_text : String → String → Dict Value → Dict Value
put_text key v sc = if str_eq v "" then sc else insert key (text v) sc

abbrev put_flag : String → Bool → Dict Value → Dict Value
put_flag key b sc = if b then insert key (flag true) sc else sc

unfoldable pub needs_human_fields : NeedsHuman → Dict Value
needs_human_fields n = put_text "revoke_tool" n.revoke_tool (
    put_flag "in_use" n.in_use (
      put_text "detail" n.detail (
        put_text "resume_tool" n.resume_tool (
          put_text "handle" n.handle (
            put_text "action_url" n.action_url
              (insert "reason" (text n.reason) (insert "status" (text status_needs_human) [])))))))

abbrev unless_empty : String → String → String
unless_empty v t = if str_eq v "" then "" else t

-- The rendering of needsHumanTextTemplate.
unfoldable pub needs_human_text : NeedsHuman → String
needs_human_text n =
    "needs_human: "
    ++ (n.reason
        ++ (unless_empty n.action_url (" - open " ++ n.action_url)
            ++ (unless_empty n.resume_tool (
                  " (resume with "
                  ++ (n.resume_tool ++ (unless_empty n.handle ("; handle " ++ n.handle) ++ ")")))
                ++ (unless_empty n.revoke_tool
                      (" - use " ++ (n.revoke_tool ++ " to revoke the in-progress flow"))
                    ++ unless_empty n.detail (" - " ++ n.detail)))))

unfoldable pub needs_human_result : NeedsHuman → ToolResult
unfolding needs_human_fields needs_human_text
needs_human_result n = record {
  is_error = false;
  message = needs_human_text n;
  structured_content = fields (needs_human_fields n);
}

-- sc["status"].(string), or "" if that is no text.
abbrev pub status_text : Option Value → String
status_text (some (text s)) = s
status_text _ = ""

-- handoff/handoff_registry.go: isTerminalResume
unfoldable pub is_terminal_content : Content → Bool
is_terminal_content not_a_map = false
is_terminal_content (fields sc) =
    let status : String = status_text (lookup "status" sc) in
    if str_eq status "" then false else not (str_eq status status_needs_human)

put_text-status :
    (key v : String) (sc : Dict Value)
    → str_eq key "status" ≡ false
    → lookup "status" (put_text key v sc) ≡ lookup "status" sc
put_text-status key v sc n = ground (arith, lookup-insert key "status" (text v) sc)

put_flag-status :
    (key : String) (b : Bool) (sc : Dict Value)
    → str_eq key "status" ≡ false
    → lookup "status" (put_flag key b sc) ≡ lookup "status" sc
put_flag-status key b sc n = ground (arith, lookup-insert key "status" (flag true) sc)

needs_human_fields-status :
    (n : NeedsHuman) → lookup "status" (needs_human_fields n) ≡ some (text status_needs_human)
unfolding needs_human_fields String-discrete lookup insert
needs_human_fields-status n =
    let sc : Dict Value =
      insert "reason" (text n.reason) (insert "status" (text status_needs_human) []) in
    let sc1 : Dict Value = put_text "action_url" n.action_url sc in
    let sc2 : Dict Value = put_text "handle" n.handle sc1 in
    let sc3 : Dict Value = put_text "resume_tool" n.resume_tool sc2 in
    let sc4 : Dict Value = put_text "detail" n.detail sc3 in
    let sc5 : Dict Value = put_flag "in_use" n.in_use sc4 in
    put_text-status "revoke_tool" n.revoke_tool sc5 refl
    ∙ put_flag-status "in_use" n.in_use sc4 refl
    ∙ put_text-status "detail" n.detail sc3 refl
    ∙ put_text-status "resume_tool" n.resume_tool sc2 refl
    ∙ put_text-status "handle" n.handle sc1 refl
    ∙ put_text-status "action_url" n.action_url sc refl

-- A hand-off is never terminal.
pub needs_human_pending :
    (n : NeedsHuman) → is_terminal_content (needs_human_result n).structured_content ≡ false
unfolding needs_human_result is_terminal_content String-discrete
needs_human_pending n = rw (needs_human_fields-status n) refl
