-- ===== src/Thinking.antt =====
-- What the dashboard makes of the raw text of a model: parseThinking of the chat page
-- (dashboard/src/app/(dashboard)/chat/page.tsx) and that of the notifications
-- (dashboard/src/lib/notifications.tsx), and the clean-up of copyConversation.
pub mod Pieces
pub mod Thoughts
pub mod Replies
mod Tests
use recif.Base.{Option, none, some, List, [], ◌∷◌, ◌++◌, map, drop, if◌then◌else◌}
use recif.Text.{Text, codes, includes, split_last, trim, join}
use recif.Text.Regions.{remove_regions, regions}

-- The object that both functions return.
pub record Parsed : Type 0 where
  pub thinking : Text
  pub content : Text

abbrev pub think_open : Text
think_open = codes "<think>"

abbrev pub think_close : Text
think_close = codes "</think>"

abbrev pub tool_use_open : Text
tool_use_open = codes "<tool_use>"

abbrev pub tool_use_close : Text
tool_use_close = codes "</tool_use>"

abbrev pub tool_result_open : Text
tool_result_open = codes "<tool_result>"

abbrev pub tool_result_close : Text
tool_result_close = codes "</tool_result>"

-- The line of dashes between two thoughts.
abbrev pub separator : Text
separator = codes "\n\n---\n\n"

abbrev pub without_think : Text → Text
without_think = remove_regions think_open think_close

abbrev pub without_tool_use : Text → Text
without_tool_use = remove_regions tool_use_open tool_use_close

abbrev pub without_tool_result : Text → Text
without_tool_result = remove_regions tool_result_open tool_result_close

-- The `if (lastOpen !== -1 && …)` on a `<think>` that is not closed yet. `content` is cut there, and
-- what stands behind the tag is one more thought.
unfoldable pub take_unclosed : List Text → Text → List Text × Text
take_unclosed thoughts content = elim (split_last think_open content) [
  | some (before, from) ↦
      if includes think_close from
      then (thoughts, content)
      else (thoughts ++ trim (drop 7 from) ∷ [], trim before)
  | none ↦ (thoughts, content)
]

-- The thoughts and the content up to the point where the two functions part.
unfoldable pub split_thinking : Text → List Text × Text
split_thinking raw =
    take_unclosed (map trim (regions think_open think_close raw)) (trim (without_think raw))

-- parseThinking of notifications.tsx
unfoldable pub parse_partial : Text → Parsed
parse_partial raw =
    let (thoughts, content) = split_thinking raw in
    record { thinking = join separator thoughts; content = content }

-- The cut at a `<tool_use>` that is not closed yet.
unfoldable pub cut_unclosed_tool : Text → Text
cut_unclosed_tool content = elim (split_last tool_use_open content) [
  | some (before, from) ↦ if includes tool_use_close from then content else trim before
  | none ↦ content
]

unfoldable pub strip_tools : Text → Text
strip_tools content =
    cut_unclosed_tool (trim (without_tool_result (trim (without_tool_use content))))

-- parseThinking of chat/page.tsx
unfoldable pub parse_thinking : Text → Parsed
parse_thinking raw =
    let (thoughts, content) = split_thinking raw in
    record { thinking = join separator thoughts; content = strip_tools content }

-- The text of one message that copyConversation puts on the clipboard.
unfoldable pub clean_content : Text → Text
clean_content content = trim (without_tool_result (without_tool_use (without_think content)))
