-- ===== src/Lib.antt =====
-- The Recif dashboard: a model of the program's own logic in dashboard/src, and what holds of it.
--
-- The dashboard is a Next.js application that talks over HTTP to the API server. Its core is the chat
-- page, which streams an agent's answer event by event, beside pages that manage agents, knowledge
-- bases and tools. React components are modelled by their state as a record and one function for each
-- handler; an updater that is passed to a state setter is applied where it is passed. What the server
-- sends is a parameter of every function that asks it.
--
-- - Base, Base/Tests, Base/Lists: names of the libraries, tests on numbers, and array operations.
-- - Text and its children: strings as lists of UTF-16 code units, with encodeURIComponent and the
--   methods of String that the
--   source calls (trim, includes, lastIndexOf, replace with a lazy pattern, String(n)), and their laws.
-- - Maps, Maps/Keys: Map with strings as keys. Json: the values that are passed on.
-- - Thinking: parseThinking of dashboard/src/app/(dashboard)/chat/page.tsx (parse_thinking) and of
--   dashboard/src/lib/notifications.tsx (parse_partial), and the clean-up in copyConversation
--   (clean_content). Thinking/Pieces describes a reply as a list of pieces, and Thinking/Thoughts and
--   Thinking/Replies compare the code with it.
-- - Chat: the chat page. Chat/Events has the reaction to each event of a stream (handle_event),
--   Chat/Stream the reading loop (feed_all, finalize), Chat/Send sendMessage (send_message),
--   Chat/Conversations the other handlers, Chat/Compare the compare mode. The proofs are in
--   Chat/Framing (chunks and lines), Chat/Rule, Chat/Frame, Chat/Views and Chat/Transcript (what a
--   stream leaves alone), Chat/Stale (a stream that was left), Chat/Tokens and Chat/Streamed (an
--   answer of tokens), Chat/Outcome and Chat/Refused (how sending ends), Chat/Restore (loading),
--   Chat/Poll (the interval behind it) and Chat/Lock (when the input is locked).
-- - Session: dashboard/src/lib/auth.ts and dashboard/src/middleware.ts. Api: the client of
--   dashboard/src/lib/api.ts, where each function is an endpoint that `call` runs; the endpoints are
--   in Api/Agents, Api/Catalog, Api/Evaluations, Api/Platform, Api/Prompts and
--   Api/Teams.
-- - Notifications: the provider of dashboard/src/lib/notifications.tsx; Notifications/Ids and
--   Notifications/Store are about its list, Notifications/Poll about its polling loop.
-- - Knowledge: dashboard/src/app/(dashboard)/knowledge/[id]/page.tsx, its uploads
--   (Knowledge/Uploads), with what the user does to the queue meanwhile (Knowledge/Shifted), and its poll
--   (Knowledge/Polling).
-- - Wizard: dashboard/src/app/(dashboard)/agents/new/page.tsx. Wizard/Moves has the steps of a user,
--   Wizard/Order, Wizard/Complete and Wizard/Review what they lead to, Wizard/Provider the choice of a
--   provider and a model (handleProviderChange, fetchOllamaModels), Wizard/Suggested the name of the repository, Wizard/Scaffold the creation of a
--   custom agent.
-- - AgentPage: dashboard/src/app/(dashboard)/agents/[id]/page.tsx; AgentPage/Loading is about loadAgent,
--   AgentPage/Actions about handleAgentAction and handleScale, AgentPage/Lines and AgentPage/Manifest
--   about buildAgentYaml. AgentPage/Chat has the chat tab of that page as events of streams that may
--   overlap, AgentPage/Config the form of the configuration (handleConfigSave), against
--   applyConfigToAgent of internal/agent/config_handler.go, AgentPage/Evaluation
--   the choice of two runs, AgentPage/Releases the handlers of the releases and of the canary. Tools: the pages of the tools,
--   dashboard/src/app/(dashboard)/tools/page.tsx and tools/new/page.tsx. Tables:
--   dashboard/src/components/agui/data-table.tsx. Evaluations:
--   dashboard/src/app/(dashboard)/evaluations/page.tsx, toggleCompare in Evaluations/Toggle, and loadRuns
--   and handleTrigger in Evaluations/Runs.
-- - Skills: dashboard/src/app/(dashboard)/skills/page.tsx. Skills/Modal is about the dialogue of a
--   skill, Skills/Editor about its files, Skills/Import
--   about the import tab, Skills/Panel about the agents that have it: there the server
--   is a type of states with the list of its agents and a PUT of the skills of one, of which Keeps in
--   Skills/Panel/Clicks assumes that a PUT that succeeds changes that agent and no other.
-- - Memory: dashboard/src/app/(dashboard)/memory/page.tsx, against a server that is a record of what it
--   lists, finds, stores and removes (MemoryServer); Memory/Served and Memory/Counts are about what is
--   shown. Integrations: dashboard/src/app/(dashboard)/integrations/page.tsx; Integrations/Draft is about
--   what its dialogue sends.
-- - Teams: dashboard/src/app/(dashboard)/teams/page.tsx against a server (TeamServer, MemberServer);
--   Teams/Open and Teams/Expanded are about the team that is open, Teams/Panel about its members.
-- - Components: small components of dashboard/src: Components/Diagram (autoLayout of
--   components/agui/flow-diagram.tsx), Components/Palette (components/custom/command-palette.tsx),
--   Components/Theme (lib/theme.tsx), Components/Age (timeAgo of
--   components/custom/notification-bell.tsx).
-- - Widget: the embedded chat, widget/src/app.tsx; Widget/Settled is about its messages and
--   Widget/Output about the text that it takes out of a response.
--
-- The chat page registers conversations with the notifications by watchGeneration, which the field
-- `watched` of ChatPage records; the notifications answer by their own poll. The API client and the
-- middleware share the token of Session.
--
-- All loops of the source that are modelled go through a list, so the functions are structural
-- recursions. Three functions run on fuel: the printing of a number, with one more than the number, which
-- has fewer digits than that, loadAgent, with its ten rounds, and the square root of a diagram, with
-- the number itself, as n ≤ n * n.
--
-- Simplifications: numbers that are only passed on stand as text; JSON.parse is a parameter; a
-- message is sent in one step, so that what the user does while it streams is covered by the laws on
-- a stream that was left and not by an interleaving; a round of polling runs without
-- interruption; on the pages of skills, memories, teams, integrations and evaluations and in the tab of the
-- releases a request is answered before the next act, where the text of a module does not say otherwise.
-- Not modelled: rendering, the pages that only list and show, and the server.
pub mod Base
pub mod Text
pub mod Json
pub mod Thinking
pub mod Chat
pub mod Session
pub mod Skills
pub mod Api
pub mod Maps
pub mod Notifications
pub mod Knowledge
pub mod Wizard
pub mod Tables
pub mod Evaluations
pub mod Tools
pub mod AgentPage
pub mod Components
pub mod Integrations
pub mod Memory
pub mod Teams
pub mod Widget
