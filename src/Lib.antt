-- ===== src/Lib.antt =====
-- WAI is a proxy for language models with a Python server and a dashboard in TypeScript. This
-- library models the dashboard's own logic, under ui/src: the rules that decide what a user may see
-- and do, and the state machines behind its pages.
--
-- The parts and how they meet:
-- - Access: hooks/usePermissions.ts. The signed-in user (hooks/useMe.ts) is turned into a role, its
--   rank, and one flag for each capability (`derivePermissions`). Members, Navigation, Mcp and Keys
--   take these roles, ranks or flags as their input.
-- - Members: components/members/memberRules.ts. `memberActionState` decides whether a role may be
--   changed or a member removed, and says why not.
-- - Navigation: components/layout/navigation.ts. The tree of the sidebar, the items that a role
--   sees, the pages of the command palette, and the test of the current item.
-- - Keys: pages/keys/helpers.ts. The status, owner label, filter, sort and actions of an API key;
--   the texts of its limits (Keys/Limits), the dialog that edits it (Keys/Edit,
--   pages/keys/EditKeyDialog.tsx) and the wizard that creates it (Keys/Create,
--   pages/keys/CreateKeyDialog.tsx).
-- - Settings: components/settings/limits.ts and nameSlug.ts, and the forms of an organization
--   (components/settings/OrgSettingsForm.tsx) and of a team (pages/TeamSettingsTab.tsx).
-- - Hotkeys: hooks/useHotkeys.ts. The syntax of shortcuts, the step that a keyboard event makes,
--   and the listener, a function from the waiting steps and an event to the new waiting steps and
--   the binding that fires.
-- - LiveTail: pages/usage/useLiveTail.ts. The rows that the request log shows and buffers while it
--   polls; a run is a list of renders, polls, answers, flushes and ends of highlights.
-- - Logs: pages/usage/RequestLogsPage.tsx. The filters of the request log in the page's search
--   parameters, the handlers of the page (Logs/Page), the rows under the keys, and what the page
--   tells LiveTail; with the deep links of components/analytics/drilldown.ts. URLSearchParams is
--   the interface `UrlParams`.
-- - Pager: components/members/listState.ts. The cursors of a list of pages, the search,
--   and the sort of the loaded rows (Pager/Sorting).
-- - Toasts: hooks/useToast.tsx. The list of notifications and its three callbacks.
-- - Mcp: pages/mcp/helpers.ts and pages/mcp/serverForm.ts. Who may write a server, the list of
--   servers, and the requests that the form makes. The endpoint is that of pages/mcp/mcpUrl.ts.
-- - Chat: pages/playground/useChatStream.ts. The reader of the event stream (Chat/Sse) and the
--   hook's state with send, stop, clear and the outcomes of requests (Chat/Requests). Chat/Turns
--   runs them in any order, with any number of requests under way.
-- - Presets: pages/playground/presets.ts. The presets of the playground in the browser's storage,
--   with the types of pages/playground/responseFormat.ts.
-- - Series: components/analytics/timeSeries.ts and compareSeries.ts. The axis of a chart, its sums,
--   and the comparison with the window before.
-- - TimeRange: lib/timeRange.ts. The time ranges of the usage pages, their keys and their bounds.
-- - Csv: lib/export.ts. The text of a table that is downloaded, with a reader of such texts.
-- - Controls: components/ui/SegmentedControl.tsx and Select.tsx. What the keys of the two controls
--   do.
-- - Slug: lib/slug.ts. The slug that is derived from a name.
-- - Compare: pages/playground/CompareView.tsx. The columns of the comparison of models, what its
--   buttons tell the conversations of the columns, and the badges (metrics.ts).
-- - Sso: pages/OrgDetailSSOTab.tsx. The form of an organization's SSO and the test of its issuer.
-- - Modal: components/ui/useModalBehavior.ts. The stack of open dialogs and sheets, with their keys
--   and the lock of the page's scroll.
-- - Checklist: pages/mcp/ServerAccessChecklist.tsx. The MCP servers that may be used.
-- - Pricing: pages/models/PricingSyncSheet.tsx. The rows whose prices are updated.
-- - Models: pages/models/modelHelpers.ts. Aliases, fallback options, search and sort of models.
-- - Onboarding: components/onboarding/onboardingSteps.ts. The steps of a new organization, and
--   the flag of a dismissed list.
-- - BulkRevoke: pages/keys/useBulkRevoke.ts. Keys revoked one at a time, with the progress shown.
-- - RecentPages: components/command/recentPages.ts. The recent pages of the command palette.
-- - Common: helpers on lists, sets as lists, texts, integers, decimal numerals and sorting, which
--   the parts share.
-- Settings uses the texts of numbers that Keys uses; TimeRange shares the granularity of Series;
-- Logs reads the ranges of TimeRange and the rows of LiveTail; the wizard of Keys shows the
-- notifications of Toasts; Sso splits texts at commas as Models does.
--
-- How the code is written down: a hook's states and refs are the fields of a record, and a
-- callback is a function from the old record to the new one. What the code leaves to the engine
-- is an argument: toLowerCase (`lower`), Date.parse (`parse_date`), JSON.parse (`parse`),
-- encodeURIComponent (`encode`), the clock (an integer of milliseconds), toISOString, the
-- rounding of parseInt to a double (`engine`), localeCompare, random ids. Amounts of money are of
-- a type that a record of their operations gives, and the storage of Presets comes with its JSON,
-- its numbers and its texts (`Browser`). What the page decides comes with the event: whether the
-- target of a key is editable, whether a dialog is open. `Array.prototype.sort` is a stable
-- insertion sort, which is what every stable sort returns for a consistent comparator. Texts are
-- lists of code points; where the code counts or compares UTF-16 units, so does the model.
-- Optional fields are options, and a field that is undefined is `none`. A lookup in an object
-- literal is one among its own keys: the names that it inherits from Object.prototype, like
-- "constructor", are not modelled.
--
-- Bounds: the cap of 2000 rows, the five toasts, the six recent pages, the fifty messages, the 2000
-- buckets of an axis, the second between two keys and the seven days of an expiring key are the
-- code's own constants. Instants of Series are natural numbers of milliseconds since 1970. Two
-- functions run on fuel: the digits of a number take the number itself as fuel, of which each
-- division by ten leaves less, and the loop of an axis takes the milliseconds of its window, each
-- round of which passes at least one; it never runs out. All other recursion is on lists and texts.
--
-- Not modelled: React's rendering, effects and timers, the query library, the markup and the
-- icons and console warnings of the modelled files; floating-point figures (costs, KPIs); the
-- forms of alerts and of models, the reports and the dashboard, which show or send what the hooks
-- give; and the Python server, of which the dashboard sees only the answers.
mod Common
pub mod Access
pub mod Members
pub mod Navigation
pub mod Keys
pub mod Hotkeys
pub mod LiveTail
pub mod Pager
pub mod Toasts
pub mod Mcp
pub mod Chat
pub mod Models
pub mod Onboarding
pub mod BulkRevoke
pub mod RecentPages
pub mod Settings
pub mod Series
pub mod Csv
pub mod Presets
pub mod TimeRange
pub mod Controls
pub mod Slug
pub mod Compare
pub mod Sso
pub mod Modal
pub mod Checklist
pub mod Pricing
pub mod Logs
