-- ===== src/Lib.antt =====
-- x402Guard: the TypeScript programs around the x402Guard proxy.
--
-- The SDK (examples/core) is a typed client of the proxy's REST API: it validates its
-- configuration, sends requests with retries and turns the proxy's answers into values or
-- structured errors. The adapters give it to agent frameworks, and the dashboard manages agents,
-- rules and session keys through the same API.
--
-- Base holds numbers, lists and Boolean tests. Js models what the sources use of JavaScript: text
-- as a list of code points, decimal numerals, doubles and parseInt, parsed JSON, regular
-- expressions of the shapes that occur, encodeURIComponent, and how the parser of URLs cuts a
-- path into segments and removes those of dots (Js.Url).
--
-- Sdk is examples/core/src. Sdk.Errors is errors.ts (the class hierarchy is the data type Thrown,
-- fromApiResponse is from_api_response) and Sdk.Errors.Messages holds the texts that
-- proxy/src/middleware/guardrails.rs prints. Sdk.Io is the monad of the effects: a run is a trace
-- of requests, waits and log lines, and the network is a parameter that answers a request
-- depending on all that happened before. Sdk.Retry is retry.ts; its loop is structural recursion
-- on the rounds that are left, which are maxRetries + 1. Sdk.Types and Sdk.Config are types.ts,
-- Sdk.Client is client.ts with one function per method. The test of a URL and the messages of the
-- library zod are parameters.
--
-- Adapters.Cod3x is examples/cod3x/src (one function per method of the adapter).
-- Adapters.Openclaw is examples/openclaw/src: the plugin is a state monad over the variable that
-- holds its client, and Adapters.Openclaw.Tools has one function per tool, with inputs typed as
-- the tools' schemas say. Adapters.Eliza is examples/elizaos/src: the action that pays, the
-- provider of the proxy's status, and the plugin's initialisation, with the callback of a call as
-- an effect of its own.
--
-- Dashboard.Session, Dashboard.Ownership and Dashboard.Actions are dashboard/src/lib/dal.ts and
-- dashboard/src/app/dashboard/actions.ts: the session, the check that its wallet owns the agent,
-- and the server actions that delete and revoke. The user that the library supabase reports and
-- the language's toLowerCase are parameters. Dashboard.Login is
-- dashboard/src/app/api/auth/verify/route.ts with dashboard/src/lib/rate-limit.ts: a request to
-- log in as a state monad over the calls of siwe's, upstash's and supabase's services, whose
-- answers are parameters. Dashboard.Middleware is dashboard/src/middleware.ts.
-- Dashboard.Actions.Forms holds the actions of dashboard/src/app/dashboard/actions.ts that create
-- rules and session keys from a form, with the clock and the dates of the language as parameters;
-- their amounts are doubles. Js.Float has doubles as multiples of 2^-1074, rounded to 53 digits
-- with ties to even; a double has at most 2046 binary digits too many before it overflows, which
-- is the fuel of the count of these digits.
--
-- Dashboard.SignIn is dashboard/src/hooks/use-siwe-auth.ts: the steps of signing in, as a state
-- monad with exceptions and early returns over the state hooks and what was done outside.
-- Dashboard.Login.Nonce is dashboard/src/app/api/auth/nonce/route.ts.
--
-- Dashboard.Spend is the monitor in dashboard/src/components/spend with the rows of
-- dashboard/src/hooks/useSpendRealtime.ts; a run renders after each row. Js.Float.Order has that
-- rounding keeps the order of shares.
--
-- Dashboard.Agent is dashboard/src/app/api/agent/route.ts: the requests to the proxy, the tools
-- (Dashboard.Agent.Tools, with Payment and Spending beside it) and the handler
-- (Dashboard.Agent.Post), as a state monad over what was done outside; the services, the model's
-- libraries and the limiter are parameters that may depend on it.
--
-- Dashboard.Site puts the hook and the two handlers together: the wallet fetches its nonce and
-- its session from the models of the handlers, and the browser keeps the cookie in between, for
-- as long as its maxAge allows; the seconds that pass are a parameter. Dashboard.Actions.Buttons
-- is the handlers and dialogs in dashboard/src/components/dashboard around the server actions.
--
-- Dashboard.Proxy is dashboard/src/lib/proxy.ts. Dashboard.Pages is
-- dashboard/src/app/dashboard/agents/[agentId]/page.tsx: three requests are sent at once, and the
-- time at which each answer arrives is a parameter, since Promise.all throws the error that
-- arrives first. Dashboard.Home is dashboard/src/app/dashboard/page.tsx with
-- dashboard/src/lib/spend-queries.ts. Dashboard.Chat is dashboard/src/app/agent/content.tsx: the
-- handlers are functions on the state of the page, and Dashboard.Chat.Steps says what may happen
-- in which order, with the library ai as a parameter; its requests go to the model of the handler
-- in Dashboard.Agent.Post.
--
-- Dashboard.Audit is dashboard/src/lib/audit-queries.ts; Dashboard.Audit.Table is the state of
-- dashboard/src/components/audit/AuditLogTable.tsx with the handlers of AuditLogFilters.tsx
-- beside it: a fetch is pending until its answer arrives. Dashboard.Audit.Logs is the page
-- dashboard/src/app/dashboard/logs/page.tsx that opens it, with one database as the server
-- reaches it, without a session, and another as the browser does. Dashboard.Audit.Rest says what
-- the database behind supabase documents of the queries. The reading of all pages has fuel for
-- one page for each row that the filters select, which is enough since a page that is not the
-- last one has 25 rows.
--
-- Not modelled: the Rust proxy and the Solana program, the Python SDK, the other React components
-- and all rendering, the logger's output at level debug, the demos and the deployment files.
pub mod Base
pub mod Js
pub mod Sdk
pub mod Adapters
pub mod Dashboard
