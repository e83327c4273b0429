-- ===== src/Lib.antt =====
-- Cuttlefish: the browser interface of a file-system index, and who may see what of it on the server.
--
-- The interface (fs_ui/src, TypeScript and React) asks the server for listings, statistics and
-- searches, and shows them. A component is modelled as a record of its state and one function for
-- each handler, reply and effect; an event is a constructor, and a run is a list of events, so that
-- replies come in any order. An effect that React runs after a change of state is part of the
-- function that makes the change.
--
-- Common has numbers, lists, integers, the stable sort, and the string methods that are used.
-- Types is fs_ui/src/types.ts, its interfaces as records and its unions as data types.
-- Format is fs_ui/src/format.ts (formatBytes, formatNumber, formatPercent, formatDate, typeLabel).
-- Api is fs_ui/src/api.ts. A call of fsApi is a function of `fetch`, which is a parameter, and
-- yields the promise's outcome and whether onUnauthorized ran; Api.Url writes out the standard
-- encodeURIComponent, over UTF-8.
-- FileSystem is fs_ui/src/hooks/useFileSystem.ts. The abort controllers are numbers, and the
-- requests in flight are a list; a reply names its place in it. A request that was aborted rejects.
-- Windowing is fs_ui/src/hooks/useWindowedRows.ts (compute, sum, and the layout effects;
-- Windowing.Scrolling the scroller's events). Heights and positions are whole pixels.
-- Search is fs_ui/src/pages/SearchPage.tsx. Fields has its tables and clampLimit, Columns the result
-- columns and their storage, Saved serializeQuery and parseQuery over the JSON values of Json, Rules
-- the edits of the conditions, Csv the text of exportCsv (Csv.Reader is a reader of such files),
-- Page and Page.Visit the page's state, executeSearch and the other handlers, Results what the page
-- shows of its results.
-- Treemap is fs_ui/src/components/TreemapView.tsx (worstRatio, squarify, the layout, and in View the
-- labels).
-- Session is fs_ui/src/App.tsx and fs_ui/src/theme.ts, with the screens, routes and polls in
-- Session.Shell; Session.Login and Session.SignIn are fs_ui/src/pages/LoginPage.tsx.
-- Browser is fs_ui/src/components/Header.tsx (its buttons in Trail) and FileList.tsx (Table),
-- fs_ui/src/pages/FileBrowserPage.tsx (Page, over useFileSystem and the URL), UserBrowserPage.tsx
-- (Usages its data, Users its table) and ScanHistoryPage.tsx (Scans, with the time that a scan took in
-- Durations).
-- Detail is fs_ui/src/components/DetailPanel.tsx: Selection and Rows its texts, Breakdown its bar,
-- Children the effect that loads a directory's children.
-- Admin is fs_ui/src/pages/AdminPage.tsx: its grants, in Mapping the identity mapping, in Texts the
-- texts of both.
--
-- Server is part of the HTTP server (fs_api, Go). Server.Access is access.allows of fs_api/auth.go
-- and Server.Paths path.Clean, which it uses; Server.Grants is the table of grants with the edits
-- of AdminGrants (fs_api/admin.go) and matchingGrants (fs_api/auth.go), Server.Identity
-- mapIdentity, Server.Rules the table of its rules with the edits of AdminIdentityRules, and
-- Server.Resolve roleFor and resolveAccess. Server.Query and Server.Search are fs_api/search.go up
-- to the query's rows, with what is replied to an error of the database: the WHERE clause is a list of conditions, whose text is a function of
-- it, and Server.Search.Meaning says which rows the database selects by it. Texts are taken by
-- their characters, where Go goes by bytes. Server.Login is handleLocalLogin with its limit on
-- failed attempts, Server.Claims identityFromClaims and identityAllowed, and Server.Sessions
-- issueSession, loadSession, recheckSession and handleLogout over the table of sessions, by their
-- tokens' hashes. A request of a session goes in steps, one for each statement of SQL: its look-up,
-- the claim of a re-check, and the provider's answer; the requests under way are a list, and a run is
-- a list of steps of all requests, each with its time. Deleting or renewing a row is one step with
-- the answer that causes it. Failures of the database are not modelled there, and an attempt to sign
-- in is one step. Server.Requests is authMiddleware in front of SearchFiles, from the cookie to the
-- query.
--
-- The components meet where the code's do: FileSystem, Search.Page, Session and Browser take the
-- outcomes of Api's calls; Search.Page is built from Search.Rules, Search.Columns and Search.Saved,
-- Browser.Page from FileSystem, Browser and Detail; Session.Shell's screens are given to
-- Session.Login. FileSystem.Refinement has the abstract machine that FileSystem refines, a relation
-- on what is seen of a directory.
--
-- Parameters: `fetch`; JSON and JavaScript's conversions (`Js`); the printing of fractions and
-- dates (`Print`); the reading of a date (`epoch`); the collation of the browser (`Collation`); the
-- numbers of the treemap (`Num`), without laws; the router's matching of paths; the library functions
-- of Go that read numbers and change letters (`Go`, `lower`, `trim`); the database's answer to a
-- query (`run`); LIKE, as PostgreSQL documents it, and the comparison of
-- columns (`Like`, `Database`); what an identity provider answers; the Unix groups that the indexer
-- recorded. A hypothesis on a parameter is stated at the value that it is used at.
--
-- Fuel: a loop of Windowing.compute has as many rounds as there are rows; `squarify_fuel` has as
-- many as there are items, and each round takes at least one.
--
-- Sizes, counts and identifiers are natural numbers without the bound of 2 ^ 53, and times since the
-- epoch are integers.
--
-- Not modelled: markup and styles; the clipboard and the link of a download; the browser's timers
-- and observers, whose calls are events; of the server the configuration, the listings and
-- statistics, the rows of a result, cookies, tokens and the redirects to an identity provider, and
-- the preview of an identity (fs_api, Go); the indexer, the aggregator and their common crate
-- (Rust), and the packaging.
mod Common
pub mod Types
pub mod Format
pub mod Api
pub mod FileSystem
pub mod Windowing
pub mod Search
pub mod Detail
pub mod Treemap
pub mod Session
pub mod Browser
pub mod Admin
pub mod Server
