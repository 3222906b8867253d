-- ===== src/Lib.antt =====
-- Mooring line management: the web client (web/src), a single-page application over the JSON API.
-- The client keeps no data of its own: it shows what the API answers, edits a draft of the deck
-- layout, and gates its pages and controls by the session's permissions. The library models the
-- client's own logic; React, React Query, the router, `fetch` and the browser are parameters or
-- explicit values; what their documentation guarantees of them is a law of an interface (Number,
-- Api.Query.QueryClient, Register.Table.Collation, Register.Page.SearchParams, Offline.Caching.Pathname).
--
-- Base: names shared by all, Boolean tests, list operations (filter, find, some), texts, decimal
--   notation (`show` is the template literal's `${n}`). Int, Number: whole numbers with a sign, and the
--   interface of the floating-point operations that the client uses. Schema: the API's types
--   (web/src/api/schema.ts) with the members in the source's order, in snake case.
-- Deck: web/src/features/deck/DeckPage.tsx. Naming has `sideOf`, `positionLabel` and `renumberAuto`;
--   Layout the edits of a draft; Session the page as a state machine, one `Event` for each handler and
--   `step` for what it does to the hooks; Save the body that `doSave` sends. A handler that the page
--   offers only under a condition (edit mode, write access) has that condition in `step`.
--   Panel is the winch and store panel of WinchPanel.tsx with what its dialogs offer: Panel.Moves the
--   state machine of its dialogs and pickers, Panel.Pickers what they show. View is what the
--   page shows, with the boxes and marks of symbols.tsx.
-- Auth: web/src/app/auth. Context has the types and hooks of authContext.ts, Provider the session query
--   and the login address of AuthProvider.tsx, Guard the route guard of RequireAuth.tsx with its
--   loop-breaker over the session storage.
-- Permissions: web/src/features/permissions, the access levels with their optimistic update.
-- Register: web/src/features/register and turning. Add is the dialog that registers a line, with
--   Add.Dialog its state machine, Table the
--   register's filters and order, Record a line's page, its sides and the button that turns it.
-- Catalogue: web/src/features/catalogue. Dashboard: web/src/features/dashboard.
-- Files: web/src/features/files and the inspection dialog. Format: web/src/lib and components. Shell:
--   web/src/config.ts and the frame of web/src/app, with Vessels for the current vessel.
-- Api: web/src/api and the `api.ts` files of the features. Http has what `fetch` answers and the
--   helpers that turn an answer into a value or an exception, Query the interface of React Query's cache
--   at one key, Keys the keys of all queries and what each mutation makes stale, Hooks the typed client's
--   errors.
-- Contract: web/src/api/schema.ts as data (Shape, Schemas, Operations, Paths) and the client's requests
--   against it. Requests has the requests of each file, HttpCalls their methods, addresses and bodies,
--   Bodies the JSON of a body, Conforms when a JSON value is of a type of the schema, Templates the
--   address that a path's template stands for.
-- Inspections: web/src/features/inspections, its pages and the dialog. Offline: web/vite.config.ts, what the
--   service worker caches and what the proxy asks for. Register.Page is RegisterPage.tsx.
-- Deck.Session.Plan: the specification of the deck page, a plan in which no name is derived.
-- Tests: runs on concrete data. Thousandths is an instance of Number by whole thousandths.
--
-- A promise is a value of `Outcome`; an interleaving is the order of a list of events. The one
-- loop with fuel is that of `humanSize` (Files.climb), for which three rounds are enough; every other loop
-- is a recursion on a list or a text. Not modelled: pure presentation
-- (styles, drawings), the forms of the catalogue page and the photo timeline, the generated HTTP client,
-- and the server.
pub mod Api
pub mod Auth
pub mod Base
pub mod Catalogue
pub mod Contract
pub mod Dashboard
pub mod Deck
pub mod Files
pub mod Format
pub mod Inspections
pub mod Int
pub mod Number
pub mod Offline
pub mod Permissions
pub mod Register
pub mod Schema
pub mod Shell
pub mod Tests
