-- ===== src/Lib.antt =====
-- WoodGate's web client (web/src) and its development mock (mock/src), as definitions that compute,
-- and what holds of them.
--
-- The client is a React app over an HTTP API. A route's guards ask the session and the account
-- (Authn), which the query cache holds (Queries); every request goes through one transport that
-- notices when the session ends (Session), and its response is turned into a value or an error (Api).
-- The menu is filtered by the account's permissions, and its first entry is where the guards send an
-- account that may not stay (Navigation). Lists are read page by page (Paging), and a table keeps its
-- page, sorting and filters in the search parameters of its route (DataTable, Search). Files are sent
-- to a storage (Upload). Forms load, change and save the records (Forms), and guard the page until they
-- are saved (ExitGuard); search fields wait for the typing to pause (SearchInput over Debounce). The
-- frame of the pages shows where one is (Breadcrumbs, Navigation/Active). A page shows its query, an
-- error or a placeholder (Views), and links to other pages (Links). The mock answers the requests of
-- the companion app (Mock).
--
-- Files, and the code of the repository that they are about:
--   Common                 the names, tests and lemmas that the others share
--   Paging                 web/src/lib/pagination.ts, nonEmpty of web/src/lib/utils.ts
--   DataTable/Sorting      web/src/components/data-table/sorting.ts
--   DataTable/Query        web/src/components/data-table/use-data-table-search.ts
--   DataTable/Table        web/src/components/data-table/use-data-table.ts, the page count of
--                          web/src/components/resource-data-table.tsx and the row numbers of
--                          web/src/components/data-table/data-table-pagination.tsx
--   Api                    web/src/lib/api.ts, query-client.ts and lib/resource-loader.ts
--   Session                web/src/lib/session.ts; Session/Expiry:
--                          web/src/features/authn/session-expiry.ts;
--                          Session/App: the handler of web/src/App.tsx that joins them, and the logout
--                          of web/src/features/authn/queries.ts
--   Queries                web/src/features/**/queries.ts and web/src/lib/query-invalidation.ts;
--                          Queries/Mutations: the mutation hooks in the same files; Queries/Changes: the
--                          kinds of records in their answers
--   Navigation             web/src/components/layout/navigation.ts; Navigation/Config: nav-config.ts
--   Authn                  web/src/features/authn/guards.ts; Authn/Routes: the route tree
--   Authn/Pages            beforeLoad of each file in web/src/routes
--   Search                 web/src/lib/route-params.ts and table-search.ts, and the dates of
--                          web/src/routes/_authenticated/checkins.index.tsx
--   Labels                 web/src/lib/enum-metadata.ts, web/src/features/directory/source.ts and
--                          web/src/features/checkins/presentation.ts
--   Upload                 web/src/hooks/use-upload.ts; Upload/Images: the image uploads of
--                          web/src/features/resources/queries.ts
--   ExitGuard              web/src/hooks/use-page-form-exit-guard.tsx
--   Debounce               web/src/hooks/use-debounced-callback.ts
--   SearchInput            web/src/components/search-combobox.tsx; SearchInput/Table:
--                          components/data-table/data-table-search-input.tsx; SearchInput/Merge:
--                          features/resources/resource-comboboxes.tsx and
--                          features/directory/groups/group-picker.tsx
--   Forms                  the forms of web/src/features and web/src/lib/form-validation.ts:
--                          authz/role-form.tsx and role-picker.tsx (Role), directory/users/fields.tsx
--                          and account/page.tsx (User), checkins/fields.tsx (Checkin), locations/*.tsx
--                          (Location), stations/fields.tsx (Location) and
--                          authn/login.tsx (Login); their fields and schemas, with
--                          web/src/components/validated-form-field.tsx (Fields)
--   Breadcrumbs            web/src/components/layout/app-breadcrumbs.tsx and document-title.tsx
--   Navigation/Active      isActivePath of web/src/components/layout/app-sidebar.tsx;
--                          Navigation/Sidebar: its entries and menu
--   CheckinList            web/src/features/checkins/date-range.ts and the filters of list.tsx
--   UserList               web/src/features/directory/users/list.tsx and delete-dialog.tsx
--   Listings               the columns and sort keys of the tables: {checkins,stations,locations,
--                          directory/groups}/list.tsx of web/src/features and the routes under
--                          web/src/routes/_authenticated
--   Views                  what a page shows of its query: query-error.tsx, query-gate.tsx,
--                          resource-data-table.tsx and resource-overview-card.tsx of
--                          web/src/components, and the pages of web/src/features that use them
--                          (Views/Pages, Views/Lists)
--   Links                  the links of the pages of web/src/features and web/src/not-found.tsx
--   Roles                  web/src/features/authz/role-detail.tsx and permission-level.tsx
--   SyncAction             web/src/features/directory/sync/page.tsx
--   Keys                   web/src/features/stations/detail.tsx and create.tsx; Keys/Account:
--                          web/src/features/account/api-key-section.tsx
--   DataTable/Faceted      web/src/components/faceted-filter.tsx and
--                          components/data-table/data-table-faceted-filter.tsx
--   DataTable/Pager        web/src/components/data-table/data-table-pagination.tsx
--   DataTable/Cells        data-table.tsx, data-table-static.tsx and data-table-sizing.tsx beside it
--   Export                 web/src/components/data-table/data-table-export.tsx
--   Mock                   mock/src/index.ts
--   Examples               the theorems at concrete inputs
--
-- How state is modelled. The closure of the session transport is a record with the requests that
-- wait for a response, and a run is a list of events, so that responses come in any order. A handler
-- of a table is the function from search parameters to search parameters that it hands to the route.
-- The query client is an interface (Queries/Client): its cache is a parameter with the documented laws
-- of invalidation. A guard ends as a value: it passes, redirects or fails. Promises that fail are
-- `err`. A hook with state is a record and its handlers are steps on it; a callback that is awaited is
-- an event of its own when it settles, and a timer is an entry that waits until it elapses, so that
-- both interleave with everything else. An upload is the list of its effects, in order, with the
-- storage client's answers as parameters. A number is an integer of any size or the text of another
-- number (Common/Number).
--
-- Fuel. The loop over the pages of a list runs on the number of pages still to load, which the first
-- response fixes, as the source's loop does. Following redirects takes the number of pages to try,
-- and each theorem says how many are enough.
--
-- Parameters: `can` and `canAll` of the authorization package, `Number` on a text, the fetch of the
-- platform, date-fns, papaparse, the status of the router's blocker, the values of the form library and
-- the pages that an endpoint serves. Not modelled: the generated API client and route
-- tree, React's rendering and markup, what a button blocks
-- while its request runs (that is the component library's), the design components, the server (Go) and the app (Swift).
pub mod Common
pub mod Paging
pub mod DataTable
pub mod Api
pub mod Queries
pub mod Session
pub mod ExitGuard
pub mod Debounce
pub mod SearchInput
pub mod Forms
pub mod Breadcrumbs
pub mod CheckinList
pub mod Export
pub mod UserList
pub mod SyncAction
pub mod Keys
pub mod Mock
pub mod Navigation
pub mod Authn
pub mod Examples
pub mod Upload
pub mod Search
pub mod Labels
pub mod Listings
pub mod Links
pub mod Roles
pub mod Views
