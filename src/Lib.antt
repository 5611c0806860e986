-- ===== src/Lib.antt =====
-- The web front end of Mawster (front/), as a library of definitions and theorems.
--
-- Parts, and the files that model them:
--
-- - Rarity.antt: rarity strings such as 7r4 (front/app/services/roster.ts, parseRarity of
--   front/app/game/defense/_components/defense-utils.ts, rarityWeight and matches of
--   front/app/game/_components/use-rarity-filter.ts, getUpgradeOptions of
--   front/hooks/use-upgrade-requests.ts). Regular expressions are read as functions on texts
--   (match_at, match_anywhere, match_whole). Rarity/Pattern, Rarity/Next and Rarity/Order hold the
--   proofs.
-- - Roster.antt: the records of roster.ts and champions.ts.
-- - Import.antt: the roster import. Import/Dedup, Import/Preview and Import/Execute are
--   front/components/use-roster-import-core.ts (deduplicateEntries, fetchChampionLookup,
--   findRosterMatch, buildPreviewRow, rediffRow, executeImport) with the counts of
--   front/components/roster/import-report-dialog.tsx; Import/Json and Import/File are
--   front/components/use-roster-import-export.ts (validateEntry, parseAndValidateEntries,
--   handleExport, handleFileSelected); Import/Vision is
--   front/components/use-roster-import-vision.ts (predictions, corrections, polling), and
--   Import/Vision/Archive executeVisionImport of front/components/use-vision-import-section.ts. The file and
--   the vision import both make rows with Import/Preview and write them with Import/Execute.
-- - Upload.antt: createVisionImport of front/app/services/vision.ts, up to four workers over shared
--   counters. A schedule is a list of moves (worker, outcome of its request), and move runs a worker
--   from one await to the next.
-- - Auth.antt: sign-in and sessions. Auth/Refresh is refreshBackendToken
--   (front/app/lib/auth-refresh.ts) and the jwt callback, Auth/Session the session callback
--   (front/app/api/auth/[...nextauth]/route.ts), Auth/Pages the page guard (front/proxy.ts) and
--   Auth/Backend the proxy to the back end (front/app/api/back/[...path]/route.ts), which runs on the
--   session that the two callbacks make.
-- - Upgrades.antt: front/hooks/use-upgrade-requests.ts. Upgrades/Reachable is the relation of the
--   states that the hook can reach, Upgrades/Requests the list under creation and cancellation.
-- - WarMap.antt: front/app/game/knowledge-base/_components/node-filters.ts, and in WarMap/Layout
--   front/app/game/defense/_components/war-format.ts.
-- - Attackers.antt: front/app/game/war/_components/use-available-attackers.ts, over the Map of
--   Base/Maps that deduplicateEntries uses as well.
-- - Banner.antt: front/app/game/account/_components/use-vision-import-banner.ts, a machine over ticks,
--   answers and clicks, with answers that come late.
-- - Howto.antt: front/components/use-vision-import-howto.ts; Import/Vision/Guard is
--   front/components/use-vision-import-guard.ts with the rest of use-vision-import-section.ts, in
--   front of it.
-- - Alliances.antt: front/hooks/use-alliance-selector.ts.
-- - Membership.antt: front/app/contexts/alliance-context.tsx (refresh, refreshRoles, readCache,
--   writeCache, canManage, isMine), which front/hooks/use-alliance-role.ts passes on. Its merge of own
--   and visited alliances is that of Alliances.
-- - War.antt: front/app/contexts/war-context.tsx, with the data of front/app/services/war.ts.
--   War/Requests is what the handlers send, War/Defense and War/Lists what their answers do
--   (handlePlaceDefender is handle_place_defender and place_defender_answered), War/Current the
--   alliance and its current war, War/Clicks the map and the removal behind its dialog, War/Dialogs
--   the setters. War/Service is the call that each request makes (war.ts and
--   front/app/services/war-notes.ts); a path is its segments, so an id is one segment. War/Board is
--   the specification of the placements: a function from nodes.
-- - Defense.antt: front/app/game/defense/_hooks/use-defense-actions.ts (Defense/Actions,
--   Defense/Polling) and front/app/game/defense/_viewmodels/use-defense-viewmodel.ts (the end of
--   Defense/Actions). Both pages take the alliance from Alliances and the rights from Membership.
-- - Account.antt: front/app/game/account/_viewmodels/use-roster-viewmodel.ts. Account/Loading is the
--   choice of the account and what is loaded, Account/Confirms the dialogs, Account/Masteries
--   updateMasteryField, Account/Groups groupedRoster over the filters of RosterFilters.
-- - AddForm.antt: front/hooks/use-add-champion-form.ts, and the effect of
--   front/app/game/account/_components/add-champion-form.tsx that prefills or resets the form.
-- - AlliancesPage.antt: front/app/game/alliances/_viewmodels/use-alliances-viewmodel.ts
--   (AlliancesPage/Create, Invites, Loading and Tabs).
-- - KnowledgeBase.antt: front/app/game/knowledge-base/_viewmodels/use-knowledge-base-viewmodel.ts.
--   KnowledgeBase/Address is what the address keeps, KnowledgeBase/Loads the numbered requests.
-- - Matchups.antt: use-matchups-viewmodel.ts, use-matchup-grid.ts, use-matchup-defender-grid.ts and
--   use-matchup-ratings.ts of front/app/game/knowledge-base/_viewmodels.
-- - RosterFilters.antt: front/components/roster/roster-filters.ts.
-- - Base.antt: the shared library; Base/Answers is the answer of a request, Base/Keyed lists with a
--   number as key, Base/Maps those with a text.
--
-- How the code corresponds: a component or hook's state is a record, a handler is a function from
-- that state (and the answers of the server, as arguments) to the new state and its effects. A
-- handler that waits for the server is two functions, what it sends and what the answer does to the
-- state that it finds, so that an answer may come at any later moment; what a handler remembers of
-- the render it was created in is an argument. Names are the source's, in snake case.
--
-- Values: a string is a list of UTF-16 code units (Text). A number of the screens is a Num, the
-- floor and the rank of the fractional part, so that comparing two finite numbers compares two
-- Nums; NaN does not occur in parsed JSON. Stars and ranks of predictions, and counts, are ℕ. null
-- and undefined are both none where no reader tells them apart. toLowerCase, toUpperCase,
-- JSON.parse and JSON.stringify are arguments; translations of messages are not modelled, a message
-- is the constructor that names it.
--
-- Bounds: to_decimal prints with as much fuel as the number plus one, which is proved to be enough
-- (parse_int-to_decimal in Base/Decimal). The polls are machines over a sequence of ticks and
-- answers; an answer that never comes leaves it waiting, as in the code.
--
-- Not modelled: the React rendering, the DOM, the toasts' texts, the translations, and the HTTP
-- wrappers of front/app/services other than those of the war, whose answers are arguments here. Two
-- answers that come at the same moment come one after the other. The back end (api/) is another
-- program.
pub mod Base
pub mod Rarity
pub mod Roster
pub mod Import
pub mod Upload
pub mod Auth
pub mod Upgrades
pub mod WarMap
pub mod Attackers
pub mod Banner
pub mod RosterFilters
pub mod Alliances
pub mod Howto
pub mod Matchups
pub mod War
pub mod Account
pub mod Membership
pub mod AlliancesPage
pub mod AddForm
pub mod Defense
pub mod KnowledgeBase
