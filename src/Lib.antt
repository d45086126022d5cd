-- ===== src/Lib.antt =====
-- A model of the OpenScale console, the TypeScript front end under frontend/src/, and what holds
-- of it. The console is a single-page application over the control-plane's HTTP and WebSocket
-- API. Each part of it keeps pure rules (domain/), React hooks that hold state and call gateways
-- (application/), adapters (infrastructure/) and components (ui/). The rules and the hooks are
-- modelled as functions: a hook's state is a record, each handler or effect is a function from
-- state to state, and what an awaited call, a socket or the browser gives is an argument or an
-- event of a list or of a step relation.
--
-- Base: Boolean tests on the native numbers, lists measured by them, text as lists of UTF-16
--   code units, decimal numerals.
-- SqlEditor (frontend/src/domains/sql-editor): Csv is domain/rules.ts, `formatCellValue`,
--   `csvCellValue`, `escapeCsvField` and `buildCsv`; Csv/Reader is an independent RFC 4180 reader;
--   History is application/useQueryHistory.ts, Editor the handlers of ui/SqlEditorScreen.tsx;
--   Input is ui/QueryEditor.tsx; Panels is what ui/CatalogPanel.tsx, QueryHistoryPanel.tsx and
--   ResultsTable.tsx show.
-- Pipelines (frontend/src/domains/pipelines): Runs is domain/entities.ts with the labels of
--   domain/rules.ts and infrastructure/apiMapping.ts; Duration is `formatRunDuration`; Events is
--   the log panel of application/useJobRunEvents.ts and the promise of
--   application/waitForRunTerminal.ts, over the same frames; RunAll is
--   application/useRunAllJobs.ts, which awaits that promise for each stage, as the list of its
--   effects; RunForm is ui/RunJobForm.tsx, whose parameters start that run; RunList is the run
--   history: the pages of application/useJobRuns.ts over infrastructure/httpJobsGateway.ts and the
--   control-plane's `ListRuns` and `ListJobRuns` (control-plane/internal), with what the database
--   answers as a parameter, infrastructure/mockJobsGateway.ts, and application/useTriggerJob.ts;
--   Screen and Screen/Page are ui/PipelinesScreen.tsx, its state with all handlers and what it
--   offers; RunTable is the pager and the rows of ui/JobRunsTable.tsx, with ui/JobRunLogPanel.tsx;
--   Confirm is the buttons of ui/JobRunsTable.tsx and ui/ClearDataButton.tsx.
-- Streaming (frontend/src/domains/streaming): Frames is domain/entities.ts and the translation
--   of infrastructure/httpStreamingGateway.ts; Feed is application/useLiveTripStream.ts; Connect
--   is `connect` of the gateway, the reconnecting socket that feeds Feed, with what the browser
--   may do as the relation of Connect/Steps; Replay and ReplayForm are ui/ReplayControls.tsx;
--   Screen is ui/StreamingScreen.tsx, which ties the controls to the events of the replay's run,
--   with ui/TopicsPanel.tsx and ui/LiveEventFeed.tsx; Mock is
--   infrastructure/mockStreamingGateway.ts, which feeds Feed in its place.
-- SystemHealth (frontend/src/domains/system-health): Rules is domain/rules.ts, Control the
--   update of the cache in application/useServiceControl.ts, Cards the services' rows and buttons
--   in ui/.
-- Charts (frontend/src/domains/dashboards/ui/charts): Zoom is useChartZoom.ts, Axis the choice
--   of labels in TrendChart.tsx, Labels frontend/src/domains/dashboards/domain/rules.ts; Pointer
--   is the mouse handlers of BarChart.tsx and TrendChart.tsx over the zoom; Bars is BarChart.tsx
--   and HorizontalBarChart.tsx, Trend TrendChart.tsx, BarMark BarMark.tsx; Dashboard is
--   ../DashboardsScreen.tsx, which lays the charts out over ../../domain/entities.ts; Console is
--   frontend/src/shared/design-system/ConsoleBarChart.tsx, with its area and ledger in
--   Console/Drawn.
-- Appearance (frontend/src/app and frontend/src/domains/connections): Accents is
--   app/accent-presets.ts and the effect of app/AppShellContainer.tsx; Settings is
--   app/theme-store.ts; Sync is application/useAppearanceSync.ts; FontSize is
--   ui/FontSizeStepper.tsx; Pickers is ui/VisualModeSelector.tsx, ui/ChartStylePicker.tsx,
--   ui/ThemeColorPicker.tsx and ui/ConnectionsScreen.tsx; Sketch is the sketches of the chart
--   styles.
-- Search (frontend/src/shared/search and frontend/src/shared/layout): Catalogs is
--   layout/navigation.ts and the job catalog; Matching is search/rules.ts; Results is
--   search/useGlobalSearch.ts, over the catalogs, the tables and the runs; Bar is
--   layout/SearchBar.tsx, which walks the results; Dropdown is the list below it.
-- DataCatalog (frontend/src/domains/data-catalog): Preview is application/useTablePreview.ts,
--   with the references of domain/rules.ts, which the search shares; Tables is
--   ui/PostgresTablesPanel.tsx, whose rows ask for that preview; Lake is ui/LakeBrowserPanel.tsx
--   with infrastructure/mockLakeGateway.ts; Bytes is `formatBytes`, with an
--   independent reader in Bytes/Reader; Lineage is
--   ui/PipelineLineage.tsx.
-- Home (frontend/src/domains/home): Overview is application/useHomeOverview.ts, Gauges
--   domain/rules.ts, Meters ui/ContainerLoadMeters.tsx, which draws the gauges, Images
--   ui/ContainerImageTable.tsx; Screen is ui/HomeScreen.tsx with its cards, its revenue panel,
--   which draws Charts/Console, and its recent runs.
-- Layout is frontend/src/shared/layout but for the search: Shell is AppShell.tsx, Sidebar.tsx,
--   TopBar.tsx and AccountMenu.tsx.
-- Http is frontend/src/shared/api/httpClient.ts.
--
-- Every loop of the source that is modelled goes over a list or counts down, and is structural
-- recursion. Two things are computed on fuel: the digits of a number n, with n + 1 units, and
-- the power of ten below a positive n (`magnitude` of Charts/Console), with n units; both are at
-- least the number of its digits. Numbers of the host language that the code only carries are a
-- type parameter; where it computes with them they are natural numbers, far below the size at
-- which a double would round. JSON, timers, the query cache, `Date` and locale formats belong to
-- the platform and are parameters or events.
--
-- Not modelled: the markup and styles of the components (but for the marks of the charts), the
-- adapters that only forward to fetch, the router, the notebooks and model workbench (embedded
-- pages), and the parts in other languages: control-plane (Go, but for the pages of the run
-- history), worker, etl-exposure and observability (Python and configuration).
pub mod Base
pub mod SqlEditor
pub mod Pipelines
pub mod Streaming
pub mod SystemHealth
pub mod Charts
pub mod Appearance
pub mod Search
pub mod DataCatalog
pub mod Home
pub mod Http
pub mod Layout
