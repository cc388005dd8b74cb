-- ===== src/Lib.antt =====
-- The LuCI page of openwrt-apn-autoconfig, the view
-- luci-app-apn-autoconfig/htdocs/luci-static/resources/view/network/apn-autoconfig.js: one program in a browser
-- that asks helper commands on the router, builds a card for each modem and each connection, offers operations on
-- them, and follows the operations by polling. Names in this library are the view's, in snake_case.
--
-- Parts, and the files that model them:
--   Json, Text          the values that a JSON document gives, and the texts that the page shows; Json/Laws
--   Ui, Widgets         the nodes of the page as a tree, its controls with what a click asks for, and the small
--                       builders: rows, tables, lines, identifiers that are masked
--   Wrapper             `call`, `secretResult` and `callPlan`: what a reply of a helper command resolves to
--   Status              the gates of capabilities, `planOf`, the scope of a result, the roaming policy;
--                       Status/Labels the labels made of a status
--   Documents, Loading  the document set, `loadRouterDocuments`, `loadDocuments` and what was read
--   Subjects            `buildSubjects` and the lookups by key: the cards
--   Connection          `connectionState`: what a card says and which controls it offers
--   Route               `normaliseRoute`, `addressOf`, `routeFromAddress`
--   View                the page as a whole, and the steps of loads, refreshes, polls of the engine, launches, edits
--                       and navigation as a relation
--   Engine              the poll `refreshAction`, the launches, `refreshHardwareGeneration`
--   Actions             the words for an operation: `actionDescription`, `operationDetailText` and the others
--   Esim                the operations on an eSIM: the launch and the poll; Esim/Settling what follows an end;
--                       Esim/After the same as a whole; Esim/Reading the inventory, the card, the question about
--                       the slots and the poll over all modems; Esim/Consent the plans and the dialogs that they
--                       open; Esim/Download the form for a new subscription; Esim/Probe the search for an eSIM
--                       and the flows that ask for a plan first; Esim/Steps the steps of launches, polls, ends
--                       and reads as a relation, with the abstract machine of one wait (Esim/Steps/Machine);
--                       Esim/Words the words for the tokens of the package
--   Areas               what `renderRoute` draws: Areas/Overview the cards, Areas/Workspace the workspace of a card,
--                       Areas/Connection, Sim, Slots, Apn, Modem, Euicc, Endpoint, Card, Messages and Database its
--                       areas; Areas/Safe when a control may be there, and when it may be disabled
--   Activation          `activationCode` and `activationCodeHost`
--   ManualApn           the form for an APN of one's own
--   Focus               the walk over the nodes, `focusedPosition`, `restoreFocus`, `focusCycleTarget`
--   Dialogs             the confirmations of modem and engine operations; Dialogs/Esim those of the eSIM and the
--                       slots; Dialogs/Keyboard `showConfirmation`, `openDialog`, `closeDialog` and the keys
--   Display             durations, suffixes, masked identifiers, sizes
--   Prelude             tests on numbers, lists, texts as UTF-16 code units, and objects used as maps
-- The files below a part hold the theorems about it, and Tests the runs on concrete data.
--
-- How the program is read:
--   - A document is a value of Json: `undefined`, `null`, truth values, whole numbers, texts, arrays and objects.
--     A field that is not there is `undefined`; a field of what is no object is `undefined` too, since the page
--     asks no field of `undefined` and `null` without a test. An object that is used as a map holds its own keys
--     only, in the order of their insertion.
--   - A text of the page is a tree of messages, values and templates (Text). LuCI's translation `_` and its
--     `String.format` are not interpreted. A text that the program walks is a list of UTF-16 code units.
--   - A call is asynchronous. Each step is a function of the page and of the `Answer` of its call, which resolves
--     with a value or rejects with a message; a list of answers stands for a run of polls, and a relation (View)
--     for steps in any order. A load asks by a function from the arguments of a call to its answer.
--   - What a step does besides changing the page is a list of effects: a refresh, a redraw, a notification, the
--     controls held or released.
--   - `JSON.parse`, `encodeURIComponent`, `decodeURIComponent` and the template `#%s/%s` are parameters; what is
--     relied on of the last three is the record `IsAddressing`.
--   - For the focus a node of the page is its attributes and its children; a number stands for the identity of the
--     object. A node that is drawn (Ui) is an element, a text, nothing (`null`), or a control; what a click does is
--     data (Act) that names the card by its key. `toLocaleString` of a date is a parameter of the drawing (Screen).
--     An area asks for its inventory on its way (`ensureEsimInventory`); that call is a step of Esim/Reading.
--   - Where the browser puts the focus on Tab by itself is a parameter of the keys in a dialog; `IsBrowser` says that
--     it is the neighbour in the dialog, where there is one. A click on a button of a dialog is an event of its own.
--     On Escape the page's handler and LuCI's, which closes the modal, are one step.
-- Bounds and fuel: `wait_for_endpoint` recurses on the attempts that are left, as `waitForEndpoint` does, with 6
-- in the program. Decimal digits are produced on fuel, one round for each digit, with the number itself as fuel.
-- Nothing else needs fuel: polls, walks and searches recurse on a list or a tree.
--
-- Not modelled: the confirmation of an APN entered by hand, the dialogs with fields as nodes, the countdown of a
-- plan, the style sheet, the decoding of a QR code from a picture, the timers, and the settings form, which LuCI
-- builds. The copy of jsQR beside the view, the shell engine under files, the coordinators under apn-autoconfig-
-- modem and apn-autoconfig-esim, the protocol handler, the build of lpac, the provider database and the scripts
-- that make it are other programs, in other languages or of other projects; the view reaches them by calls,
-- which are the answers above.
mod Prelude
mod Tests
pub mod Wrapper
pub mod Json
pub mod Text
pub mod Activation
pub mod Display
pub mod Status
pub mod Documents
pub mod Subjects
pub mod Connection
pub mod Route
pub mod Engine
pub mod Esim
pub mod Actions
pub mod Focus
pub mod Loading
pub mod View
pub mod Ui
pub mod Widgets
pub mod Areas
pub mod ManualApn
pub mod Dialogs
