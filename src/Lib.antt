-- ===== src/Lib.antt =====
-- FF-WebHID: the add-on's side of WebHID for Firefox.
--
-- A page opens HID devices through the add-on's background, which talks to a daemon by Native
-- Messaging; input and control frames travel in a binary format. The background owns the sessions that
-- the daemon holds open, and must close each of them when its page is gone.
--
--   Prelude     numbers, lists, options, `Map`s, bytes and texts that the parts share
--   Wire        the binary formats: Wire.Reports is parseInputReports and Wire.Control is
--               handleControlResponse and buildSendFrame of addon/js/utils/wire-format.js, and
--               buildPackedSend of addon/js/background/packed.js
--   Ownership   addon/js/background/state_ops.js over the maps of addon/js/background/state.js:
--               Ownership.Lifetimes the documents, Ownership.Opens the opens of tabs,
--               Ownership.Sessions the daemon's sessions, Ownership.Cleanup their closing,
--               Ownership.Purge the end of tabs, documents and bridges, and Ownership.Traces the runs
--   Native      addon/js/background/nm.js and content-ports.js: Native.Client the port, the requests and
--               the reconnection, Native.Frames the packed input reports, Native.Posts where they go, and
--               Native.Devices the device cache
--   Messages    addon/js/background/messages.js: Messages.Opening handleOpen, in the parts between its
--               waits, Messages.Access closing, the data plane and reports,
--               Messages.Pairing what an origin is shown, and
--               Messages.Destroyed the end of a document
--   Grants      addon/js/background/storage.js over an interface of IndexedDB (Grants.Stores):
--               Grants.Allowed the granted devices and their descriptions, and Grants.Revoke the groups and
--               what a revocation takes
--   Grouping    addon/js/utils/device-filters.js
--   Policy      the `hid` feature of Permissions-Policy: Policy.Allowlists is parseHidPolicy,
--               intersectAllowlists and listAllows, and Policy.Frames storePermissionsPolicy and the clearing
--               of addon/js/background/webrequest.js, with policyForRequest, handleSetFrameDelegation
--               and the deletes of handleFrameDestroyed of addon/js/background/messages.js
--   Bootstrap   createBootstrapGate of addon/js/content/isolated/bootstrap-lifetime.js, for one window:
--               Bootstrap.Candidates the candidates and Bootstrap.Gate their transition
--   Bridge      addon/js/content/isolated/bridge.js: Bridge.Control the control port to the background,
--               Bridge.Planes the generations of data planes, Bridge.Keys the keys of planes,
--               Bridge.Data the reports that are forwarded to the background, and Bridge.Allowed the
--               devices that an origin may use
--   Page        addon/js/content/main/index.js, for one HIDDevice: Page.Ports its data port,
--               Page.Planes the planes that the page runs itself, Page.Reports the reports and their promises, and Page.Calls the calls of the interface
--
-- A function keeps its name, in snake case. A Uint8Array is a list of numbers; a JavaScript `Map` is an
-- association list in insertion order; the module's maps are one `State` that each function takes and
-- returns. The identity of an owner object is its field `ref`, drawn from a counter. closeForCleanup
-- waits for the daemon, so `start_close` is what it does before and `finish_close` what it does after;
-- a purge returns the closes that it starts, and a run of Ownership.Traces settles them later, in any
-- order, with any reply. The device ids and tokens are numbers and texts, 0 and the empty text standing
-- for what the code refuses as falsy.
--
-- The loop of parseInputReports is on fuel, as many rounds as the batch has bytes: each round takes two
-- bytes at least, and a theorem shows that it never runs out. The loop of onPackedData is on fuel in the
-- same way, each round taking three bytes at least. The loop of allocateDataReqId is on fuel, two rounds
-- more than twice the requests that are pending; a theorem shows that this is enough, also when the
-- sequence wraps around, while fewer requests are pending than there are safe integers.
--
-- What the browser answers is an argument: the port that connectNative gave or its failure, whether a
-- post threw, which timer fired. A pending request of NativeMessaging is its id, and the code's promise
-- is the list of answers that a run collects.
--
-- An async function is cut at its waits: open() of a device is open_begins, open_answered, open_bridged,
-- open_waited and open_abandoned, and a run of Page.Calls takes the stages, the messages and the callbacks
-- in any order, so that it covers every interleaving. Each operation returns the new state and a list of
-- effects; what a theorem says of promises and ports is counted in that list. The identities of the
-- bootstrap gate and their tests are parameters, as they are dependencies of createBootstrapGate, and a
-- run may choose the answers of its other dependencies anew in each turn. tryPromote's loop and the
-- control queue's recursion are by recursion on the list that they shorten.
--
-- Not modelled: what the browser does (messages, tabs, listeners, timers), the daemon, the picker of the
-- background, the rewriting of Content Security Policies, the descriptor decoder, the bridge's handling of
-- pages' requests, navigator.hid and requestDevice in the page, the workers and their transports,
-- and the pages of the add-on. A Permissions-Policy header is taken as its parsed tokens, since the code
-- splits it by regular expressions and the browser's URL.
pub mod Prelude
pub mod Wire
pub mod Ownership
pub mod Native
pub mod Messages
pub mod Grants
pub mod Grouping
pub mod Bridge
pub mod Bootstrap
pub mod Page
pub mod Policy
