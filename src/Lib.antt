-- ===== src/Lib.antt =====
-- BlinKit: a headless build of the Blink engine that an application drives through a small C
-- interface, as a crawler. This library models the parts that BlinKit has written or rewritten itself.
--
-- A crawler (blinkit/crawler/crawler_impl.cpp) starts a navigation, which comes back to it as loads.
-- A load is a task (blinkit/loader_tasks/http_loader_task.cpp) that the loader
-- (blinkit/blink_impl/url_loader_impl.cpp) makes; it asks the crawler, makes a request
-- (blinkit/http/curl_request.cpp on request_impl.cpp) that runs on a thread of its own, gets a response
-- (blinkit/http/response_impl.cpp) and posts the rest of its work to the task loop of the main thread
-- (blinkit/posix/task_loop.cpp). Requests and responses share the header map and the URL of
-- blinkit/common. The document that is loaded has a life cycle, fires events at listeners
-- (chromium/third_party/blink/renderer/core/dom) and runs scripts (the folder script beside it), in a
-- context of the script engine (blinkit/js/context_impl.cpp) that hands values to the application
-- (blinkit/js/js_value_impl.cpp). The application object (blinkit/app/app_impl.cpp) starts all this and
-- runs the task loop. On Windows a request stands on WinINet (blinkit/http/win_request.cpp) and tasks
-- on messages and timers (blinkit/blink_impl/win_single_thread_task_runner.cpp). All paths are below
-- the repository's own src, but those below sdk/include.
--
-- Prelude and its children: the names of the libraries that are passed on, tests on numbers, lists
-- with native lengths, windows of lists, texts as lists of bytes.
-- Http/Ascii, Http/Code: the case mappings of base as an interface, and the error codes of bk_def.h.
-- Http/HeaderMap: bk_http_header_map.cpp. The unordered map is an association list in the order of
-- its traversal; `get`, `set`, `remove` and `get_all_for_request` are the operations of the class.
-- Http/Url: bk_url.cpp. The parser of chromium/url is an interface; an offset is a number and a length
-- an integer, and -1 is the length of a component that is absent. `none` is an exception.
-- Http/Response: response_impl.cpp. zlib, the regular expression and the splitting of pairs are
-- interfaces. The loop of `GZipInflate` has fuel.
-- Http/Request: request_impl.cpp, request_controller_impl.h, curl_request.cpp. libcurl is the list of
-- options it is given and the outcome of a transfer; a deleted object counts its deletions. What the code
-- asserts not to be there (a body, a proxy, the controller of libcurl) is not modelled.
-- Http/WinInet, Http/WinRequest: inet.cpp, win_request.cpp. The worker thread is a program point and goes
-- from one wait or read to the next; `Steps` has its steps, the callbacks of WinINet and the calls of
-- the main thread in any order. WinINet is what it answers in a step, and the list of its calls. The
-- fuel is that of `GZipInflate`: on too little of it the thread makes no step. References to the request
-- are not followed there: a cancelled run is that of `Cancel` on an object that lives.
-- Loader/Crawler, Loader/HttpLoaderTask: crawler_impl.cpp, http_loader_task.cpp, loader_task.cpp,
-- url_loader_impl.cpp. The callbacks of the application are functions; a controller is the list of
-- the calls that are made of it.
-- Dom/Lifecycle: document_lifecycle.cpp; `none` is a failed assertion.
-- Dom/Events: event.cpp, registered_event_listener.cc, event_listener_map.cpp and event_target.cpp in
-- the build for crawlers. A callback is a number, and what it does a list of actions on the target and
-- the event; it does not fire an event itself. The loop has fuel, one more than the vector is long,
-- and that is proved to be enough.
-- Dom/Tree: container_node.cpp, the links between nodes, which are numbers. `Edits`, `Promised` and
-- `Replacing` have the same changes on lists of children. `contains` climbs as many parents as it is
-- given; what is said of forests needs as many as the rank of the parent. Dom/Tree/Parser and
-- Dom/Tree/Clearing: the loops have fuel; to remove all children, their number is enough.
-- Dom/Events/Dispatcher: event_dispatcher.cpp, node_event_context.cc and window_event_context.cc. What
-- the nodes do with an event is an interface; a node is its own target, and the path is given.
-- Script/ScriptLoader: script_loader.cpp, `prepare_script` and the calls that lead to it, of an element
-- as it is at each call. Script/ClassicPendingScript: pending_script.cpp and classic_pending_script.cpp,
-- with Script/ScriptStreamer: script_streamer.cpp. Failed assertions and uses of an object behind its
-- end are flags, and the code goes on as in a build without assertions.
-- Script/ScriptRunner: script_runner.cpp. A script is a number and whether it streams; which scripts can
-- start to stream is a function. The posted calls of `ExecuteTask` are counted, and the failed assertions
-- of `DoTryStream` noted.
-- Js/Value, Js/Pins, Js/Context: js_value_impl.cpp and context_impl.cpp. A value is what the calls of
-- Duktape show of it, the stack is a list, and running a script is a parameter; a double and its
-- conversions are an interface. Pins are the hidden keys by which values keep their objects.
-- App: app_impl.cpp and posix_app.cpp, in a build without assertions; the use of a deleted object is
-- an outcome of its own. The loop that it runs is that of Runtime/TaskLoop; three steps of it are
-- enough to leave it.
-- App/WinBackground: win_app.cpp, its background mode: the thread that starts it, its own thread and one
-- that calls BkExitApp, whose steps come in any order. WinApp::Exit is `exit`, BackgroundThread is
-- `background_thread` and InitializeBackgroundInstance is `launch`.
-- View/Updates, View/Mouse: view_impl.cpp, an older interface that the build for crawlers leaves out, as are
-- Loader/HttpLoader and Loader/CookieJar: http_loader.cpp, cookie_jar_impl.cpp. An update makes a given
-- number of requests; times are in one unit of the clock; cookies of net are an interface.
-- Runtime/WinTaskRunners: win_single_thread_task_runner.cpp and win_task_runner.cpp; ticks wrap around
-- at 2 ^ 32, and timers are the numbers that the system gives out.
-- Runtime: task_loop.cpp and posix_task_runner.cpp. A step is a critical section, or an access outside
-- of one; other threads post tasks and call `Exit` between any two steps.
--
-- Not modelled: copies of chromium, of duktape and of other libraries; the prototypes that are registered
-- with the script engine; the ports to Apple's systems; the keys, menus, windows and drawing of views.
pub mod Prelude
pub mod Http
pub mod Loader
pub mod Dom
pub mod Runtime
pub mod Script
pub mod Js
pub mod View
pub mod App
