-- ===== src/Lib.antt =====
-- A model of AetherKiri's host side: the C API (abi/) through which an application drives one of
-- several visual-novel engines. abi/src/engine_api_dispatch.cpp holds the live handles and sends each
-- call to the KiriKiri engine, through a table of services, or to a runtime provider, which
-- abi/src/engine_runtime_provider.cpp keeps in a list. Opening a game selects the backend once:
-- the provider whose probe of the directory ranks best, or the KiriKiri engine.
--
-- Files:
--   Prelude and its children: Boolean tests, lists, integers, byte strings and maps.
--   Engine.Calls: results, structures and calls of abi/include/engine_api.h. Engine.Provider: a runtime
--     provider (abi/include/engine_runtime_provider.h). Engine.Services: the services table
--     (abi/src/engine_legacy_services.h) and the operating system as far as the host calls it.
--   Registry: engine_runtime_provider.cpp, all functions. Registry.Unique: identifiers and
--     registration orders. Registry.Probe: the directory probe.
--   Dispatch: engine_api_dispatch.cpp. State has DispatchHandle (Handle) and the globals (World); Errors
--     has SetProviderError, SetLegacyError, EnsureLegacyLocked, CheckBetaRuntimeAccess; Callbacks has
--     HostLog, HostPlatformRequest and the HostMedia functions; Select has SelectBackendLocked; Route
--     has ValidateHandleLocked and Route; Queues, Open, Lifecycle, Run, Options, Queries and Media have
--     the API functions under their C names; Api lists them all.
--   Dispatch.Keeps, Frame and Invariant: preservation rules, what provider callbacks leave alone, and
--     the invariant of the live handles. Dispatch.Ranking, Probing, Logs, Fifo, Creation, Startup,
--     Reopen, Resume and Release: selection, log draining, platform requests, creating, opening,
--     resuming and destroying. Dispatch.Gone: calls on a destroyed handle.
--   InputGate: PrimaryClickQueueGate of abi/src/engine_input_queue_gate.h, with a queue behind it in
--     InputGate.Gestures (bounds) and InputGate.Edges (presses and releases).
--   TextTransform: abi/src/TextTransform.cpp and the text functions of engine_api_dispatch.cpp.
--     TextTransform.FailOpen: what comes back for a text.
--   Stub: abi/src/engine_api_stub.cpp, the engine of builds without KiriKiri. State has engine_handle_s
--     (Engine) and the globals (Stub); Json, Diagnostics, Life, Frames and Media have the functions of
--     its table, under their C names, with media_set_volume, which the table leaves out; Api has the
--     table. Session is the specification; Sound, Serve, Bodies, Perform and Refine relate it to the
--     functions. Trim, Drain and RoundTrip: diagnostic events. Dead: handles that are not live.
--   Barriers: bridge/godot_extension/src/GodotGpuBarrierShadowPlanner.h. Barriers.Order: conflicting
--     commands. Barriers.Epoch: the commands since the last barrier.
--   Rfvp: bridge/rfvp_runtime/src/rfvp_runtime_provider.cpp. State has Runtime and result; Calls has
--     the provider's functions, Run sequences of them, and Gpu the bridge to Godot's GPU. Settings and
--     Options: the three settings that a game is opened with.
--   Onscripter: from bridge/onscripter_runtime, include/onscripter_presentation.h in Presentation
--     (bounds in Viewport) and IsOnsSaveFileName of src/onscripter_save_storage.cpp in SaveFiles
--     (its names in SaveNames).
--   Siglus: bridge/siglus_runtime/src/siglus_runtime_provider.cpp. State has ProviderRuntime (Runtime);
--     Open, Frames, Controls, Input and Queries have the provider's functions, and Run sequences of
--     them. Typing: typed characters in UTF-8. Exit: a game that asked to be left.
--   Tests: concrete runs.
--
-- How the code is read:
--   An API function takes the globals and returns a reply with new globals, or nothing where the code
--     calls through a null pointer or lets an exception through (a fault). Functions that hold a
--     handle's mutex work on a Local, the globals with one handle.
--   What the repository's host does not define is a parameter: a provider is a record of arbitrary
--     functions, a provider call is a tree of callbacks into the host that ends with a value or an
--     exception (Session), and the services table and the system are records of functions on an outside
--     state of any type.
--   The startup thread of engine_open_game_async is a state of the handle (Thread) that
--     startup_thread_step moves between the calls of the host: the provider's open_game is one step and
--     the publication of its result another. engine_destroy runs the steps that are left, two at most.
--   A call that holds a mutex is one step. A provider's callbacks happen within its own calls.
--   Pointers are numbers, 0 for null; sizes are those of 64-bit systems; a double is its bit pattern.
--   std::unordered_map is a list of pairs in order of insertion, one of the orders that the code may
--     have when it replays options. All loops are structural recursion, so no fuel is needed.
--   The rfvp adapter and the Siglus shell, which are written in Rust, are records of functions on a
--     state of any type, the Siglus one with the shared textures and the sound output; a text callback
--     is a function that may throw. The addresses that new returns and the readings of
--     the clock are arguments. The stub answers nothing where it would take the front of an empty queue.
--   The build is one without text translation; whether the Artemis runtime is in it, and the first
--     value of beta_runtime_allowed, are parameters.
--
-- Not modelled: memory statistics of Apple's systems, logging to files and crash reports; of the rfvp
-- provider its directory probe, the checks of structure sizes in Create, and its registration; of the
-- Siglus runtime the directory probe, the registration, sound, pictures and shared textures; of the
-- ONScripter runtime everything but the two parts named above; the KiriKiri engine and
-- its services; the rest of the Godot extension, the application, and the other front ends.
pub mod Prelude
pub mod Engine
pub mod Registry
pub mod Dispatch
pub mod InputGate
pub mod Barriers
pub mod Stub
pub mod Rfvp
pub mod Onscripter
pub mod TextTransform
pub mod Siglus
pub mod Tests
