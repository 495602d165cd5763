-- ===== src/Tests/Sample.antt =====
-- A small host: a system that gives the address 16, and two runtime providers. The outside state is a
-- number.
use aether_kiri.Prelude.{ℕ, true, false, ℤ, pos, none, some, List, [], ◌∷◌, Text, text}
use aether_kiri.Engine.Calls.{ok, plain, CreateDesc, StartupState}
use aether_kiri.Engine.Provider.{Session, Provider}
use aether_kiri.Engine.Services.{Os}
use aether_kiri.Registry.{Registered, Registry}
use aether_kiri.Dispatch.State.{Backend, Thread, Handle, World, Local}

abbrev pub system : Os ℕ
system = record {
  list_directory = λ env path. [];
  allocate = λ env. (env, 16);
  attach_log = λ env path. (env, false);
  start_thread = λ env. (env, none);
}

-- A provider that logs, asks for a dialog and opens every game.
abbrev pub provider_at : ℕ → Text → ℤ → ℤ → Provider ℕ
provider_at address id priority score = record {
  address = address;
  struct_size = 360;
  api_version = 0x01000000;
  runtime_id = some id;
  priority = priority;
  probe = some (λ env path. (env, some score));
  create =
      some (λ env desc.
        Session.log 2 none (some (text "up")) (Session.finish env (some (some ok, 7))));
  destroy = some (λ env runtime. Session.finish env (some tt));
  open_game = some (λ env runtime path script.
      Session.request (some (text "dialog")) (some (text "hello")) (Session.finish env (some ok)));
  tick = some (λ env runtime delta_ms. Session.finish env (some ok));
  has = λ m. true;
  invoke = λ c env runtime. Session.finish env (some (plain ok));
  last_error = λ env runtime. none;
}

abbrev pub plain_provider : Provider ℕ
plain_provider = provider_at 100 (text "plain") (pos 1) (pos 50)

abbrev pub better_provider : Provider ℕ
better_provider = provider_at 200 (text "better") (pos 2) (pos 50)

abbrev pub entry_of : Provider ℕ → Text → ℕ → Registered ℕ
entry_of p id order = record {
  api = p;
  runtime_id = id;
  registration_order = order;
  is_legacy_builtin = false;
}

abbrev pub empty_registry : Registry ℕ
empty_registry = record {
  providers = [];
  next_registration_order = 0;
  legacy_builtin_registered = false;
  shader_execute = 0;
  shader_user_data = 0;
}

abbrev pub fresh : World ℕ
fresh = record {
  env = 0;
  os = system;
  build = record { artemis_enabled = false; beta_runtime_allowed = true };
  registry = empty_registry;
  services = none;
  handles = [];
  media_handles = [];
  thread_error = [];
}

abbrev pub description : CreateDesc
description = record {
  struct_size = 96;
  api_version = 0x01060000;
  writable_path = none;
  cache_path = none;
  user_data = 0;
}

-- A handle on the provider, with its runtime 7, and a queue of requests.
abbrev pub handle_with : Thread → List (Text × Text) → Handle ℕ
handle_with thread requests = record {
  legacy = 0;
  backend = Backend.provider;
  provider = some plain_provider;
  runtime = 7;
  create_desc = description;
  writable_path = [];
  cache_path = [];
  requested_runtime = text "auto";
  beta_runtime_allowed = true;
  pending_options = [];
  surface_width = 0;
  surface_height = 0;
  has_surface_size = false;
  shader_execute = 0;
  provider_media_handles = [];
  startup_thread = thread;
  startup_state = StartupState.idle;
  startup_logs = [];
  platform_requests = requests;
  last_error = [];
  provider_resume_pending = false;
}

abbrev pub inside : Thread → List (Text × Text) → Local ℕ
inside thread requests = record { world = fresh; handle = handle_with thread requests }

abbrev pub two_requests : List (Text × Text)
two_requests = (text "dialog", text "hello") ∷ (text "menu", text "") ∷ []
