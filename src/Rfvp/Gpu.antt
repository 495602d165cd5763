-- ===== src/Rfvp/Gpu.antt =====
-- The GPU bridge of the rfvp provider (bridge/rfvp_runtime/src/rfvp_runtime_provider.cpp): the host's
-- callbacks, which the adapter calls through the provider. A null callback is `none`; arguments that are
-- only passed on stand for themselves.
use aether_kiri.Prelude.{
  ℕ, ◌≡◌, arith, refl, Bool, true, false, not, ◌||◌, Option, none, some, List, is_some, ltb, ◌==◌,
  if◌then◌else◌,
}

-- The callbacks of TVPGodotGpuBridgeCallbacks that the provider uses.
pub record Bridge (E : Type 0) : Type 0 where
  pub create_rgba : Option (List ℕ → E → E × ℕ)
  pub release_texture : Option (ℕ → E → E)
  pub update_rgba : Option (List ℕ → E → E × Bool)
  pub clear_rgba : Option (List ℕ → E → E × Bool)
  pub draw_triangles : Option (List ℕ → E → E × Bool)
  pub read_rgba : Option (List ℕ → E → E × Bool)
  pub flush : Option (E → E × Bool)

-- TVPGodotGpuBatchCallbacks
pub record Batch (E : Type 0) : Type 0 where
  pub struct_size : ℕ
  pub abi_version : ℕ
  pub begin_batch : Option (E → E × ℕ)
  pub end_batch : Option (ℕ → E → E × Bool)

-- g_gpu_bridge, g_gpu_batch and g_gpu_bridge_registered
pub record Gpu (E : Type 0) : Type 0 where
  pub bridge : Bridge E
  pub batch : Batch E
  pub registered : Bool

-- The size and the version of TVPGodotGpuBatchCallbacks that the provider is compiled with.
pub record BatchAbi : Type 0 where
  pub size : ℕ
  pub version : ℕ

no_gpu_closed : false ≡ true → ⊥
no_gpu_closed p = cc

module _ {E : Type 0} where
  abbrev pub no_bridge : Bridge E
  no_bridge = record {
    create_rgba = none;
    release_texture = none;
    update_rgba = none;
    clear_rgba = none;
    draw_triangles = none;
    read_rgba = none;
    flush = none;
  }

  abbrev pub no_batch : Batch E
  no_batch = record { struct_size = 0; abi_version = 0; begin_batch = none; end_batch = none }

  abbrev pub no_gpu : Gpu E
  no_gpu = record { bridge = no_bridge; batch = no_batch; registered = false }

  unfoldable pub is_incomplete : BatchAbi → Bridge E → Batch E → Bool
  is_incomplete abi c b =
      (((((((((ltb b.struct_size abi.size || not (b.abi_version == abi.version))
                      || not (is_some c.create_rgba))
                    || not (is_some c.release_texture))
                  || not (is_some c.update_rgba))
                || not (is_some c.clear_rgba))
              || not (is_some c.draw_triangles))
            || not (is_some c.read_rgba))
          || not (is_some c.flush))
        || not (is_some b.begin_batch))
      || not (is_some b.end_batch)

  -- RegisterGpuBridge; a null table is `none`.
  unfoldable pub register_gpu_bridge : BatchAbi → Option (Bridge E) → Option (Batch E) → Gpu E
  unfolding is_incomplete
  register_gpu_bridge abi none b = no_gpu
  register_gpu_bridge abi (some c) none = no_gpu
  register_gpu_bridge abi (some c) (some b) =
      if is_incomplete abi c b then no_gpu else record { bridge = c; batch = b; registered = true }

  -- A callback that returns a number, 0 without one.
  abbrev call_number : Bool → Option (E → E × ℕ) → E → E × ℕ
  call_number registered none env = (env, 0)
  call_number registered (some f) env = if registered then f env else (env, 0)

  -- A callback that returns a flag, false without one.
  abbrev call_flag : Bool → Option (E → E × Bool) → E → E × Bool
  call_flag registered none env = (env, false)
  call_flag registered (some f) env = if registered then f env else (env, false)

  abbrev with_arguments : {A : Type 0} → List ℕ → Option (List ℕ → E → E × A) → Option (E → E × A)
  with_arguments arguments none = none
  with_arguments arguments (some f) = some (f arguments)

  unfoldable pub gpu_create : Gpu E → List ℕ → E → E × ℕ
  gpu_create g arguments = call_number g.registered (with_arguments arguments g.bridge.create_rgba)

  abbrev call_release : Bool → Option (ℕ → E → E) → ℕ → E → E
  call_release registered none texture env = env
  call_release registered (some f) texture env = if registered then f texture env else env

  unfoldable pub gpu_release : Gpu E → ℕ → E → E
  gpu_release g texture = call_release g.registered g.bridge.release_texture texture

  unfoldable pub gpu_update : Gpu E → List ℕ → E → E × Bool
  gpu_update g arguments = call_flag g.registered (with_arguments arguments g.bridge.update_rgba)

  unfoldable pub gpu_clear : Gpu E → List ℕ → E → E × Bool
  gpu_clear g arguments = call_flag g.registered (with_arguments arguments g.bridge.clear_rgba)

  unfoldable pub gpu_draw : Gpu E → List ℕ → E → E × Bool
  gpu_draw g arguments = call_flag g.registered (with_arguments arguments g.bridge.draw_triangles)

  unfoldable pub gpu_read : Gpu E → List ℕ → E → E × Bool
  gpu_read g arguments = call_flag g.registered (with_arguments arguments g.bridge.read_rgba)

  unfoldable pub gpu_begin : Gpu E → E → E × ℕ
  gpu_begin g = call_number g.registered g.batch.begin_batch

  abbrev with_token : ℕ → Option (ℕ → E → E × Bool) → Option (E → E × Bool)
  with_token token none = none
  with_token token (some f) = some (f token)

  unfoldable pub gpu_end : Gpu E → ℕ → E → E × Bool
  gpu_end g token = call_flag g.registered (with_token token g.batch.end_batch)

  unfoldable pub gpu_flush : Gpu E → E → E × Bool
  gpu_flush g = call_flag g.registered g.bridge.flush

  -- GpuCallbacks: whether the adapter gets the provider's functions.
  unfoldable pub gpu_callbacks : Gpu E → Bool
  gpu_callbacks g = g.registered

  -- All callbacks are there: the provider's functions that the adapter gets always reach the host.
  pub record IsComplete (g : Gpu E) : Type 0 where
    pub create_rgba : is_some g.bridge.create_rgba ≡ true
    pub release_texture : is_some g.bridge.release_texture ≡ true
    pub update_rgba : is_some g.bridge.update_rgba ≡ true
    pub clear_rgba : is_some g.bridge.clear_rgba ≡ true
    pub draw_triangles : is_some g.bridge.draw_triangles ≡ true
    pub read_rgba : is_some g.bridge.read_rgba ≡ true
    pub flush : is_some g.bridge.flush ≡ true
    pub begin_batch : is_some g.batch.begin_batch ≡ true
    pub end_batch : is_some g.batch.end_batch ≡ true

  IsComplete-of_test :
      (abi : BatchAbi) (c : Bridge E) (b : Batch E)
      → is_incomplete abi c b ≡ false
      → IsComplete (record { bridge = c; batch = b; registered = true })
  unfolding is_incomplete
  IsComplete-of_test abi c b h = ground arith

  -- The adapter gets functions only when every callback behind them is there.
  pub register_gpu_bridge-IsComplete :
      (abi : BatchAbi) (c : Option (Bridge E)) (b : Option (Batch E))
      → gpu_callbacks (register_gpu_bridge abi c b) ≡ true
      → IsComplete (register_gpu_bridge abi c b)
  unfolding register_gpu_bridge gpu_callbacks
  register_gpu_bridge-IsComplete abi none b h = absurd (no_gpu_closed h)
  register_gpu_bridge-IsComplete abi (some c) none h = absurd (no_gpu_closed h)
  register_gpu_bridge-IsComplete abi (some c) (some b) h = by_test (is_incomplete abi c b) refl h
    where
      by_test :
          (t : Bool)
          → is_incomplete abi c b ≡ t
          → (if t then no_gpu else record { bridge = c; batch = b; registered = true }).registered
            ≡ true
          → IsComplete (if t then no_gpu else record { bridge = c; batch = b; registered = true })
      by_test true e p = absurd (no_gpu_closed p)
      by_test false e p = IsComplete-of_test abi c b e
