-- ===== src/Barriers.antt =====
-- GodotGpuBarrierShadowPlanner of bridge/godot_extension/src/GodotGpuBarrierShadowPlanner.h: which GPU
-- commands need a barrier before them, from the resources they read and write. A resource is the bit
-- pattern of its `int64_t`. An `std::unordered_set` is a list without repeats.
pub mod Order
pub mod Epoch
use aether_kiri.Prelude.{
  ℕ, ◌+◌, ◌%◌, ◌^◌, Bool, true, false, not, ◌&&◌, ◌||◌, List, [], ◌∷◌, ◌==◌, if◌then◌else◌,
  is_empty,
}

pub record Step : Type 0 where
  pub barrier : Bool
  pub raw : Bool
  pub waw : Bool
  pub war : Bool

-- The members are `uint64_t` and wrap.
pub record Counters : Type 0 where
  pub barriers : ℕ
  pub raw : ℕ
  pub waw : ℕ
  pub war : ℕ

pub record Planner : Type 0 where
  pub pending_reads : List ℕ
  pub pending_writes : List ℕ
  pub counters : Counters

-- The arguments of one `record` call.
pub record Access : Type 0 where
  pub reads : List ℕ
  pub writes : List ℕ

abbrev pub new_planner : Planner
new_planner = record {
  pending_reads = [];
  pending_writes = [];
  counters = record { barriers = 0; raw = 0; waw = 0; war = 0 };
}

-- `std::unordered_set::find`
unfoldable pub contains : ℕ → List ℕ → Bool
contains r [] = false
contains r (p ∷ pending) = p == r || contains r pending

unfoldable pub intersects : List ℕ → List ℕ → Bool
intersects [] pending = false
intersects (r ∷ resources) pending =
    if not (r == 0) && contains r pending then true else intersects resources pending

-- `std::unordered_set::insert`
unfoldable pub insert_resource : ℕ → List ℕ → List ℕ
insert_resource r pending = if contains r pending then pending else r ∷ pending

unfoldable pub insert_valid : List ℕ → List ℕ → List ℕ
unfolding insert_resource
insert_valid pending [] = pending
insert_valid pending (r ∷ resources) =
    insert_valid (if not (r == 0) then insert_resource r pending else pending) resources

unfoldable pub clear_pending : Planner → Planner
clear_pending p = record p { pending_reads = []; pending_writes = [] }

-- n += flag ? 1u : 0u
abbrev pub count : Bool → ℕ → ℕ
count flag n = (n + (if flag then 1 else 0)) % 2 ^ 64

unfoldable pub hazards : Planner → Access → Step
hazards p a =
    let raw = intersects a.reads p.pending_writes in
    let waw = intersects a.writes p.pending_writes in
    let war = intersects a.writes p.pending_reads in
    record { barrier = (raw || waw) || war; raw = raw; waw = waw; war = war }

-- The branch that is taken before a step with a barrier.
unfoldable pub begin_epoch : Step → Planner → Planner
unfolding clear_pending
begin_epoch s p = clear_pending (record p {
  counters = record {
    barriers = count true p.counters.barriers;
    raw = count s.raw p.counters.raw;
    waw = count s.waw p.counters.waw;
    war = count s.war p.counters.war;
  };
})

unfoldable pub insert_access : Access → Planner → Planner
insert_access a p = record p {
  pending_reads = insert_valid p.pending_reads a.reads;
  pending_writes = insert_valid p.pending_writes a.writes;
}

-- GodotGpuBarrierShadowPlanner::record
unfoldable pub record_step : Planner → Access → Planner × Step
unfolding hazards begin_epoch insert_access
record_step p a =
    let step = hazards p a in
    (insert_access a (if step.barrier then begin_epoch step p else p), step)

unfoldable pub finish : Planner → Planner × Bool
unfolding clear_pending
finish p =
    let barrier = not (is_empty p.pending_writes) in
    let counted =
      if barrier
      then record p { counters = record p.counters { barriers = count true p.counters.barriers } }
      else p in
    (clear_pending counted, barrier)

unfoldable pub reset : Planner → Planner
unfolding clear_pending
reset p = clear_pending p

unfoldable pub has_pending_reads : Planner → Bool
has_pending_reads p = not (is_empty p.pending_reads)

unfoldable pub has_pending_writes : Planner → Bool
has_pending_writes p = not (is_empty p.pending_writes)

-- Whether any command of a sequence needs a barrier before it.
unfoldable pub any_barrier : Planner → List Access → Bool
any_barrier p [] = false
any_barrier p (a ∷ rest) = let (p', step) = record_step p a in step.barrier || any_barrier p' rest
