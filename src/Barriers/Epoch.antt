-- ===== src/Barriers/Epoch.antt =====
-- The planner against its description: the commands since the last barrier
-- (bridge/godot_extension/src/GodotGpuBarrierShadowPlanner.h).
use aether_kiri.Prelude.{
  ℕ, ◌≡◌, ◌≢◌, ◌↔◌, ◌⊎◌, inl, inr, refl, Bool, true, false, not, ◌&&◌, ◌||◌, List, [], ◌∷◌, ◌++◌,
  arith, ◌==◌, Bool-cases, if◌then◌else◌, is_empty,
}
use aether_kiri.Barriers.{
  Planner, Access, contains, intersects, record_step, hazards, begin_epoch, insert_access, finish,
  new_planner, clear_pending,
}
use aether_kiri.Barriers.Order.{contains-insert_valid, intersects_of_contains}

-- All that the commands of an epoch read, and write.
unfoldable pub all_reads : List Access → List ℕ
all_reads [] = []
all_reads (a ∷ epoch) = a.reads ++ all_reads epoch

unfoldable pub all_writes : List Access → List ℕ
all_writes [] = []
all_writes (a ∷ epoch) = a.writes ++ all_writes epoch

-- A resource that is not 0 stands in both lists.
abbrev pub Shares : List ℕ → List ℕ → Type 0
Shares xs ys = (k : ℕ) × (k ≢ 0) × (contains k xs ≡ true) × (contains k ys ≡ true)

-- The sets of the planner hold what the epoch, newest command first, reads and writes.
pub record Tracks (p : Planner) (epoch : List Access) : Type 0 where
  pub reads : (k : ℕ) → contains k p.pending_reads ≡ not (k == 0) && contains k (all_reads epoch)
  pub writes : (k : ℕ) → contains k p.pending_writes ≡ not (k == 0) && contains k (all_writes epoch)

contains-append : (k : ℕ) (xs ys : List ℕ) → contains k (xs ++ ys) ≡ contains k xs || contains k ys
unfolding contains
contains-append k [] ys = refl
contains-append k (x ∷ xs) ys = ground (arith, contains-append k xs ys)

Shares-cons : (x : ℕ) (xs ys : List ℕ) → Shares xs ys → Shares (x ∷ xs) ys
unfolding contains
Shares-cons x xs ys (k, n, hx, hy) = (k, n, ground arith, hy)

false_ne_true : false ≡ true → ⊥
false_ne_true h = cc

-- `intersects` finds a shared resource, and only such.
Shares-of_intersects : (xs ys : List ℕ) → intersects xs ys ≡ true → Shares xs ys
unfolding intersects contains
Shares-of_intersects [] ys h = absurd (false_ne_true h)
Shares-of_intersects (x ∷ xs) ys h = elim (Bool-cases (not (x == 0) && contains x ys)) [
  | inl e ↦ (x, ground arith, ground arith, ground arith)
  | inr e ↦ Shares-cons x xs ys (Shares-of_intersects xs ys (ground arith))
]

intersects_iff :
    (xs pending all : List ℕ)
    → ((k : ℕ) → contains k pending ≡ not (k == 0) && contains k all)
    → (intersects xs pending ≡ true) ↔ Shares xs all
intersects_iff xs pending all h = (
  λ e.
      let (k, n, hx, hp) = Shares-of_intersects xs pending e in (k, n, hx, ground (arith, h k, hp)),
  λ s. intersects_of_contains s.0 xs pending s.1 s.2 (ground (arith, h s.0, s.1, s.3)),
)

-- The epoch after a command.
abbrev pub next_epoch : Bool → Access → List Access → List Access
next_epoch barrier a epoch = a ∷ (if barrier then [] else epoch)

insert_access-Tracks :
    (p : Planner) (a : Access) (epoch : List Access)
    → Tracks p epoch
    → Tracks (insert_access a p) (a ∷ epoch)
unfolding insert_access all_reads all_writes
insert_access-Tracks p a epoch t = record {
  reads = λ k. ground (
    arith,
    t.reads k,
    contains-insert_valid k a.reads p.pending_reads,
    contains-append k a.reads (all_reads epoch),
  );
  writes = λ k. ground (
    arith,
    t.writes k,
    contains-insert_valid k a.writes p.pending_writes,
    contains-append k a.writes (all_writes epoch),
  );
}

clear_pending-Tracks : (p : Planner) → Tracks (clear_pending p) []
unfolding clear_pending contains all_reads all_writes
clear_pending-Tracks p = record { reads = λ k. ground arith; writes = λ k. ground arith }

pub new_planner-Tracks : Tracks new_planner []
unfolding contains all_reads all_writes
new_planner-Tracks = record { reads = λ k. ground arith; writes = λ k. ground arith }

record_step-Tracks :
    (p : Planner) (a : Access) (epoch : List Access)
    → Tracks p epoch
    → Tracks (record_step p a).0 (next_epoch (record_step p a).1.barrier a epoch)
unfolding record_step begin_epoch
record_step-Tracks p a epoch t = elim (Bool-cases (hazards p a).barrier) [
  | inl e ↦ rw e (
      insert_access-Tracks (begin_epoch (hazards p a) p) a []
        (clear_pending-Tracks (record p { counters = (begin_epoch (hazards p a) p).counters })))
  | inr e ↦ rw e (insert_access-Tracks p a epoch t)
]

-- What a command's step says, in terms of the epoch before it.
pub record IsExact (p : Planner) (a : Access) (epoch : List Access) : Type 0 where
  pub raw : ((record_step p a).1.raw ≡ true) ↔ Shares a.reads (all_writes epoch)
  pub waw : ((record_step p a).1.waw ≡ true) ↔ Shares a.writes (all_writes epoch)
  pub war : ((record_step p a).1.war ≡ true) ↔ Shares a.writes (all_reads epoch)
  pub barrier : ((record_step p a).1.barrier ≡ true) ↔ (
      (record_step p a).1.raw ≡ true
      ⊎ (record_step p a).1.waw ≡ true
      ⊎ (record_step p a).1.war ≡ true)
  pub next : Tracks (record_step p a).0 (next_epoch (record_step p a).1.barrier a epoch)

or3_iff : (x y z : Bool) → (((x || y) || z) ≡ true) ↔ ((x ≡ true) ⊎ (y ≡ true) ⊎ (z ≡ true))
or3_iff x y z = ground arith

-- While the sets hold the commands since the last barrier, a command gets a read-after-write,
-- write-after-write or write-after-read mark exactly when it shares a resource other than 0 with them
-- in this way, a barrier exactly when it gets a mark, and afterwards the sets hold the commands since
-- the last barrier again.
pub record_step-IsExact :
    (p : Planner) (a : Access) (epoch : List Access) → Tracks p epoch → IsExact p a epoch
unfolding record_step hazards
record_step-IsExact p a epoch t = record {
  raw = intersects_iff a.reads p.pending_writes (all_writes epoch) t.writes;
  waw = intersects_iff a.writes p.pending_writes (all_writes epoch) t.writes;
  war = intersects_iff a.writes p.pending_reads (all_reads epoch) t.reads;
  barrier = or3_iff _ _ _;
  next = record_step-Tracks p a epoch t;
}

-- A resource other than 0 is written in the epoch.
abbrev pub Writes : List Access → Type 0
Writes epoch = (k : ℕ) × (k ≢ 0) × (contains k (all_writes epoch) ≡ true)

not_empty-Writes :
    (pending : List ℕ) (epoch : List Access)
    → ((k : ℕ) → contains k pending ≡ not (k == 0) && contains k (all_writes epoch))
    → (not (is_empty pending) ≡ true) ↔ Writes epoch
unfolding contains
not_empty-Writes [] epoch h = (λ e. absurd (false_ne_true e), λ w. ground (arith, h w.0, w.1, w.2))
not_empty-Writes (k ∷ pending) epoch h =
    (λ e. (k, ground (arith, h k), ground (arith, h k)), λ w. refl)

-- While the sets hold the commands since the last barrier, finishing asks for a completion barrier
-- exactly when one of them writes a resource other than 0, and starts an empty epoch.
pub finish-IsExact :
    (p : Planner) (epoch : List Access)
    → Tracks p epoch
    → (((finish p).1 ≡ true) ↔ Writes epoch) × Tracks (finish p).0 []
unfolding finish contains all_reads all_writes
finish-IsExact p epoch t = (
  not_empty-Writes p.pending_writes epoch t.writes,
  record { reads = λ k. ground arith; writes = λ k. ground arith },
)
