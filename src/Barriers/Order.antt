-- ===== src/Barriers/Order.antt =====
-- Commands that touch the same resource are separated by a barrier, if one of them writes it
-- (bridge/godot_extension/src/GodotGpuBarrierShadowPlanner.h).
use aether_kiri.Prelude.{
  ℕ, ◌≡◌, ◌≢◌, inl, inr, refl, Bool, true, false, ◌&&◌, ◌||◌, List, [], ◌∷◌, ◌++◌, arith, ◌==◌,
  Bool-cases, if◌then◌else◌, not, subst,
}
use aether_kiri.Barriers.{
  Planner, Access, contains, intersects, insert_resource, insert_valid, record_step, any_barrier,
  hazards, begin_epoch, insert_access,
}

pub contains-insert_resource :
    (k r : ℕ) (pending : List ℕ)
    → contains k (insert_resource r pending) ≡ r == k || contains k pending
unfolding contains insert_resource
contains-insert_resource k r pending = elim (Bool-cases (contains r pending)) [
  | inl e ↦ rw e (elim (Bool-cases (r == k)) [ inl s ↦ ground (arith, e) | inr s ↦ ground arith ])
  | inr e ↦ ground arith
]

-- What `insert_valid` leaves in the set: what was there, and the resources that are not 0.
pub contains-insert_valid :
    (k : ℕ) (resources pending : List ℕ)
    → contains k (insert_valid pending resources)
      ≡ contains k pending || (not (k == 0) && contains k resources)
unfolding insert_valid contains
contains-insert_valid k [] pending = ground arith
contains-insert_valid k (r ∷ resources) pending = ground (
  arith,
  contains-insert_resource k r pending,
  contains-insert_valid k resources pending,
  contains-insert_valid k resources (insert_resource r pending),
)

-- A resource that is not 0 and stands in both lists is found.
pub intersects_of_contains :
    (k : ℕ) (resources pending : List ℕ)
    → k ≢ 0
    → contains k resources ≡ true
    → contains k pending ≡ true
    → intersects resources pending ≡ true
unfolding intersects contains
intersects_of_contains k [] pending n h g = cc
intersects_of_contains k (r ∷ resources) pending n h g =
    ground (arith, intersects_of_contains k resources pending)

abbrev pub touches : ℕ → Access → Bool
touches k a = contains k a.reads || contains k a.writes

-- The later access must wait for the earlier one: both touch the resource, and one writes it.
abbrev pub conflict : ℕ → Access → Access → Bool
conflict k earlier later =
    (contains k earlier.writes && touches k later)
    || (contains k earlier.reads && contains k later.writes)

-- What an access of an epoch leaves behind, so that a later one that conflicts finds it.
abbrev remembers : ℕ → Planner → Access → Bool
remembers k p later =
    (contains k p.pending_writes && touches k later)
    || (contains k p.pending_reads && contains k later.writes)

hazards_of_remembers :
    (k : ℕ) (p : Planner) (later : Access)
    → k ≢ 0
    → remembers k p later ≡ true
    → (hazards p later).barrier ≡ true
unfolding hazards
hazards_of_remembers k p later n h = ground (
  arith,
  intersects_of_contains k later.reads p.pending_writes n,
  intersects_of_contains k later.writes p.pending_writes n,
  intersects_of_contains k later.writes p.pending_reads n,
)

step_remembers :
    (k : ℕ) (p : Planner) (a later : Access)
    → (hazards p a).barrier ≡ false
    → remembers k p later ≡ true
    → remembers k (record_step p a).0 later ≡ true
unfolding record_step
step_remembers k p a later e h = rw e (
    ground (
      arith,
      h,
      contains-insert_valid k a.reads p.pending_reads,
      contains-insert_valid k a.writes p.pending_writes,
    ))

insert_access-remembers :
    (k : ℕ) (p : Planner) (a later : Access)
    → k ≢ 0
    → conflict k a later ≡ true
    → remembers k (insert_access a p) later ≡ true
unfolding insert_access
insert_access-remembers k p a later n h = ground (
  arith,
  contains-insert_valid k a.reads p.pending_reads,
  contains-insert_valid k a.writes p.pending_writes,
)

recorded_remembers :
    (k : ℕ) (p : Planner) (a later : Access)
    → k ≢ 0
    → conflict k a later ≡ true
    → remembers k (record_step p a).0 later ≡ true
unfolding record_step
recorded_remembers k p a later n h =
    insert_access-remembers k (if (hazards p a).barrier then begin_epoch (hazards p a) p else p) a
      later n h

remembered-any_barrier :
    (k : ℕ) (between : List Access) (p : Planner) (later : Access)
    → k ≢ 0
    → remembers k p later ≡ true
    → any_barrier p (between ++ later ∷ []) ≡ true
unfolding any_barrier record_step
remembered-any_barrier k [] p later n h = rw (hazards_of_remembers k p later n h) refl
remembered-any_barrier k (a ∷ between) p later n h = elim (Bool-cases (hazards p a).barrier) [
  | inl e ↦ rw e refl
  | inr e ↦ rw e (
      remembered-any_barrier k between (insert_access a p) later n (
        subst
          (λ (b : Bool).
            remembers k (insert_access a (if b then begin_epoch (hazards p a) p else p)) later
            ≡ true)
          e (step_remembers k p a later e h)))
]

-- From any state of the planner: after recording a command, a later command that conflicts with it
-- over a resource that is not 0 comes behind a barrier, which stands before the later command itself
-- or before one of the commands between the two, whatever these are.
pub conflict-IsSeparated :
    (p : Planner) (earlier later : Access) (between : List Access) (k : ℕ)
    → k ≢ 0
    → conflict k earlier later ≡ true
    → any_barrier (record_step p earlier).0 (between ++ later ∷ []) ≡ true
conflict-IsSeparated p earlier later between k n h =
    remembered-any_barrier k between (record_step p earlier).0 later n
      (recorded_remembers k p earlier later n h)
