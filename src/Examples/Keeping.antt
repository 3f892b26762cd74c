-- ===== src/Examples/Keeping.antt =====
-- _examples: the events of the checks that were unhealthy, over the registrations at the start of a
-- program.
use health_go.Base.{
  String, true, false, none, some, List, [], ◌∷◌, ◌≡◌, refl, ◌∙◌, sym, arith, ◌==◌, eq_iff,
  Bool-cases, inl, inr,
}
use health_go.Base.GoMap.{get}
use health_go.Types.{CheckState}
use health_go.Events.Uuid.{IsUuid}
use health_go.Events.Invariant.{IsValid}
use health_go.StatusUpdater.{Env, is_incident}
use health_go.Check.{CheckConfig}
use health_go.Persister.{StatePersister}
use health_go.Health.{register, create_updater}
use health_go.Health.Container.{Container, custom, register_check, load_saved, operations}
use health_go.Health.Service.Created.{create_updater-IsApart}
use health_go.Health.Service.Surviving.{create_updater-held}
use health_go.Examples.{Example, register_all}
use health_go.Examples.Registering.{well_named, is_unused, IsFree, register-IsFree}
use health_go.Examples.Restoring.{register_check-custom}

module _ {S : Type 0} (envs : String → Env) (fed : (name : String) → IsUuid (envs name).uuid)
    (s : S) (p : StatePersister S) (j id : String) (state : CheckState)
    (loaded : (p.load_check_state j s).0 ≡ some state)
    (incident : is_incident state.status ≡ true) where
  -- the tracker is valid, and holds the event of the check
  record Holds (h : Container S) : Type 0 where
    pub valid : IsValid h.health.world.tracker
    pub event : get j h.health.world.tracker.event_ids ≡ some id

  register_check-world :
      (c : CheckConfig) (h : Container S)
      → h.persister ≡ custom (some p)
      → (c.name == "") ≡ false
      → get c.name h.health.checks ≡ none
      → (register_check (envs c.name) c s h).0.health.world
        ≡ (create_updater (envs c.name) c (p.load_check_state c.name s).0 h.health.world).1
  unfolding register_check register
  register_check-world c h installed named free = rw (installed, named, free) refl

  register_check-Holds :
      (c : CheckConfig) (h : Container S)
      → h.persister ≡ custom (some p)
      → (c.name == "") ≡ false
      → get c.name h.health.checks ≡ none
      → Holds h
      → Holds (register_check (envs c.name) c s h).0
  register_check-Holds c h installed named free holds =
      let saved = (p.load_check_state c.name s).0 in
      let w = h.health.world in
      let world = register_check-world c h installed named free in
      let apart = create_updater-IsApart (envs c.name) saved c w (fed c.name) holds.valid in
      record {
        valid = rw world apart.valid;
        event = elim (Bool-cases (c.name == j)) [
          | inr other ↦ rw world (apart.others j other ∙ holds.event)
          | inl own ↦
              let same : c.name ≡ j = (eq_iff c.name j).0 own in
              let held : get c.name w.tracker.event_ids ≡ some id = rw same holds.event in
              let found : (p.load_check_state c.name s).0 ≡ some state = rw same loaded in
              rw (world, sym same, found)
                (create_updater-held (envs c.name) c state w id incident held (fed c.name)
                  holds.valid)
        ];
      }

  register_all-Holds :
      (es : List Example) (h : Container S)
      → well_named es ≡ true
      → h.persister ≡ custom (some p)
      → IsFree h.health es
      → Holds h
      → Holds (register_all envs es s h)
  unfolding register_all well_named register_check
  register_all-Holds [] h named installed free holds = holds
  register_all-Holds ((c, f) ∷ es) h named installed free holds =
      let has_name : (c.name == "") ≡ false = ground arith in
      let unused : is_unused c.name es ≡ true = ground arith in
      let rest : well_named es ≡ true = ground arith in
      let h₁ = (register_check (envs c.name) c s h).0 in
      let free₁ : IsFree h₁.health es =
        register-IsFree (envs c.name) (load_saved (operations h.persister) s) c h.health has_name
          free.0 es unused free.1 in
      register_all-Holds es h₁ rest (register_check-custom envs s p (λ t. t) c h installed) free₁
        (register_check-Holds c h installed has_name free.0 holds)

  pub register_all-keeps :
      (es : List Example) (h : Container S)
      → well_named es ≡ true
      → h.persister ≡ custom (some p)
      → IsFree h.health es
      → IsValid h.health.world.tracker
      → get j h.health.world.tracker.event_ids ≡ some id
      → get j (register_all envs es s h).health.world.tracker.event_ids ≡ some id
  register_all-keeps es h named installed free valid event =
      (register_all-Holds es h named installed free (record { valid = valid; event = event })).event
