-- ===== src/Manager/Recovery.antt =====
-- pkg/manager/manager.go, `recoverDaemons` and `recoverRafsInstances`: what a restarted snapshotter
-- takes over from the store.
use nydus_snapshotter.Base.{
  ◌≡◌, ◌≢◌, refl, ap, ◌∙◌, inl, inr, String, Bool, true, false, not, none, some, List, [], ◌∷◌,
  ◌++◌, arith, Result, ok, err, eq_iff, Result-cases, if◌then◌else◌, Bool-cases,
}
use nydus_snapshotter.Base.Dict.{Dict, lookup, insert, lookup-insert, lookup-insert_self}
use nydus_snapshotter.Daemon.{
  ConfigState, Daemon, FsDriver, fs_driver_eq, fusedev, blank, DaemonState, is_running,
}
use nydus_snapshotter.Daemon.State.{Probe, get_state, get_state-states}
use nydus_snapshotter.Store.Interface.{StateStore, walk_records, walk_split}
use nydus_snapshotter.Manager.Cache.{update}
use nydus_snapshotter.Manager.{Manager}

-- What recovery meets: whether there are supervisors, the daemon's configuration file, what nydusd
-- answers, and whether its process can be put under the control group, if there is one.
pub record Surroundings : Type 0 where
  pub supervised : Bool
  pub load_config : ConfigState → Result (Unit {0})
  pub probe : ConfigState → Probe
  pub add_proc : ConfigState → Result (Unit {0})

pub record Recovery (S : Type 0) : Type 0 where
  pub manager : Manager S
  pub recovering : Dict Daemon
  pub live : Dict Daemon

-- `NewDaemon` with the stored states.
pub revived : Bool → ConfigState → Daemon
revived supervised s = record {
  states = s;
  rafs_cache = [];
  has_client = false;
  has_supervisor = supervised;
  ref = 0;
  state = blank;
}

abbrev pub needs_config : FsDriver → Bool
needs_config fusedev = true
needs_config _ = false

pub probed : Surroundings → ConfigState → Daemon × Result DaemonState
unfolding revived
probed env s = get_state (env.probe s) (revived env.supervised s)

configured : Surroundings → ConfigState → Result (Unit {0})
configured env s = if needs_config s.fs_driver then env.load_config s else ok tt

-- The other records have other ids.
abbrev pub Apart : String → List (Result ConfigState) → Type 0
Apart id [] = Unit {0}
Apart id (ok s ∷ rs) = (s.id ≢ id) × Apart id rs
Apart id (err e ∷ rs) = Apart id rs

nothing : (id : String) → lookup {V = Daemon} id [] ≡ none
unfolding lookup
nothing id = refl

probed-id : (env : Surroundings) (s : ConfigState) → (probed env s).0.states.id ≡ s.id
unfolding probed revived
probed-id env s = ap (λ c. c.id) (get_state-states (env.probe s) (revived env.supervised s))

module _ {S : Type 0} where
  abbrev cached : Daemon → Recovery S → Recovery S
  cached d t = record t { manager = record (t.manager) { cache = update d t.manager.cache } }

  -- By the state that nydusd reports. The daemon object stands in the cache already.
  sorted_in :
      Surroundings
      → ConfigState
      → Daemon × Result DaemonState
      → Recovery S
      → Recovery S × Result (Unit {0})
  sorted_in env s (d, err e) t =
      (record (cached d t) { recovering = insert s.id d t.recovering }, ok tt)
  sorted_in env s (d, ok state) t =
      if is_running state
      then (record (cached d t) { live = insert s.id d t.live }, env.add_proc s)
      else (cached d t, ok tt)

  -- The callback of `recoverDaemons`.
  unfoldable pub recover_one :
      Surroundings → ConfigState → Recovery S → Recovery S × Result (Unit {0})
  unfolding sorted_in probed configured revived
  recover_one env s t =
      if not (fs_driver_eq s.fs_driver t.manager.fs_driver)
      then (t, ok tt)
      else elim (configured env s) [
        | err e ↦ (cached (revived env.supervised s) t, err e)
        | ok _ ↦ sorted_in env s (probed env s) t
      ]

  unfoldable pub recover_daemons :
      StateStore S → Surroundings → Manager S → Recovery S × Result (Unit {0})
  unfolding recover_one
  recover_daemons api env m =
      walk_records (recover_one env) (api.daemon_records m.store)
        (record { manager = m; recovering = []; live = [] })

  -- Where the record of a daemon of this manager ends up, by what `GetState` says of it.
  abbrev pub PlacedBy : String → Daemon × Result DaemonState → Recovery S → Type 0
  PlacedBy id q t =
      (lookup id t.manager.cache ≡ some q.0)
      × (lookup id t.recovering ≡ (elim q.1 [ err e ↦ some q.0 | ok _ ↦ none ]))
      × (lookup id t.live
          ≡ (elim q.1 [ err e ↦ none | ok state ↦ if is_running state then some q.0 else none ]))

  abbrev pub Placed : Surroundings → ConfigState → Recovery S → Type 0
  Placed env s t = PlacedBy s.id (probed env s) t

  -- Nothing of another id changes.
  abbrev Spares : String → Recovery S → Recovery S → Type 0
  Spares id t t' =
      (lookup id t'.manager.cache ≡ lookup id t.manager.cache)
      × (lookup id t'.recovering ≡ lookup id t.recovering)
      × (lookup id t'.live ≡ lookup id t.live)
      × (t'.manager.fs_driver ≡ t.manager.fs_driver)

  sorted_in-Spares :
      (env : Surroundings) (s : ConfigState) (q : Daemon × Result DaemonState) (t : Recovery S)
      (id : String)
      → q.0.states.id ≡ s.id
      → s.id ≢ id
      → Spares id t (sorted_in env s q t).0
  unfolding sorted_in update
  sorted_in-Spares env s (d, err e) t id same apart = ground (
    arith,
    eq_iff s.id id,
    lookup-insert d.states.id id d t.manager.cache,
    lookup-insert s.id id d t.recovering,
  )
  sorted_in-Spares env s (d, ok state) t id same apart = ground (
    arith,
    eq_iff s.id id,
    lookup-insert d.states.id id d t.manager.cache,
    lookup-insert s.id id d t.live,
  )

  sorted_in-Placed :
      (env : Surroundings) (s : ConfigState) (q : Daemon × Result DaemonState) (t : Recovery S)
      → q.0.states.id ≡ s.id
      → lookup s.id t.recovering ≡ none
      → lookup s.id t.live ≡ none
      → PlacedBy s.id q (sorted_in env s q t).0
  unfolding sorted_in update
  sorted_in-Placed env s (d, err e) t same new new' = ground (
    arith,
    lookup-insert_self d.states.id d t.manager.cache,
    lookup-insert_self s.id d t.recovering,
  )
  sorted_in-Placed env s (d, ok state) t same new new' =
      ground
        (arith, lookup-insert_self d.states.id d t.manager.cache, lookup-insert_self s.id d t.live)

  recover_one-Spares :
      (env : Surroundings) (s : ConfigState) (t : Recovery S) (id : String)
      → s.id ≢ id
      → Spares id t (recover_one env s t).0
  unfolding recover_one update revived
  recover_one-Spares env s t id apart =
      elim (Bool-cases (fs_driver_eq s.fs_driver t.manager.fs_driver)) [
        | inr e ↦ rw (e, recover_one) (refl, refl, refl, refl)
        | inl e ↦ elim (Result-cases (configured env s)) [
          | inr (x, c) ↦
              rw (e, c, recover_one)
                (ground (
                  arith,
                  eq_iff s.id id,
                  lookup-insert s.id id (revived env.supervised s) t.manager.cache,
                ))
          | inl (x, c) ↦
              rw (e, c, recover_one)
                (sorted_in-Spares env s (probed env s) t id (probed-id env s) apart)
        ]
      ]

  recover_one-Placed :
      (env : Surroundings) (s : ConfigState) (t : Recovery S)
      → fs_driver_eq s.fs_driver t.manager.fs_driver ≡ true
      → lookup s.id t.recovering ≡ none
      → lookup s.id t.live ≡ none
      → (recover_one env s t).1 ≡ ok tt
      → Placed env s (recover_one env s t).0
  unfolding recover_one
  recover_one-Placed env s t mine new new' done = elim (Result-cases (configured env s)) [
    | inr (x, c) ↦ absurd (ground arith)
    | inl (x, c) ↦
        rw (mine, c, recover_one)
          (sorted_in-Placed env s (probed env s) t (probed-id env s) new new')
  ]

  walk-Spares :
      (env : Surroundings) (rs : List (Result ConfigState)) (t : Recovery S) (id : String)
      → Apart id rs
      → Spares id t (walk_records (recover_one env) rs t).0
  unfolding walk_records
  walk-Spares env [] t id h = (refl, refl, refl, refl)
  walk-Spares env (err e ∷ rs) t id h = (refl, refl, refl, refl)
  walk-Spares env (ok s ∷ rs) t id (apart, h) =
      let one = recover_one-Spares env s t id apart in
      elim (Result-cases (recover_one env s t).1) [
        | inr (e, r) ↦ rw (r, walk_records) one
        | inl (u, r) ↦
            let rest = walk-Spares env rs (recover_one env s t).0 id h in
            rw (r, walk_records) (rest.0 ∙ one.0, rest.1 ∙ one.1, rest.2 ∙ one.2, rest.3 ∙ one.3)
      ]

  -- A daemon's record of this manager's driver, whose id no other record has: if the whole walk
  -- succeeds, a daemon object with its states is in the cache; it is among the recovering daemons
  -- exactly if nydusd could not be queried, and among the live ones exactly if nydusd answered
  -- RUNNING. One that answered otherwise is in neither.
  pub recover_daemons_lem :
      (api : StateStore S) (env : Surroundings) (m : Manager S) (s : ConfigState)
      (before after : List (Result ConfigState))
      → api.daemon_records m.store ≡ before ++ ok s ∷ after
      → Apart s.id before
      → Apart s.id after
      → fs_driver_eq s.fs_driver m.fs_driver ≡ true
      → (recover_daemons api env m).1 ≡ ok tt
      → Placed env s (recover_daemons api env m).0
  unfolding recover_daemons
  recover_daemons_lem api env m s before after records h h' mine done =
      let start : Recovery S = record { manager = m; recovering = []; live = [] } in
      let quiet = walk-Spares env before start s.id h in
      let (good, all) = walk_split (recover_one env) before s after start (rw records at done) in
      let t = (walk_records (recover_one env) before start).0 in
      let placed =
        recover_one-Placed env s t (ap (fs_driver_eq s.fs_driver) quiet.3 ∙ mine)
          (quiet.1 ∙ nothing s.id) (quiet.2 ∙ nothing s.id) good in
      let rest = walk-Spares env after (recover_one env s t).0 s.id h' in
      rw (records, all) (rest.0 ∙ placed.0, rest.1 ∙ placed.1, rest.2 ∙ placed.2)
