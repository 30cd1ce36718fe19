-- ===== src/Manager/Upgrade/Order.antt =====
-- The order of the calls of `DoDaemonUpgrade`, and the daemon object that it gives.
use nydus_snapshotter.Base.{
  ℕ, ◌≡◌, ◌⊎◌, inl, inr, refl, sym, ap, ◌∙◌, false, String, List, [], ◌∷◌, ◌++◌, length, arith,
  Result, ok, err,
}
use mathlib.Core.Path.{subst}
use nydus_snapshotter.Daemon.{Daemon, blank, init, ready, running, ConfigState}
use nydus_snapshotter.Daemon.Refs.{IsCounted, clone_lem}
use nydus_snapshotter.Manager.Socket.{Name, build_next_api_socket}
use nydus_snapshotter.Manager.Steps.{append_nil, append_assoc}
use nydus_snapshotter.Manager.Upgrade.{
  Call, build_command, send_states, start_process, take_over, unsubscribe, exit_old, start_service,
  subscribe, recover_instances, wait_state, update_store, Upgrade, World, Act, next, Answers, heir,
  with_socket, with_pid, recovery, call, start, recover, upgrade_to, new_daemon, upgrade_at,
  do_daemon_upgrade,
}
use nydus_snapshotter.Manager.Upgrade.Follows.{Succeed, Follows, next-Follows, last-Follows}

-- The recovery of the instances is answered by what Daemon/Mounts gives for the daemon object.
abbrev pub answered : Upgrade → Answers → Daemon → Answers
answered u a d before recover_instances = (recovery u d).1
answered u a d before (build_command s) = a before (build_command s)
answered u a d before send_states = a before send_states
answered u a d before start_process = a before start_process
answered u a d before take_over = a before take_over
answered u a d before unsubscribe = a before unsubscribe
answered u a d before exit_old = a before exit_old
answered u a d before start_service = a before start_service
answered u a d before subscribe = a before subscribe
answered u a d before (wait_state s) = a before (wait_state s)
answered u a d before (update_store s) = a before (update_store s)

-- The new process is told by its socket where to listen, gets the states, and is in charge before
-- the old one is told to exit; the store is updated at the very end.
abbrev pub plan : (api_socket : String) → ConfigState → List Call
plan socket states =
    build_command socket
    ∷ send_states
    ∷ start_process
    ∷ wait_state init
    ∷ take_over
    ∷ wait_state ready
    ∷ unsubscribe
    ∷ exit_old
    ∷ start_service
    ∷ subscribe
    ∷ wait_state running
    ∷ recover_instances
    ∷ update_store states
    ∷ []

module _ (u : Upgrade) (a : Answers) where
  abbrev pub recovered_by : Daemon → Daemon
  recovered_by d = (recovery u d).0.daemon

  run_calls : List Call → Act → Act
  run_calls [] k = k
  run_calls (c ∷ cs) k = λ w. next (run_calls cs k) (call u a c w)

  -- These calls are answered alike.
  abbrev Same : Answers → List Call → Type 0
  Same b [] = Unit
  Same b (c ∷ cs) = ((before : List Call) → b before c ≡ a before c) × Same b cs

  calls-Follows :
      (b : Answers) (cs rest : List Call) (out d : Daemon) (before : List Call) (k : Act)
      → Same b cs
      → Follows b rest out (before ++ cs) (k (record { daemon = d; calls = before ++ cs }))
      → Follows b (cs ++ rest) out before (run_calls cs k (record { daemon = d; calls = before }))
  unfolding run_calls call
  calls-Follows b [] rest out d before k same f =
      subst (λ v. Follows b rest out v (k (record { daemon = d; calls = v }))) (append_nil before) f
  calls-Follows b (c ∷ cs) rest out d before k (same, sames) f =
      next-Follows b c (cs ++ rest) out before (record { daemon = d; calls = before ++ c ∷ [] })
        (a before c) (run_calls cs k) (same before) refl
        (calls-Follows b cs rest out d (before ++ c ∷ []) k sames (
          subst (λ v. Follows b rest out v (k (record { daemon = d; calls = v })))
            (sym (append_assoc before (c ∷ []) cs)) f))

  ending : Act
  ending w = next (λ v. call u a (update_store v.daemon.states) v) (recover u a w)

  ending-Follows :
      (e : Daemon) (cs : List Call)
      → Follows
          (answered u a e)
          (recover_instances ∷ update_store (recovered_by e).states ∷ [])
          (recovered_by e)
          cs
          (ending (record { daemon = e; calls = cs }))
  unfolding ending recover call
  ending-Follows e cs =
      let v : World = record { daemon = recovered_by e; calls = cs ++ recover_instances ∷ [] } in
      let c = update_store (recovered_by e).states in
      next-Follows (answered u a e) recover_instances (c ∷ []) (recovered_by e) cs v
        (recovery u e).1 (λ v. call u a (update_store v.daemon.states) v) refl refl
        (last-Follows (answered u a e) c v.calls (record v { calls = v.calls ++ c ∷ [] })
          (a v.calls c) refl refl)

  start-Follows :
      (b : Answers) (rest : List Call) (out d : Daemon) (cs : List Call) (k : Act)
      → b cs start_process ≡ a cs start_process
      → Follows b rest out
          (cs ++ start_process ∷ [])
          (k (record { daemon = with_pid u.pid d; calls = cs ++ start_process ∷ [] }))
      → Follows b
          (start_process ∷ rest)
          out
          cs
          (next k (start u a (record { daemon = d; calls = cs })))
  unfolding start call
  start-Follows b rest out d cs k same f = by_answer (a cs start_process) same
    where
      w : World
      w = record { daemon = d; calls = cs ++ start_process ∷ [] }

      set_pid : World → World
      set_pid v = record v { daemon = with_pid u.pid v.daemon }

      by_answer :
          (r : Result (Unit {0}))
          → b cs start_process ≡ r
          → Follows b (start_process ∷ rest) out cs (next k (next (λ v. (set_pid v, ok tt)) (w, r)))
      by_answer (ok x) h =
          next-Follows b start_process rest out cs w (ok x) (λ v. k (set_pid v)) h refl f
      by_answer (err e) h =
          next-Follows b start_process rest out cs w (err e) (λ v. k (set_pid v)) h refl f

  handing_over : List Call
  handing_over =
      wait_state init
      ∷ take_over
      ∷ wait_state ready
      ∷ unsubscribe
      ∷ exit_old
      ∷ start_service
      ∷ subscribe
      ∷ wait_state running
      ∷ []

  upgrade_to-Follows :
      (d : Daemon)
      → Follows
          (answered u a (with_pid u.pid d))
          (plan d.states.api_socket (recovered_by (with_pid u.pid d)).states)
          (recovered_by (with_pid u.pid d))
          []
          (upgrade_to u a (record { daemon = d; calls = [] }))
  unfolding upgrade_to run_calls handing_over ending
  upgrade_to-Follows d =
      let e = with_pid u.pid d in
      let b = answered u a e in
      let out = recovered_by e in
      let first = build_command d.states.api_socket ∷ send_states ∷ [] in
      let last = recover_instances ∷ update_store out.states ∷ [] in
      let before = first ++ start_process ∷ [] in
      calls-Follows b first (start_process ∷ handing_over ++ last) out d []
        (λ w. next (run_calls handing_over ending) (start u a w)) (λ v. refl, (λ v. refl, tt))
        (start-Follows b (handing_over ++ last) out d first (run_calls handing_over ending) refl (
          calls-Follows b handing_over last out e before ending
            (
              λ v. refl,
              (
                λ v. refl,
                (λ v. refl, (λ v. refl, (λ v. refl, (λ v. refl, (λ v. refl, (λ v. refl, tt)))))),
              ),
            )
            (ending-Follows e (before ++ handing_over))))

  -- What an upgrade gives: the daemon object after the recovery of its instances, or an error at the
  -- socket's name before any call, or at a call.
  abbrev pub Upgrades : Daemon → List Call × Result Daemon → Type 0
  Upgrades d (w, ok d') =
      (name : Name) × (e : Daemon) × (build_next_api_socket (u.codes (u.base d.states.api_socket))
        ≡ ok name)
      × (e.states ≡ record (d.states) {
        api_socket = u.join (u.dir d.states.api_socket) (u.text name);
        process_id = u.pid;
      })
      × (e.rafs_cache ≡ d.rafs_cache)
      × (e.ref ≡ d.ref)
      × (d' ≡ recovered_by e)
      × (w ≡ plan e.states.api_socket d'.states)
      × Succeed (answered u a e) [] w
  Upgrades d (w, err x) =
      ((w ≡ []) × (build_next_api_socket (u.codes (u.base d.states.api_socket)) ≡ err x))
      ⊎ ((name : Name) × (e : Daemon) × (past : List Call) × (c : Call) × (rest : List Call)
          × (build_next_api_socket (u.codes (u.base d.states.api_socket)) ≡ ok name)
          × (plan (u.join (u.dir d.states.api_socket) (u.text name)) (recovered_by e).states
              ≡ past ++ c ∷ rest)
          × (w ≡ past ++ c ∷ [])
          × Succeed (answered u a e) [] past
          × (answered u a e past c ≡ err x))

-- The upgrade of a daemon with well-counted instances ends with the object of a daemon that has the
-- old one's instances and count, listens on the next socket beside the old one and has the new
-- pid, and whose instances were recovered; each call succeeded, in this order: the command is built
-- for the new socket, the states are sent, the new process is started and reaches INIT, takes over
-- and reaches READY, only then the old daemon is unsubscribed and told to exit, the service is
-- started, subscribed and RUNNING, the instances are recovered, and the store gets the new states.
-- Or it stops at the first of these that fails, with its error; or at the socket's name, before any.
pub do_daemon_upgrade_lem :
    (u : Upgrade) (a : Answers) (extra : ℕ) (d : Daemon)
    → IsCounted extra d
    → Upgrades u a d (do_daemon_upgrade u a d)
unfolding do_daemon_upgrade upgrade_at heir
do_daemon_upgrade_lem u a extra d counted =
    by_name (build_next_api_socket (u.codes (u.base d.states.api_socket))) refl
  where
    old : Daemon
    old = record {
      states = d.states;
      rafs_cache = [];
      has_client = false;
      has_supervisor = d.has_supervisor;
      ref = 0;
      state = blank;
    }

    at : Name → Daemon
    at name = with_socket (u.join (u.dir d.states.api_socket) (u.text name)) (heir d)

    by_run :
        (name : Name)
        → build_next_api_socket (u.codes (u.base d.states.api_socket)) ≡ ok name
        → (r : World × Result (Unit {0}))
        → Follows
            (answered u a (with_pid u.pid (at name)))
            (plan (at name).states.api_socket (recovered_by u a (with_pid u.pid (at name))).states)
            (recovered_by u a (with_pid u.pid (at name)))
            []
            r
        → Upgrades u a d (new_daemon u a r)
    by_run name n (w, err x) (past, c, rest, split, made, fine, failing) =
        inr (name, with_pid u.pid (at name), past, c, rest, n, split, made, fine, failing)
    by_run name n (w, ok v) (made, fine, out) = (
      name,
      with_pid u.pid (at name),
      n,
      ap
          (λ (s : ConfigState). record s {
            api_socket = u.join (u.dir d.states.api_socket) (u.text name);
            process_id = u.pid;
          })
          (clone_lem extra d old counted refl).2,
      (clone_lem extra d old counted refl).1,
      omega (
        arith,
        (clone_lem extra d old counted refl).0.counted,
        counted.counted,
        ap length (clone_lem extra d old counted refl).1,
      ),
      out,
      made ∙ ap (λ e. plan (at name).states.api_socket e.states) (sym out),
      subst (Succeed (answered u a (with_pid u.pid (at name))) []) (sym made) fine,
    )

    by_name :
        (r : Result Name)
        → build_next_api_socket (u.codes (u.base d.states.api_socket)) ≡ r
        → Upgrades u a d (upgrade_at u a d r)
    by_name (err x) n = inl (refl, n)
    by_name (ok name) n =
        by_run name n (upgrade_to u a (record { daemon = at name; calls = [] }))
          (upgrade_to-Follows u a (at name))
