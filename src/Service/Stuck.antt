-- ===== src/Service/Stuck.antt =====
-- What a failed agent registration in HandleJobCreate of service/controllers.go does to the service:
-- the handler returns without resetting masterController.
use sigbench.Prelude.{◌≤◌, ◌<◌, ◌≡◌, true, List, some, arith, run_steps_rule}
use sigbench.Service.Mux.{ServiceConfig, is_busy}
use sigbench.Service.Exclusive.{
  System, Event, new_system, step, run, IsOwned, step-IsOwned, new_system-IsOwned, check,
}

step-failed : (s t : System) (e : Event) → step s e ≡ some t → s.failed ≤ t.failed
unfolding step
step-failed s t check h = ground arith
step-failed s t _ h = ground arith

-- Over every interleaving: once a handler has failed to register an agent, the service is busy at
-- every later moment though no handler and no job works with the controller, and no job ever runs
-- again.
pub run-blocked :
    (config : ServiceConfig) (es fs : List Event) (s t : System)
    → run (new_system config) es ≡ some s
    → 0 < s.failed
    → run s fs ≡ some t
    → (is_busy t.mux ≡ true) × (t.registering ≡ 0) × (t.running ≡ 0)
run-blocked config es fs s t h f k =
    let v =
      run_steps_rule step (λ x. IsOwned x × (0 < x.failed))
        (λ a b e p q. (step-IsOwned a b e p.0 q, omega (arith, p.1, step-failed a b e q))) s t fs
        (
          run_steps_rule step IsOwned (λ a b e p q. step-IsOwned a b e p q) (new_system config) s es
              (new_system-IsOwned config) h,
          f,
        )
        k in
    (ground (arith, v.0, v.1), ground (arith, v.0, v.1), ground (arith, v.0, v.1))
