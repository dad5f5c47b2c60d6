-- ===== src/Command/Cli.antt =====
-- What the mode "cli" of cmd/main.go runs.
use sigbench.Prelude.{
  ◌≡◌, ◌∙◌, refl, ap, String, List, [], ◌∷◌, none, some, Result, ok, err, str_eq_iff, arith, All,
  ◌⊎◌, inl, inr,
}
use sigbench.Base.{Job}
use sigbench.Text.{split, join, IsPlain, split-join}
use Prim.Native.String.{◌++◌ as ◌^^◌}
use sigbench.Command.{
  Flags, Env, Launch, main, register_all, save_copy, load_job, prepare, run_master, run_main,
}

Result-cases :
    {A : Type 0} (r : Result String A) → ((e : String) × (r ≡ err e)) ⊎ ((a : A) × (r ≡ ok a))
Result-cases (err e) = inl (e, refl)
Result-cases (ok a) = inr (a, refl)

module _ {F : Type 0} (env : Env F) where
  register_all-none :
      (agents : List String) → register_all env agents ≡ none → All (λ a. env.dial a ≡ none) agents
  unfolding register_all
  register_all-none [] h = tt
  register_all-none (a ∷ rest) h = (ground (arith, h), register_all-none rest (ground (arith, h)))

  load_job-ok :
      (config out_dir : String) (job : Job F)
      → load_job env config out_dir ≡ ok job
      → (text : String) × (env.open_config config ≡ ok text)
        × (env.decode text ≡ ok job)
        × (save_copy env out_dir job ≡ none)
  unfolding load_job
  load_job-ok config out_dir job h = elim (Result-cases (env.open_config config)) [
    | inl (e, p) ↦ absurd (ground (arith, h, p))
    | inr (text, p) ↦ (text, p, ground (arith, h, p), ground (arith, h, p))
  ]

  -- The launch that a run of the mode comes to.
  abbrev pub launch_of : List String → String → Job F → Launch F
  launch_of agents out_dir job = record {
    agents = agents;
    counters_file = ◌^^◌ out_dir "/counters.txt";
    job = job;
  }

  prepare-ok :
      (agents : List String) (config out_dir : String) (l : Launch F)
      → prepare env agents config out_dir ≡ ok l
      → (env.make_dir out_dir ≡ none)
        × (register_all env agents ≡ none)
        × (load_job env config out_dir ≡ ok l.job)
        × (l ≡ launch_of agents out_dir l.job)
  unfolding prepare
  prepare-ok agents config out_dir l h = elim (Result-cases (load_job env config out_dir)) [
    | inl (e, p) ↦ absurd (ground (arith, h, p))
    | inr (job, p) ↦
        let made : l ≡ launch_of agents out_dir job = ground (arith, h, p) in
        (ground (arith, h, p), ground (arith, h, p), rw (made) p, rw (made) refl)
  ]

  -- Whenever the flag "agents" is a list of at least one address with commas between, and no address
  -- holds a comma, then a launch in the mode "cli" is of exactly those addresses in their order, each of
  -- which answered when it was dialled, and of the job that the configuration file holds, of which a copy
  -- was written; the snapshots go to counters.txt in the output directory, which was made.
  pub run_main-launches :
      (f : Flags) (w : String) (ws : List String) (l : Launch F)
      → f.mode ≡ "cli"
      → f.agents ≡ join (w ∷ ws)
      → All IsPlain (w ∷ ws)
      → run_main env f ≡ some (ok l)
      → (l ≡ launch_of (w ∷ ws) f.out_dir l.job)
        × (env.make_dir f.out_dir ≡ none)
        × All (λ a. env.dial a ≡ none) (w ∷ ws)
        × ((text : String) × (env.open_config f.config ≡ ok text)
            × (env.decode text ≡ ok l.job)
            × (save_copy env f.out_dir l.job ≡ none))
  unfolding run_main main run_master
  run_main-launches f w ws l mode agents plain h =
      let parts : split f.agents ≡ w ∷ ws = ap split agents ∙ split-join w ws plain in
      let prepared : prepare env (w ∷ ws) f.config f.out_dir ≡ ok l =
        ground (arith, str_eq_iff f.mode "cli", mode, parts, h) in
      let (made, dialled, loaded, same) = prepare-ok (w ∷ ws) f.config f.out_dir l prepared in
      (same, made, register_all-none (w ∷ ws) dialled, load_job-ok f.config f.out_dir l.job loaded)
