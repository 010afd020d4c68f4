-- ===== src/RouterOs/Progress.antt =====
-- What the report of `setup` says of its ten steps.
use mathlib.Core.List.{append-nil, map-append}
use snx_edge.Common.{
  ◌≡◌, refl, sym, ap, ◌∙◌, ◌⊎◌, inl, inr, List, [], ◌∷◌, ◌++◌, map, none, some, Text, Option-cases,
}
use snx_edge.Errors.{AppError, Result, ok, err, M}
use snx_edge.RouterOs.Comment.{
  kind_routing_table, kind_mangle_conn_mark, kind_mangle_routing_mark, kind_default_route,
  kind_kill_switch, kind_dns_dst_nat, kind_dot_block, kind_fasttrack_bypass, kind_rfc1918_bypass,
  kind_mss_clamp,
}
use snx_edge.RouterOs.Device.{Device}
use snx_edge.RouterOs.Provisioner.{RouterOsConfig, SetupReport}
use snx_edge.RouterOs.Setup.{
  Step, run_steps, record_step, steps, finish, setup, migrate_legacy_objects,
}

abbrev pub label : {S : Type 0} → Step S → Text
label step = step.0

-- The labels of the steps, in their order.
abbrev pub step_labels : List Text
step_labels =
    kind_routing_table ∷ kind_mangle_conn_mark ∷ kind_mangle_routing_mark ∷ kind_mss_clamp
    ∷ kind_default_route ∷ kind_kill_switch ∷ kind_dns_dst_nat ∷ kind_dot_block
    ∷ kind_fasttrack_bypass ∷ kind_rfc1918_bypass ∷ []

-- The steps succeed one after the other, from one state to another.
abbrev pub Succeed : {S : Type 0} → List (Step S) → S → S → Type 0
Succeed [] s t = s ≡ t
Succeed ((name, step) ∷ xs) s t = ((step s).0 ≡ ok tt) × Succeed xs (step s).1 t

-- A report of a row of steps that starts in a state: all of them succeed and are the applied ones; or
-- those before one succeed and are the applied ones, and that one fails where they end, with the error
-- of the report.
abbrev pub Progress : {S : Type 0} → List (Step S) → S → SetupReport → Type 0
Progress {S} xs s r =
    ((r.failed ≡ none) × (r.applied ≡ map label xs) × ((t : S) × Succeed xs s t))
    ⊎ ((before : List (Step S)) × (failing : Step S) × (later : List (Step S)) × (t : S)
        × (e : AppError) × (before ++ failing ∷ later ≡ xs)
        × Succeed before s t
        × ((failing.1 t).0 ≡ err e)
        × (r.failed ≡ some (label failing, e))
        × (r.applied ≡ map label before))

Progress-cons :
    {S : Type 0} (name : Text) (step : M S (Unit {0})) (xs : List (Step S)) (s : S)
    (r : SetupReport)
    → (step s).0 ≡ ok tt
    → Progress xs (step s).1 r
    → Progress ((name, step) ∷ xs) s (record { applied = name ∷ r.applied; failed = r.failed })
Progress-cons name step xs s r done (inl (f, a, (t, all))) =
    inl (f, ap (λ z. name ∷ z) a, (t, (done, all)))
Progress-cons name step xs s r done (inr (before, failing, later, t, e, is, all, fails, f, a)) =
    inr (
      (name, step) ∷ before,
      failing,
      later,
      t,
      e,
      ap (λ z. (name, step) ∷ z) is,
      (done, all),
      fails,
      f,
      ap (λ z. name ∷ z) a,
    )

pub run_steps-Progress :
    {S : Type 0} (xs : List (Step S)) (s : S) → Progress xs s (run_steps xs s).0
unfolding run_steps
run_steps-Progress {S} [] s = inl (refl, refl, (s, refl))
run_steps-Progress {S} ((name, step) ∷ xs) s =
    recorded (step s).0 refl (run_steps-Progress xs (step s).1)
  where
    recorded :
        (r : Result (Unit {0}))
        → (step s).0 ≡ r
        → Progress xs (step s).1 (run_steps xs (step s).1).0
        → Progress ((name, step) ∷ xs) s (record_step name r (step s).1 (run_steps xs)).0
    recorded (ok u) is p = Progress-cons name step xs s (run_steps xs (step s).1).0 is p
    recorded (err e) is p = inr ([], (name, step), xs, s, e, refl, refl, is, refl, refl)

-- The applied labels are the first of the row.
pub Progress-first :
    {S : Type 0} (xs : List (Step S)) (s : S) (r : SetupReport)
    → Progress xs s r
    → (later : List Text) × (r.applied ++ later ≡ map label xs)
Progress-first xs s r (inl (f, a, _)) = ([], append-nil r.applied ∙ a)
Progress-first xs s r (inr (before, failing, later, t, e, is, all, fails, f, a)) = (
  map label (failing ∷ later),
  ap (λ z. z ++ map label (failing ∷ later)) a
      ∙ sym (map-append label before (failing ∷ later))
      ∙ ap (map label) is,
)

module _ (d : Device) (client_tag : Text) (config : RouterOsConfig) where
  finish-report : (r : SetupReport) (s : d.State) → (finish d client_tag config (r, s)).0 ≡ r
  unfolding finish
  finish-report r s = elim (Option-cases r.failed) [ inl e ↦ rw e | inr (f, e) ↦ rw e ]

  -- The ten steps have their kinds as labels, in this order. Whatever the router answers, either
  -- each step of `setup`, run where the one before it has ended, succeeds, and the report lists
  -- all their labels and no failure; or the steps before one succeed in this way, their labels are
  -- the applied ones of the report, that step fails where they end, and the report names its label
  -- with its error.
  pub setup-Progress :
      (ip : Text) (s : d.State)
      → (map label (steps d client_tag config ip) ≡ step_labels)
        × Progress
            (steps d client_tag config ip)
            (migrate_legacy_objects d client_tag s).1
            (setup d client_tag config ip s).0
  unfolding setup steps
  setup-Progress ip s =
      let s' = (migrate_legacy_objects d client_tag s).1 in
      (
        refl,
        rw
            (finish-report (run_steps (steps d client_tag config ip) s').0
              (run_steps (steps d client_tag config ip) s').1)
            (run_steps-Progress (steps d client_tag config ip) s'),
      )
