-- ===== src/Controller/Parallel/Phases/Interleaved.antt =====
-- internal/controller/apply.go (applyConfigParallel): what holds of the calls of all phases together,
-- in whatever order they interleave.
use mathlib.Core.List.{append-nil}
use pangolin_kube_controller.Prelude.{
  ℕ, suc, ◌≡◌, refl, inl, inr, true, false, some, List, [], ◌∷◌, All, Among, Among-append_right,
}
use pangolin_kube_controller.Text.{Text}
use pangolin_kube_controller.Result.{ok}
use pangolin_kube_controller.Json.{Codec, Value}
use pangolin_kube_controller.Kube.{Call, History, Api, Reads, answer}
use pangolin_kube_controller.Kube.Prog.{Prog}
use pangolin_kube_controller.Kube.Prog.Emits.{Emits}
use pangolin_kube_controller.Sanitize.Name.{NameLib}
use pangolin_kube_controller.Sanitize.Config.{Raw, TraefikConfig}
use pangolin_kube_controller.Protocol.Servers.{NetLib}
use pangolin_kube_controller.Config.{Config}
use pangolin_kube_controller.Apply.Objects.Accepting.{Writes}
use pangolin_kube_controller.Controller.Reconcile.Writes.Round.{
  Phase, middleware, router, transport, service, resource, desired, StandsFor, program,
  phase-Written,
}
use pangolin_kube_controller.Controller.Reconcile.ReadOnly.{
  middlewares_read, routers_read, transports_read, http_services_read, tcp-Reads, udp-Reads,
}
use pangolin_kube_controller.Controller.Reconcile.{reconcile_tcp, reconcile_udp}
use pangolin_kube_controller.Controller.Parallel.{Group, Move, AllReported, wait, concurrency}
use pangolin_kube_controller.Controller.Parallel.Outcome.{wait-ok}
use pangolin_kube_controller.Controller.Parallel.Phases.{
  outcomes_of, calls_of, Shuffle, empty, left, right, Merge, phases, apply_config_parallel,
}

module _ (P : Call → Type 0) where
  All-Shuffle : {a b h : History} → Shuffle a b h → All P a → All P b → All P h
  All-Shuffle empty pa pb = tt
  All-Shuffle (left c s) (p, pa) pb = (p, All-Shuffle s pa pb)
  All-Shuffle (right c s) pa (p, pb) = (p, All-Shuffle s pa pb)

  abbrev AllEmit : List (Prog Unit) → Type 0
  AllEmit [] = Unit
  AllEmit (p ∷ ps) = Emits P p × AllEmit ps

  All-of_Emits : (p : Prog Unit) (k : Api) → Emits P p → All P (p k []).1
  All-of_Emits p k em = let (added, e, all) = em.at k [] in rw (e, append-nil) all

  All-Merge :
      (ps : List (Prog Unit)) (views : ℕ → Api) (h : History)
      → AllEmit ps
      → Merge (calls_of ps views) h
      → All P h
  All-Merge [] views h em m = rw m tt
  All-Merge (p ∷ ps) views h (em, ems) (rest, m, s) =
      All-Shuffle s (All-of_Emits p (views 0) em) (All-Merge ps (λ i. views (suc i)) rest ems m)

Among-left : (c : Call) {a b h : History} → Shuffle a b h → Among c a → Among c h
Among-left c empty m = m
Among-left c (left d s) (inl e) = inl e
Among-left c (left d s) (inr m) = inr (Among-left c s m)
Among-left c (right d s) m = inr (Among-left c s m)

Among-right : (c : Call) {a b h : History} → Shuffle a b h → Among c b → Among c h
Among-right c empty m = m
Among-right c (left d s) m = inr (Among-right c s m)
Among-right c (right d s) (inl e) = inl e
Among-right c (right d s) (inr m) = inr (Among-right c s m)

-- The number of the goroutine that runs a phase.
abbrev pub number : Phase → ℕ
number middleware = 0
number router = 1
number transport = 2
number service = 3

module _ (lib : NameLib) (net : NetLib) (codec : Codec) (cfg : Config) (sanitized : TraefikConfig)
    (views : ℕ → Api) (h : History)
    (merged : Merge (calls_of (phases lib net codec cfg sanitized) views) h) where
  -- A read-only controller that reconciles in parallel makes get and list calls only, whatever each
  -- phase sees of the server and in whatever order the calls of the phases interleave.
  pub parallel_round-Reads : cfg.read_only ≡ true → All Reads h
  unfolding phases reconcile_tcp reconcile_udp
  parallel_round-Reads w =
      All-Merge Reads (phases lib net codec cfg sanitized) views h
        (
          middlewares_read codec cfg w _,
          (
            routers_read codec cfg w _,
            (
              transports_read codec cfg w _,
              (
                http_services_read lib net codec cfg w _,
                (
                  tcp-Reads lib net codec cfg w sanitized sanitized.tcp,
                  (udp-Reads lib net codec cfg w sanitized sanitized.udp, tt),
                ),
              ),
            ),
          ),
        )
        merged

  -- What a phase has called, the round has.
  program-Among :
      (p : Phase) (c : Call)
      → Among c (program lib net codec cfg sanitized p (views (number p)) []).1
      → Among c h
  unfolding phases
  program-Among p c m =
      let (h1, (h2, (h3, (h4, _, s3), s2), s1), s0) = merged in
      elim p
          as (λ q.
            Among c (program lib net codec cfg sanitized q (views (number q)) []).1 → Among c h) [
              | middleware ↦ λ a. Among-left c s0 a
              | router ↦ λ a. Among-right c s0 (Among-left c s1 a)
              | transport ↦ λ a. Among-right c s0 (Among-right c s1 (Among-left c s2 a))
              | service ↦
                  λ a. Among-right c s0 (Among-right c s1 (Among-right c s2 (Among-left c s3 a)))
            ]
        m

  program-ok :
      (p : Phase)
      → All (λ r. r ≡ ok tt) (outcomes_of (phases lib net codec cfg sanitized) views)
      → (program lib net codec cfg sanitized p (views (number p)) []).0 ≡ ok tt
  unfolding phases
  program-ok middleware fine = fine.0
  program-ok router fine = fine.1.0
  program-ok transport fine = fine.1.1.0
  program-ok service fine = fine.1.1.1.0

  -- If `applyConfigParallel` returns no error, then, in whatever order its goroutines moved, every
  -- phase returned none. And if the controller is not read only, then for every Middleware,
  -- IngressRoute, ServersTransport and TraefikService of the configuration there is, among the
  -- calls of all phases, one that the server accepted and that creates the object of that name
  -- with the spec that its text stands for, or patches it with an object that has that spec.
  pub parallel_round-Applied :
      (moves : List (Move × ℕ)) (g : Group) (p : Phase) (name : Text) (raw : Raw)
      → apply_config_parallel lib net codec cfg sanitized views moves ≡ some g
      → AllReported g.statuses
      → wait g ≡ ok tt
      → cfg.read_only ≡ false
      → Among (name, raw) (desired lib net codec cfg sanitized p)
      → All (λ r. r ≡ ok tt) (outcomes_of (phases lib net codec cfg sanitized) views)
        × ((spec : Value) × (c : Call) × (before : History) × StandsFor lib net codec cfg sanitized
              p name raw spec
            × Writes (resource p) name spec c
            × ((views (number p)).done before c ≡ answer tt)
            × Among c h)
  unfolding apply_config_parallel
  parallel_round-Applied moves g p name raw e over w r m =
      let fine = wait-ok (concurrency cfg.reconcile_max) _ moves g e over w in
      let (spec, stands, (c, before, writes, done, _, (added, made))) =
        phase-Written lib net codec cfg sanitized p name raw (views (number p)) [] r m
          (program-ok p fine) in
      (
        fine,
        (
          spec,
          c,
          before,
          stands,
          writes,
          done,
          program-Among p c (rw made (Among-append_right c added (c ∷ before) (inl refl))),
        ),
      )
