-- ===== src/Controller/Parallel/Phases.antt =====
-- internal/controller/apply.go (applyConfigParallel): the phases that run side by side. Between two
-- calls of a phase the others make theirs, so that each phase has its own view of the server: what
-- that answers to its calls depends in any way on what it has called itself.
pub mod Interleaved
use pangolin_kube_controller.Prelude.{ℕ, zero, suc, ◌≡◌, ◌⊎◌, Option, none, some, List, [], ◌∷◌, ℤ}
use pangolin_kube_controller.Result.{Result}
use pangolin_kube_controller.Maps.{entries}
use pangolin_kube_controller.Json.{Codec}
use pangolin_kube_controller.Kube.{Call, History, Api}
use pangolin_kube_controller.Kube.Prog.{Prog}
use pangolin_kube_controller.Sanitize.Name.{NameLib}
use pangolin_kube_controller.Sanitize.Config.{TraefikConfig}
use pangolin_kube_controller.Protocol.Servers.{NetLib}
use pangolin_kube_controller.Config.{Config}
use pangolin_kube_controller.Controller.Reconcile.{
  reconcile_middlewares, reconcile_routers, reconcile_servers_transports, reconcile_services,
  reconcile_tcp, reconcile_udp,
}
use pangolin_kube_controller.Controller.Parallel.{Group, Move, concurrency, group_run, new_group}

-- The result and the calls of each program, where the program of number `i` has the view `views i`.
abbrev pub outcomes_of : List (Prog Unit) → (ℕ → Api) → List (Result (Unit {0}))
outcomes_of [] views = []
outcomes_of (p ∷ ps) views = (p (views 0) []).0 ∷ outcomes_of ps (λ i. views (suc i))

abbrev pub calls_of : List (Prog Unit) → (ℕ → Api) → List History
calls_of [] views = []
calls_of (p ∷ ps) views = (p (views 0) []).1 ∷ calls_of ps (λ i. views (suc i))

-- An interleaving of two histories, and of several.
pub data Shuffle : History → History → History → Type 0 where
  empty : Shuffle [] [] []
  left : {a b h : History} (c : Call) → Shuffle a b h → Shuffle (c ∷ a) b (c ∷ h)
  right : {a b h : History} (c : Call) → Shuffle a b h → Shuffle a (c ∷ b) (c ∷ h)

abbrev pub Merge : List History → History → Type 0
Merge [] h = h ≡ []
Merge (a ∷ hs) h = (rest : History) × Merge hs rest × Shuffle a rest h

module _ (lib : NameLib) (net : NetLib) (codec : Codec) (cfg : Config) where
  -- The functions that `applyConfigParallel` passes to `g.Go`.
  unfoldable pub phases : TraefikConfig → List (Prog Unit)
  phases sanitized =
      reconcile_middlewares codec cfg (entries sanitized.http.middlewares)
      ∷ reconcile_routers codec cfg (entries sanitized.http.routers)
      ∷ reconcile_servers_transports codec cfg sanitized.http.servers_transports
      ∷ reconcile_services lib net codec cfg sanitized.http.services
      ∷ reconcile_tcp lib net codec cfg sanitized
      ∷ reconcile_udp lib net codec cfg sanitized
      ∷ []

  -- applyConfigParallel, as far as the moves of its goroutines go
  unfoldable pub apply_config_parallel : TraefikConfig → (ℕ → Api) → List (Move × ℕ) → Option Group
  unfolding phases group_run concurrency
  apply_config_parallel sanitized views moves =
      let outcomes = outcomes_of (phases sanitized) views in
      group_run (concurrency cfg.reconcile_max) outcomes moves (new_group outcomes)
