-- ===== src/Examples/Parallel.antt =====
-- The phases of a round side by side at concrete inputs.
use pangolin_kube_controller.Protocol.Conversion.Rewrite.{process_services}
use pangolin_kube_controller.Controller.Gc.{gc_stale_objects}
use pangolin_kube_controller.Apply.Patch.{create_unstructured}
use pangolin_kube_controller.Apply.Objects.{apply_unstructured}
use pangolin_kube_controller.Kube.Prog.{pure, ◌>>◌, lift, on_result, call}
use pangolin_kube_controller.Controller.Reconcile.{
  reconcile_udp, reconcile_middlewares, apply_desired_objects, reconcile_servers_transports,
  reconcile_routers, reconcile_tcp, reconcile_services,
}
use pangolin_kube_controller.Prelude.{
  ℕ, ◌*◌, ◌≡◌, ◌≤◌, refl, List, [], ◌∷◌, ◌++◌, All, Among, inl, none, some, true, pos, length,
}
use pangolin_kube_controller.Text.{codes, text_eq}
use pangolin_kube_controller.Maps.{keys, lookup}
use pangolin_kube_controller.Json.{Value}
use pangolin_kube_controller.Result.{Result, ok, err, not_found, api}
use pangolin_kube_controller.Kube.{Call, History, Api, Reads, answer}
use pangolin_kube_controller.Sanitize.Config.{TraefikConfig}
use pangolin_kube_controller.Config.{Config}
use pangolin_kube_controller.Apply.Objects.Accepting.{Writes}
use pangolin_kube_controller.Controller.Parallel.{
  Group, Move, acquire, finish, report, waiting, running, reported, slots_taken, concurrency,
  group_run, new_group, AllReported, group_step,
}
use pangolin_kube_controller.Controller.Parallel.Ends.{parallel_ends}
use pangolin_kube_controller.Controller.Parallel.Phases.{
  outcomes_of, calls_of, Shuffle, empty, left, right, Merge, phases, apply_config_parallel,
}
use pangolin_kube_controller.Controller.Parallel.Phases.Interleaved.{
  parallel_round-Reads, parallel_round-Applied, number,
}
use pangolin_kube_controller.Controller.Reconcile.Writes.Round.{middleware, resource, StandsFor}
use pangolin_kube_controller.Examples.Data.{lib, net, codec, cfg, server}

-- Three phases on one slot: one is over, with an error, and another is in its phase.
abbrev outcomes : List (Result (Unit {0}))
outcomes = ok tt ∷ err (api not_found) ∷ ok tt ∷ []

abbrev moves : List (Move × ℕ)
moves = (acquire, 1) ∷ (finish, 1) ∷ (acquire, 0) ∷ (report, 1) ∷ []

abbrev half_way : Group
half_way = record { statuses = running ∷ reported ∷ waiting ∷ []; first = some (api not_found) }

half_way_run : group_run 1 outcomes moves (new_group outcomes) ≡ some half_way
unfolding group_run group_step
half_way_run = refl

-- A slot that is taken lets no other goroutine in.
full_test : group_run 1 outcomes ((acquire, 1) ∷ (acquire, 0) ∷ []) (new_group outcomes) ≡ none
unfolding group_run group_step
full_test = refl

parallel_ends_example :
    (slots_taken half_way.statuses ≤ concurrency (pos 1))
    × (length moves ≤ 3 * length outcomes)
    × ((rest : List (Move × ℕ)) × (g' : Group) × (group_run
            (concurrency (pos 1))
            outcomes
            (moves ++ rest)
            (new_group outcomes)
          ≡ some g')
        × AllReported g'.statuses
        × (length (moves ++ rest) ≡ 3 * length outcomes))
unfolding concurrency
parallel_ends_example = parallel_ends (pos 1) outcomes moves half_way half_way_run

shuffle_none : (b : History) → Shuffle [] b b
shuffle_none [] = empty
shuffle_none (c ∷ b) = right c (shuffle_none b)

one_after_other : (a b : History) → Shuffle a b (a ++ b)
one_after_other [] b = shuffle_none b
one_after_other (c ∷ a) b = left c (one_after_other a b)

abbrev all_calls : List History → History
all_calls [] = []
all_calls (h ∷ hs) = h ++ all_calls hs

in_turn : (hs : List History) → Merge hs (all_calls hs)
in_turn [] = refl
in_turn (h ∷ hs) = (all_calls hs, in_turn hs, one_after_other h (all_calls hs))

abbrev auth_only : TraefikConfig
auth_only = record {
  http = record {
    middlewares = some ((codes "auth", codes "{}") ∷ []);
    routers = none;
    services = none;
    servers_transports = none;
  };
  tcp = none;
  udp = none;
}

abbrev views : ℕ → Api
views i = server

abbrev calls : Config → History
calls c = all_calls (calls_of (phases lib net codec c auth_only) views)

abbrev read_only_cfg : Config
read_only_cfg = record cfg { read_only = true }

parallel_round-Reads_example : All Reads (calls read_only_cfg)
parallel_round-Reads_example =
    parallel_round-Reads lib net codec read_only_cfg auth_only views (calls read_only_cfg)
      (in_turn (calls_of (phases lib net codec read_only_cfg auth_only) views)) refl

abbrev turn : ℕ → List (Move × ℕ)
turn i = (acquire, i) ∷ (finish, i) ∷ (report, i) ∷ []

abbrev all_turns : List (Move × ℕ)
all_turns = turn 5 ++ (turn 0 ++ (turn 2 ++ (turn 1 ++ (turn 4 ++ turn 3))))

abbrev all_over : Group
all_over = record {
  statuses = reported ∷ reported ∷ reported ∷ reported ∷ reported ∷ reported ∷ [];
  first = none;
}

all_run : apply_config_parallel lib net codec cfg auth_only views all_turns ≡ some all_over
unfolding apply_config_parallel group_step reconcile_udp pure reconcile_middlewares ◌>>◌
    apply_desired_objects apply_unstructured lift text_eq on_result call create_unstructured
    gc_stale_objects keys lookup reconcile_servers_transports reconcile_routers reconcile_tcp
    reconcile_services process_services
all_run = refl

merged : Merge (calls_of (phases lib net codec cfg auth_only) views) (calls cfg)
merged = in_turn (calls_of (phases lib net codec cfg auth_only) views)

parallel_round-Applied_example :
    All (λ r. r ≡ ok tt) (outcomes_of (phases lib net codec cfg auth_only) views)
    × ((spec : Value) × (c : Call) × (before : History) × StandsFor lib net codec cfg auth_only
          middleware
          (codes "auth")
          (codes "{}")
          spec
        × Writes (resource middleware) (codes "auth") spec c
        × ((views (number middleware)).done before c ≡ answer tt)
        × Among c (calls cfg))
parallel_round-Applied_example =
    parallel_round-Applied lib net codec cfg auth_only views (calls cfg) merged all_turns all_over
      middleware (codes "auth") (codes "{}") all_run
      (refl, (refl, (refl, (refl, (refl, (refl, tt)))))) refl refl (inl refl)
