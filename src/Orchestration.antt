-- ===== src/Orchestration.antt =====
-- internal/orchestration/run.go (runControllerWithStarter): the HTTP server, the leader election and
-- the monitor of the instance label on goroutines of an errgroup, and the shutdown behind them.
pub mod Blocks
pub mod Standalone
use pangolin_kube_controller.Prelude.{
  ℕ, Bool, true, false, not, ◌&&◌, ◌||◌, Option, none, some, List, [], ◌∷◌, if◌then◌else◌,
}
use pangolin_kube_controller.Config.{Config}
use pangolin_kube_controller.Controller.Lifecycle.{Leadership, handle_leadership_loss}

-- The errors that the goroutines and the preparation return; a cancelled context is no error in the
-- end.
pub data RunError : Type 0 where
  clients labels server monitor cancelled leadership_lost : RunError

-- A goroutine of the group, which has ended with or without an error.
pub data Task : Type 0 where
  active : Task
  ended : Option RunError → Task

-- The group, the first error that it holds, the context that `Run` was given, and what the loss of
-- leadership sets.
pub record Process : Type 0 where
  pub server_task : Task
  pub leader_task : Task
  pub monitor_task : Task
  pub first : Option RunError
  pub interrupted : Bool
  pub leadership : Leadership

-- What happens: the context is cancelled from outside; the server or the monitor returns; the
-- leadership is lost, whereupon `RunOrDie` returns; or the polling loop returns since its context is
-- cancelled.
pub data Happening : Type 0 where
  interrupt : Happening
  server_returns monitor_returns : Option RunError → Happening
  lose_leadership stop_polling : Happening

abbrev pub first_error : Option RunError → Option RunError → Option RunError
first_error (some e) new = some e
first_error none new = new

abbrev pub is_ended : Task → Bool
is_ended active = false
is_ended (ended e) = true

abbrev pub holds_error : Option RunError → Bool
holds_error none = false
holds_error (some e) = true

-- `<-gctx.Done()`: the context of the group is done when that of `Run` is, or when a goroutine has
-- returned an error.
abbrev pub group_done : Process → Bool
group_done p = p.interrupted || holds_error p.first

module _ (fold : ℕ → ℕ) (cfg : Config) where
  unfoldable pub happen : Happening → Process → Process
  unfolding handle_leadership_loss
  happen interrupt p = record p { interrupted = true }
  happen (server_returns e) p =
      if is_ended p.server_task
      then p
      else record p { server_task = ended e; first = first_error p.first e }
  happen (monitor_returns e) p =
      if is_ended p.monitor_task
      then p
      else record p { monitor_task = ended e; first = first_error p.first e }
  happen lose_leadership p = if is_ended p.leader_task then p else record p {
    leader_task = ended none;
    leadership = handle_leadership_loss fold cfg p.leadership;
  }
  happen stop_polling p =
      if is_ended p.leader_task || not (group_done p)
      then p
      else record p { leader_task = ended none }

  unfoldable pub happen_all : List Happening → Process → Process
  unfolding happen
  happen_all [] p = p
  happen_all (e ∷ es) p = happen_all es (happen e p)

abbrev pub result_of : Option RunError → Bool → Option RunError
result_of none exit = if exit then some leadership_lost else none
result_of (some cancelled) exit = if exit then some leadership_lost else none
result_of (some e) exit = some e

-- What `runControllerWithStarter` returns behind `g.Wait`; `none` while it still waits.
unfoldable pub run_result : Process → Option (Option RunError)
run_result p =
    if group_done p && is_ended p.server_task && is_ended p.leader_task && is_ended p.monitor_task
    then some (result_of p.first p.leadership.exit_requested)
    else none

abbrev pub started : Process
started = record {
  server_task = active;
  leader_task = active;
  monitor_task = active;
  first = none;
  interrupted = false;
  leadership = record { exit_requested = false; cancelled = false; ready = true };
}

-- runControllerWithStarter: without clients, or without an instance label, nothing is started.
unfoldable pub run_controller :
    (ℕ → ℕ) → Config → Bool → Bool → List Happening → Option (Option RunError)
unfolding happen_all run_result
run_controller fold cfg has_clients has_label happenings =
    if has_clients
    then (if has_label
        then run_result (happen_all fold cfg happenings started)
        else some (some labels))
    else some (some clients)
