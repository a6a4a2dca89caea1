-- ===== src/Controller/Gc/Pool.antt =====
-- internal/controller/apply.go: the queue and the workers of the deletions with a grace period. The
-- workers run side by side, so a run is a sequence of events in any order.
pub mod Account
pub mod Ledger
use pangolin_kube_controller.Prelude.{
  ℕ, zero, suc, ◌+◌, Bool, true, false, not, ◌||◌, Option, none, some, List, [], ◌∷◌, ◌++◌, ltb,
  length, if◌then◌else◌, ℤ, is_positive, to_ℕ,
}
use pangolin_kube_controller.Text.{Text, codes, text_eq}
use pangolin_kube_controller.Kube.{
  Resource, middlewares, ingress_routes, traefik_services, servers_transports, ingress_route_tcps,
  ingress_route_udps, servers_transport_tcps, Call, delete_object, History, Answer,
}

-- graceDeleteReq
pub record Request : Type 0 where
  pub kind : Text
  pub name : Text
  pub delay : ℤ

-- gvrForKind; no resource for any other kind
unfoldable pub gvr_for_kind : Text → Option Resource
gvr_for_kind kind =
    if text_eq kind (codes "Middleware")
    then some middlewares
    else if text_eq kind (codes "IngressRoute")
    then some ingress_routes
    else if text_eq kind (codes "TraefikService")
    then some traefik_services
    else if text_eq kind (codes "ServersTransport")
    then some servers_transports
    else if text_eq kind (codes "IngressRouteTCP")
    then some ingress_route_tcps
    else if text_eq kind (codes "IngressRouteUDP")
    then some ingress_route_udps
    else if text_eq kind (codes "ServersTransportTCP")
    then some servers_transport_tcps
    else none

-- The size of the queue and the number of workers that `startGraceDeletionPool` takes.
unfoldable pub queue_size : ℤ → ℕ
queue_size configured = if is_positive configured then to_ℕ configured else 256

unfoldable pub worker_count : ℤ → ℕ
worker_count configured = if is_positive configured then to_ℕ configured else 1

-- How a request ends: its deletion was sent and has an answer, an error or not; its kind has no
-- resource; the context was cancelled while its worker waited; or it did not get into the queue.
pub data Fate : Type 0 where
  sent : Answer (Unit {0}) → Fate
  unknown_kind abandoned dropped : Fate

-- The channel, the workers by what they do (idle, waiting for the delay, deleting with a place in
-- `gcSem`), the requests that are over, and the calls that were made, the last one first.
pub record Pool : Type 0 where
  pub queue : List Request
  pub idle : ℕ
  pub sleeping : List Request
  pub deleting : List Request
  pub over : List (Request × Fate)
  pub cancelled : Bool
  pub made : History

-- What happens next: a request is put into the queue, or is given up because the queue stays full
-- or the context is cancelled; an idle worker takes the first one; the
-- worker of the request at an index has waited, or is through with it, where the API server gives
-- that answer to a deletion; the context is cancelled; the
-- worker of the request at an index, which waits, notices it.
pub data Event : Type 0 where
  offer refuse : Request → Event
  take_next : Event
  wake give_up : ℕ → Event
  done : ℕ → Answer (Unit {0}) → Event
  cancel : Event

unfoldable pub take_at {ℓ} : {A : Type ℓ} → ℕ → List A → Option (A × List A)
take_at i [] = none
take_at zero (x ∷ xs) = some (x, xs)
take_at (suc i) (x ∷ xs) = elim (take_at i xs) [ none ↦ none | some (y, ys) ↦ some (y, x ∷ ys) ]

-- handleGraceDelete with its place in `gcSem`: an unknown kind is dropped with a warning and no
-- call; an error of the deletion is logged, and the request is not tried again.
abbrev pub handled : Option Resource → Request → List Request → Answer (Unit {0}) → Pool → Pool
handled none r rest a p = record p {
  deleting = rest;
  idle = suc p.idle;
  over = (r, unknown_kind) ∷ p.over;
}
handled (some resource) r rest a p = record p {
  deleting = rest;
  idle = suc p.idle;
  over = (r, sent a) ∷ p.over;
  made = delete_object resource r.name ∷ p.made;
}

module _ (size workers : ℕ) where
  -- enqueueGraceDeletion: `select` on the channel
  unfoldable pub enqueue : Request → Pool → Option Pool
  enqueue r p =
      if ltb (length p.queue) size then some (record p { queue = p.queue ++ r ∷ [] }) else none

  -- enqueueGraceDeletion: `select` on the context and on the wait of 250 ms; the request is dropped.
  unfoldable pub refuse_request : Request → Pool → Option Pool
  refuse_request r p =
      if p.cancelled || not (ltb (length p.queue) size)
      then some (record p { over = (r, dropped) ∷ p.over })
      else none

  abbrev pub start : List Request → ℕ → Pool → Option Pool
  start [] idle p = none
  start (r ∷ queue) zero p = none
  start (r ∷ queue) (suc idle) p =
      some (record p { queue = queue; idle = idle; sleeping = r ∷ p.sleeping })

  abbrev pub woken : Option (Request × List Request) → Pool → Option Pool
  woken none p = none
  woken (some (r, rest)) p =
      if ltb (length p.deleting) workers
      then some (record p { sleeping = rest; deleting = r ∷ p.deleting })
      else none

  abbrev pub ended : Option (Request × List Request) → Answer (Unit {0}) → Pool → Option Pool
  ended none a p = none
  ended (some (r, rest)) a p = some (handled (gvr_for_kind r.kind) r rest a p)

  -- The wait of a request without a delay is not interrupted.
  abbrev pub left : Option (Request × List Request) → Pool → Option Pool
  left none p = none
  left (some (r, rest)) p =
      if is_positive r.delay
      then some (record p { sleeping = rest; idle = suc p.idle; over = (r, abandoned) ∷ p.over })
      else none

  -- graceDeletionWorker and handleGraceDelete, event by event; none where the event cannot happen.
  unfoldable pub pool_step : Pool → Event → Option Pool
  unfolding enqueue refuse_request gvr_for_kind
  pool_step p (offer r) = enqueue r p
  pool_step p (refuse r) = refuse_request r p
  pool_step p take_next = start p.queue p.idle p
  pool_step p (wake i) = woken (take_at i p.sleeping) p
  pool_step p (done i a) = ended (take_at i p.deleting) a p
  pool_step p (give_up i) = if p.cancelled then left (take_at i p.sleeping) p else none
  pool_step p cancel = some (record p { cancelled = true })

  unfoldable pub pool_run : Pool → List Event → Option Pool
  pool_run p [] = some p
  pool_run p (e ∷ es) = elim (pool_step p e) [ none ↦ none | some p' ↦ pool_run p' es ]

-- startGraceDeletionPool
abbrev pub new_pool : ℕ → Pool
new_pool workers = record {
  queue = [];
  idle = workers;
  sleeping = [];
  deleting = [];
  over = [];
  cancelled = false;
  made = [];
}
