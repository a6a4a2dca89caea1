-- ===== src/Controller/Loop.antt =====
-- internal/controller/loop.go, internal/controller/change_detection.go, and fetchConfigOnce of
-- internal/controller/fetch.go: one round of the polling loop.
pub mod Endings
pub mod Rounds
pub mod Settles
pub mod Waits
use pangolin_kube_controller.Prelude.{
  ℕ, suc, Bool, true, false, not, ◌&&◌, ◌||◌, Option, none, some, [], ◌∷◌, map, ltb, leb, ◌==◌,
  if◌then◌else◌, is_empty,
}
use pangolin_kube_controller.Text.{Text, codes, text_eq, has_prefix, lower_rune}
use pangolin_kube_controller.Result.{Result, ok, err}
use pangolin_kube_controller.Json.{Codec}
use pangolin_kube_controller.Kube.{Api, History}
use pangolin_kube_controller.Sanitize.Name.{NameLib}
use pangolin_kube_controller.Sanitize.Config.{TraefikConfig}
use pangolin_kube_controller.Protocol.Servers.{NetLib}
use pangolin_kube_controller.Config.{Config}
use pangolin_kube_controller.Controller.Reconcile.{apply_config}

-- The answer of the configuration endpoint.
pub record Response : Type 0 where
  pub etag : Text
  pub body : Text
  pub status : ℕ

-- What surrounds a round: `fetchConditional` of a URL and a value of If-None-Match, which may fail;
-- the variable CONFIG_ALLOW_INSECURE_HTTP of the environment; and encoding/json, which reads a
-- body into a configuration.
pub record World : Type 0 where
  pub fetch : Text → Text → Option Response
  pub env_allow_http : Bool
  pub parse_config : Text → Option TraefikConfig

-- The variables of `runLoop` that decide what it does.
pub record LoopState : Type 0 where
  pub last_etag : Text
  pub last_hash : Text
  pub last_etag_is_header : Bool
  pub consecutive_errors : ℕ

-- isWeakETag
unfoldable pub is_weak_etag : Text → Bool
is_weak_etag et = has_prefix et (codes "W/")

-- decideChangeNoETag
unfoldable pub decide_change_no_etag : Text → Text → Bool
decide_change_no_etag last_hash cur_hash =
    if not (is_empty last_hash) && text_eq cur_hash last_hash then false else true

-- decideChangeWithETag
unfoldable pub decide_change_with_etag : Text → Text → Text → Text → Bool → Bool
unfolding is_weak_etag
decide_change_with_etag etag_header last_etag last_hash cur_hash last_etag_is_header =
    let weak = is_weak_etag etag_header in
    let same_hash = not (is_empty last_hash) && text_eq cur_hash last_hash in
    if not weak && last_etag_is_header && text_eq etag_header last_etag
    then false
    else if weak
    then (if same_hash then false else true)
    else if same_hash
    then false
    else true

-- computeIfNoneMatch
unfoldable pub compute_if_none_match : Bool → Text → Text
compute_if_none_match last_etag_is_header last_etag =
    if last_etag_is_header && not (is_empty last_etag) then last_etag else []

-- The results of `shouldProceedAfterStatus`, but for the hash that is logged.
pub record Decision : Type 0 where
  pub body : Text
  pub etag : Text
  pub proceed : Bool
  pub accepted : Bool

abbrev pub refused_status : Decision
refused_status = record { body = []; etag = []; proceed = false; accepted = false }

abbrev pub no_change : Text → Decision
no_change etag = record { body = []; etag = etag; proceed = false; accepted = true }

module _ (lib : NameLib) where
  -- computeHash
  unfoldable pub compute_hash : Text → Text
  compute_hash b = lib.sha256_hex b

  -- decideChange
  unfoldable pub decide_change : Text → LoopState → Text → Bool
  unfolding compute_hash decide_change_with_etag decide_change_no_etag
  decide_change etag_header s body =
      let cur_hash = compute_hash body in
      if not (is_empty etag_header)
      then decide_change_with_etag etag_header s.last_etag s.last_hash cur_hash
          s.last_etag_is_header
      else decide_change_no_etag s.last_hash cur_hash

  -- The end of `shouldProceedAfterStatus`
  unfoldable pub decide_body : Text → Text → LoopState → Decision
  unfolding decide_change
  decide_body body etag s =
      if not (decide_change etag s body)
      then no_change etag
      else record { body = body; etag = etag; proceed = true; accepted = true }

  -- shouldProceedAfterStatus
  unfoldable pub should_proceed_after_status : Response → LoopState → Decision
  unfolding decide_body
  should_proceed_after_status r s =
      if r.status == 304
      then no_change r.etag
      else if r.status == 404
      then decide_body (codes "{}") [] s
      else if r.status == 401 || r.status == 403
      then refused_status
      else if leb 500 r.status
      then refused_status
      else if not (r.status == 200)
      then refused_status
      else decide_body r.body r.etag s

  -- updateSignaturesAfterSuccess
  unfoldable pub update_signatures_after_success : Text → Text → LoopState → LoopState
  unfolding compute_hash
  update_signatures_after_success etag body s = record s {
    last_etag = etag;
    last_hash = compute_hash body;
    last_etag_is_header = not (is_empty etag);
  }

-- fetchConfigOnce; a plain HTTP endpoint must be allowed.
module _ (lib : NameLib) (cfg : Config) (world : World) where
  unfoldable pub fetch_config_once : Text → Option Response
  fetch_config_once if_none_match =
      let plain = has_prefix (map (lower_rune lib.lower_beyond) cfg.endpoint) (codes "http://") in
      let allowed = cfg.allow_insecure_http || world.env_allow_http in
      if plain && not allowed then none else world.fetch cfg.endpoint if_none_match

-- How a round ends, before the wait.
pub data Outcome : Type 0 where
  failed unchanged applied : Outcome

abbrev pub Round : Type 0
Round = LoopState × Outcome × History

abbrev pub with_errors : ℕ → LoopState → LoopState
with_errors n s = record s { consecutive_errors = n }

module _ (lib : NameLib) (net : NetLib) (codec : Codec) (cfg : Config) (world : World) where
  -- The end of a round whose configuration was applied with the result `r`.
  abbrev pub after_apply : Decision → LoopState → Result (Unit {0}) × History → Round
  after_apply d s (ok u, h) = (update_signatures_after_success lib d.etag d.body s, applied, h)
  after_apply d s (err e, h) = (with_errors (suc s.consecutive_errors) s, failed, h)

  -- processAndApply, and what follows it in the loop
  abbrev pub process_and_apply : Decision → LoopState → Option TraefikConfig → Api → History → Round
  process_and_apply d s none k h = (with_errors (suc s.consecutive_errors) s, failed, h)
  process_and_apply d s (some config) k h =
      after_apply d s (apply_config lib net codec cfg (some config) k h)

  -- The rest of a round, once the endpoint has answered; `handleFetchOutcome` comes first.
  unfoldable pub decide : Decision → LoopState → Api → History → Round
  decide d s k h =
      if not d.accepted
      then (with_errors (suc s.consecutive_errors) s, failed, h)
      else if not d.proceed
      then (with_errors 0 s, unchanged, h)
      else process_and_apply d (with_errors 0 s) (world.parse_config d.body) k h

  abbrev pub answered : LoopState → Api → History → Option Response → Round
  answered s k h none = (with_errors (suc s.consecutive_errors) s, failed, h)
  answered s k h (some r) = decide (should_proceed_after_status lib r s) s k h

  -- One round of `runLoop`
  unfoldable pub round : LoopState → Api → History → Round
  unfolding decide should_proceed_after_status fetch_config_once compute_if_none_match
  round s k h =
      answered s k h
        (fetch_config_once lib cfg world (compute_if_none_match s.last_etag_is_header s.last_etag))
