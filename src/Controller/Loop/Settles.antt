-- ===== src/Controller/Loop/Settles.antt =====
-- internal/controller/loop.go: which answers are applied, how often, and what an error counts.
use pangolin_kube_controller.Prelude.{
  ◌≡◌, ◌≢◌, ◌⊎◌, inl, inr, refl, sym, ap, ◌∙◌, true, false, Option, none, some, [], ◌∷◌, arith,
  Bool-cases, is_empty, length,
}
use pangolin_kube_controller.Text.{Text}
use pangolin_kube_controller.Text.Equality.{text_eq_iff, text_eq_ne}
use pangolin_kube_controller.Result.{Result, ok, err}
use pangolin_kube_controller.Json.{Codec}
use pangolin_kube_controller.Kube.{Api, History}
use pangolin_kube_controller.Sanitize.Name.{NameLib, HasDigest}
use pangolin_kube_controller.Sanitize.Config.{TraefikConfig}
use pangolin_kube_controller.Protocol.Servers.{NetLib}
use pangolin_kube_controller.Config.{Config}
use pangolin_kube_controller.Controller.Reconcile.{apply_config}
use pangolin_kube_controller.Controller.Loop.{
  Response, World, LoopState, Decision, Outcome, failed, unchanged, applied, with_errors, decide,
  answered, after_apply, process_and_apply, should_proceed_after_status, decide_body, decide_change,
  compute_hash, update_signatures_after_success, Round, is_weak_etag, no_change,
}
use pangolin_kube_controller.Controller.Loop.Endings.{Applied, Ends, Ends-answered}
use pangolin_kube_controller.Controller.Loop.Rounds.{decide_change_settled, decision_shape}

module _ (lib : NameLib) (net : NetLib) (codec : Codec) (cfg : Config) (world : World) where
  -- A round is applied only after a decision to go on.
  applied-proceeds :
      (d : Decision) (s : LoopState) (k : Api) (h : History)
      → (decide lib net codec cfg world d s k h).1 ≡ applied
      → d.proceed ≡ true
  unfolding decide
  applied-proceeds d s k h q = elim (Bool-cases d.proceed) [
    | inl t ↦ t
    | inr f ↦ elim (Bool-cases d.accepted) [ inl t ↦ cc (rw (t, f) at q) | inr g ↦ cc (rw g at q) ]
  ]

  hash_nonempty : HasDigest lib → (body : Text) → is_empty (compute_hash lib body) ≡ false
  unfolding compute_hash
  hash_nonempty digest body = go (lib.sha256_hex body) (digest.digits body)
    where
      go : (t : Text) → length t ≡ 64 → is_empty t ≡ false
      go [] e = absurd (omega (arith, e))
      go (x ∷ xs) e = refl

  as_applied :
      (d : Decision) (s : LoopState) (k : Api) (h : History) (out : Round) (o : Outcome)
      → o ≡ applied
      → Ends lib net codec cfg world d s k h out o
      → Applied lib net codec cfg world d s k h out
  as_applied d s k h out applied q e = e
  as_applied d s k h out unchanged q e = cc
  as_applied d s k h out failed q e = cc

  decide-no_change :
      (etag : Text) (s : LoopState) (k : Api) (h : History)
      → decide lib net codec cfg world (no_change etag) s k h ≡ (with_errors 0 s, unchanged, h)
  unfolding decide
  decide-no_change etag s k h = refl

  -- Once the answer of the endpoint was applied without an error, a later round that gets the same
  -- answer makes no call, in whatever state the cluster is by then, and keeps what is remembered;
  -- if a digest is 64 hexadecimal digits.
  pub applied_then_settles :
      HasDigest lib
      → (s : LoopState) (r : Response) (k : Api) (h : History)
      → (answered lib net codec cfg world s k h (some r)).1 ≡ applied
      → (k' : Api) (h' : History)
      → let s' = (answered lib net codec cfg world s k h (some r)).0 in
        answered lib net codec cfg world s' k' h' (some r) ≡ (with_errors 0 s', unchanged, h')
  applied_then_settles digest s r k h q k' h' =
      let d = should_proceed_after_status lib r s in
      let out = answered lib net codec cfg world s k h (some r) in
      let ends = as_applied d s k h out out.1 q (Ends-answered lib net codec cfg world s k h r) in
      let remembered : out.0.last_hash ≡ compute_hash lib d.body =
        unfold update_signatures_after_success in ap (λ (t : LoopState). t.last_hash) ends.3 in
      let shape =
        (decision_shape lib net codec cfg world r s (applied-proceeds d s k h q)).1 out.0 in
      let same =
        decide_change_settled lib net codec cfg world d.etag out.0 d.body remembered
          (hash_nonempty digest d.body) in
      let idle : decide_body lib d.body d.etag out.0 ≡ no_change d.etag =
        unfold decide_body in rw same in
      ap (λ x. decide lib net codec cfg world x out.0 k' h') (shape ∙ idle)
      ∙ decide-no_change d.etag out.0 k' h'

  status_ok :
      (s : LoopState) (r : Response)
      → r.status ≡ 200
      → should_proceed_after_status lib r s ≡ decide_body lib r.body r.etag s
  unfolding should_proceed_after_status
  status_ok s r st = rw st

  body_is_new :
      (s : LoopState) (r : Response)
      → compute_hash lib r.body ≢ s.last_hash
      → (is_weak_etag r.etag ≡ true) ⊎ (r.etag ≢ s.last_etag) ⊎ (s.last_etag_is_header ≡ false)
      → decide_change lib r.etag s r.body ≡ true
  unfolding decide_change
  body_is_new s r ne fresh =
      ground
        (arith, text_eq_ne (compute_hash lib r.body) s.last_hash ne, text_eq_iff r.etag s.last_etag)

  -- An answer 200 whose body has another hash than the one remembered, and which is not the answer
  -- remembered by a strong ETag, is applied: the round makes the calls of the reconciliation of
  -- its configuration, and it remembers the answer if these return no error.
  pub new_body_applies :
      (s : LoopState) (r : Response) (config : TraefikConfig) (k : Api) (h : History)
      → r.status ≡ 200
      → compute_hash lib r.body ≢ s.last_hash
      → (is_weak_etag r.etag ≡ true) ⊎ (r.etag ≢ s.last_etag) ⊎ (s.last_etag_is_header ≡ false)
      → world.parse_config r.body ≡ some config
      → answered lib net codec cfg world s k h (some r)
        ≡ after_apply lib net codec cfg world
            (record { body = r.body; etag = r.etag; proceed = true; accepted = true })
            (with_errors 0 s)
            (apply_config lib net codec cfg (some config) k h)
  new_body_applies s r config k h st ne fresh parsed =
      let d : Decision = record { body = r.body; etag = r.etag; proceed = true; accepted = true } in
      let new : decide_body lib r.body r.etag s ≡ d =
        unfold decide_body in rw (body_is_new s r ne fresh) in
      ap (λ x. decide lib net codec cfg world x s k h) (status_ok s r st ∙ new)
      ∙ (unfold decide in rw parsed)

  process_error_count :
      (d : Decision) (s : LoopState) (o : Option TraefikConfig) (k : Api) (h : History)
      → (process_and_apply lib net codec cfg world d (with_errors 0 s) o k h).1 ≡ failed
      → (process_and_apply lib net codec cfg world d (with_errors 0 s) o k h).0 ≡ with_errors 1 s
  process_error_count d s none k h q = refl
  process_error_count d s (some config) k h q =
      by_result (apply_config lib net codec cfg (some config) k h).0
        (apply_config lib net codec cfg (some config) k h).1 q
    where
      by_result :
          (x : Result (Unit {0})) (h' : History)
          → (after_apply lib net codec cfg world d (with_errors 0 s) (x, h')).1 ≡ failed
          → (after_apply lib net codec cfg world d (with_errors 0 s) (x, h')).0 ≡ with_errors 1 s
      by_result (ok u) h' e = cc
      by_result (err x) h' e = refl

  -- However many errors came before, a round that gets a new configuration and cannot read it, or
  -- whose reconciliation fails, counts one error: the wait before the next attempt does not grow.
  pub failed_apply_counts_one :
      (s : LoopState) (r : Response) (k : Api) (h : History)
      → (should_proceed_after_status lib r s).proceed ≡ true
      → (answered lib net codec cfg world s k h (some r)).1 ≡ failed
      → (answered lib net codec cfg world s k h (some r)).0 ≡ with_errors 1 s
  failed_apply_counts_one s r k h p q =
      let d = should_proceed_after_status lib r s in
      let a = (decision_shape lib net codec cfg world r s p).0 in
      let e : decide lib net codec cfg world d s k h
          ≡ process_and_apply lib net codec cfg world d (with_errors 0 s)
              (world.parse_config d.body) k h =
        unfold decide in rw (a, p) in
      rw e (
        process_error_count d s (world.parse_config d.body) k h
          (sym (ap (λ (z : Round). z.1) e) ∙ q))
