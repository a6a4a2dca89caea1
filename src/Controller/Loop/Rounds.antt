-- ===== src/Controller/Loop/Rounds.antt =====
-- internal/controller/loop.go: what a round of the polling loop remembers, and when it applies.
use pangolin_kube_controller.Prelude.{
  ◌⊎◌, inl, inr, ◌≡◌, refl, sym, ap, ◌∙◌, Bool, true, false, not, ◌||◌, Option, none, some, [],
  arith, Bool-cases, if◌then◌else◌, is_empty, ◌==◌, ==_iff, leb,
}
use mathlib.Core.Bool.{false≢true}
use pangolin_kube_controller.Text.{Text, codes, text_eq}
use pangolin_kube_controller.Text.Equality.{text_eq_refl}
use pangolin_kube_controller.Result.{ok}
use pangolin_kube_controller.Json.{Codec}
use pangolin_kube_controller.Kube.{Api, History}
use pangolin_kube_controller.Sanitize.Name.{NameLib}
use pangolin_kube_controller.Sanitize.Config.{TraefikConfig}
use pangolin_kube_controller.Protocol.Servers.{NetLib}
use pangolin_kube_controller.Config.{Config}
use pangolin_kube_controller.Controller.Reconcile.{apply_config}
use pangolin_kube_controller.Controller.Loop.{
  Response, World, LoopState, Decision, Outcome, failed, unchanged, applied, with_errors, decide,
  answered, round, should_proceed_after_status, decide_body, decide_change, compute_hash,
  update_signatures_after_success, Round, no_change, refused_status, fetch_config_once,
  compute_if_none_match,
}
use pangolin_kube_controller.Controller.Loop.Endings.{Ends, Ends-answered}

-- What a round remembers of the configuration that was applied last.
abbrev pub signatures : LoopState → Text × Text × Bool
signatures s = (s.last_etag, s.last_hash, s.last_etag_is_header)

module _ (lib : NameLib) (net : NetLib) (codec : Codec) (cfg : Config) (world : World) where
  -- The body that a round looks at, with its ETag: those of an answer 200, and the empty
  -- configuration for an answer 404.
  abbrev pub IsRead : Response → Text → Text → Type 0
  IsRead r body etag =
      ((r.status ≡ 200) × (body ≡ r.body) × (etag ≡ r.etag))
      ⊎ ((r.status ≡ 404) × (body ≡ codes "{}") × (etag ≡ []))

  -- A round that has applied the configuration of the answer without an error, with the calls of
  -- that reconciliation, and remembers its ETag and its hash.
  pub record HasApplied (s : LoopState) (k : Api) (h : History) (out : Round) : Type 0 where
    pub response : Response
    pub body : Text
    pub etag : Text
    pub config : TraefikConfig
    pub fetched :
        fetch_config_once lib cfg world (compute_if_none_match s.last_etag_is_header s.last_etag)
        ≡ some response
    pub is_read : IsRead response body etag
    pub parsed : world.parse_config body ≡ some config
    pub reconciled : apply_config lib net codec cfg (some config) k h ≡ (ok tt, out.2)
    pub remembers : out.0 ≡ record {
      last_etag = etag;
      last_hash = lib.sha256_hex body;
      last_etag_is_header = not (is_empty etag);
      consecutive_errors = 0;
    }

  -- What a round leaves, by how it ends.
  abbrev pub Leaves : LoopState → Api → History → Round → Type 0
  Leaves s k h out =
      ((out.1 ≡ applied) × HasApplied s k h out)
      ⊎ ((out.1 ≡ unchanged) × (out.2 ≡ h) × (out.0 ≡ with_errors 0 s))
      ⊎ ((out.1 ≡ failed) × (signatures out.0 ≡ signatures s))

  -- A decision to go on is one about what was read.
  body_IsRead :
      (r : Response) (body etag : Text) (s : LoopState)
      → IsRead r body etag
      → (decide_body lib body etag s).proceed ≡ true
      → IsRead r (decide_body lib body etag s).body (decide_body lib body etag s).etag
  unfolding decide_body
  body_IsRead r body etag s i p = elim (Bool-cases (decide_change lib etag s body)) [
    | inl t ↦ rw t i
    | inr f ↦ let stuck : (decide_body lib body etag s).proceed ≡ false = rw f refl in cc
  ]

  decision-IsRead :
      (r : Response) (s : LoopState)
      → (should_proceed_after_status lib r s).proceed ≡ true
      → IsRead r
          (should_proceed_after_status lib r s).body
          (should_proceed_after_status lib r s).etag
  unfolding should_proceed_after_status
  decision-IsRead r s p = elim (Bool-cases (r.status == 304)) [
    | inl t ↦ cc (rw t at p)
    | inr f ↦ elim (Bool-cases (r.status == 404)) [
      | inl t ↦
          rw (f, t)
            (body_IsRead r (codes "{}") [] s (inr ((==_iff r.status 404).0 t, refl, refl))
              (rw (f, t) at p))
      | inr f1 ↦ elim (Bool-cases (r.status == 401 || r.status == 403)) [
        | inl t ↦ cc (rw (f, f1, t) at p)
        | inr f2 ↦ elim (Bool-cases (leb 500 r.status)) [
          | inl t ↦ cc (rw (f, f1, f2, t) at p)
          | inr f3 ↦ elim (Bool-cases (r.status == 200)) [
            | inr f4 ↦ cc (rw (f, f1, f2, f3, f4) at p)
            | inl t ↦
                rw (f, f1, f2, f3, t)
                  (body_IsRead r r.body r.etag s (inl ((==_iff r.status 200).0 t, refl, refl))
                    (rw (f, f1, f2, f3, t) at p))
          ]
        ]
      ]
    ]
  ]

  -- Only a decision to go on applies.
  applied-proceeds :
      (d : Decision) (s : LoopState) (k : Api) (h : History)
      → (decide lib net codec cfg world d s k h).1 ≡ applied
      → d.proceed ≡ true
  unfolding decide
  applied-proceeds d s k h e = elim (Bool-cases d.accepted) [
    | inr f ↦ let stuck : (decide lib net codec cfg world d s k h).1 ≡ failed = rw f refl in cc
    | inl t ↦ elim (Bool-cases d.proceed) [
      | inl p ↦ p
      | inr f ↦
          let stuck : (decide lib net codec cfg world d s k h).1 ≡ unchanged = rw (t, f) refl in cc
    ]
  ]

  Leaves-of_Ends :
      (r : Response) (s : LoopState) (k : Api) (h : History) (o : Outcome)
      → fetch_config_once lib cfg world (compute_if_none_match s.last_etag_is_header s.last_etag)
        ≡ some r
      → (answered lib net codec cfg world s k h (some r)).1 ≡ o
      → Ends lib net codec cfg world
          (should_proceed_after_status lib r s)
          s
          k
          h
          (answered lib net codec cfg world s k h (some r))
          o
      → Leaves s k h (answered lib net codec cfg world s k h (some r))
  unfolding update_signatures_after_success compute_hash
  Leaves-of_Ends r s k h applied f q (config, p, run, kept) =
      let d = should_proceed_after_status lib r s in
      inl (
        q,
        record {
          response = r;
          body = d.body;
          etag = d.etag;
          config = config;
          fetched = f;
          is_read = decision-IsRead r s (applied-proceeds d s k h q);
          parsed = p;
          reconciled = run;
          remembers = kept;
        },
      )
  Leaves-of_Ends r s k h unchanged f q e = inr (inl (q, e.1, e.0))
  Leaves-of_Ends r s k h failed f q e = inr (inr (q, ap signatures e.1))

  -- A round either applies the configuration of an answer 200, or the empty one for an answer 404:
  -- then its reconciliation has returned no error and made the calls of the round, and the round
  -- remembers the ETag of the answer and the hash of the body and forgets the errors before. Or it
  -- finds nothing new: then it makes no call, forgets the errors before, and leaves the remembered
  -- ETag and hash as they were, also when the ETag of the answer is another one. Or it fails, and
  -- leaves the remembered ETag and hash as they were, so that the same answer is looked at again.
  pub round_remembers_applied :
      (s : LoopState) (k : Api) (h : History) → Leaves s k h (round lib net codec cfg world s k h)
  unfolding round
  round_remembers_applied s k h =
      by_answer
        (fetch_config_once lib cfg world (compute_if_none_match s.last_etag_is_header s.last_etag))
        refl
    where
      by_answer :
          (a : Option Response)
          → fetch_config_once lib cfg world
              (compute_if_none_match s.last_etag_is_header s.last_etag)
            ≡ a
          → Leaves s k h (answered lib net codec cfg world s k h a)
      by_answer none f = inr (inr (refl, refl))
      by_answer (some r) f =
          Leaves-of_Ends r s k h _ f refl (Ends-answered lib net codec cfg world s k h r)

  -- The hash that is remembered settles the decision, whatever the ETag says.
  pub decide_change_settled :
      (etag : Text) (s : LoopState) (body : Text)
      → s.last_hash ≡ compute_hash lib body
      → is_empty (compute_hash lib body) ≡ false
      → decide_change lib etag s body ≡ false
  unfolding decide_change
  decide_change_settled etag s body p q =
      let t : text_eq (compute_hash lib body) s.last_hash ≡ true = rw p (text_eq_refl _) in
      let n : is_empty s.last_hash ≡ false = rw p q in ground arith

  -- A decision to go on looks at a body and an ETag, whatever the state was.
  abbrev pub LooksAt : (LoopState → Decision) → LoopState → Type 0
  LooksAt f s =
      ((f s).accepted ≡ true) × ((s' : LoopState) → f s' ≡ decide_body lib (f s).body (f s).etag s')

  body_shape :
      (body etag : Text) (s : LoopState)
      → (decide_body lib body etag s).proceed ≡ true
      → LooksAt (decide_body lib body etag) s
  body_shape body etag s h = elim (Bool-cases (decide_change lib etag s body)) [
    | inl t ↦
        let e : decide_body lib body etag s
            ≡ record { body = body; etag = etag; proceed = true; accepted = true } =
          unfold decide_body in rw t in
        rw e (refl, λ s'. refl)
    | inr f ↦
        let e : decide_body lib body etag s ≡ no_change etag = unfold decide_body in rw f in
        absurd (false≢true (sym (ap (λ (d : Decision). d.proceed) e) ∙ h))
  ]

  abbrev pub by_status : Response → Bool → Bool → Bool → Bool → Bool → LoopState → Decision
  by_status r b1 b2 b3 b4 b5 s =
      if b1
      then no_change r.etag
      else if b2
      then decide_body lib (codes "{}") [] s
      else if b3
      then refused_status
      else if b4
      then refused_status
      else if b5
      then refused_status
      else decide_body lib r.body r.etag s

  status_shape :
      (r : Response) (b1 b2 b3 b4 b5 : Bool) (s : LoopState)
      → (by_status r b1 b2 b3 b4 b5 s).proceed ≡ true
      → LooksAt (by_status r b1 b2 b3 b4 b5) s
  status_shape r true b2 b3 b4 b5 s h = cc
  status_shape r false true b3 b4 b5 s h = body_shape (codes "{}") [] s h
  status_shape r false false true b4 b5 s h = cc
  status_shape r false false false true b5 s h = cc
  status_shape r false false false false true s h = cc
  status_shape r false false false false false s h = body_shape r.body r.etag s h

  pub decision_shape :
      (r : Response) (s : LoopState)
      → (should_proceed_after_status lib r s).proceed ≡ true
      → LooksAt (should_proceed_after_status lib r) s
  unfolding should_proceed_after_status
  decision_shape r s h =
      status_shape r (r.status == 304) (r.status == 404) (r.status == 401 || r.status == 403)
        (leb 500 r.status) (not (r.status == 200)) s h
