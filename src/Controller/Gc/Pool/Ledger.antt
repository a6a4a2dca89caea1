-- ===== src/Controller/Gc/Pool/Ledger.antt =====
-- internal/controller/apply.go: what becomes of a deletion with a grace period.
use pangolin_kube_controller.Prelude.{
  ◌≡◌, refl, sym, ◌∙◌, ap, ℕ, zero, suc, ◌+◌, Bool, true, false, not, ◌||◌, Option, none, some,
  List, [], ◌∷◌, ◌++◌, ltb, length, arith, if◌then◌else◌, Bool-cases, inl, inr, is_positive,
}
use pangolin_kube_controller.Kube.{Resource, Answer}
use pangolin_kube_controller.Controller.Gc.Pool.Account.{Accounted, run-Accounted}
use pangolin_kube_controller.Controller.Gc.Pool.{
  Request, Pool, Event, offer, refuse, take_next, wake, done, give_up, cancel, take_at, Fate,
  abandoned, dropped, handled, gvr_for_kind, enqueue, refuse_request, start, woken, ended, left,
  pool_step, pool_run,
}

module _ (w : Request → ℕ) where
  -- The sum of the weights: with a weight that is 1 at some requests and 0 elsewhere, a count.
  abbrev pub weigh : List Request → ℕ
  weigh [] = 0
  weigh (r ∷ rs) = w r + weigh rs

  weigh-append : (rs qs : List Request) → weigh (rs ++ qs) ≡ weigh rs + weigh qs
  weigh-append [] qs = omega arith
  weigh-append (r ∷ rs) qs = omega (arith, weigh-append rs qs)

  abbrev pair_weight : Option (Request × List Request) → ℕ
  pair_weight none = 0
  pair_weight (some (r, rest)) = w r + weigh rest

  weigh-take_at :
      (i : ℕ) (rs : List Request) (r : Request) (rest : List Request)
      → take_at i rs ≡ some (r, rest)
      → weigh rs ≡ w r + weigh rest
  unfolding take_at
  weigh-take_at i [] r rest h = cc
  weigh-take_at zero (x ∷ xs) r rest h = ap pair_weight h
  weigh-take_at (suc i) (x ∷ xs) r rest h = deeper (weigh-take_at i xs) (take_at i xs) refl
    where
      deeper :
          ((q : Request) (ys : List Request)
            → take_at i xs ≡ some (q, ys)
            → weigh xs ≡ w q + weigh ys)
          → (o : Option (Request × List Request)) → take_at i xs ≡ o
          → w x + weigh xs ≡ w r + weigh rest
      deeper ih none e = cc (rw e at h)
      deeper ih (some (q, ys)) e =
          let same : w q + (w x + weigh ys) ≡ w r + weigh rest = ap pair_weight (rw e at h) in
          omega (arith, ih q ys e)

  abbrev pub weigh_over : List (Request × Fate) → ℕ
  weigh_over [] = 0
  weigh_over ((r, fate) ∷ rs) = w r + weigh_over rs

  -- Everything that the pool was given: what waits, what is under way, and what is over.
  abbrev pub held : Pool → ℕ
  held p = weigh p.queue + weigh p.sleeping + weigh p.deleting + weigh_over p.over

  -- The request that comes in with an event.
  abbrev pub given : Event → ℕ
  given (offer r) = w r
  given (refuse r) = w r
  given _ = 0

  abbrev held_by : Option Pool → ℕ
  held_by none = 0
  held_by (some p) = held p

  module _ (size workers : ℕ) where
    offer_held :
        (r : Request) (p p' : Pool) → enqueue size workers r p ≡ some p' → held p' ≡ w r + held p
    offer_held r p p' h = elim (Bool-cases (ltb (length p.queue) size)) [
      | inl t ↦
          let e : enqueue size workers r p ≡ some (record p { queue = p.queue ++ r ∷ [] }) =
            unfold enqueue in rw t in
          omega (arith, ap held_by (sym h ∙ e), weigh-append p.queue (r ∷ []))
      | inr f ↦ let e : enqueue size workers r p ≡ none = unfold enqueue in rw f in cc
    ]

    refuse_held :
        (r : Request) (p p' : Pool)
        → refuse_request size workers r p ≡ some p'
        → held p' ≡ w r + held p
    refuse_held r p p' h = elim (Bool-cases (p.cancelled || not (ltb (length p.queue) size))) [
      | inl t ↦
          let e : refuse_request size workers r p
              ≡ some (record p { over = (r, dropped) ∷ p.over }) =
            unfold refuse_request in rw t in
          omega (arith, ap held_by (sym h ∙ e))
      | inr f ↦ let e : refuse_request size workers r p ≡ none = unfold refuse_request in rw f in cc
    ]

    start-held :
        (q : List Request) (idle : ℕ) (p p' : Pool)
        → p.queue ≡ q
        → start size workers q idle p ≡ some p'
        → held p' ≡ held p
    start-held [] idle p p' e h = cc
    start-held (r ∷ q) zero p p' e h = cc
    start-held (r ∷ q) (suc idle) p p' e h = omega (arith, ap held_by h, ap weigh e)

    woken-held :
        (i : ℕ) (o : Option (Request × List Request)) (p p' : Pool)
        → take_at i p.sleeping ≡ o
        → woken size workers o p ≡ some p'
        → held p' ≡ held p
    woken-held i none p p' e h = cc
    woken-held i (some (r, rest)) p p' e h = elim (Bool-cases (ltb (length p.deleting) workers)) [
      | inl t ↦
          let moved : held (record p { sleeping = rest; deleting = r ∷ p.deleting }) ≡ held p' =
            ap held_by (rw t at h) in
          omega (arith, moved, weigh-take_at i p.sleeping r rest e)
      | inr f ↦ cc (rw f at h)
    ]

    handled-held :
        (o : Option Resource) (r : Request) (rest : List Request) (a : Answer (Unit {0})) (p : Pool)
        → weigh p.deleting ≡ w r + weigh rest
        → held (handled o r rest a p) ≡ held p
    handled-held none r rest a p e = omega (arith, e)
    handled-held (some resource) r rest a p e = omega (arith, e)

    ended-held :
        (i : ℕ) (o : Option (Request × List Request)) (a : Answer (Unit {0})) (p p' : Pool)
        → take_at i p.deleting ≡ o
        → ended size workers o a p ≡ some p'
        → held p' ≡ held p
    ended-held i none a p p' e h = cc
    ended-held i (some (r, rest)) a p p' e h =
        sym (ap held_by h)
        ∙ handled-held (gvr_for_kind r.kind) r rest a p (weigh-take_at i p.deleting r rest e)

    left-held :
        (i : ℕ) (o : Option (Request × List Request)) (p p' : Pool)
        → take_at i p.sleeping ≡ o
        → left size workers o p ≡ some p'
        → held p' ≡ held p
    left-held i none p p' e h = cc
    left-held i (some (r, rest)) p p' e h = elim (Bool-cases (is_positive r.delay)) [
      | inl t ↦
          let moved : held
                (record p { sleeping = rest; idle = suc p.idle; over = (r, abandoned) ∷ p.over })
              ≡ held p' =
            ap held_by (rw t at h) in
          omega (arith, moved, weigh-take_at i p.sleeping r rest e)
      | inr f ↦ cc (rw f at h)
    ]

    give_up-held :
        (b : Bool) (i : ℕ) (p p' : Pool)
        → (if b then left size workers (take_at i p.sleeping) p else none) ≡ some p'
        → held p' ≡ held p
    give_up-held true i p p' h = left-held i (take_at i p.sleeping) p p' refl h
    give_up-held false i p p' h = cc

    step_held :
        (p p' : Pool) (e : Event)
        → pool_step size workers p e ≡ some p'
        → held p' ≡ given e + held p
    unfolding pool_step
    step_held p p' (offer r) h = offer_held r p p' h
    step_held p p' (refuse r) h = refuse_held r p p' h
    step_held p p' take_next h = omega (arith, start-held p.queue p.idle p p' refl h)
    step_held p p' (wake i) h = omega (arith, woken-held i (take_at i p.sleeping) p p' refl h)
    step_held p p' (done i a) h = omega (arith, ended-held i (take_at i p.deleting) a p p' refl h)
    step_held p p' (give_up i) h = omega (arith, give_up-held p.cancelled i p p' h)
    step_held p p' cancel h = omega (arith, ap held_by h)

    abbrev pub given_over : List Event → ℕ
    given_over [] = 0
    given_over (e ∷ es) = given e + given_over es

    run_held :
        (es : List Event) (p p' : Pool)
        → pool_run size workers p es ≡ some p'
        → held p' ≡ given_over es + held p
    unfolding pool_run
    run_held [] p p' h = omega (arith, ap held_by h)
    run_held (e ∷ es) p p' h = after (λ q. run_held es q p') (pool_step size workers p e) refl h
      where
        after :
            ((q : Pool) → pool_run size workers q es ≡ some p' → held p' ≡ given_over es + held q)
            → (o : Option Pool) → pool_step size workers p e ≡ o
            → (elim o [ none ↦ none | some p₁ ↦ pool_run size workers p₁ es ]) ≡ some p'
            → held p' ≡ given e + given_over es + held p
        after ih none t g = cc
        after ih (some p₁) t g = omega (arith, step_held p p₁ e t, ih p₁ g)

  -- After any run of events, with any weight of the requests: what waits in the queue, what waits for
  -- its delay, what is being deleted and what is over is together what there was before and what came
  -- in, into the queue or dropped before it. The deletions that were sent are, in order, those of the
  -- requests that are over with an answer, each to the resource of its kind; the kind of a request
  -- that is over as unknown is that of no resource.
  pub pool_run_keeps_requests :
      (size workers : ℕ) (es : List Event) (p p' : Pool)
      → Accounted p.over p.made
      → pool_run size workers p es ≡ some p'
      → (held p' ≡ given_over size workers es + held p) × Accounted p'.over p'.made
  pool_run_keeps_requests size workers es p p' a h =
      (run_held size workers es p p' h, run-Accounted size workers es p p' a h)
