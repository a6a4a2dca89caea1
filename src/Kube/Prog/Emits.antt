-- ===== src/Kube/Prog/Emits.antt =====
-- What holds of every call that a program makes, one rule for each way to build a program.
use mathlib.Core.List.{append_assoc}
use pangolin_kube_controller.Prelude.{
  ◌≡◌, refl, sym, ap, ◌∙◌, Bool, true, false, List, [], ◌∷◌, ◌++◌, All, All-append, if◌then◌else◌,
}
use pangolin_kube_controller.Result.{Error, Result, ok, err}
use pangolin_kube_controller.Kube.{Call, History, Answer, Api}
use pangolin_kube_controller.Kube.Prog.{
  Prog, pure, fail, lift, call, ◌>>=◌, ◌>>◌, on_result, continue,
}

-- `h'` is `h` with more calls, which satisfy `P`.
abbrev pub Adds : (Call → Type 0) → History → History → Type 0
Adds P h h' = (added : History) × (h' ≡ added ++ h) × All P added

Adds-trans : {P : Call → Type 0} {h h' h'' : History} → Adds P h h' → Adds P h' h'' → Adds P h h''
Adds-trans {P} {h} (a, e, p) (b, f, q) =
    (b ++ a, f ∙ ap (λ t. b ++ t) e ∙ sym (append_assoc b a h), All-append P b a q p)

-- Every call that `m` makes satisfies `P`, whatever the server answers and whatever calls were
-- made before.
pub record Emits {A : Type 0} (P : Call → Type 0) (m : Prog A) : Type 0 where
  pub at : (k : Api) (h : History) → Adds P h (m k h).1

module _ {A : Type 0} {P : Call → Type 0} where
  pub Emits-pure : (a : A) → Emits P (pure a)
  unfolding pure
  Emits-pure a = record { at = λ k h. ([], refl, tt) }

  pub Emits-fail : (e : Error) → Emits P (fail {A = A} e)
  unfolding fail
  Emits-fail e = record { at = λ k h. ([], refl, tt) }

  pub Emits-lift : (r : Result A) → Emits P (lift r)
  unfolding lift
  Emits-lift r = record { at = λ k h. ([], refl, tt) }

  pub Emits-call : (c : Call) (ask : Api → History → Answer A) → P c → Emits P (call c ask)
  unfolding call
  Emits-call c ask pc = record { at = λ k h. (c ∷ [], refl, (pc, tt)) }

  pub Emits-if :
      (b : Bool) (m n : Prog A)
      → (b ≡ true → Emits P m)
      → (b ≡ false → Emits P n)
      → Emits P (if b then m else n)
  Emits-if true m n hm hn = hm refl
  Emits-if false m n hm hn = hn refl

module _ {A B : Type 0} {P : Call → Type 0} where
  Emits-continue :
      (r : Result A) (f : A → Prog B) (k : Api) (h : History)
      → ((a : A) → Emits P (f a))
      → Adds P h (continue r f k h).1
  Emits-continue (ok a) f k h hf = (hf a).at k h
  Emits-continue (err e) f k h hf = ([], refl, tt)

  pub Emits-bind :
      (m : Prog A) (f : A → Prog B) → Emits P m → ((a : A) → Emits P (f a)) → Emits P (m >>= f)
  unfolding ◌>>=◌
  Emits-bind m f hm hf = record {
    at = λ k h. let (r, h') = m k h in Adds-trans (hm.at k h) (Emits-continue r f k h' hf);
  }

  pub Emits-then : (m : Prog A) (n : Prog B) → Emits P m → Emits P n → Emits P (m >> n)
  unfolding ◌>>◌
  Emits-then m n hm hn = Emits-bind m (λ _. n) hm (λ _. hn)

  pub Emits-on_result :
      (m : Prog A) (f : Result A → Prog B)
      → Emits P m
      → ((r : Result A) → Emits P (f r))
      → Emits P (on_result m f)
  unfolding on_result
  Emits-on_result m f hm hf = record {
    at = λ k h. let (r, h') = m k h in Adds-trans (hm.at k h) ((hf r).at k h');
  }

pub ruleset emits_rules = (
  Emits-pure, Emits-fail, Emits-lift, Emits-call, Emits-if, Emits-bind, Emits-then, Emits-on_result,
)

All-mono : {P Q : Call → Type 0} (cs : List Call) → ((c : Call) → P c → Q c) → All P cs → All Q cs
All-mono [] f h = tt
All-mono (c ∷ cs) f (p, h) = (f c p, All-mono cs f h)

module _ {A : Type 0} {P Q : Call → Type 0} where
  pub Emits-mono : (m : Prog A) → ((c : Call) → P c → Q c) → Emits P m → Emits Q m
  Emits-mono m f hm = record {
    at = λ k h. let (added, e, all) = hm.at k h in (added, e, All-mono added f all);
  }
