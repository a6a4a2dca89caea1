-- ===== src/Kube/Prog.antt =====
-- Programs that call the Kubernetes API. A program returns a result or an error, and the calls made
-- so far.
pub mod Emits
pub mod Runs
use pangolin_kube_controller.Prelude.{Bool, true, false, List, [], ◌∷◌, if◌then◌else◌}
use pangolin_kube_controller.Text.{Text}
use pangolin_kube_controller.Result.{Error, Result, ok, err, ApiError, api}
use pangolin_kube_controller.Kube.{
  Resource, Object, Call, get_object, list_objects, get_service, list_services, get_slice,
  list_slices, History, Answer, answer, refused, Api,
}
use pangolin_kube_controller.Protocol.TcpUdp.{Service, EndpointSlice}

abbrev pub Prog : Type 0 → Type 0
Prog A = Api → History → Result A × History

module _ {A : Type 0} where
  unfoldable pub pure : A → Prog A
  pure a k h = (ok a, h)

  unfoldable pub fail : Error → Prog A
  fail e k h = (err e, h)

  -- A result that was computed with no call.
  unfoldable pub lift : Result A → Prog A
  lift r k h = (r, h)

  abbrev pub to_result : Answer A → Result A
  to_result (answer a) = ok a
  to_result (refused e) = err (api e)

  -- A call, with the answer of the server to it.
  unfoldable pub call : Call → (Api → History → Answer A) → Prog A
  call c ask k h = (to_result (ask k h), c ∷ h)

module _ {A B : Type 0} where
  abbrev pub continue : Result A → (A → Prog B) → Prog B
  continue (ok a) f k h = f a k h
  continue (err e) f k h = (err e, h)

  infixl 5 ◌>>=◌ ◌>>◌
  unfoldable pub ◌>>=◌ : Prog A → (A → Prog B) → Prog B
  ◌>>=◌ m f k h = let (r, h') = m k h in continue r f k h'

  unfoldable pub ◌>>◌ : Prog A → Prog B → Prog B
  unfolding ◌>>=◌
  m >> n = m >>= λ _. n

  -- The result of `m`, its error too, is given to `f`.
  unfoldable pub on_result : Prog A → (Result A → Prog B) → Prog B
  on_result m f k h = let (r, h') = m k h in f r k h'

-- The calls, each with the function of the server that answers it.
abbrev pub fetch_object : Resource → Text → Prog Object
fetch_object r n = call (get_object r n) (λ k h. k.object h r n)

abbrev pub fetch_objects : Resource → Text → Prog (List Object)
fetch_objects r selector = call (list_objects r selector) (λ k h. k.objects h r selector)

abbrev pub fetch_service : Text → Prog Service
fetch_service n = call (get_service n) (λ k h. k.service h n)

abbrev pub fetch_services : Text → Prog (List Service)
fetch_services selector = call (list_services selector) (λ k h. k.services h selector)

abbrev pub fetch_slice : Text → Prog EndpointSlice
fetch_slice n = call (get_slice n) (λ k h. k.slice h n)

abbrev pub fetch_slices : Text → Prog (List EndpointSlice)
fetch_slices selector = call (list_slices selector) (λ k h. k.slices h selector)

-- A call that changes the cluster.
abbrev pub perform : Call → Prog Unit
perform c = call c (λ k h. k.done h c)
