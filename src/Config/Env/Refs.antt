-- ===== src/Config/Env/Refs.antt =====
-- internal/config/env.go (parseCertificateSecretsEnv): references to Secrets are read back from
-- CERTIFICATE_SECRETS.
use pangolin_kube_controller.Prelude.{
  ℕ, ◌≡◌, refl, sym, ap, true, false, inl, inr, Bool-cases, some, List, [], ◌∷◌, ◌++◌, map,
  if◌then◌else◌, is_empty, All, All-append, ◌==◌,
}
use pangolin_kube_controller.Text.{Text, codes, split, join, trim, trim_space, is_space}
use pangolin_kube_controller.Text.Trim.{
  StartsOk, EndsOk, trim_left_of_StartsOk, trim_right_of_EndsOk,
}
use pangolin_kube_controller.Config.{CertificateSecretRef}
use pangolin_kube_controller.Config.Env.{
  count, cut, parse_ref, parse_refs, parse_certificate_secrets_env,
}

-- A character that neither separates nor is cut off.
pub record IsPlain (c : ℕ) : Type 0 where
  pub no_slash : (c == b'/') ≡ false
  pub no_comma : (c == b',') ≡ false
  pub no_space : is_space c ≡ false

-- "name" or "namespace/name"
abbrev pub print_ref : CertificateSecretRef → Text
print_ref r = if is_empty r.namespace then r.secret_name else r.namespace ++ b'/' ∷ r.secret_name

-- The names consist of plain characters, and the name of the Secret is there.
pub record IsRef (r : CertificateSecretRef) : Type 0 where
  pub plain_namespace : All IsPlain r.namespace
  pub plain_name : All IsPlain r.secret_name
  pub named : is_empty r.secret_name ≡ false

starts : (s : Text) → All (λ c. is_space c ≡ false) s → StartsOk is_space s
starts [] h = tt
starts (c ∷ s) h = h.0

ends : (s : Text) → All (λ c. is_space c ≡ false) s → EndsOk is_space s
ends [] h = tt
ends (c ∷ []) h = h.0
ends (c ∷ d ∷ s) h = ends (d ∷ s) h.1

trim_space_plain : (s : Text) → All (λ c. is_space c ≡ false) s → trim_space s ≡ s
unfolding trim_space trim
trim_space_plain s h =
    rw (trim_left_of_StartsOk is_space s (starts s h)) (trim_right_of_EndsOk is_space s (ends s h))

spaces_none : (s : Text) → All IsPlain s → All (λ c. is_space c ≡ false) s
spaces_none [] h = tt
spaces_none (c ∷ s) (p, h) = (p.no_space, spaces_none s h)

-- Where a text has no separator.
split_lacks : (s : Text) → All (λ c. (c == b',') ≡ false) s → split b',' s ≡ s ∷ []
unfolding split
split_lacks [] h = refl
split_lacks (c ∷ s) (n, h) = rw (n, split_lacks s h) refl

split-append :
    (s t : Text) → All (λ c. (c == b',') ≡ false) s → split b',' (s ++ b',' ∷ t) ≡ s ∷ split b',' t
unfolding split
split-append [] t h = refl
split-append (c ∷ s) t (n, h) = rw (n, split-append s t h) refl

count_plain : (s : Text) → All IsPlain s → count b'/' s ≡ 0
unfolding count
count_plain [] h = refl
count_plain (c ∷ s) (p, h) = rw (p.no_slash, count_plain s h) refl

count_pair : (s t : Text) → All IsPlain s → All IsPlain t → count b'/' (s ++ b'/' ∷ t) ≡ 1
unfolding count
count_pair [] t h k = rw (count_plain t k) refl
count_pair (c ∷ s) t (p, h) k = rw (p.no_slash, count_pair s t h k) refl

cut_pair : (s t : Text) → All IsPlain s → cut b'/' (s ++ b'/' ∷ t) ≡ some (s, t)
unfolding cut
cut_pair [] t h = refl
cut_pair (c ∷ s) t (p, h) = rw (p.no_slash, cut, cut_pair s t h) refl

print_no_space : (r : CertificateSecretRef) → IsRef r → All (λ c. is_space c ≡ false) (print_ref r)
unfolding is_space
print_no_space r h = elim (Bool-cases (is_empty r.namespace)) [
  | inl e ↦ rw e (spaces_none r.secret_name h.plain_name)
  | inr e ↦ rw e (
      All-append (λ c. is_space c ≡ false) r.namespace (b'/' ∷ r.secret_name)
        (spaces_none r.namespace h.plain_namespace) (refl, spaces_none r.secret_name h.plain_name))
]

empty_text : (t : Text) → is_empty t ≡ true → t ≡ []
empty_text [] e = refl
empty_text (c ∷ t) e = cc

is_empty-append : (s : Text) (c : ℕ) (t : Text) → is_empty (s ++ c ∷ t) ≡ false
is_empty-append [] c t = refl
is_empty-append (d ∷ s) c t = refl

parse_ref-print : (r : CertificateSecretRef) → IsRef r → parse_ref (print_ref r) ≡ some r
unfolding parse_ref
parse_ref-print r h = elim (Bool-cases (is_empty r.namespace)) [
  | inl e ↦
      rw
        (
          trim_space_plain (print_ref r) (print_no_space r h),
          e,
          h.named,
          count_plain r.secret_name h.plain_name,
        )
        (ap (λ n. some (record { secret_name = r.secret_name; namespace = n }))
          (sym (empty_text r.namespace e)))
  | inr e ↦
      rw
        (
          trim_space_plain (print_ref r) (print_no_space r h),
          e,
          is_empty-append r.namespace b'/' r.secret_name,
          count_pair r.namespace r.secret_name h.plain_namespace h.plain_name,
          cut_pair r.namespace r.secret_name h.plain_namespace,
        )
        (rw
          (
            trim_space_plain r.namespace (spaces_none r.namespace h.plain_namespace),
            trim_space_plain r.secret_name (spaces_none r.secret_name h.plain_name),
            e,
            h.named,
          )
          refl)
]

print_no_comma : (r : CertificateSecretRef) → IsRef r → All (λ c. (c == b',') ≡ false) (print_ref r)
print_no_comma r h = elim (Bool-cases (is_empty r.namespace)) [
  | inl e ↦ rw e (commas_none r.secret_name h.plain_name)
  | inr e ↦ rw e (
      All-append (λ c. (c == b',') ≡ false) r.namespace (b'/' ∷ r.secret_name)
        (commas_none r.namespace h.plain_namespace) (refl, commas_none r.secret_name h.plain_name))
]
  where
    commas_none : (s : Text) → All IsPlain s → All (λ c. (c == b',') ≡ false) s
    commas_none [] k = tt
    commas_none (c ∷ s) (p, k) = (p.no_comma, commas_none s k)

abbrev pub print_refs : List CertificateSecretRef → Text
print_refs refs = join (codes ",") (map print_ref refs)

print_refs_no_space :
    (refs : List CertificateSecretRef)
    → All IsRef refs
    → All (λ c. is_space c ≡ false) (print_refs refs)
unfolding join is_space
print_refs_no_space [] h = tt
print_refs_no_space (r ∷ []) (h, _) = print_no_space r h
print_refs_no_space (r ∷ q ∷ refs) (h, hs) =
    All-append (λ c. is_space c ≡ false) (print_ref r) (codes "," ++ print_refs (q ∷ refs))
      (print_no_space r h) (refl, print_refs_no_space (q ∷ refs) hs)

parse_split :
    (r : CertificateSecretRef) (refs : List CertificateSecretRef)
    → All IsRef (r ∷ refs)
    → parse_refs (split b',' (print_refs (r ∷ refs))) ≡ r ∷ refs
unfolding parse_refs join
parse_split r [] (h, _) =
    rw (split_lacks (print_ref r) (print_no_comma r h), parse_refs, parse_ref-print r h) refl
parse_split r (q ∷ refs) (h, hs) =
    rw
      (
        split-append (print_ref r) (print_refs (q ∷ refs)) (print_no_comma r h),
        parse_refs,
        parse_ref-print r h,
      )
      (ap (λ l. r ∷ l) (parse_split q refs hs))

print_ref_named : (r : CertificateSecretRef) → IsRef r → is_empty (print_ref r) ≡ false
print_ref_named r h = elim (Bool-cases (is_empty r.namespace)) [
  | inl e ↦ rw e h.named
  | inr e ↦ rw e (is_empty-append r.namespace b'/' r.secret_name)
]

print_refs_named :
    (r : CertificateSecretRef) (refs : List CertificateSecretRef)
    → IsRef r
    → is_empty (print_refs (r ∷ refs)) ≡ false
unfolding join
print_refs_named r [] h = print_ref_named r h
print_refs_named r (q ∷ refs) h = is_empty-append (print_ref r) b',' (print_refs (q ∷ refs))

parse_nothing : parse_certificate_secrets_env [] ≡ []
unfolding parse_certificate_secrets_env trim_space
parse_nothing = refl

-- References that consist of characters other than slashes, commas and white space, each with a
-- name of the Secret, are read back as they were written: each "name" or "namespace/name", with
-- commas between them.
pub parse_certificate_secrets-print :
    (refs : List CertificateSecretRef)
    → All IsRef refs
    → parse_certificate_secrets_env (print_refs refs) ≡ refs
unfolding parse_certificate_secrets_env join
parse_certificate_secrets-print [] h = parse_nothing
parse_certificate_secrets-print (r ∷ refs) h =
    rw
      (
        trim_space_plain (print_refs (r ∷ refs)) (print_refs_no_space (r ∷ refs) h),
        print_refs_named r refs h.0,
      )
      (parse_split r refs h)
