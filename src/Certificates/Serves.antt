-- ===== src/Certificates/Serves.antt =====
-- internal/certificates/certificates.go: which certificates are handed out.
use mathlib.Core.Path.{subst}
use pangolin_kube_controller.Prelude.{
  ◌≡◌, refl, sym, ap, ◌∙◌, ◌↔◌, inl, inr, false, Bool-cases, Option, Option-cases, none, some, List,
  [], ◌∷◌, Among, is_empty,
}
use pangolin_kube_controller.Text.{Text, codes, text_eq}
use pangolin_kube_controller.Text.Equality.{text_eq_iff}
use pangolin_kube_controller.Config.{CertificateSecretRef}
use pangolin_kube_controller.Certificates.{
  CertificateResponse, Secret, Certificate, CertLib, is_missing, content_of, response_for,
  from_secret, parsed_response, parse_block, parse_certificate, fetch_one, namespace_of, fetch_all,
}

module _ (lib : CertLib) (controller : Text) where
  -- The reference leads to a Secret of the TLS type with a certificate that parses and a key, and
  -- the response is that of its bytes.
  pub record Serves (ref : CertificateSecretRef) (response : CertificateResponse) : Type 0 where
    pub secret : Secret
    pub crt : Text
    pub key : Text
    pub block : Text
    pub cert : Certificate
    pub found : lib.secret (namespace_of lib controller ref) ref.secret_name ≡ some secret
    pub is_tls : secret.kind ≡ codes "kubernetes.io/tls"
    pub has_crt : (secret.tls_crt ≡ some crt) × (is_empty crt ≡ false)
    pub has_key : (secret.tls_key ≡ some key) × (is_empty key ≡ false)
    pub decodes : lib.pem_block crt ≡ some block
    pub parses : lib.parse_x509 block ≡ some cert
    pub is_its : response ≡ response_for ref.secret_name crt key cert

  present :
      (o : Option Text) → is_missing o ≡ false → (t : Text) × (o ≡ some t) × (is_empty t ≡ false)
  present none e = cc
  present (some t) e = (t, refl, e)

  nothing : (r : CertificateResponse) → ◌≡◌ {A = Option CertificateResponse} none (some r) → ⊥
  nothing r e = cc

  module _ (ref : CertificateSecretRef) (response : CertificateResponse) (s : Secret)
      (found : lib.secret (namespace_of lib controller ref) ref.secret_name ≡ some s) where
    from_parts :
        (crt key : Text)
        → s.kind ≡ codes "kubernetes.io/tls"
        → (s.tls_crt ≡ some crt) × (is_empty crt ≡ false)
        → (s.tls_key ≡ some key) × (is_empty key ≡ false)
        → parsed_response lib ref.secret_name s (parse_block lib (lib.pem_block crt))
          ≡ some response
        → Serves ref response
    from_parts crt key t c k e = elim (Option-cases (lib.pem_block crt)) [
      | inl n ↦ absurd (nothing response (rw n at e))
      | inr (block, decodes) ↦ elim (Option-cases (lib.parse_x509 block)) [
        | inl n ↦ absurd (nothing response (rw (decodes, n) at e))
        | inr (cert, parses) ↦ record {
          secret = s;
          crt = crt;
          key = key;
          block = block;
          cert = cert;
          found = found;
          is_tls = t;
          has_crt = c;
          has_key = k;
          decodes = decodes;
          parses = parses;
          is_its =
              let made : ◌≡◌ {A = Option CertificateResponse}
                  (some (response_for ref.secret_name crt key cert)) (some response) =
                rw (decodes, parses, c.0, k.0) at e in
              cc;
        }
      ]
    ]

    from_secret-Serves : from_secret lib ref.secret_name s ≡ some response → Serves ref response
    unfolding parse_certificate
    from_secret-Serves e = elim (Bool-cases (text_eq s.kind (codes "kubernetes.io/tls"))) [
      | inr n ↦ absurd (nothing response (rw n at e))
      | inl t ↦ elim (Bool-cases (is_missing s.tls_crt)) [
        | inl n ↦ absurd (nothing response (rw (t, n) at e))
        | inr c ↦ elim (Bool-cases (is_missing s.tls_key)) [
          | inl n ↦ absurd (nothing response (rw (t, c, n) at e))
          | inr k ↦
              let (crt, crt_is, crt_some) = present s.tls_crt c in
              let (key, key_is, key_some) = present s.tls_key k in
              from_parts crt key ((text_eq_iff s.kind (codes "kubernetes.io/tls")).0 t)
                (crt_is, crt_some) (key_is, key_some)
                (subst
                  (λ (o : Option Text).
                    parsed_response lib ref.secret_name s
                      (parse_block lib (lib.pem_block (content_of o)))
                    ≡ some response)
                  crt_is (rw (t, c, k) at e))
        ]
      ]
    ]

  fetch_one-Serves :
      (ref : CertificateSecretRef) (response : CertificateResponse)
      → fetch_one lib ref.secret_name (namespace_of lib controller ref) ≡ some response
      → Serves ref response
  unfolding fetch_one parse_certificate
  fetch_one-Serves ref response e =
      elim (Option-cases (lib.secret (namespace_of lib controller ref) ref.secret_name)) [
        | inl n ↦ absurd (nothing response (rw (n, fetch_one) at e))
        | inr (s, found) ↦ from_secret-Serves ref response s found (rw (found, fetch_one) at e)
      ]

  Serves-fetch_one :
      (ref : CertificateSecretRef) (response : CertificateResponse)
      → Serves ref response
      → fetch_one lib ref.secret_name (namespace_of lib controller ref) ≡ some response
  unfolding fetch_one parse_certificate text_eq
  Serves-fetch_one ref response s =
      rw
        (
          fetch_one, s.found, s.is_tls, s.has_crt.0, s.has_crt.1, s.has_key.0, s.has_key.1,
          s.decodes, s.parses, s.is_its,
        )
        refl

  -- The responses are, for the references in any place, those that lead to a Secret of the TLS type
  -- with a certificate that parses and a key, each with the bytes of its Secret; any other
  -- reference has none.
  pub Among-fetch_all :
      (refs : List CertificateSecretRef) (response : CertificateResponse)
      → Among response (fetch_all lib refs controller)
        ↔ ((ref : CertificateSecretRef) × Among ref refs × Serves ref response)
  unfolding fetch_all
  Among-fetch_all [] response = (λ m. elim m [ ], λ s. elim s.1 [ ])
  Among-fetch_all (ref ∷ refs) response =
      let ih = Among-fetch_all refs response in
      (
        λ m. elim (Option-cases (fetch_one lib ref.secret_name (namespace_of lib controller ref))) [
          | inl n ↦ let (r, a, s) = ih.0 (rw n at m) in (r, inr a, s)
          | inr (one, y) ↦ elim (rw y at m) [
            | inl same ↦ (ref, inl refl, fetch_one-Serves ref response (y ∙ ap (λ x. some x) same))
            | inr later ↦ let (r, a, s) = ih.0 later in (r, inr a, s)
          ]
        ],
        λ (r, a, s). elim a [
          | inl same ↦
              let served =
                Serves-fetch_one ref response (subst (λ x. Serves x response) (sym same) s) in
              rw served (inl refl)
          | inr later ↦
              elim (Option-cases
                (fetch_one lib ref.secret_name (namespace_of lib controller ref))) [
                  | inl n ↦ rw n (ih.1 (r, later, s))
                  | inr (one, y) ↦ rw y (inr (ih.1 (r, later, s)))
                ]
        ],
      )
