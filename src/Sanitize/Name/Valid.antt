-- ===== src/Sanitize/Name/Valid.antt =====
-- Every sanitized name is one that Kubernetes accepts.
use pangolin_kube_controller.Prelude.{
  ℕ, ◌≤◌, ◌<◌, ◌≡◌, refl, ◌≢◌, Bool, true, false, [], ◌∷◌, ◌++◌, map, arith, length, length-append,
  length-take, take, All, All-take, is_empty, leb, ltb, Bool-cases, inl, inr, if◌then◌else◌,
}
use pangolin_kube_controller.Text.{Text, codes, trim_right, lower_rune}
use pangolin_kube_controller.Text.Trim.{EndsOk, length-trim_right}
use pangolin_kube_controller.Sanitize.Name.{
  is_alpha_num, is_dash, is_hex, NameLib, HasDigest, max_k8s_name_length, name_hash_length,
  cut_base, short_hash, finalize_sanitized_name, sanitize_resource_name,
}
use pangolin_kube_controller.Sanitize.Name.Shape.{
  NameChar, DashOk, IsTrimmed, build_base_name-DashOk, build_base_name_of_DashOk,
  map-lower_of_NameChar, build_base_name-All, trim-IsTrimmed, IsTrimmed-take, IsTrimmed-append,
  trim_of_IsTrimmed,
}

-- A DNS-1123 like name: not empty, at most 253 characters, letters in lower case, digits and
-- dashes, with no dash at either end.
pub record IsK8sName (t : Text) : Type 0 where
  pub nonempty : t ≢ []
  pub fits : length t ≤ max_k8s_name_length
  pub form : IsTrimmed t

hex-NameChar : (r : ℕ) → is_hex r ≡ true → NameChar r × (is_dash r ≡ false)
unfolding is_alpha_num is_dash
hex-NameChar r h = ground arith

hex_chars : (s : Text) → All (λ r. is_hex r ≡ true) s → All NameChar s
hex_chars [] h = tt
hex_chars (c ∷ s) h = ((hex-NameChar c h.0).0, hex_chars s h.1)

hex-EndsOk : (s : Text) → All (λ r. is_hex r ≡ true) s → EndsOk is_dash s
hex-EndsOk [] h = tt
hex-EndsOk (c ∷ []) h = (hex-NameChar c h.0).1
hex-EndsOk (c ∷ d ∷ s) h = hex-EndsOk (d ∷ s) h.1

hex-DashOk : (last : Bool) (s : Text) → All (λ r. is_hex r ≡ true) s → DashOk last s
hex-DashOk last [] h = tt
hex-DashOk last (c ∷ s) h = (ground (arith, hex-NameChar c h.0), hex-DashOk (is_dash c) s h.1)

hex-IsTrimmed : (s : Text) → All (λ r. is_hex r ≡ true) s → IsTrimmed s
hex-IsTrimmed s h = record {
  chars = hex_chars s h;
  dashes = hex-DashOk true s h;
  ends = hex-EndsOk s h;
}

ne_nil_of_length : (s : Text) → 0 < length s → s ≢ []
ne_nil_of_length [] h = absurd (omega arith)
ne_nil_of_length (c ∷ s) h = cc

x-IsTrimmed : IsTrimmed (codes "x")
unfolding is_alpha_num is_dash
x-IsTrimmed = record { chars = (refl, tt); dashes = (refl, tt); ends = refl }

cut_base_lem :
    (n : ℕ) (t : Text)
    → 0 < n
    → IsTrimmed t
    → IsTrimmed (cut_base n t) × (length (cut_base n t) ≤ n) × (cut_base n t ≢ [])
unfolding cut_base
cut_base_lem n t h k = elim (Bool-cases (ltb n (length t))) [
  | inl e ↦ rw e (
      pick (trim_right is_dash (take n t)) (IsTrimmed-take n t k)
        (ground (arith, length-trim_right is_dash (take n t), length-take n t)))
  | inr e ↦ rw e (pick t k (ground arith))
]
  where
    pick :
        (b : Text)
        → IsTrimmed b
        → length b ≤ n
        → IsTrimmed (if is_empty b then codes "x" else b)
          × (length (if is_empty b then codes "x" else b) ≤ n)
          × ((if is_empty b then codes "x" else b) ≢ [])
    pick [] hb le = (x-IsTrimmed, omega arith, cc)
    pick (c ∷ b) hb le = (hb, le, cc)

module _ (lib : NameLib) (ax : HasDigest lib) where
  length-short_hash : (s : Text) → length (short_hash lib s) ≡ name_hash_length
  unfolding short_hash
  length-short_hash s = omega (arith, length-take name_hash_length (lib.sha256_hex s), ax.digits s)

  short_hash-IsTrimmed : (s : Text) → IsTrimmed (short_hash lib s)
  unfolding short_hash
  short_hash-IsTrimmed s =
      hex-IsTrimmed _
        (All-take (λ r. is_hex r ≡ true) name_hash_length (lib.sha256_hex s) (ax.hex s))

  short_hash-ne-nil : (s : Text) → short_hash lib s ≢ []
  short_hash-ne-nil s = ne_nil_of_length _ (omega (arith, length-short_hash s))

  -- A base that leaves room for the dash and the suffix makes a name.
  with_suffix :
      (base original : Text)
      → IsTrimmed base × (length base ≤ 242) × (base ≢ [])
      → IsK8sName (base ++ b'-' ∷ short_hash lib original)
  with_suffix base original (k, le, ne) = record {
    nonempty =
        ne_nil_of_length _ (omega (arith, length-append base (b'-' ∷ short_hash lib original)));
    fits =
        omega
          (arith, length-append base (b'-' ∷ short_hash lib original), length-short_hash original);
    form =
        IsTrimmed-append base (short_hash lib original) ne (short_hash-ne-nil original) k
          (short_hash-IsTrimmed original);
  }

  finalize-IsK8sName :
      (s original : Text) → IsTrimmed s → IsK8sName (finalize_sanitized_name lib s original)
  unfolding finalize_sanitized_name
  finalize-IsK8sName [] original h = with_suffix (codes "x") original (x-IsTrimmed, omega arith, cc)
  finalize-IsK8sName (c ∷ s) original h = elim (Bool-cases (leb (length (c ∷ s)) 253)) [
    | inl e ↦ rw e (record { nonempty = cc; fits = ground arith; form = h })
    | inr e ↦
        rw (e, length-short_hash original)
          (with_suffix _ original (cut_base_lem 242 _ (omega arith) (IsTrimmed-take _ (c ∷ s) h)))
  ]

  -- Whatever the input, the sanitized name is not empty, has at most 253 characters, all of them
  -- letters in lower case, digits or dashes, and neither begins nor ends with a dash, if a digest
  -- is 64 hexadecimal digits.
  pub sanitize_resource_name-IsK8sName : (name : Text) → IsK8sName (sanitize_resource_name lib name)
  unfolding sanitize_resource_name
  sanitize_resource_name-IsK8sName name =
      let lowered = map (lower_rune lib.lower_beyond) name in
      finalize-IsK8sName _ name
        (trim-IsTrimmed _ (build_base_name-All lowered true) (build_base_name-DashOk lowered true))

-- A text that is not empty and fits is not cut.
pub finalize_of_short :
    (lib : NameLib) (s original : Text)
    → s ≢ []
    → length s ≤ 253
    → finalize_sanitized_name lib s original ≡ s
unfolding finalize_sanitized_name
finalize_of_short lib [] original ne le = absurd (ne refl)
finalize_of_short lib (c ∷ s) original ne le = ground arith

-- A name that Kubernetes accepts is left as it is.
pub sanitize_of_IsK8sName :
    (lib : NameLib) (name : Text) → IsK8sName name → sanitize_resource_name lib name ≡ name
unfolding sanitize_resource_name
sanitize_of_IsK8sName lib name h =
    rw
      (
        map-lower_of_NameChar lib.lower_beyond name h.form.chars,
        build_base_name_of_DashOk name true h.form.chars h.form.dashes,
        trim_of_IsTrimmed name h.form,
      )
      (finalize_of_short lib name name h.nonempty h.fits)
