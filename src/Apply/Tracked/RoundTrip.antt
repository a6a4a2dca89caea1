-- ===== src/Apply/Tracked/RoundTrip.antt =====
-- internal/apply/endpointslice.go: the tracked keys are read back from the annotation.
use pangolin_kube_controller.Prelude.{
  ◌≡◌, ◌≢◌, ◌↔◌, refl, sym, inl, inr, true, false, some, List, [], ◌∷◌, is_empty, is_some,
  Option-cases,
}
use pangolin_kube_controller.Text.{Text, codes}
use pangolin_kube_controller.Maps.{Map, lookup, sort_keys}
use pangolin_kube_controller.Maps.Laws.{In, In-sort_keys, In-sort_keys_inv}
use pangolin_kube_controller.Json.{arr, nil, Codec, str_items}
use pangolin_kube_controller.Apply.Tracked.{
  string_slice, nonempty_keys, parse_managed_keys, marshal_managed_keys,
}

string_slice-str_items : (ss : List Text) → string_slice (str_items ss) ≡ some ss
unfolding string_slice str_items
string_slice-str_items [] = refl
string_slice-str_items (s ∷ ss) = rw (string_slice-str_items ss) refl

In-nonempty_keys : (k : Text) (ks : List Text) → In k (nonempty_keys ks) ↔ (In k ks × (k ≢ []))
unfolding nonempty_keys
In-nonempty_keys k [] = (λ h. absurd h, λ h. absurd h.0)
In-nonempty_keys k ([] ∷ ks) =
    let ih = In-nonempty_keys k ks in
    (
      λ h. (inr (ih.0 h).0, (ih.0 h).1),
      λ (h, ne). elim h [ inl e ↦ absurd (ne (sym e)) | inr g ↦ ih.1 (g, ne) ],
    )
In-nonempty_keys k ((c ∷ j) ∷ ks) =
    let ih = In-nonempty_keys k ks in
    (
      λ h. elim h [ inl e ↦ (inl e, λ q. cc (e, q)) | inr g ↦ (inr (ih.0 g).0, (ih.0 g).1) ],
      λ (h, ne). elim h [ inl e ↦ inl e | inr g ↦ inr (ih.1 (g, ne)) ],
    )

some_iff : (k : Text) (m : Map Text) → is_some (lookup k m) ≡ true → In k (sort_keys m)
some_iff k m h = elim (Option-cases (lookup k m)) [
  | inl e ↦ cc (rw e at h)
  | inr (v, e) ↦ In-sort_keys k m e
]

module _ (codec : Codec) where
  -- The texts are printed as `t`, and read back from it.
  pub record Prints (ss : List Text) (t : Text) : Type 0 where
    pub printed : codec.encode (arr (str_items ss)) ≡ some t
    pub read_back : codec.decode t ≡ some (arr (str_items ss))
    pub nonempty : is_empty t ≡ false

  parse-Prints :
      (ss : List Text) (t : Text) → Prints ss t → parse_managed_keys codec t ≡ nonempty_keys ss
  unfolding parse_managed_keys
  parse-Prints ss t p = rw (p.nonempty, p.read_back, string_slice-str_items ss) refl

  parse_empty :
      codec.decode (codes "[]") ≡ some (arr nil) → parse_managed_keys codec (codes "[]") ≡ []
  unfolding parse_managed_keys
  parse_empty e = rw e refl

  -- The keys that are read back from the annotation are those of the map that was written, but for
  -- the empty one, if the text of the sorted keys is read back as it was printed, and that of the
  -- empty list too.
  pub parse_managed_keys-marshal :
      (m : Map Text) (t k : Text)
      → Prints (nonempty_keys (sort_keys m)) t
      → codec.decode (codes "[]") ≡ some (arr nil)
      → In k (parse_managed_keys codec (marshal_managed_keys codec m))
        ↔ ((is_some (lookup k m) ≡ true) × (k ≢ []))
  unfolding marshal_managed_keys lookup
  parse_managed_keys-marshal [] t k p e = rw (parse_empty e) (λ h. absurd h, λ h. cc)
  parse_managed_keys-marshal (x ∷ m) t k p e =
      let same : parse_managed_keys codec (marshal_managed_keys codec (x ∷ m))
          ≡ nonempty_keys (nonempty_keys (sort_keys (x ∷ m))) =
        rw p.printed (parse-Prints (nonempty_keys (sort_keys (x ∷ m))) t p) in
      rw same (
        λ h.
            let (g, ne) = (In-nonempty_keys k _).0 h in
            let (i, _) = (In-nonempty_keys k _).0 g in (In-sort_keys_inv k (x ∷ m) i, ne),
        λ (h, ne).
            (In-nonempty_keys k _).1 ((In-nonempty_keys k _).1 (some_iff k (x ∷ m) h, ne), ne),
      )
