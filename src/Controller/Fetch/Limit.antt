-- ===== src/Controller/Fetch/Limit.antt =====
-- internal/controller/fetch.go (readWithLimit): a body within the limit is read whole, and a longer
-- one is refused.
use mathlib.Core.List.{append-nil, append_assoc}
use pangolin_kube_controller.Prelude.{
  ℕ, ◌+◌, ◌≤◌, ◌<◌, ◌≡◌, refl, sym, ap, ◌∙◌, true, false, ◌&&◌, ◌⊎◌, inl, inr, Bool-cases, Option,
  none, some, [], ◌∷◌, ◌++◌, All, length, length-append, ltb, ℤ, is_positive, to_ℕ, arith,
}
use pangolin_kube_controller.Text.{Text}
use pangolin_kube_controller.Controller.Fetch.{
  ReadEnd, more, eof, broken, Reader, exceeds, after_read, ReadError, too_large, failed, read_all,
  read_loop, read_with_limit,
}

-- The bytes up to the end, and how it ends.
abbrev pub content : Reader → Text
content [] = []
content ((d, more) ∷ reads) = d ++ content reads
content ((d, eof) ∷ reads) = d
content ((d, broken) ∷ reads) = d

abbrev pub end_error : Reader → Option ReadError
end_error [] = none
end_error ((d, more) ∷ reads) = end_error reads
end_error ((d, eof) ∷ reads) = none
end_error ((d, broken) ∷ reads) = some failed

-- No read is larger than the buffer.
abbrev pub FitsBuffer : Reader → Type 0
FitsBuffer reads = All (λ (r : Text × ReadEnd). length r.0 ≤ 8192) reads

read_all_lem :
    (result : Text) (r : Reader)
    → read_all result r ≡ record { result = result ++ content r; error = end_error r }
unfolding read_all
read_all_lem result [] = ap (λ t. record { result = t; error = none }) (sym (append-nil result))
read_all_lem result ((d, more) ∷ r) =
    read_all_lem (result ++ d) r
    ∙ ap (λ t. record { result = t; error = end_error r }) (append_assoc result d (content r))
read_all_lem result ((d, eof) ∷ r) = refl
read_all_lem result ((d, broken) ∷ r) = refl

module _ (limit : ℕ) where
  read_loop_fits :
      (total : ℕ) (result : Text) (r : Reader)
      → total + length (content r) ≤ limit
      → read_loop limit total result r
        ≡ record { result = result ++ content r; error = end_error r }
  unfolding read_loop
  read_loop_fits total result [] h =
      ap (λ t. record { result = t; error = none }) (sym (append-nil result))
  read_loop_fits total result ((d, more) ∷ r) h =
      let stay : exceeds limit total d ≡ false = ground (arith, length-append d (content r)) in
      rw stay (
        read_loop_fits (total + length d) (result ++ d) r
          (omega (arith, length-append {0} d (content r)))
        ∙ ap (λ t. record { result = t; error = end_error r }) (append_assoc result d (content r)))
  read_loop_fits total result ((d, eof) ∷ r) h =
      let stay : exceeds limit total d ≡ false = ground arith in rw stay refl
  read_loop_fits total result ((d, broken) ∷ r) h =
      let stay : exceeds limit total d ≡ false = ground arith in rw stay refl

  read_loop_exceeds :
      (total : ℕ) (result : Text) (r : Reader)
      → total ≤ limit
      → limit < total + length (content r)
      → (read_loop limit total result r).error ≡ some too_large
  unfolding read_loop
  read_loop_exceeds total result [] t h = absurd (omega arith)
  read_loop_exceeds total result ((d, more) ∷ r) t h = elim (Bool-cases (exceeds limit total d)) [
    | inl over ↦ rw over refl
    | inr stay ↦ rw stay (
        read_loop_exceeds (total + length d) (result ++ d) r (ground arith)
          (omega (arith, length-append {0} d (content r))))
  ]
  read_loop_exceeds total result ((d, eof) ∷ r) t h =
      let over : exceeds limit total d ≡ true = ground arith in rw over refl
  read_loop_exceeds total result ((d, broken) ∷ r) t h =
      let over : exceeds limit total d ≡ true = ground arith in rw over refl

  read_loop_memory :
      (total : ℕ) (result : Text) (r : Reader)
      → length result ≤ limit
      → length result ≡ total
      → FitsBuffer r
      → length (read_loop limit total result r).result ≤ limit + 8192
  unfolding read_loop
  read_loop_memory total result [] h e b = omega arith
  read_loop_memory total result ((d, x) ∷ r) h e (b, bs) =
      elim (Bool-cases (exceeds limit total d)) [
        | inl over ↦ rw over (omega (arith, length-append {0} result d))
        | inr stay ↦
            let l : length (result ++ d) ≤ limit = ground (arith, length-append result d) in
            rw stay (
              by_end x l (
                read_loop_memory (total + length d) (result ++ d) r l
                  (omega (arith, length-append {0} result d)) bs))
      ]
    where
      by_end :
          (x : ReadEnd)
          → length (result ++ d) ≤ limit
          → length (read_loop limit (total + length d) (result ++ d) r).result ≤ limit + 8192
          → length
              (after_read x
                (result ++ d)
                (read_loop limit (total + length d) (result ++ d) r)).result
            ≤ limit + 8192
      by_end more l m = m
      by_end eof l m = omega arith
      by_end broken l m = omega arith

-- With no limit, or if the bytes up to the end of the body are at most as many as the limit, the
-- result is all of them with the error at their end. Otherwise the body is refused, after at most
-- one read more than the limit.
pub read_with_limit_lem :
    (r : Reader) (limit : ℤ)
    → FitsBuffer r
    → (((is_positive limit && ltb (to_ℕ limit) (length (content r))) ≡ false)
        × (read_with_limit r limit ≡ record { result = content r; error = end_error r }))
      ⊎ (((is_positive limit && ltb (to_ℕ limit) (length (content r))) ≡ true)
          × ((read_with_limit r limit).error ≡ some too_large)
          × (length (read_with_limit r limit).result ≤ to_ℕ limit + 8192))
unfolding read_with_limit
read_with_limit_lem r limit b = elim (Bool-cases (is_positive limit)) [
  | inr off ↦ inl (rw off refl, rw off (read_all_lem [] r))
  | inl on ↦ elim (Bool-cases (ltb (to_ℕ limit) (length (content r)))) [
    | inr within ↦
        inl (rw (on, within) refl, rw on (read_loop_fits (to_ℕ limit) 0 [] r (ground arith)))
    | inl over ↦ inr (
      rw (on, over) refl,
      rw on (read_loop_exceeds (to_ℕ limit) 0 [] r (omega arith) (ground arith)),
      rw on (read_loop_memory (to_ℕ limit) 0 [] r (omega arith) refl b),
    )
  ]
]
