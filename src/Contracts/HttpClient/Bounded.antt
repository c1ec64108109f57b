-- ===== src/Contracts/HttpClient/Bounded.antt =====
-- packages/contracts/src/http-client.mjs: how much of a response is read, and what is read of it.
use eacl_demo.Base.{
  ℕ, ◌+◌, ◌≤◌, ◌≡◌, ◌↔◌, refl, sym, ap, ◌∙◌, Bool, true, false, ◌&&◌, leb, ltb, if◌then◌else◌,
  Bool-cases, Option-cases, inl, inr, String, map, List, [], ◌∷◌, ◌++◌, length, Option, none, some,
  Result, ok, err, require-eq-ok, arith,
}
use mathlib.Core.List.{append_assoc}
use eacl_demo.Contracts.HttpClient.{
  Read, bytes, not_bytes, read_throws, ReadError, stream, too_large, undecodable,
  maximum_response_bytes, declared_fits, join, text_of, read_chunks, read_body_text,
  read_bounded_text_response,
}

pub size : List (List ℕ) → ℕ
size [] = 0
size (chunk ∷ chunks) = length chunk + size chunks

module _ (decode : List (List ℕ) → List ℕ → Option String)
    (flush : List (List ℕ) → Option String) where
  -- The texts of the chunks, one by one, and of what the decoder keeps back.
  unfoldable pub decoded : List (List ℕ) → List (List ℕ) → Option (List String)
  decoded fed [] = elim (flush fed) [ none ↦ none | some last ↦ some (last ∷ []) ]
  decoded fed (chunk ∷ chunks) =
      let rest = decoded (fed ++ chunk ∷ []) chunks in
      elim (decode fed chunk) [
        | none ↦ none
        | some part ↦ elim rest [ none ↦ none | some parts ↦ some (part ∷ parts) ]
      ]

  read_chunks-held :
      (maximum : ℕ) (throws : Bool) (fed : List (List ℕ)) (parts : List String) (total : ℕ)
      (reads : List Read)
      → total ≤ maximum
      → (read_chunks decode flush maximum throws fed parts total reads).held ≤ maximum
  unfolding read_chunks
  read_chunks-held maximum throws fed parts total [] le = elim (Option-cases (flush fed)) [
    | inl n ↦ rw (n, read_chunks) le
    | inr (last, n) ↦ rw (n, read_chunks) le
  ]
  read_chunks-held maximum throws fed parts total (not_bytes ∷ reads) le = le
  read_chunks-held maximum throws fed parts total (read_throws ∷ reads) le = le
  read_chunks-held maximum throws fed parts total (bytes chunk ∷ reads) le =
      elim (Bool-cases (ltb maximum (total + length chunk))) [
        | inl over ↦ rw (over, read_chunks) le
        | inr fits ↦ elim (Option-cases (decode fed chunk)) [
          | inl n ↦ rw (fits, n, read_chunks) le
          | inr (part, n) ↦
              let le' : total + length chunk ≤ maximum = ground arith in
              rw (fits, n, read_chunks)
                (read_chunks-held maximum throws (fed ++ chunk ∷ []) (parts ++ part ∷ [])
                  (total + length chunk) reads le')
        ]
      ]

  -- The chunks of a stream that is read to its end, within the maximum.
  abbrev pub Whole : ℕ → ℕ → List (List ℕ) → List Read → List String → Type 0
  Whole maximum total fed reads texts =
      (chunks : List (List ℕ)) × (reads ≡ map bytes chunks)
      × (total + size chunks ≤ maximum)
      × (decoded fed chunks ≡ some texts)

  abbrev Outcome : List String → Result ReadError (List String) → Type 0
  Outcome all r = r ≡ ok all

  bytes-first :
      (chunk : List ℕ) (reads reads' : List Read)
      → reads ≡ reads'
      → bytes chunk ∷ reads ≡ bytes chunk ∷ reads'
  bytes-first chunk reads reads' e = ap (bytes chunk ∷◌) e

  read_chunks-Whole :
      (maximum : ℕ) (throws : Bool) (fed : List (List ℕ)) (parts all : List String) (total : ℕ)
      (reads : List Read)
      → total ≤ maximum
      → (read_chunks decode flush maximum throws fed parts total reads).outcome ≡ ok all
      → (texts : List String) × (all ≡ parts ++ texts) × Whole maximum total fed reads texts
  unfolding read_chunks decoded size
  read_chunks-Whole maximum throws fed parts all total [] le h = elim (Option-cases (flush fed)) [
    | inl n ↦ let no : Outcome all (err undecodable) = rw (n, read_chunks) at h in cc
    | inr (last, n) ↦
        let h' : Outcome all (ok (parts ++ last ∷ [])) = rw (n, read_chunks) at h in
        let same : parts ++ last ∷ [] ≡ all = cc in
        (last ∷ [], sym same, ([], refl, omega arith, rw (n, decoded) refl))
  ]
  read_chunks-Whole maximum throws fed parts all total (not_bytes ∷ reads) le h = cc
  read_chunks-Whole maximum throws fed parts all total (read_throws ∷ reads) le h = cc
  read_chunks-Whole maximum throws fed parts all total (bytes chunk ∷ reads) le h =
      elim (Bool-cases (ltb maximum (total + length chunk))) [
        | inl over ↦
            let no : Outcome all (err (if throws then ReadError.cancel_failed else too_large)) =
              rw (over, read_chunks) at h in
            cc
        | inr fits ↦ elim (Option-cases (decode fed chunk)) [
          | inl n ↦ let no : Outcome all (err undecodable) = rw (fits, n, read_chunks) at h in cc
          | inr (part, n) ↦
              let le' : total + length chunk ≤ maximum = ground arith in
              let h' : Outcome all
                  (read_chunks decode flush maximum throws (fed ++ chunk ∷ []) (parts ++ part ∷ [])
                    (total + length chunk) reads).outcome =
                rw (fits, n, read_chunks) at h in
              let (texts, e, whole) =
                read_chunks-Whole maximum throws (fed ++ chunk ∷ []) (parts ++ part ∷ []) all
                  (total + length chunk) reads le' h' in
              let (chunks, e', le'', d) = whole in
              (
                part ∷ texts,
                e ∙ append_assoc parts (part ∷ []) texts,
                (
                  chunk ∷ chunks,
                  bytes-first chunk reads (map bytes chunks) e',
                  omega (arith, le''),
                  rw (n, d, decoded) refl,
                ),
              )
        ]
      ]

  read_chunks_complete :
      (maximum : ℕ) (throws : Bool) (fed : List (List ℕ)) (parts texts : List String) (total : ℕ)
      (chunks : List (List ℕ))
      → total + size chunks ≤ maximum
      → decoded fed chunks ≡ some texts
      → (read_chunks decode flush maximum throws fed parts total (map bytes chunks)).outcome
        ≡ ok (parts ++ texts)
  unfolding read_chunks decoded size
  read_chunks_complete maximum throws fed parts texts total [] le d =
      elim (Option-cases (flush fed)) [
        | inl n ↦ let no : none ≡ some texts = rw (n, decoded) at d in cc
        | inr (last, n) ↦
            let d' : some (last ∷ []) ≡ some texts = rw (n, decoded) at d in
            let same : last ∷ [] ≡ texts = cc in
            rw (n, read_chunks) (ap (λ ts. ok (parts ++ ts)) same)
      ]
  read_chunks_complete maximum throws fed parts texts total (chunk ∷ chunks) le d =
      let fits : ltb maximum (total + length chunk) ≡ false = ground arith in
      elim (Option-cases (decode fed chunk)) [
        | inl n ↦ let no : none ≡ some texts = rw (n, decoded) at d in cc
        | inr (part, n) ↦ elim (Option-cases (decoded (fed ++ chunk ∷ []) chunks)) [
          | inl m ↦ let no : none ≡ some texts = rw (n, m, decoded) at d in cc
          | inr (rest, m) ↦
              let d' : some (part ∷ rest) ≡ some texts = rw (n, m, decoded) at d in
              let same : part ∷ rest ≡ texts = cc in
              let ih =
                read_chunks_complete maximum throws (fed ++ chunk ∷ []) (parts ++ part ∷ []) rest
                  (total + length chunk) chunks (omega (arith, le)) m in
              rw (fits, n, read_chunks)
                (ih
                  ∙ ap ok (append_assoc parts (part ∷ []) rest)
                  ∙ ap (λ ts. ok (parts ++ ts)) same)
        ]
      ]

  text_of-ok :
      (r : Result ReadError (List String)) (text : String)
      → text_of decode flush r ≡ ok text
      → (parts : List String) × (r ≡ ok parts) × (join parts ≡ text)
  text_of-ok (err e) text h = cc
  text_of-ok (ok parts) text h = let same : join parts ≡ text = cc in (parts, refl, same)

  -- A response with a stream: whatever is read, no more than the maximum of bytes is ever kept; and a
  -- text is returned exactly if the limit is valid, the declared length is a number within it, the
  -- stream consists of chunks of bytes that together are within it, and they decode to this text.
  pub read_bounded_text_response_iff :
      (maximum : ℕ) (declared : Option String) (throws : Bool) (reads : List Read) (text : String)
      → ((read_chunks decode flush maximum throws [] [] 0 reads).held ≤ maximum)
        × ((read_bounded_text_response decode flush maximum
                (record { declared = declared; body = stream throws reads })
              ≡ ok text)
            ↔ ((leb 1 maximum && leb maximum maximum_response_bytes ≡ true)
                × (declared_fits maximum declared ≡ true)
                × (texts : List String) × (join texts ≡ text)
                × Whole maximum 0 [] reads texts))
  unfolding read_bounded_text_response read_body_text
  read_bounded_text_response_iff maximum declared throws reads text = (
    read_chunks-held maximum throws [] [] 0 reads (omega arith),
    (
      λ h.
          let (limit, h1) =
            require-eq-ok (leb 1 maximum && leb maximum maximum_response_bytes) _ _ h in
          let (fits, h2) = require-eq-ok (declared_fits maximum declared) _ _ h1 in
          let (parts, q, same) =
            text_of-ok (read_chunks decode flush maximum throws [] [] 0 reads).outcome text h2 in
          let (texts, e, whole) =
            read_chunks-Whole maximum throws [] [] parts 0 reads (omega arith) q in
          (limit, fits, texts, rw (← e) same, whole),
      λ h.
          let (limit, fits, texts, same, whole) = h in
          let (chunks, e, le, d) = whole in
          let q = read_chunks_complete maximum throws [] [] texts 0 chunks le d in
          rw (limit, fits, e, q, same) refl,
    ),
  )
