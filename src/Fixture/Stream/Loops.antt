-- ===== src/Fixture/Stream/Loops.antt =====
-- The counted loops of the generator, and a round over an account, in terms of the stream.
use eacl_demo.Base.{
  ℕ, zero, suc, ◌+◌, ◌-◌, min, ◌≡◌, refl, sym, ap, ltb, [], ◌∷◌, map, arith, length, take,
  Bool-cases, inl, inr, take-nil, ltb→lt,
}
use eacl_demo.Fixture.Records.{Bundle}
use eacl_demo.Fixture.Bundles.{emit_while}
use eacl_demo.Fixture.Stream.{range}

pub length-range : (start n : ℕ) → length (range start n) ≡ n
length-range start zero = refl
length-range start (suc n) = ap suc (length-range (suc start) n)

-- A counted loop yields what fits under the cut.
pub emit_while_lem :
    (make : ℕ → Bundle) (left ordinal emitted cut : ℕ)
    → (emit_while make left ordinal emitted cut).0
      ≡ take (cut - emitted) (map make (range ordinal left))
unfolding emit_while
emit_while_lem make zero ordinal emitted cut =
    let e : take (cut - emitted) (map make []) ≡ [] = take-nil _ in sym e
emit_while_lem make (suc left) ordinal emitted cut = elim (Bool-cases (ltb emitted cut)) [
  | inl more ↦
      let e : cut - emitted ≡ suc (cut - (emitted + 1)) = omega (arith, ltb→lt emitted cut more) in
      rw (more, e) (ap (make ordinal ∷◌) (emit_while_lem make left (suc ordinal) (emitted + 1) cut))
  | inr done ↦ let e : cut - emitted ≡ 0 = ground arith in rw (done, e)
]

pub emitted-emit_while :
    (make : ℕ → Bundle) (left ordinal emitted cut : ℕ)
    → (emit_while make left ordinal emitted cut).1 ≡ emitted + min left (cut - emitted)
unfolding emit_while
emitted-emit_while make zero ordinal emitted cut = omega arith
emitted-emit_while make (suc left) ordinal emitted cut =
    ground (arith, emitted-emit_while make left (suc ordinal) (emitted + 1) cut)
