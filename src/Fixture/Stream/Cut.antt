-- ===== src/Fixture/Stream/Cut.antt =====
-- `fixtureBundles` yields the first resources of the stream, exactly as many as asked for.
use eacl_demo.Base.{
  ℕ, zero, suc, ◌+◌, ◌-◌, ◌≤◌, ◌<◌, ◌^◌, min, ◌≡◌, refl, true, ltb, lt→ltb, List, ◌∷◌, ◌++◌, Result,
  ok, length, take, Bool-cases, inl, inr, ap, ◌∙◌, take-append, length-take, length-append,
  take-take, ltb→lt, arith, le→leb, ==_iff,
}
use mathlib.Core.List.{append-nil, append_assoc}
use eacl_demo.Fixture.Samples.{max_safe_integer}
use eacl_demo.Fixture.Records.{Bundle, root_bundle}
use eacl_demo.Fixture.Bundles.{
  BundleError, Round, account_round, account_loop, prepend, fixture_bundles, validate_cut_point,
}
use eacl_demo.Fixture.Stream.{account_block, account_blocks, stream}
use eacl_demo.Fixture.Stream.Round.{IsRound, account_round-IsRound, length-account_block}

-- What is left of a block after a round, and before the next accounts.
take-block :
    (emitted cut : ℕ) (block rest : List Bundle)
    → take (cut - emitted) (block ++ rest)
      ≡ take (cut - emitted) block
        ++ take (cut - (emitted + min (length block) (cut - emitted))) rest
take-block emitted cut block rest =
    let e : cut - (emitted + min (length block) (cut - emitted)) ≡ cut - emitted - length block =
      omega arith in
    rw e (take-append (cut - emitted) block rest)

-- What the loop makes of a round: a `break`, or the next account.
module _ (account emitted cut : ℕ) (rest : List Bundle) (r : Round)
    (v : IsRound account emitted cut r) (below : emitted ≤ cut) where
  abbrev block : List Bundle
  block = account_block account

  stop_lem :
      r.stop ≡ true
      → ◌≡◌ {A = Result BundleError (List Bundle × ℕ)}
          (ok (r.bundles, r.emitted))
          (ok (take (cut - emitted) (block ++ rest), cut))
  stop_lem s =
      let total : r.emitted ≡ cut = omega (arith, v.counted, v.stopped s) in
      let full : cut - (emitted + min (length block) (cut - emitted)) ≡ 0 =
        omega (arith, v.counted, v.stopped s) in
      rw (total, v.yielded, take-block emitted cut block rest, full, append-nil) refl

  next_lem :
      {after : Result BundleError (List Bundle × ℕ)}
      → after ≡ ok (take (cut - r.emitted) rest, cut)
      → prepend r.bundles after ≡ ok (take (cut - emitted) (block ++ rest), cut)
  next_lem e = rw (e, v.yielded, take-block emitted cut block rest, v.counted) refl

loop_cases :
    (fuel account emitted cut : ℕ) (r : Round)
    → account_round account emitted cut ≡ ok r
    → IsRound account emitted cut r
    → emitted < cut
    → account_loop fuel (suc account) r.emitted cut
      ≡ ok (take (cut - r.emitted) (account_blocks (suc account) fuel), cut)
    → account_loop (suc fuel) account emitted cut
      ≡ ok (take (cut - emitted) (account_blocks account (suc fuel)), cut)
unfolding account_loop account_blocks
loop_cases fuel account emitted cut r e v more ih = elim (Bool-cases r.stop) [
  | inl s ↦
      rw (lt→ltb _ _ more, e, s, account_loop) (stop_lem account emitted cut _ r v (omega arith) s)
  | inr s ↦
      rw (lt→ltb _ _ more, e, s, account_loop) (next_lem account emitted cut _ r v (omega arith) ih)
]

account_loop_lem :
    (fuel account emitted cut : ℕ)
    → cut - emitted ≤ fuel
    → emitted ≤ cut
    → account + fuel ≤ 2 ^ 53
    → account_loop fuel account emitted cut
      ≡ ok (take (cut - emitted) (account_blocks account fuel), cut)
unfolding account_loop
account_loop_lem zero account emitted cut enough below safe =
    let e : emitted ≡ cut = omega arith in let z : cut - cut ≡ 0 = omega arith in rw (e, z) refl
account_loop_lem (suc fuel) account emitted cut enough below safe =
    elim (Bool-cases (ltb emitted cut)) [
      | inr done ↦
          let e : emitted ≡ cut = ground arith in
          let z : cut - cut ≡ 0 = omega arith in rw (done, account_loop, e, z) refl
      | inl more ↦
          let (r, e, v) =
            account_round-IsRound account emitted cut (omega arith) (ltb→lt _ _ more) in
          loop_cases fuel account emitted cut r e v (ltb→lt _ _ more) (
            account_loop_lem fuel (suc account) r.emitted cut
              (omega (arith, v.counted, length-account_block account, ltb→lt emitted cut more))
              (omega (arith, v.counted)) (omega arith))
    ]

-- A valid cut point is one to the largest safe integer.
abbrev pub IsCutPoint : ℕ → Type 0
IsCutPoint cut = (1 ≤ cut) × (cut ≤ max_safe_integer)

take-cons_pos :
    (n : ℕ) (b : Bundle) (bs : List Bundle) → 1 ≤ n → take n (b ∷ bs) ≡ b ∷ take (n - 1) bs
take-cons_pos zero b bs h = absurd (omega arith)
take-cons_pos (suc n) b bs h = let e : suc n - 1 ≡ n = omega arith in rw e

pub validate_cut_point_lem : (cut : ℕ) → IsCutPoint cut → validate_cut_point cut ≡ ok tt
unfolding validate_cut_point
validate_cut_point_lem cut h = rw (le→leb _ _ h.0, le→leb _ _ h.1) refl

-- For each cut point the generator ends without an error, and what it yields are the first
-- resources of the stream of whole accounts.
pub fixture_bundles-eq-take :
    (cut : ℕ) → IsCutPoint cut → fixture_bundles cut ≡ ok (take cut (stream cut))
unfolding fixture_bundles stream
fixture_bundles-eq-take cut h =
    rw
      (
        validate_cut_point_lem cut h,
        account_loop_lem cut 0 1 cut (omega arith) h.0 (omega arith),
        (==_iff cut cut).1 refl,
        take-cons_pos cut root_bundle (account_blocks 0 cut) h.0,
      )
      refl

account_blocks-add :
    (account m n : ℕ)
    → account_blocks account (m + n) ≡ account_blocks account m ++ account_blocks (account + m) n
unfolding account_blocks
account_blocks-add account zero n =
    let e : account + 0 ≡ account = omega arith in let z : 0 + n ≡ n = omega arith in rw (e, z) refl
account_blocks-add account (suc m) n =
    let e : account + suc m ≡ suc account + m = omega arith in
    let z : suc m + n ≡ suc (m + n) = omega arith in
    rw (e, z, account_blocks-add (suc account) m n, append_assoc) refl

length-account_blocks : (account n : ℕ) → n ≤ length (account_blocks account n)
unfolding account_blocks
length-account_blocks account zero = omega arith
length-account_blocks account (suc n) = omega (
  arith,
  length-append (account_block account) (account_blocks (suc account) n),
  length-account_block account,
  length-account_blocks (suc account) n,
)

-- The stream up to `n` accounts is long enough for the cut at `n`, and grows at its end.
take-stream : (m n : ℕ) → m ≤ n → take m (stream n) ≡ take m (stream m)
unfolding stream
take-stream m n h =
    let e : n ≡ m + (n - m) = omega arith in
    let z : m - suc (length (account_blocks 0 m)) ≡ 0 = omega (arith, length-account_blocks 0 m) in
    ap (λ k. take m (root_bundle ∷ account_blocks 0 k)) e
    ∙ ap (λ bs. take m (root_bundle ∷ bs)) (account_blocks-add 0 m (n - m))
    ∙ take-append m (root_bundle ∷ account_blocks 0 m) _
    ∙ rw (z, append-nil) refl

length-stream : (n : ℕ) → n ≤ length (stream n)
unfolding stream
length-stream n = omega (arith, length-account_blocks 0 n)

-- For each cut point the generator yields exactly as many resources as the cut point says, so
-- its last check never throws.
pub fixture_bundles_total :
    (cut : ℕ)
    → IsCutPoint cut
    → (bundles : List Bundle) × (fixture_bundles cut ≡ ok bundles) × (length bundles ≡ cut)
fixture_bundles_total cut h = (
  take cut (stream cut),
  fixture_bundles-eq-take cut h,
  omega (arith, length-take cut (stream cut), length-stream cut),
)

-- A smaller fixture is a prefix of a larger one: for cut points `m ≤ n`, what is generated for
-- `m` are the first `m` resources of what is generated for `n`.
pub fixture_bundles_prefix :
    (m n : ℕ) (bundles : List Bundle)
    → IsCutPoint m
    → IsCutPoint n
    → m ≤ n
    → fixture_bundles n ≡ ok bundles
    → fixture_bundles m ≡ ok (take m bundles)
fixture_bundles_prefix m n bundles hm hn le e =
    let same : take n (stream n) ≡ bundles = cc (fixture_bundles-eq-take n hn) in
    rw (← same, take-take m n (stream n) le, take-stream m n le) (fixture_bundles-eq-take m hm)
