-- ===== src/Fixture/Manifest/Proofs.antt =====
-- packages/fixture-generator/generator.mjs: the counts of a manifest, and the proofs of its prefixes
-- against the manifests of the smaller fixtures.
use eacl_demo.Base.{
  ℕ, ◌+◌, ◌≤◌, ◌≡◌, refl, sym, ap, ◌∙◌, Bool, true, false, ◌==◌, ==_iff, leb, str_eq, if_holds,
  Bool-cases, inl, inr, ◌⊎◌, String, length, length-append, take, take-take, map, List, [], ◌∷◌,
  ◌++◌, some, ok, arith,
}
use eacl_demo.Fixture.Records.{FixtureRecord, object_kind, relationship_kind, Bundle}
use eacl_demo.Fixture.Bundles.{fixture_bundles}
use eacl_demo.Fixture.Batches.{line}
use eacl_demo.Fixture.Stream.Cut.{IsCutPoint, fixture_bundles_prefix, fixture_bundles_total}
use eacl_demo.Fixture.Manifest.{
  Context, Counts, count_record, Prefix, Tally, feed_prefix, tally_records, count_bundle,
  tally_bundles, open_prefixes, start, Proof, prove, proof_at, cut_points, Manifest, assemble,
  finish_manifest, generate_fixture_manifest,
}
use eacl_demo.Fixture.Manifest.Prefixes.{
  lines, feed_bundles, feed_bundles-lines, tally_bundles-prefixes, grown,
}

-- The totals fit together.
pub record IsBalanced (c : Counts) : Type 0 where
  pub records : c.records ≡ c.objects + c.relationships
  pub objects : c.objects ≡ (c.subjects).total + (c.resources).total

count_record-IsBalanced :
    (c : Counts) (r : FixtureRecord) (text : String)
    → IsBalanced c
    → IsBalanced (count_record c r text)
unfolding count_record
count_record-IsBalanced c (object_kind role o) text h =
    if_holds IsBalanced (str_eq role "subject")
      (λ _. record { records = omega (arith, h.records); objects = omega (arith, h.objects) })
      (λ _. record { records = omega (arith, h.records); objects = omega (arith, h.objects) })
count_record-IsBalanced c (relationship_kind relation resource subject) text h = record {
  records = omega (arith, h.records);
  objects = h.objects;
}

count_record-records :
    (c : Counts) (r : FixtureRecord) (text : String)
    → (count_record c r text).records ≡ c.records + 1
unfolding count_record
count_record-records c (object_kind role o) text =
    if_holds (λ (d : Counts). d.records ≡ c.records + 1) (str_eq role "subject") (λ _. refl)
      (λ _. refl)
count_record-records c (relationship_kind relation resource subject) text = refl

count_record-bundles :
    (c : Counts) (r : FixtureRecord) (text : String) → (count_record c r text).bundles ≡ c.bundles
unfolding count_record
count_record-bundles c (object_kind role o) text =
    if_holds (λ (d : Counts). d.bundles ≡ c.bundles) (str_eq role "subject") (λ _. refl) (λ _. refl)
count_record-bundles c (relationship_kind relation resource subject) text = refl

-- What the counts are behind `n` bundles and `k` records more.
record Counted (before after : Counts) (n k : ℕ) : Type 0 where
  bundles : after.bundles ≡ before.bundles + n
  records : after.records ≡ before.records + k
  balanced : IsBalanced before → IsBalanced after

tally_records-Counted :
    (seen : ℕ) (rs : List FixtureRecord) (t : Tally)
    → Counted t.counts (tally_records seen rs t).counts 0 (length (map line rs))
unfolding tally_records
tally_records-Counted seen [] t = record {
  bundles = omega arith;
  records = omega arith;
  balanced = λ h. h;
}
tally_records-Counted seen (r ∷ rs) t =
    let ih = tally_records-Counted seen rs (record {
      fixture = t.fixture ++ line r ∷ [];
      prefixes = map (feed_prefix seen (line r)) t.prefixes;
      counts = count_record t.counts r (line r);
    }) in
    record {
      bundles = omega (arith, ih.bundles, count_record-bundles t.counts r (line r));
      records = omega (arith, ih.records, count_record-records t.counts r (line r));
      balanced = λ h. ih.balanced (count_record-IsBalanced t.counts r (line r) h);
    }

tally_bundles-Counted :
    (seen : ℕ) (bs : List Bundle) (t : Tally)
    → Counted t.counts (tally_bundles seen bs t).counts (length bs) (length (lines bs))
unfolding tally_bundles lines
tally_bundles-Counted seen [] t = record {
  bundles = omega arith;
  records = omega arith;
  balanced = λ h. h;
}
tally_bundles-Counted seen (b ∷ bs) t =
    let one = tally_records-Counted (seen + 1) b.records (count_bundle t) in
    let ih =
      tally_bundles-Counted (seen + 1) bs (tally_records (seen + 1) b.records (count_bundle t)) in
    record {
      bundles = omega (arith, ih.bundles, one.bundles);
      records =
          omega (arith, ih.records, one.records, length-append (map line b.records) (lines bs));
      balanced =
          λ h. ih.balanced (one.balanced (record { records = h.records; objects = h.objects }));
    }

abbrev fresh : ℕ → Prefix
fresh c = record { cut = c; fed = []; count = 0 }

abbrev pub Among : ℕ → List ℕ → Type 0
Among c [] = ⊥
Among c (d ∷ ds) = (d ≡ c) ⊎ Among c ds

rest : (d c : ℕ) (ds : List ℕ) → (d == c) ≡ false → Among c (d ∷ ds) → Among c ds
rest d c ds differ (inl e) = let yes' : (d == c) ≡ true = (==_iff d c).1 e in cc
rest d c ds differ (inr a) = a

other : (d c cut : ℕ) → leb d cut ≡ false → c ≤ cut → (d == c) ≡ false
other d c cut h le = ground arith

module _ (hash : List String → String) (before : String → String → Bool) (bs : List Bundle) where
  -- The proof of a prefix, as it is found.
  abbrev proof_of : ℕ → Proof
  proof_of c = prove hash before (grown (fresh c) (lines (take c bs)))

  fed_lem : (c : ℕ) → feed_bundles 0 bs (fresh c) ≡ grown (fresh c) (lines (take c bs))
  fed_lem c = feed_bundles-lines c 0 bs (fresh c) (omega arith)

  proof_at-prefixes :
      (cut c : ℕ) (cs : List ℕ)
      → c ≤ cut
      → Among c cs
      → proof_at c (map (prove hash before) (map (feed_bundles 0 bs) (open_prefixes cut cs)))
        ≡ some (proof_of c)
  unfolding proof_at open_prefixes
  proof_at-prefixes cut c [] le a = absurd a
  proof_at-prefixes cut c (d ∷ ds) le a = elim (Bool-cases (leb d cut)) [
    | inl within ↦ elim (Bool-cases (d == c)) [
      | inl e ↦
          rw (within, open_prefixes, map, fed_lem d, e, proof_at)
            (ap (λ n. some (proof_of n)) ((==_iff d c).0 e))
      | inr e ↦
          rw (within, open_prefixes, map, fed_lem d, e, proof_at)
            (proof_at-prefixes cut c ds le (rest d c ds e a))
    ]
    | inr beyond ↦
        rw (beyond, open_prefixes)
          (proof_at-prefixes cut c ds le (rest d c ds (other d c cut beyond le) a))
  ]

  -- The manifest of a listed cut point, from the bundles of its fixture.
  record Made (cut : ℕ) (m : Manifest) : Type 0 where
    bundles : m.counts.bundles ≡ length bs
    records : m.counts.records ≡ length (lines bs)
    balanced : IsBalanced m.counts
    semantic : m.semantic_records ≡ (proof_of cut).records_digest
    proofs : (c : ℕ) → c ≤ cut → Among c cut_points → proof_at c m.prefix_proofs ≡ some (proof_of c)

  finish_manifest-Made :
      (cut : ℕ) (context : Context)
      → Among cut cut_points
      → (m : Manifest) × (finish_manifest hash before cut context
            (tally_bundles 0 bs (start cut context))
          ≡ ok m)
        × Made cut m
  unfolding finish_manifest assemble start
  finish_manifest-Made cut context listed =
      let t = tally_bundles 0 bs (start cut context) in
      let counted = tally_bundles-Counted 0 bs (start cut context) in
      let found : (c : ℕ)
          → c ≤ cut
          → Among c cut_points
          → proof_at c (map (prove hash before) t.prefixes) ≡ some (proof_of c) =
        λ c le a.
          rw (tally_bundles-prefixes 0 bs (start cut context))
            (proof_at-prefixes cut c cut_points le a) in
      (
        assemble hash before cut context t (proof_of cut),
        rw (found cut (omega arith) listed, finish_manifest) refl,
        record {
          bundles = omega (arith, counted.bundles);
          records = omega (arith, counted.records);
          balanced = counted.balanced (record { records = refl; objects = refl });
          semantic = refl;
          proofs = found;
        },
      )

module _ (hash : List String → String) (before : String → String → Bool) where
  listed-IsCutPoint : (c : ℕ) → Among c cut_points → IsCutPoint c
  listed-IsCutPoint c (inl e) = rw (← e) (omega arith, omega arith)
  listed-IsCutPoint c (inr (inl e)) = rw (← e) (omega arith, omega arith)
  listed-IsCutPoint c (inr (inr a)) = absurd a

  generate_fixture_manifest-Made :
      (cut : ℕ) (context : Context) (bs : List Bundle)
      → Among cut cut_points
      → fixture_bundles cut ≡ ok bs
      → (m : Manifest) × (generate_fixture_manifest hash before cut context ≡ ok m)
        × Made hash before bs cut m
  unfolding generate_fixture_manifest
  generate_fixture_manifest-Made cut context bs listed e =
      let (m, made, fits) = finish_manifest-Made hash before bs cut context listed in
      (m, rw (e, generate_fixture_manifest) made, fits)

  -- For each cut point of the list the manifest is made, with as many bundles as the cut point says, and
  -- its totals fit together: the records are the objects and the relationships, and the objects are
  -- the subjects and the resources.
  pub generate_fixture_manifest-counts :
      (cut : ℕ) (context : Context)
      → Among cut cut_points
      → (m : Manifest) × (generate_fixture_manifest hash before cut context ≡ ok m)
        × (m.counts.bundles ≡ cut)
        × IsBalanced m.counts
  generate_fixture_manifest-counts cut context listed =
      let (bs, e, n) = fixture_bundles_total cut (listed-IsCutPoint cut listed) in
      let (m, made, fits) = generate_fixture_manifest-Made cut context bs listed e in
      (m, made, fits.bundles ∙ n, fits.balanced)

  -- For cut points `m ≤ n` of the list: the proof of the prefix `m` in the manifest of `n` has the digest
  -- of the records, and their number, that the manifest of the smaller fixture itself has.
  pub generate_fixture_manifest-prefixes :
      (m n : ℕ) (small large : Context)
      → Among m cut_points
      → Among n cut_points
      → m ≤ n
      → (s : Manifest) × (l : Manifest) × (p : Proof) × (generate_fixture_manifest hash before m
            small
          ≡ ok s)
        × (generate_fixture_manifest hash before n large ≡ ok l)
        × (proof_at m l.prefix_proofs ≡ some p)
        × (p.records_digest ≡ s.semantic_records)
        × (p.record_count ≡ s.counts.records)
  generate_fixture_manifest-prefixes m n small large hm hn le =
      let (bs, e, size) = fixture_bundles_total n (listed-IsCutPoint n hn) in
      let e' =
        fixture_bundles_prefix m n bs (listed-IsCutPoint m hm) (listed-IsCutPoint n hn) le e in
      let (l, made_l, fits_l) = generate_fixture_manifest-Made n large bs hn e in
      let (s, made_s, fits_s) = generate_fixture_manifest-Made m small (take m bs) hm e' in
      let again : take m (take m bs) ≡ take m bs = take-take m m bs (omega arith) in
      let semantic : s.semantic_records ≡ (proof_of hash before (take m bs) m).records_digest =
        fits_s.semantic in
      let records : s.counts.records ≡ length (lines (take m bs)) = fits_s.records in
      (
        s,
        l,
        proof_of hash before bs m,
        made_s,
        made_l,
        fits_l.proofs m le hm,
        sym (rw again at semantic),
        omega (arith, records),
      )
