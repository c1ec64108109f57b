-- ===== src/Fixture/Manifest/Prefixes.antt =====
-- packages/fixture-generator/generator.mjs: what the loops of the manifest feed to each hash.
use eacl_demo.Base.{
  ℕ, zero, suc, ◌+◌, ◌≤◌, ◌≡◌, refl, sym, ap, ap₂, ◌∙◌, true, false, leb, String, length,
  length-append, take, take-nil, map, List, [], ◌∷◌, ◌++◌, arith,
}
use mathlib.Core.List.{append_assoc, append-nil}
use eacl_demo.Fixture.Records.{FixtureRecord, Bundle}
use eacl_demo.Fixture.Batches.{line}
use eacl_demo.Fixture.Manifest.{
  Prefix, Tally, feed_prefix, tally_records, count_bundle, tally_bundles,
}

-- The lines of some bundles.
unfoldable pub lines : List Bundle → List String
lines [] = []
lines (b ∷ bs) = map line b.records ++ lines bs

feed_records : ℕ → List FixtureRecord → Prefix → Prefix
feed_records seen [] p = p
feed_records seen (r ∷ rs) p = feed_records seen rs (feed_prefix seen (line r) p)

pub feed_bundles : ℕ → List Bundle → Prefix → Prefix
feed_bundles seen [] p = p
feed_bundles seen (b ∷ bs) p = feed_bundles (seen + 1) bs (feed_records (seen + 1) b.records p)

map-map {ℓ} :
    {A : Type ℓ} (f g h : A → A)
    → ((a : A) → h a ≡ f (g a))
    → (xs : List A) → map f (map g xs) ≡ map h xs
map-map f g h e [] = refl
map-map f g h e (x ∷ xs) = ap₂ ◌∷◌ (sym (e x)) (map-map f g h e xs)

map-id {ℓ} : {A : Type ℓ} (f : A → A) → ((a : A) → f a ≡ a) → (xs : List A) → map f xs ≡ xs
map-id f e [] = refl
map-id f e (x ∷ xs) = ap₂ ◌∷◌ (e x) (map-id f e xs)

tally_records-prefixes :
    (seen : ℕ) (rs : List FixtureRecord) (t : Tally)
    → (tally_records seen rs t).prefixes ≡ map (feed_records seen rs) t.prefixes
unfolding tally_records feed_records
tally_records-prefixes seen [] t = sym (map-id (feed_records seen []) (λ p. refl) t.prefixes)
tally_records-prefixes seen (r ∷ rs) t =
    tally_records-prefixes seen rs _
    ∙ map-map (feed_records seen rs) (feed_prefix seen (line r)) (feed_records seen (r ∷ rs))
        (λ p. refl) t.prefixes

pub tally_bundles-prefixes :
    (seen : ℕ) (bs : List Bundle) (t : Tally)
    → (tally_bundles seen bs t).prefixes ≡ map (feed_bundles seen bs) t.prefixes
unfolding tally_bundles feed_bundles
tally_bundles-prefixes seen [] t = sym (map-id (feed_bundles seen []) (λ p. refl) t.prefixes)
tally_bundles-prefixes seen (b ∷ bs) t =
    tally_bundles-prefixes (seen + 1) bs _
    ∙ ap (map (feed_bundles (seen + 1) bs))
        (tally_records-prefixes (seen + 1) b.records (count_bundle t))
    ∙ map-map (feed_bundles (seen + 1) bs) (feed_records (seen + 1) b.records)
        (feed_bundles seen (b ∷ bs)) (λ p. refl) t.prefixes

-- The prefix with more lines fed to it.
abbrev pub grown : Prefix → List String → Prefix
grown p texts = record { cut = p.cut; fed = p.fed ++ texts; count = p.count + length texts }

add_zero : (n : ℕ) → n + 0 ≡ n
add_zero n = omega arith

sums : (n a b c : ℕ) → c ≡ a + b → n + a + b ≡ n + c
sums n a b c h = omega arith

grown-nil : (p : Prefix) → grown p [] ≡ p
grown-nil p = λ i. record { cut = p.cut; fed = append-nil p.fed i; count = add_zero p.count i }

grown-grown : (p : Prefix) (a b : List String) → grown (grown p a) b ≡ grown p (a ++ b)
grown-grown p a b = λ i. record {
  cut = p.cut;
  fed = append_assoc p.fed a b i;
  count = sums p.count (length a) (length b) (length (a ++ b)) (length-append a b) i;
}

feed_records-in :
    (seen : ℕ) (rs : List FixtureRecord) (p : Prefix)
    → leb seen p.cut ≡ true
    → feed_records seen rs p ≡ grown p (map line rs)
unfolding feed_records feed_prefix
feed_records-in seen [] p h = sym (grown-nil p)
feed_records-in seen (r ∷ rs) p h =
    rw (h, feed_records)
      (feed_records-in seen rs (grown p (line r ∷ [])) h
        ∙ grown-grown p (line r ∷ []) (map line rs))

feed_records-out :
    (seen : ℕ) (rs : List FixtureRecord) (p : Prefix)
    → leb seen p.cut ≡ false
    → feed_records seen rs p ≡ p
unfolding feed_records feed_prefix
feed_records-out seen [] p h = refl
feed_records-out seen (r ∷ rs) p h = rw (h, feed_records) (feed_records-out seen rs p h)

feed_bundles-out :
    (seen : ℕ) (bs : List Bundle) (p : Prefix) → p.cut ≤ seen → feed_bundles seen bs p ≡ p
unfolding feed_bundles
feed_bundles-out seen [] p h = refl
feed_bundles-out seen (b ∷ bs) p h =
    let out : leb (seen + 1) p.cut ≡ false = ground arith in
    rw (feed_records-out (seen + 1) b.records p out)
      (feed_bundles-out (seen + 1) bs p (omega arith))

-- A prefix is fed the lines of the bundles that are left of it.
pub feed_bundles-lines :
    (left seen : ℕ) (bs : List Bundle) (p : Prefix)
    → p.cut ≡ seen + left
    → feed_bundles seen bs p ≡ grown p (lines (take left bs))
unfolding feed_bundles lines
feed_bundles-lines left seen [] p h = rw (take-nil {A = Bundle} left) (sym (grown-nil p))
feed_bundles-lines zero seen (b ∷ bs) p h =
    feed_bundles-out seen (b ∷ bs) p (omega arith) ∙ sym (grown-nil p)
feed_bundles-lines (suc left) seen (b ∷ bs) p h =
    let within : leb (seen + 1) p.cut ≡ true = ground arith in
    rw (feed_records-in (seen + 1) b.records p within) (
      feed_bundles-lines left (seen + 1) bs (grown p (map line b.records)) (omega arith)
      ∙ grown-grown p (map line b.records) (lines (take left bs)))
