-- ===== src/Lifecycle/History.antt =====
-- packages/data-lifecycle/lifecycle.mjs: what holds along a history of accepted transitions, and what a
-- planned promotion leads to.
use eacl_demo.Base.{
  ℕ, suc, ◌+◌, ◌≤◌, ◌≡◌, ◌≢◌, refl, sym, ap, ◌∙◌, Bool, true, not, ◌&&◌, ◌||◌, str_eq, str_eq_iff,
  String, some, ok, OnOk-apply, require-eq-ok, bind-eq-ok, includes, string_eq, arith,
}
use eacl_demo.Lifecycle.{
  Lifecycle, bad_schema, bad_id, bad_digest, bad_state, immutable_field, forbidden_transition,
  not_promotable, crosses_profiles, same_storage, wrong_predecessor, is_lifecycle_id, is_digest,
  states, allowed_transitions, arrow, same_immutable, Promotion, is_previous, validate_lifecycle,
  transition_lifecycle, require_ordinary_deploy_manifest, plan_blue_green_promotion,
}
use eacl_demo.Lifecycle.Order.{
  rank, Frozen, same_immutable-Frozen, allowed-rank, Frozen-self, Frozen-trans, rank-serving,
  neither, both, is_previous-eq, Planned, rank_bound,
}

module _ (parses : String → Bool) where
  valid-state :
      (r : Lifecycle) → validate_lifecycle parses r ≡ ok tt → includes states r.state ≡ true
  unfolding validate_lifecycle
  valid-state r h =
      let (_, h1) = require-eq-ok (str_eq r.schema "eacl-demo.data-lifecycle.v1") bad_schema _ h in
      let (_, h2) = require-eq-ok (is_lifecycle_id r.lifecycle_id) bad_id _ h1 in
      let (_, h3) =
        require-eq-ok (is_digest r.manifest_digest && is_digest r.fixture_digest) bad_digest _ h2 in
      (require-eq-ok (includes states r.state) bad_state _ h3).0

  transition_lifecycle-moves :
      (a b c : Lifecycle)
      → transition_lifecycle parses a b ≡ ok c
      → (c ≡ b)
        × Frozen a b
        × (rank b.state ≡ suc (rank a.state))
        × (includes states b.state ≡ true)
        × (validate_lifecycle parses b ≡ ok tt)
  unfolding transition_lifecycle
  transition_lifecycle-moves a b c h =
      let (_, va, h1) = bind-eq-ok (validate_lifecycle parses a) _ h in
      let (_, vb, h2) = bind-eq-ok (validate_lifecycle parses b) _ h1 in
      let (same, h3) = require-eq-ok (same_immutable a b) immutable_field _ h2 in
      let (moves, h4) =
        require-eq-ok (includes allowed_transitions (arrow a.state b.state)) forbidden_transition _
          h3 in
      (
        cc,
        same_immutable-Frozen a b same,
        allowed-rank a.state b.state (valid-state a va) (valid-state b vb) moves,
        valid-state b vb,
        vb,
      )

  -- A history of accepted transitions, with their number.
  pub data History (a : Lifecycle) : ℕ → Lifecycle → Type 0 where
    begun : History a 0 a
    moved :
        {n : ℕ} {b c d : Lifecycle}
        → History a n b
        → transition_lifecycle parses b c ≡ ok d
        → History a (suc n) c

  History-moves :
      (a b : Lifecycle) (n : ℕ) → History a n b → Frozen a b × (rank b.state ≡ rank a.state + n)
  History-moves a _ _ begun = (Frozen-self a, omega arith)
  History-moves a c _ (moved {n} {b} h e) =
      let (frozen, place) = History-moves a b n h in
      let (_, further, on, _, _) = transition_lifecycle-moves b c _ e in
      (Frozen-trans a b c frozen further, omega arith)

  -- Along a history of accepted transitions the record keeps its identity, storage, digests,
  -- predecessor and time of creation, and each transition takes it one state on; so after the first
  -- one at most two more follow, and a retired record has no transition at all.
  pub History-Frozen :
      (a b : Lifecycle) (n : ℕ)
      → History a n b
      → Frozen a b × (rank b.state ≡ rank a.state + n) × (n ≤ 3)
  History-Frozen a b n h =
      let (frozen, moves) = History-moves a b n h in
      (frozen, moves, omega (arith, rank_bound b.state))

  plan_blue_green_promotion-Planned :
      (current candidate : Lifecycle) (p : Promotion)
      → plan_blue_green_promotion parses current candidate ≡ ok p
      → Planned current candidate p
  unfolding plan_blue_green_promotion
  plan_blue_green_promotion-Planned current candidate p plan =
      let (_, vc, h1) = bind-eq-ok (validate_lifecycle parses current) _ plan in
      let (_, vd, h2) = bind-eq-ok (validate_lifecycle parses candidate) _ h1 in
      let (serving, h3) =
        require-eq-ok (str_eq current.state "serving" && str_eq candidate.state "verified")
          not_promotable _ h2 in
      let (profile, h4) =
        require-eq-ok (str_eq current.profile_id candidate.profile_id) crosses_profiles _ h3 in
      let (apart, h5) =
        require-eq-ok
          (not (
            str_eq current.lifecycle_id candidate.lifecycle_id
            || str_eq current.storage_resource_id candidate.storage_resource_id))
          same_storage _ h4 in
      let (previous, h6) =
        require-eq-ok (is_previous candidate.previous_lifecycle_id current.lifecycle_id)
          wrong_predecessor _ h5 in
      let (different, elsewhere) =
        neither current.lifecycle_id candidate.lifecycle_id current.storage_resource_id
          candidate.storage_resource_id apart in
      record {
        verified =
            (str_eq_iff candidate.state "verified").0 (
              (both (str_eq current.state "serving") (str_eq candidate.state "verified")
                serving).1);
        same_profile = (str_eq_iff current.profile_id candidate.profile_id).0 profile;
        another = different;
        another_storage = elsewhere;
        predecessor = is_previous-eq candidate.previous_lifecycle_id current.lifecycle_id previous;
        expected =
            OnOk-apply
              (λ (p : Promotion).
                (p.expected_manifest_digest ≡ candidate.manifest_digest)
                × (p.to_lifecycle_id ≡ candidate.lifecycle_id))
              _ p (refl, refl) h6;
      }

  -- A planned promotion leads to a deployment: once the candidate is taken to its next state, an
  -- ordinary deployment of the manifest that the plan expects accepts it. The serving record is
  -- another one, in another storage, of the same profile, and it is the candidate's predecessor.
  pub plan_blue_green_promotion-deploys :
      (current candidate after after' : Lifecycle) (p : Promotion)
      → plan_blue_green_promotion parses current candidate ≡ ok p
      → transition_lifecycle parses candidate after ≡ ok after'
      → (require_ordinary_deploy_manifest parses after p.expected_manifest_digest ≡ ok after)
        × (p.to_lifecycle_id ≡ after.lifecycle_id)
        × (current.lifecycle_id ≢ after.lifecycle_id)
        × (current.storage_resource_id ≢ after.storage_resource_id)
        × (current.profile_id ≡ after.profile_id)
        × (after.previous_lifecycle_id ≡ some current.lifecycle_id)
  unfolding require_ordinary_deploy_manifest
  plan_blue_green_promotion-deploys current candidate after after' p plan on =
      let q = plan_blue_green_promotion-Planned current candidate p plan in
      let (_, f, place, state, valid) = transition_lifecycle-moves candidate after after' on in
      let served : after.state ≡ "serving" =
        rank-serving after.state state (place ∙ ap (λ s. suc (rank s)) q.verified) in
      let digest : after.manifest_digest ≡ p.expected_manifest_digest =
        sym f.manifest_digest ∙ sym (q.expected.0) in
      (
        rw
            (
              valid,
              (str_eq_iff after.state "serving").1 served,
              (str_eq_iff after.manifest_digest p.expected_manifest_digest).1 digest,
            )
            refl,
        q.expected.1 ∙ f.lifecycle_id,
        λ e. q.another (e ∙ sym f.lifecycle_id),
        λ e. q.another_storage (e ∙ sym f.storage_resource_id),
        q.same_profile ∙ f.profile_id,
        sym f.previous_lifecycle_id ∙ q.predecessor,
      )
