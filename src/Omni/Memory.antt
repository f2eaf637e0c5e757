-- ===== src/Omni/Memory.antt =====
-- A store in memory: an instance of the state client's interface, for examples.
use omni_infra_provider_true.Base.{
  ◌≡◌, ◌≢◌, arith, refl, ap, ◌∙◌, inl, Option, none, some, String, false, str_eq, eq_refl,
  if◌then◌else◌,
}
use omni_infra_provider_true.Base.Result.{Result, ok, err}
use omni_infra_provider_true.Omni.Store.{Store, StateError, not_found, UpdateError, refused, failed}

module _ (R : Type 0) where
  abbrev pub Contents : Type 0
  Contents = String → Option R

  unfoldable pub put : Contents → String → Option R → Contents
  put s id o j = if str_eq j id then o else s j

  pub put_same : (s : Contents) (id : String) (o : Option R) → put s id o id ≡ o
  unfolding put
  put_same s id o = rw (eq_refl id) refl

  pub put_other :
      (s : Contents) (id j : String) (o : Option R) → str_eq j id ≡ false → put s id o j ≡ s j
  unfolding put
  put_other s id j o h = rw h refl

  unfoldable pub get_on : Option R → Result StateError R
  get_on none = err not_found
  get_on (some r) = ok r

  pub get_on_ok : (o : Option R) (r : R) → get_on o ≡ ok r → o ≡ some r
  unfolding get_on
  get_on_ok none r h = absurd (cc h)
  get_on_ok (some x) r h = cc h

  module _ (E A : Type 0) where
    unfoldable pub settle :
        Contents → String → Result E (A × R) → Result (UpdateError E) (A × R) × Contents
    settle s id (err e) = (err (refused e), s)
    settle s id (ok (a, r)) = (ok (a, r), put s id (some r))

    unfoldable pub update_on :
        Contents
        → String
        → (R → Result E (A × R))
        → Option R
        → Result (UpdateError E) (A × R) × Contents
    unfolding settle
    update_on s id f none = (err (failed not_found), s)
    update_on s id f (some live) = settle s id (f live)

    settle_ok :
        (s : Contents) (id : String) (m : Result E (A × R)) (a : A) (r : R)
        → (settle s id m).0 ≡ ok (a, r)
        → (m ≡ ok (a, r)) × ((settle s id m).1 id ≡ some r)
    unfolding settle
    settle_ok s id (err e) a r h = absurd (cc h)
    settle_ok s id (ok (a', r')) a r h =
        let same : r' ≡ r = ground arith in (cc h, put_same s id (some r') ∙ ap some same)

    settle-refused :
        (s : Contents) (id : String) (m : Result E (A × R)) (e : E)
        → (settle s id m).0 ≡ err (refused e)
        → (m ≡ err e) × ((settle s id m).1 id ≡ s id)
    unfolding settle
    settle-refused s id (ok (a, r)) e h = absurd (cc h)
    settle-refused s id (err e') e h = (ground arith, refl)

    settle_failed :
        (s : Contents) (id : String) (m : Result E (A × R)) (e : StateError)
        → (settle s id m).0 ≢ err (failed e)
    unfolding settle
    settle_failed s id (ok (a, r)) e h = cc h
    settle_failed s id (err e') e h = absurd (ground arith)

    settle_other :
        (s : Contents) (id j : String) (m : Result E (A × R))
        → str_eq j id ≡ false
        → (settle s id m).1 j ≡ s j
    unfolding settle
    settle_other s id j (err e) h = refl
    settle_other s id j (ok (a, r)) h = put_other s id j (some r) h

    module _ (s : Contents) (id : String) (f : R → Result E (A × R)) where
      pub update_ok :
          (o : Option R) (a : A) (r : R)
          → (update_on s id f o).0 ≡ ok (a, r)
          → (live : R) × (o ≡ some live)
            × (f live ≡ ok (a, r))
            × ((update_on s id f o).1 id ≡ some r)
      unfolding update_on
      update_ok none a r h = absurd (cc h)
      update_ok (some live) a r h =
          let (e, stored) = settle_ok s id (f live) a r h in (live, refl, e, stored)

      pub update_refused :
          (o : Option R) (e : E)
          → (update_on s id f o).0 ≡ err (refused e)
          → (live : R) × (o ≡ some live) × (f live ≡ err e) × ((update_on s id f o).1 id ≡ s id)
      unfolding update_on
      update_refused none e h = absurd (ground arith)
      update_refused (some live) e h =
          let (e', kept) = settle-refused s id (f live) e h in (live, refl, e', kept)

      pub update_failed :
          (o : Option R) (e : StateError)
          → (update_on s id f o).0 ≡ err (failed e)
          → (update_on s id f o).1 id ≡ s id
      unfolding update_on
      update_failed none e h = refl
      update_failed (some live) e h = absurd (settle_failed s id (f live) e h)

      pub update_other :
          (o : Option R) (j : String) → str_eq j id ≡ false → (update_on s id f o).1 j ≡ s j
      unfolding update_on
      update_other none j h = refl
      update_other (some live) j h = settle_other s id j (f live) h

-- A map from identifiers; a deletion always succeeds.
unfoldable pub memory : (R : Type 0) → Store R
unfolding update_on put get_on
memory R = record {
  State = Contents R;
  read = λ s id. s id;
  get = λ s id. get_on R (s id);
  get_ok = λ s id r. get_on_ok R (s id) r;
  destroy = λ s id. (ok tt, put R s id none);
  destroy_ok = λ s id _. put_same R s id none;
  destroy_failed = λ s id e h. absurd (cc h);
  destroy_frame = λ s id j. put_other R s id j none;
  update = λ E A s id f. update_on R E A s id f (s id);
  update_ok = λ E A s id f. update_ok R E A s id f (s id);
  update_refused = λ E A s id f. update_refused R E A s id f (s id);
  update_failed = λ E A s id f e h. inl (update_failed R E A s id f (s id) e h);
  update_frame = λ E A s id j f. update_other R E A s id f (s id) j;
}
