-- ===== src/Omni/Store.antt =====
-- The state client of cosi-runtime, which is no part of this repository: one resource type at a
-- time, with the documented effect of a read, of `StateUpdateWithConflicts` and of a deletion.
use omni_infra_provider_true.Base.{◌≡◌, ◌⊎◌, Option, none, some, String, false, str_eq}
use omni_infra_provider_true.Base.Result.{Result, ok, err}

-- The errors of the client that the program tells apart.
pub data StateError : Type 0 where
  not_found conflict unavailable : StateError

-- An update fails by the mutator's own error, or by the client's.
pub data UpdateError (E : Type 0) : Type 0 where
  refused : E → UpdateError E
  failed : StateError → UpdateError E

-- `State` is what the server holds when the write lands, so writes of others before it are in it.
-- A mutator gives its result with the resource to write.
pub record Store (R : Type 0) : Type 1 where
  pub State : Type 0
  pub read : State → String → Option R
  -- `StateGetByID`, which may fail for reasons of its own.
  pub get : State → String → Result StateError R
  pub get_ok : (s : State) (id : String) (r : R) → get s id ≡ ok r → read s id ≡ some r
  -- `Destroy`: on an error nothing is deleted, or it was and the response got lost.
  pub destroy : State → String → Result StateError (Unit {0}) × State
  pub destroy_ok :
      (s : State) (id : String) → (destroy s id).0 ≡ ok tt → read (destroy s id).1 id ≡ none
  pub destroy_failed :
      (s : State) (id : String) (e : StateError)
      → (destroy s id).0 ≡ err e
      → (read (destroy s id).1 id ≡ read s id) ⊎ (read (destroy s id).1 id ≡ none)
  pub destroy_frame :
      (s : State) (id j : String) → str_eq j id ≡ false → read (destroy s id).1 j ≡ read s j
  pub update :
      (E A : Type 0)
      → State
      → String
      → (R → Result E (A × R))
      → Result (UpdateError E) (A × R) × State
  -- A success means that the mutator accepted the live resource, and that its result is stored.
  pub update_ok :
      (E A : Type 0) (s : State) (id : String) (f : R → Result E (A × R)) (a : A) (r : R)
      → (update E A s id f).0 ≡ ok (a, r)
      → (live : R) × (read s id ≡ some live)
        × (f live ≡ ok (a, r))
        × (read (update E A s id f).1 id ≡ some r)
  -- The mutator's error comes back as it is, and nothing is written.
  pub update_refused :
      (E A : Type 0) (s : State) (id : String) (f : R → Result E (A × R)) (e : E)
      → (update E A s id f).0 ≡ err (refused e)
      → (live : R) × (read s id ≡ some live)
        × (f live ≡ err e)
        × (read (update E A s id f).1 id ≡ read s id)
  -- On the client's error the write may have landed all the same (a lost or malformed response).
  pub update_failed :
      (E A : Type 0) (s : State) (id : String) (f : R → Result E (A × R)) (e : StateError)
      → (update E A s id f).0 ≡ err (failed e)
      → (read (update E A s id f).1 id ≡ read s id)
        ⊎ ((live : R) × (a : A) × (r : R) × (read s id ≡ some live)
            × (f live ≡ ok (a, r))
            × (read (update E A s id f).1 id ≡ some r))
  -- No other resource is touched.
  pub update_frame :
      (E A : Type 0) (s : State) (id j : String) (f : R → Result E (A × R))
      → str_eq j id ≡ false
      → read (update E A s id f).1 j ≡ read s j
