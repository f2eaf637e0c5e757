-- ===== src/Lease/Acquire/Attempts.antt =====
-- Which attempts get the lease, and what each leaves in its memory.
use omni_infra_provider_true.Base.{
  ℕ, zero, suc, ◌≡◌, ◌↔◌, ◌⊎◌, inl, inr, refl, ap, ◌∙◌, Option, none, some,
}
use omni_infra_provider_true.Base.Result.{Result, ok, err}
use omni_infra_provider_true.Omni.Store.{StateError, not_found, conflict, unavailable}
use omni_infra_provider_true.Lease.{Rfc3339, Lease}
use omni_infra_provider_true.Lease.Claim.{LeaseHeld}
use omni_infra_provider_true.Lease.Acquire.{
  Attempt, AcquireError, Round, done, again, claim_views, after_update, cas_acquire, create_or,
  attempt_on, attempt, go_on, attempts, acquire,
}
use omni_infra_provider_true.Lease.Acquire.Views.{AreAccepted, views_sound, views_complete}

module _ (rfc : Rfc3339) where
  -- The attempt goes for the update: the resource is there, or its creation came too late, which
  -- leaves epoch 1 in memory.
  abbrev pub GoesForUpdate : Attempt → Lease → Lease → Type 0
  GoesForUpdate a l from =
      ((a.get ≡ none) × (l ≡ from))
      ⊎ ((a.get ≡ some not_found) × (a.create ≡ some conflict) × (record l { epoch = 1 } ≡ from))

  -- The attempt's update answers `u`, after each view was accepted.
  abbrev pub HasUpdated : Attempt → Option StateError → Lease → Lease → Type 0
  HasUpdated a u l l' =
      (from : Lease) × GoesForUpdate a l from × AreAccepted rfc from a.views l' × (a.update ≡ u)

  -- The attempt creates the resource under epoch 1, or updates it.
  abbrev pub HasGained : Attempt → Lease → Lease → Type 0
  HasGained a l l' =
      ((a.get ≡ some not_found) × (a.create ≡ none) × (record l { epoch = 1 } ≡ l'))
      ⊎ HasUpdated a none l l'

  -- One of the first `n` attempts gets the lease, and in each one before it the resource vanished
  -- under the update.
  abbrev pub HasAcquired : ℕ → Lease → (ℕ → Attempt) → Lease → Type 0
  HasAcquired zero l script l' = ⊥
  HasAcquired (suc n) l script l' =
      HasGained (script zero) l l'
      ⊎ ((l₁ : Lease) × HasUpdated (script zero) (some not_found) l l₁
          × HasAcquired n l₁ (λ i. script (suc i)) l')

  -- What an update answers, as the round that it makes; none is a failure.
  abbrev answer_of : Round → Option (Option StateError)
  answer_of (done (ok u)) = some none
  answer_of (done (err e)) = none
  answer_of again = some (some not_found)

  answered :
      (h : Option LeaseHeld) (u v : Option StateError)
      → answer_of (after_update rfc h u) ≡ some v
      → (h ≡ none) × (u ≡ v)
  unfolding after_update
  answered (some h) u v e = absurd (cc e)
  answered none none v e = (refl, cc e)
  answered none (some not_found) v e = (refl, cc e)
  answered none (some conflict) v e = absurd (cc e)
  answered none (some unavailable) v e = absurd (cc e)

  cas_sound :
      (l l' : Lease) (a : Attempt) (v : Option StateError)
      → answer_of (cas_acquire rfc l a).0 ≡ some v
      → (cas_acquire rfc l a).1 ≡ l'
      → AreAccepted rfc l a.views l' × (a.update ≡ v)
  unfolding cas_acquire
  cas_sound l l' a v e left =
      let (accepted, answer) = answered (claim_views rfc l a.views).0 a.update v e in
      (
        views_sound rfc a.views l l'
            (ap (λ h. (h, (claim_views rfc l a.views).1)) accepted ∙ ap (λ m. (none, m)) left),
        answer,
      )

  cas_complete :
      (l l' : Lease) (a : Attempt) (v : Option StateError)
      → AreAccepted rfc l a.views l'
      → a.update ≡ v
      → cas_acquire rfc l a ≡ (after_update rfc none v, l')
  unfolding cas_acquire
  cas_complete l l' a v accepted answer =
      ap (λ r. (after_update rfc r.0 a.update, r.1)) (views_complete rfc a.views l l' accepted)
      ∙ ap (λ u. (after_update rfc none u, l')) answer

  -- The attempt creates the resource, as if answered by none, or it is answered so.
  abbrev HasAnswer : Attempt → Option StateError → Lease → Lease → Type 0
  HasAnswer a v l l' =
      ((v ≡ none) × (a.get ≡ some not_found) × (a.create ≡ none) × (record l { epoch = 1 } ≡ l'))
      ⊎ HasUpdated a v l l'

  create_sound :
      (o : Option StateError) (l l' : Lease) (a : Attempt) (v : Option StateError)
      → a.get ≡ some not_found
      → a.create ≡ o
      → answer_of (create_or rfc o (record l { epoch = 1 }) a).0 ≡ some v
      → (create_or rfc o (record l { epoch = 1 }) a).1 ≡ l'
      → HasAnswer a v l l'
  unfolding create_or
  create_sound none l l' a v g c e left = inl (cc e, g, c, left)
  create_sound (some conflict) l l' a v g c e left =
      let (accepted, answer) = cas_sound (record l { epoch = 1 }) l' a v e left in
      inr (record l { epoch = 1 }, inr (g, c, refl), accepted, answer)
  create_sound (some not_found) l l' a v g c e left = absurd (cc e)
  create_sound (some unavailable) l l' a v g c e left = absurd (cc e)

  attempt_sound :
      (o : Option StateError) (l l' : Lease) (a : Attempt) (v : Option StateError)
      → a.get ≡ o
      → answer_of (attempt_on rfc o l a).0 ≡ some v
      → (attempt_on rfc o l a).1 ≡ l'
      → HasAnswer a v l l'
  unfolding attempt_on
  attempt_sound none l l' a v g e left =
      let (accepted, answer) = cas_sound l l' a v e left in inr (l, inl (g, refl), accepted, answer)
  attempt_sound (some not_found) l l' a v g e left = create_sound a.create l l' a v g refl e left
  attempt_sound (some conflict) l l' a v g e left = absurd (cc e)
  attempt_sound (some unavailable) l l' a v g e left = absurd (cc e)

  attempt_created :
      (l l' : Lease) (a : Attempt)
      → a.get ≡ some not_found
      → a.create ≡ none
      → record l { epoch = 1 } ≡ l'
      → attempt rfc l a ≡ (done (ok tt), l')
  unfolding attempt attempt_on create_or
  attempt_created l l' a g c s =
      ap (λ o. attempt_on rfc o l a) g
      ∙ ap (λ o. create_or rfc o (record l { epoch = 1 }) a) c
      ∙ ap (λ m. (done (ok tt), m)) s

  attempt_updated :
      (l l' : Lease) (a : Attempt) (v : Option StateError)
      → HasUpdated a v l l'
      → attempt rfc l a ≡ (after_update rfc none v, l')
  unfolding attempt attempt_on create_or
  attempt_updated l l' a v (from, inl (g, s), accepted, answer) =
      ap (λ o. attempt_on rfc o l a) g
      ∙ ap (λ m. cas_acquire rfc m a) s
      ∙ cas_complete from l' a v accepted answer
  attempt_updated l l' a v (from, inr (g, c, s), accepted, answer) =
      ap (λ o. attempt_on rfc o l a) g
      ∙ ap (λ o. create_or rfc o (record l { epoch = 1 }) a) c
      ∙ ap (λ m. cas_acquire rfc m a) s
      ∙ cas_complete from l' a v accepted answer

  -- What follows the first of some attempts.
  abbrev following : ℕ → (ℕ → Attempt) → Round × Lease → Result AcquireError (Unit {0}) × Lease
  following n script r = go_on rfc r.0 (λ l₁. attempts rfc n l₁ (λ i. script (suc i))) r.1

  following_sound :
      (round : Round) (l₀ l' : Lease) (n : ℕ) (script : ℕ → Attempt)
      → following n script (round, l₀) ≡ (ok tt, l')
      → ((answer_of round ≡ some none) × (l₀ ≡ l'))
        ⊎ ((answer_of round ≡ some (some not_found))
            × (attempts rfc n l₀ (λ i. script (suc i)) ≡ (ok tt, l')))
  unfolding go_on
  following_sound (done (ok u)) l₀ l' n script e = inl (refl, ap (λ r. r.1) e)
  following_sound (done (err k)) l₀ l' n script e = absurd (cc e)
  following_sound again l₀ l' n script e = inr (refl, e)

  attempts_sound :
      (n : ℕ) (l l' : Lease) (script : ℕ → Attempt)
      → attempts rfc n l script ≡ (ok tt, l')
      → HasAcquired n l script l'
  unfolding attempts attempt
  attempts_sound zero l l' script e = absurd (cc e)
  attempts_sound (suc n) l l' script e =
      let a = script zero in
      elim (following_sound (attempt rfc l a).0 (attempt rfc l a).1 l' n script e) [
        | inl (gained, left) ↦ elim (attempt_sound a.get l l' a none refl gained left) [
          | inl (v, g, c, s) ↦ inl (inl (g, c, s))
          | inr updated ↦ inl (inr updated)
        ]
        | inr (lost, later) ↦
            elim (attempt_sound a.get l (attempt rfc l a).1 a (some not_found) refl lost refl) [
              | inl (v, g, c, s) ↦ absurd (cc v)
              | inr updated ↦ inr (
                (attempt rfc l a).1,
                updated,
                attempts_sound n (attempt rfc l a).1 l' (λ i. script (suc i)) later,
              )
            ]
      ]

  attempts_complete :
      (n : ℕ) (l l' : Lease) (script : ℕ → Attempt)
      → HasAcquired n l script l'
      → attempts rfc n l script ≡ (ok tt, l')
  unfolding attempts after_update go_on
  attempts_complete zero l l' script h = absurd h
  attempts_complete (suc n) l l' script (inl (inl (g, c, s))) =
      ap (following n script) (attempt_created l l' (script zero) g c s)
  attempts_complete (suc n) l l' script (inl (inr updated)) =
      ap (following n script) (attempt_updated l l' (script zero) none updated)
  attempts_complete (suc n) l l' script (inr (l₁, updated, later)) =
      ap (following n script) (attempt_updated l l₁ (script zero) (some not_found) updated)
      ∙ attempts_complete n l₁ l' (λ i. script (suc i)) later

  -- An acquisition succeeds, and leaves `l'` in memory, exactly if one of three attempts gets the
  -- lease: it creates the resource, where none is found, under epoch 1, or its update succeeds after
  -- every view that the mutator saw was accepted by the rules of a claim, each from the memory that
  -- the one before it left. In each attempt before it, every view was accepted and the resource was
  -- gone when the update was written; the next attempt starts from the memory of that one.
  pub acquire_iff :
      (l l' : Lease) (script : ℕ → Attempt)
      → (acquire rfc l script ≡ (ok tt, l')) ↔ HasAcquired 3 l script l'
  unfolding acquire
  acquire_iff l l' script = (attempts_sound 3 l l' script, attempts_complete 3 l l' script)
