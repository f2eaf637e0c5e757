-- ===== src/Rotation/Candidate/Sorting.antt =====
-- `sortRequestsByCreatedAt`: an insertion sort by creation time, ties broken by ID.
use mathlib.Core.List.{Perm, reverse, perm_middle, reverse_perm, append-nil, reverse-reverse}
use mathlib.Core.List.Perm
use omni_infra_provider_true.Base.{
  ◌≡◌, inl, inr, subst, Bool, true, false, not, ◌&&◌, ◌||◌, List, [], ◌∷◌, ◌++◌, arith,
  if◌then◌else◌, Bool-cases,
}
use omni_infra_provider_true.Clock.{time_before}
use omni_infra_provider_true.Text.{codes}
use omni_infra_provider_true.Text.Order.{text_leb, text_leb_total}
use omni_infra_provider_true.Rotation.Candidate.{RequestStatus}

-- The two `break`s of the inner loop: the left one may stay before the right one.
unfoldable pub in_order : RequestStatus → RequestStatus → Bool
in_order p x =
    time_before p.created_at x.created_at
    || (not (time_before x.created_at p.created_at)
        && text_leb (codes p.request.id) (codes x.request.id))

-- The inner loop: an element moves left past those that it precedes. The sorted part is listed from
-- the right end.
unfoldable pub sift : RequestStatus → List RequestStatus → List RequestStatus
sift x [] = x ∷ []
sift x (p ∷ ps) = let moved = p ∷ sift x ps in if in_order p x then x ∷ p ∷ ps else moved

-- The outer loop.
unfoldable pub insert_all : List RequestStatus → List RequestStatus → List RequestStatus
unfolding sift
insert_all sorted [] = sorted
insert_all sorted (x ∷ xs) = insert_all (sift x sorted) xs

unfoldable pub sort_requests_by_created_at : List RequestStatus → List RequestStatus
unfolding insert_all
sort_requests_by_created_at reqs = reverse (insert_all [] reqs)

in_order_total : (p x : RequestStatus) → in_order p x ≡ false → in_order x p ≡ true
unfolding in_order
in_order_total p x h = ground (arith, text_leb_total (codes p.request.id) (codes x.request.id))

-- From the right end, each element may follow the next one.
abbrev Below : RequestStatus → List RequestStatus → Type 0
Below x [] = Unit {0}
Below x (p ∷ ps) = in_order p x ≡ true

abbrev IsFalling : List RequestStatus → Type 0
IsFalling [] = Unit {0}
IsFalling (x ∷ xs) = Below x xs × IsFalling xs

Below-sift :
    (q x : RequestStatus) (ps : List RequestStatus)
    → in_order x q ≡ true
    → Below q ps
    → Below q (sift x ps)
unfolding sift
Below-sift q x [] h b = h
Below-sift q x (p ∷ ps) h b = elim (Bool-cases (in_order p x)) [ inl e ↦ rw e h | inr e ↦ rw e b ]

sift-IsFalling :
    (x : RequestStatus) (ps : List RequestStatus) → IsFalling ps → IsFalling (sift x ps)
unfolding sift
sift-IsFalling x [] h = (tt, tt)
sift-IsFalling x (p ∷ ps) h = elim (Bool-cases (in_order p x)) [
  | inl e ↦ rw e (e, h)
  | inr e ↦ rw e (Below-sift p x ps (in_order_total p x e) h.0, sift-IsFalling x ps h.1)
]

insert_all-IsFalling : (ps xs : List RequestStatus) → IsFalling ps → IsFalling (insert_all ps xs)
unfolding insert_all
insert_all-IsFalling ps [] h = h
insert_all-IsFalling ps (x ∷ xs) h = insert_all-IsFalling (sift x ps) xs (sift-IsFalling x ps h)

sift-perm : (x : RequestStatus) (ps : List RequestStatus) → Perm (sift x ps) (x ∷ ps)
unfolding sift
sift-perm x [] = Perm.refl (x ∷ [])
sift-perm x (p ∷ ps) = elim (Bool-cases (in_order p x)) [
  | inl e ↦ rw e (Perm.refl (x ∷ p ∷ ps))
  | inr e ↦ rw e (Perm.trans (Perm.cons p (sift-perm x ps)) (Perm.swap x p ps))
]

insert_all-perm : (ps xs : List RequestStatus) → Perm (insert_all ps xs) (xs ++ ps)
unfolding insert_all
insert_all-perm ps [] = Perm.refl ps
insert_all-perm ps (x ∷ xs) =
    Perm.trans (insert_all-perm (sift x ps) xs)
      (Perm.trans (Perm.append_left xs (sift-perm x ps)) (perm_middle xs ps))

-- No listed request may be put left of another one that follows it: neighbours stand in order.
abbrev pub IsSorted : List RequestStatus → Type 0
IsSorted reqs = IsFalling (reverse reqs)

-- Whatever order the state client lists the requests in, sorting keeps every one of them, and leaves
-- neighbours in order by creation time, then by ID.
pub sort_requests_by_created_at-IsSorted :
    (reqs : List RequestStatus)
    → Perm (sort_requests_by_created_at reqs) reqs × IsSorted (sort_requests_by_created_at reqs)
unfolding sort_requests_by_created_at
sort_requests_by_created_at-IsSorted reqs = (
  Perm.trans (reverse_perm (insert_all [] reqs))
      (subst (λ ys. Perm (insert_all [] reqs) ys) (append-nil reqs) (insert_all-perm [] reqs)),
  rw (reverse-reverse (insert_all [] reqs)) (insert_all-IsFalling [] reqs tt),
)
