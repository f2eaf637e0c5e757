-- ===== src/Autoscaler/Capacity.antt =====
-- internal/autoscaler/capacity.go: the capacity gate. The answers of TrueNAS are inputs.
use omni_infra_provider_true.Base.{
  ℕ, ◌-◌, ◌*◌, ◌%◌, ◌<◌, ◌≡◌, ◌↔◌, ◌⊎◌, refl, Bool, true, false, List, [], ◌∷◌, ltb, ◌==◌,
  if◌then◌else◌, arith, Bool-cases, inl, inr, ◌++◌, ap, ◌∙◌,
}
use omni_infra_provider_true.Base.Int.{ℤ, pos, negsuc, leb_ℤ, ◌≤ℤ◌, int64_bound, u64_mod}
use omni_infra_provider_true.Base.Result.{Result, ok, err}
use omni_infra_provider_true.Text.{Text}
use omni_infra_provider_true.Autoscaler.Annotations.{Config, CapacityGate, hard, soft}

pub data Outcome : Type 0 where
  allowed denied_hard warned_soft errored : Outcome

-- What the texts of `Decision.Reason` say.
pub data Reason : Type 0 where
  pool_below host_below : ℤ → ℕ → Reason
  pool_query_failed host_query_failed : Text → Reason

pub record Decision : Type 0 where
  pub outcome : Outcome
  pub reasons : List Reason

-- `Decision.Allowed`.
unfoldable pub is_allowed : Outcome → Bool
is_allowed allowed = true
is_allowed warned_soft = true
is_allowed denied_hard = false
is_allowed errored = false

-- The answers to the two queries: free bytes as an int64, or an error's text.
pub record CapacityAnswers : Type 0 where
  pub pool_free : Result Text ℤ
  pub host_free : Result Text ℤ

abbrev pub bytes_per_gib : ℕ
bytes_per_gib = 1073741824

-- A product on int64, which wraps around.
unfoldable pub wrap_int64 : ℕ → ℤ
wrap_int64 n = let r = n % u64_mod in if ltb r int64_bound then pos r else negsuc (u64_mod - 1 - r)

-- A check: a failed query, or the reason where there is less than the threshold.
check : (ℤ → ℕ → Reason) → (Text → Reason) → ℕ → Result Text ℤ → Result Reason (List Reason)
unfolding wrap_int64
check below failed threshold (err e) = err (failed e)
check below failed threshold (ok free) =
    if leb_ℤ (wrap_int64 (threshold * bytes_per_gib)) free
    then ok []
    else ok (below free threshold ∷ [])

-- `checkPool` and `checkHostMem`, each behind its test for a threshold that is not 0.
unfoldable pub check_pool : ℕ → Result Text ℤ → Result Reason (List Reason)
unfolding check
check_pool threshold answer =
    if threshold == 0 then ok [] else check pool_below pool_query_failed threshold answer

unfoldable pub check_host_mem : ℕ → Result Text ℤ → Result Reason (List Reason)
unfolding check
check_host_mem threshold answer =
    if threshold == 0 then ok [] else check host_below host_query_failed threshold answer

gate_outcome : CapacityGate → Outcome
gate_outcome soft = warned_soft
gate_outcome hard = denied_hard

unfoldable pub judge :
    CapacityGate → Result Reason (List Reason) → Result Reason (List Reason) → Decision
unfolding gate_outcome
judge gate (err r) host = record { outcome = errored; reasons = r ∷ [] }
judge gate (ok rs) (err r) = record { outcome = errored; reasons = r ∷ [] }
judge gate (ok []) (ok []) = record { outcome = allowed; reasons = [] }
judge gate (ok []) (ok (r ∷ rs)) = record { outcome = gate_outcome gate; reasons = r ∷ rs }
judge gate (ok (r ∷ rs)) (ok rs') = record { outcome = gate_outcome gate; reasons = r ∷ rs ++ rs' }

unfoldable pub check_capacity : CapacityAnswers → Config → Decision
unfolding judge check_pool check_host_mem
check_capacity answers cfg =
    judge cfg.capacity_gate (check_pool cfg.min_pool_free_gib answers.pool_free)
      (check_host_mem cfg.min_host_mem_gib answers.host_free)

-- A dimension has room: it is not checked, or the query succeeded with at least the threshold.
abbrev pub HasRoom : ℕ → Result Text ℤ → Type 0
HasRoom threshold answer =
    (threshold ≡ 0) ⊎ ((free : ℤ) × (answer ≡ ok free) × (pos (threshold * bytes_per_gib) ≤ℤ free))

wrap_small : (t : ℕ) → t < 8589934592 → wrap_int64 (t * bytes_per_gib) ≡ pos (t * bytes_per_gib)
unfolding wrap_int64
wrap_small t h = ground arith

check_room :
    (below : ℤ → ℕ → Reason) (failed : Text → Reason) (t : ℕ) (answer : Result Text ℤ)
    → t < 8589934592
    → (if t == 0 then ok [] else check below failed t answer) ≡ ok []
    → HasRoom t answer
unfolding check
check_room below failed t (err e) small h = ground arith
check_room below failed t (ok free) small h = elim (Bool-cases (t == 0)) [
  | inl z ↦ inl (ground arith)
  | inr nz ↦ inr (free, refl, ground (arith, wrap_small t small))
]

room_check :
    (below : ℤ → ℕ → Reason) (failed : Text → Reason) (t : ℕ) (answer : Result Text ℤ)
    → t < 8589934592
    → HasRoom t answer
    → (if t == 0 then ok [] else check below failed t answer) ≡ ok []
unfolding check
room_check below failed t answer small (inl z) = ground arith
room_check below failed t answer small (inr (free, e, enough)) =
    ground (arith, wrap_small t small, e)

judge_allowed :
    (p h : Result Reason (List Reason)) (gate : CapacityGate)
    → (judge gate p h).outcome ≡ allowed
    → (p ≡ ok []) × (h ≡ ok [])
unfolding judge
judge_allowed (err r) h gate e = absurd (ground arith)
judge_allowed (ok rs) (err r) gate e = absurd (ground arith)
judge_allowed (ok []) (ok []) gate e = (refl, refl)
judge_allowed (ok []) (ok (r ∷ rs)) hard e = absurd (ground arith)
judge_allowed (ok []) (ok (r ∷ rs)) soft e = absurd (ground arith)
judge_allowed (ok (r ∷ rs)) (ok rs') hard e = absurd (ground arith)
judge_allowed (ok (r ∷ rs)) (ok rs') soft e = absurd (ground arith)

allowed_of :
    {p h : Result Reason (List Reason)} (gate : CapacityGate)
    → p ≡ ok []
    → h ≡ ok []
    → (judge gate p h).outcome ≡ allowed
unfolding judge
allowed_of gate e k = rw e (rw k refl)

-- With thresholds below 2 ^ 33 GiB, above which the bytes wrap around on int64, the gate's outcome
-- is "allowed" exactly when each of the two dimensions is unchecked, or was queried with success and
-- has at least its threshold free.
pub check_capacity-allowed_iff :
    (answers : CapacityAnswers) (cfg : Config)
    → cfg.min_pool_free_gib < 8589934592
    → cfg.min_host_mem_gib < 8589934592
    → ((check_capacity answers cfg).outcome ≡ allowed) ↔ (
        HasRoom cfg.min_pool_free_gib answers.pool_free
        × HasRoom cfg.min_host_mem_gib answers.host_free)
unfolding check_capacity check_pool check_host_mem
check_capacity-allowed_iff answers cfg pool_small host_small = (
  λ e.
      let (p, h) =
        judge_allowed (check_pool cfg.min_pool_free_gib answers.pool_free)
          (check_host_mem cfg.min_host_mem_gib answers.host_free) cfg.capacity_gate e in
      (
        check_room pool_below pool_query_failed cfg.min_pool_free_gib answers.pool_free pool_small
            p,
        check_room host_below host_query_failed cfg.min_host_mem_gib answers.host_free host_small h,
      ),
  λ m.
      allowed_of cfg.capacity_gate
        (room_check pool_below pool_query_failed cfg.min_pool_free_gib answers.pool_free pool_small
          m.0)
        (room_check host_below host_query_failed cfg.min_host_mem_gib answers.host_free host_small
          m.1),
)

-- A dimension is checked, and its query fails.
abbrev pub HasFailed : ℕ → Result Text ℤ → Type 0
HasFailed threshold answer = (0 < threshold) × ((e : Text) × (answer ≡ err e))

failed_check :
    (below : ℤ → ℕ → Reason) (failed : Text → Reason) (t : ℕ) (answer : Result Text ℤ)
    → HasFailed t answer
    → (r : Reason) × ((if t == 0 then ok [] else check below failed t answer) ≡ err r)
unfolding check
failed_check below failed t answer (p, (e, q)) = (failed e, ground arith)

errored_right :
    (p : Result Reason (List Reason)) (r : Reason) (gate : CapacityGate)
    → (judge gate p (err r)).outcome ≡ errored
unfolding judge
errored_right (ok rs) r gate = refl
errored_right (err k) r gate = refl

-- Whenever a query that the configuration asks for fails, under either gate and whatever the other
-- query answers, the outcome is "errored", which does not let the scale-up proceed.
pub check_capacity-fails_closed :
    (answers : CapacityAnswers) (cfg : Config)
    → HasFailed cfg.min_pool_free_gib answers.pool_free
      ⊎ HasFailed cfg.min_host_mem_gib answers.host_free
    → ((check_capacity answers cfg).outcome ≡ errored)
      × (is_allowed (check_capacity answers cfg).outcome ≡ false)
unfolding check_capacity check_pool check_host_mem is_allowed
check_capacity-fails_closed answers cfg (inl f) =
    let (r, e) =
      failed_check pool_below pool_query_failed cfg.min_pool_free_gib answers.pool_free f in
    rw e (unfold judge in (refl, refl))
check_capacity-fails_closed answers cfg (inr f) =
    let (r, e) =
      failed_check host_below host_query_failed cfg.min_host_mem_gib answers.host_free f in
    let same =
      ap
        (λ h.
          (judge cfg.capacity_gate (check_pool cfg.min_pool_free_gib answers.pool_free) h).outcome)
        e
      ∙ errored_right (check_pool cfg.min_pool_free_gib answers.pool_free) r cfg.capacity_gate in
    (same, ap is_allowed same)
