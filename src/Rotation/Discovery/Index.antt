-- ===== src/Rotation/Discovery/Index.antt =====
-- What stands in the index of the classes that have opted in.
use omni_infra_provider_true.Base.{
  ◌≡◌, subst, inl, inr, refl, true, false, List, [], ◌∷◌, Option, none, some, String, str_eq, All,
  Bool-cases,
}
use omni_infra_provider_true.Base.Result.{Result, ok, err}
use omni_infra_provider_true.Text.{Text, codes, text_eq}
use omni_infra_provider_true.Omni.{MachineClass}
use omni_infra_provider_true.Rotation.Annotations.{
  Config, ConfigError, parse_machine_class_rotation_config,
}
use omni_infra_provider_true.Rotation.Generation.{Digest, generation_from_machine_class}
use omni_infra_provider_true.Rotation.Discovery.{
  OptedIn, opted_generation, opted_config, opt_in, prepend, index_classes, find_class,
}

-- An entry of the index is a class that opted in, under its policy and its hash.
pub record IsOptedIn (digest : Digest) (o : OptedIn) : Type 0 where
  pub parsed : parse_machine_class_rotation_config o.machine_class.annotations ≡ ok (some o.config)
  pub hashed : generation_from_machine_class digest o.machine_class ≡ ok o.generation
  pub provisions : text_eq o.generation (codes "") ≡ false

pub All-prepend {ℓ κ} :
    {A : Type ℓ} (P : A → Type κ) (o : Option A) (xs : List A)
    → ((x : A) → o ≡ some x → P x)
    → All P xs
    → All P (prepend o xs)
unfolding prepend
All-prepend P none xs h all = all
All-prepend P (some x) xs h all = (h x refl, all)

pub some_inj {ℓ} : {A : Type ℓ} (x y : A) → some x ≡ some y → x ≡ y
some_inj x y h = cc h

module _ (digest : Digest) where
  hashed-IsOptedIn :
      (mc : MachineClass) (cfg : Config) (g : Result Text Text) (o : OptedIn)
      → parse_machine_class_rotation_config mc.annotations ≡ ok (some cfg)
      → generation_from_machine_class digest mc ≡ g
      → opted_generation mc cfg g ≡ some o
      → IsOptedIn digest o
  unfolding opted_generation
  hashed-IsOptedIn mc cfg (err e) o p q h = absurd (cc h)
  hashed-IsOptedIn mc cfg (ok gen) o p q h = elim (Bool-cases (text_eq gen (codes ""))) [
    | inl e ↦ absurd (cc (rw e at h))
    | inr e ↦
        let same = some_inj _ o (rw e at h) in
        subst (IsOptedIn digest) same (record { parsed = p; hashed = q; provisions = e })
  ]

  opted_config-IsOptedIn :
      (mc : MachineClass) (r : Result ConfigError (Option Config)) (o : OptedIn)
      → parse_machine_class_rotation_config mc.annotations ≡ r
      → opted_config digest mc r ≡ some o
      → IsOptedIn digest o
  unfolding opted_config
  opted_config-IsOptedIn mc (err e) o p h = absurd (cc h)
  opted_config-IsOptedIn mc (ok none) o p h = absurd (cc h)
  opted_config-IsOptedIn mc (ok (some cfg)) o p h =
      hashed-IsOptedIn mc cfg (generation_from_machine_class digest mc) o p refl h

  pub index_classes-IsOptedIn :
      (index : List OptedIn) (mcs : List MachineClass)
      → All (IsOptedIn digest) index
      → All (IsOptedIn digest) (index_classes digest index mcs)
  unfolding index_classes opt_in
  index_classes-IsOptedIn index [] all = all
  index_classes-IsOptedIn index (mc ∷ mcs) all =
      index_classes-IsOptedIn (prepend (opt_in digest mc) index) mcs (
        All-prepend (IsOptedIn digest) (opt_in digest mc) index
          (λ o.
            opted_config-IsOptedIn mc (parse_machine_class_rotation_config mc.annotations) o refl)
          all)

  pub find_class-IsOptedIn :
      (name : String) (index : List OptedIn) (o : OptedIn)
      → All (IsOptedIn digest) index
      → find_class name index ≡ some o
      → IsOptedIn digest o × (str_eq o.machine_class.id name ≡ true)
  unfolding find_class
  find_class-IsOptedIn name [] o all h = absurd (cc h)
  find_class-IsOptedIn name (x ∷ xs) o all h = elim (Bool-cases (str_eq x.machine_class.id name)) [
    | inl e ↦
        let same = some_inj x o (rw e at h) in
        subst (λ y. IsOptedIn digest y × (str_eq y.machine_class.id name ≡ true)) same (all.0, e)
    | inr e ↦ find_class-IsOptedIn name xs o all.1 (rw e at h)
  ]
