-- ===== src/Compat/WireIds.antt =====
-- `DeviceProfile::algorithm_wire_id` and `algorithm_from_wire_id`.
use libcanokey.Prelude.{
  ℕ, ◌==◌, ◌≡◌, refl, sym, ap, ◌∙◌, ◌↔◌, ◌⊎◌, inl, inr, Bool, true, false, ◌||◌, List, [], ◌∷◌,
  Option, none, some, if◌then◌else◌, arith, Bytes, Bool-cases, Option-cases, some-injective,
}
use mathlib.Core.Path.{subst}
use mathlib.Core.Bool.{true≢false}
use libcanokey.Error.{ok}
use libcanokey.Compat.Firmware.{bind}
use libcanokey.Compat.Algorithms.{
  Algorithm, rsa1024, rsa2048, rsa3072, rsa4096, ecc_p256, ecc_p384, ecc_p521, secp256k1, sm2,
  ed25519, x25519, ml_dsa65, ml_kem768, rank, get_id, is_fixed, parse_config, config_wire_id,
  AlgorithmConfig,
}
use libcanokey.Compat.Profile.{DeviceProfile}
use libcanokey.Compat.Keys.{
  extension_wire_id, fixed_extension_id, extended_wire_id, baseline_id, or_id, algorithm_wire_id,
  algorithm_from_wire_id, find_id, all_algorithms, is_id, is_2x, not_reserved,
}
use libcanokey.Compat.UniqueIds.{
  rank-injective, get_id-is_fixed, get_id-injective, parse_config-IsUnique,
}

abbrev of_fixed : ℕ → Algorithm
of_fixed n =
    if n == 0x22 || n == 0xe0
    then ed25519
    else if n == 0x50 || n == 0x05
    then rsa3072
    else if n == 0x51 || n == 0x16
    then rsa4096
    else if n == 0x52 || n == 0xe1
    then x25519
    else if n == 0x53
    then secp256k1
    else sm2

abbrev Known : Algorithm → ℕ → Type 0
Known a n = (a ≡ of_fixed n) × (is_fixed n ≡ false)

known : (x n : ℕ) (a : Algorithm) → Known a x → some x ≡ some n → Known a n
known x n a k e = subst (Known a) (some-injective e) k

fixed_extension_id-Known :
    (legacy : Bool) (a : Algorithm) (n : ℕ) → fixed_extension_id legacy a ≡ some n → Known a n
unfolding fixed_extension_id
fixed_extension_id-Known true ed25519 n e = known 0x22 n ed25519 (refl, refl) e
fixed_extension_id-Known false ed25519 n e = known 0xe0 n ed25519 (refl, refl) e
fixed_extension_id-Known true rsa3072 n e = known 0x50 n rsa3072 (refl, refl) e
fixed_extension_id-Known false rsa3072 n e = known 0x05 n rsa3072 (refl, refl) e
fixed_extension_id-Known true rsa4096 n e = known 0x51 n rsa4096 (refl, refl) e
fixed_extension_id-Known false rsa4096 n e = known 0x16 n rsa4096 (refl, refl) e
fixed_extension_id-Known true x25519 n e = known 0x52 n x25519 (refl, refl) e
fixed_extension_id-Known false x25519 n e = known 0xe1 n x25519 (refl, refl) e
fixed_extension_id-Known true secp256k1 n e = known 0x53 n secp256k1 (refl, refl) e
fixed_extension_id-Known false secp256k1 n e = cc
fixed_extension_id-Known true sm2 n e = known 0x54 n sm2 (refl, refl) e
fixed_extension_id-Known false sm2 n e = cc
fixed_extension_id-Known _ _ n e = cc

-- The configuration of a profile, if it has one, is one that `parse` accepted.
abbrev pub WellConfigured : Option AlgorithmConfig → Type 0
WellConfigured none = Unit
WellConfigured (some c) = (bytes : Bytes) × (parse_config bytes ≡ ok c)

-- The identifier of an extension is the one that the configuration gives.
not_reserved-eq : (modern : Bool) (id n : ℕ) → not_reserved modern id ≡ some n → id ≡ n
not_reserved-eq modern id n e = ground arith

config_wire_id-get_id :
    (c : AlgorithmConfig) (a : Algorithm) (n : ℕ)
    → config_wire_id c a ≡ some n
    → get_id a c.ids ≡ some n
unfolding config_wire_id
config_wire_id-get_id c a n e = ground arith

bind-eq-some {ℓ κ} :
    {A : Type ℓ} {B : Type κ} (o : Option A) (f : A → Option B) {b : B}
    → bind o f ≡ some b
    → (a : A) × (o ≡ some a) × (f a ≡ some b)
bind-eq-some none f e = cc
bind-eq-some (some a) f e = (a, refl, e)

extension_wire_id-get_id :
    (p : DeviceProfile) (c : AlgorithmConfig) (a : Algorithm) (n : ℕ)
    → p.config ≡ some c
    → extension_wire_id p a ≡ some n
    → get_id a c.ids ≡ some n
unfolding extension_wire_id
extension_wire_id-get_id p c a n has e =
    let (d, d_is, rest) = bind-eq-some p.config _ e in
    let (id, found, kept) = bind-eq-some (config_wire_id d a) _ rest in
    let same : d ≡ c = some-injective (sym d_is ∙ has) in
    subst (λ (d : AlgorithmConfig). get_id a d.ids ≡ some n) same
      (config_wire_id-get_id d a id found ∙ ap some (not_reserved-eq _ id n kept))

module _ (p : DeviceProfile) (configured_well : WellConfigured p.config) where
  extended_wire_id-is_fixed :
      (a : Algorithm) (n : ℕ) → extended_wire_id p a ≡ some n → is_fixed n ≡ false
  unfolding extended_wire_id
  extended_wire_id-is_fixed a n e = elim (Option-cases p.config) [
    | inl missing ↦ (fixed_extension_id-Known (is_2x p) a n (rw missing at e)).1
    | inr (c, has) ↦
        let (bytes, parsed) = subst WellConfigured has configured_well in
        get_id-is_fixed a c.ids n (parse_config-IsUnique bytes c parsed)
          (extension_wire_id-get_id p c a n has (by_config c has e))
  ]
    where
      by_config :
          (c : AlgorithmConfig)
          → p.config ≡ some c
          → extended_wire_id p a ≡ some n
          → extension_wire_id p a ≡ some n
      by_config c has e = ground (arith, has)

  extended_wire_id-injective :
      (a b : Algorithm) (n : ℕ)
      → extended_wire_id p a ≡ some n
      → extended_wire_id p b ≡ some n
      → a ≡ b
  unfolding extended_wire_id
  extended_wire_id-injective a b n e f = elim (Option-cases p.config) [
    | inl missing ↦
        (fixed_extension_id-Known (is_2x p) a n (rw missing at e)).0
        ∙ sym (fixed_extension_id-Known (is_2x p) b n (rw missing at f)).0
    | inr (c, has) ↦
        let (bytes, parsed) = subst WellConfigured has configured_well in
        get_id-injective a b c.ids n (parse_config-IsUnique bytes c parsed)
          (extension_wire_id-get_id p c a n has (by_config a c has e))
          (extension_wire_id-get_id p c b n has (by_config b c has f))
  ]
    where
      by_config :
          (a : Algorithm) (c : AlgorithmConfig)
          → p.config ≡ some c
          → extended_wire_id p a ≡ some n
          → extension_wire_id p a ≡ some n
      by_config a c has e = ground (arith, has)

  abbrev of_baseline : ℕ → Algorithm
  of_baseline n =
      if n == 0x06
      then rsa1024
      else if n == 0x07
      then rsa2048
      else if n == 0x11
      then ecc_p256
      else ecc_p384

  abbrev Baseline : Algorithm → ℕ → Type 0
  Baseline a n = (a ≡ of_baseline n) × (is_fixed n ≡ true)

  baseline : (x n : ℕ) (a : Algorithm) → Baseline a x → some x ≡ some n → Baseline a n
  baseline x n a k e = subst (Baseline a) (some-injective e) k

  baseline_id-Baseline : (a : Algorithm) (n : ℕ) → baseline_id a ≡ some n → Baseline a n
  baseline_id-Baseline rsa1024 n e = baseline 0x06 n rsa1024 (refl, refl) e
  baseline_id-Baseline rsa2048 n e = baseline 0x07 n rsa2048 (refl, refl) e
  baseline_id-Baseline ecc_p256 n e = baseline 0x11 n ecc_p256 (refl, refl) e
  baseline_id-Baseline ecc_p384 n e = baseline 0x14 n ecc_p384 (refl, refl) e
  baseline_id-Baseline _ n e = cc

  -- Where an identifier comes from.
  abbrev Source : Algorithm → ℕ → Type 0
  Source a n = (baseline_id a ≡ some n) ⊎ (extended_wire_id p a ≡ some n)

  wire-Source : (a : Algorithm) (n : ℕ) → algorithm_wire_id p a ≡ some n → Source a n
  unfolding algorithm_wire_id
  wire-Source a n e = which (baseline_id a) e
    where
      which :
          (o : Option ℕ)
          → or_id o (extended_wire_id p a) ≡ some n
          → (o ≡ some n) ⊎ (extended_wire_id p a ≡ some n)
      which (some m) h = inl h
      which none h = inr h

  algorithm_wire_id-injective :
      (a b : Algorithm) (n : ℕ)
      → algorithm_wire_id p a ≡ some n
      → algorithm_wire_id p b ≡ some n
      → a ≡ b
  algorithm_wire_id-injective a b n e f = compare_sources (wire-Source a n e) (wire-Source b n f)
    where
      compare_sources : Source a n → Source b n → a ≡ b
      compare_sources (inl x) (inl y) =
          (baseline_id-Baseline a n x).0 ∙ sym (baseline_id-Baseline b n y).0
      compare_sources (inl x) (inr y) =
          absurd (true≢false (sym (baseline_id-Baseline a n x).1 ∙ extended_wire_id-is_fixed b n y))
      compare_sources (inr x) (inl y) =
          absurd (true≢false (sym (baseline_id-Baseline b n y).1 ∙ extended_wire_id-is_fixed a n x))
      compare_sources (inr x) (inr y) = extended_wire_id-injective a b n x y

find_id_sound :
    (wire : Algorithm → Option ℕ) (id : ℕ) (l : List Algorithm) (a : Algorithm)
    → find_id wire id l ≡ some a
    → wire a ≡ some id
unfolding find_id
find_id_sound wire id [] a e = cc
find_id_sound wire id (b ∷ l) a e = elim (Bool-cases (is_id (wire b) id)) [
  | inl hit ↦ ap wire (some-injective (sym (rw hit at e))) ∙ right_id (wire b) hit
  | inr miss ↦ find_id_sound wire id l a (rw miss at e)
]
  where
    right_id : (o : Option ℕ) → is_id o id ≡ true → o ≡ some id
    right_id none h = cc
    right_id (some n) h = ap some (ground (arith, h))

abbrev contains : Algorithm → List Algorithm → Bool
contains a [] = false
contains a (b ∷ l) = rank a == rank b || contains a l

find_id_complete :
    (wire : Algorithm → Option ℕ) (id : ℕ) (l : List Algorithm) (a : Algorithm)
    → contains a l ≡ true
    → wire a ≡ some id
    → (b : Algorithm) × (find_id wire id l ≡ some b)
unfolding find_id
find_id_complete wire id [] a h e = cc
find_id_complete wire id (b ∷ l) a h e = elim (Bool-cases (is_id (wire b) id)) [
  | inl hit ↦ (b, rw hit refl)
  | inr miss ↦
      let elsewhere : (rank a == rank b) ≡ false = not_here miss in
      let (c, found) = find_id_complete wire id l a (rw elsewhere at h) e in (c, rw miss found)
]
  where
    same_id : (o : Option ℕ) → o ≡ some id → is_id o id ≡ true
    same_id none h = cc
    same_id (some n) h = ground (arith, some-injective h)

    not_here : is_id (wire b) id ≡ false → (rank a == rank b) ≡ false
    not_here miss = elim (Bool-cases (rank a == rank b)) [
      | inl same ↦
          let a_b : a ≡ b = rank-injective a b (ground arith) in
          absurd (true≢false (sym (same_id (wire b) (ap wire (sym a_b) ∙ e)) ∙ miss))
      | inr other ↦ other
    ]

contains_all : (a : Algorithm) → contains a all_algorithms ≡ true
contains_all rsa1024 = refl
contains_all rsa2048 = refl
contains_all rsa3072 = refl
contains_all rsa4096 = refl
contains_all ecc_p256 = refl
contains_all ecc_p384 = refl
contains_all ecc_p521 = refl
contains_all secp256k1 = refl
contains_all sm2 = refl
contains_all ed25519 = refl
contains_all x25519 = refl
contains_all ml_dsa65 = refl
contains_all ml_kem768 = refl

-- In a profile whose configuration, if it has one, was accepted by `AlgorithmConfig::parse`, a wire
-- identifier is resolved to an algorithm exactly if that algorithm is sent as this identifier: no
-- two algorithms share one, whatever the firmware and the configuration are.
pub wire_ids_inverse :
    (p : DeviceProfile) (a : Algorithm) (id : ℕ)
    → WellConfigured p.config
    → (algorithm_from_wire_id p id ≡ some a) ↔ (algorithm_wire_id p a ≡ some id)
unfolding algorithm_from_wire_id
wire_ids_inverse p a id w = (
  λ e. find_id_sound (algorithm_wire_id p) id all_algorithms a e,
  λ e.
      let (b, found) =
        find_id_complete (algorithm_wire_id p) id all_algorithms a (contains_all a) e in
      found
      ∙ ap some (
          algorithm_wire_id-injective p w b a id
            (find_id_sound (algorithm_wire_id p) id all_algorithms b found) e),
)
