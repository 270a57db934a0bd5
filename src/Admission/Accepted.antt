-- ===== src/Admission/Accepted.antt =====
-- What checks accept one after the other, and which images the validator accepts.
use openstack_controller.Common.{
  leb, ◌==◌, if◌then◌else◌, length, count, all, contains, Dict, ℕ, suc, ◌+◌, String, ◌≡◌, refl, ap,
  ◌∙◌, Bool, true, false, not, ◌&&◌, ◌||◌, Option, none, some, List, [], ◌∷◌, arith, nat_eq,
  string_eq,
}
use openstack_controller.Admission.Storage.{
  Checked, SectionRefusal, ImageBackend, Glance, has_name, check_file_backend, refuse_on,
  check_each, check_cinder_backend, then_check, check_defaults, is_ill_named, all_backends,
  validate_glance_backends, of_type, is_empty_list,
}

abbrev pub accepted : Checked → Bool
accepted none = true
accepted (some r) = false

accepted-then_check : (a b : Checked) → accepted (then_check a b) ≡ (accepted a && accepted b)
accepted-then_check none b = refl
accepted-then_check (some r) b = refl

pub accepted-refuse_on : (b : Bool) (r : SectionRefusal) → accepted (refuse_on b r) ≡ not b
accepted-refuse_on true r = refl
accepted-refuse_on false r = refl

-- Two checks one after the other, and what each accepts.
pub both_accepted :
    (a b : Checked) (p q : Bool)
    → accepted a ≡ p
    → accepted b ≡ q
    → accepted (then_check a b) ≡ (p && q)
both_accepted a b p q e f =
    accepted-then_check a b ∙ ap (λ x. x && accepted b) e ∙ ap (λ x. p && x) f

pub accepted-check_each {ℓ} :
    {A : Type ℓ} (check : A → Checked) (is_valid : A → Bool) (l : List A)
    → ((a : A) → accepted (check a) ≡ is_valid a)
    → accepted (check_each check l) ≡ all is_valid l
unfolding check_each
accepted-check_each check is_valid [] h = refl
accepted-check_each check is_valid (a ∷ rest) h =
    both_accepted (check a) (check_each check rest) _ _ (h a)
      (accepted-check_each check is_valid rest h)

-- Exactly one of the two is set, and the name has its two parts.
abbrev pub is_cinder_backend : ImageBackend → Bool
is_cinder_backend opts =
    not (
      (opts.has_cinder_volume_type && has_name opts)
      || (not opts.has_cinder_volume_type && not (has_name opts)))
    && not (is_ill_named opts)

abbrev pub is_file_backend : ImageBackend → Bool
is_file_backend opts = elim opts.pvc [
  | none ↦ false
  | some keys_of ↦ contains keys_of "storage_class_name" && contains keys_of "size"
]

check_cinder_backend-accepted :
    (opts : ImageBackend) → accepted (check_cinder_backend opts) ≡ is_cinder_backend opts
unfolding check_cinder_backend
check_cinder_backend-accepted opts =
    both_accepted _ _ _ _ (accepted-refuse_on _ _) (accepted-refuse_on (is_ill_named opts) _)

check_file_backend-accepted :
    (opts : ImageBackend) → accepted (check_file_backend opts) ≡ is_file_backend opts
unfolding check_file_backend
check_file_backend-accepted opts = keyed opts.pvc
  where
    not_not : (b : Bool) → not (not b) ≡ b
    not_not true = refl
    not_not false = refl

    keyed :
        (pvc : Option (List String))
        → accepted (elim pvc [
          | none ↦ some SectionRefusal.pvc_missing
          | some k ↦
              refuse_on
                (not (contains k "storage_class_name" && contains k "size"))
                SectionRefusal.pvc_keys_missing
        ])
          ≡ (elim pvc [
            | none ↦ false
            | some k ↦ contains k "storage_class_name" && contains k "size"
          ])
    keyed none = refl
    keyed (some k) =
        accepted-refuse_on (not (contains k "storage_class_name" && contains k "size")) _
        ∙ not_not (contains k "storage_class_name" && contains k "size")

abbrev one : Bool → ℕ
one true = 1
one false = 0

-- The loop finds that one backend is the default.
check_defaults-accepted :
    (seen : Bool) (backends : List ImageBackend)
    → accepted (check_defaults seen backends) ≡ (one seen + count (λ b. b.is_default) backends == 1)
unfolding check_defaults
check_defaults-accepted true [] = refl
check_defaults-accepted false [] = refl
check_defaults-accepted false (opts ∷ rest) =
    check_defaults-accepted opts.is_default rest
    ∙ ap (λ n. n == 1) (shifted opts.is_default (count (λ b. b.is_default) rest))
  where
    shifted : (b : Bool) (n : ℕ) → one b + n ≡ 0 + ((if b then 1 else 0) + n)
    shifted true n = omega arith
    shifted false n = omega arith
check_defaults-accepted true (opts ∷ rest) =
    second opts.is_default (count (λ b. b.is_default) rest) (check_defaults-accepted true rest)
  where
    second :
        (b : Bool) (n : ℕ)
        → accepted (check_defaults true rest) ≡ (1 + n == 1)
        → accepted (then_check (refuse_on b SectionRefusal.two_defaults) (check_defaults true rest))
          ≡ (1 + ((if b then 1 else 0) + n) == 1)
    second true n e = ground arith
    second false n e = e ∙ ap (λ m. m == 1) (same n)
      where
        same : (n : ℕ) → 1 + n ≡ 1 + (0 + n)
        same n = omega arith

-- One default in all, well-formed backends of volumes, and at most one well-formed file backend.
abbrev pub are_image_backends : Dict (Dict ImageBackend) → Bool
are_image_backends backends =
    all is_cinder_backend (of_type "cinder" backends)
    && ((count (λ b. b.is_default) (all_backends backends) == 1)
        && (not (leb 2 (length (of_type "file" backends)))
            && all is_file_backend (of_type "file" backends)))

abbrev pub is_glance : Glance → Bool
is_glance glance =
    not (glance.certificate_validation_on && not glance.signature_enabled)
    && ((length (all_backends glance.backends) == 0) || are_image_backends glance.backends)

pub validate_glance_backends-accepted :
    (backends : Dict (Dict ImageBackend))
    → accepted (validate_glance_backends backends)
      ≡ ((length (all_backends backends) == 0) || are_image_backends backends)
unfolding validate_glance_backends
validate_glance_backends-accepted backends =
    some_backends (all_backends backends)
      (then_check (check_each check_cinder_backend (of_type "cinder" backends)) (
        then_check (check_defaults false (all_backends backends)) (
          then_check
            (refuse_on (leb 2 (length (of_type "file" backends))) SectionRefusal.two_file_backends)
            (check_each check_file_backend (of_type "file" backends)))))
      (both_accepted _ _ _ _
        (accepted-check_each check_cinder_backend is_cinder_backend (of_type "cinder" backends)
          check_cinder_backend-accepted)
        (both_accepted _ _ _ _
          (check_defaults-accepted false (all_backends backends)
            ∙ ap (λ n. n == 1) (zero_first (count (λ b. b.is_default) (all_backends backends))))
          (both_accepted _ _ _ _ (accepted-refuse_on _ _) (
            accepted-check_each check_file_backend is_file_backend (of_type "file" backends)
              check_file_backend-accepted))))
  where
    zero_first : (n : ℕ) → one false + n ≡ n
    zero_first n = omega arith

    some_backends :
        (found : List ImageBackend) (checks : Checked) {valid : Bool}
        → accepted checks ≡ valid
        → accepted (if is_empty_list found then none else checks) ≡ ((length found == 0) || valid)
    some_backends [] checks h = refl
    some_backends (b ∷ found) checks {valid} h = h ∙ nonempty (length found) valid
      where
        nonempty : (n : ℕ) (valid : Bool) → valid ≡ ((suc n == 0) || valid)
        nonempty n valid = ground arith
