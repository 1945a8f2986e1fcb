-- ===== src/Dns/Domain/Validators.antt =====
-- The validators of src/modules/dns/mod.rs agree, and their result is a normal form.
use shield_ghita.Prelude.{
  ◌≡◌, refl, ◌↔◌, Bool, true, not, ◌&&◌, List, [], ◌∷◌, arith, Bytes, nat_eq, bytes_eq, leb, length,
  is_empty, all,
}
use shield_ghita.Text.{dot, split}
use shield_ghita.Dns.Domain.{
  ok, is_label_byte, check_labels, normalize, validate_normalized, validate_domain,
  is_safe_blocklist_domain,
}

abbrev is_label : Bytes → Bool
is_label label = not (is_empty label) && leb (length label) 63 && all is_label_byte label

check_labels-ok :
    (d : Bytes) (labels : List Bytes) → all is_label labels ≡ true → check_labels d labels ≡ ok d
unfolding check_labels
check_labels-ok d [] h = refl
check_labels-ok d (l ∷ ls) h = ground (arith, check_labels-ok d ls)

check_labels-inv :
    (d e : Bytes) (labels : List Bytes)
    → check_labels d labels ≡ ok e
    → (all is_label labels ≡ true) × (e ≡ d)
unfolding check_labels
check_labels-inv d e [] h = ground arith
check_labels-inv d e (l ∷ ls) h = ground (arith, check_labels-inv d e ls)

validate_normalized-ok :
    (d : Bytes) → is_safe_blocklist_domain d ≡ true → validate_normalized d ≡ ok d
unfolding validate_normalized is_safe_blocklist_domain
validate_normalized-ok d h = ground (arith, check_labels-ok d (split dot d))

validate_normalized-inv :
    (d e : Bytes) → validate_normalized d ≡ ok e → (e ≡ d) × (is_safe_blocklist_domain d ≡ true)
unfolding validate_normalized is_safe_blocklist_domain
validate_normalized-inv d e h = ground (arith, check_labels-inv d e (split dot d))

-- The validator of custom rules accepts a text exactly if its normal form passes the check on feed
-- entries, and then returns that normal form.
pub validate_domain-is_safe :
    (s d : Bytes)
    → (validate_domain s ≡ ok d) ↔ ((d ≡ normalize s) × (is_safe_blocklist_domain d ≡ true))
validate_domain-is_safe s d = (there, back)
  where
    there : validate_domain s ≡ ok d → (d ≡ normalize s) × (is_safe_blocklist_domain d ≡ true)
    there h =
        let (e, safe) = validate_normalized-inv (normalize s) d (unfold validate_domain in h) in
        (e, rw e safe)

    back : (d ≡ normalize s) × (is_safe_blocklist_domain d ≡ true) → validate_domain s ≡ ok d
    back (e, safe) =
        rw e (unfold validate_domain in validate_normalized-ok (normalize s) (rw e at safe))
