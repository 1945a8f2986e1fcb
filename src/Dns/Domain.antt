-- ===== src/Dns/Domain.antt =====
-- Domain names of src/modules/dns/mod.rs: the validators, and the walk over a name's parents.
pub mod Parents
pub mod Hierarchy
pub mod Minimal
pub mod Validators
use shield_ghita.Prelude.{
  ℕ, ◌≡◌, refl, Bool, true, false, not, ◌&&◌, ◌||◌, List, [], ◌∷◌, Bytes, ◌==◌, nat_eq, bytes_eq,
  ltb, leb, if◌then◌else◌, length, is_empty, any, all, contains,
}
use shield_ghita.Text.{
  codes, dot, to_lowercase, is_dot, trim, trim_end_matches, split, contains_byte, is_alphanumeric,
}

abbrev pub public_suffixes : List Bytes
public_suffixes =
    codes "com.vn"
    ∷ codes "net.vn"
    ∷ codes "org.vn"
    ∷ codes "edu.vn"
    ∷ codes "gov.vn"
    ∷ codes "ac.vn"
    ∷ codes "co.uk"
    ∷ codes "org.uk"
    ∷ codes "com.au"
    ∷ codes "net.au"
    ∷ codes "co.jp"
    ∷ codes "com.cn"
    ∷ codes "com.br"
    ∷ codes "co.in"
    ∷ codes "com.mx"
    ∷ codes "github.io"
    ∷ codes "gitlab.io"
    ∷ codes "pages.dev"
    ∷ codes "vercel.app"
    ∷ codes "netlify.app"
    ∷ []

-- Each error stands for its localized text.
pub data DomainError : Type 0 where
  empty_domain too_long missing_dot public_suffix bad_label bad_characters : DomainError

pub data Validated : Type 0 where
  ok : Bytes → Validated
  err : DomainError → Validated

abbrev pub is_label_byte : ℕ → Bool
is_label_byte b = is_alphanumeric b || b == b'-' || b == b'_'

-- The `for label in d.split('.')` loop, which returns at the first bad label.
unfoldable pub check_labels : Bytes → List Bytes → Validated
check_labels d [] = ok d
check_labels d (label ∷ labels) =
    let rest = check_labels d labels in
    if is_empty label || ltb 63 (length label)
    then err bad_label
    else if all is_label_byte label
    then rest
    else err bad_characters

abbrev pub normalize : Bytes → Bytes
normalize s = to_lowercase (trim_end_matches is_dot (trim s))

unfoldable pub is_public_suffix : Bytes → Bool
is_public_suffix d = contains public_suffixes d

-- The checks on the normalized text, in the source's order.
unfoldable pub validate_normalized : Bytes → Validated
validate_normalized d =
    if is_empty d
    then err empty_domain
    else if ltb 253 (length d)
    then err too_long
    else if not (contains_byte dot d)
    then err missing_dot
    else if is_public_suffix d
    then err public_suffix
    else check_labels d (split dot d)

unfoldable pub validate_domain : Bytes → Validated
unfolding validate_normalized check_labels is_public_suffix
validate_domain domain = validate_normalized (normalize domain)

unfoldable pub is_safe_blocklist_domain : Bytes → Bool
is_safe_blocklist_domain d =
    if is_empty d || ltb 253 (length d) || not (contains_byte dot d)
    then false
    else if is_public_suffix d
    then false
    else all (λ label. not (is_empty label) && leb (length label) 63 && all is_label_byte label)
        (split dot d)

-- The values that `rest` takes in `while let Some(dot_pos) = rest.find('.')`: what follows each dot.
abbrev pub parents : Bytes → List Bytes
parents [] = []
parents (b ∷ s) = if b == dot then s ∷ parents s else parents s

unfoldable pub match_domain_hierarchy : Bytes → List Bytes → Bool
match_domain_hierarchy domain set =
    contains set domain || any (λ rest. not (is_empty rest) && contains set rest) (parents domain)
